-- ===== src/Rbac/Decisions.antt =====
-- packages/rbac/src/engine.ts: what the decision over the effective permissions means.
use mavio_mcp.Base.{
  ◌≡◌, refl, ◌↔◌, ◌⊎◌, String, Bool, true, false, Option, none, some, List, [], ◌∷◌, arith, any,
  All, Bool-cases, inl, inr,
}
use mavio_mcp.Rbac.{ResourceRef, Effect, allow, deny, Permission}
use mavio_mcp.Rbac.Engine.{Effective, applies, or_else, decide}

abbrev is_found : Option Permission → Bool
is_found none = false
is_found (some _) = true

allow-or-deny : (x : Effect) → (x ≡ allow) ⊎ (x ≡ deny)
allow-or-deny allow = inl refl
allow-or-deny deny = inr refl

module _ (action : String) (resource : ResourceRef) where
  -- No permission that applies denies.
  abbrev pub Undenied : List Effective → Type 0
  Undenied es = All (λ e. applies action resource e ≡ true → e.permission.effect ≡ allow) es

  decide-miss :
      (e : Effective) (es : List Effective) (found : Option Permission)
      → applies action resource e ≡ false
      → decide action resource (e ∷ es) found ≡ decide action resource es found
  unfolding decide
  decide-miss e es found miss = rw miss

  decide-allow :
      (e : Effective) (es : List Effective) (found : Option Permission)
      → applies action resource e ≡ true
      → e.permission.effect ≡ allow
      → decide action resource (e ∷ es) found
        ≡ decide action resource es (or_else found e.permission)
  unfolding decide
  decide-allow e es found hit good = rw (hit, good)

  decide-deny :
      (e : Effective) (es : List Effective) (found : Option Permission)
      → applies action resource e ≡ true
      → e.permission.effect ≡ deny
      → decide action resource (e ∷ es) found
        ≡ record { allowed = false; reason = "explicit deny"; matched = some e.permission }
  unfolding decide
  decide-deny e es found hit bad = rw (hit, bad)

  decide_iff_from :
      (es : List Effective) (found : Option Permission)
      → ((decide action resource es found).allowed ≡ true)
        ↔ (Undenied es × ((any (applies action resource) es ≡ true) ⊎ (is_found found ≡ true)))
  unfolding decide
  decide_iff_from [] none = ground arith
  decide_iff_from [] (some p) = ground arith
  decide_iff_from (e ∷ es) found = elim (Bool-cases (applies action resource e)) [
    | inl hit ↦ elim (allow-or-deny e.permission.effect) [
      | inl good ↦
          ground (
            arith,
            decide-allow e es found hit good,
            decide_iff_from es (or_else found e.permission),
          )
      | inr bad ↦ ground (arith, decide-deny e es found hit bad)
    ]
    | inr miss ↦ ground (arith, decide-miss e es found miss, decide_iff_from es found)
  ]

-- Access is granted exactly when some effective permission applies and none that applies denies,
-- in whatever order the permissions come.
pub decide-allowed_iff :
    (action : String) (resource : ResourceRef) (es : List Effective)
    → ((decide action resource es none).allowed ≡ true)
      ↔ (Undenied action resource es × (any (applies action resource) es ≡ true))
decide-allowed_iff action resource es = ground (arith, decide_iff_from action resource es none)
