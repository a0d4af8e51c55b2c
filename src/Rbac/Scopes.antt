-- ===== src/Rbac/Scopes.antt =====
-- packages/rbac/src/engine.ts: `scopeContains` orders scopes, and what `can` allows.
use mavio_mcp.Base.{
  ℕ, ◌≡◌, refl, String, Bool, true, ◌&&◌, Option, none, some, arith, eq_iff, any-witness, All-zip,
  inl, inr, Option-cases,
}
use mavio_mcp.Rbac.{ResourceRef, allow, Decision, RoleProvider}
use mavio_mcp.Rbac.Engine.{
  Effective, covers, scope_contains, action_matches, applies, decide, expand, can,
}
use mavio_mcp.Rbac.Provenance.{IsAssigned, expand-IsAssigned}
use mavio_mcp.Rbac.Decisions.{decide-allowed_iff}

covers_refl : (c : Option String) → covers c c ≡ true
covers_refl none = refl
covers_refl (some s) = ground (arith, eq_iff s s)

covers_trans : (c t u : Option String) → covers c t ≡ true → covers t u ≡ true → covers c u ≡ true
covers_trans none t u h k = refl
covers_trans (some s) none none h k = h
covers_trans (some s) none (some v) h k = ground (arith, eq_iff s "")
covers_trans (some s) (some t) none h k = ground (arith, eq_iff s "", eq_iff t "", eq_iff s t)
covers_trans (some s) (some t) (some v) h k =
    ground (arith, eq_iff s "", eq_iff t "", eq_iff s t, eq_iff t v, eq_iff s v)

and_four :
    (a b c d : Bool)
    → (a && (b && (c && d))) ≡ true
    → (a ≡ true) × (b ≡ true) × (c ≡ true) × (d ≡ true)
and_four a b c d h = ground arith

and_three : (a b c : Bool) → (a && (b && c)) ≡ true → (a ≡ true) × (b ≡ true) × (c ≡ true)
and_three a b c h = ground arith

four_and :
    {a b c d : Bool} → a ≡ true → b ≡ true → c ≡ true → d ≡ true → (a && (b && (c && d))) ≡ true
four_and p q r s = rw (p, q, r, s)

pub scope_contains_refl : (r : ResourceRef) → scope_contains r r ≡ true
unfolding scope_contains
scope_contains_refl r = ground (
  arith,
  covers_refl r.workspace,
  covers_refl r.project,
  covers_refl r.server,
  covers_refl r.tool,
)

-- A scope within a scope: what the inner one contains, the outer one contains.
pub scope_contains_trans :
    (c t u : ResourceRef)
    → scope_contains c t ≡ true
    → scope_contains t u ≡ true
    → scope_contains c u ≡ true
unfolding scope_contains
scope_contains_trans c t u h k =
    let (w, p, s, o) = and_four _ _ _ _ h in
    let (w', p', s', o') = and_four _ _ _ _ k in
    four_and (covers_trans c.workspace t.workspace u.workspace w w')
      (covers_trans c.project t.project u.project p p')
      (covers_trans c.server t.server u.server s s') (covers_trans c.tool t.tool u.tool o o')

-- What makes a permission a ground for access.
pub record Grants (provider : RoleProvider) (id action : String) (resource : ResourceRef)
    (e : Effective) : Type 0 where
  pub assigned : IsAssigned provider (provider.assignments_for id) e
  pub in_assignment_scope : scope_contains e.assignment_scope resource ≡ true
  pub matches : action_matches e.permission.action action ≡ true
  pub in_permission_scope : scope_contains e.permission.scope resource ≡ true
  pub effect : e.permission.effect ≡ allow

applies-tests :
    (action : String) (resource : ResourceRef) (e : Effective)
    → applies action resource e ≡ true
    → (scope_contains e.assignment_scope resource ≡ true)
      × (action_matches e.permission.action action ≡ true)
      × (scope_contains e.permission.scope resource ≡ true)
unfolding applies
applies-tests action resource e h = and_three _ _ _ h

-- The built-in engine allows an action only on the ground of a permission that allows it, whose
-- pattern matches it, whose scope has the resource, and that comes from a role the principal is
-- assigned in a scope that has the resource.
pub can-Grants :
    (provider : RoleProvider) (fuel : ℕ) (id action : String) (resource : ResourceRef)
    (d : Decision)
    → can provider fuel id action resource ≡ some d
    → d.allowed ≡ true
    → (e : Effective) × Grants provider id action resource e
unfolding can
can-Grants provider fuel id action resource d h ok =
    elim (Option-cases (expand provider fuel (provider.assignments_for id))) [
      | inl ended ↦ absurd (cc)
      | inr (es, expanded) ↦
          let decision : decide action resource es none ≡ d = ground arith in
          let (undenied, some_applies) =
            (decide-allowed_iff action resource es).0 (rw decision ok) in
          let sources = expand-IsAssigned provider fuel (provider.assignments_for id) es expanded in
          let (e, hit, (source, effect)) =
            any-witness _ (applies action resource) es some_applies
              (All-zip _ _ es sources undenied) in
          let (assignment, matching, permission) = applies-tests action resource e hit in
          (
            e,
            record {
              assigned = source;
              in_assignment_scope = assignment;
              matches = matching;
              in_permission_scope = permission;
              effect = effect hit;
            },
          )
    ]
