-- ===== src/Access/Admission.antt =====
-- apps/server/src: whom the guards let in, and on what ground.
use mathlib.Core.Path.{subst}
use mavio_mcp.Base.{
  ℕ, String, true, Option, none, some, List, ◌≡◌, ◌⊎◌, refl, sym, ◌∙◌, inl, inr, Bool-cases,
}
use mavio_mcp.Core.{Principal}
use mavio_mcp.Rbac.{ResourceRef, Decision}
use mavio_mcp.Access.{Url, HttpRequest, Settings}
use mavio_mcp.Access.Csrf.{CsrfVerdict, next, forbidden, csrf_protection}
use mavio_mcp.Access.Sessions.{Redis, SessionCodec}
use mavio_mcp.Access.Principals.{Resolution, known, nobody, unauthorized, resolve_principal}
use mavio_mcp.Access.Guards.{
  PermissionRequirement, DenyNote, admitted, has_star, resource_of, rbac_guard, admission, answer,
  api_key_guard, let_in,
}
use mavio_mcp.Access.Origins.{SafeOrigin, csrf_protection-SafeOrigin}
use mavio_mcp.Access.Vouching.{Vouched, resolve_principal-Sound}

Resolution-cases :
    (r : Resolution)
    → ((p : Principal) × (r ≡ known p)) ⊎ ((r ≡ nobody) ⊎ ((m : String) × (r ≡ unauthorized m)))
Resolution-cases (known p) = inl (p, refl)
Resolution-cases nobody = inr (inl refl)
Resolution-cases (unauthorized m) = inr (inr (m, refl))

CsrfVerdict-cases : (v : CsrfVerdict) → (v ≡ next) ⊎ ((m : String) × (v ≡ forbidden m))
CsrfVerdict-cases next = inl refl
CsrfVerdict-cases (forbidden m) = inr (m, refl)

-- The requirement of the endpoint is met.
abbrev pub Permitted :
    (Principal → String → ResourceRef → Decision)
    → Option PermissionRequirement
    → HttpRequest
    → Principal
    → Type 0
Permitted can requirement req p =
    (requirement ≡ none)
    ⊎ ((r : PermissionRequirement) × (requirement ≡ some r)
        × ((has_star p ≡ true) ⊎ ((can p r.action (resource_of r req)).allowed ≡ true)))

module _ (can : Principal → String → ResourceRef → Decision) where
  admitted_inj : {p q : Principal} → admitted p ≡ admitted q → p ≡ q
  admitted_inj {p} {q} e = cc e

  -- Where the guard throws nothing, the requirement is met.
  abbrev Checked : Option PermissionRequirement → HttpRequest → Principal → Option String → Type 0
  Checked requirement req p thrown = thrown ≡ none → Permitted can requirement req p

  rbac_guard-Checked :
      (log : List DenyNote) (requirement : Option PermissionRequirement) (req : HttpRequest)
      (p : Principal)
      → Checked requirement req p (rbac_guard can log requirement req (some p)).1
  unfolding rbac_guard
  rbac_guard-Checked log none req p = λ e. inl refl
  rbac_guard-Checked log (some r) req p = elim (Bool-cases (has_star p)) [
    | inl star ↦ λ e. inr (r, refl, inl star)
    | inr plain ↦ elim (Bool-cases (can p r.action (resource_of r req)).allowed) [
      | inl allowed ↦ λ e. inr (r, refl, inr allowed)
      | inr denied ↦ rw (rbac_guard, plain) (rw (rbac_guard, denied) (λ e. absurd (cc e)))
    ]
  ]

  admission-admitted :
      (p q : Principal) (thrown : Option String)
      → admission p thrown ≡ admitted q
      → (q ≡ p) × (thrown ≡ none)
  admission-admitted p q none e = (sym (admitted_inj e), refl)
  admission-admitted p q (some m) e = absurd (cc e)

  module _ {W : Type 0} (redis : Redis W) (codec : SessionCodec)
      (parse_cookie : String → String → Option String) (find_by_api_key : String → Option Principal)
      (parse_url : String → Option Url) (settings : Settings) (w : W) (log : List DenyNote)
      (requirement : Option PermissionRequirement) (req : HttpRequest) (now : ℕ) where
    abbrev resolution : Resolution
    resolution =
        (resolve_principal redis codec parse_cookie find_by_api_key settings w req true now).1

    abbrev guarded : Resolution
    guarded =
        (api_key_guard can redis codec parse_cookie find_by_api_key parse_url settings w req now).1

    answer-known : (r : Resolution) (p : Principal) → answer r ≡ known p → r ≡ known p
    answer-known (known q) p e = e
    answer-known nobody p e = absurd (cc e)
    answer-known (unauthorized m) p e = absurd (cc e)

    guarded-answer : guarded ≡ answer resolution
    unfolding api_key_guard
    guarded-answer = refl

    -- The guard knows whom the resolver knows.
    guarded-known : (p : Principal) → guarded ≡ known p → resolution ≡ known p
    guarded-known p e = answer-known resolution p (sym guarded-answer ∙ e)

    -- A request that is let in comes from a page that is trusted, or does not need to; its
    -- principal is vouched for by the proxy or certificate, by a session that has not expired, by
    -- the admin key or by a stored key, or is the default of a server without admin key; and the
    -- requirement of the endpoint is met by the policy engine or by the scope `*`.
    pub let_in-Admitted :
        (p : Principal)
        → (let_in can redis codec parse_cookie find_by_api_key parse_url settings w log requirement
            req now).1.1
          ≡ admitted p
        → SafeOrigin parse_url settings req
          × Vouched redis codec parse_cookie find_by_api_key settings w req now p
          × Permitted can requirement req p
    unfolding let_in
    let_in-Admitted = elim (CsrfVerdict-cases (csrf_protection parse_url settings req)) [
      | inr (m, stopped) ↦ rw (let_in, stopped) (λ p e. absurd (cc e))
      | inl passed ↦ elim (Resolution-cases guarded) [
        | inr (inl anonymous) ↦ rw (let_in, passed) (rw (let_in, anonymous) (λ p e. absurd (cc e)))
        | inr (inr (m, refused)) ↦ rw (let_in, passed) (rw (let_in, refused) (λ p e. absurd (cc e)))
        | inl (q, vouched) ↦
            rw (let_in, passed)
              (rw (let_in, vouched)
                (λ p e.
                  let (same, silent) =
                    admission-admitted q p (rbac_guard can log requirement req (some q)).1 e in
                  (
                    csrf_protection-SafeOrigin parse_url settings req passed,
                    subst
                        (λ u. Vouched redis codec parse_cookie find_by_api_key settings w req now u)
                        (sym same)
                        (resolve_principal-Sound redis codec parse_cookie find_by_api_key settings w
                          req now q (guarded-known q vouched)),
                    subst (λ u. Permitted can requirement req u) (sym same)
                        (rbac_guard-Checked log requirement req q silent),
                  )))
      ]
    ]
