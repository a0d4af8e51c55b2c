-- ===== src/Rbac/Expansion.antt =====
-- packages/rbac/src/engine.ts: `expand` ends, for inheritance graphs with cycles too.
use mavio_mcp.Base.{
  ℕ, zero, suc, ◌≤◌, ◌<◌, ◌≡◌, refl, String, true, false, Option, none, some, List, [], ◌∷◌, ◌++◌,
  map, arith, eq_iff, length, inl, inr, if◌then◌else◌, Bool-cases, Option-cases,
}
use mavio_mcp.Rbac.{ResourceRef, Role, RoleAssignment, Decision, RoleProvider}
use mavio_mcp.Rbac.Engine.{
  contains, Found, parents, visit_parents, tagged, collect_role_permissions, expand_from, expand,
  can, decide,
}

-- How many of the names are not yet seen.
unseen : List String → List String → ℕ
unseen [] seen = 0
unseen (n ∷ names) seen = if contains n seen then unseen names seen else suc (unseen names seen)

unseen-cons-le :
    (n : String) (names seen : List String) → unseen names (n ∷ seen) ≤ unseen names seen
unfolding unseen
unseen-cons-le n [] seen = omega arith
unseen-cons-le n (m ∷ names) seen = ground (arith, unseen-cons-le n names seen)

unseen-cons-lt :
    (n : String) (names seen : List String)
    → contains n names ≡ true
    → contains n seen ≡ false
    → unseen names (n ∷ seen) < unseen names seen
unfolding unseen
unseen-cons-lt n [] seen here new = cc
unseen-cons-lt n (m ∷ names) seen here new =
    ground (arith, unseen-cons-le n names seen, unseen-cons-lt n names seen, eq_iff n m, eq_iff m n)

unseen-nil : (names : List String) → unseen names [] ≡ length names
unfolding unseen
unseen-nil [] = refl
unseen-nil (m ∷ names) = ground (arith, unseen-nil names)

module _ (provider : RoleProvider) (names : List String)
    (known : (n : String) (r : Role)
      → provider.get_role n ≡ some r
      → contains r.name names ≡ true) where
  open provider use {get_role}

  -- A result, with no more names left to see than before.
  abbrev Ends : List String → Option Found → Type 0
  Ends seen result = (st : Found) × (result ≡ some st) × (unseen names st.0 ≤ unseen names seen)

  visit_parents-Ends :
      (fuel : ℕ) (visit : Role → Found → Option Found)
      → ((r : Role) (st : Found)
          → contains r.name names ≡ true
          → unseen names st.0 < fuel
          → Ends st.0 (visit r st))
      → (ps : List String) (st : Found) → unseen names st.0 < fuel
      → Ends st.0 (visit_parents provider visit ps st)
  unfolding visit_parents
  visit_parents-Ends fuel visit ends [] st h = (st, refl, omega arith)
  visit_parents-Ends fuel visit ends (p ∷ ps) st h = elim (Option-cases (get_role p)) [
    | inl missing ↦ rw (missing, visit_parents) (visit_parents-Ends fuel visit ends ps st h)
    | inr (r, found) ↦
        let (st', e, le) = ends r st (known p r found) h in
        let (st'', e', le') = visit_parents-Ends fuel visit ends ps st' (omega arith) in
        (st'', rw (found, visit_parents, e) e', omega arith)
  ]

  collect-Ends :
      (fuel : ℕ) (scope : ResourceRef) (role : Role) (st : Found)
      → contains role.name names ≡ true
      → unseen names st.0 < fuel
      → Ends st.0 (collect_role_permissions provider fuel scope role st)
  unfolding collect_role_permissions
  collect-Ends zero scope role (seen, out) k h = absurd (omega arith)
  collect-Ends (suc fuel) scope role (seen, out) k h = elim (Bool-cases (contains role.name seen)) [
    | inl old ↦ ((seen, out), rw (old, collect_role_permissions), omega arith)
    | inr new ↦
        let lt = unseen-cons-lt role.name names seen k new in
        let (st', e, le) =
          visit_parents-Ends fuel (λ r st. collect_role_permissions provider fuel scope r st)
            (collect-Ends fuel scope) (parents role)
            (role.name ∷ seen, out ++ map (tagged provider scope) role.permissions) (omega arith) in
        (st', rw (new, collect_role_permissions) e, omega arith)
  ]

  expand_from-Ends :
      (fuel : ℕ) (xs : List RoleAssignment) (st : Found)
      → unseen names st.0 < fuel
      → Ends st.0 (expand_from provider fuel xs st)
  unfolding expand_from
  expand_from-Ends fuel [] st h = (st, refl, omega arith)
  expand_from-Ends fuel (a ∷ xs) st h = elim (Option-cases (get_role a.role_name)) [
    | inl missing ↦ rw (missing, expand_from) (expand_from-Ends fuel xs st h)
    | inr (r, found) ↦
        let (st', e, le) = collect-Ends fuel a.scope r st (known a.role_name r found) h in
        let (st'', e', le') = expand_from-Ends fuel xs st' (omega arith) in
        (st'', rw (found, expand_from, e) e', omega arith)
  ]

  -- `can` always comes to a decision: where the provider's roles have names from a finite list,
  -- the recursion over inherited roles, cycles included, ends within one call for each name.
  pub can-total :
      (fuel : ℕ) (id action : String) (resource : ResourceRef)
      → length names < fuel
      → (d : Decision) × (can provider fuel id action resource ≡ some d)
  unfolding can expand
  can-total fuel id action resource h =
      let (st, e, _) =
        expand_from-Ends fuel (provider.assignments_for id) ([], []) (rw (unseen-nil names) h) in
      (decide action resource st.1 none, rw (e, can, expand))
