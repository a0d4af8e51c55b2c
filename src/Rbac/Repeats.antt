-- ===== src/Rbac/Repeats.antt =====
-- packages/rbac/src/engine.ts: `expand` shares one set of seen roles among the assignments, so a
-- role that a second assignment names adds nothing, whatever its scope.
use mavio_mcp.Base.{
  ℕ, zero, suc, ◌≡◌, String, true, Option, none, some, List, [], ◌∷◌, ◌++◌, map, arith, eq_iff, inl,
  inr, ◌⊎◌, Bool-cases, Option-cases,
}
use mavio_mcp.Rbac.{ResourceRef, Role, RoleAssignment, RoleProvider}
use mavio_mcp.Rbac.Engine.{
  contains, Found, parents, visit_parents, tagged, collect_role_permissions, expand_from, expand,
  can, decided,
}

module _ (provider : RoleProvider) (n : String) where
  open provider use {get_role}

  -- The name is seen in the result.
  abbrev Seen : Option Found → Type 0
  Seen none = Unit {0}
  Seen (some st) = contains n st.0 ≡ true

  visit_parents-Seen :
      (visit : Role → Found → Option Found)
      → ((q : Role) (st : Found) → contains n st.0 ≡ true → Seen (visit q st))
      → (ps : List String) (st : Found) → contains n st.0 ≡ true
      → Seen (visit_parents provider visit ps st)
  unfolding visit_parents
  visit_parents-Seen visit ok [] st h = h
  visit_parents-Seen visit ok (p ∷ ps) st h = elim (Option-cases (get_role p)) [
    | inl missing ↦ rw (missing, visit_parents) (visit_parents-Seen visit ok ps st h)
    | inr (q, found) ↦
        let seen = ok q st h in
        elim (Option-cases (visit q st)) [
          | inl ended ↦ rw (found, visit_parents, ended) tt
          | inr (st', e) ↦
              rw (found, visit_parents, e) (visit_parents-Seen visit ok ps st' (rw e at seen))
        ]
  ]

  collect-Seen :
      (fuel : ℕ) (scope : ResourceRef) (r : Role) (st : Found)
      → contains n st.0 ≡ true
      → Seen (collect_role_permissions provider fuel scope r st)
  unfolding collect_role_permissions
  collect-Seen zero scope r st h = tt
  collect-Seen (suc fuel) scope r (seen, out) h = elim (Bool-cases (contains r.name seen)) [
    | inl old ↦ rw (old, collect_role_permissions) h
    | inr new ↦
        rw (new, collect_role_permissions)
          (visit_parents-Seen (λ q st. collect_role_permissions provider fuel scope q st)
            (collect-Seen fuel scope) (parents r)
            (r.name ∷ seen, out ++ map (tagged provider scope) r.permissions) (ground arith))
  ]

module _ (provider : RoleProvider) where
  collect-marks :
      (fuel : ℕ) (scope : ResourceRef) (r : Role) (st : Found)
      → Seen provider r.name (collect_role_permissions provider fuel scope r st)
  unfolding collect_role_permissions
  collect-marks zero scope r st = tt
  collect-marks (suc fuel) scope r (seen, out) = elim (Bool-cases (contains r.name seen)) [
    | inl old ↦ rw (old, collect_role_permissions) old
    | inr new ↦
        rw (new, collect_role_permissions)
          (visit_parents-Seen provider r.name
            (λ q st. collect_role_permissions provider fuel scope q st)
            (collect-Seen provider r.name fuel scope) (parents r)
            (r.name ∷ seen, out ++ map (tagged provider scope) r.permissions)
            (ground (arith, eq_iff r.name r.name)))
  ]

  collect_again :
      (fuel : ℕ) (scope : ResourceRef) (r : Role) (st : Found)
      → contains r.name st.0 ≡ true
      → collect_role_permissions provider (suc fuel) scope r st ≡ some st
  unfolding collect_role_permissions
  collect_again fuel scope r (seen, out) h = rw (h, collect_role_permissions)

  expand_again :
      (fuel : ℕ) (b : RoleAssignment) (r : Role) (xs : List RoleAssignment) (st : Found)
      → provider.get_role b.role_name ≡ some r
      → contains r.name st.0 ≡ true
      → expand_from provider (suc fuel) (b ∷ xs) st ≡ expand_from provider (suc fuel) xs st
  unfolding expand_from
  expand_again fuel b r xs st found seen =
      rw (found, expand_from, collect_again fuel b.scope r st seen)

  -- The assignment adds nothing.
  abbrev Idle : RoleAssignment → Found → Type 0
  Idle b st =
      (provider.get_role b.role_name ≡ none)
      ⊎ ((r : Role) × (provider.get_role b.role_name ≡ some r) × (contains r.name st.0 ≡ true))

  skip-Idle :
      (fuel : ℕ) (b : RoleAssignment) (ys zs : List RoleAssignment) (st : Found)
      → Idle b st
      → expand_from provider (suc fuel) (ys ++ (b ∷ zs)) st
        ≡ expand_from provider (suc fuel) (ys ++ zs) st
  unfolding expand_from
  skip-Idle fuel b [] zs st (inl missing) = rw (missing, expand_from)
  skip-Idle fuel b [] zs st (inr (r, found, seen)) = expand_again fuel b r zs st found seen
  skip-Idle fuel b (y ∷ ys) zs st idle = elim (Option-cases (provider.get_role y.role_name)) [
    | inl missing ↦ rw (missing, expand_from) (skip-Idle fuel b ys zs st idle)
    | inr (r, found) ↦
        elim (Option-cases (collect_role_permissions provider (suc fuel) y.scope r st)) [
          | inl ended ↦ rw (found, expand_from, ended)
          | inr (st', e) ↦
              rw (found, expand_from, e)
                (skip-Idle fuel b ys zs st' (elim idle [
                  | inl missing ↦ inl missing
                  | inr (q, there, seen) ↦ inr (
                    q,
                    there,
                    rw e at (collect-Seen provider q.name (suc fuel) y.scope r st seen),
                  )
                ]))
        ]
  ]

  expand_from_repeated :
      (fuel : ℕ) (a b : RoleAssignment) (xs ys zs : List RoleAssignment) (st : Found)
      → a.role_name ≡ b.role_name
      → expand_from provider (suc fuel) (xs ++ (a ∷ (ys ++ (b ∷ zs)))) st
        ≡ expand_from provider (suc fuel) (xs ++ (a ∷ (ys ++ zs))) st
  unfolding expand_from
  expand_from_repeated fuel a b [] ys zs st same =
      elim (Option-cases (provider.get_role a.role_name)) [
        | inl missing ↦
            rw (missing, expand_from) (skip-Idle fuel b ys zs st (inl (rw (← same) missing)))
        | inr (r, found) ↦
            let marked = collect-marks (suc fuel) a.scope r st in
            elim (Option-cases (collect_role_permissions provider (suc fuel) a.scope r st)) [
              | inl ended ↦ rw (found, expand_from, ended)
              | inr (st', e) ↦
                  rw (found, expand_from, e)
                    (skip-Idle fuel b ys zs st' (inr (r, rw (← same) found, rw e at marked)))
            ]
      ]
  expand_from_repeated fuel a b (x ∷ xs) ys zs st same =
      elim (Option-cases (provider.get_role x.role_name)) [
        | inl missing ↦ rw (missing, expand_from) (expand_from_repeated fuel a b xs ys zs st same)
        | inr (r, found) ↦
            elim (Option-cases (collect_role_permissions provider (suc fuel) x.scope r st)) [
              | inl ended ↦ rw (found, expand_from, ended)
              | inr (st', e) ↦
                  rw (found, expand_from, e) (expand_from_repeated fuel a b xs ys zs st' same)
            ]
      ]

-- Of two assignments of one role to a principal, wherever they stand in the list, only the first
-- counts: whatever the scope of the second, the decisions are those that the other assignments
-- give.
pub can_repeated :
    (provider : RoleProvider) (a b : RoleAssignment) (xs ys zs : List RoleAssignment) (fuel : ℕ)
    (id action : String) (resource : ResourceRef)
    → provider.assignments_for id ≡ xs ++ (a ∷ (ys ++ (b ∷ zs)))
    → a.role_name ≡ b.role_name
    → can provider (suc fuel) id action resource
      ≡ decided provider action resource (expand provider (suc fuel) (xs ++ (a ∷ (ys ++ zs))))
unfolding can expand
can_repeated provider a b xs ys zs fuel id action resource given same =
    rw (given, expand_from_repeated provider fuel a b xs ys zs ([], []) same)
