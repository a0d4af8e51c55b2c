-- ===== src/Rbac/Provenance.antt =====
-- packages/rbac/src/engine.ts: where the effective permissions come from.
use mathlib.Core.List.{Memᴰ}
use mathlib.Core.Path.{subst}
use mavio_mcp.Base.{
  ℕ, zero, suc, ◌≡◌, refl, String, Option, none, some, List, [], ◌∷◌, ◌++◌, map, arith, All,
  All-append, inl, inr, Bool-cases, Option-cases,
}
use mavio_mcp.Rbac.{Permission, Role, RoleAssignment, RoleProvider}
use mavio_mcp.Rbac.Engine.{
  Effective, contains, Found, parents, visit_parents, tagged, collect_role_permissions, expand_from,
  expand,
}

-- The roles that a role name stands for: the role of that name, and those it inherits.
pub data Reaches (provider : RoleProvider) (name : String) : Role → Type 0 where
  named : {r : Role} → provider.get_role name ≡ some r → Reaches provider name r
  inherited :
      {r q : Role} {parent : String}
      → Reaches provider name r
      → Memᴰ parent (parents r)
      → provider.get_role parent ≡ some q
      → Reaches provider name q

-- An effective permission is one of a role that some assignment stands for, under its scope.
pub record IsAssigned (provider : RoleProvider) (xs : List RoleAssignment) (e : Effective)
    : Type 0 where
  pub assignment : RoleAssignment
  pub listed : Memᴰ assignment xs
  pub role : Role
  pub reached : Reaches provider assignment.role_name role
  pub permission : Memᴰ e.permission role.permissions
  pub scope : e.assignment_scope ≡ assignment.scope

module _ (provider : RoleProvider) (all : List RoleAssignment) where
  open provider use {get_role}

  abbrev Sound : Option Found → Type 0
  Sound none = Unit
  Sound (some st) = All (IsAssigned provider all) st.1

  module _ (a : RoleAssignment) (listed : Memᴰ a all) where
    visit_parents-Sound :
        (visit : Role → Found → Option Found) (r : Role)
        → Reaches provider a.role_name r
        → ((q : Role) (st : Found)
            → Reaches provider a.role_name q
            → All (IsAssigned provider all) st.1
            → Sound (visit q st))
        → (ps : List String) → ((p : String) → Memᴰ p ps → Memᴰ p (parents r))
        → (st : Found) → All (IsAssigned provider all) st.1
        → Sound (visit_parents provider visit ps st)
    unfolding visit_parents
    visit_parents-Sound visit r reach ok [] sub st h = h
    visit_parents-Sound visit r reach ok (p ∷ ps) sub st h = elim (Option-cases (get_role p)) [
      | inl missing ↦
          rw (missing, visit_parents)
            (visit_parents-Sound visit r reach ok ps (λ q m. sub q (Memᴰ.tail m)) st h)
      | inr (q, found) ↦
          let sound = ok q st (inherited reach (sub p (Memᴰ.head refl)) found) h in
          elim (Option-cases (visit q st)) [
            | inl ended ↦ rw (found, visit_parents, ended) tt
            | inr (st', e) ↦
                rw (found, visit_parents, e)
                  (visit_parents-Sound visit r reach ok ps (λ q m. sub q (Memᴰ.tail m)) st'
                    (rw e at sound))
          ]
    ]

    tagged-IsAssigned :
        (r : Role)
        → Reaches provider a.role_name r
        → (ps : List Permission) → ((p : Permission) → Memᴰ p ps → Memᴰ p r.permissions)
        → All (IsAssigned provider all) (map (tagged provider a.scope) ps)
    tagged-IsAssigned r reach [] sub = tt
    tagged-IsAssigned r reach (p ∷ ps) sub = (
      record {
        assignment = a;
        listed = listed;
        role = r;
        reached = reach;
        permission = sub p (Memᴰ.head refl);
        scope = refl;
      },
      tagged-IsAssigned r reach ps (λ q m. sub q (Memᴰ.tail m)),
    )

    collect-Sound :
        (fuel : ℕ) (r : Role) (st : Found)
        → Reaches provider a.role_name r
        → All (IsAssigned provider all) st.1
        → Sound (collect_role_permissions provider fuel a.scope r st)
    unfolding collect_role_permissions
    collect-Sound zero r st reach h = tt
    collect-Sound (suc fuel) r (seen, out) reach h = elim (Bool-cases (contains r.name seen)) [
      | inl old ↦ rw (old, collect_role_permissions) h
      | inr new ↦
          rw (new, collect_role_permissions)
            (visit_parents-Sound (λ q st. collect_role_permissions provider fuel a.scope q st) r
              reach (collect-Sound fuel) (parents r) (λ p m. m)
              (r.name ∷ seen, out ++ map (tagged provider a.scope) r.permissions)
              (All-append (IsAssigned provider all) out _ h
                (tagged-IsAssigned r reach r.permissions (λ p m. m))))
    ]

  expand_from-Sound :
      (fuel : ℕ) (xs : List RoleAssignment)
      → ((a : RoleAssignment) → Memᴰ a xs → Memᴰ a all)
      → (st : Found) → All (IsAssigned provider all) st.1
      → Sound (expand_from provider fuel xs st)
  unfolding expand_from
  expand_from-Sound fuel [] sub st h = h
  expand_from-Sound fuel (a ∷ xs) sub st h = elim (Option-cases (get_role a.role_name)) [
    | inl missing ↦
        rw (missing, expand_from) (expand_from-Sound fuel xs (λ q m. sub q (Memᴰ.tail m)) st h)
    | inr (r, found) ↦
        let sound = collect-Sound a (sub a (Memᴰ.head refl)) fuel r st (named found) h in
        elim (Option-cases (collect_role_permissions provider fuel a.scope r st)) [
          | inl ended ↦ rw (found, expand_from, ended) tt
          | inr (st', e) ↦
              rw (found, expand_from, e)
                (expand_from-Sound fuel xs (λ q m. sub q (Memᴰ.tail m)) st' (rw e at sound))
        ]
  ]

-- The expansion of assignments gives no permission away: each one is a permission of a role that
-- an assignment names, directly or through inherited roles, under the scope of that assignment.
pub expand-IsAssigned :
    (provider : RoleProvider) (fuel : ℕ) (xs : List RoleAssignment) (es : List Effective)
    → expand provider fuel xs ≡ some es
    → All (IsAssigned provider xs) es
unfolding expand
expand-IsAssigned provider fuel xs es h =
    elim (Option-cases (expand_from provider fuel xs ([], []))) [
      | inl ended ↦ absurd (cc)
      | inr (st, e) ↦
          let sound : Sound provider xs (some st) =
            rw e at (expand_from-Sound provider xs fuel xs (λ a m. m) ([], []) tt) in
          subst (All (IsAssigned provider xs)) (ground arith) sound
    ]
