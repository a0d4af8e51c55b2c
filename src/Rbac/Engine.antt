-- ===== src/Rbac/Engine.antt =====
-- packages/rbac/src/engine.ts: `BuiltinRbacEngine`. A promise that resolves is its value. The
-- recursion over inherited roles takes fuel, and `none` means that the fuel ran out; Expansion has
-- the fuel that is enough.
use Prim.Native.Char.{code}
use mavio_mcp.Base.{
  ℕ, zero, suc, String, Bool, true, false, ◌&&◌, ◌||◌, Option, none, some, List, [], ◌∷◌, ◌++◌, map,
  any, str_eq, ◌==◌, if◌then◌else◌,
}
use mavio_mcp.Rbac.{
  ResourceRef, Effect, allow, deny, Permission, Role, RoleAssignment, Decision, RoleProvider,
}

-- `text.split(":")[0]`.
unfoldable pub family : String → String
family String.[] = String.[]
family (String.◌∷◌ c s) = if code c == b':' then String.[] else String.◌∷◌ c (family s)

-- `text.endsWith(":*")`.
unfoldable pub ends_in_wildcard : String → Bool
ends_in_wildcard String.[] = false
ends_in_wildcard (String.◌∷◌ c s) = str_eq (String.◌∷◌ c s) ":*" || ends_in_wildcard s

unfoldable pub action_matches : String → String → Bool
action_matches pattern action =
    if str_eq pattern "*"
    then true
    else if str_eq pattern action
    then true
    else ends_in_wildcard pattern && str_eq (family pattern) (family action)

-- One dimension of `scopeContains`: unset or empty in the container, or equal.
abbrev pub covers : Option String → Option String → Bool
covers none t = true
covers (some c) none = str_eq c ""
covers (some c) (some t) = str_eq c "" || str_eq c t

unfoldable pub scope_contains : ResourceRef → ResourceRef → Bool
scope_contains c t =
    covers c.workspace t.workspace
    && (covers c.project t.project && (covers c.server t.server && covers c.tool t.tool))

pub record Effective : Type 0 where
  pub permission : Permission
  pub assignment_scope : ResourceRef

-- The three tests that let the loop of `can` go on with a permission.
unfoldable pub applies : String → ResourceRef → Effective → Bool
applies action resource e =
    scope_contains e.assignment_scope resource
    && (action_matches e.permission.action action && scope_contains e.permission.scope resource)

abbrev pub is_deny : Effect → Bool
is_deny deny = true
is_deny allow = false

abbrev pub or_else : Option Permission → Permission → Option Permission
or_else none p = some p
or_else (some q) p = some q

abbrev pub conclude : Option Permission → Decision
conclude none = record { allowed = false; reason = "no matching permission"; matched = none }
conclude (some p) = record { allowed = true; reason = "allow"; matched = some p }

-- The loop of `can` over the effective permissions, and what it returns.
unfoldable pub decide : String → ResourceRef → List Effective → Option Permission → Decision
decide action resource [] found = conclude found
decide action resource (e ∷ es) found =
    let hit = applies action resource e in
    let later = decide action resource es (if hit then or_else found e.permission else found) in
    if hit && is_deny e.permission.effect
    then record { allowed = false; reason = "explicit deny"; matched = some e.permission }
    else later

abbrev pub contains : String → List String → Bool
contains name seen = any (λ s. str_eq s name) seen

-- `seen` and `out`.
abbrev pub Found : Type 0
Found = List String × List Effective

abbrev pub parents : Role → List String
parents r = elim r.inherits [ none ↦ [] | some names ↦ names ]

module _ (provider : RoleProvider) where
  open provider use {get_role, assignments_for}

  -- The loop over `role.inherits`.
  unfoldable pub visit_parents : (Role → Found → Option Found) → List String → Found → Option Found
  visit_parents visit [] st = some st
  visit_parents visit (name ∷ names) st = elim (get_role name) [
    | none ↦ visit_parents visit names st
    | some parent ↦ elim (visit parent st) [
      | none ↦ none
      | some st' ↦ visit_parents visit names st'
    ]
  ]

  abbrev pub tagged : ResourceRef → Permission → Effective
  tagged scope p = record { permission = p; assignment_scope = scope }

  unfoldable pub collect_role_permissions : ℕ → ResourceRef → Role → Found → Option Found
  collect_role_permissions zero scope role st = none
  collect_role_permissions (suc fuel) scope role (seen, out) = elim (contains role.name seen) [
    | true ↦ some (seen, out)
    | false ↦
        visit_parents (λ r st. collect_role_permissions fuel scope r st) (parents role)
          (role.name ∷ seen, out ++ map (tagged scope) role.permissions)
  ]

  -- The loop of `expand`.
  unfoldable pub expand_from : ℕ → List RoleAssignment → Found → Option Found
  expand_from fuel [] st = some st
  expand_from fuel (a ∷ as_) st = elim (get_role a.role_name) [
    | none ↦ expand_from fuel as_ st
    | some role ↦ elim (collect_role_permissions fuel a.scope role st) [
      | none ↦ none
      | some st' ↦ expand_from fuel as_ st'
    ]
  ]

  abbrev pub found_effective : Option Found → Option (List Effective)
  found_effective none = none
  found_effective (some st) = some st.1

  unfoldable pub expand : ℕ → List RoleAssignment → Option (List Effective)
  expand fuel assignments = found_effective (expand_from fuel assignments ([], []))

  abbrev pub decided : String → ResourceRef → Option (List Effective) → Option Decision
  decided action resource none = none
  decided action resource (some es) = some (decide action resource es none)

  unfoldable pub can : ℕ → String → String → ResourceRef → Option Decision
  can fuel principal_id action resource =
      decided action resource (expand fuel (assignments_for principal_id))
