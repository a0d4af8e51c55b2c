-- ===== src/Rbac/Builtin.antt =====
-- packages/rbac/src/roles.ts under the built-in engine: what the roles of the program allow.
use mavio_mcp.Base.{
  ◌≡◌, refl, ◌↔◌, ◌⊎◌, String, true, ◌&&◌, none, some, List, [], ◌∷◌, arith, str_eq, eq_iff,
}
use mavio_mcp.Rbac.Actions
use mavio_mcp.Rbac.Roles.{allowing, get_builtin_role}
use mavio_mcp.Rbac.Decisions.{decide-allowed_iff}
use mavio_mcp.Rbac.{ResourceRef, RoleAssignment, RoleProvider, Decision}
use mavio_mcp.Rbac.Engine.{
  Effective, ends_in_wildcard, action_matches, scope_contains, applies, decide, expand_from, expand,
  can, visit_parents, collect_role_permissions,
}

abbrev assigned : String → String → ResourceRef → RoleAssignment
assigned id name scope = record { principal_id = id; role_name = name; scope = scope }

-- A provider with the built-in roles and one assignment.
abbrev pub builtin_provider : String → ResourceRef → RoleProvider
builtin_provider name scope = record {
  get_role = get_builtin_role;
  assignments_for = λ id. assigned id name scope ∷ [];
}

abbrev viewer_permissions : ResourceRef → List Effective
viewer_permissions scope =
    record { permission = allowing Actions.project_read; assignment_scope = scope }
    ∷ record { permission = allowing Actions.server_read; assignment_scope = scope }
    ∷ []

applies-allowing :
    (p action : String) (scope resource : ResourceRef)
    → applies action resource (record { permission = allowing p; assignment_scope = scope })
      ≡ (scope_contains scope resource && action_matches p action)
unfolding applies scope_contains
applies-allowing p action scope resource = ground arith

read_projects :
    (action : String)
    → action_matches Actions.project_read action ≡ str_eq Actions.project_read action
unfolding action_matches ends_in_wildcard
read_projects action = ground arith

read_servers :
    (action : String)
    → action_matches Actions.server_read action ≡ str_eq Actions.server_read action
unfolding action_matches ends_in_wildcard
read_servers action = ground arith

-- A viewer may read projects and servers within the scope of the assignment, and nothing else.
pub viewer-reads_only :
    (id action : String) (scope resource : ResourceRef)
    → (d : Decision) × (can (builtin_provider "viewer" scope) 1 id action resource ≡ some d)
      × ((d.allowed ≡ true) ↔ (
          (scope_contains scope resource ≡ true)
          × ((action ≡ Actions.project_read) ⊎ (action ≡ Actions.server_read))))
unfolding can expand expand_from collect_role_permissions visit_parents get_builtin_role
viewer-reads_only id action scope resource = (
  decide action resource (viewer_permissions scope) none,
  refl,
  ground (
    arith,
    decide-allowed_iff action resource (viewer_permissions scope),
    applies-allowing Actions.project_read action scope resource,
    applies-allowing Actions.server_read action scope resource,
    read_projects action,
    read_servers action,
    eq_iff Actions.project_read action,
    eq_iff Actions.server_read action,
  ),
)
