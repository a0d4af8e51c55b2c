-- ===== src/Rbac/Roles.antt =====
-- packages/rbac/src/roles.ts: the roles that come with the program.
use mavio_mcp.Base.{String, Option, none, List, [], ◌∷◌, map, find, str_eq}
use mavio_mcp.Rbac.Actions
use mavio_mcp.Rbac.{ResourceRef, allow, Permission, Role}

-- `scope: {}`.
abbrev pub any_scope : ResourceRef
any_scope = record { workspace = none; project = none; server = none; tool = none }

-- `{ action, scope: {}, effect: "allow" }`.
abbrev pub allowing : String → Permission
allowing a = record { action = a; scope = any_scope; effect = allow }

abbrev plain_role : String → List String → Role
plain_role name actions = record {
  name = name;
  inherits = none;
  permissions = map allowing actions;
}

abbrev pub owner : Role
owner = plain_role "owner" ("*" ∷ [])

abbrev pub admin : Role
admin = plain_role "admin" (
    Actions.workspace_admin ∷ Actions.project_read ∷ Actions.project_write ∷ Actions.server_read
    ∷ Actions.server_write ∷ Actions.server_invoke ∷ Actions.server_admin
    ∷ Actions.server_import_submit ∷ Actions.server_approve ∷ Actions.tool_invoke
    ∷ Actions.config_write ∷ Actions.audit_read ∷ Actions.event_route_submit
    ∷ Actions.event_route_approve ∷ Actions.event_publish ∷ [])

abbrev pub developer : Role
developer = plain_role "developer" (
    Actions.project_read ∷ Actions.server_read ∷ Actions.server_write ∷ Actions.server_import_submit
    ∷ Actions.server_invoke ∷ Actions.tool_invoke ∷ Actions.event_route_submit ∷ [])

abbrev pub operator : Role
operator =
    plain_role "operator" (Actions.project_read ∷ Actions.server_read ∷ Actions.server_admin ∷ [])

abbrev pub viewer : Role
viewer = plain_role "viewer" (Actions.project_read ∷ Actions.server_read ∷ [])

abbrev pub tool_invoker : Role
tool_invoker = plain_role "tool.invoker" (Actions.tool_invoke ∷ [])

abbrev pub builtin_roles : List Role
builtin_roles = owner ∷ admin ∷ developer ∷ operator ∷ viewer ∷ tool_invoker ∷ []

unfoldable pub get_builtin_role : String → Option Role
get_builtin_role name = find (λ r. str_eq r.name name) builtin_roles
