-- ===== src/Registry/Principals.antt =====
-- packages/registry/src/rbac-repo.ts: `RbacRepository`, over the tables principals, roles and
-- role_assignments of migrate.ts. The SHA-256 digest and the random parts of keys and ids are
-- arguments. The principal of core is `Principal`; here a row of the table stands for it.
pub mod Keys
pub mod Tables
pub mod Assignments
mod Tests
use mavio_mcp.Base.{
  ℕ, String, Bool, true, false, not, ◌&&◌, Option, none, some, List, [], ◌∷◌, ◌++◌, map, any, keep,
  find, str_eq, if◌then◌else◌,
}
use mavio_mcp.Core.{PrincipalType}
use mavio_mcp.Rbac.{ResourceRef, Permission, Role, RoleAssignment, RoleProvider}
use mavio_mcp.Rbac.Roles.{builtin_roles}

pub record PrincipalRow : Type 0 where
  pub id : String
  pub type : PrincipalType
  pub display_name : String
  pub workspace_id : String
  pub api_key_hash : Option String

pub record RoleRow : Type 0 where
  pub name : String
  pub inherits : List String
  pub permissions : List Permission
  pub builtin : Bool

pub record AssignmentRow : Type 0 where
  pub id : String
  pub principal_id : String
  pub role_name : String
  pub workspace_id : Option String
  pub project_id : Option String
  pub server_id : Option String
  pub tool_name : Option String

pub record RbacTables : Type 0 where
  pub principals : List PrincipalRow
  pub roles : List RoleRow
  pub assignments : List AssignmentRow

-- `Principal` of rbac-repo.ts.
pub record RegisteredPrincipal : Type 0 where
  pub id : String
  pub type : PrincipalType
  pub display_name : String
  pub workspace_id : String

pub record IssuedApiKey : Type 0 where
  pub principal : RegisteredPrincipal
  pub api_key : String

-- A promise that resolves, rejects with `NotFoundError`, or with an error of the database.
pub data Reply {ℓ} (A : Type ℓ) : Type ℓ where
  resolved : A → Reply A
  missing : String → Reply A
  violation : Reply A

abbrev pub to_principal : PrincipalRow → RegisteredPrincipal
to_principal row = record {
  id = row.id;
  type = row.type;
  display_name = row.display_name;
  workspace_id = row.workspace_id;
}

-- A new row has no key.
abbrev pub new_principal_row : RegisteredPrincipal → PrincipalRow
new_principal_row p = record {
  id = p.id;
  type = p.type;
  display_name = p.display_name;
  workspace_id = p.workspace_id;
  api_key_hash = none;
}

abbrev pub has_id : String → PrincipalRow → Bool
has_id id row = str_eq row.id id

abbrev pub same_hash : String → Option String → Bool
same_hash hash none = false
same_hash hash (some h) = str_eq h hash

abbrev pub has_hash : String → PrincipalRow → Bool
has_hash hash row = same_hash hash row.api_key_hash

-- `row ? this.toPrincipal(row) : null`.
abbrev pub principal_or_null : Option PrincipalRow → Option RegisteredPrincipal
principal_or_null none = none
principal_or_null (some row) = some (to_principal row)

unfoldable pub list_principals : RbacTables → List RegisteredPrincipal
list_principals t = map to_principal t.principals

unfoldable pub find_by_id : RbacTables → String → Option RegisteredPrincipal
find_by_id t id = principal_or_null (find (has_id id) t.principals)

-- The primary key refuses a second row.
unfoldable pub create_principal :
    RbacTables → RegisteredPrincipal → RbacTables × Reply RegisteredPrincipal
create_principal t input = elim (find (has_id input.id) t.principals) [
  | some row ↦ (t, violation)
  | none ↦
      (record t { principals = t.principals ++ (new_principal_row input ∷ []) }, resolved input)
]

unfoldable pub ensure_principal :
    RbacTables → RegisteredPrincipal → RbacTables × (Bool × RegisteredPrincipal)
ensure_principal t input = elim (find (has_id input.id) t.principals) [
  | some row ↦ (t, (false, to_principal row))
  | none ↦ (record t { principals = t.principals ++ (new_principal_row input ∷ []) }, (true, input))
]

-- `UPDATE … SET api_key_hash = … WHERE id = …`.
abbrev pub set_hash : String → String → List PrincipalRow → List PrincipalRow
set_hash id hash [] = []
set_hash id hash (row ∷ rows) =
    (if has_id id row then record row { api_key_hash = some hash } else row) ∷ set_hash id hash rows

-- Another row has the hash, which the column forbids.
abbrev pub clashes : String → String → List PrincipalRow → Bool
clashes id hash rows = any (λ row. not (has_id id row) && has_hash hash row) rows

module _ (sha256 : String → String) where
  unfoldable pub find_by_api_key : RbacTables → String → Option RegisteredPrincipal
  find_by_api_key t key = principal_or_null (find (has_hash (sha256 key)) t.principals)

  -- `issueApiKey`, with the new key.
  unfoldable pub issue_api_key : RbacTables → String → String → RbacTables × Reply IssuedApiKey
  issue_api_key t id key = elim (find (has_id id) t.principals) [
    | none ↦ (t, missing (Prim.Native.String.◌++◌ "principal " id))
    | some row ↦ if clashes id (sha256 key) t.principals then (t, violation) else (
      record t { principals = set_hash id (sha256 key) t.principals },
      resolved (record { principal = to_principal row; api_key = key }),
    )
  ]

abbrev or_nothing : Option (List String) → List String
or_nothing none = []
or_nothing (some names) = names

abbrev role_row : Role → RoleRow
role_row role = record {
  name = role.name;
  inherits = or_nothing role.inherits;
  permissions = role.permissions;
  builtin = true;
}

-- `INSERT … ON CONFLICT (name) DO UPDATE`.
abbrev pub upsert_role : RoleRow → List RoleRow → List RoleRow
upsert_role role [] = role ∷ []
upsert_role role (row ∷ rows) =
    if str_eq row.name role.name then role ∷ rows else row ∷ upsert_role role rows

unfoldable pub upsert_roles : List Role → List RoleRow → List RoleRow
upsert_roles [] rows = rows
upsert_roles (role ∷ roles) rows = upsert_roles roles (upsert_role (role_row role) rows)

unfoldable pub sync_builtin_roles : RbacTables → RbacTables
unfolding upsert_roles
sync_builtin_roles t = record t { roles = upsert_roles builtin_roles t.roles }

abbrev to_role : RoleRow → Role
to_role row = record {
  name = row.name;
  inherits = some row.inherits;
  permissions = row.permissions;
}

unfoldable pub list_roles : RbacTables → List Role
list_roles t = map to_role t.roles

unfoldable pub get_role : RbacTables → String → Option Role
get_role t name = elim (find (λ row. str_eq row.name name) t.roles) [
  | none ↦ none
  | some row ↦ some (to_role row)
]

abbrev pub assignment_row : String → RoleAssignment → AssignmentRow
assignment_row id a = record {
  id = id;
  principal_id = a.principal_id;
  role_name = a.role_name;
  workspace_id = a.scope.workspace;
  project_id = a.scope.project;
  server_id = a.scope.server;
  tool_name = a.scope.tool;
}

-- `assign`, with the id that the database draws; the foreign key asks for the principal.
unfoldable pub assign : RbacTables → String → RoleAssignment → RbacTables × Reply Bool
assign t id a = elim (find (has_id a.principal_id) t.principals) [
  | none ↦ (t, violation)
  | some row ↦
      (record t { assignments = t.assignments ++ (assignment_row id a ∷ []) }, resolved true)
]

unfoldable pub unassign : RbacTables → String → RbacTables
unassign t id = record t { assignments = keep (λ row. not (str_eq row.id id)) t.assignments }

abbrev pub to_assignment : AssignmentRow → RoleAssignment
to_assignment row = record {
  principal_id = row.principal_id;
  role_name = row.role_name;
  scope = record {
    workspace = row.workspace_id;
    project = row.project_id;
    server = row.server_id;
    tool = row.tool_name;
  };
}

abbrev of_principal : Option String → AssignmentRow → Bool
of_principal none row = true
of_principal (some id) row = if str_eq id "" then true else str_eq row.principal_id id

unfoldable pub list_assignments : RbacTables → Option String → List (String × RoleAssignment)
list_assignments t principal_id =
    map (λ row. (row.id, to_assignment row)) (keep (of_principal principal_id) t.assignments)

unfoldable pub assignments_for : RbacTables → String → List RoleAssignment
assignments_for t principal_id =
    map to_assignment (keep (λ row. str_eq row.principal_id principal_id) t.assignments)

-- The repository as the store of roles of the policy engine.
unfoldable pub role_provider : RbacTables → RoleProvider
unfolding get_role assignments_for
role_provider t = record { get_role = get_role t; assignments_for = assignments_for t }
