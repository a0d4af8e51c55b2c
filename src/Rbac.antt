-- ===== src/Rbac.antt =====
-- packages/rbac/src/index.ts: the vocabulary of access control. An action is its text, since a
-- pattern may also be `"*"` or end in `":*"`.
pub mod Actions
pub mod Engine
pub mod Roles
pub mod Expansion
pub mod Provenance
pub mod Decisions
pub mod Repeats
pub mod Scopes
pub mod Builtin
pub mod Remote
mod Tests
use mavio_mcp.Base.{String, Bool, Option, List}

pub record ResourceRef : Type 0 where
  pub workspace : Option String
  pub project : Option String
  pub server : Option String
  pub tool : Option String

pub data Effect : Type 0 where
  allow deny : Effect

pub record Permission : Type 0 where
  pub action : String
  pub scope : ResourceRef
  pub effect : Effect

pub record Role : Type 0 where
  pub name : String
  pub inherits : Option (List String)
  pub permissions : List Permission

pub record RoleAssignment : Type 0 where
  pub principal_id : String
  pub role_name : String
  pub scope : ResourceRef

pub record Decision : Type 0 where
  pub allowed : Bool
  pub reason : String
  pub matched : Option Permission

-- What the engine asks of the store of roles.
pub record RoleProvider : Type 0 where
  pub get_role : String → Option Role
  pub assignments_for : String → List RoleAssignment
