-- ===== src/Access.antt =====
-- apps/server/src: how a request is let in. The parts of a request and of the environment that the
-- guards read; `Url` is what the class `URL` of the host makes of an address.
pub mod Csrf
pub mod Sessions
pub mod Principals
pub mod Guards
pub mod Origins
pub mod Vouching
pub mod Admission
pub mod Windows
mod Tests
use mavio_mcp.Base.{ℕ, String, Bool, Option}

pub record Url : Type 0 where
  pub origin : String
  pub hostname : String

-- The certificate of the other side of a TLS socket, if it has any field.
pub record Peer : Type 0 where
  pub has_certificate : Bool
  pub authorized : Option Bool
  pub common_name : Option String

pub record HttpRequest : Type 0 where
  pub method : String
  pub cookie : Option String
  pub origin : Option String
  pub referer : Option String
  pub authorization : Option String
  pub auth_subject : Option String
  pub auth_type : Option String
  pub auth_workspace : Option String
  pub auth_scopes : Option String
  pub peer : Option Peer
  pub ip : Option String
  pub forwarded_for : Option String
  pub remote_address : Option String

-- The variables of the environment.
pub record Settings : Type 0 where
  pub trusted_origins : Option String
  pub trusted_proxy_enabled : Option String
  pub mtls_enabled : Option String
  pub mtls_workspace : Option String
  pub admin_api_key : Option String
