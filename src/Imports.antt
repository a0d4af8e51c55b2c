-- ===== src/Imports.antt =====
-- apps/server/src/imports.controller.ts: `ImportsController`. A body is read at its declared type.
-- Upstream servers are a world `W` that only the importers act on: `Importers` stands for the
-- packages import-openapi, import-sql, import-graphql and import-mcp.
pub mod Records
pub mod Runs
pub mod Approve
pub mod Submit
mod Tests
use Prim.Native.String.{◌++◌}
use mathlib.Core.List.{◌++◌ as append_list}
use mavio_mcp.Base.{
  ℕ, String, Bool, true, false, Option, none, some, List, [], ◌∷◌, length, str_eq, if◌then◌else◌,
}
use mavio_mcp.Base.Map.{Map, get}
use mavio_mcp.Json.{Json, num, str, obj, field, end}
use mavio_mcp.Core.{
  TransportDescriptor, http, sql, graphql, ToolDefinition, ServerCapabilities, SourceType,
  from_openapi, from_sql, from_graphql, from_mcp, pending, approved, rejected, ApprovalStatus,
  ServerDescriptor,
}
use mavio_mcp.Registry.{Result, value, not_found}
use mavio_mcp.Registry.Servers.{
  RegisterInput, Database, SpecPatch, register, update_spec, approve, reject, get_server,
}
use mavio_mcp.Registry.Servers.Statements.{ListFilter, only, list_servers, snapshot_capabilities}
use mavio_mcp.Router.{Attempt, resolved, thrown}
use mavio_mcp.Router.Request.{status_text}

pub record Target : Type 0 where
  pub id : String
  pub workspace_id : String
  pub project_id : String
  pub tags : Option (List String)
  pub upstream_oauth_provider : Option String

pub record ImportOpenApiBody : Type 0 where
  pub target : Target
  pub url : Option String
  pub path : Option String
  pub base_url : Option String

pub record ImportSqlBody : Type 0 where
  pub target : Target
  pub dsn : String
  pub allowed_tables : Option (List String)
  pub read_only : Option Bool

pub record ImportGraphqlBody : Type 0 where
  pub target : Target
  pub endpoint : String
  pub headers : Option (Map String)

pub record ImportMcpBody : Type 0 where
  pub target : Target
  pub name : Option String
  pub transport : TransportDescriptor

-- The kind and the body of an import; `other` is a kind that no importer knows.
pub data ImportSpec : Type 0 where
  openapi : ImportOpenApiBody → ImportSpec
  sql_tables : ImportSqlBody → ImportSpec
  graphql_schema : ImportGraphqlBody → ImportSpec
  mcp : ImportMcpBody → ImportSpec
  other : String → ImportSpec

-- How the metadata holds a spec; `read` has no result for a value that is falsy.
pub record SpecCodec : Type 0 where
  pub write : ImportSpec → Json
  pub read : Json → Option ImportSpec

-- What the importers find; `address` is a base address, a list of tables or an endpoint.
pub record Found (A : Type 0) : Type 0 where
  pub server_name : String
  pub server_version : String
  pub address : A
  pub tools : List ToolDefinition

pub record FoundMcp : Type 0 where
  pub server_name : String
  pub server_version : String
  pub capabilities : ServerCapabilities
  pub tools : List ToolDefinition

pub record Importers (W : Type 0) : Type 0 where
  pub load_openapi : W → Option String → Option String → W × Attempt Json
  pub build_blueprint : Json → Option String → Attempt (Found String)
  pub import_postgres : W → String → Option (List String) → W × Attempt (Found (List String))
  pub import_graphql : W → String → Option (Map String) → W × Attempt (Found String)
  pub import_mcp : W → TransportDescriptor → Option String → W × Attempt FoundMcp

pub record Blueprint : Type 0 where
  pub server_name : String
  pub server_version : String
  pub transport : TransportDescriptor
  pub capabilities : ServerCapabilities
  pub tool_count : ℕ

pub record AuditNote : Type 0 where
  pub action : String
  pub server : String
  pub kind : Option String
  pub outcome : String
  pub metadata : Json

pub record ImporterRun : Type 0 where
  pub kind : String
  pub outcome : String

pub record Imports (W : Type 0) : Type 0 where
  pub database : Database
  pub world : W
  pub invalidated : List String
  pub runs : List ImporterRun
  pub audit : List AuditNote

pub record Submitted : Type 0 where
  pub approval_status : String
  pub snapshot_deferred : Bool

pub record Approved : Type 0 where
  pub tool_count : ℕ
  pub server_name : String

abbrev pub or_default {ℓ} : {A : Type ℓ} → A → Option A → A
or_default d none = d
or_default d (some a) = a

abbrev pub kind_of : ImportSpec → String
kind_of (openapi b) = "openapi"
kind_of (sql_tables b) = "sql"
kind_of (graphql_schema b) = "graphql"
kind_of (mcp b) = "mcp"
kind_of (other kind) = kind

-- `metadataFor`, which takes an empty text for no provider.
abbrev pub metadata_for : Target → Map Json
metadata_for t = elim t.upstream_oauth_provider [
  | none ↦ []
  | some p ↦ if str_eq p "" then [] else ("upstreamOAuthProvider", str p) ∷ []
]

abbrev pub error_note : String → Json
error_note message = obj (field "error" (str message) end)

abbrev pub found_blueprint :
    {A : Type 0} → (A → TransportDescriptor) → Attempt (Found A) → Attempt Blueprint
found_blueprint transport (thrown message) = thrown message
found_blueprint transport (resolved bp) = resolved (record {
  server_name = bp.server_name;
  server_version = bp.server_version;
  transport = transport bp.address;
  capabilities = record {
    tools = some bp.tools;
    resources = none;
    prompts = none;
    server_info = some (record { name = some bp.server_name; version = some bp.server_version });
  };
  tool_count = length bp.tools;
})

abbrev pub mirrored : TransportDescriptor → Attempt FoundMcp → Attempt Blueprint
mirrored transport (thrown message) = thrown message
mirrored transport (resolved bp) = resolved (record {
  server_name = bp.server_name;
  server_version = bp.server_version;
  transport = transport;
  capabilities = bp.capabilities;
  tool_count = length bp.tools;
})

-- `server.metadata?.importSpec`, where it is not falsy.
abbrev pub spec_of : SpecCodec → ServerDescriptor → Option ImportSpec
spec_of codec server = elim server.metadata [
  | none ↦ none
  | some m ↦ elim (get "importSpec" m) [ none ↦ none | some v ↦ codec.read v ]
]

abbrev pub no_spec_message : String → String
no_spec_message id =
    "server " ++ (id ++ " has no importSpec — cannot approve (was it registered via /api/servers?)")
