-- ===== src/Core.antt =====
-- packages/core/src/index.ts: the types that all packages share. A union of object types is a data
-- type with a record for each member, `unknown` is a JSON value, an optional field an `Option`.
pub mod Breaker
use mavio_mcp.Base.{ℕ, String, Bool, Option, List}
use mavio_mcp.Base.Map.{Map}
use mavio_mcp.Json.{Json}

pub data Auth : Type 0 where
  bearer : String → Auth
  no_auth : Auth

pub record StdioTransport : Type 0 where
  pub command : String
  pub args : Option (List String)
  pub env : Option (Map String)
  pub cwd : Option String

pub record HttpTransport : Type 0 where
  pub base_url : String
  pub headers : Option (Map String)
  pub auth : Option Auth

pub record SqlTransport : Type 0 where
  pub dsn : String
  pub allowed_tables : Option (List String)
  pub read_only : Option Bool

pub record SseTransport : Type 0 where
  pub url : String
  pub headers : Option (Map String)
  pub auth : Option Auth

pub record GraphqlTransport : Type 0 where
  pub endpoint : String
  pub headers : Option (Map String)
  pub auth : Option Auth

pub record WsTransport : Type 0 where
  pub url : String
  pub headers : Option (Map String)
  pub auth : Option Auth
  pub subprotocol : Option String

pub record StreamableHttpTransport : Type 0 where
  pub url : String
  pub headers : Option (Map String)
  pub auth : Option Auth

pub data TransportDescriptor : Type 0 where
  stdio : StdioTransport → TransportDescriptor
  http : HttpTransport → TransportDescriptor
  sse : SseTransport → TransportDescriptor
  ws : WsTransport → TransportDescriptor
  sql : SqlTransport → TransportDescriptor
  graphql : GraphqlTransport → TransportDescriptor
  streamable_http : StreamableHttpTransport → TransportDescriptor

pub record ToolDefinition : Type 0 where
  pub name : String
  pub description : Option String
  pub input_schema : Map Json

pub record ServerInfo : Type 0 where
  pub name : Option String
  pub version : Option String

pub record ServerCapabilities : Type 0 where
  pub tools : Option (List ToolDefinition)
  pub resources : Option (List Json)
  pub prompts : Option (List Json)
  pub server_info : Option ServerInfo

pub data SourceType : Type 0 where
  from_openapi from_sql from_graphql from_mcp from_native : SourceType

pub data ServerStatus : Type 0 where
  healthy degraded down unknown : ServerStatus

pub data ApprovalStatus : Type 0 where
  pending approved rejected : ApprovalStatus

-- Times are milliseconds since the epoch.
pub record ServerDescriptor : Type 0 where
  pub id : String
  pub workspace_id : String
  pub project_id : String
  pub name : String
  pub transport : TransportDescriptor
  pub source_type : SourceType
  pub tags : Option (List String)
  pub version : Option String
  pub metadata : Option (Map Json)
  pub status : Option ServerStatus
  pub last_checked_at : Option ℕ
  pub approval_status : Option ApprovalStatus
  pub submitted_by : Option String
  pub approved_by : Option String
  pub approved_at : Option ℕ
  pub rejection_reason : Option String

pub data PrincipalType : Type 0 where
  user service : PrincipalType

pub record Principal : Type 0 where
  pub id : String
  pub type : PrincipalType
  pub workspace_id : String
  pub scopes : List String
  pub attributes : Option (Map Json)

pub data FrameId : Type 0 where
  text_id : String → FrameId
  number_id : ℕ → FrameId

pub record FrameError : Type 0 where
  pub code : ℕ
  pub message : String
  pub detail : Option Json

-- `code` is the negated JSON-RPC code, which is negative in every frame of the program; an `id` of
-- `null` and no `id` are both `none`.
pub record McpFrame : Type 0 where
  pub id : Option FrameId
  pub method : Option String
  pub params : Option Json
  pub result : Option Json
  pub error : Option FrameError
