-- ===== src/Router.antt =====
-- apps/server/src/router.service.ts: the types of the router, its state, and what it uses of the
-- services behind it. Those that store and dispatch stand outside: `Backends` acts on their world.
pub mod Names
pub mod Request
pub mod Report
pub mod Dispatch
pub mod Finish
pub mod Service
pub mod Handle
pub mod Cases
pub mod Gates
pub mod Answers
pub mod Counts
pub mod Frames
pub mod Listing
pub mod Audit
pub mod Example
mod Tests
use Prim.Native.String.{◌++◌}
pub use mavio_mcp.Access.Windows.{RateLimitResult}
use mavio_mcp.Base.{ℕ, String, Bool, Option, none, some, List, str_eq, if◌then◌else◌}
use mavio_mcp.Base.Map.{Map, get, set}
use mavio_mcp.Json.{Json}
use mavio_mcp.Core.{
  TransportDescriptor, stdio, http, sse, ws, sql, graphql, streamable_http, ToolDefinition,
  ServerCapabilities, ServerDescriptor, PrincipalType, Principal, FrameId, McpFrame,
}
use mavio_mcp.Core.Breaker.{CircuitBreaker, CircuitState}
use mavio_mcp.Rbac.{ResourceRef, Decision}
use mavio_mcp.Sessions.McpSession.{McpSessionStore}

-- `result` may be undefined, where an upstream answers with neither a result nor an error.
pub record DispatchResult : Type 0 where
  pub result : Option Json
  pub is_error : Bool
  pub backend_request : Option Json
  pub backend_response : Option Json

-- An awaited call: its value, or the message of the error that it throws.
pub data Attempt {ℓ} (A : Type ℓ) : Type ℓ where
  resolved : A → Attempt A
  thrown : String → Attempt A

-- `Registry.get`: `NotFoundError` or another error.
pub data Lookup : Type 0 where
  found_server : ServerDescriptor → Lookup
  not_found_error : String → Lookup
  other_error : String → Lookup

pub record DispatchInjection : Type 0 where
  pub env : Option (Map String)
  pub headers : Option (Map String)

-- `UpstreamResolution`.
pub data UpstreamResolution : Type 0 where
  skip : UpstreamResolution
  consent_required : String → Option String → UpstreamResolution
  ready : DispatchInjection → UpstreamResolution

abbrev entries_or_none : Option (Map String) → Map String
entries_or_none none = List.[]
entries_or_none (some m) = m

-- `{ ...a, ...b }`.
abbrev pub spread : Map String → Map String → Map String
spread a List.[] = a
spread a (List.◌∷◌ (k, v) b) = spread (set k v a) b

abbrev pub overlay : Option (Map String) → Option (Map String) → Option (Map String)
overlay a b = some (spread (entries_or_none a) (entries_or_none b))

-- `applyInjection` on the transport.
unfoldable pub inject : DispatchInjection → TransportDescriptor → TransportDescriptor
inject i (stdio t) = stdio (record t { env = overlay t.env i.env })
inject i (http t) = http (record t { headers = overlay t.headers i.headers })
inject i (sse t) = sse (record t { headers = overlay t.headers i.headers })
inject i (ws t) = ws (record t { headers = overlay t.headers i.headers })
inject i (graphql t) = graphql (record t { headers = overlay t.headers i.headers })
inject i (sql t) = sql t
inject i (streamable_http t) = streamable_http t

unfoldable pub apply_injection : ServerDescriptor → DispatchInjection → ServerDescriptor
apply_injection d i = record d { transport = inject i d.transport }

pub data Outcome : Type 0 where
  ok error circuit_open : Outcome

pub data FailStage : Type 0 where
  transform_request backend transform_response schema_validate : FailStage

pub record HopRecord : Type 0 where
  pub stage : String
  pub started_at : ℕ
  pub duration_ms : ℕ
  pub hop_ok : Bool

pub record TraceInput : Type 0 where
  pub principal_id : Option String
  pub workspace_id : String
  pub server_id : String
  pub tool_name : String
  pub client_request : Json
  pub backend_request : Json
  pub backend_response : Json
  pub client_response : Json
  pub hops : List HopRecord
  pub fail_stage : Option FailStage
  pub latency_ms : ℕ

pub record AuditEntry : Type 0 where
  pub actor_id : Option String
  pub actor_type : Option PrincipalType
  pub action : String
  pub server : String
  pub tool : String
  pub audit_ok : Bool
  pub metadata : Json

-- What the router writes to the audit log, the traces and the metrics, and (`dispatched`) each
-- call of `dispatchByKind`.
pub data LogEntry : Type 0 where
  audit : AuditEntry → LogEntry
  trace : TraceInput → LogEntry
  rate_limit_denied : String → String → LogEntry
  upstream_error : String → String → LogEntry
  router_request : String → String → Outcome → LogEntry
  breaker_state : String → CircuitState → LogEntry
  dispatched : ServerDescriptor → String → Json → LogEntry

-- The router, with the world `W` of the services behind it. The log is newest first.
pub record RouterState (W : Type 0) : Type 0 where
  pub world : W
  pub breaker : CircuitBreaker
  pub mcp_sessions : McpSessionStore
  pub log : List LogEntry

-- The services behind the router, on their world: the registry and the cache, the policy engine,
-- the rate limiter, the upstream tokens, and the calls that `dispatchByKind` makes.
pub record Backends (W : Type 0) : Type 0 where
  pub registry_get : W → String → Lookup
  pub registry_list : W → List ServerDescriptor
  pub latest_capabilities : W → String → Option ServerCapabilities
  pub get_server_list : W → Option (List ServerDescriptor)
  pub set_server_list : W → List ServerDescriptor → W
  pub get_capabilities : W → String → Option ServerCapabilities
  pub set_capabilities : W → String → ServerCapabilities → W
  pub can : W → Principal → String → ResourceRef → Decision
  pub check_rate_limit : W → String → ℕ → ℕ → W × RateLimitResult
  pub resolve_for_dispatch : W → Option Principal → ServerDescriptor → W × UpstreamResolution
  pub dispatch_open_api : W → String → Json → Json → W × Attempt DispatchResult
  pub dispatch_sql : W → String → TransportDescriptor → Json → Json → W × Attempt Json
  pub dispatch_graphql : W → TransportDescriptor → Json → Json → W × Attempt Json
  pub open_session : W → TransportDescriptor → W × Attempt ℕ
  pub send_frame : W → ℕ → McpFrame → W × Attempt McpFrame
  pub close_session : W → ℕ → W
