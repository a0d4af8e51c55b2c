-- ===== src/Router/Request.antt =====
-- apps/server/src/router.service.ts: what `callTool` reads of a call, a server and an answer, and
-- the frames that it answers with.
use mavio_mcp.Base.{
  ℕ, zero, suc, String, Bool, true, false, Option, none, some, str_eq, if◌then◌else◌, find, any,
}
use mavio_mcp.Base.Map.{Map, get}
use mavio_mcp.Base.Text.{read}
use mavio_mcp.Json.{
  Json, null, bool, num, neg, str, arr, obj, cons, Fields, end, field, prop, truthy,
}
use mavio_mcp.Core.{
  TransportDescriptor, stdio, http, sse, ws, sql, graphql, streamable_http, ToolDefinition,
  ServerCapabilities, ServerDescriptor, ApprovalStatus, pending, approved, rejected, Principal,
  FrameId, FrameError, McpFrame,
}
use mavio_mcp.Router.{DispatchResult, Attempt, resolved, thrown}

abbrev pub no_frame : McpFrame
no_frame = record { id = none; method = none; params = none; result = none; error = none }

unfoldable pub result_frame : Option FrameId → Json → McpFrame
result_frame id result = record no_frame { id = id; result = some result }

abbrev pub error_frame_data : Option FrameId → ℕ → String → Option Json → McpFrame
error_frame_data id code message detail = record no_frame {
  id = id;
  error = some (record { code = code; message = message; detail = detail });
}

unfoldable pub error_frame : Option FrameId → ℕ → String → McpFrame
error_frame id code message = error_frame_data id code message none

-- A call of a tool: what `callTool` is given, its name split.
pub record ToolCall : Type 0 where
  pub frame_id : Option FrameId
  pub fq_name : String
  pub server_id : String
  pub tool_name : String
  pub args : Json
  pub principal : Option Principal
  pub session_id : Option String

-- The readings of the clock during a call, and the latency that `hrtime` measures.
pub record Clock : Type 0 where
  pub checked_at : ℕ
  pub called_at : ℕ
  pub settled_at : ℕ
  pub latency_ms : ℕ

-- A text that counts as given: `if (text)`.
abbrev pub given : Option String → Option String
given none = none
given (some s) = if str_eq s "" then none else some s

abbrev pub metadata_field : String → ServerDescriptor → Option Json
metadata_field k d = elim d.metadata [ none ↦ none | some m ↦ get k m ]

-- `Number(v ?? 0)`, where it is a natural number above 0; else 0. Fractions and arrays are left out.
abbrev pub rpm_of : Option Json → ℕ
rpm_of (some (num n)) = n
rpm_of (some (bool true)) = 1
rpm_of (some (str s)) = elim (read s) [ none ↦ 0 | some n ↦ n ]
rpm_of _ = 0

abbrev pub is_approved : Option ApprovalStatus → Bool
is_approved none = true
is_approved (some approved) = true
is_approved (some pending) = false
is_approved (some rejected) = false

abbrev pub status_text : Option ApprovalStatus → String
status_text (some pending) = "pending"
status_text (some approved) = "approved"
status_text (some rejected) = "rejected"
status_text none = ""

abbrev pub is_admin : Principal → Bool
is_admin p = any (λ s. str_eq s "*") p.scopes

abbrev pub tool_named : String → Option ServerCapabilities → Option ToolDefinition
tool_named name none = none
tool_named name (some caps) = elim caps.tools [
  | none ↦ none
  | some tools ↦ find (λ t. str_eq t.name name) tools
]

abbrev pub transport_type : TransportDescriptor → String
transport_type (stdio t) = "stdio"
transport_type (http t) = "http"
transport_type (sse t) = "sse"
transport_type (ws t) = "ws"
transport_type (sql t) = "sql"
transport_type (graphql t) = "graphql"
transport_type (streamable_http t) = "streamable-http"

-- A field of the schema that counts as given.
abbrev pub meta : String → Map Json → Option Json
meta k schema = elim (get k schema) [ none ↦ none | some v ↦ if truthy v then some v else none ]

abbrev code_json : ℕ → Json
code_json zero = num 0
code_json (suc n) = neg n

abbrev detail_fields : Option Json → Fields
detail_fields none = end
detail_fields (some j) = field "data" j end

abbrev error_json : FrameError → Json
error_json e =
    obj (field "code" (code_json e.code) (field "message" (str e.message) (detail_fields e.detail)))

-- `response.result ?? response.error`.
abbrev pub answer : Option Json → Option FrameError → Option Json
answer (some null) none = some null
answer (some null) (some e) = some (error_json e)
answer (some j) e = some j
answer none none = none
answer none (some e) = some (error_json e)

abbrev pub is_some {ℓ} : {A : Type ℓ} → Option A → Bool
is_some none = false
is_some (some a) = true

abbrev pub plain : Json → Bool → DispatchResult
plain j failed = record {
  result = some j;
  is_error = failed;
  backend_request = none;
  backend_response = none;
}

abbrev pub sql_result : Attempt Json → Attempt DispatchResult
sql_result (thrown m) = thrown m
sql_result (resolved j) = resolved (plain j false)

-- `Array.isArray(v) && v.length > 0`.
abbrev non_empty : Option Json → Bool
non_empty (some (arr (cons j js))) = true
non_empty _ = false

abbrev pub graphql_result : Attempt Json → Attempt DispatchResult
graphql_result (thrown m) = thrown m
graphql_result (resolved null) = thrown "Cannot read properties of null (reading 'errors')"
graphql_result (resolved j) = resolved (plain j (non_empty (prop "errors" j)))

abbrev pub native_result : Attempt McpFrame → Attempt DispatchResult
native_result (thrown m) = thrown m
native_result (resolved f) = resolved (record {
  result = answer f.result f.error;
  is_error = is_some f.error;
  backend_request = none;
  backend_response = none;
})
