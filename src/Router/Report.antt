-- ===== src/Router/Report.antt =====
-- apps/server/src/router.service.ts: how a dispatch ends, and what `callTool` then answers and
-- writes. `to_iso_string` is `new Date(ms).toISOString()`.
use Prim.Native.String.{◌++◌}
use mavio_mcp.Base.{ℕ, ◌-◌, String, Bool, true, false, Option, none, some, [], ◌∷◌, if◌then◌else◌}
use mavio_mcp.Base.Text.{utf16_length}
use mavio_mcp.Json.{Json, null, bool, str, arr, obj, nil, cons, Fields, end, field, prop, truthy}
use mavio_mcp.Json.Print.{stringify}
use mavio_mcp.Core.{ServerDescriptor, Principal, FrameId, McpFrame}
use mavio_mcp.Core.Breaker.{CircuitOpenError}
use mavio_mcp.Router.{
  DispatchResult, Outcome, ok, error, circuit_open, FailStage, backend, transform_response,
  LogEntry, audit, trace,
}
use mavio_mcp.Router.Request.{
  ToolCall, Clock, result_frame, error_frame, metadata_field, transport_type,
}

abbrev pub optional_text : Option String → Json
optional_text none = null
optional_text (some s) = str s

-- How the dispatch of a call ended.
pub data Ending : Type 0 where
  answered : DispatchResult → Ending
  failed : String → Ending
  open_breaker : CircuitOpenError → Ending

abbrev pub outcome_of : Ending → Outcome
outcome_of (answered r) = if r.is_error then error else ok
outcome_of (failed m) = error
outcome_of (open_breaker e) = circuit_open

abbrev pub is_ok : Outcome → Bool
is_ok ok = true
is_ok _ = false

abbrev pub outcome_text : Outcome → String
outcome_text ok = "ok"
outcome_text error = "error"
outcome_text circuit_open = "circuit_open"

abbrev pub undefined_length : String
undefined_length = "Cannot read properties of undefined (reading 'length')"

-- `responseJson.length`; none where the program reads it of undefined, and throws.
abbrev pub response_length : Ending → Option ℕ
response_length (answered r) = elim r.result [
  | none ↦ none
  | some j ↦ some (utf16_length (stringify j))
]
response_length (failed m) = some 0
response_length (open_breaker e) = some 0

abbrev pub principal_id : Option Principal → Option String
principal_id none = none
principal_id (some p) = some p.id

abbrev pub audit_entry : ToolCall → Bool → Fields → LogEntry
audit_entry c fine metadata = audit (record {
  actor_id = principal_id c.principal;
  actor_type = elim c.principal [ none ↦ none | some p ↦ some p.type ];
  action = "tool.invoke";
  server = c.server_id;
  tool = c.tool_name;
  audit_ok = fine;
  metadata = obj metadata;
})

-- The field `text` of the answer; an undefined field is left out of the frame.
abbrev text_field : Option Json → Fields
text_field none = end
text_field (some (str s)) = field "text" (str s) end
text_field (some j) = field "text" (str (stringify j)) end

abbrev content_frame : Option FrameId → DispatchResult → McpFrame
content_frame id r = result_frame id (
    obj (
      field "content" (arr (cons (obj (field "type" (str "text") (text_field r.result))) nil))
        (field "isError" (bool r.is_error) end)))

abbrev field_or_none : String → Option Json → Fields → Fields
field_or_none k none fs = fs
field_or_none k (some j) fs = field k j fs

abbrev pub trace_enabled : ServerDescriptor → Bool
trace_enabled d = elim (metadata_field "trace" d) [
  | none ↦ false
  | some t ↦ elim (prop "enabled" t) [ none ↦ false | some v ↦ truthy v ]
]

module _ (to_iso_string : ℕ → String) where
  abbrev open_message : CircuitOpenError → String
  open_message e = "circuit open for " ++ (e.key ++ (", retry at " ++ to_iso_string e.retry_at))

  abbrev pub reply_to : Option FrameId → Ending → McpFrame
  reply_to id (answered r) = content_frame id r
  reply_to id (failed m) = error_frame id 32000 ("dispatch failed: " ++ m)
  reply_to id (open_breaker e) = error_frame id 32010 (open_message e)

  abbrev backend_request_of : Ending → Json
  backend_request_of (answered r) = elim r.backend_request [ none ↦ obj end | some j ↦ j ]
  backend_request_of _ = obj end

  abbrev backend_response_of : Ending → Json
  backend_response_of (answered r) = elim r.backend_response [ none ↦ obj end | some j ↦ j ]
  backend_response_of (failed m) = obj (field "error" (str m) end)
  backend_response_of (open_breaker e) = obj (field "error" (str (open_message e)) end)

  abbrev client_response_of : Ending → Json
  client_response_of (answered r) =
      obj (field_or_none "result" r.result (field "isError" (bool r.is_error) end))
  client_response_of (failed m) = obj (field "error" (str m) end)
  client_response_of (open_breaker e) = obj (field "error" (str (open_message e)) end)

  abbrev fail_stage_of : Ending → Option FailStage
  fail_stage_of (answered r) = if r.is_error then some transform_response else none
  fail_stage_of _ = some backend

  abbrev pub trace_entry : ToolCall → ServerDescriptor → Clock → Ending → LogEntry
  trace_entry c d clock e = trace (record {
    principal_id = principal_id c.principal;
    workspace_id = d.workspace_id;
    server_id = c.server_id;
    tool_name = c.tool_name;
    client_request = obj (field "args" c.args (field "sessionId" (optional_text c.session_id) end));
    backend_request = backend_request_of e;
    backend_response = backend_response_of e;
    client_response = client_response_of e;
    hops =
        (record {
          stage = transport_type d.transport;
          started_at = clock.settled_at - clock.latency_ms;
          duration_ms = clock.latency_ms;
          hop_ok = is_ok (outcome_of e);
        })
        ∷ [];
    fail_stage = fail_stage_of e;
    latency_ms = clock.latency_ms;
  })
