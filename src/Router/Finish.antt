-- ===== src/Router/Finish.antt =====
-- apps/server/src/router.service.ts: the end of `callTool`, which counts, logs, traces and answers.
use Prim.Native.String.{◌++◌}
use mavio_mcp.Base.{ℕ, String, Bool, true, false, not, ◌||◌, none, some, ◌∷◌, if◌then◌else◌}
use mavio_mcp.Json.{num, str, end, field}
use mavio_mcp.Core.{ServerDescriptor, McpFrame}
use mavio_mcp.Core.Breaker.{snapshot}
use mavio_mcp.Sessions.McpSession.{record_outcome}
use mavio_mcp.Router.{
  DispatchResult, Attempt, resolved, thrown, LogEntry, upstream_error, router_request,
  breaker_state, RouterState,
}
use mavio_mcp.Router.Request.{ToolCall, Clock, given, transport_type}
use mavio_mcp.Router.Dispatch.{is_answer}
use mavio_mcp.Router.Report.{
  optional_text, Ending, answered, failed, outcome_of, is_ok, outcome_text, undefined_length,
  response_length, audit_entry, reply_to, trace_entry, trace_enabled,
}

abbrev pub scope_of : ToolCall → String
scope_of c = elim c.principal [
  | none ↦ c.server_id ++ ":anon"
  | some p ↦ c.server_id ++ (":" ++ p.id)
]

module _ {W : Type 0} where
  abbrev pub write : LogEntry → RouterState W → RouterState W
  write e s = record s { log = e ∷ s.log }

  abbrev pub in_world : W → RouterState W → RouterState W
  in_world w s = record s { world = w }

  -- The outcome in `mcpSessions`, and what is logged after it.
  unfoldable pub finish_session :
      (ℕ → String)
      → RouterState W
      → ToolCall
      → ServerDescriptor
      → Clock
      → Ending
      → RouterState W × Attempt McpFrame
  finish_session to_iso_string s c d clock e =
      let o = outcome_of e in
      let logged = field "outcome" (str (outcome_text o)) (
        field "durationMs" (num clock.latency_ms)
          (field "sessionId" (optional_text c.session_id) end)) in
      let audited = write (audit_entry c (is_ok o) logged) s in
      let traced =
        if trace_enabled d || not (is_answer e)
        then write (trace_entry to_iso_string c d clock e) audited
        else audited in
      (traced, resolved (reply_to to_iso_string c.frame_id e))

  -- What follows the dispatch: the counts, then the `finally` block and the answer.
  unfoldable pub finish :
      (ℕ → String)
      → RouterState W
      → ToolCall
      → ServerDescriptor
      → Clock
      → Ending
      → RouterState W × Attempt McpFrame
  finish to_iso_string s c d clock e =
      let o = outcome_of e in
      let s1 =
        if is_ok o then s else write (upstream_error c.server_id (transport_type d.transport)) s in
      let s2 = write (router_request c.server_id c.tool_name o) s1 in
      let s3 = write (breaker_state c.server_id (snapshot s2.breaker c.server_id)) s2 in
      elim (given c.session_id) [
        | none ↦ finish_session to_iso_string s3 c d clock e
        | some id ↦ elim (response_length e) [
          | none ↦ (s3, thrown undefined_length)
          | some n ↦
              finish_session to_iso_string
                (record s3 { mcp_sessions = record_outcome s3.mcp_sessions id (not (is_ok o)) n }) c
                d clock e
        ]
      ]

abbrev pub ending : Attempt DispatchResult → Ending
ending (resolved r) = answered r
ending (thrown m) = failed m

abbrev pub did_resolve {ℓ} : {A : Type ℓ} → Attempt A → Bool
did_resolve (resolved a) = true
did_resolve (thrown m) = false
