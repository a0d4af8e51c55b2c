-- ===== src/Router/Service.antt =====
-- apps/server/src/router.service.ts: `RouterService`. A call of a tool passes the gates of
-- `callTool` in order; each is a function that answers or goes on with the next, and so the last
-- stands first here. No other call runs while one is dispatched. `to_iso_string` is
-- `new Date(ms).toISOString()`.
use Prim.Native.String.{◌++◌}
use mavio_mcp.Base.{ℕ, String, false, none, some, ◌∷◌, ltb, if◌then◌else◌}
use mavio_mcp.Base.Text.{show}
use mavio_mcp.Json.{str, obj, end, field}
use mavio_mcp.Json.Print.{stringify}
use mavio_mcp.Core.{ToolDefinition, ServerDescriptor, McpFrame}
use mavio_mcp.Core.Breaker.{enter, settle, admitted, refused}
use mavio_mcp.Rbac.{ResourceRef}
use mavio_mcp.Rbac.Actions.{tool_invoke}
use mavio_mcp.Sessions.McpSession.{McpSessionStore, pre_call, record_outcome, Verdict}
use mavio_mcp.Sessions.McpSession
use mavio_mcp.Router.{
  Attempt, resolved, thrown, found_server, not_found_error, other_error, skip, consent_required,
  ready, apply_injection, LogEntry, rate_limit_denied, dispatched, RouterState, Backends,
}
use mavio_mcp.Router.Request.{
  ToolCall, Clock, error_frame, error_frame_data, given, metadata_field, rpm_of, is_approved,
  status_text, is_admin, tool_named,
}
use mavio_mcp.Router.Finish.{write, in_world, scope_of, finish, ending, did_resolve}
use mavio_mcp.Router.Dispatch.{load_capabilities, dispatch_by_kind}
use mavio_mcp.Router.Report.{optional_text, open_breaker, audit_entry}

abbrev pub session_refused : ToolCall → String → LogEntry
session_refused c message = audit_entry c false (
    field "outcome" (str "session_limit")
      (field "sessionId" (optional_text c.session_id) (field "reason" (str message) end)))

module _ {W : Type 0} (b : Backends W) (to_iso_string : ℕ → String)
    (sha1_hex : String → String) where
  open b use {registry_get, can, check_rate_limit, resolve_for_dispatch}

  -- `breaker.execute`, and the rest of the call.
  unfoldable pub dispatch :
      RouterState W
      → ToolCall
      → ServerDescriptor
      → ToolDefinition
      → Clock
      → RouterState W × Attempt McpFrame
  dispatch s c d tool clock =
      let (br, admission) = enter s.breaker c.server_id clock.called_at in
      elim admission [
        | refused e ↦ finish to_iso_string (record s { breaker = br }) c d clock (open_breaker e)
        | admitted ↦
            let (w, r) =
              dispatch_by_kind b s.world d c.tool_name tool.input_schema c.args clock.called_at in
            finish to_iso_string
              (record s {
                breaker = settle br c.server_id (did_resolve r) clock.settled_at;
                world = w;
                log = dispatched d c.tool_name c.args ∷ s.log;
              })
              c d clock (ending r)
      ]

  unfoldable pub resolve_upstream :
      RouterState W
      → ToolCall
      → ServerDescriptor
      → ToolDefinition
      → Clock
      → RouterState W × Attempt McpFrame
  resolve_upstream s c d tool clock =
      let (w, resolution) = resolve_for_dispatch s.world c.principal d in
      elim resolution [
        | skip ↦ dispatch (in_world w s) c d tool clock
        | ready injection ↦ dispatch (in_world w s) c (apply_injection d injection) tool clock
        | consent_required provider url ↦ (
          in_world w s,
          resolved (
              error_frame_data c.frame_id 32020 ("upstream consent required: " ++ provider) (
                some (
                  obj (
                    field "providerId" (str provider)
                      (field "consentUrl" (optional_text url) end))))),
        )
      ]

  unfoldable pub check_session :
      RouterState W
      → ToolCall
      → ServerDescriptor
      → ToolDefinition
      → Clock
      → RouterState W × Attempt McpFrame
  check_session s c d tool clock = elim (given c.session_id) [
    | none ↦ resolve_upstream s c d tool clock
    | some id ↦
        let (sessions, verdict) =
          pre_call sha1_hex s.mcp_sessions id c.fq_name (stringify c.args) clock.checked_at in
        let s' : RouterState W = record s { mcp_sessions = sessions } in
        elim verdict [
          | McpSession.allowed ↦ resolve_upstream s' c d tool clock
          | McpSession.refused code message ↦
              (write (session_refused c message) s', resolved (error_frame c.frame_id code message))
        ]
  ]

  unfoldable pub limit_rate :
      RouterState W
      → ToolCall
      → ServerDescriptor
      → ToolDefinition
      → Clock
      → RouterState W × Attempt McpFrame
  limit_rate s c d tool clock =
      let rpm = rpm_of (metadata_field "rateLimitRpm" d) in
      if ltb 0 rpm
      then (let (w, r) = check_rate_limit s.world (scope_of c) rpm 60 in
          if r.allowed then check_session (in_world w s) c d tool clock else (
            write (rate_limit_denied c.server_id (scope_of c)) (in_world w s),
            resolved (
                error_frame c.frame_id 32011
                  ("server rate limit exceeded (resetAt=" ++ (show r.reset_at ++ ")"))),
          ))
      else check_session s c d tool clock

  unfoldable pub find_tool :
      RouterState W → ToolCall → ServerDescriptor → Clock → RouterState W × Attempt McpFrame
  find_tool s c d clock =
      let (w, caps) = load_capabilities b s.world c.server_id in
      elim (tool_named c.tool_name caps) [
        | none ↦ (
          in_world w s,
          resolved (error_frame c.frame_id 32001 ("tool " ++ (c.fq_name ++ " not found"))),
        )
        | some tool ↦ limit_rate (in_world w s) c d tool clock
      ]

  abbrev pub resource_of : ToolCall → ServerDescriptor → ResourceRef
  resource_of c d = record {
    workspace = some d.workspace_id;
    project = some d.project_id;
    server = some c.server_id;
    tool = some c.tool_name;
  }

  unfoldable pub authorize :
      RouterState W → ToolCall → ServerDescriptor → Clock → RouterState W × Attempt McpFrame
  authorize s c d clock = elim c.principal [
    | none ↦ find_tool s c d clock
    | some p ↦
        if is_admin p
        then find_tool s c d clock
        else let decision = can s.world p tool_invoke (resource_of c d) in
          if decision.allowed
          then find_tool s c d clock
          else (s, resolved (error_frame c.frame_id 32003 ("authz denied: " ++ decision.reason)))
  ]

  unfoldable pub check_approval :
      RouterState W → ToolCall → ServerDescriptor → Clock → RouterState W × Attempt McpFrame
  check_approval s c d clock = if is_approved d.approval_status then authorize s c d clock else (
    s,
    resolved (
        error_frame c.frame_id 32002 (
          "server "
          ++ (c.server_id
              ++ (" not approved (status=" ++ (status_text d.approval_status ++ ")"))))),
  )

  unfoldable pub call_tool : RouterState W → ToolCall → Clock → RouterState W × Attempt McpFrame
  call_tool s c clock = elim (registry_get s.world c.server_id) [
    | other_error m ↦ (s, thrown m)
    | not_found_error m ↦ (s, resolved (error_frame c.frame_id 32001 m))
    | found_server d ↦ check_approval s c d clock
  ]
