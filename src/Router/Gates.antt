-- ===== src/Router/Gates.antt =====
-- apps/server/src/router.service.ts: which calls of a tool reach an upstream server, and how often.
use mavio_mcp.Base.{
  ℕ, String, true, ◌||◌, ◌≡◌, refl, ◌∙◌, ◌⊎◌, inl, inr, Option, none, some, List, [], ◌∷◌, arith,
  Bool-cases, Option-cases, if◌then◌else◌, ltb,
}
use mavio_mcp.Json.{Json}
use mavio_mcp.Json.Print.{stringify}
use mavio_mcp.Core.{ServerDescriptor, ToolDefinition, Principal}
use mavio_mcp.Core.Breaker.{admitted, enter}
use mavio_mcp.Rbac.Actions.{tool_invoke}
use mavio_mcp.Sessions.McpSession.{pre_call}
use mavio_mcp.Router.{
  LogEntry, dispatched, RouterState, Backends, found_server, apply_injection, audit, trace,
  rate_limit_denied, upstream_error, router_request, breaker_state,
}
use mavio_mcp.Router.Cases.{
  Admission-cases, Lookup-cases, UpstreamResolution-cases, Verdict-cases, add_reason,
}
use mavio_mcp.Router.Request.{
  transport_type, ToolCall, Clock, is_approved, is_admin, tool_named, is_some, given, rpm_of,
  metadata_field,
}
use mavio_mcp.Router.Report.{Ending, is_ok, outcome_of, response_length, trace_enabled}
use mavio_mcp.Router.Dispatch.{load_capabilities, is_answer}
use mavio_mcp.Router.Finish.{finish, finish_session, scope_of, write, in_world}
use mavio_mcp.Router.Service.{
  dispatch, resolve_upstream, check_session, limit_rate, find_tool, authorize, check_approval,
  call_tool, resource_of,
}

pub record Dispatched : Type 0 where
  pub descriptor : ServerDescriptor
  pub tool_name : String
  pub args : Json

-- The calls of `dispatchByKind` in a log.
abbrev pub dispatches : List LogEntry → List Dispatched
dispatches [] = []
dispatches (dispatched d tool args ∷ log) =
    record { descriptor = d; tool_name = tool; args = args } ∷ dispatches log
dispatches (audit _ ∷ log) = dispatches log
dispatches (trace _ ∷ log) = dispatches log
dispatches (rate_limit_denied _ _ ∷ log) = dispatches log
dispatches (upstream_error _ _ ∷ log) = dispatches log
dispatches (router_request _ _ _ ∷ log) = dispatches log
dispatches (breaker_state _ _ ∷ log) = dispatches log

module _ {W : Type 0} (to_iso_string : ℕ → String) where
  finish_session-dispatches :
      (s : RouterState W) (c : ToolCall) (d : ServerDescriptor) (clock : Clock) (e : Ending)
      → dispatches (finish_session to_iso_string s c d clock e).0.log ≡ dispatches s.log
  unfolding finish_session
  finish_session-dispatches s c d clock e =
      ground (arith, Bool-cases (trace_enabled d), Bool-cases (is_answer e))

  finish-dispatches :
      (s : RouterState W) (c : ToolCall) (d : ServerDescriptor) (clock : Clock) (e : Ending)
      → dispatches (finish to_iso_string s c d clock e).0.log ≡ dispatches s.log
  unfolding finish
  finish-dispatches s c d clock e =
      let counted : dispatches
            (if is_ok (outcome_of e)
              then s
              else write (upstream_error c.server_id (transport_type d.transport)) s).log
          ≡ dispatches s.log =
        ground (arith, Bool-cases (is_ok (outcome_of e))) in
      elim (Option-cases (given c.session_id)) [
        | inl no_session ↦
            rw (finish, no_session) (finish_session-dispatches _ c d clock e ∙ counted)
        | inr (id, session) ↦
            rw (finish, session)
              (elim (Option-cases (response_length e)) [
                | inl undefined ↦ rw (finish, undefined) counted
                | inr (n, length) ↦
                    rw (finish, length) (finish_session-dispatches _ c d clock e ∙ counted)
              ])
      ]

-- The breaker admitted the call, and it was dispatched once, to the server with this id.
abbrev pub Sent : {W : Type 0} → ToolCall → Clock → String → RouterState W → RouterState W → Type 0
Sent c clock id s s' =
    ((enter s.breaker c.server_id clock.called_at).1 ≡ admitted)
    × (d : ServerDescriptor) × (d.id ≡ id)
    × (dispatches s'.log
        ≡ record { descriptor = d; tool_name = c.tool_name; args = c.args } ∷ dispatches s.log)

abbrev Passed : {W : Type 0} → ToolCall → Clock → String → RouterState W → RouterState W → Type 0
Passed c clock id s s' = (dispatches s'.log ≡ dispatches s.log) ⊎ Sent c clock id s s'

module _ {W : Type 0} (b : Backends W) (to_iso_string : ℕ → String)
    (sha1_hex : String → String) where
  open b use {registry_get, can, check_rate_limit, resolve_for_dispatch}

  dispatch-Passed :
      (s : RouterState W) (c : ToolCall) (d : ServerDescriptor) (tool : ToolDefinition)
      (clock : Clock)
      → Passed c clock d.id s (dispatch b to_iso_string sha1_hex s c d tool clock).0
  unfolding dispatch
  dispatch-Passed s c d tool clock =
      elim (Admission-cases (enter s.breaker c.server_id clock.called_at).1) [
        | inl (e, fast) ↦ rw (dispatch, fast) (inl (finish-dispatches to_iso_string _ c d clock _))
        | inr admission ↦
            rw (dispatch, admission)
              (inr (refl, d, refl, finish-dispatches to_iso_string _ c d clock _))
      ]

  resolve_upstream-Passed :
      (s : RouterState W) (c : ToolCall) (d : ServerDescriptor) (tool : ToolDefinition)
      (clock : Clock)
      → Passed c clock d.id s (resolve_upstream b to_iso_string sha1_hex s c d tool clock).0
  unfolding resolve_upstream apply_injection
  resolve_upstream-Passed s c d tool clock =
      elim (UpstreamResolution-cases (resolve_for_dispatch s.world c.principal d).1) [
        | inl none_needed ↦
            rw (resolve_upstream, none_needed) (dispatch-Passed (in_world _ s) c d tool clock)
        | inr (inl (i, injected)) ↦
            rw (resolve_upstream, injected)
              (dispatch-Passed (in_world _ s) c (apply_injection d i) tool clock)
        | inr (inr (provider, url, asked)) ↦ rw (resolve_upstream, asked) (inl refl)
      ]

  check_session-Passed :
      (s : RouterState W) (c : ToolCall) (d : ServerDescriptor) (tool : ToolDefinition)
      (clock : Clock)
      → Passed c clock d.id s (check_session b to_iso_string sha1_hex s c d tool clock).0
  unfolding check_session
  check_session-Passed s c d tool clock = elim (Option-cases (given c.session_id)) [
    | inl no_session ↦ rw (check_session, no_session) (resolve_upstream-Passed s c d tool clock)
    | inr (id, session) ↦
        elim (Verdict-cases
          (pre_call sha1_hex s.mcp_sessions id c.fq_name (stringify c.args) clock.checked_at).1) [
            | inl fine ↦
                rw (check_session, session, fine)
                  (resolve_upstream-Passed (record s { mcp_sessions = _ }) c d tool clock)
            | inr (code, message, refusal) ↦ rw (check_session, session, refusal) (inl refl)
          ]
  ]

  limit_rate-Passed :
      (s : RouterState W) (c : ToolCall) (d : ServerDescriptor) (tool : ToolDefinition)
      (clock : Clock)
      → Passed c clock d.id s (limit_rate b to_iso_string sha1_hex s c d tool clock).0
  unfolding limit_rate
  limit_rate-Passed s c d tool clock =
      let rpm : ℕ = rpm_of (metadata_field "rateLimitRpm" d) in
      elim (Bool-cases (ltb 0 rpm)) [
        | inr unlimited ↦ rw (limit_rate, unlimited) (check_session-Passed s c d tool clock)
        | inl limited ↦ elim (Bool-cases (check_rate_limit s.world (scope_of c) rpm 60).1.allowed) [
          | inl fine ↦
              rw (limit_rate, limited, fine) (check_session-Passed (in_world _ s) c d tool clock)
          | inr over ↦ rw (limit_rate, limited, over) (inl refl)
        ]
      ]

  -- The caller is not known, has the scope "*", or is allowed by the policy engine.
  abbrev pub Authorized : W → ToolCall → ServerDescriptor → Option Principal → Type 0
  Authorized w c d none = Unit
  Authorized w c d (some p) =
      (is_admin p || (can w p tool_invoke (resource_of b to_iso_string sha1_hex c d)).allowed)
      ≡ true

  abbrev pub Known : RouterState W → ToolCall → Type 0
  Known s c = is_some (tool_named c.tool_name (load_capabilities b s.world c.server_id).1) ≡ true

  find_tool-Known :
      (s : RouterState W) (c : ToolCall) (d : ServerDescriptor) (clock : Clock)
      → let s' = (find_tool b to_iso_string sha1_hex s c d clock).0 in
        (dispatches s'.log ≡ dispatches s.log) ⊎ (Known s c × Sent c clock d.id s s')
  unfolding find_tool
  find_tool-Known s c d clock =
      elim (Option-cases (tool_named c.tool_name (load_capabilities b s.world c.server_id).1)) [
        | inl unknown ↦ rw (find_tool, unknown) (inl refl)
        | inr (tool, known) ↦
            rw (find_tool, known)
              (elim (limit_rate-Passed (in_world _ s) c d tool clock) [
                | inl same ↦ inl same
                | inr sent ↦ inr (refl, sent)
              ])
      ]

  authorize-Authorized :
      (s : RouterState W) (c : ToolCall) (d : ServerDescriptor) (clock : Clock)
      → let s' = (authorize b to_iso_string sha1_hex s c d clock).0 in
        (dispatches s'.log ≡ dispatches s.log)
        ⊎ (Authorized s.world c d c.principal × Known s c × Sent c clock d.id s s')
  unfolding authorize
  authorize-Authorized s c d clock = elim (Option-cases c.principal) [
    | inl anonymous ↦ rw (authorize, anonymous) (add_reason tt (find_tool-Known s c d clock))
    | inr (p, caller) ↦ elim (Bool-cases (is_admin p)) [
      | inl admin ↦ rw (authorize, caller, admin) (add_reason refl (find_tool-Known s c d clock))
      | inr other ↦
          elim (Bool-cases
            (can s.world p tool_invoke (resource_of b to_iso_string sha1_hex c d)).allowed) [
              | inl fine ↦
                  rw (authorize, caller, other, fine)
                    (add_reason refl (find_tool-Known s c d clock))
              | inr denied ↦ rw (authorize, caller, other, denied) (inl refl)
            ]
    ]
  ]

  -- A call of a tool dispatches nothing, or it dispatches once, with the arguments of the call and
  -- to the server that the call names. Then the registry has the server and it is not pending or
  -- rejected, the caller is authorized, the server's capabilities have the tool, and the circuit
  -- breaker admitted the call.
  pub call_tool-dispatches :
      (s : RouterState W) (c : ToolCall) (clock : Clock)
      → let s' = (call_tool b to_iso_string sha1_hex s c clock).0 in
        (dispatches s'.log ≡ dispatches s.log)
        ⊎ ((d : ServerDescriptor) × (registry_get s.world c.server_id ≡ found_server d)
            × (is_approved d.approval_status ≡ true)
            × Authorized s.world c d c.principal
            × Known s c
            × Sent c clock d.id s s')
  unfolding call_tool check_approval
  call_tool-dispatches s c clock = elim (Lookup-cases (registry_get s.world c.server_id)) [
    | inl (d, found) ↦ elim (Bool-cases (is_approved d.approval_status)) [
      | inl approval ↦
          rw (call_tool, found, check_approval, approval)
            (elim (authorize-Authorized s c d clock) [
              | inl same ↦ inl same
              | inr (authorized, known, sent) ↦ inr (d, refl, approval, authorized, known, sent)
            ])
      | inr unapproved ↦ rw (call_tool, found, check_approval, unapproved) (inl refl)
    ]
    | inr (inl (m, missing)) ↦ rw (call_tool, missing) (inl refl)
    | inr (inr (m, failure)) ↦ rw (call_tool, failure) (inl refl)
  ]
