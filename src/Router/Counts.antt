-- ===== src/Router/Counts.antt =====
-- apps/server/src/router.service.ts: what a call of a tool answers, and how it is counted for its
-- session.
use mathlib.Core.Path.{subst}
use Prim.Native.String.{◌++◌}
use mavio_mcp.Base.{
  not, sym, ℕ, String, ◌≡◌, refl, ◌⊎◌, inl, inr, none, some, Bool-cases, Option-cases, ltb,
}
use mavio_mcp.Json.Print.{stringify}
use mavio_mcp.Core.{ServerDescriptor, ToolDefinition, McpFrame}
use mavio_mcp.Rbac.Actions.{tool_invoke}
use mavio_mcp.Sessions.McpSession.{McpSessionStore, pre_call, record_outcome}
use mavio_mcp.Sessions.McpSession
use mavio_mcp.Router.{
  Attempt, resolved, thrown, other_error, rate_limit_denied, RouterState, Backends,
}
use mavio_mcp.Router.Request.{
  ToolCall, Clock, error_frame, is_some, is_approved, is_admin, tool_named, given, rpm_of,
  metadata_field,
}
use mavio_mcp.Router.Dispatch.{load_capabilities}
use mavio_mcp.Router.Finish.{scope_of, in_world, write}
use mavio_mcp.Router.Cases.{Lookup-cases, Verdict-cases}
use mavio_mcp.Router.Service.{
  check_session, limit_rate, find_tool, authorize, check_approval, call_tool, resource_of,
  resolve_upstream, session_refused,
}
use mavio_mcp.Router.Answers.{
  Answers, Answers-map, Unaudited, Lost, Noted, Settled, Settled-Answers, Settled-unsessioned,
  Settled-Noted, resolve_upstream-Settled,
}

module _ {W : Type 0} (b : Backends W) (to_iso_string : ℕ → String)
    (sha1_hex : String → String) where
  open b use {registry_get, can, check_rate_limit, resolve_for_dispatch}

  -- The session of a call: untouched, with no audit entry, as where a gate stopped the call before
  -- `preCall`; or counted and refused by `preCall`; or counted and allowed, and then noted.
  abbrev pub Charged :
      RouterState W → ToolCall → Clock → String → RouterState W × Attempt McpFrame → Type 0
  Charged s c clock id r =
      let (before, verdict) =
        pre_call sha1_hex s.mcp_sessions id c.fq_name (stringify c.args) clock.checked_at in
      ((r.0.mcp_sessions ≡ s.mcp_sessions) × Unaudited s r.0)
      ⊎ (((code : ℕ) × (message : String) × (verdict ≡ McpSession.refused code message)
            × (r.1 ≡ resolved (error_frame c.frame_id code message))
            × (r.0.mcp_sessions ≡ before))
          ⊎ ((verdict ≡ McpSession.allowed)
              × Noted b to_iso_string sha1_hex (record s { mcp_sessions = before }) c clock id r))

  abbrev pub Counted : RouterState W → ToolCall → Clock → RouterState W × Attempt McpFrame → Type 0
  Counted s c clock r =
      ((given c.session_id ≡ none) × (r.0.mcp_sessions ≡ s.mcp_sessions))
      ⊎ ((id : String) × (given c.session_id ≡ some id) × Charged s c clock id r)

  abbrev Right : RouterState W → ToolCall → Clock → RouterState W × Attempt McpFrame → Type 0
  Right s c clock r =
      Answers c.frame_id (Lost b to_iso_string sha1_hex c clock) r.1 × Counted s c clock r

  -- A gate answers before `preCall`.
  stopped-Right :
      (s : RouterState W) (c : ToolCall) (clock : Clock) (s' : RouterState W) (f : McpFrame)
      → s'.mcp_sessions ≡ s.mcp_sessions
      → Unaudited s s'
      → f.id ≡ c.frame_id
      → is_some f.result ≡ not (is_some f.error)
      → Right s c clock (s', resolved f)
  stopped-Right s c clock s' f same quiet id shape = (
    (id, shape),
    elim (Option-cases (given c.session_id)) [
      | inl no_session ↦ inl (no_session, same)
      | inr (id, session) ↦ inr (id, session, inl (same, quiet))
    ],
  )

  -- What follows `preCall`, or a call without a session.
  resolved-Right :
      (s : RouterState W) (c : ToolCall) (clock : Clock) (r : RouterState W × Attempt McpFrame)
      → given c.session_id ≡ none
      → Settled b to_iso_string sha1_hex s c clock r
      → Right s c clock r
  resolved-Right s c clock r no_session settled = (
    Settled-Answers b to_iso_string sha1_hex s c clock r settled,
    inl (no_session, Settled-unsessioned b to_iso_string sha1_hex s c clock r no_session settled),
  )

  allowed-Right :
      (s : RouterState W) (c : ToolCall) (clock : Clock) (id : String)
      (r : RouterState W × Attempt McpFrame)
      → given c.session_id ≡ some id
      → let (before, verdict) =
          pre_call sha1_hex s.mcp_sessions id c.fq_name (stringify c.args) clock.checked_at in
        (verdict ≡ McpSession.allowed)
        → Settled b to_iso_string sha1_hex (record s { mcp_sessions = before }) c clock r
        → Right s c clock r
  allowed-Right s c clock id r session fine settled = (
    Settled-Answers b to_iso_string sha1_hex (record s { mcp_sessions = _ }) c clock r settled,
    inr (
      id,
      session,
      inr (
          inr (
            fine,
            Settled-Noted b to_iso_string sha1_hex (record s { mcp_sessions = _ }) c clock r id
                session settled,
          )),
    ),
  )

  check_session-Right :
      (s : RouterState W) (c : ToolCall) (d : ServerDescriptor) (tool : ToolDefinition)
      (clock : Clock)
      → Right s c clock (check_session b to_iso_string sha1_hex s c d tool clock)
  unfolding check_session error_frame
  check_session-Right s c d tool clock = elim (Option-cases (given c.session_id)) [
    | inl no_session ↦
        let r = resolve_upstream b to_iso_string sha1_hex s c d tool clock in
        let goes_on : check_session b to_iso_string sha1_hex s c d tool clock ≡ r =
          simp (check_session, no_session) in
        subst (Right s c clock) (sym goes_on) (
          resolved-Right s c clock r no_session
            (resolve_upstream-Settled b to_iso_string sha1_hex s c d tool clock))
    | inr (id, session) ↦
        let before : McpSessionStore =
          (pre_call sha1_hex s.mcp_sessions id c.fq_name (stringify c.args) clock.checked_at).0 in
        let s' : RouterState W = record s { mcp_sessions = before } in
        elim (Verdict-cases
          (pre_call sha1_hex s.mcp_sessions id c.fq_name (stringify c.args) clock.checked_at).1) [
            | inl fine ↦
                let r = resolve_upstream b to_iso_string sha1_hex s' c d tool clock in
                let goes_on : check_session b to_iso_string sha1_hex s c d tool clock ≡ r =
                  simp (check_session, session, fine) in
                subst (Right s c clock) (sym goes_on) (
                  allowed-Right s c clock id r session fine
                    (resolve_upstream-Settled b to_iso_string sha1_hex s' c d tool clock))
            | inr (code, message, refusal) ↦
                let r : RouterState W × Attempt McpFrame = (
                  write (session_refused c message) s',
                  resolved (error_frame c.frame_id code message),
                ) in
                let stops : check_session b to_iso_string sha1_hex s c d tool clock ≡ r =
                  simp (check_session, session, refusal) in
                subst (Right s c clock) (sym stops)
                  ((refl, refl), inr (id, session, inr (inl (code, message, refusal, refl, refl))))
          ]
  ]

  limit_rate-Right :
      (s : RouterState W) (c : ToolCall) (d : ServerDescriptor) (tool : ToolDefinition)
      (clock : Clock)
      → Right s c clock (limit_rate b to_iso_string sha1_hex s c d tool clock)
  unfolding limit_rate error_frame
  limit_rate-Right s c d tool clock =
      let rpm : ℕ = rpm_of (metadata_field "rateLimitRpm" d) in
      let (w, verdict) = check_rate_limit s.world (scope_of c) rpm 60 in
      elim (Bool-cases (ltb 0 rpm)) [
        | inr unlimited ↦ rw (limit_rate, unlimited) (check_session-Right s c d tool clock)
        | inl limited ↦ elim (Bool-cases verdict.allowed) [
          | inl fine ↦
              rw (limit_rate, limited, fine) (check_session-Right (in_world w s) c d tool clock)
          | inr over ↦
              rw (limit_rate, limited, over)
                (stopped-Right s c clock
                  (write (rate_limit_denied c.server_id (scope_of c)) (in_world w s))
                  (error_frame c.frame_id 32011 _) refl refl refl refl)
        ]
      ]

  find_tool-Right :
      (s : RouterState W) (c : ToolCall) (d : ServerDescriptor) (clock : Clock)
      → Right s c clock (find_tool b to_iso_string sha1_hex s c d clock)
  unfolding find_tool error_frame
  find_tool-Right s c d clock =
      elim (Option-cases (tool_named c.tool_name (load_capabilities b s.world c.server_id).1)) [
        | inl unknown ↦
            rw (find_tool, unknown)
              (stopped-Right s c clock (in_world (load_capabilities b s.world c.server_id).0 s)
                (error_frame c.frame_id 32001 _) refl refl refl refl)
        | inr (tool, known) ↦ rw (find_tool, known) (limit_rate-Right (in_world _ s) c d tool clock)
      ]

  authorize-Right :
      (s : RouterState W) (c : ToolCall) (d : ServerDescriptor) (clock : Clock)
      → Right s c clock (authorize b to_iso_string sha1_hex s c d clock)
  unfolding authorize error_frame
  authorize-Right s c d clock = elim (Option-cases c.principal) [
    | inl anonymous ↦
        let goes_on : authorize b to_iso_string sha1_hex s c d clock
            ≡ find_tool b to_iso_string sha1_hex s c d clock =
          simp (authorize, anonymous) in
        subst (Right s c clock) (sym goes_on) (find_tool-Right s c d clock)
    | inr (p, caller) ↦ elim (Bool-cases (is_admin p)) [
      | inl admin ↦
          let goes_on : authorize b to_iso_string sha1_hex s c d clock
              ≡ find_tool b to_iso_string sha1_hex s c d clock =
            simp (authorize, caller, admin) in
          subst (Right s c clock) (sym goes_on) (find_tool-Right s c d clock)
      | inr other ↦
          elim (Bool-cases
            (can s.world p tool_invoke (resource_of b to_iso_string sha1_hex c d)).allowed) [
              | inl fine ↦
                  let goes_on : authorize b to_iso_string sha1_hex s c d clock
                      ≡ find_tool b to_iso_string sha1_hex s c d clock =
                    simp (authorize, caller, other, fine) in
                  subst (Right s c clock) (sym goes_on) (find_tool-Right s c d clock)
              | inr denied ↦
                  let f = error_frame c.frame_id 32003 (
                    "authz denied: "
                    ++ (can s.world p tool_invoke
                        (resource_of b to_iso_string sha1_hex c d)).reason) in
                  let stops : authorize b to_iso_string sha1_hex s c d clock ≡ (s, resolved f) =
                    simp (authorize, caller, other, denied) in
                  subst (Right s c clock) (sym stops)
                    (stopped-Right s c clock s f refl refl refl refl)
            ]
    ]
  ]

  -- `registry.get` threw, or the answer of the upstream is lost.
  abbrev pub Fails : RouterState W → ToolCall → Clock → String → Type 0
  Fails s c clock m =
      (registry_get s.world c.server_id ≡ other_error m) ⊎ Lost b to_iso_string sha1_hex c clock m

  stopped-Counted :
      (s : RouterState W) (c : ToolCall) (clock : Clock) (m : String)
      → Counted s c clock (s, thrown m)
  stopped-Counted s c clock m = elim (Option-cases (given c.session_id)) [
    | inl no_session ↦ inl (no_session, refl)
    | inr (id, session) ↦ inr (id, session, inl (refl, refl))
  ]

  answered_or_lost :
      (s : RouterState W) (c : ToolCall) (clock : Clock) (r : RouterState W × Attempt McpFrame)
      → Right s c clock r
      → Answers c.frame_id (Fails s c clock) r.1 × Counted s c clock r
  answered_or_lost s c clock r (answers, counted) = (
    Answers-map c.frame_id (Lost b to_iso_string sha1_hex c clock) (Fails s c clock)
        (λ m lost. inr lost) r.1 answers,
    counted,
  )

  call_tool-Right :
      (s : RouterState W) (c : ToolCall) (clock : Clock)
      → Answers c.frame_id (Fails s c clock) (call_tool b to_iso_string sha1_hex s c clock).1
        × Counted s c clock (call_tool b to_iso_string sha1_hex s c clock)
  unfolding call_tool check_approval error_frame
  call_tool-Right s c clock = elim (Lookup-cases (registry_get s.world c.server_id)) [
    | inl (d, found) ↦ elim (Bool-cases (is_approved d.approval_status)) [
      | inl approval ↦
          rw (call_tool, found, check_approval, approval)
            (answered_or_lost s c clock (authorize b to_iso_string sha1_hex s c d clock)
              (authorize-Right s c d clock))
      | inr unapproved ↦
          rw (call_tool, found, check_approval, unapproved)
            (answered_or_lost s c clock (s, resolved (error_frame c.frame_id 32002 _))
              (stopped-Right s c clock s (error_frame c.frame_id 32002 _) refl refl refl refl))
    ]
    | inr (inl (m, missing)) ↦
        rw (call_tool, missing)
          (answered_or_lost s c clock (s, resolved (error_frame c.frame_id 32001 m))
            (stopped-Right s c clock s (error_frame c.frame_id 32001 m) refl refl refl refl))
    | inr (inr (m, failure)) ↦
        let threw : call_tool b to_iso_string sha1_hex s c clock ≡ (s, thrown m) =
          simp (call_tool, failure) in
        subst (λ r. Answers c.frame_id (Fails s c clock) r.1 × Counted s c clock r) (sym threw)
          (inl failure, stopped-Counted s c clock m)
  ]

  -- A call without a session leaves the sessions alone. For a call with one: the sessions are as
  -- they were and no audit entry is written, as where a gate stops it; or `preCall` counted and
  -- refused it, and its refusal answers; or `preCall` counted and allowed it, and either no more is
  -- recorded and no audit entry is written, or the outcome that is answered is recorded for the
  -- session, as an error or not, with the length of the response.
  pub call_tool-Counted :
      (s : RouterState W) (c : ToolCall) (clock : Clock)
      → Counted s c clock (call_tool b to_iso_string sha1_hex s c clock)
  call_tool-Counted s c clock = (call_tool-Right s c clock).1

  pub call_tool-Answers :
      (s : RouterState W) (c : ToolCall) (clock : Clock)
      → Answers c.frame_id (Fails s c clock) (call_tool b to_iso_string sha1_hex s c clock).1
  call_tool-Answers s c clock = (call_tool-Right s c clock).0
