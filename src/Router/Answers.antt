-- ===== src/Router/Answers.antt =====
-- apps/server/src/router.service.ts: what a dispatched call answers, and what it records for its
-- session.
use mathlib.Core.Path.{subst}
use mavio_mcp.Base.{
  ℕ, String, not, ◌≡◌, refl, sym, ap, ◌⊎◌, inl, inr, Option, none, some, length, arith, Bool-cases,
  Option-cases, if◌then◌else◌,
}
use mavio_mcp.Core.{ServerDescriptor, ToolDefinition, FrameId, McpFrame}
use mavio_mcp.Core.Breaker.{enter, CircuitOpenError}
use mavio_mcp.Sessions.McpSession.{McpSessionStore, record_outcome}
use mavio_mcp.Router.{
  Attempt, resolved, thrown, RouterState, Backends, upstream_error, apply_injection,
}
use mavio_mcp.Router.Request.{
  transport_type, ToolCall, Clock, error_frame, result_frame, is_some, given,
}
use mavio_mcp.Router.Report.{
  Ending, answered, failed, open_breaker, undefined_length, response_length, trace_enabled, is_ok,
  outcome_of, reply_to,
}
use mavio_mcp.Router.Dispatch.{is_answer, dispatch_by_kind}
use mavio_mcp.Router.Finish.{finish, finish_session, write, in_world, ending}
use mavio_mcp.Router.Audit.{audits}
use mavio_mcp.Router.Cases.{Admission-cases, UpstreamResolution-cases}
use mavio_mcp.Router.Service.{dispatch, resolve_upstream}

-- An answer has the id of its request, and a result or an error but not both; `Why` tells of a
-- message that is thrown instead.
abbrev pub Answers : Option FrameId → (String → Type 0) → Attempt McpFrame → Type 0
Answers id Why (thrown m) = Why m
Answers id Why (resolved f) = (f.id ≡ id) × (is_some f.result ≡ not (is_some f.error))

pub Answers-map :
    (id : Option FrameId) (P Q : String → Type 0)
    → ((m : String) → P m → Q m)
    → (a : Attempt McpFrame) → Answers id P a
    → Answers id Q a
Answers-map id P Q f (thrown m) h = f m h
Answers-map id P Q f (resolved frame) h = h

reply_to-Answers :
    (to_iso_string : ℕ → String) (id : Option FrameId) (e : Ending)
    → Answers id (λ m. ⊥) (resolved (reply_to to_iso_string id e))
unfolding error_frame result_frame
reply_to-Answers to_iso_string id (answered r) = (refl, refl)
reply_to-Answers to_iso_string id (failed m) = (refl, refl)
reply_to-Answers to_iso_string id (open_breaker e) = (refl, refl)

-- The call wrote no audit entry.
abbrev pub Unaudited : {W : Type 0} → RouterState W → RouterState W → Type 0
Unaudited s s' = length (audits s'.log) ≡ length (audits s.log)

module _ {W : Type 0} (to_iso_string : ℕ → String) where
  -- For a session, the outcome of the ending is recorded, and the ending answered, or the answer
  -- has no length and nothing is recorded, answered or audited.
  abbrev pub Recorded :
      RouterState W → ToolCall → String → Ending → RouterState W × Attempt McpFrame → Type 0
  Recorded s c id e r =
      ((response_length e ≡ none)
        × (r.1 ≡ thrown undefined_length)
        × (r.0.mcp_sessions ≡ s.mcp_sessions)
        × Unaudited s r.0)
      ⊎ ((n : ℕ) × (response_length e ≡ some n)
          × (r.1 ≡ resolved (reply_to to_iso_string c.frame_id e))
          × (r.0.mcp_sessions ≡ record_outcome s.mcp_sessions id (not (is_ok (outcome_of e))) n))

  -- Without a session nothing is recorded, and the ending answered.
  abbrev pub Finished :
      RouterState W → ToolCall → Ending → RouterState W × Attempt McpFrame → Type 0
  Finished s c e r =
      ((given c.session_id ≡ none)
        × (r.1 ≡ resolved (reply_to to_iso_string c.frame_id e))
        × (r.0.mcp_sessions ≡ s.mcp_sessions))
      ⊎ ((id : String) × (given c.session_id ≡ some id) × Recorded s c id e r)

  finish_session-sessions :
      (s : RouterState W) (c : ToolCall) (d : ServerDescriptor) (clock : Clock) (e : Ending)
      (m : McpSessionStore)
      → s.mcp_sessions ≡ m
      → (finish_session to_iso_string s c d clock e).0.mcp_sessions ≡ m
  unfolding finish_session
  finish_session-sessions s c d clock e m h =
      ground (arith, Bool-cases (trace_enabled d), Bool-cases (is_answer e))

  finish_session-reply :
      (s : RouterState W) (c : ToolCall) (d : ServerDescriptor) (clock : Clock) (e : Ending)
      → (finish_session to_iso_string s c d clock e).1
        ≡ resolved (reply_to to_iso_string c.frame_id e)
  unfolding finish_session
  finish_session-reply s c d clock e = refl

  pub finish-Finished :
      (s : RouterState W) (c : ToolCall) (d : ServerDescriptor) (clock : Clock) (e : Ending)
      → Finished s c e (finish to_iso_string s c d clock e)
  unfolding finish
  finish-Finished s c d clock e =
      let s1 : RouterState W =
        if is_ok (outcome_of e)
        then s
        else write (upstream_error c.server_id (transport_type d.transport)) s in
      let same : s1.mcp_sessions ≡ s.mcp_sessions =
        ground (arith, Bool-cases (is_ok (outcome_of e))) in
      let quiet : length (audits s1.log) ≡ length (audits s.log) =
        ground (arith, Bool-cases (is_ok (outcome_of e))) in
      elim (Option-cases (given c.session_id)) [
        | inl no_session ↦
            rw (finish, no_session)
              (inl (
                refl,
                finish_session-reply _ c d clock e,
                finish_session-sessions _ c d clock e _ same,
              ))
        | inr (id, session) ↦ elim (Option-cases (response_length e)) [
          | inl undefined ↦
              rw (finish, session, undefined) (inr (id, refl, inl (refl, refl, same, quiet)))
          | inr (n, known) ↦
              rw (finish, session, known)
                (inr (
                  id,
                  refl,
                  inr (
                    n,
                    refl,
                    finish_session-reply _ c d clock e,
                    finish_session-sessions _ c d clock e _
                        (ap (λ m. record_outcome m id (not (is_ok (outcome_of e))) n) same),
                  ),
                ))
        ]
      ]

module _ {W : Type 0} (b : Backends W) (to_iso_string : ℕ → String)
    (sha1_hex : String → String) where
  open b use {registry_get, can, check_rate_limit, resolve_for_dispatch}

  -- How a call ends: the breaker is open, or the call is dispatched.
  abbrev pub Ends : ToolCall → Clock → Ending → Type 0
  Ends c clock e =
      ((refusal : CircuitOpenError) × (e ≡ open_breaker refusal))
      ⊎ ((w : W) × (d : ServerDescriptor) × (tool : ToolDefinition) × (e
            ≡ ending
                (dispatch_by_kind b w d c.tool_name tool.input_schema c.args clock.called_at).1))

  -- A call that ends, or that is sent back to ask for consent.
  abbrev pub Settled : RouterState W → ToolCall → Clock → RouterState W × Attempt McpFrame → Type 0
  Settled s c clock r =
      ((e : Ending) × Ends c clock e × Finished to_iso_string s c e r)
      ⊎ (Answers c.frame_id (λ m. ⊥) r.1 × (r.0.mcp_sessions ≡ s.mcp_sessions) × Unaudited s r.0)

  dispatch-Settled :
      (s : RouterState W) (c : ToolCall) (d : ServerDescriptor) (tool : ToolDefinition)
      (clock : Clock)
      → Settled s c clock (dispatch b to_iso_string sha1_hex s c d tool clock)
  unfolding dispatch
  dispatch-Settled s c d tool clock =
      elim (Admission-cases (enter s.breaker c.server_id clock.called_at).1) [
        | inl (e, fast) ↦
            rw (dispatch, fast)
              (inl (
                open_breaker e,
                inl (e, refl),
                finish-Finished to_iso_string (record s { breaker = _ }) c d clock _,
              ))
        | inr admission ↦
            rw (dispatch, admission)
              (inl (
                _,
                inr (s.world, d, tool, refl),
                finish-Finished to_iso_string (record s { breaker = _; world = _; log = _ }) c d
                    clock _,
              ))
      ]

  pub resolve_upstream-Settled :
      (s : RouterState W) (c : ToolCall) (d : ServerDescriptor) (tool : ToolDefinition)
      (clock : Clock)
      → Settled s c clock (resolve_upstream b to_iso_string sha1_hex s c d tool clock)
  unfolding resolve_upstream
  resolve_upstream-Settled s c d tool clock =
      elim (UpstreamResolution-cases (resolve_for_dispatch s.world c.principal d).1) [
        | inl none_needed ↦
            rw (resolve_upstream, none_needed) (dispatch-Settled (in_world _ s) c d tool clock)
        | inr (inl (i, injected)) ↦
            rw (resolve_upstream, injected)
              (dispatch-Settled (in_world _ s) c (apply_injection d i) tool clock)
        | inr (inr (provider, url, asked)) ↦
            rw (resolve_upstream, asked) (inr ((refl, refl), refl, refl))
      ]

  -- The upstream answered with neither a result nor an error, for a call with a session.
  abbrev pub Lost : ToolCall → Clock → String → Type 0
  Lost c clock m =
      (m ≡ undefined_length)
      × ((id : String) × (given c.session_id ≡ some id))
      × ((e : Ending) × Ends c clock e × (response_length e ≡ none))

  pub Settled-Answers :
      (s : RouterState W) (c : ToolCall) (clock : Clock) (r : RouterState W × Attempt McpFrame)
      → Settled s c clock r
      → Answers c.frame_id (Lost c clock) r.1
  Settled-Answers s c clock r (inl (e, ends, inl (none_given, reply, same))) =
      subst (Answers c.frame_id (Lost c clock)) (sym reply)
        (reply_to-Answers to_iso_string c.frame_id e)
  Settled-Answers s c clock r
        (inl (e, ends, inr (id, session, inl (unknown, threw, same, quiet)))) =
      subst (Answers c.frame_id (Lost c clock)) (sym threw)
        (refl, (id, session), (e, ends, unknown))
  Settled-Answers s c clock r (inl (e, ends, inr (id, session, inr (n, known, reply, same)))) =
      subst (Answers c.frame_id (Lost c clock)) (sym reply)
        (reply_to-Answers to_iso_string c.frame_id e)
  Settled-Answers s c clock r (inr (answers, same, quiet)) =
      Answers-map c.frame_id (λ m. ⊥) (Lost c clock) (λ m never. absurd never) r.1 answers

  pub Settled-unsessioned :
      (s : RouterState W) (c : ToolCall) (clock : Clock) (r : RouterState W × Attempt McpFrame)
      → given c.session_id ≡ none
      → Settled s c clock r
      → r.0.mcp_sessions ≡ s.mcp_sessions
  Settled-unsessioned s c clock r no_session (inl (e, ends, inl (none_given, reply, same))) = same
  Settled-unsessioned s c clock r no_session (inl (e, ends, inr (id, session, recorded))) =
      absurd (cc (no_session, session))
  Settled-unsessioned s c clock r no_session (inr (answers, same, quiet)) = same

  -- Nothing is recorded and audited, or the outcome of the ending that is answered is recorded.
  abbrev pub Noted :
      RouterState W → ToolCall → Clock → String → RouterState W × Attempt McpFrame → Type 0
  Noted s c clock id r =
      ((r.0.mcp_sessions ≡ s.mcp_sessions) × Unaudited s r.0)
      ⊎ ((e : Ending) × (n : ℕ) × Ends c clock e
          × (response_length e ≡ some n)
          × (r.1 ≡ resolved (reply_to to_iso_string c.frame_id e))
          × (r.0.mcp_sessions ≡ record_outcome s.mcp_sessions id (not (is_ok (outcome_of e))) n))

  pub Settled-Noted :
      (s : RouterState W) (c : ToolCall) (clock : Clock) (r : RouterState W × Attempt McpFrame)
      (id : String)
      → given c.session_id ≡ some id
      → Settled s c clock r
      → Noted s c clock id r
  Settled-Noted s c clock r id given_id (inl (e, ends, inl (none_given, reply, same))) =
      absurd (cc (none_given, given_id))
  Settled-Noted s c clock r id given_id
        (inl (e, ends, inr (j, session, inl (unknown, threw, same, quiet)))) =
      inl (same, quiet)
  Settled-Noted s c clock r id given_id
        (inl (e, ends, inr (j, session, inr (n, known, reply, same)))) =
      let one : j ≡ id = cc (session, given_id) in
      inr (
        e,
        n,
        ends,
        known,
        reply,
        subst
            (λ i. r.0.mcp_sessions ≡ record_outcome s.mcp_sessions i (not (is_ok (outcome_of e))) n)
            one same,
      )
  Settled-Noted s c clock r id given_id (inr (answers, same, quiet)) = inl (same, quiet)
