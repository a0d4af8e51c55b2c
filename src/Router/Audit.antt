-- ===== src/Router/Audit.antt =====
-- apps/server/src/router.service.ts: the audit log at the end of a call.
use mavio_mcp.Base.{
  ℕ, suc, String, Bool, true, false, ◌≡◌, refl, inl, inr, Option, none, some, List, [], ◌∷◌, length,
  arith, Bool-cases, Option-cases, if◌then◌else◌,
}
use mavio_mcp.Core.{ServerDescriptor}
use mavio_mcp.Router.{
  resolved, thrown, AuditEntry, LogEntry, audit, trace, rate_limit_denied, upstream_error,
  router_request, breaker_state, dispatched, RouterState,
}
use mavio_mcp.Router.Request.{ToolCall, Clock, given, transport_type}
use mavio_mcp.Router.Report.{
  Ending, response_length, trace_enabled, is_ok, outcome_of, reply_to, undefined_length,
}
use mavio_mcp.Router.Dispatch.{is_answer}
use mavio_mcp.Router.Finish.{finish, finish_session, write}

abbrev pub audits : List LogEntry → List AuditEntry
audits [] = []
audits (audit a ∷ log) = a ∷ audits log
audits (dispatched _ _ _ ∷ log) = audits log
audits (trace _ ∷ log) = audits log
audits (rate_limit_denied _ _ ∷ log) = audits log
audits (upstream_error _ _ ∷ log) = audits log
audits (router_request _ _ _ ∷ log) = audits log
audits (breaker_state _ _ ∷ log) = audits log

-- The call has a session, and the upstream answered with neither a result nor an error.
abbrev pub is_lost : Option String → Option ℕ → Bool
is_lost (some id) none = true
is_lost _ _ = false

module _ {W : Type 0} (to_iso_string : ℕ → String) where
  finish_session-audits :
      (s : RouterState W) (c : ToolCall) (d : ServerDescriptor) (clock : Clock) (e : Ending) (n : ℕ)
      → length (audits s.log) ≡ n
      → let (s', answer) = finish_session to_iso_string s c d clock e in
        (length (audits s'.log) ≡ suc n) × (answer ≡ resolved (reply_to to_iso_string c.frame_id e))
  unfolding finish_session
  finish_session-audits s c d clock e n h =
      (ground (arith, Bool-cases (trace_enabled d), Bool-cases (is_answer e)), refl)

  -- A dispatch that ended, however it ended, is audited once and answered; but for a call with a
  -- session whose upstream answered with neither a result nor an error the router throws, and
  -- writes no audit entry.
  pub finish-audits :
      (s : RouterState W) (c : ToolCall) (d : ServerDescriptor) (clock : Clock) (e : Ending)
      → let (s', answer) = finish to_iso_string s c d clock e in
        let lost = is_lost (given c.session_id) (response_length e) in
        (length (audits s'.log)
          ≡ (if lost then length (audits s.log) else suc (length (audits s.log))))
        × (answer ≡ (
            if lost
            then thrown undefined_length
            else resolved (reply_to to_iso_string c.frame_id e)))
  unfolding finish
  finish-audits s c d clock e =
      let s1 : RouterState W =
        if is_ok (outcome_of e)
        then s
        else write (upstream_error c.server_id (transport_type d.transport)) s in
      let same : length (audits s1.log) ≡ length (audits s.log) =
        ground (arith, Bool-cases (is_ok (outcome_of e))) in
      elim (Option-cases (given c.session_id)) [
        | inl no_session ↦ rw (finish, no_session) (finish_session-audits _ c d clock e _ same)
        | inr (id, session) ↦ elim (Option-cases (response_length e)) [
          | inl undefined ↦ rw (finish, session, undefined) (same, refl)
          | inr (n, known) ↦
              rw (finish, session, known) (finish_session-audits _ c d clock e _ same)
        ]
      ]
