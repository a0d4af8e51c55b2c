-- ===== src/Sessions/McpSession/Limits.antt =====
-- apps/server/src/mcp-session.store.ts: `preCall` keeps a session within its number of calls, and
-- no call of one session counts for another.
use mavio_mcp.Base.{
  ℕ, suc, ◌+◌, ◌-◌, ◌≤◌, ◌≡◌, refl, ◌≢◌, String, true, false, some, List, [], ◌∷◌, arith, inl, inr,
  Option-cases, if◌then◌else◌,
}
use mavio_mcp.Base.Map.{get, set, get-set_self, get-set_ne}
use mavio_mcp.Sessions.McpSession.{
  McpSessionRecord, McpSessionStore, is_allowed, touched, above, count_in_bucket, loop_key,
  check_loop, check_rate, pre_call,
}

-- A call: the tool, its arguments as JSON, and the clock.
pub record Call : Type 0 where
  pub tool_name : String
  pub args_json : String
  pub now : ℕ

-- The options that the checks read.
pub record SameOptions (s t : McpSessionStore) : Type 0 where
  pub limits : t.limits ≡ s.limits
  pub loop_enabled : t.loop_enabled ≡ s.loop_enabled
  pub loop_max_n : t.loop_max_n ≡ s.loop_max_n
  pub loop_window_ms : t.loop_window_ms ≡ s.loop_window_ms

module _ (sha1_hex : String → String) where
  -- How many of the calls of a session are allowed.
  unfoldable pub count_allowed : McpSessionStore → String → List Call → ℕ
  count_allowed s id [] = 0
  count_allowed s id (c ∷ cs) =
      let (s', v) = pre_call sha1_hex s id c.tool_name c.args_json c.now in
      let rest = count_allowed s' id cs in if is_allowed v then suc rest else rest

  -- The checks after the count of calls leave records and options alone.
  pub check_loop-keeps :
      (s : McpSessionStore) (id tool_name args_json : String) (now : ℕ)
      → ((check_loop sha1_hex s id tool_name args_json now).0.records ≡ s.records)
        × SameOptions s (check_loop sha1_hex s id tool_name args_json now).0
  unfolding check_loop count_in_bucket
  check_loop-keeps s id tool_name args_json now = ground arith

  pub check_rate-keeps :
      (s : McpSessionStore) (id tool_name args_json : String) (now : ℕ)
      → ((check_rate sha1_hex s id tool_name args_json now).0.records ≡ s.records)
        × SameOptions s (check_rate sha1_hex s id tool_name args_json now).0
  unfolding check_rate count_in_bucket
  check_rate-keeps s id tool_name args_json now = ground (
    arith,
    check_loop-keeps s id tool_name args_json now,
    check_loop-keeps (count_in_bucket s id "__rpm__" now 60_000).0 id tool_name args_json now,
  )

  pub pre_call-records :
      (s : McpSessionStore) (id : String) (c : Call) (r : McpSessionRecord)
      → get id s.records ≡ some r
      → ((pre_call sha1_hex s id c.tool_name c.args_json c.now).0.records
          ≡ set id (touched r c.args_json c.now) s.records)
        × SameOptions s (pre_call sha1_hex s id c.tool_name c.args_json c.now).0
  unfolding pre_call
  pre_call-records s id c r found =
      rw (found, pre_call)
        (
          ground (
            arith,
            check_rate-keeps (record s { records = set id (touched r c.args_json c.now) s.records })
                id c.tool_name c.args_json c.now,
          ),
          ground (
            arith,
            check_rate-keeps (record s { records = set id (touched r c.args_json c.now) s.records })
                id c.tool_name c.args_json c.now,
          ),
        )

  pre_call-over :
      (s : McpSessionStore) (id : String) (c : Call) (r : McpSessionRecord) (n : ℕ)
      → get id s.records ≡ some r
      → s.limits.max_calls ≡ some n
      → n ≤ r.call_count
      → is_allowed (pre_call sha1_hex s id c.tool_name c.args_json c.now).1 ≡ false
  unfolding pre_call
  pre_call-over s id c r n found limit over =
      let exceeded : above (r.call_count + 1) s.limits.max_calls ≡ true = rw limit (ground arith) in
      rw (found, pre_call, exceeded)

  -- Of the calls of a session, in whatever order tools, arguments and times come, no more are
  -- allowed than the session has left of its limit.
  pub count_allowed-le :
      (s : McpSessionStore) (id : String) (cs : List Call) (r : McpSessionRecord) (n : ℕ)
      → get id s.records ≡ some r
      → s.limits.max_calls ≡ some n
      → count_allowed s id cs ≤ n - r.call_count
  unfolding count_allowed
  count_allowed-le s id [] r n found limit = omega arith
  count_allowed-le s id (c ∷ cs) r n found limit =
      let s' = (pre_call sha1_hex s id c.tool_name c.args_json c.now).0 in
      let (records, options) = pre_call-records s id c r found in
      let r' = touched r c.args_json c.now in
      let found' : get id s'.records ≡ some r' = rw records (get-set_self id r' s.records) in
      let limit' : s'.limits.max_calls ≡ some n = rw options.limits limit in
      let rest = count_allowed-le s' id cs r' n found' limit' in
      ground (arith, rest, pre_call-over s id c r n found limit)

  count_in_bucket-isolated :
      (s : McpSessionStore) (id j key : String) (now window : ℕ)
      → id ≢ j
      → get j (count_in_bucket s id key now window).0.loop_state ≡ get j s.loop_state
  unfolding count_in_bucket
  count_in_bucket-isolated s id j key now window other = get-set_ne _ s.loop_state other

  check_loop-isolated :
      (s : McpSessionStore) (id j tool_name args_json : String) (now : ℕ)
      → id ≢ j
      → get j (check_loop sha1_hex s id tool_name args_json now).0.loop_state ≡ get j s.loop_state
  unfolding check_loop
  check_loop-isolated s id j tool_name args_json now other = ground (
    arith,
    count_in_bucket-isolated s id j (loop_key sha1_hex tool_name args_json) now s.loop_window_ms
        other,
  )

  check_rate-isolated :
      (s : McpSessionStore) (id j tool_name args_json : String) (now : ℕ)
      → id ≢ j
      → get j (check_rate sha1_hex s id tool_name args_json now).0.loop_state ≡ get j s.loop_state
  unfolding check_rate
  check_rate-isolated s id j tool_name args_json now other =
      let s' = (count_in_bucket s id "__rpm__" now 60_000).0 in
      ground (
        arith,
        count_in_bucket-isolated s id j "__rpm__" now 60_000 other,
        check_loop-isolated s id j tool_name args_json now other,
        check_loop-isolated s' id j tool_name args_json now other,
      )

  -- A call of one session leaves every other session's record and counts as they were.
  pub pre_call-isolated :
      (s : McpSessionStore) (id j : String) (c : Call)
      → id ≢ j
      → let s' = (pre_call sha1_hex s id c.tool_name c.args_json c.now).0 in
        (get j s'.records ≡ get j s.records) × (get j s'.loop_state ≡ get j s.loop_state)
  unfolding pre_call
  pre_call-isolated s id j c other = elim (Option-cases (get id s.records)) [
    | inl missing ↦ rw (missing, pre_call) (refl, refl)
    | inr (r, found) ↦
        let r' = touched r c.args_json c.now in
        (
          rw (pre_call-records s id c r found).0 (get-set_ne r' s.records other),
          rw (found, pre_call)
              (ground (
                arith,
                check_rate-isolated (record s { records = set id r' s.records }) id j c.tool_name
                    c.args_json c.now other,
              )),
        )
  ]
