-- ===== src/Sessions/McpSession/Tests.antt =====
-- The session store at concrete inputs.
use mavio_mcp.Base.{ℕ, ◌≡◌, ◌≢◌, refl, ◌≤◌, String, true, none, some, [], ◌∷◌, map, arith, eq_iff}
use mavio_mcp.Sessions.McpSession.{
  McpSessionStore, McpSessionStoreOptions, new_store, register, sse, pre_call, check_rate,
  check_loop, count_in_bucket, loop_key, record_outcome, reap_expired, reap_from, remove, allowed,
}
use mavio_mcp.Sessions.McpSession.Limits.{Call, count_allowed, count_allowed-le}
use mavio_mcp.Sessions.McpSession.LoopGuard.{count_allowed-repeated}

mcp_sessions : Unit {0}
unfolding new_store register pre_call check_rate check_loop count_in_bucket loop_key record_outcome
    reap_expired reap_from remove count_allowed
mcp_sessions = tt

-- Stands for the digest: the examples only compare digests.
abbrev digest : String → String
digest s = s

abbrev options : McpSessionStoreOptions
options = record {
  limits = some (record { max_calls = some 5; max_calls_per_minute = some 4; max_duration = none });
  loop_guard = some (record { enabled = true; max_n = some 3; window_ms = some 100 });
  session_ttl_ms = some 1000;
}

abbrev store : McpSessionStore
store = register (register (new_store options) "a" sse none 10) "b" sse none 900

abbrev read_file : ℕ → Call
read_file now = record { tool_name = "fs.read"; args_json = "{}"; now = now }

abbrev after_one : McpSessionStore
after_one = (pre_call digest store "a" "fs.read" "{}" 20).0

mcp_session_tests :
    (count_allowed digest store "a" (map read_file (20 ∷ 21 ∷ 22 ∷ 23 ∷ [])) ≡ 2)
    × (count_allowed digest store "a" (map read_file (20 ∷ 30 ∷ 130 ∷ 131 ∷ 132 ∷ 240 ∷ [])) ≡ 4)
    × ((pre_call digest store "zz" "fs.read" "{}" 20).1 ≡ allowed)
    × ((reap_expired store 1500).1 ≡ 1)
unfolding mcp_sessions
mcp_session_tests = (refl, refl, refl, refl)

count_allowed-le_example : count_allowed digest store "a" (map read_file (20 ∷ 300 ∷ 600 ∷ [])) ≤ 5
unfolding mcp_sessions
count_allowed-le_example =
    count_allowed-le digest store "a" (map read_file (20 ∷ 300 ∷ 600 ∷ [])) _ 5 refl refl

count_allowed-repeated_example :
    count_allowed digest after_one "a" (map read_file (21 ∷ 22 ∷ 23 ∷ [])) ≤ 1
unfolding mcp_sessions
count_allowed-repeated_example =
    count_allowed-repeated digest "a" "fs.read" "{}" after_one (21 ∷ 22 ∷ 23 ∷ [])
      (record { count = 1; window_start = 20 }) _ refl refl refl (omega arith)

a_ne_b : ◌≢◌ {A = String} "a" "b"
a_ne_b = ground (arith, eq_iff "a" "b")
