-- ===== src/Sessions/McpSession/Reaper.antt =====
-- apps/server/src/mcp-session.store.ts: `reapExpired` removes the expired sessions and no others.
use mavio_mcp.Base.{
  ℕ, ◌≡◌, refl, String, Bool, Option, none, some, [], ◌∷◌, arith, eq_iff, if◌then◌else◌, length,
  keep,
}
use mavio_mcp.Base.Map.{Map, get, get-delete, IsMap}
use mavio_mcp.Sessions.McpSession.{
  McpSessionRecord, McpSessionStore, remove, is_expired, reap_from, reap_expired,
}

-- What is left of a value under the key of a session, if the record of the session is expired.
abbrev pub reaped {ℓ} :
    {V : Type ℓ} → McpSessionStore → ℕ → Option McpSessionRecord → Option V → Option V
reaped s now none o = o
reaped s now (some r) o = if is_expired s now r then none else o

reap_from-get :
    (id : String) (now : ℕ) (rest : Map McpSessionRecord) (s : McpSessionStore)
    → IsMap rest
    → (get id (reap_from now rest s).0.records ≡ reaped s now (get id rest) (get id s.records))
      × (get id (reap_from now rest s).0.loop_state
          ≡ reaped s now (get id rest) (get id s.loop_state))
unfolding reap_from remove
reap_from-get id now [] s h = (refl, refl)
reap_from-get id now ((k, r) ∷ rest) s (new, h) = ground (
  arith,
  eq_iff k id,
  get-delete k id s.records,
  get-delete k id s.loop_state,
  reap_from-get id now rest s h,
  reap_from-get id now rest (remove s k).0 h,
)

abbrev pub expired_entry : McpSessionStore → ℕ → String × McpSessionRecord → Bool
expired_entry s now e = is_expired s now e.1

reap_from-count :
    (now : ℕ) (rest : Map McpSessionRecord) (s : McpSessionStore)
    → (reap_from now rest s).1 ≡ length (keep (expired_entry s now) rest)
unfolding reap_from remove
reap_from-count now [] s = refl
reap_from-count now ((k, r) ∷ rest) s =
    ground (arith, reap_from-count now rest s, reap_from-count now rest (remove s k).0)

-- A session that was last seen within its time to live keeps its record and its counts; of any
-- other session both are gone. The result is the number of sessions that were removed.
pub reap_expired_lem :
    (s : McpSessionStore) (now : ℕ) (id : String)
    → IsMap s.records
    → let (s', n) = reap_expired s now in
      (get id s'.records ≡ reaped s now (get id s.records) (get id s.records))
      × (get id s'.loop_state ≡ reaped s now (get id s.records) (get id s.loop_state))
      × (n ≡ length (keep (expired_entry s now) s.records))
unfolding reap_expired
reap_expired_lem s now id h =
    let (records, loops) = reap_from-get id now s.records s h in
    (records, loops, reap_from-count now s.records s)
