-- ===== src/Sessions/SessionStore.antt =====
-- packages/transport/src/streamable-session-store.ts: `MemoryStreamableSessionStore`. The random
-- id of a new session and the clock are arguments.
use mavio_mcp.Base.{
  ℕ, suc, ◌+◌, ◌*◌, ◌≡◌, refl, String, Bool, true, false, Option, none, some, List, [], ◌∷◌, ltb,
  if◌then◌else◌, arith, eq_iff,
}
use mavio_mcp.Base.Map.{Map, get, set, delete, has, values, get-delete, IsMap}

abbrev pub session_ttl_ms : ℕ
session_ttl_ms = 24 * 60 * 60 * 1000

pub record StreamableSessionMetadata : Type 0 where
  pub session_id : String
  pub created_at : ℕ
  pub last_seen_at : ℕ

abbrev pub SessionStore : Type 0
SessionStore = Map StreamableSessionMetadata

abbrev or_random : Option String → String → String
or_random none random = random
or_random (some id) random = id

unfoldable pub create_session : SessionStore → Option String → String → ℕ → SessionStore × String
create_session sessions id random now =
    let chosen = or_random id random in
    (
      set chosen (record { session_id = chosen; created_at = now; last_seen_at = now }) sessions,
      chosen,
    )

abbrev pub has_session : SessionStore → String → Bool
has_session sessions id = has id sessions

unfoldable pub touch_session : SessionStore → String → ℕ → SessionStore × Bool
touch_session sessions id now = elim (get id sessions) [
  | none ↦ (sessions, false)
  | some s ↦ (set id (record s { last_seen_at = now }) sessions, true)
]

abbrev pub get_session : SessionStore → String → Option StreamableSessionMetadata
get_session sessions id = get id sessions

unfoldable pub delete_metadata : SessionStore → String → SessionStore × Bool
delete_metadata sessions id = (delete id sessions, has id sessions)

abbrev pub list_all : SessionStore → List StreamableSessionMetadata
list_all sessions = values sessions

abbrev pub is_stale : ℕ → StreamableSessionMetadata → Bool
is_stale now s = ltb (s.last_seen_at + session_ttl_ms) now

-- The loop of `reapExpired`, over the entries that it began with.
unfoldable pub reap_stale : ℕ → SessionStore → SessionStore → SessionStore × ℕ
reap_stale now [] sessions = (sessions, 0)
reap_stale now ((id, s) ∷ rest) sessions =
    let stale = is_stale now s in
    let (sessions', n) = reap_stale now rest (if stale then delete id sessions else sessions) in
    (sessions', if stale then suc n else n)

unfoldable pub reap_sessions : SessionStore → ℕ → SessionStore × ℕ
reap_sessions sessions now = reap_stale now sessions sessions

-- What is left of an entry.
abbrev pub unless_stale :
    ℕ
    → Option StreamableSessionMetadata
    → Option StreamableSessionMetadata
    → Option StreamableSessionMetadata
unless_stale now none o = o
unless_stale now (some s) o = if is_stale now s then none else o

reap_stale-get :
    (id : String) (now : ℕ) (rest sessions : SessionStore)
    → IsMap rest
    → get id (reap_stale now rest sessions).0 ≡ unless_stale now (get id rest) (get id sessions)
unfolding reap_stale
reap_stale-get id now [] sessions h = refl
reap_stale-get id now ((k, s) ∷ rest) sessions (new, h) = ground (
  arith,
  eq_iff k id,
  get-delete k id sessions,
  reap_stale-get id now rest sessions h,
  reap_stale-get id now rest (delete k sessions) h,
)

-- Reaping removes a session if it was last seen more than a day ago, and no other.
pub reap_sessions-get :
    (id : String) (sessions : SessionStore) (now : ℕ)
    → IsMap sessions
    → get id (reap_sessions sessions now).0 ≡ unless_stale now (get id sessions) (get id sessions)
unfolding reap_sessions
reap_sessions-get id sessions now h = reap_stale-get id now sessions sessions h
