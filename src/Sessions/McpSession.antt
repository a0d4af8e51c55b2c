-- ===== src/Sessions/McpSession.antt =====
-- apps/server/src/mcp-session.store.ts: `McpSessionStore`. The clock is an argument; `sha1_hex` is
-- the hexadecimal SHA-1 digest of node:crypto. Error codes are negated.
pub mod Limits
pub mod LoopGuard
pub mod Reaper
mod Tests
use Prim.Native.String.{◌++◌}
use Prim.Native.String
use mavio_mcp.Base.{
  ℕ, suc, ◌+◌, ◌*◌, String, Bool, true, false, Option, none, some, List, [], ◌∷◌, ltb, leb,
  if◌then◌else◌,
}
use mavio_mcp.Base.Map.{Map, get, set, delete, has, values}
use mavio_mcp.Base.Text.{show, utf16_length}
use mavio_mcp.Json.{Json}

pub data SessionTransport : Type 0 where
  streamable_http sse unknown_transport : SessionTransport

pub record McpSessionRecord : Type 0 where
  pub id : String
  pub principal_id : Option String
  pub transport : SessionTransport
  pub client_info : Option Json
  pub created_at : ℕ
  pub last_seen_at : ℕ
  pub call_count : ℕ
  pub error_count : ℕ
  pub bytes_in : ℕ
  pub bytes_out : ℕ
  pub cost_units : ℕ
  pub labels : Map String

pub record McpSessionLimits : Type 0 where
  pub max_calls : Option ℕ
  pub max_calls_per_minute : Option ℕ
  pub max_duration : Option ℕ

pub record LoopGuardOptions : Type 0 where
  pub enabled : Bool
  pub max_n : Option ℕ
  pub window_ms : Option ℕ

pub record McpSessionStoreOptions : Type 0 where
  pub limits : Option McpSessionLimits
  pub loop_guard : Option LoopGuardOptions
  pub session_ttl_ms : Option ℕ

abbrev pub session_limit_error_code : ℕ
session_limit_error_code = 32029

pub record LoopBucket : Type 0 where
  pub count : ℕ
  pub window_start : ℕ

pub record McpSessionStore : Type 0 where
  pub records : Map McpSessionRecord
  pub loop_state : Map (Map LoopBucket)
  pub limits : McpSessionLimits
  pub loop_enabled : Bool
  pub loop_max_n : ℕ
  pub loop_window_ms : ℕ
  pub session_ttl_ms : ℕ

abbrev or_default {ℓ} : {A : Type ℓ} → Option A → A → A
or_default none d = d
or_default (some a) d = a

abbrev no_limits : McpSessionLimits
no_limits = record { max_calls = none; max_calls_per_minute = none; max_duration = none }

-- What the constructor reads of a missing `loopGuard`.
abbrev no_guard : LoopGuardOptions
no_guard = record { enabled = false; max_n = none; window_ms = none }

unfoldable pub new_store : McpSessionStoreOptions → McpSessionStore
new_store options =
    let guard = or_default options.loop_guard no_guard in
    record {
      records = [];
      loop_state = [];
      limits = or_default options.limits no_limits;
      loop_enabled = guard.enabled;
      loop_max_n = or_default guard.max_n 10;
      loop_window_ms = or_default guard.window_ms 60_000;
      session_ttl_ms = or_default options.session_ttl_ms (24 * 60 * 60 * 1000);
    }

abbrev new_record : String → SessionTransport → Option String → ℕ → McpSessionRecord
new_record id transport principal_id now = record {
  id = id;
  principal_id = principal_id;
  transport = transport;
  client_info = none;
  created_at = now;
  last_seen_at = now;
  call_count = 0;
  error_count = 0;
  bytes_in = 0;
  bytes_out = 0;
  cost_units = 0;
  labels = [];
}

unfoldable pub register :
    McpSessionStore → String → SessionTransport → Option String → ℕ → McpSessionStore
register s id transport principal_id now =
    if has id s.records
    then s
    else record s { records = set id (new_record id transport principal_id now) s.records }

unfoldable pub set_client_info : McpSessionStore → String → Json → McpSessionStore
set_client_info s id info = elim (get id s.records) [
  | none ↦ s
  | some r ↦ record s { records = set id (record r { client_info = some info }) s.records }
]

abbrev pub get_record : McpSessionStore → String → Option McpSessionRecord
get_record s id = get id s.records

abbrev pub list : McpSessionStore → List McpSessionRecord
list s = values s.records

unfoldable pub remove : McpSessionStore → String → McpSessionStore × Bool
remove s id = (
  record s { loop_state = delete id s.loop_state; records = delete id s.records },
  has id s.records,
)

pub data Verdict : Type 0 where
  allowed : Verdict
  refused : ℕ → String → Verdict

abbrev pub is_allowed : Verdict → Bool
is_allowed allowed = true
is_allowed (refused code message) = false

abbrev bucket_map : Option (Map LoopBucket) → Map LoopBucket
bucket_map none = []
bucket_map (some m) = m

-- The bucket that `_bucket` counts in: the one there is, or a new one where its window is over.
abbrev pub current_bucket : ℕ → ℕ → Option LoopBucket → LoopBucket
current_bucket now window none = record { count = 0; window_start = now }
current_bucket now window (some b) =
    if ltb (b.window_start + window) now then record { count = 0; window_start = now } else b

abbrev pub buckets : McpSessionStore → String → Map LoopBucket
buckets s id = bucket_map (get id s.loop_state)

-- `_bucket`, which counts one more call under the key.
unfoldable pub count_in_bucket :
    McpSessionStore → String → String → ℕ → ℕ → McpSessionStore × LoopBucket
count_in_bucket s id key now window =
    let b = current_bucket now window (get key (buckets s id)) in
    let b' : LoopBucket = record b { count = suc b.count } in
    (record s { loop_state = set id (set key b' (buckets s id)) s.loop_state }, b')

abbrev pub touched : McpSessionRecord → String → ℕ → McpSessionRecord
touched r args_json now = record r {
  last_seen_at = now;
  call_count = r.call_count + 1;
  bytes_in = r.bytes_in + utf16_length args_json;
}

abbrev pub above : ℕ → Option ℕ → Bool
above n none = false
above n (some limit) = ltb limit n

-- The latest moment that a duration allows.
abbrev pub later_than : ℕ → Option ℕ → Option ℕ
later_than start none = none
later_than start (some d) = some (start + d)

abbrev pub shown : Option ℕ → String
shown none = ""
shown (some n) = show n

abbrev pub limit_refusal : String → Verdict
limit_refusal message = refused session_limit_error_code message

module _ (sha1_hex : String → String) where
  -- The key of the bucket in which the loop guard counts equal calls.
  unfoldable pub loop_key : String → String → String
  loop_key tool_name args_json =
      tool_name ++ (String.◌∷◌ ":" (String.slice (sha1_hex args_json) 0 8))

  unfoldable pub check_loop :
      McpSessionStore → String → String → String → ℕ → McpSessionStore × Verdict
  check_loop s id tool_name args_json now =
      if s.loop_enabled
      then (let (s', b) =
            count_in_bucket s id (loop_key tool_name args_json) now s.loop_window_ms in
          if leb s.loop_max_n b.count
          then (
            s',
            limit_refusal (
                "loop guard triggered: "
                ++ (tool_name
                    ++ (" called "
                        ++ (show b.count
                            ++ ("x with identical args in " ++ (show s.loop_window_ms ++ "ms")))))),
          )
          else (s', allowed))
      else (s, allowed)

  unfoldable pub check_rate :
      McpSessionStore → String → String → String → ℕ → McpSessionStore × Verdict
  check_rate s id tool_name args_json now = elim s.limits.max_calls_per_minute [
    | none ↦ check_loop s id tool_name args_json now
    | some limit ↦
        let (s', b) = count_in_bucket s id "__rpm__" now 60_000 in
        if ltb limit b.count
        then (s', limit_refusal ("session rpm limit exceeded (max=" ++ (show limit ++ ")")))
        else check_loop s' id tool_name args_json now
  ]

  unfoldable pub pre_call :
      McpSessionStore → String → String → String → ℕ → McpSessionStore × Verdict
  pre_call s id tool_name args_json now = elim (get id s.records) [
    | none ↦ (s, allowed)
    | some r ↦
        let r' = touched r args_json now in
        let s' : McpSessionStore = record s { records = set id r' s.records } in
        if above r'.call_count s.limits.max_calls
        then (
          s',
          limit_refusal ("session call limit exceeded (max=" ++ (shown s.limits.max_calls ++ ")")),
        )
        else if above now (later_than r'.created_at s.limits.max_duration)
        then (s', limit_refusal "session duration limit exceeded")
        else check_rate s' id tool_name args_json now
  ]

unfoldable pub record_outcome : McpSessionStore → String → Bool → ℕ → McpSessionStore
record_outcome s id is_error bytes_out = elim (get id s.records) [
  | none ↦ s
  | some r ↦ record s {
    records =
        set id
          (record r {
            error_count = if is_error then r.error_count + 1 else r.error_count;
            bytes_out = r.bytes_out + bytes_out;
          })
          s.records;
  }
]

abbrev pub is_expired : McpSessionStore → ℕ → McpSessionRecord → Bool
is_expired s now r = ltb (r.last_seen_at + s.session_ttl_ms) now

-- The loop of `reapExpired`, over the entries that it began with.
unfoldable pub reap_from : ℕ → Map McpSessionRecord → McpSessionStore → McpSessionStore × ℕ
reap_from now [] s = (s, 0)
reap_from now ((id, r) ∷ rest) s =
    let expired = is_expired s now r in
    let (s', n) = reap_from now rest (if expired then (remove s id).0 else s) in
    (s', if expired then suc n else n)

unfoldable pub reap_expired : McpSessionStore → ℕ → McpSessionStore × ℕ
reap_expired s now = reap_from now s.records s
