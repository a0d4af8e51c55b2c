-- ===== src/Transport/EventStore.antt =====
-- packages/transport/src/event-store.ts: `MemoryEventStore`. The clock is an argument of the
-- operations that read it, in milliseconds.
pub mod Tracking
pub mod Replay
pub mod Bounds
mod Tests
use Prim.Native.String
use mavio_mcp.Base.{
  ℕ, zero, suc, ◌+◌, ◌*◌, String, Bool, true, false, ◌&&◌, Option, none, some, List, [], ◌∷◌, ◌++◌,
  map, ltb, leb, str_eq, if◌then◌else◌, keep, find, length,
}
use mavio_mcp.Base.Map.{Map, get, set, delete}
use mavio_mcp.Base.Text.{show, read, split_last_colon}

pub record StoredEvent : Type 0 where
  pub id : String
  pub stream_id : String
  pub seq : ℕ
  pub payload : String
  pub stored_at : ℕ

-- An element of what `readAfter` returns. The sentinel `GAP_EVENT` is told from an event by its id
-- "__gap__", which is no event's id, since it has no colon.
pub data Replayed : Type 0 where
  gap_event : Replayed
  event : StoredEvent → Replayed

-- `${streamId}:${seq}`.
abbrev pub event_id : String → ℕ → String
event_id stream_id seq = String.◌++◌ stream_id (String.◌∷◌ ":" (show seq))

abbrev parsed_seq : String → Option ℕ → Option (String × ℕ)
parsed_seq stream_id none = none
parsed_seq stream_id (some seq) = some (stream_id, seq)

-- Where the part after the last colon is empty or a decimal numeral. Other texts that `Number`
-- reads (signs, fractions, exponents, blanks) are no position that the store gives out; here they
-- are not read.
unfoldable pub parse_event_id : String → Option (String × ℕ)
unfolding split_last_colon read
parse_event_id id = elim (split_last_colon id) [
  | none ↦ none
  | some (stream_id, tail) ↦ parsed_seq stream_id (read tail)
]

pub record MemoryEventStoreOptions : Type 0 where
  pub max_count : Option ℕ
  pub max_age_ms : Option ℕ
  pub max_event_bytes : Option ℕ

abbrev pub stub_marker : String
stub_marker = "__oversized__"

pub record Ring : Type 0 where
  pub events : List StoredEvent
  pub seq_counters : Map ℕ
  pub min_seq_retained : Map ℕ

pub record MemoryEventStore : Type 0 where
  pub sessions : Map Ring
  pub max_count : ℕ
  pub max_age_ms : ℕ
  pub max_event_bytes : ℕ

abbrev or_default : Option ℕ → ℕ → ℕ
or_default none d = d
or_default (some n) d = n

unfoldable pub new_event_store : MemoryEventStoreOptions → MemoryEventStore
new_event_store opts = record {
  sessions = [];
  max_count = or_default opts.max_count 1_000;
  max_age_ms = or_default opts.max_age_ms (10 * 60 * 1_000);
  max_event_bytes = or_default opts.max_event_bytes (256 * 1_024);
}

abbrev pub new_ring : Ring
new_ring = record { events = []; seq_counters = []; min_seq_retained = [] }

abbrev ring_or_new : Option Ring → Ring
ring_or_new none = new_ring
ring_or_new (some r) = r

-- `getOrCreate`: the ring; `append` writes it back.
unfoldable pub get_or_create : MemoryEventStore → String → Ring
get_or_create s session_id = ring_or_new (get session_id s.sessions)

abbrev pub of_stream : String → StoredEvent → Bool
of_stream stream_id e = str_eq e.stream_id stream_id

-- What the eviction of an event does to `minSeqRetained`, given the events that stay.
abbrev pub move_min : StoredEvent → List StoredEvent → Map ℕ → Map ℕ
move_min evicted rest mins = elim (find (of_stream evicted.stream_id) rest) [
  | some next ↦ set evicted.stream_id next.seq mins
  | none ↦ delete evicted.stream_id mins
]

unfoldable pub note_eviction : StoredEvent → List StoredEvent → Map ℕ → Map ℕ
note_eviction evicted rest mins = elim (get evicted.stream_id mins) [
  | none ↦ move_min evicted rest mins
  | some cur ↦ if leb cur evicted.seq then move_min evicted rest mins else mins
]

-- The loop of `append` that evicts the oldest events.
unfoldable pub evict_overflow : ℕ → List StoredEvent → Map ℕ → List StoredEvent × Map ℕ
evict_overflow max_count [] mins = ([], mins)
evict_overflow max_count (e ∷ es) mins =
    let shifted = evict_overflow max_count es (note_eviction e es mins) in
    if ltb max_count (length (e ∷ es)) then shifted else (e ∷ es, mins)

abbrev pub next_seq : String → Ring → ℕ
next_seq stream_id r = elim (get stream_id r.seq_counters) [ none ↦ 0 | some last ↦ last + 1 ]

unfoldable pub stored_payload : ℕ → String → String
stored_payload max_bytes text = if ltb max_bytes (String.len text) then stub_marker else text

abbrev pub new_event : MemoryEventStore → String → String → ℕ → Ring → StoredEvent
new_event s stream_id text now r = record {
  id = event_id stream_id (next_seq stream_id r);
  stream_id = stream_id;
  seq = next_seq stream_id r;
  payload = stored_payload s.max_event_bytes text;
  stored_at = now;
}

unfoldable pub append_ring : MemoryEventStore → String → String → ℕ → Ring → Ring × String
append_ring s stream_id text now r =
    let e = new_event s stream_id text now r in
    let (events, mins) = evict_overflow s.max_count (r.events ++ e ∷ []) r.min_seq_retained in
    (
      record {
        events = events;
        seq_counters = set stream_id e.seq r.seq_counters;
        min_seq_retained = mins;
      },
      e.id,
    )

unfoldable pub append : MemoryEventStore → String → String → String → ℕ → MemoryEventStore × String
append s session_id stream_id text now =
    let (r, id) = append_ring s stream_id text now (get_or_create s session_id) in
    (record s { sessions = set session_id r s.sessions }, id)

abbrev is_trimmed : ℕ → Option ℕ → Bool
is_trimmed seq none = false
is_trimmed seq (some min_retained) = ltb (seq + 1) min_retained

unfoldable pub read_after_ring : Ring → String → ℕ → List Replayed
read_after_ring r stream_id seq =
    if is_trimmed seq (get stream_id r.min_seq_retained)
    then gap_event ∷ map event r.events
    else map event (keep (λ e. of_stream stream_id e && ltb seq e.seq) r.events)

abbrev read_at : Ring → Option (String × ℕ) → List Replayed
read_at r none = []
read_at r (some (stream_id, seq)) = read_after_ring r stream_id seq

abbrev read_ring : Ring → List StoredEvent → Option String → List Replayed
read_ring r [] after_id = []
read_ring r (e ∷ es) none = map event (e ∷ es)
read_ring r (e ∷ es) (some id) = read_at r (parse_event_id id)

unfoldable pub read_after : MemoryEventStore → String → Option String → List Replayed
read_after s session_id after_id = elim (get session_id s.sessions) [
  | none ↦ []
  | some r ↦ read_ring r r.events after_id
]

unfoldable pub trim : MemoryEventStore → String → ℕ → MemoryEventStore
trim s session_id now = elim (get session_id s.sessions) [
  | none ↦ s
  | some r ↦ record s {
    sessions =
        set session_id
          (record r { events = keep (λ e. leb now (e.stored_at + s.max_age_ms)) r.events })
          s.sessions;
  }
]

unfoldable pub delete_session : MemoryEventStore → String → MemoryEventStore
delete_session s session_id = record s { sessions = delete session_id s.sessions }

unfoldable pub size : MemoryEventStore → String → ℕ
size s session_id = elim (get session_id s.sessions) [ none ↦ 0 | some r ↦ length r.events ]
