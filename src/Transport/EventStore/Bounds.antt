-- ===== src/Transport/EventStore/Bounds.antt =====
-- packages/transport/src/event-store.ts: no session retains more than `maxCount` events.
use mavio_mcp.Base.{
  ℕ, ◌+◌, ◌≤◌, ◌≡◌, refl, String, List, [], ◌∷◌, arith, length, length-keep-le, leb, inl, inr,
  Option-cases,
}
use mavio_mcp.Base.Map.{Map, get, AllValues, AllValues-set, AllValues-get, AllValues-delete}
use mavio_mcp.Transport.EventStore.{
  StoredEvent, Ring, MemoryEventStore, MemoryEventStoreOptions, new_event_store, get_or_create,
  note_eviction, evict_overflow, append_ring, append, trim, delete_session, size,
}

abbrev pub IsBounded : ℕ → Ring → Type 0
IsBounded n r = length r.events ≤ n

abbrev pub StoreIsBounded : MemoryEventStore → Type 0
StoreIsBounded s = AllValues (IsBounded s.max_count) s.sessions

evict_overflow-le :
    (n : ℕ) (es : List StoredEvent) (mins : Map ℕ) → length (evict_overflow n es mins).0 ≤ n
unfolding evict_overflow
evict_overflow-le n [] mins = omega arith
evict_overflow-le n (e ∷ es) mins = ground (arith, evict_overflow-le n es (note_eviction e es mins))

append_ring-IsBounded :
    (s : MemoryEventStore) (stream_id text : String) (now : ℕ) (r : Ring)
    → IsBounded s.max_count (append_ring s stream_id text now r).0
unfolding append_ring
append_ring-IsBounded s stream_id text now r = evict_overflow-le s.max_count _ r.min_seq_retained

-- The operations on a store.
pub data Op : Type 0 where
  appends : String → String → String → ℕ → Op
  trims : String → ℕ → Op
  deletes : String → Op

unfoldable pub apply : MemoryEventStore → Op → MemoryEventStore
apply s (appends session_id stream_id text now) = (append s session_id stream_id text now).0
apply s (trims session_id now) = trim s session_id now
apply s (deletes session_id) = delete_session s session_id

unfoldable pub apply_all : MemoryEventStore → List Op → MemoryEventStore
apply_all s [] = s
apply_all s (o ∷ os) = apply_all (apply s o) os

apply-config : (s : MemoryEventStore) (o : Op) → (apply s o).max_count ≡ s.max_count
unfolding apply append trim delete_session
apply-config s (appends session_id stream_id text now) = refl
apply-config s (trims session_id now) = ground arith
apply-config s (deletes session_id) = refl

trim-IsBounded :
    (s : MemoryEventStore) (session_id : String) (now : ℕ)
    → StoreIsBounded s
    → StoreIsBounded (trim s session_id now)
unfolding trim
trim-IsBounded s session_id now h = elim (Option-cases (get session_id s.sessions)) [
  | inl missing ↦ rw (missing, trim) h
  | inr (r, found) ↦
      rw (found, trim)
        (AllValues-set (IsBounded s.max_count) session_id _ s.sessions
          (omega (
            arith,
            AllValues-get (IsBounded s.max_count) session_id s.sessions r h found,
            length-keep-le (λ e. leb now (e.stored_at + s.max_age_ms)) r.events,
          ))
          h)
]

apply-IsBounded : (s : MemoryEventStore) (o : Op) → StoreIsBounded s → StoreIsBounded (apply s o)
unfolding apply append delete_session
apply-IsBounded s (appends session_id stream_id text now) h =
    AllValues-set (IsBounded s.max_count) session_id _ s.sessions
      (append_ring-IsBounded s stream_id text now (get_or_create s session_id)) h
apply-IsBounded s (trims session_id now) h = trim-IsBounded s session_id now h
apply-IsBounded s (deletes session_id) h =
    AllValues-delete (IsBounded s.max_count) session_id s.sessions h

apply_all-IsBounded :
    (s : MemoryEventStore) (os : List Op)
    → StoreIsBounded s
    → StoreIsBounded (apply_all s os) × ((apply_all s os).max_count ≡ s.max_count)
unfolding apply_all
apply_all-IsBounded s [] h = (h, refl)
apply_all-IsBounded s (o ∷ os) h =
    let (bounded, same) = apply_all-IsBounded (apply s o) os (apply-IsBounded s o h) in
    (bounded, rw same (apply-config s o))

size-le :
    (s : MemoryEventStore) (session_id : String)
    → StoreIsBounded s
    → size s session_id ≤ s.max_count
unfolding size
size-le s session_id h = elim (Option-cases (get session_id s.sessions)) [
  | inl missing ↦ rw (missing, size) (omega arith)
  | inr (r, found) ↦
      rw (found, size) (AllValues-get (IsBounded s.max_count) session_id s.sessions r h found)
]

-- After any operations on a new store a session holds at most `maxCount` events.
pub size-le-max_count :
    (opts : MemoryEventStoreOptions) (os : List Op) (session_id : String)
    → size (apply_all (new_event_store opts) os) session_id ≤ (new_event_store opts).max_count
unfolding new_event_store
size-le-max_count opts os session_id =
    let s = apply_all (new_event_store opts) os in
    let (h, same) = apply_all-IsBounded (new_event_store opts) os tt in
    omega (arith, size-le s session_id h)
