-- ===== src/Transport/EventStore/Tests.antt =====
-- The event store at concrete inputs.
use mavio_mcp.Base.{ℕ, ◌≡◌, refl, ◌≤◌, String, none, some, List, [], ◌∷◌, arith}
use mavio_mcp.Transport.EventStore.{
  MemoryEventStore, MemoryEventStoreOptions, StoredEvent, new_event_store, new_ring, append,
  read_after, size, get_or_create, append_ring, evict_overflow, note_eviction, stored_payload,
  read_after_ring, parse_event_id, event_id, gap_event, event,
}
use mavio_mcp.Base.Text.{show, read, split_last_colon}
use mavio_mcp.Transport.EventStore.Bounds.{appends, apply_all, apply, size-le-max_count}
use mavio_mcp.Transport.EventStore.Replay.{
  Appended, ring_after, Resumes, ring_after-Resumes, ring_after-forgotten,
}

store_ops : Unit {0}
unfolding new_event_store append read_after size get_or_create append_ring evict_overflow
    note_eviction stored_payload read_after_ring parse_event_id show read split_last_colon apply_all
    apply ring_after
store_ops = tt

abbrev options : MemoryEventStoreOptions
options = record { max_count = some 2; max_age_ms = none; max_event_bytes = some 3 }

abbrev store : MemoryEventStore
store = new_event_store options

abbrev pushed : String → Appended
pushed text = record { stream_id = "push"; text = text; now = 7 }

abbrev answered : Appended
answered = record { stream_id = "r:1"; text = "ok"; now = 8 }

-- Three pushes, of which two are kept.
abbrev three : List Appended
three = pushed "a" ∷ pushed "long" ∷ pushed "c" ∷ []

abbrev flooded : List Appended
flooded = pushed "a" ∷ pushed "b" ∷ answered ∷ answered ∷ []

abbrev kept : String → ℕ → StoredEvent
kept text seq = record {
  id = event_id "push" seq;
  stream_id = "push";
  seq = seq;
  payload = text;
  stored_at = 7;
}

store_tests :
    ((ring_after store three new_ring).events ≡ kept "__oversized__" 1 ∷ kept "c" 2 ∷ [])
    × (read_after_ring (ring_after store three new_ring) "push" 1 ≡ event (kept "c" 2) ∷ [])
    × (read_after_ring (ring_after store (pushed "z" ∷ three) new_ring) "push" 0
        ≡ gap_event ∷ event (kept "__oversized__" 2) ∷ event (kept "c" 3) ∷ [])
    × (parse_event_id "r:1:12" ≡ some ("r:1", 12))
    × (parse_event_id "push" ≡ none)
    × (parse_event_id "push:x" ≡ none)
unfolding store_ops
store_tests = (refl, refl, refl, refl, refl, refl)

size-le-max_count_example :
    size
      (apply_all store
        (appends "s" "push" "a" 1 ∷ appends "s" "push" "b" 2 ∷ appends "s" "push" "c" 3 ∷ []))
      "s"
    ≤ 2
unfolding new_event_store
size-le-max_count_example =
    size-le-max_count options
      (appends "s" "push" "a" 1 ∷ appends "s" "push" "b" 2 ∷ appends "s" "push" "c" 3 ∷ []) "s"

ring_after-Resumes_example : (first : ℕ) × Resumes (ring_after store three new_ring) "push" 0 first
unfolding store_ops
ring_after-Resumes_example = ring_after-Resumes store three "push" 0 (omega arith)

ring_after-forgotten_example : read_after_ring (ring_after store flooded new_ring) "push" 0 ≡ []
unfolding store_ops
ring_after-forgotten_example = ring_after-forgotten store flooded "push" 0 refl
