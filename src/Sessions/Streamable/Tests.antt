-- ===== src/Sessions/Streamable/Tests.antt =====
-- The streamable HTTP sessions at concrete inputs.
use mavio_mcp.Base.{
  ℕ, ◌≡◌, refl, ◌≤◌, String, Bool, true, false, Option, none, some, List, [], ◌∷◌, ◌++◌, map, arith,
  not, ◌==◌,
}
use mavio_mcp.Transport.EventStore.{
  new_event_store, append, append_ring, get_or_create, evict_overflow, note_eviction,
  stored_payload, read_after, read_after_ring, parse_event_id,
}
use mavio_mcp.Sessions.SessionStore.{
  SessionStore, touch_session, create_session, reap_sessions, reap_stale, delete_metadata,
}
use mavio_mcp.Sessions.Streamable.{
  StreamableRegistry, sse_chunk, create, touch, write_pending, write_replayed, attach_push_stream,
  detach_push_stream, buffer, keep_pending, push_notification, local_of, delete_id, buffer_limit,
}
use mavio_mcp.Sessions.Streamable.Pushes.{
  Push, notifications, newest, push_all, logged, attach-after-push_all,
}
use mavio_mcp.Sessions.Streamable.Bounds.{
  Operation, creates, pushes, attaches, detaches, reaps, deletes, step, run, AllFit, run-AllFit,
}

streamable : Unit {0}
unfolding new_event_store append append_ring get_or_create evict_overflow note_eviction
    stored_payload read_after read_after_ring parse_event_id touch_session create_session
    reap_sessions reap_stale delete_metadata sse_chunk create touch write_pending write_replayed
    attach_push_stream detach_push_stream buffer keep_pending push_notification delete_id
    notifications push_all logged step run mavio_mcp.Base.Text.read mavio_mcp.Base.Text.show
    mavio_mcp.Base.Text.split_last_colon
streamable = tt

abbrev registry : StreamableRegistry
registry = record {
  local_state = [];
  store = new_event_store (record { max_count = none; max_age_ms = none; max_event_bytes = none });
  session_store = [];
  has_publisher = false;
  published = [];
  written = [];
  ended = [];
  replays = 0;
  gaps = 0;
}

-- Responses take every write, but 9, which is closed.
abbrev open_ : ℕ → String → Bool
open_ res chunk = not (res == 9)

abbrev session : StreamableRegistry
session = (create registry "s" 0).0

abbrev two : List Push
two = record { text = "a"; now = 1 } ∷ record { text = "b"; now = 2 } ∷ []

abbrev seen : StreamableRegistry → List (ℕ × String)
seen s = s.written

-- What is sent after a reconnection with Last-Event-ID is sent again after the next one without.
abbrev twice : StreamableRegistry
twice =
    let s1 = push_all open_ session "s" two in
    let s2 = (attach_push_stream open_ s1 "s" 1 (some "push:0")).0 in
    (attach_push_stream open_ (detach_push_stream s2 "s") "s" 2 none).0

streamable_tests :
    ((push_notification open_ registry "s" "a" 0).1 ≡ false)
    × (seen (attach_push_stream open_ (push_all open_ session "s" two) "s" 1 none).0
        ≡ (1, sse_chunk "push:1" "b") ∷ (1, sse_chunk "push:0" "a") ∷ [])
    × ((attach_push_stream open_ (push_all open_ session "s" two) "s" 9 none).1 ≡ false)
    × (seen twice
        ≡ (2, sse_chunk "push:1" "b")
          ∷ (2, sse_chunk "push:0" "a")
          ∷ (1, sse_chunk "push:1" "b")
          ∷ [])
unfolding streamable
streamable_tests = (refl, refl, refl, refl)

abbrev all_open : ℕ → String → Bool
all_open res chunk = true

attach-after-push_all_example :
    let (s', ok) = attach_push_stream all_open (push_all all_open session "s" two) "s" 1 none in
    (ok ≡ true)
    × (s'.written
        ≡ logged all_open 1 (newest buffer_limit (notifications session.store "s" two)) [])
    × (local_of s' "s" ≡ record { push_stream = some 1; pending_notifications = [] })
unfolding streamable
attach-after-push_all_example =
    attach-after-push_all all_open session "s" two 1 (refl, refl, refl) (omega arith) (λ c. refl)

abbrev operations : List Operation
operations =
    creates "s" 0
    ∷ pushes "s" "a" 1
    ∷ attaches "s" 9 none
    ∷ attaches "s" 1 none
    ∷ detaches "s"
    ∷ reaps 3
    ∷ deletes "s"
    ∷ []

run-AllFit_example : AllFit (run open_ registry operations)
run-AllFit_example = run-AllFit open_ registry operations tt

abbrev day_old : SessionStore
day_old = ("s", record { session_id = "s"; created_at = 0; last_seen_at = 0 }) ∷ []
