-- ===== src/Transport/EventStore/Replay.antt =====
-- packages/transport/src/event-store.ts: what `readAfter` gives back of what was appended.
use mavio_mcp.Base.{
  ℕ, suc, ◌+◌, ◌≤◌, ◌<◌, ◌≡◌, refl, ◌≢◌, String, Bool, true, false, ◌&&◌, none, some, List, [], ◌∷◌,
  map, arith, ltb, eq_iff, keep, All, inl, inr, Bool-cases, Option-cases, ap,
}
use native.Mathlib.Decide.{dec_lt}
use mavio_mcp.Base.Map.{get}
use mavio_mcp.Base.Text.{split_last_colon-show, read-show}
use mavio_mcp.Transport.EventStore.{
  StoredEvent, Ring, MemoryEventStore, gap_event, event, new_ring, of_stream, next_seq, append_ring,
  read_after_ring, event_id, parse_event_id,
}
use mavio_mcp.Transport.EventStore.Tracking.{Range, seqs, RingTracks, append_ring-Tracks}

-- The id of an event tells its stream and its number, whatever colons the stream's name has.
pub parse_event_id-event_id :
    (stream_id : String) (seq : ℕ) → parse_event_id (event_id stream_id seq) ≡ some (stream_id, seq)
unfolding parse_event_id
parse_event_id-event_id stream_id seq =
    rw (split_last_colon-show stream_id seq, parse_event_id, read-show)

-- What is appended to a session, with the clock's readings.
pub record Appended : Type 0 where
  pub stream_id : String
  pub text : String
  pub now : ℕ

-- The ring of a session after a list of appends.
unfoldable pub ring_after : MemoryEventStore → List Appended → Ring → Ring
ring_after store [] r = r
ring_after store (a ∷ as_) r = ring_after store as_ (append_ring store a.stream_id a.text a.now r).0

ring_after-Tracks :
    (store : MemoryEventStore) (xs : List Appended) (r : Ring) (s : String) (first : ℕ)
    → RingTracks s first r
    → (first' : ℕ) × RingTracks s first' (ring_after store xs r)
unfolding ring_after
ring_after-Tracks store [] r s first t = (first, t)
ring_after-Tracks store (a ∷ xs) r s first t =
    let (first', _, t') = append_ring-Tracks store a.stream_id a.text a.now r s first t in
    ring_after-Tracks store xs (append_ring store a.stream_id a.text a.now r).0 s first' t'

new_ring-Tracks : (s : String) → RingTracks s 0 new_ring
new_ring-Tracks s = record { retained = refl; min_exact = λ m h. absurd (cc) }

-- The events of a stream after number `q`.
abbrev later : String → ℕ → StoredEvent → Bool
later s q e = of_stream s e && ltb q e.seq

later_all :
    (s : String) (q n next : ℕ) (es : List StoredEvent)
    → Range n (seqs s es) next
    → q < n
    → keep (later s q) es ≡ keep (of_stream s) es
later_all s q n next [] h lt = refl
later_all s q n next (e ∷ es) h lt = elim (Bool-cases (of_stream s e)) [
  | inl same ↦
      let h' : (e.seq ≡ n) × Range (suc n) (seqs s es) next = rw same at h in
      let hit : later s q e ≡ true = ground arith in
      rw (hit, same) (ap (◌∷◌ e) (later_all s q (suc n) next es h'.1 (omega arith)))
  | inr other ↦
      let miss : later s q e ≡ false = ground arith in
      rw (miss, other) (later_all s q n next es (rw other at h) lt)
]

later-Range :
    (s : String) (q n next : ℕ) (es : List StoredEvent)
    → Range n (seqs s es) next
    → n ≤ suc q
    → suc q ≤ next
    → Range (suc q) (map (λ e. e.seq) (keep (later s q) es)) next
later-Range s q n next [] h lt le = omega arith
later-Range s q n next (e ∷ es) h lt le = elim (Bool-cases (of_stream s e)) [
  | inl same ↦
      let h' : (e.seq ≡ n) × Range (suc n) (seqs s es) next = rw same at h in
      elim (dec_lt q n) [
        | yes above ↦
            let hit : later s q e ≡ true = ground arith in
            let at : n ≡ suc q = omega arith in
            rw (hit, later_all s q (suc n) next es h'.1 (omega arith)) (omega arith, rw (← at) h'.1)
        | no below ↦
            let miss : later s q e ≡ false = ground arith in
            rw miss (later-Range s q (suc n) next es h'.1 (omega arith) le)
      ]
  | inr other ↦
      let miss : later s q e ≡ false = ground arith in
      rw miss (later-Range s q n next es (rw other at h) lt le)
]

later-of_stream :
    (s : String) (q : ℕ) (es : List StoredEvent) → All (λ e. e.stream_id ≡ s) (keep (later s q) es)
later-of_stream s q [] = tt
later-of_stream s q (e ∷ es) = ground (arith, later-of_stream s q es, eq_iff e.stream_id s)

-- The answer to a read after number `q` of a stream, of which the ring retains the events from
-- number `first` on.
pub record Resumes (r : Ring) (s : String) (q first : ℕ) : Type 0 where
  -- The ring retains the numbers `first`, ..., up to the next one of the stream.
  pub retained : Range first (seqs s r.events) (next_seq s r)
  -- Nothing is missing: the answer is the events of the stream after `q`, each once and in order.
  pub complete :
      first ≤ suc q
      → (es : List StoredEvent) × (read_after_ring r s q ≡ map event es)
        × Range (suc q) (map (λ e. e.seq) es) (next_seq s r)
        × All (λ e. e.stream_id ≡ s) es
  -- Something is missing, and the ring remembers a position: the answer begins with the gap.
  pub gap :
      suc q < first
      → get s r.min_seq_retained ≢ none
      → read_after_ring r s q ≡ gap_event ∷ map event r.events

Tracks-Resumes :
    (r : Ring) (s : String) (q first : ℕ)
    → RingTracks s first r
    → q < next_seq s r
    → Resumes r s q first
unfolding read_after_ring
Tracks-Resumes r s q first t lt = record {
  retained = t.retained;
  complete = λ le. elim (Option-cases (get s r.min_seq_retained)) [
    | inl unknown ↦ (
      keep (later s q) r.events,
      rw (unknown, read_after_ring),
      later-Range s q first (next_seq s r) r.events t.retained le lt,
      later-of_stream s q r.events,
    )
    | inr (m, known) ↦
        let exact = t.min_exact m known in
        let kept : ltb (q + 1) m ≡ false = ground arith in
        (
          keep (later s q) r.events,
          rw (known, read_after_ring, kept),
          later-Range s q first (next_seq s r) r.events t.retained le lt,
          later-of_stream s q r.events,
        )
  ];
  gap = λ missing known. elim (Option-cases (get s r.min_seq_retained)) [
    | inl unknown ↦ absurd (known unknown)
    | inr (m, e) ↦
        let exact = t.min_exact m e in
        let trimmed : ltb (q + 1) m ≡ true = ground arith in rw (e, read_after_ring, trimmed)
  ];
}

-- After any appends to a new session, of any streams, with any limits, the ring retains the latest
-- numbers of each stream without a hole; a client that comes back with the number of an event it
-- has is sent all later events of the stream, in order, or else a gap, where the ring remembers
-- a position of the stream.
pub ring_after-Resumes :
    (store : MemoryEventStore) (xs : List Appended) (s : String) (q : ℕ)
    → q < next_seq s (ring_after store xs new_ring)
    → (first : ℕ) × Resumes (ring_after store xs new_ring) s q first
ring_after-Resumes store xs s q lt =
    let (first, t) = ring_after-Tracks store xs new_ring s 0 (new_ring-Tracks s) in
    (first, Tracks-Resumes (ring_after store xs new_ring) s q first t lt)

later-none :
    (s : String) (q : ℕ) (es : List StoredEvent)
    → keep (of_stream s) es ≡ []
    → keep (later s q) es ≡ []
later-none s q [] h = refl
later-none s q (e ∷ es) h = elim (Bool-cases (of_stream s e)) [
  | inl same ↦ absurd (ground arith)
  | inr other ↦
      let miss : later s q e ≡ false = ground arith in rw miss (later-none s q es (rw other at h))
]

forgotten :
    (r : Ring) (s : String) (q first : ℕ)
    → RingTracks s first r
    → keep (of_stream s) r.events ≡ []
    → read_after_ring r s q ≡ []
unfolding read_after_ring
forgotten r s q first t none_left = elim (Option-cases (get s r.min_seq_retained)) [
  | inl unknown ↦ rw (unknown, read_after_ring, later-none s q r.events none_left)
  | inr (m, known) ↦
      let exact = t.min_exact m known in
      let all_gone : first ≡ next_seq s r = rw none_left at t.retained in absurd (omega arith)
]

-- A stream whose events were all evicted, by those of other streams, is forgotten: a client that
-- comes back is sent nothing, and no gap, however many events it has missed.
pub ring_after-forgotten :
    (store : MemoryEventStore) (xs : List Appended) (s : String) (q : ℕ)
    → keep (of_stream s) (ring_after store xs new_ring).events ≡ []
    → read_after_ring (ring_after store xs new_ring) s q ≡ []
ring_after-forgotten store xs s q none_left =
    let (first, t) = ring_after-Tracks store xs new_ring s 0 (new_ring-Tracks s) in
    forgotten (ring_after store xs new_ring) s q first t none_left
