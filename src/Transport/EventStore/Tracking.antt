-- ===== src/Transport/EventStore/Tracking.antt =====
-- packages/transport/src/event-store.ts: what a ring knows of the events of a stream.
use mavio_mcp.Base.{
  ℕ, suc, ◌≤◌, ◌<◌, ◌≡◌, refl, String, true, false, some, List, [], ◌∷◌, ◌++◌, map, arith, ltb, leb,
  length, str_eq, eq_iff, keep, find, inl, inr, Bool-cases, Option-cases, if◌then◌else◌, ◌∙◌,
}
use mavio_mcp.Base.Map.{Map, get, get-set, get-delete}
use mavio_mcp.Transport.EventStore.{
  StoredEvent, Ring, MemoryEventStore, of_stream, move_min, note_eviction, evict_overflow, next_seq,
  append_ring, new_event,
}

-- The numbers from `n` up to, and without, `next`.
abbrev pub Range : ℕ → List ℕ → ℕ → Type 0
Range n [] next = n ≡ next
Range n (x ∷ xs) next = (x ≡ n) × Range (suc n) xs next

pub Range-le : (n next : ℕ) (xs : List ℕ) → Range n xs next → n ≤ next
Range-le n next [] h = omega arith
Range-le n next (x ∷ xs) h = omega (arith, Range-le (suc n) next xs h.1)

pub Range-snoc : (n next : ℕ) (xs : List ℕ) → Range n xs next → Range n (xs ++ next ∷ []) (suc next)
Range-snoc n next [] h = ground arith
Range-snoc n next (x ∷ xs) h = (h.0, Range-snoc (suc n) next xs h.1)

-- The numbers that the events of a stream carry, in order.
abbrev pub seqs : String → List StoredEvent → List ℕ
seqs s es = map (λ e. e.seq) (keep (of_stream s) es)

-- The ring retains the events of the stream from number `first` on, and knows it, if it remembers
-- a position of the stream at all.
pub record Tracks (s : String) (first next : ℕ) (es : List StoredEvent) (mins : Map ℕ)
    : Type 0 where
  pub retained : Range first (seqs s es) next
  pub min_exact : (m : ℕ) → get s mins ≡ some m → (m ≡ first) × (first < next)

pub find_first :
    (s : String) (n next : ℕ) (es : List StoredEvent)
    → Range n (seqs s es) next
    → (x : StoredEvent) → find (of_stream s) es ≡ some x
    → (x.seq ≡ n) × (n < next)
find_first s n next [] h x e = absurd (cc)
find_first s n next (y ∷ es) h x e = elim (Bool-cases (of_stream s y)) [
  | inl same ↦
      let h' = rw same at h in
      let found : some y ≡ some x = rw same at e in
      (ground arith, omega (arith, Range-le (suc n) next (seqs s es) h'.1))
  | inr other ↦ find_first s n next es (rw other at h) x (rw other at e)
]

move_min_same :
    (s : String) (e : StoredEvent) (es : List StoredEvent) (mins : Map ℕ) (m : ℕ)
    → of_stream s e ≡ true
    → get s (move_min e es mins) ≡ some m
    → (x : StoredEvent) × (find (of_stream s) es ≡ some x) × (m ≡ x.seq)
move_min_same s e es mins m same h =
    let eq : e.stream_id ≡ s = (eq_iff e.stream_id s).0 same in
    elim (Option-cases (find (of_stream e.stream_id) es)) [
      | inl gone ↦ absurd (ground (arith, get-delete e.stream_id s mins))
      | inr (x, found) ↦ (x, rw (← eq) found, ground (arith, get-set e.stream_id s x.seq mins))
    ]

move_min_other :
    (s : String) (e : StoredEvent) (es : List StoredEvent) (mins : Map ℕ)
    → of_stream s e ≡ false
    → get s (move_min e es mins) ≡ get s mins
move_min_other s e es mins other = elim (Option-cases (find (of_stream e.stream_id) es)) [
  | inl gone ↦ ground (arith, get-delete e.stream_id s mins)
  | inr (x, found) ↦ ground (arith, get-set e.stream_id s x.seq mins)
]

note_eviction_other :
    (s : String) (e : StoredEvent) (es : List StoredEvent) (mins : Map ℕ)
    → of_stream s e ≡ false
    → get s (note_eviction e es mins) ≡ get s mins
unfolding note_eviction
note_eviction_other s e es mins other = ground (arith, move_min_other s e es mins other)

-- The smallest retained number of a stream never lies above the event that is evicted.
note_eviction_same :
    (s : String) (first next : ℕ) (e : StoredEvent) (es : List StoredEvent) (mins : Map ℕ)
    → Tracks s first next (e ∷ es) mins
    → of_stream s e ≡ true
    → e.seq ≡ first
    → note_eviction e es mins ≡ move_min e es mins
unfolding note_eviction
note_eviction_same s first next e es mins t same at_first =
    let eq : e.stream_id ≡ s = (eq_iff e.stream_id s).0 same in
    elim (Option-cases (get e.stream_id mins)) [
      | inl missing ↦ rw (missing, note_eviction)
      | inr (cur, found) ↦
          let here = t.min_exact cur (rw eq at found) in
          let below : leb cur e.seq ≡ true = ground arith in rw (found, note_eviction, below)
    ]

evict_one :
    (s : String) (first next : ℕ) (e : StoredEvent) (es : List StoredEvent) (mins : Map ℕ)
    → Tracks s first next (e ∷ es) mins
    → (first' : ℕ) × (first ≤ first') × Tracks s first' next es (note_eviction e es mins)
evict_one s first next e es mins t = elim (Bool-cases (of_stream s e)) [
  | inl same ↦
      let (at_first, rest) =
        let h : (e.seq ≡ first) × Range (suc first) (seqs s es) next = rw same at t.retained in h in
      (
        suc first,
        omega arith,
        record {
          retained = rest;
          min_exact = λ m found.
              let (x, hit, seq) =
                move_min_same s e es mins m same
                  (rw (note_eviction_same s first next e es mins t same at_first) at found) in
              let (x_seq, lt) = find_first s (suc first) next es rest x hit in (seq ∙ x_seq, lt);
        },
      )
  | inr other ↦ (
    first,
    omega arith,
    record {
      retained = rw other at t.retained;
      min_exact = λ m found. t.min_exact m (rw (note_eviction_other s e es mins other) at found);
    },
  )
]

pub evict_overflow-Tracks :
    (max_count : ℕ) (s : String) (first next : ℕ) (es : List StoredEvent) (mins : Map ℕ)
    → Tracks s first next es mins
    → let r = evict_overflow max_count es mins in
      (first' : ℕ) × (first ≤ first') × Tracks s first' next r.0 r.1
unfolding evict_overflow
evict_overflow-Tracks max_count s first next [] mins t = (first, omega arith, t)
evict_overflow-Tracks max_count s first next (e ∷ es) mins t =
    elim (Bool-cases (ltb max_count (length (e ∷ es)))) [
      | inl over ↦
          let (first', le, t') = evict_one s first next e es mins t in
          let (first'', le', t'') =
            evict_overflow-Tracks max_count s first' next es (note_eviction e es mins) t' in
          (first'', omega arith, rw over t'')
      | inr fits ↦ (first, omega arith, rw fits t)
    ]

seqs-snoc_same :
    (s : String) (es : List StoredEvent) (e : StoredEvent)
    → of_stream s e ≡ true
    → seqs s (es ++ e ∷ []) ≡ seqs s es ++ e.seq ∷ []
seqs-snoc_same s [] e same = ground arith
seqs-snoc_same s (x ∷ es) e same = ground (arith, seqs-snoc_same s es e same)

seqs-snoc_other :
    (s : String) (es : List StoredEvent) (e : StoredEvent)
    → of_stream s e ≡ false
    → seqs s (es ++ e ∷ []) ≡ seqs s es
seqs-snoc_other s [] e other = ground arith
seqs-snoc_other s (x ∷ es) e other = ground (arith, seqs-snoc_other s es e other)

-- Of a ring, with the next number of the stream.
abbrev pub RingTracks : String → ℕ → Ring → Type 0
RingTracks s first r = Tracks s first (next_seq s r) r.events r.min_seq_retained

snoc-Tracks :
    (s : String) (first : ℕ) (r : Ring) (e : StoredEvent)
    → e.seq ≡ next_seq e.stream_id r
    → RingTracks s first r
    → Tracks s first
        (if of_stream s e then suc (next_seq s r) else next_seq s r)
        (r.events ++ e ∷ [])
        r.min_seq_retained
snoc-Tracks s first r e numbered t = elim (Bool-cases (of_stream s e)) [
  | inl same ↦
      let eq : e.stream_id ≡ s = (eq_iff e.stream_id s).0 same in
      let seq : e.seq ≡ next_seq s r = rw (← eq) numbered in
      rw same (record {
        retained =
            rw (seqs-snoc_same s r.events e same, seq)
              (Range-snoc first (next_seq s r) (seqs s r.events) t.retained);
        min_exact = λ m h. ((t.min_exact m h).0, omega (arith, (t.min_exact m h).1));
      })
  | inr other ↦ rw other (record {
    retained = rw (seqs-snoc_other s r.events e other) t.retained;
    min_exact = t.min_exact;
  })
]

next_seq-append :
    (store : MemoryEventStore) (stream_id text : String) (now : ℕ) (r : Ring) (s : String)
    → next_seq s (append_ring store stream_id text now r).0
      ≡ (if str_eq stream_id s then suc (next_seq s r) else next_seq s r)
unfolding append_ring
next_seq-append store stream_id text now r s =
    ground (arith, get-set stream_id s (next_seq stream_id r) r.seq_counters, eq_iff stream_id s)

-- An append keeps track of every stream, and the first number retained only grows.
pub append_ring-Tracks :
    (store : MemoryEventStore) (stream_id text : String) (now : ℕ) (r : Ring) (s : String)
    (first : ℕ)
    → RingTracks s first r
    → (first' : ℕ) × (first ≤ first')
      × RingTracks s first' (append_ring store stream_id text now r).0
unfolding append_ring
append_ring-Tracks store stream_id text now r s first t =
    let e = new_event store stream_id text now r in
    let (first', le, t') =
      evict_overflow-Tracks store.max_count s first _ (r.events ++ e ∷ []) r.min_seq_retained
        (snoc-Tracks s first r e refl t) in
    (first', le, rw (next_seq-append store stream_id text now r s) t')
