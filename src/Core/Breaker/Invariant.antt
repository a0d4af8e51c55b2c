-- ===== src/Core/Breaker/Invariant.antt =====
-- The counters of the circuit breaker stay within their limits, whatever calls interleave.
use mavio_mcp.Base.{
  ℕ, ◌≤◌, ◌<◌, ◌≡◌, String, Bool, true, false, List, [], ◌∷◌, arith, Option-cases, inl, inr,
}
use mavio_mcp.Base.Map.{get, AllValues, AllValues-set, AllValues-get}
use mavio_mcp.Core.Breaker.{
  CircuitBreaker, CircuitBreakerOptions, CircuitEntry, closed, half_open, entry_for, store,
  new_breaker, admit, enter_entry, enter, settle_entry, settle,
}

-- What holds of an entry under the limits of its breaker.
pub record EntryIsValid (threshold max_calls : ℕ) (e : CircuitEntry) : Type 0 where
  pub in_flight : e.half_open_in_flight ≤ max_calls
  pub below_threshold : e.state ≡ closed → e.failures < threshold
  pub probing : e.state ≡ half_open → e.successes < max_calls

pub record IsValid (b : CircuitBreaker) : Type 0 where
  pub threshold_pos : 0 < b.failure_threshold
  pub max_calls_pos : 0 < b.half_open_max_calls
  pub entries : AllValues (EntryIsValid b.failure_threshold b.half_open_max_calls) b.entries

module _ (b : CircuitBreaker) (v : IsValid b) where
  abbrev Valid : CircuitEntry → Type 0
  Valid = EntryIsValid b.failure_threshold b.half_open_max_calls

  entry_for-Valid : (key : String) → Valid (entry_for b key)
  unfolding entry_for
  entry_for-Valid key = elim (Option-cases (get key b.entries)) [
    | inl missing ↦ ground arith
    | inr (e, found) ↦
        let here : Valid e = AllValues-get Valid key b.entries e v.entries found in ground arith
  ]

  store-IsValid : (key : String) (e : CircuitEntry) → Valid e → IsValid (store b key e)
  store-IsValid key e h = record {
    threshold_pos = v.threshold_pos;
    max_calls_pos = v.max_calls_pos;
    entries = AllValues-set Valid key e b.entries h v.entries;
  }

  enter_entry-Valid :
      (key : String) (now : ℕ) (e : CircuitEntry) → Valid e → Valid (enter_entry b key now e).0
  unfolding enter_entry admit
  enter_entry-Valid key now e h = ground arith

  settle_entry-Valid :
      (ok : Bool) (now : ℕ) (e : CircuitEntry) → Valid e → Valid (settle_entry b ok now e)
  unfolding settle_entry
  settle_entry-Valid true now e h = ground arith
  settle_entry-Valid false now e h = ground arith

  enter-IsValid : (key : String) (now : ℕ) → IsValid (enter b key now).0
  unfolding enter
  enter-IsValid key now =
      store-IsValid key (enter_entry b key now (entry_for b key)).0
        (enter_entry-Valid key now (entry_for b key) (entry_for-Valid key))

  settle-IsValid : (key : String) (ok : Bool) (now : ℕ) → IsValid (settle b key ok now)
  unfolding settle
  settle-IsValid key ok now =
      store-IsValid key (settle_entry b ok now (entry_for b key))
        (settle_entry-Valid ok now (entry_for b key) (entry_for-Valid key))

-- What the calls of `execute` in flight do to the breaker, in the order in which it happens.
pub data Event : Type 0 where
  enters : String → ℕ → Event
  settles : String → Bool → ℕ → Event

unfoldable pub step : CircuitBreaker → Event → CircuitBreaker
step b (enters key now) = (enter b key now).0
step b (settles key ok now) = settle b key ok now

unfoldable pub run : CircuitBreaker → List Event → CircuitBreaker
run b [] = b
run b (x ∷ xs) = run (step b x) xs

step-IsValid : (b : CircuitBreaker) (x : Event) → IsValid b → IsValid (step b x)
unfolding step
step-IsValid b (enters key now) v = enter-IsValid b v key now
step-IsValid b (settles key ok now) v = settle-IsValid b v key ok now

run-IsValid : (b : CircuitBreaker) (xs : List Event) → IsValid b → IsValid (run b xs)
unfolding run
run-IsValid b [] v = v
run-IsValid b (x ∷ xs) v = run-IsValid (step b x) xs (step-IsValid b x v)

-- A breaker made with a positive threshold and a positive number of probes keeps, after any
-- interleaving of starts and ends of calls, in each entry: no more probes counted in flight than
-- allowed, fewer failures than the threshold while closed, and fewer successes than the number of
-- probes while half open.
pub run-new_breaker-IsValid :
    (opts : CircuitBreakerOptions) (xs : List Event)
    → 0 < (new_breaker opts).failure_threshold
    → 0 < (new_breaker opts).half_open_max_calls
    → IsValid (run (new_breaker opts) xs)
unfolding new_breaker
run-new_breaker-IsValid opts xs t m =
    run-IsValid (new_breaker opts) xs
      (record { threshold_pos = t; max_calls_pos = m; entries = tt })
