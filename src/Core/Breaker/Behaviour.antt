-- ===== src/Core/Breaker/Behaviour.antt =====
-- What a caller of the circuit breaker sees: it trips, fails fast, probes and recovers.
use Prim.Native.Nat.{min}
use mavio_mcp.Base.{
  ℕ, suc, ◌+◌, ◌-◌, ◌≤◌, ◌<◌, ◌≡◌, refl, ◌≢◌, String, Bool, true, false, none, some, arith, str_eq,
  ◌∙◌, ◌⊎◌, ap, eq_iff, inl, inr, if◌then◌else◌, List, [], ◌∷◌, Option, length,
}
use mavio_mcp.Base.Map.{get-set}
use mavio_mcp.Core.Breaker.{
  CircuitBreaker, CircuitEntry, CircuitOpenError, closed, open_circuit, half_open, entry_for, store,
  Admission, admitted, refused, admit, enter_entry, enter, on_failure, settle_entry, settle,
  execute, snapshot,
}

-- Calls that are made one after the other and all fail: each starts and ends at the next clock
-- readings of the list.
unfoldable pub fail_all : CircuitBreaker → String → List (ℕ × ℕ) → CircuitBreaker
fail_all b key [] = b
fail_all b key ((now, later) ∷ ts) = fail_all (execute b key now false later).0 key ts

entry_for-store :
    (b : CircuitBreaker) (key j : String) (e : CircuitEntry)
    → entry_for (store b key e) j ≡ (if str_eq key j then e else entry_for b j)
unfolding entry_for
entry_for-store b key j e = ground (arith, get-set key j e b.entries)

entry_for-store_self :
    (b : CircuitBreaker) (key : String) (e : CircuitEntry) → entry_for (store b key e) key ≡ e
entry_for-store_self b key e = ground (arith, entry_for-store b key key e, eq_iff key key)

entry_for-store_ne :
    (b : CircuitBreaker) (key j : String) (e : CircuitEntry)
    → key ≢ j
    → entry_for (store b key e) j ≡ entry_for b j
entry_for-store_ne b key j e h = ground (arith, entry_for-store b key j e, eq_iff key j)

Admission-cases : (a : Admission) → (a ≡ admitted) ⊎ ((e : CircuitOpenError) × (a ≡ refused e))
Admission-cases admitted = inl refl
Admission-cases (refused e) = inr (e, refl)

pub snapshot-entry_for :
    (b : CircuitBreaker) (key : String) → snapshot b key ≡ (entry_for b key).state
unfolding snapshot entry_for
snapshot-entry_for b key = ground arith

-- What `execute` does to the entry of its key.
unfoldable pub execute_entry :
    CircuitBreaker → String → ℕ → Bool → ℕ → CircuitEntry → CircuitEntry × Option CircuitOpenError
execute_entry b key now ok later e =
    let (e', a) = enter_entry b key now e in
    elim a [ admitted ↦ (settle_entry b ok later e', none) | refused err ↦ (e', some err) ]

entry_for-settle :
    (b : CircuitBreaker) (key : String) (e : CircuitEntry) (ok : Bool) (later : ℕ)
    → entry_for (settle (store b key e) key ok later) key ≡ settle_entry b ok later e
unfolding settle settle_entry
entry_for-settle b key e true later =
    entry_for-store_self _ key _ ∙ ap (settle_entry b true later) (entry_for-store_self b key e)
entry_for-settle b key e false later =
    entry_for-store_self _ key _ ∙ ap (settle_entry b false later) (entry_for-store_self b key e)

pub execute-execute_entry :
    (b : CircuitBreaker) (key : String) (now later : ℕ) (ok : Bool)
    → (entry_for (execute b key now ok later).0 key
        ≡ (execute_entry b key now ok later (entry_for b key)).0)
      × ((execute b key now ok later).1 ≡ (execute_entry b key now ok later (entry_for b key)).1)
unfolding execute execute_entry enter
execute-execute_entry b key now later ok =
    elim (Admission-cases (enter_entry b key now (entry_for b key)).1) [
      | inl e ↦ (
        rw (e, execute, execute_entry) (entry_for-settle b key _ ok later),
        rw (e, execute, execute_entry),
      )
      | inr (err, e) ↦ (
        rw (e, execute, execute_entry)
            (entry_for-store_self b key (enter_entry b key now (entry_for b key)).0),
        rw (e, execute, execute_entry),
      )
    ]

-- A call under one key, however it ends, changes no other key's entry.
pub execute-isolated :
    (b : CircuitBreaker) (key j : String) (now later : ℕ) (ok : Bool)
    → key ≢ j
    → entry_for (execute b key now ok later).0 j ≡ entry_for b j
unfolding execute enter settle
execute-isolated b key j now later ok h =
    elim (Admission-cases (enter_entry b key now (entry_for b key)).1) [
      | inl e ↦
          rw (e, execute)
            (entry_for-store_ne (enter b key now).0 key j _ h ∙ entry_for-store_ne b key j _ h)
      | inr (err, e) ↦ rw (e, execute) (entry_for-store_ne b key j _ h)
    ]

pub execute-config :
    (b : CircuitBreaker) (key : String) (now later : ℕ) (ok : Bool)
    → ((execute b key now ok later).0.failure_threshold ≡ b.failure_threshold)
      × ((execute b key now ok later).0.reset_ms ≡ b.reset_ms)
      × ((execute b key now ok later).0.half_open_max_calls ≡ b.half_open_max_calls)
unfolding execute enter settle
execute-config b key now later ok = ground arith

fail_entry :
    (b : CircuitBreaker) (key : String) (now later : ℕ) (e : CircuitEntry)
    → e.state ≡ closed
    → (execute_entry b key now false later e).0 ≡ on_failure b later e
unfolding execute_entry enter_entry admit settle_entry
fail_entry b key now later e h = ground arith

fail_once :
    (b : CircuitBreaker) (key : String) (now later : ℕ)
    → (entry_for b key).state ≡ closed
    → entry_for (execute b key now false later).0 key ≡ on_failure b later (entry_for b key)
fail_once b key now later h =
    (execute-execute_entry b key now later false).0 ∙ fail_entry b key now later (entry_for b key) h

-- Calls that fail one after another leave a closed breaker closed, and count, as long as there are
-- fewer of them than the threshold; the call that reaches the threshold opens it at that moment.
pub fail_all-trips :
    (b : CircuitBreaker) (key : String) (ts : List (ℕ × ℕ)) (now later : ℕ)
    → (entry_for b key).state ≡ closed
    → (entry_for b key).failures + length ts + 1 ≡ b.failure_threshold
    → let c = fail_all b key ts in
      let d = (execute c key now false later).0 in
      (snapshot c key ≡ closed)
      × ((entry_for c key).failures ≡ (entry_for b key).failures + length ts)
      × (snapshot d key ≡ open_circuit)
      × ((entry_for d key).opened_at ≡ later)
unfolding fail_all on_failure
fail_all-trips b key [] now later h n = ground (
  arith,
  fail_once b key now later h,
  snapshot-entry_for b key,
  snapshot-entry_for (execute b key now false later).0 key,
)
fail_all-trips b key ((t, t') ∷ ts) now later h n =
    let b' = (execute b key t false t').0 in
    ground (
      arith,
      fail_once b key t t' h,
      execute-config b key t t' false,
      fail_all-trips b' key ts now later,
    )

-- An open breaker refuses, until the reset time has passed, without a call of the function: the
-- error carries the key and the time to retry at, and the entry stays as it was.
pub execute-fails_fast :
    (b : CircuitBreaker) (key : String) (now later : ℕ) (ok : Bool)
    → snapshot b key ≡ open_circuit
    → now < (entry_for b key).opened_at + b.reset_ms
    → ((execute b key now ok later).1
        ≡ some (record { key = key; retry_at = (entry_for b key).opened_at + b.reset_ms }))
      × (entry_for (execute b key now ok later).0 key ≡ entry_for b key)
unfolding execute_entry enter_entry
execute-fails_fast b key now later ok h p =
    ground (arith, execute-execute_entry b key now later ok, snapshot-entry_for b key)

-- Starts of calls under a key, with no call ending in between: how many are let through.
unfoldable pub count_admitted : CircuitBreaker → String → List ℕ → ℕ
count_admitted b key [] = 0
count_admitted b key (now ∷ ts) =
    let (b', a) = enter b key now in
    let rest = count_admitted b' key ts in elim a [ admitted ↦ suc rest | refused _ ↦ rest ]

enter-entry_for :
    (b : CircuitBreaker) (key : String) (now : ℕ)
    → (entry_for (enter b key now).0 key ≡ (enter_entry b key now (entry_for b key)).0)
      × ((enter b key now).1 ≡ (enter_entry b key now (entry_for b key)).1)
      × ((enter b key now).0.half_open_max_calls ≡ b.half_open_max_calls)
unfolding enter
enter-entry_for b key now = (entry_for-store_self b key _, refl, refl)

count_half_open :
    (b : CircuitBreaker) (key : String) (ts : List ℕ)
    → (entry_for b key).state ≡ half_open
    → count_admitted b key ts
      ≡ min (length ts) (b.half_open_max_calls - (entry_for b key).half_open_in_flight)
unfolding count_admitted enter_entry admit
count_half_open b key [] h = omega arith
count_half_open b key (now ∷ ts) h =
    ground (arith, enter-entry_for b key now, count_half_open (enter b key now).0 key ts)

-- However many calls start once the reset time of an open breaker has passed, no more than the
-- allowed number of probes goes through before one of them ends, and that many do.
pub count_admitted-min :
    (b : CircuitBreaker) (key : String) (now : ℕ) (ts : List ℕ)
    → snapshot b key ≡ open_circuit
    → (entry_for b key).opened_at + b.reset_ms ≤ now
    → 0 < b.half_open_max_calls
    → count_admitted b key (now ∷ ts) ≡ min (suc (length ts)) b.half_open_max_calls
unfolding count_admitted enter_entry admit
count_admitted-min b key now ts h p m = ground (
  arith,
  snapshot-entry_for b key,
  enter-entry_for b key now,
  count_half_open (enter b key now).0 key ts,
)
