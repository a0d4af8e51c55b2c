-- ===== src/Core/Breaker.antt =====
-- packages/core/src/index.ts: `CircuitBreaker`. A call of `execute` is two steps, `enter` before the
-- awaited function and `settle` after it, since other calls run in between. The entry that a
-- call holds on to is the one in the map: entries are never removed. Clock readings are arguments,
-- in milliseconds; `now - openedAt < resetMs` is read over the integers.
pub mod Invariant
pub mod Behaviour
pub mod Probes
mod Tests
use mavio_mcp.Base.{
  ℕ, suc, ◌+◌, ◌-◌, String, Bool, true, false, ◌&&◌, Option, none, some, [], ltb, leb,
  if◌then◌else◌,
}
use mavio_mcp.Base.Map.{Map, get, set}

pub data CircuitState : Type 0 where
  closed open_circuit half_open : CircuitState

pub record CircuitBreakerOptions : Type 0 where
  pub failure_threshold : Option ℕ
  pub reset_ms : Option ℕ
  pub half_open_max_calls : Option ℕ

pub record CircuitEntry : Type 0 where
  pub state : CircuitState
  pub failures : ℕ
  pub successes : ℕ
  pub opened_at : ℕ
  pub half_open_in_flight : ℕ

pub record CircuitBreaker : Type 0 where
  pub entries : Map CircuitEntry
  pub failure_threshold : ℕ
  pub reset_ms : ℕ
  pub half_open_max_calls : ℕ

-- `CircuitOpenError`.
pub record CircuitOpenError : Type 0 where
  pub key : String
  pub retry_at : ℕ

abbrev or_default : Option ℕ → ℕ → ℕ
or_default none d = d
or_default (some n) d = n

unfoldable pub new_breaker : CircuitBreakerOptions → CircuitBreaker
new_breaker opts = record {
  entries = [];
  failure_threshold = or_default opts.failure_threshold 5;
  reset_ms = or_default opts.reset_ms 30_000;
  half_open_max_calls = or_default opts.half_open_max_calls 1;
}

abbrev pub fresh_entry : CircuitEntry
fresh_entry = record {
  state = closed;
  failures = 0;
  successes = 0;
  opened_at = 0;
  half_open_in_flight = 0;
}

-- `entryFor`: what it returns. `store` writes the entry back.
unfoldable pub entry_for : CircuitBreaker → String → CircuitEntry
entry_for b key = elim (get key b.entries) [ none ↦ fresh_entry | some e ↦ e ]

abbrev pub store : CircuitBreaker → String → CircuitEntry → CircuitBreaker
store b key e = record b { entries = set key e b.entries }

abbrev pub is_open : CircuitState → Bool
is_open open_circuit = true
is_open _ = false

abbrev pub is_half_open : CircuitState → Bool
is_half_open half_open = true
is_half_open _ = false

pub data Admission : Type 0 where
  admitted : Admission
  refused : CircuitOpenError → Admission

module _ (b : CircuitBreaker) (key : String) where
  abbrev pub refusal : CircuitEntry → Admission
  refusal e = refused (record { key = key; retry_at = e.opened_at + b.reset_ms })

  -- The second test of `execute`, and the count of calls in flight.
  unfoldable pub admit : CircuitEntry → CircuitEntry × Admission
  admit e =
      if is_half_open e.state && leb b.half_open_max_calls e.half_open_in_flight
      then (e, refusal e)
      else if is_half_open e.state
      then (record e { half_open_in_flight = e.half_open_in_flight + 1 }, admitted)
      else (e, admitted)

  abbrev pub probing : CircuitEntry → CircuitEntry
  probing e = record e { state = half_open; half_open_in_flight = 0; successes = 0 }

  -- `execute` up to the call of `fn`, on the entry.
  unfoldable pub enter_entry : ℕ → CircuitEntry → CircuitEntry × Admission
  enter_entry now e =
      if is_open e.state
      then if ltb now (e.opened_at + b.reset_ms) then (e, refusal e) else admit (probing e)
      else admit e

unfoldable pub enter : CircuitBreaker → String → ℕ → CircuitBreaker × Admission
enter b key now = let (e, a) = enter_entry b key now (entry_for b key) in (store b key e, a)

unfoldable pub on_success : CircuitBreaker → CircuitEntry → CircuitEntry
on_success b e =
    if is_half_open e.state
    then if leb b.half_open_max_calls (e.successes + 1)
      then record e {
        state = closed;
        failures = 0;
        successes = 0;
        half_open_in_flight = e.half_open_in_flight - 1;
      }
      else record e { successes = e.successes + 1; half_open_in_flight = e.half_open_in_flight - 1 }
    else record e { failures = 0 }

unfoldable pub on_failure : CircuitBreaker → ℕ → CircuitEntry → CircuitEntry
on_failure b now e =
    if is_half_open e.state
    then record e { state = open_circuit; opened_at = now; half_open_in_flight = 0 }
    else if leb b.failure_threshold (e.failures + 1)
    then record e { state = open_circuit; failures = e.failures + 1; opened_at = now }
    else record e { failures = e.failures + 1 }

-- `execute` once `fn` has settled: `true` if it resolved.
unfoldable pub settle_entry : CircuitBreaker → Bool → ℕ → CircuitEntry → CircuitEntry
unfolding on_success on_failure
settle_entry b true now e = on_success b e
settle_entry b false now e = on_failure b now e

unfoldable pub settle : CircuitBreaker → String → Bool → ℕ → CircuitBreaker
settle b key ok now = store b key (settle_entry b ok now (entry_for b key))

-- `execute` with no other call in between: `none` if `fn` was not called.
unfoldable pub execute :
    CircuitBreaker → String → ℕ → Bool → ℕ → CircuitBreaker × Option CircuitOpenError
execute b key now ok later =
    let (b', a) = enter b key now in
    elim a [ admitted ↦ (settle b' key ok later, none) | refused e ↦ (b', some e) ]

unfoldable pub snapshot : CircuitBreaker → String → CircuitState
snapshot b key = elim (get key b.entries) [ none ↦ closed | some e ↦ e.state ]
