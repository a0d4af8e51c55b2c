-- ===== src/Core/Breaker/Probes.antt =====
-- packages/core/src/index.ts: `CircuitBreaker` after its reset time: the calls that probe.
use mathlib.Core.Path.{subst}
use mavio_mcp.Base.{
  ℕ, suc, ◌+◌, ◌≤◌, ◌<◌, ◌≡◌, String, true, false, none, arith, if◌then◌else◌, ◌==◌, List, [], ◌∷◌,
  length,
}
use mavio_mcp.Core.Breaker.{
  CircuitBreaker, closed, open_circuit, half_open, entry_for, admit, enter_entry, settle_entry,
  execute, snapshot,
}
use mavio_mcp.Core.Breaker.Behaviour.{
  execute_entry, execute-execute_entry, execute-config, snapshot-entry_for,
}

-- Calls that are made one after the other and all succeed.
unfoldable pub succeed_all : CircuitBreaker → String → List (ℕ × ℕ) → CircuitBreaker
succeed_all b key [] = b
succeed_all b key ((now, later) ∷ ts) = succeed_all (execute b key now true later).0 key ts

-- What one more call does after `n` probes of `most` have succeeded.
abbrev pub Probes : CircuitBreaker → String → ℕ → ℕ → ℕ → ℕ → ℕ → Type 0
Probes c key n most failures now later =
    let good = execute c key now true later in
    let bad = execute c key now false later in
    (good.1 ≡ none)
    × (snapshot good.0 key ≡ (if suc n == most then closed else half_open))
    × ((entry_for good.0 key).failures ≡ (if suc n == most then 0 else failures))
    × (bad.1 ≡ none)
    × (snapshot bad.0 key ≡ open_circuit)
    × ((entry_for bad.0 key).opened_at ≡ later)

-- When the first of the calls starts, the last one being at `now`.
abbrev pub starts : List (ℕ × ℕ) → ℕ → ℕ
starts [] now = now
starts ((first, later) ∷ ts) now = first

-- No probe runs, and `n` have succeeded.
abbrev Probing : CircuitBreaker → String → ℕ → ℕ → ℕ → Type 0
Probing b key n most failures =
    ((entry_for b key).state ≡ half_open)
    × ((entry_for b key).half_open_in_flight ≡ 0)
    × ((entry_for b key).successes ≡ n)
    × ((entry_for b key).failures ≡ failures)
    × (b.half_open_max_calls ≡ most)

probe :
    (b : CircuitBreaker) (key : String) (n most failures now later : ℕ)
    → Probing b key n most failures
    → n < most
    → Probes b key n most failures now later
unfolding execute_entry enter_entry admit settle_entry
probe b key n most failures now later (h, idle, k, f, m) few = ground (
  arith,
  execute-execute_entry b key now later true,
  execute-execute_entry b key now later false,
  snapshot-entry_for (execute b key now true later).0 key,
  snapshot-entry_for (execute b key now false later).0 key,
)

probe-Probing :
    (b : CircuitBreaker) (key : String) (n most failures now later : ℕ)
    → Probing b key n most failures
    → suc n < most
    → Probing (execute b key now true later).0 key (suc n) most failures
unfolding execute_entry enter_entry admit settle_entry
probe-Probing b key n most failures now later (h, idle, k, f, m) few =
    ground (arith, execute-execute_entry b key now later true, execute-config b key now later true)

first_probe :
    (b : CircuitBreaker) (key : String) (now later : ℕ)
    → snapshot b key ≡ open_circuit
    → (entry_for b key).opened_at + b.reset_ms ≤ now
    → 0 < b.half_open_max_calls
    → Probes b key 0 b.half_open_max_calls (entry_for b key).failures now later
unfolding execute_entry enter_entry admit settle_entry
first_probe b key now later h p few = ground (
  arith,
  execute-execute_entry b key now later true,
  execute-execute_entry b key now later false,
  snapshot-entry_for b key,
  snapshot-entry_for (execute b key now true later).0 key,
  snapshot-entry_for (execute b key now false later).0 key,
)

first_probe-Probing :
    (b : CircuitBreaker) (key : String) (now later : ℕ)
    → snapshot b key ≡ open_circuit
    → (entry_for b key).opened_at + b.reset_ms ≤ now
    → 1 < b.half_open_max_calls
    → Probing
        (execute b key now true later).0
        key
        1
        b.half_open_max_calls
        (entry_for b key).failures
unfolding execute_entry enter_entry admit settle_entry
first_probe-Probing b key now later h p few = ground (
  arith,
  execute-execute_entry b key now later true,
  execute-config b key now later true,
  snapshot-entry_for b key,
)

probes :
    (b : CircuitBreaker) (key : String) (n most failures : ℕ) (ts : List (ℕ × ℕ)) (now later : ℕ)
    → Probing b key n most failures
    → n + length ts < most
    → Probes (succeed_all b key ts) key (n + length ts) most failures now later
unfolding succeed_all
probes b key n most failures [] now later h few =
    subst (λ k. Probes b key k most failures now later) (omega arith)
      (probe b key n most failures now later h (omega (arith, few)))
probes b key n most failures ((t, t') ∷ ts) now later h few =
    subst
      (λ k. Probes (succeed_all (execute b key t true t').0 key ts) key k most failures now later)
      (omega arith)
      (probes (execute b key t true t').0 key (suc n) most failures ts now later
        (probe-Probing b key n most failures t t' h (omega (arith, few))) (omega (arith, few)))

-- Once the reset time of an open breaker has passed, calls that are made one after the other go
-- through: the breaker closes with the success that makes up the number of probes, and stays
-- half-open with those before it; a failure in place of any of them opens it again from its end.
pub execute-Probes :
    (b : CircuitBreaker) (key : String) (ts : List (ℕ × ℕ)) (now later : ℕ)
    → snapshot b key ≡ open_circuit
    → (entry_for b key).opened_at + b.reset_ms ≤ starts ts now
    → length ts < b.half_open_max_calls
    → Probes
        (succeed_all b key ts)
        key
        (length ts)
        b.half_open_max_calls
        (entry_for b key).failures
        now
        later
unfolding succeed_all
execute-Probes b key [] now later h p few = first_probe b key now later h p few
execute-Probes b key ((t, t') ∷ ts) now later h p few =
    subst
      (λ n.
        Probes (succeed_all (execute b key t true t').0 key ts) key n b.half_open_max_calls
          (entry_for b key).failures now later)
      (omega arith)
      (probes (execute b key t true t').0 key 1 b.half_open_max_calls (entry_for b key).failures ts
        now later (first_probe-Probing b key t t' h p (omega (arith, few))) (omega (arith, few)))
