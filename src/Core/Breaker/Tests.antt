-- ===== src/Core/Breaker/Tests.antt =====
-- The circuit breaker at concrete inputs: those of packages/core/src/circuit-breaker.test.ts.
use mavio_mcp.Base.{
  ◌≡◌, refl, String, true, false, none, some, List, [], ◌∷◌, arith, eq_iff, ◌≢◌, ◌+◌,
}
use mavio_mcp.Core.Breaker.{
  CircuitBreaker, CircuitBreakerOptions, new_breaker, entry_for, execute, snapshot, closed,
  open_circuit, enter, settle, admit, enter_entry, settle_entry,
}
use mavio_mcp.Core.Breaker.Invariant.{Event, enters, settles, run, IsValid, run-new_breaker-IsValid}
use mavio_mcp.Core.Breaker.Probes.{execute-Probes, Probes, succeed_all}
use mavio_mcp.Core.Breaker.Behaviour.{fail_all, fail_all-trips, count_admitted, count_admitted-min}

breaker : Unit {0}
unfolding new_breaker execute snapshot enter settle admit enter_entry settle_entry entry_for
    fail_all count_admitted
breaker = tt

abbrev options : CircuitBreakerOptions
options = record { failure_threshold = some 2; reset_ms = some 5000; half_open_max_calls = none }

-- Two failures open the breaker, at the end of the second.
abbrev tripped : CircuitBreaker
tripped = fail_all (new_breaker options) "srv" ((1000, 1000) ∷ (1000, 1001) ∷ [])

tripped_tests :
    (snapshot tripped "srv" ≡ open_circuit)
    × (snapshot tripped "other" ≡ closed)
    × ((entry_for tripped "srv").opened_at ≡ 1001)
    × (snapshot (execute tripped "srv" 6001 true 6002).0 "srv" ≡ closed)
    × (snapshot (execute tripped "srv" 6001 false 6002).0 "srv" ≡ open_circuit)
unfolding breaker
tripped_tests = (refl, refl, refl, refl, refl)

abbrev schedule : List Event
schedule = enters "srv" 1 ∷ enters "srv" 2 ∷ settles "srv" false 3 ∷ settles "srv" false 4 ∷ []

run-new_breaker-IsValid_example : IsValid (run (new_breaker options) schedule)
unfolding breaker
run-new_breaker-IsValid_example =
    run-new_breaker-IsValid options schedule (omega arith) (omega arith)

fail_all-trips_example :
    let c = fail_all (new_breaker options) "srv" ((1000, 1000) ∷ []) in
    let d = (execute c "srv" 1000 false 1001).0 in
    (snapshot c "srv" ≡ closed)
    × ((entry_for c "srv").failures ≡ (entry_for (new_breaker options) "srv").failures + 1)
    × (snapshot d "srv" ≡ open_circuit)
    × ((entry_for d "srv").opened_at ≡ 1001)
unfolding breaker
fail_all-trips_example =
    fail_all-trips (new_breaker options) "srv" ((1000, 1000) ∷ []) 1000 1001 refl refl

-- The same breaker, if it asks for three probes.
abbrev cautious : CircuitBreaker
cautious = record tripped { half_open_max_calls = 3 }

execute-Probes_example :
    Probes
      (succeed_all cautious "srv" ((6001, 6002) ∷ (6003, 6004) ∷ []))
      "srv"
      2
      3
      (entry_for cautious "srv").failures
      6005
      6006
unfolding breaker
execute-Probes_example =
    execute-Probes cautious "srv" ((6001, 6002) ∷ (6003, 6004) ∷ []) 6005 6006 refl (omega arith)
      (omega arith)

srv_ne_other : ◌≢◌ {A = String} "srv" "other"
srv_ne_other = ground (arith, eq_iff "srv" "other")

count_admitted-min_example : count_admitted tripped "srv" (6001 ∷ 6001 ∷ 6002 ∷ []) ≡ 1
unfolding breaker
count_admitted-min_example =
    count_admitted-min tripped "srv" 6001 (6001 ∷ 6002 ∷ []) refl (omega arith) (omega arith)
