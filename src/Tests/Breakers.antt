-- ===== src/Tests/Breakers.antt =====
-- CircuitBreaker as in tests/test_CircuitBreaker.cpp.
use dist_cache.Breaker.{half_open}
use dist_cache.Breaker.Races.{
  At, asking, answered, succeeding, failing, succeeded, failed, alone, call_length, access_at,
  interleave, alone-calls,
}
use dist_cache.Breaker.Races.Quiet.{interleave-closed}
use dist_cache.Breaker.Races.Stale.{late_probe, late_trip, stale_stores}
use dist_cache.Prelude.{List, ℕ, ◌≢◌, All}
use dist_cache.Prelude.{◌*◌, ◌≡◌, refl, false, [], ◌∷◌, arith}
use dist_cache.Prelude.Int.{pos}
use dist_cache.Text.{codes}
use dist_cache.Breaker.{
  closed, open_, Breaker, init, allow_request, record_success, record_failure, is_timeout_expired,
  get_state_string, ns_per_ms,
}
use dist_cache.Breaker.States.{
  request, success, failure, step, run, Transition, step-Transition, ask,
}
use dist_cache.Breaker.History.{run_trips}

program : Unit {0}
unfolding init allow_request record_success record_failure is_timeout_expired get_state_string step
    run ask
program = tt

-- Open since time 0, for 100 ms.
abbrev tripped : Breaker
tripped = record {
  state = open_;
  failure_count = 1;
  success_count = 0;
  failure_threshold = pos 1;
  timeout_ms = pos 100;
  last_failure_time = 0;
}

trips : record_failure (init (pos 1) (pos 100)) 0 ≡ tripped
unfolding program
trips = refl

recovery_to_closed :
    get_state_string (run tripped (request (150 * ns_per_ms) ∷ success ∷ [])) ≡ codes "CLOSED"
unfolding program
recovery_to_closed = refl

step-Transition_example :
    Transition tripped (request (150 * ns_per_ms)) (step tripped (request (150 * ns_per_ms))).state
step-Transition_example = step-Transition tripped (request (150 * ns_per_ms))

run_trips_example :
    ((run (init (pos 2) (pos 100)) (failure 1 ∷ success ∷ request 3 ∷ [])).state ≡ closed)
    × ((record_failure
          (run (init (pos 2) (pos 100)) (failure 1 ∷ success ∷ request 3 ∷ []))
          4).state
        ≡ open_)
run_trips_example =
    run_trips 2 (pos 100) (failure 1 ∷ success ∷ request 3 ∷ []) 4 (omega arith) (omega arith) refl

alone-calls_example :
    (alone call_length 150_000_000 tripped asking
      ≡ ((allow_request tripped 150_000_000).0, answered (allow_request tripped 150_000_000).1))
    × (alone call_length 150_000_000 tripped succeeding ≡ (record_success tripped, succeeded))
    × (alone call_length 150_000_000 tripped failing ≡ (record_failure tripped 150_000_000, failed))
alone-calls_example = alone-calls tripped 150_000_000

-- Two failures and a request under a threshold of three, with their accesses mixed.
abbrev three_calls : List At
three_calls = failing ∷ failing ∷ asking ∷ []

abbrev mixed : List (ℕ × ℕ)
mixed =
    (0, 1)
    ∷ (1, 1)
    ∷ (0, 2)
    ∷ (1, 2)
    ∷ (1, 3)
    ∷ (0, 3)
    ∷ (2, 3)
    ∷ (0, 4)
    ∷ (1, 4)
    ∷ (1, 5)
    ∷ (0, 5)
    ∷ []

interleave-closed_example :
    ((interleave mixed (init (pos 3) (pos 100)) three_calls).0.state ≡ closed)
    × All (λ at. at ≢ answered false) (interleave mixed (init (pos 3) (pos 100)) three_calls).1
interleave-closed_example =
    interleave-closed 3 (pos 100) mixed three_calls (omega arith) (omega arith)
      (refl, (refl, (refl, tt)))

abbrev trying : Breaker
trying = record tripped { state = half_open }

stale_stores_example :
    (let (b', ats) =
        interleave (late_probe 150_000_000) tripped (asking ∷ asking ∷ succeeding ∷ []) in
      (b'.state ≡ closed)
      × (b'.failure_count ≡ 0)
      × ((access_at 0 150_000_000 b' ats).0.state ≡ half_open))
    × (let (c', ats) = interleave (late_trip 150_000_000) trying (failing ∷ succeeding ∷ []) in
        (c'.state ≡ closed)
        × (c'.failure_count ≡ 0)
        × ((access_at 0 150_000_000 c' ats).0.state ≡ open_))
unfolding is_timeout_expired
stale_stores_example = stale_stores tripped trying 150_000_000 refl refl refl
