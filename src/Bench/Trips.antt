-- ===== src/Bench/Trips.antt =====
-- `benchmark_circuit_breaker_performance` of benchmark.cpp.
use dist_cache.Prelude.{
  ℕ, zero, suc, ◌+◌, ◌*◌, ◌%◌, ◌≤◌, ◌≡◌, refl, List, [], ◌∷◌, Bool, true, ◌&&◌, ◌==◌, arith,
  if◌then◌else◌, All,
}
use dist_cache.Prelude.Int.{pos}
use dist_cache.Text.{Text, codes}
use dist_cache.Breaker.{
  Breaker, closed, open_, init, allow_request, record_success, record_failure, get_state_string,
  is_timeout_expired, ns_per_ms,
}
use dist_cache.Breaker.States.{is_timeout_expired_iff}
use dist_cache.Server.Sessions.{allow_request-closed}

-- The replies are kept beside the breaker.
unfoldable pub allow_loop : (ℕ → ℕ) → ℕ → ℕ → Breaker → Breaker × List Bool
allow_loop clock zero i b = (b, [])
allow_loop clock (suc left) i b =
    let (asked, allowed) = allow_request b (clock i) in
    let next = if (i % 100_000 == 0) && allowed then record_success asked else asked in
    let (end, replies) = allow_loop clock left (suc i) next in (end, allowed ∷ replies)

-- `cb` and its loop.
unfoldable pub benchmark_allow_loop : (ℕ → ℕ) → Breaker × List Bool
unfolding allow_loop init
benchmark_allow_loop clock = allow_loop clock 1_000_000 0 (init (pos 5) (pos 1000))

-- The four states that are printed. The failures happen at `first` and `second`, and the request
-- behind the sleep at `asked`.
unfoldable pub state_transitions : ℕ → ℕ → ℕ → List Text
unfolding init record_failure allow_request record_success get_state_string
state_transitions first second asked =
    let test_cb = init (pos 2) (pos 100) in
    let failed = record_failure (record_failure test_cb first) second in
    let tried = (allow_request failed asked).0 in
    get_state_string test_cb
    ∷ get_state_string failed
    ∷ get_state_string tried
    ∷ get_state_string (record_success tried)
    ∷ []

record_success-stays : (b : Breaker) → b.state ≡ closed → (record_success b).state ≡ closed
unfolding record_success
record_success-stays b h = ground (arith, h)

-- A closed breaker that only sees requests and successes lets every request through.
pub allow_loop-allows :
    (clock : ℕ → ℕ) (left i : ℕ) (b : Breaker)
    → b.state ≡ closed
    → ((allow_loop clock left i b).0.state ≡ closed)
      × All (λ reply. reply ≡ true) (allow_loop clock left i b).1
unfolding allow_loop
allow_loop-allows clock zero i b h = (h, tt)
allow_loop-allows clock (suc left) i b h =
    let next : Breaker = if (i % 100_000 == 0) && true then record_success b else b in
    let still : next.state ≡ closed = ground (arith, h, record_success-stays b h) in
    let (end, all) = allow_loop-allows clock left (suc i) next still in
    rw (allow_loop, allow_request-closed b (clock i) h) (end, (refl, all))

-- So the benchmark measures the closed breaker alone.
pub benchmark_allow_loop-allows :
    (clock : ℕ → ℕ)
    → ((benchmark_allow_loop clock).0.state ≡ closed)
      × All (λ reply. reply ≡ true) (benchmark_allow_loop clock).1
unfolding benchmark_allow_loop
benchmark_allow_loop-allows clock =
    allow_loop-allows clock 1_000_000 0 (init (pos 5) (pos 1000)) (unfold init in refl)

failed_breaker : ℕ → Breaker
failed_breaker second = record {
  state = open_;
  failure_count = 2;
  success_count = 0;
  failure_threshold = pos 2;
  timeout_ms = pos 100;
  last_failure_time = second;
}

-- The demonstration prints the four states that its captions promise, where the clock has moved on by
-- the time-out of 100 ms at least since the second failure; the program sleeps for 150 ms.
pub state_transitions-printed :
    (first second asked : ℕ)
    → second + 100 * ns_per_ms ≤ asked
    → state_transitions first second asked
      ≡ codes "CLOSED" ∷ codes "OPEN" ∷ codes "HALF_OPEN" ∷ codes "CLOSED" ∷ []
unfolding state_transitions failed_breaker
state_transitions-printed first second asked late =
    let over : is_timeout_expired (failed_breaker second) asked ≡ true =
      (is_timeout_expired_iff (failed_breaker second) asked 100 refl (omega arith)).1 late in
    rw over refl
