-- ===== src/Breaker/History.antt =====
-- Histories of a circuit breaker: when it opens for the first time, and what it counts.
use dist_cache.Prelude.{ℕ, suc, ◌+◌, ◌^◌, ◌≡◌, ◌<◌, refl, List, [], ◌∷◌, arith}
use dist_cache.Prelude.Int.{ℤ, pos}
use dist_cache.Breaker.{closed, open_, half_open, Breaker, record_success, record_failure, init}
use dist_cache.Breaker.States.{Event, request, success, failure, step, run}

abbrev pub failures : List Event → ℕ
failures [] = 0
failures (request now ∷ es) = failures es
failures (success ∷ es) = failures es
failures (failure now ∷ es) = suc (failures es)

-- A breaker with a positive threshold `n`, as `int`s go, that is closed only below the threshold.
pub record IsArmed (n : ℕ) (b : Breaker) : Type 0 where
  pub positive : 0 < n
  pub in_range : n < 2 ^ 31
  pub threshold : b.failure_threshold ≡ pos n
  pub below : b.state ≡ closed → b.failure_count < n

init-IsArmed : (n : ℕ) (timeout_ms : ℤ) → 0 < n → n < 2 ^ 31 → IsArmed n (init (pos n) timeout_ms)
unfolding init
init-IsArmed n t p q = record { positive = p; in_range = q; threshold = refl; below = λ _. p }

module _ (n : ℕ) (b : Breaker) (v : IsArmed n b) where
  step-threshold : (e : Event) → (step b e).failure_threshold ≡ pos n
  unfolding step
  step-threshold (request now) = ground (arith, v.threshold)
  step-threshold success = ground (arith, v.threshold)
  step-threshold (failure now) = ground (arith, v.threshold)

  step-below : (e : Event) → (step b e).state ≡ closed → (step b e).failure_count < n
  unfolding step
  step-below (request now) h = ground (arith, v.below)
  step-below success h = ground (arith, v.below, v.positive)
  step-below (failure now) h = ground (arith, v.below, v.threshold, v.in_range)

-- Every event keeps the count of a closed breaker below the threshold, whatever the other states
-- have counted in between.
pub step-IsArmed : (n : ℕ) (b : Breaker) (e : Event) → IsArmed n b → IsArmed n (step b e)
step-IsArmed n b e v = record {
  positive = v.positive;
  in_range = v.in_range;
  threshold = step-threshold n b v e;
  below = step-below n b v e;
}

failures-cons : (e : Event) (es : List Event) → failures (e ∷ es) ≡ failures (e ∷ []) + failures es
failures-cons (request now) es = omega arith
failures-cons success es = omega arith
failures-cons (failure now) es = omega arith

-- One event of a closed breaker that stays below the threshold.
step_below :
    (n : ℕ) (b : Breaker) (e : Event)
    → IsArmed n b
    → b.state ≡ closed
    → b.failure_count + failures (e ∷ []) < n
    → ((step b e).state ≡ closed) × ((step b e).failure_count ≡ b.failure_count + failures (e ∷ []))
unfolding step
step_below n b (request now) v c h = ground (arith, c)
step_below n b success v c h = ground (arith, c)
step_below n b (failure now) v c h = ground (arith, c, v.threshold, v.in_range)

run_below :
    (n : ℕ) (es : List Event) (b : Breaker)
    → IsArmed n b
    → b.state ≡ closed
    → b.failure_count + failures es < n
    → ((run b es).state ≡ closed)
      × ((run b es).failure_count ≡ b.failure_count + failures es)
      × IsArmed n (run b es)
unfolding run
run_below n [] b v c h = (c, omega arith, v)
run_below n (e ∷ es) b v c h =
    let total = failures-cons e es in
    let (closed', counted) = step_below n b e v c (omega (arith, total)) in
    let (c', k, v') =
      run_below n es (step b e) (step-IsArmed n b e v) closed' (omega (arith, total, counted)) in
    (c', omega (arith, k, counted, total), v')

pub failure_opens :
    (n : ℕ) (b : Breaker) (now : ℕ)
    → IsArmed n b
    → b.state ≡ closed
    → b.failure_count + 1 ≡ n
    → (record_failure b now).state ≡ open_
unfolding record_failure
failure_opens n b now v c h = ground (arith, c, v.threshold, v.in_range, v.positive)

-- A new breaker with a positive threshold `n`, below 2^31, stays closed while fewer than `n`
-- failures are recorded, whatever requests and successes come between them, and the `n`th failure
-- opens it. A success while the breaker is closed does not take a failure back.
pub run_trips :
    (n : ℕ) (timeout_ms : ℤ) (es : List Event) (now : ℕ)
    → 0 < n
    → n < 2 ^ 31
    → failures es + 1 ≡ n
    → ((run (init (pos n) timeout_ms) es).state ≡ closed)
      × ((record_failure (run (init (pos n) timeout_ms) es) now).state ≡ open_)
run_trips n t es now p q h =
    let b = init (pos n) t in
    let count : b.failure_count ≡ 0 = unfold init in refl in
    let (c, k, v) =
      run_below n es b (init-IsArmed n t p q) (unfold init in refl) (omega (arith, count)) in
    (c, failure_opens n (run b es) now v c (omega (arith, k, count)))

-- A breaker that has closed again starts its count anew.
pub record_success_recovers :
    (b : Breaker)
    → b.state ≡ half_open
    → ((record_success b).state ≡ closed) × ((record_success b).failure_count ≡ 0)
unfolding record_success
record_success_recovers b h = ground (arith, h)
