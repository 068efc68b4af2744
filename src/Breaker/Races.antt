-- ===== src/Breaker/Races.antt =====
-- The calls of the circuit breaker as several threads make them: CircuitBreaker.cpp's atomic accesses,
-- one at a time. `last_failure_time_` is not atomic; its accesses are steps of their own here.
pub mod Quiet
pub mod Stale
use dist_cache.Prelude.{
  ℕ, zero, suc, ◌+◌, ◌≤◌, ◌<◌, ◌^◌, ◌≡◌, ◌≢◌, refl, Bool, true, false, List, [], ◌∷◌, All, All-map,
  arith, if◌then◌else◌,
}
use dist_cache.Prelude.Int.{ℤ, pos, leb_ℤ}
use dist_cache.Breaker.{
  State, closed, open_, half_open, Breaker, allow_request, record_success, record_failure,
  is_timeout_expired, to_int, increment, init,
}

-- Where a thread stands in its call.
pub data At : Type 0 where
  -- `allow_request`: before the load of the state, behind it, before the store, returned.
  asking saw_open probing : At
  answered : Bool → At
  -- `record_success`: before the count, before the test, before the two stores, returned.
  succeeding success_counted closing resetting succeeded : At
  -- `record_failure`: before the count, before the time is kept, before the test of CLOSED, before the
  -- test of the count, before the test of HALF_OPEN, before the store, returned.
  failing failure_counted failure_timed saw_closed not_tripped opening failed : At

-- The load of the state, and where each state leads.
abbrev after_load : State → At → At → At → At
after_load closed c o h = c
after_load open_ c o h = o
after_load half_open c o h = h

-- One access. `now` is the clock's reading where the access is behind one.
unfoldable pub access : ℕ → Breaker → At → Breaker × At
access now b asking = (b, after_load b.state (answered true) saw_open (answered true))
access now b saw_open = (b, if is_timeout_expired b now then probing else answered false)
access now b probing = (record b { state = half_open }, answered true)
access now b (answered reply) = (b, answered reply)
access now b succeeding = (record b { success_count = increment b.success_count }, success_counted)
access now b success_counted = (b, after_load b.state succeeded succeeded closing)
access now b closing = (record b { state = closed }, resetting)
access now b resetting = (record b { failure_count = 0 }, succeeded)
access now b succeeded = (b, succeeded)
access now b failing = (record b { failure_count = increment b.failure_count }, failure_counted)
access now b failure_counted = (record b { last_failure_time = now }, failure_timed)
access now b failure_timed = (b, after_load b.state saw_closed not_tripped not_tripped)
access now b saw_closed =
    (b, if leb_ℤ b.failure_threshold (to_int b.failure_count) then opening else not_tripped)
access now b not_tripped = (b, after_load b.state failed failed opening)
access now b opening = (record b { state = open_ }, failed)
access now b failed = (b, failed)

-- A thread's accesses with no other thread between them.
unfoldable pub alone : ℕ → ℕ → Breaker → At → Breaker × At
unfolding access
alone zero now b at = (b, at)
alone (suc n) now b at = let (b', at') = access now b at in alone n now b' at'

-- The number of accesses after which each of the three calls has returned.
abbrev pub call_length : ℕ
call_length = 6

alone-allow :
    (s : State) (b : Breaker) (now : ℕ)
    → b.state ≡ s
    → alone call_length now b asking ≡ ((allow_request b now).0, answered (allow_request b now).1)
unfolding alone allow_request
alone-allow closed b now h = ground (arith, h)
alone-allow open_ b now h = ground (arith, h)
alone-allow half_open b now h = ground (arith, h)

alone-success :
    (s : State) (b : Breaker) (now : ℕ)
    → b.state ≡ s
    → alone call_length now b succeeding ≡ (record_success b, succeeded)
unfolding alone record_success
alone-success closed b now h = ground (arith, h)
alone-success open_ b now h = ground (arith, h)
alone-success half_open b now h = ground (arith, h)

alone-failure :
    (s : State) (b : Breaker) (now : ℕ)
    → b.state ≡ s
    → alone call_length now b failing ≡ (record_failure b now, failed)
unfolding alone record_failure
alone-failure closed b now h = ground (arith, h)
alone-failure open_ b now h = ground (arith, h)
alone-failure half_open b now h = ground (arith, h)

-- With no other thread between its accesses each of the three calls, on every branch, has after six
-- accesses returned with the breaker and the reply of the call as one step.
pub alone-calls :
    (b : Breaker) (now : ℕ)
    → (alone call_length now b asking ≡ ((allow_request b now).0, answered (allow_request b now).1))
      × (alone call_length now b succeeding ≡ (record_success b, succeeded))
      × (alone call_length now b failing ≡ (record_failure b now, failed))
alone-calls b now = (
  alone-allow b.state b now refl,
  alone-success b.state b now refl,
  alone-failure b.state b now refl,
)

-- One access of the thread with a number, and a schedule of them, each with the clock's reading.
unfoldable pub access_at : ℕ → ℕ → Breaker → List At → Breaker × List At
unfolding access
access_at i now b [] = (b, [])
access_at zero now b (at ∷ ats) = let (b', at') = access now b at in (b', at' ∷ ats)
access_at (suc i) now b (at ∷ ats) = let (b', ats') = access_at i now b ats in (b', at ∷ ats')

unfoldable pub interleave : List (ℕ × ℕ) → Breaker → List At → Breaker × List At
unfolding access_at
interleave [] b ats = (b, ats)
interleave ((i, now) ∷ schedule) b ats =
    let (b', ats') = access_at i now b ats in interleave schedule b' ats'
