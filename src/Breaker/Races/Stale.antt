-- ===== src/Breaker/Races/Stale.antt =====
-- Stores of the circuit breaker's state that come too late.
use dist_cache.Prelude.{ℕ, ◌≡◌, true, List, [], ◌∷◌, arith}
use dist_cache.Breaker.{closed, open_, half_open, Breaker, is_timeout_expired}
use dist_cache.Breaker.Races.{asking, succeeding, failing, access_at, interleave}

-- A thread has found the breaker open and the time-out over, and before it stores its answer a
-- second request half opens the breaker and its success closes it.
abbrev pub late_probe : ℕ → List (ℕ × ℕ)
late_probe now =
    (0, now)
    ∷ (0, now)
    ∷ (1, now)
    ∷ (1, now)
    ∷ (1, now)
    ∷ (2, now)
    ∷ (2, now)
    ∷ (2, now)
    ∷ (2, now)
    ∷ []

-- A thread has found the breaker half open for its failure, and before it stores the state a success
-- closes the breaker.
abbrev pub late_trip : ℕ → List (ℕ × ℕ)
late_trip now =
    (0, now) ∷ (0, now) ∷ (0, now) ∷ (0, now) ∷ (1, now) ∷ (1, now) ∷ (1, now) ∷ (1, now) ∷ []

late_probe-closed :
    (b : Breaker) (now : ℕ)
    → b.state ≡ open_
    → is_timeout_expired b now ≡ true
    → let (b', ats) = interleave (late_probe now) b (asking ∷ asking ∷ succeeding ∷ []) in
      (b'.state ≡ closed) × (b'.failure_count ≡ 0) × ((access_at 0 now b' ats).0.state ≡ half_open)
unfolding interleave
late_probe-closed b now o h = ground (arith, o, h)

late_trip-closed :
    (b : Breaker) (now : ℕ)
    → b.state ≡ half_open
    → let (b', ats) = interleave (late_trip now) b (failing ∷ succeeding ∷ []) in
      (b'.state ≡ closed) × (b'.failure_count ≡ 0) × ((access_at 0 now b' ats).0.state ≡ open_)
unfolding interleave
late_trip-closed b now o = ground (arith, o)

-- Two orders of accesses after which a breaker has just closed, with no failure counted, and the
-- next access of a thread undoes it: from an open breaker whose time-out is over the late store of
-- a second request goes back to half open, and from a half open one the late store of a failure
-- goes to open.
pub stale_stores :
    (b c : Breaker) (now : ℕ)
    → b.state ≡ open_
    → is_timeout_expired b now ≡ true
    → c.state ≡ half_open
    → (let (b', ats) = interleave (late_probe now) b (asking ∷ asking ∷ succeeding ∷ []) in
        (b'.state ≡ closed)
        × (b'.failure_count ≡ 0)
        × ((access_at 0 now b' ats).0.state ≡ half_open))
      × (let (c', ats) = interleave (late_trip now) c (failing ∷ succeeding ∷ []) in
          (c'.state ≡ closed) × (c'.failure_count ≡ 0) × ((access_at 0 now c' ats).0.state ≡ open_))
stale_stores b c now o h half = (late_probe-closed b now o h, late_trip-closed c now half)
