-- ===== src/Breaker/Races/Quiet.antt =====
-- Threads whose calls on the circuit breaker record too few failures to open it.
use dist_cache.Prelude.{
  ℕ, zero, suc, ◌+◌, ◌≤◌, ◌<◌, ◌^◌, ◌≡◌, ◌≢◌, refl, Bool, true, false, List, [], ◌∷◌, All, All-map,
  arith,
}
use dist_cache.Prelude.Int.{ℤ, pos}
use dist_cache.Breaker.{closed, Breaker, init}
use dist_cache.Breaker.Races.{
  At, asking, saw_open, probing, answered, succeeding, success_counted, closing, resetting,
  succeeded, failing, failure_counted, failure_timed, saw_closed, not_tripped, opening, failed,
  access, access_at, interleave,
}

-- A thread that has met no state but CLOSED.
abbrev calm : At → Bool
calm saw_open = false
calm probing = false
calm (answered reply) = reply
calm closing = false
calm resetting = false
calm opening = false
calm _ = true

-- Whether a thread records a failure, and whether it has counted it.
abbrev pub fails : At → ℕ
fails failing = 1
fails failure_counted = 1
fails failure_timed = 1
fails saw_closed = 1
fails not_tripped = 1
fails opening = 1
fails failed = 1
fails _ = 0

abbrev counted : At → ℕ
counted failing = 0
counted at = fails at

abbrev pub total : (At → ℕ) → List At → ℕ
total f [] = 0
total f (at ∷ ats) = f at + total f ats

-- A closed breaker that has counted fewer failures than its threshold `n`.
record IsQuiet (n : ℕ) (b : Breaker) : Type 0 where
  pub shut : b.state ≡ closed
  pub threshold : b.failure_threshold ≡ pos n
  pub below : b.failure_count < n
  pub in_range : n < 2 ^ 31

-- What an access of calm threads keeps: their failures, and that all of them are calm.
record Kept (n : ℕ) (b b' : Breaker) (f f' k k' : ℕ) : Type 0 where
  pub shut : b'.state ≡ closed
  pub threshold : b'.failure_threshold ≡ pos n
  pub fails : f' ≡ f
  pub counts : b'.failure_count + k ≤ b.failure_count + k'

module _ (n : ℕ) (now : ℕ) where
  access-Kept :
      (b : Breaker) (at : At)
      → IsQuiet n b
      → calm at ≡ true
      → let (b', at') = access now b at in
        Kept n b b' (fails at) (fails at') (counted at) (counted at') × (calm at' ≡ true)
  unfolding access
  access-Kept b asking v c = let load = v.shut in ground (arith, v.threshold)
  access-Kept b (answered reply) v c = ground (arith, v.shut, v.threshold, c)
  access-Kept b succeeding v c = ground (arith, v.shut, v.threshold)
  access-Kept b success_counted v c = ground (arith, v.shut, v.threshold)
  access-Kept b succeeded v c = ground (arith, v.shut, v.threshold)
  access-Kept b failing v c = ground (arith, v.shut, v.threshold, v.below, v.in_range)
  access-Kept b failure_counted v c = ground (arith, v.shut, v.threshold)
  access-Kept b failure_timed v c = ground (arith, v.shut, v.threshold)
  access-Kept b saw_closed v c = ground (arith, v.shut, v.threshold, v.below, v.in_range)
  access-Kept b not_tripped v c = ground (arith, v.shut, v.threshold)
  access-Kept b failed v c = ground (arith, v.shut, v.threshold)
  access-Kept b saw_open v c = absurd (cc)
  access-Kept b probing v c = absurd (cc)
  access-Kept b closing v c = absurd (cc)
  access-Kept b resetting v c = absurd (cc)
  access-Kept b opening v c = absurd (cc)

  access_at-Kept :
      (i : ℕ) (b : Breaker) (ats : List At)
      → IsQuiet n b
      → All (λ at. calm at ≡ true) ats
      → let (b', ats') = access_at i now b ats in
        Kept n b b' (total fails ats) (total fails ats') (total counted ats) (total counted ats')
        × All (λ at. calm at ≡ true) ats'
  unfolding access_at
  access_at-Kept i b [] v c =
      (record { shut = v.shut; threshold = v.threshold; fails = refl; counts = omega arith }, tt)
  access_at-Kept zero b (at ∷ ats) v c =
      let (k, c') = access-Kept b at v c.0 in
      (
        record {
          shut = k.shut;
          threshold = k.threshold;
          fails = omega (arith, k.fails);
          counts = omega (arith, k.counts);
        },
        (c', c.1),
      )
  access_at-Kept (suc i) b (at ∷ ats) v c =
      let (k, c') = access_at-Kept i b ats v c.1 in
      (
        record {
          shut = k.shut;
          threshold = k.threshold;
          fails = omega (arith, k.fails);
          counts = omega (arith, k.counts);
        },
        (c.0, c'),
      )

counted-le : (ats : List At) → total counted ats ≤ total fails ats
counted-le [] = omega arith
counted-le (at ∷ ats) = omega (arith, counted-le ats, counted_one at)
  where
    counted_one : (at : At) → counted at ≤ fails at
    counted_one failing = omega arith
    counted_one asking = omega arith
    counted_one saw_open = omega arith
    counted_one probing = omega arith
    counted_one (answered reply) = omega arith
    counted_one succeeding = omega arith
    counted_one success_counted = omega arith
    counted_one closing = omega arith
    counted_one resetting = omega arith
    counted_one succeeded = omega arith
    counted_one failure_counted = omega arith
    counted_one failure_timed = omega arith
    counted_one saw_closed = omega arith
    counted_one not_tripped = omega arith
    counted_one opening = omega arith
    counted_one failed = omega arith

interleave-calm :
    (n : ℕ) (schedule : List (ℕ × ℕ)) (b : Breaker) (ats : List At)
    → IsQuiet n b
    → b.failure_count ≤ total counted ats
    → total fails ats < n
    → All (λ at. calm at ≡ true) ats
    → ((interleave schedule b ats).0.state ≡ closed)
      × All (λ at. calm at ≡ true) (interleave schedule b ats).1
unfolding interleave
interleave-calm n [] b ats v few room c = (v.shut, c)
interleave-calm n ((i, now) ∷ schedule) b ats v few room c =
    let (b', ats') = access_at i now b ats in
    let (k, c') = access_at-Kept n now i b ats v c in
    let counts = counted-le ats' in
    let quiet : IsQuiet n b' = record {
      shut = k.shut;
      threshold = k.threshold;
      below = omega (arith, k.fails, k.counts);
      in_range = v.in_range;
    } in
    interleave-calm n schedule b' ats' quiet (omega (arith, k.counts)) (omega (arith, k.fails)) c'

init-IsQuiet :
    (n : ℕ) (timeout_ms : ℤ)
    → 0 < n
    → n < 2 ^ 31
    → IsQuiet n (init (pos n) timeout_ms) × ((init (pos n) timeout_ms).failure_count ≡ 0)
unfolding init
init-IsQuiet n t positive small =
    (record { shut = refl; threshold = refl; below = positive; in_range = small }, refl)

-- Where a call starts.
abbrev pub begins : At → Bool
begins asking = true
begins succeeding = true
begins failing = true
begins _ = false

begins-calm : (at : At) → begins at ≡ true → calm at ≡ true
begins-calm at h = ground arith

-- Any number of threads make calls on a new breaker with threshold `n`, below 2^31, and fewer than
-- `n` of the calls record a failure. In whatever order their accesses mix, the breaker stays
-- closed, and no request is refused.
pub interleave-closed :
    (n : ℕ) (timeout_ms : ℤ) (schedule : List (ℕ × ℕ)) (ats : List At)
    → n < 2 ^ 31
    → total fails ats < n
    → All (λ at. begins at ≡ true) ats
    → ((interleave schedule (init (pos n) timeout_ms) ats).0.state ≡ closed)
      × All (λ at. at ≢ answered false) (interleave schedule (init (pos n) timeout_ms) ats).1
interleave-closed n t schedule ats small room start =
    let (quiet, zero_count) = init-IsQuiet n t (omega (arith, room)) small in
    let (shut, c) =
      interleave-calm n schedule (init (pos n) t) ats quiet (omega (arith, zero_count)) room
        (All-map begins-calm ats start) in
    (shut, All-map calm-allowed _ c)
  where
    calm-allowed : (at : At) → calm at ≡ true → at ≢ answered false
    calm-allowed at h e = absurd (ground (arith, h, e))
