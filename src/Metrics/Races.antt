-- ===== src/Metrics/Races.antt =====
-- `record_latency` of MetricsCollector.h, called by two threads at once: its three atomic accesses
-- are the steps, and the threads' steps mix in any order.
use dist_cache.Prelude.{ℕ, ◌≡◌, ◌==◌, refl, List, [], ◌∷◌, ◌++◌, map, arith, All, if◌then◌else◌}
use dist_cache.Breaker.{increment}
use dist_cache.Metrics.{Metrics, record_latency}

-- One access by a thread: to load the total, to store the loaded value with `ms` added, or to
-- count the request.
pub data Access (D : Type 0) : Type 0 where
  load : ℕ → Access D
  store : ℕ → D → Access D
  count : Access D

-- The metrics, and what each thread has in `old_val`.
pub record Machine (D : Type 0) : Type 0 where
  pub metrics : Metrics D
  pub old_val : ℕ → D

unfoldable pub access : {D : Type 0} → (D → D → D) → Machine D → Access D → Machine D
access add s (load t) = record s {
  old_val = λ u. if u == t then s.metrics.total_latency else s.old_val u;
}
access add s (store t ms) = record s {
  metrics = record s.metrics { total_latency = add (s.old_val t) ms };
}
access add s count = record s {
  metrics = record s.metrics { request_count = increment s.metrics.request_count };
}

unfoldable pub access_all : {D : Type 0} → (D → D → D) → Machine D → List (Access D) → Machine D
access_all add s [] = s
access_all add s (a ∷ as_) = access_all add (access add s a) as_

abbrev pub latency_accesses : {D : Type 0} → ℕ → D → List (Access D)
latency_accesses t ms = load t ∷ store t ms ∷ count ∷ []

-- All orders in which two lists can mix.
unfoldable pub mixes : {A : Type 0} → List A → List A → List (List A)
mixes [] ys = ys ∷ []
mixes (x ∷ xs) [] = (x ∷ xs) ∷ []
mixes (x ∷ xs) (y ∷ ys) = map (◌∷◌ x) (mixes xs (y ∷ ys)) ++ map (◌∷◌ y) (mixes (x ∷ xs) ys)

-- A thread that is not disturbed does what `record_latency` says.
pub access_all-alone :
    {D : Type 0} (add : D → D → D) (s : Machine D) (t : ℕ) (ms : D)
    → (access_all add s (latency_accesses t ms)).metrics ≡ record_latency add ms s.metrics
unfolding access_all access record_latency
access_all-alone add s t ms = ground arith

-- What two calls that overlap leave: both latencies in either order, or one of the two alone; the
-- count of the requests has both.
pub data Outcome {D : Type 0} (add : D → D → D) (m : Metrics D) (x y : D) (m' : Metrics D)
    : Type 0 where
  in_order : m' ≡ record_latency add y (record_latency add x m) → Outcome add m x y m'
  swapped : m' ≡ record_latency add x (record_latency add y m) → Outcome add m x y m'
  first_lost :
      m' ≡ record (record_latency add y (record_latency add x m)) {
        total_latency = add m.total_latency y;
      }
      → Outcome add m x y m'
  second_lost :
      m' ≡ record (record_latency add y (record_latency add x m)) {
        total_latency = add m.total_latency x;
      }
      → Outcome add m x y m'

-- Whatever the order of their accesses, two calls of `record_latency` at once leave one of the four
-- outcomes: an update of the total may be lost, but no request goes uncounted.
pub mixes-Outcome :
    {D : Type 0} (add : D → D → D) (s : Machine D) (x y : D)
    → All
        (λ order. Outcome add s.metrics x y (access_all add s order).metrics)
        (mixes (latency_accesses 1 x) (latency_accesses 2 y))
unfolding mixes access_all access record_latency
mixes-Outcome add s x y = (
  in_order refl,
  (
    in_order refl,
    (
      in_order refl,
      (
        in_order refl,
        (
          first_lost refl,
          (
            first_lost refl,
            (
              first_lost refl,
              (
                second_lost refl,
                (
                  second_lost refl,
                  (
                    second_lost refl,
                    (
                      first_lost refl,
                      (
                        first_lost refl,
                        (
                          first_lost refl,
                          (
                            second_lost refl,
                            (
                              second_lost refl,
                              (
                                second_lost refl,
                                (swapped refl, (swapped refl, (swapped refl, (swapped refl, tt)))),
                              ),
                            ),
                          ),
                        ),
                      ),
                    ),
                  ),
                ),
              ),
            ),
          ),
        ),
      ),
    ),
  ),
)
