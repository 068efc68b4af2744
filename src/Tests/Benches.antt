-- ===== src/Tests/Benches.antt =====
-- The benchmarks of benchmark.cpp on small inputs, and what they show.
use dist_cache.Prelude.{ℕ, ◌+◌, ◌*◌, ◌≡◌, refl, List, [], ◌∷◌, some, arith}
use dist_cache.Text.{codes}
use dist_cache.Text.Decimal.{to_string}
use dist_cache.Cache
use dist_cache.Cache.{Cache, Time}
use dist_cache.Cache.Spec.{ideal_run}
use dist_cache.Cache.Run.{Refines}
use dist_cache.Bench.{benchmark_report}
use dist_cache.Bench.Caching.{Read}
use dist_cache.Bench.Workers.{
  set_op, Draw, workers, access_all, Access, touch, count_op, Mix, joined, turn, worker_call,
  calls_of, workers-Refines,
}

abbrev clock : ℕ → Time
clock i = 10 + i

abbrev reads : ℕ → Read
reads i = record { drawn = 77; now = 100; later = 101 }

-- Two threads of one operation each: the first sets, the second gets, and they count in the other
-- order.
abbrev draws : ℕ → ℕ → Draw
draws t i = record { key_number = 4; op = set_op; now = 5; later = 6 }

abbrev first_call : Access
first_call = touch (worker_call 0 0 (draws 0 0))

abbrev second_call : Access
second_call = touch (worker_call 1 0 (draws 1 0))

abbrev order : List Access
order = first_call ∷ second_call ∷ count_op ∷ count_op ∷ []

order-Mix : Mix (workers draws 1 2 0) order
unfolding workers
order-Mix = turn [] first_call (count_op ∷ []) ((second_call ∷ count_op ∷ []) ∷ []) (
    turn ((count_op ∷ []) ∷ []) second_call (count_op ∷ []) [] (
      turn ((count_op ∷ []) ∷ []) count_op [] []
        (turn [] count_op [] ([] ∷ []) (joined (refl, (refl, tt))))))

workers-Refines_example :
    (c : Cache) × (access_all (Cache.init 3, 0) order ≡ some (c, 2 * 1))
    × Refines 3 c (ideal_run 3 [] (calls_of order)).0
workers-Refines_example = workers-Refines 3 2 1 draws order order-Mix (omega arith)

report : benchmark_report (◌+◌) 0 11 ≡ codes "{\"latency\":5.5,\"requests\":1}"
unfolding benchmark_report to_string
report = refl
