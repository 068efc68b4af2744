-- ===== src/Bench/Workers.antt =====
-- `benchmark_concurrent_operations` of benchmark.cpp: threads that share a cache and a count.
use dist_cache.Prelude.{
  ℕ, zero, suc, ◌+◌, ◌*◌, ◌^◌, ◌<◌, ◌≡◌, refl, ap, sym, ◌∙◌, List, [], ◌∷◌, ◌++◌, Option, some,
  ◌>>=◌, arith, All,
}
use dist_cache.Text.{Text, codes}
use dist_cache.Text.Decimal.{to_string}
use dist_cache.Cache
use dist_cache.Cache.{Cache, Time}
use dist_cache.Cache.Spec.{Call, Ideal, ideal_step, ideal_run}
use dist_cache.Cache.Run.{step, Refines, init-Refines, step-Refines}
use dist_cache.Breaker.{increment, int_mod}
use dist_cache.Server.{default_ttl}

-- What `op_dist` draws, by the cases of the switch.
pub data Op : Type 0 where
  set_op get_op del_op : Op

pub record Draw : Type 0 where
  pub key_number : ℕ
  pub op : Op
  pub now : Time
  pub later : Time

abbrev pub worker_key : ℕ → ℕ → Text
worker_key thread_id n = codes "thread" ++ (to_string thread_id ++ (codes "_key" ++ to_string n))

-- The call that a round of the loop makes.
abbrev pub worker_call : ℕ → ℕ → Draw → Call
worker_call thread_id i d = elim d.op [
  | set_op ↦
      Call.set (worker_key thread_id d.key_number) (codes "value" ++ to_string i) default_ttl d.now
  | get_op ↦ Call.get (worker_key thread_id d.key_number) d.now d.later
  | del_op ↦ Call.del (worker_key thread_id d.key_number)
]

-- What a thread does to the shared objects: a call of the cache, which holds its lock, or the
-- atomic `total_ops++`.
pub data Access : Type 0 where
  touch : Call → Access
  count_op : Access

-- The accesses of one worker, from round `i` on.
unfoldable pub worker : ℕ → (ℕ → Draw) → ℕ → ℕ → List Access
worker thread_id draws zero i = []
worker thread_id draws (suc left) i =
    touch (worker_call thread_id i (draws i)) ∷ count_op ∷ worker thread_id draws left (suc i)

-- The workers of the threads from `thread_id` on; `draws t` is what thread `t` draws.
unfoldable pub workers : (ℕ → ℕ → Draw) → ℕ → ℕ → ℕ → List (List Access)
unfolding worker
workers draws ops_per_thread zero thread_id = []
workers draws ops_per_thread (suc left) thread_id =
    worker thread_id (draws thread_id) ops_per_thread 0
    ∷ workers draws ops_per_thread left (suc thread_id)

-- The threads that the benchmark starts.
unfoldable pub benchmark_threads : (ℕ → ℕ → Draw) → List (List Access)
unfolding workers
benchmark_threads draws = workers draws 25_000 8 0

unfoldable pub access : Cache × ℕ → Access → Option (Cache × ℕ)
access (c, total_ops) (touch call) = step c call >>= λ r. some (r.0, total_ops)
access (c, total_ops) count_op = some (c, increment total_ops)

unfoldable pub access_all : Cache × ℕ → List Access → Option (Cache × ℕ)
unfolding access
access_all s [] = some s
access_all s (a ∷ rest) = access s a >>= λ s'. access_all s' rest

-- An order in which the accesses of several threads can happen, until all threads are joined.
pub data Mix {A : Type 0} : List (List A) → List A → Type 0 where
  joined : {ts : List (List A)} → All (λ t. t ≡ []) ts → Mix ts []
  turn :
      (before : List (List A)) (x : A) (xs : List A) (after : List (List A)) {rest : List A}
      → Mix (before ++ xs ∷ after) rest
      → Mix (before ++ (x ∷ xs) ∷ after) (x ∷ rest)

abbrev pub calls_of : List Access → List Call
calls_of [] = []
calls_of (touch call ∷ rest) = call ∷ calls_of rest
calls_of (count_op ∷ rest) = calls_of rest

abbrev pub counts : List Access → ℕ
counts [] = 0
counts (touch call ∷ rest) = counts rest
counts (count_op ∷ rest) = suc (counts rest)

abbrev all_counts : List (List Access) → ℕ
all_counts [] = 0
all_counts (t ∷ ts) = counts t + all_counts ts

all_counts-append :
    (ts us : List (List Access)) → all_counts (ts ++ us) ≡ all_counts ts + all_counts us
all_counts-append [] us = omega arith
all_counts-append (t ∷ ts) us = omega (arith, all_counts-append ts us)

counts-cons : (a : Access) (rest : List Access) → counts (a ∷ rest) ≡ counts (a ∷ []) + counts rest
counts-cons (touch call) rest = omega arith
counts-cons count_op rest = omega arith

all_counts-nil : (ts : List (List Access)) → All (λ t. t ≡ []) ts → all_counts ts ≡ 0
all_counts-nil [] h = refl
all_counts-nil (t ∷ ts) h = rw h.0 (omega (arith, all_counts-nil ts h.1))

-- No order loses or adds an operation.
counts-Mix : {ts : List (List Access)} {s : List Access} → Mix ts s → counts s ≡ all_counts ts
counts-Mix {ts} (joined h) = sym (all_counts-nil ts h)
counts-Mix (turn before x xs after {rest} mix) = omega (
  arith,
  counts-Mix mix,
  counts-cons x rest,
  counts-cons x xs,
  all_counts-append before (xs ∷ after),
  all_counts-append before ((x ∷ xs) ∷ after),
)

counts-worker :
    (thread_id : ℕ) (draws : ℕ → Draw) (left i : ℕ) → counts (worker thread_id draws left i) ≡ left
unfolding worker
counts-worker thread_id draws zero i = refl
counts-worker thread_id draws (suc left) i = ap suc (counts-worker thread_id draws left (suc i))

all_counts-workers :
    (draws : ℕ → ℕ → Draw) (ops left thread_id : ℕ)
    → all_counts (workers draws ops left thread_id) ≡ left * ops
unfolding workers
all_counts-workers draws ops zero thread_id = omega arith
all_counts-workers draws ops (suc left) thread_id = grind (
  arith,
  counts-worker thread_id (draws thread_id) ops 0,
  all_counts-workers draws ops left (suc thread_id),
)

access_all-Refines :
    (bound : ℕ) (s : List Access) (c : Cache) (n m : ℕ) (l : Ideal)
    → Refines bound c l
    → n + counts s ≡ m
    → m < int_mod
    → (c' : Cache) × (access_all (c, n) s ≡ some (c', m))
      × Refines bound c' (ideal_run bound l (calls_of s)).0
unfolding access_all ideal_run
access_all-Refines bound [] c n m l r sum small =
    let same : n ≡ m = omega (arith, sum) in (c, ap (λ k. some (c, k)) same, r)
access_all-Refines bound (touch call ∷ s) c n m l r sum small =
    let (c₁, stepped, r₁) = step-Refines bound c l call r in
    let (c₂, ran, r₂) =
      access_all-Refines bound s c₁ n m (ideal_step bound l call).0 r₁ sum small in
    (c₂, rw stepped ran, r₂)
access_all-Refines bound (count_op ∷ s) c n m l r sum small =
    access_all-Refines bound s c (increment n) m l r (omega (arith, sum)) small

-- In whatever order the accesses of the threads mix, no call meets undefined behaviour or fails to
-- end, and when all threads are joined the count is the number of threads times the operations of
-- each. The cache is then what the ideal cache becomes by the same calls in the same order, and it
-- is valid. The number of operations is in the range of `int`.
pub workers-Refines :
    (capacity num_threads ops_per_thread : ℕ) (draws : ℕ → ℕ → Draw) (s : List Access)
    → Mix (workers draws ops_per_thread num_threads 0) s
    → num_threads * ops_per_thread < 2 ^ 31
    → (c : Cache) × (access_all (Cache.init capacity, 0) s ≡ some (c, num_threads * ops_per_thread))
      × Refines capacity c (ideal_run capacity [] (calls_of s)).0
workers-Refines capacity num_threads ops_per_thread draws s mix small =
    let total = counts-Mix mix ∙ all_counts-workers draws ops_per_thread num_threads 0 in
    access_all-Refines capacity s (Cache.init capacity) 0 (num_threads * ops_per_thread) []
      (init-Refines capacity) (omega (arith, total)) (omega arith)
