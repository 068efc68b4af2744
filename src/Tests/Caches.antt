-- ===== src/Tests/Caches.antt =====
-- LRUCache on inputs like those of tests/test_LRUCache.cpp.
use dist_cache.Cache.Bounds.{Fits, run-Fits}
use dist_cache.Prelude.{
  ◌+◌, ◌*◌, ◌/◌, ◌≡◌, refl, true, false, List, [], ◌∷◌, Option, none, some, arith,
}
use dist_cache.Prelude.Int.{pos, negsuc}
use dist_cache.Text.{text_dec, codes}
use dist_cache.Dict.{find, insert, erase, contains}
use dist_cache.Cache.Nodes.{back, pop_back, erase_node}
use dist_cache.Cache.Invariant.{IsValid}
use dist_cache.Cache.Spec.{Call, Reply, value, truth, done, contents, ideal_run}
use dist_cache.Cache.Run.{step, run, Refines, run-init}
use dist_cache.Cache.Order.{set-get}
use dist_cache.Cache.{
  Cache, init, get, hit_rate, evict_lru, evict_while, expiry, unlink, set, drop_key, del,
  exists_key, cleanup_expired, second,
}

program : Unit {0}
unfolding find insert erase contains back pop_back erase_node get evict_lru evict_while expiry
    unlink set drop_key del exists_key cleanup_expired init text_dec step run
program = tt

-- A capacity of two: "b" was set after "a", and "a" runs out at time 20.
abbrev two : Cache
two = record {
  cache =
      (codes "b", record { value = codes "2"; expire_time = 90; access_time = 2 })
      ∷ (codes "a", record { value = codes "1"; expire_time = 20; access_time = 1 })
      ∷ [];
  lru = (codes "b", 1) ∷ (codes "a", 0) ∷ [];
  lru_map = (codes "b", 1) ∷ (codes "a", 0) ∷ [];
  next_node = 2;
  capacity = 2;
  hits = 0;
  misses = 0;
}

two-IsValid : IsValid two
unfolding find text_dec contains
two-IsValid = record {
  coherent = record {
    addresses = (omega arith, (omega arith, tt));
    listed_once = (refl, (refl, tt));
    stored_once = (refl, (refl, tt));
    linked = λ k. refl;
    covered = λ k. ground arith;
    count = refl;
  };
  bounded = omega arith;
}

abbrev replies : Option (Cache × List Reply) → List Reply
replies none = []
replies (some (c, rs)) = rs

-- The order of eviction is that of the calls of `set`: the `get` of "a" does not save it.
abbrev calls : List Call
calls =
    Call.set (codes "a") (codes "1") (negsuc 0) 1
    ∷ Call.set (codes "b") (codes "2") (negsuc 0) 2
    ∷ Call.get (codes "a") 3 3
    ∷ Call.set (codes "c") (codes "3") (negsuc 0) 4
    ∷ Call.exists_key (codes "a") 5
    ∷ Call.exists_key (codes "b") 5
    ∷ []

eviction :
    replies (run (init 2) calls)
    ≡ done ∷ done ∷ value (some (codes "1")) ∷ done ∷ truth false ∷ truth true ∷ []
unfolding program
eviction = refl

-- A time to live of one second, as in TTLExpiration.
expiration :
    replies (
      run (init 5) (
        Call.set (codes "k") (codes "v") (pos 1) 0
        ∷ Call.exists_key (codes "k") second
        ∷ Call.exists_key (codes "k") (second + 1)
        ∷ []))
    ≡ done ∷ truth true ∷ truth false ∷ []
unfolding program
expiration = refl

rate : hit_rate (λ a b. a * 100 / b) 0 (record two { hits = 3; misses = 1 }) ≡ 75
unfolding hit_rate
rate = refl

run-init_example :
    (c : Cache) × (run (init 2) calls ≡ some (c, (ideal_run 2 [] calls).1))
    × Refines 2 c (ideal_run 2 [] calls).0
run-init_example = run-init 2 calls

set-get_example :
    (c₁ : Cache) × (c₂ : Cache) × (set
        (get two (codes "a") 3 3).0
        (codes "c")
        (codes "3")
        (negsuc 0)
        4
      ≡ some c₁)
    × (set two (codes "c") (codes "3") (negsuc 0) 4 ≡ some c₂)
    × (contents c₁ ≡ contents c₂)
set-get_example = set-get two (codes "a") (codes "c") (codes "3") (negsuc 0) 3 3 4 two-IsValid

abbrev timed_calls : List Call
timed_calls =
    Call.set (codes "a") (codes "1") (pos 2147483647) 4_611_686_018_427_387_903
    ∷ Call.get (codes "a") 5 6
    ∷ Call.set (codes "b") (codes "2") (negsuc 0) 9
    ∷ []

run-Fits_example :
    (c : Cache) × (rs : List Reply) × (run (init 2) timed_calls ≡ some (c, rs)) × Fits (contents c)
run-Fits_example =
    run-Fits 2 timed_calls ((omega arith, omega arith), (tt, ((omega arith, omega arith), tt)))
