-- ===== src/Bench/Spread.antt =====
-- `benchmark_hash_ring_distribution` of benchmark.cpp: how many keys each node gets.
use dist_cache.Prelude.{
  ℕ, zero, suc, ◌+◌, ◌<◌, ◌≡◌, ◌≢◌, refl, List, [], ◌∷◌, ◌++◌, true, arith, All, All-map, inl, inr,
  Bool-cases,
}
use dist_cache.Text.{Text, codes}
use dist_cache.Text.Decimal.{to_string}
use dist_cache.Text.Order.{text_order}
use dist_cache.OrdMap.{find, insert, IsSorted}
use dist_cache.OrdMap.Laws.{insert-IsSorted, insert-All, insert-ne_nil}
use dist_cache.OrdMap.Compare.{nat_order}
use dist_cache.OrdMap.Find.{find_beyond}
use dist_cache.Breaker.{increment, int_mod}
use dist_cache.Metrics.{count_of}
use dist_cache.Ring.{RingMap, add_virtual, add_node, get_node, listed, get_all_nodes}
use dist_cache.Ring.Removal.{listed-get_node}

unfoldable pub bench_ring : RingMap
unfolding add_node
bench_ring =
    add_node (add_node (add_node (add_node [] (codes "node-1")) (codes "node-2")) (codes "node-3"))
      (codes "node-4")

abbrev pub ring_key : ℕ → Text
ring_key i = codes "benchmark_key_" ++ to_string i

-- `std::map<std::string, int>`
abbrev pub Distribution : Type 0
Distribution = List (Text × ℕ)

-- `distribution[node]++`
unfoldable pub count_node : Text → Distribution → Distribution
count_node node d = insert text_order node (increment (count_of (find text_order node d))) d

unfoldable pub lookup_loop : RingMap → ℕ → ℕ → Distribution → Distribution
unfolding count_node
lookup_loop ring zero i d = d
lookup_loop ring (suc left) i d =
    lookup_loop ring left (suc i) (count_node (get_node ring (ring_key i)) d)

unfoldable pub benchmark_hash_ring_distribution : Distribution
unfolding bench_ring lookup_loop
benchmark_hash_ring_distribution = lookup_loop bench_ring 100_000 0 []

abbrev pub total : Distribution → ℕ
total [] = 0
total ((node, count) ∷ d) = count + total d

total-count_node :
    (node : Text) (d : Distribution)
    → IsSorted text_order d
    → total d + 1 < int_mod
    → total (count_node node d) ≡ total d + 1
unfolding count_node insert find
total-count_node node [] s small = refl
total-count_node node ((j, n) ∷ d) s small = elim (Bool-cases (text_order.less node j)) [
  | inl before ↦
      let beyond =
        find_beyond text_order node d
          (All-map (λ e p. text_order.trans node j e.0 before p) d s.0) in
      ground (arith, before, beyond)
  | inr late ↦ elim (Bool-cases (text_order.less j node)) [
    | inl after ↦ ground (arith, late, after, total-count_node node d s.1 (omega arith))
    | inr same ↦ ground (arith, late, same)
  ]
]

-- The counts so far: in ascending order of the nodes, each of which the ring lists.
record IsTally (ring : RingMap) (n : ℕ) (d : Distribution) : Type 0 where
  pub sorted : IsSorted text_order d
  pub nodes : All (λ e. listed e.0 (get_all_nodes ring) ≡ true) d
  pub sum : total d ≡ n

count_node-IsTally :
    (ring : RingMap) (n : ℕ) (key : Text) (d : Distribution)
    → ring ≢ []
    → n + 1 < int_mod
    → IsTally ring n d
    → IsTally ring (n + 1) (count_node (get_node ring key) d)
unfolding count_node
count_node-IsTally ring n key d some_node small t =
    let node = get_node ring key in
    record {
      sorted = insert-IsSorted text_order node _ d t.sorted;
      nodes =
          insert-All text_order (λ e. listed e.0 (get_all_nodes ring) ≡ true) node _ d
            (listed-get_node ring key some_node) t.nodes;
      sum =
          unfold count_node in
          omega (arith, total-count_node node d t.sorted (omega (arith, t.sum)), t.sum);
    }

lookup_loop-IsTally :
    (ring : RingMap) (left i n : ℕ) (d : Distribution)
    → ring ≢ []
    → n + left < int_mod
    → IsTally ring n d
    → IsTally ring (n + left) (lookup_loop ring left i d)
unfolding lookup_loop
lookup_loop-IsTally ring zero i n d some_node small t = record {
  sorted = t.sorted;
  nodes = t.nodes;
  sum = omega (arith, t.sum);
}
lookup_loop-IsTally ring (suc left) i n d some_node small t =
    let u =
      lookup_loop-IsTally ring left (suc i) (n + 1) _ some_node (omega arith)
        (count_node-IsTally ring n (ring_key i) d some_node (omega arith) t) in
    record { sorted = u.sorted; nodes = u.nodes; sum = omega (arith, u.sum) }

-- Whatever nodes the ring has, if it has one, and however many keys are looked up, below 2^32, each
-- key is counted for exactly one node that the ring lists, so that the counts add up to the keys.
pub lookup_loop-total :
    (ring : RingMap) (num_keys : ℕ)
    → ring ≢ []
    → num_keys < int_mod
    → (total (lookup_loop ring num_keys 0 []) ≡ num_keys)
      × All (λ e. listed e.0 (get_all_nodes ring) ≡ true) (lookup_loop ring num_keys 0 [])
lookup_loop-total ring num_keys some_node small =
    let t =
      lookup_loop-IsTally ring num_keys 0 0 [] some_node (omega arith)
        (record { sorted = tt; nodes = tt; sum = refl }) in
    (omega (arith, t.sum), t.nodes)

add_virtual-ne_nil :
    (left : ℕ) (node : Text) (ring : RingMap) → ring ≢ [] → add_virtual left node ring ≢ []
unfolding add_virtual
add_virtual-ne_nil zero node ring some_node = some_node
add_virtual-ne_nil (suc left) node ring some_node =
    add_virtual-ne_nil left node _ (insert-ne_nil nat_order _ node ring)

add_node-ne_nil : (node : Text) (ring : RingMap) → add_node ring node ≢ []
unfolding add_node add_virtual
add_node-ne_nil node ring = add_virtual-ne_nil 2 node _ (insert-ne_nil nat_order _ node ring)

pub bench_ring-ne_nil : bench_ring ≢ []
unfolding bench_ring
bench_ring-ne_nil = add_node-ne_nil (codes "node-4") _

-- So the four percentages of the benchmark are of all its keys.
pub benchmark_hash_ring_distribution-total : total benchmark_hash_ring_distribution ≡ 100_000
unfolding benchmark_hash_ring_distribution
benchmark_hash_ring_distribution-total =
    (lookup_loop-total bench_ring 100_000 bench_ring-ne_nil (omega arith)).0
