-- ===== src/Ring/Successor.antt =====
-- `HashRing::get_node` answers the owner of the key's successor on the circle of hashes.
use Prim.Native.Nat.{bit_xor}
use dist_cache.Prelude.{
  ℕ, zero, suc, ◌*◌, ◌%◌, ◌≡◌, ◌≢◌, ◌≤◌, ◌<◌, refl, ◌⊎◌, inl, inr, [], ◌∷◌, some, arith, All,
  All-map, ltb, Bool-cases,
}
use dist_cache.Text.{Text}
use dist_cache.OrdMap.{lower_bound, find, IsSorted}
use dist_cache.OrdMap.Compare.{nat_order}
use dist_cache.OrdMap.Laws.{insert-IsSorted, keep_if-IsSorted}
use dist_cache.Ring.{
  RingMap, is_other, remove_node, owner, get_node, hash, hash_from, add_node, add_virtual,
  virtual_nodes, char_to_u32, u32_mod,
}

abbrev pub Sorted : RingMap → Type 0
Sorted = IsSorted nat_order

-- The first position at or behind `h`, or that there is none.
bound-cases :
    (h : ℕ) (ring : RingMap)
    → Sorted ring
    → ((lower_bound nat_order h ring ≡ []) × All (λ e. e.0 < h) ring)
      ⊎ ((x : ℕ × Text) × (rest : RingMap) × (lower_bound nat_order h ring ≡ x ∷ rest)
          × (h ≤ x.0)
          × All (λ e. (e.0 < h) ⊎ (x.0 ≤ e.0)) ring
          × (find nat_order x.0 ring ≡ some x.1))
unfolding lower_bound find
bound-cases h [] s = inl (refl, tt)
bound-cases h ((p, n) ∷ ring) s = elim (Bool-cases (ltb p h)) [
  | inr here ↦ inr (
    (p, n),
    ring,
    rw here refl,
    ground arith,
    (inr (omega arith), All-map (λ e q. inr (ground arith)) ring s.0),
    ground arith,
  )
  | inl before ↦ elim (bound-cases h ring s.1) [
    | inl (past, below) ↦ inl (rw before past, (ground arith, below))
    | inr (x, rest, found, at_least, nearest, held) ↦
        inr
          (x, rest, rw before found, at_least, (inl (ground arith), nearest), ground (arith, held))
  ]
]

-- `p` is the position that follows `h` on the circle: the least position that is not below `h`, or,
-- where all are below, the least of all.
abbrev pub Follows : ℕ → ℕ → RingMap → Type 0
Follows h p ring =
    ((h ≤ p) × All (λ e. (e.0 < h) ⊎ (p ≤ e.0)) ring)
    ⊎ (All (λ e. e.0 < h) ring × All (λ e. p ≤ e.0) ring)

-- On a ring that is sorted and not empty the answer is the node at the position that follows the
-- key's hash.
pub get_node-Follows :
    (ring : RingMap) (key : Text)
    → Sorted ring
    → ring ≢ []
    → (p : ℕ) × (find nat_order p ring ≡ some (get_node ring key)) × Follows (hash key) p ring
unfolding get_node owner
get_node-Follows [] key s some_entry = absurd (some_entry refl)
get_node-Follows ((p, n) ∷ ring) key s some_entry =
    elim (bound-cases (hash key) ((p, n) ∷ ring) s) [
      | inl (past, below) ↦ (
        p,
        unfold find in ground (arith, past),
        inr (below, (omega arith, All-map (λ e q. ground arith) ring s.0)),
      )
      | inr (x, rest, found, at_least, nearest, held) ↦
          (x.0, ground (arith, found, held), inl (at_least, nearest))
    ]

add_virtual-Sorted :
    (left : ℕ) (n : Text) (ring : RingMap) → Sorted ring → Sorted (add_virtual left n ring)
unfolding add_virtual
add_virtual-Sorted zero n ring s = s
add_virtual-Sorted (suc left) n ring s =
    add_virtual-Sorted left n _ (insert-IsSorted nat_order _ n ring s)

-- Both changes of the ring keep it sorted.
pub ring-Sorted :
    (ring : RingMap) (node : Text)
    → Sorted ring
    → Sorted (add_node ring node) × Sorted (remove_node ring node)
unfolding add_node remove_node
ring-Sorted ring node s = (
  add_virtual-Sorted virtual_nodes node ring s,
  keep_if-IsSorted nat_order (is_other node) ring s,
)

hash_from-lt : (h : ℕ) (t : Text) → h < u32_mod → hash_from h t < u32_mod
unfolding hash_from
hash_from-lt h [] b = b
hash_from-lt h (c ∷ cs) b =
    hash_from-lt ((bit_xor h (char_to_u32 c) * 16777619) % u32_mod) cs (omega arith)

-- Every hash is a `uint32_t`.
pub hash-lt : (t : Text) → hash t < u32_mod
unfolding hash
hash-lt t = hash_from-lt 2166136261 t (omega arith)
