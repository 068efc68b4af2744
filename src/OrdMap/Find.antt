-- ===== src/OrdMap/Find.antt =====
-- What `find` meets after the other operations of a std::map.
use dist_cache.Prelude.{
  map_some, ◌≡◌, sym, ◌∙◌, refl, true, List, [], ◌∷◌, none, some, arith, All, map, if◌then◌else◌,
  Bool-cases, inl, inr,
}
use dist_cache.OrdMap.Compare.{Order}
use dist_cache.OrdMap.{equivalent, find, insert}

module _ {ℓ} {K : Type ℓ} (o : Order K) where
  pub equivalent-eq : (a b : K) → equivalent o a b ≡ true → a ≡ b
  equivalent-eq a b h = o.total a b (ground arith) (ground arith)

  pub equivalent_refl : (a : K) → equivalent o a a ≡ true
  equivalent_refl a = ground (arith, o.irrefl a)

  -- A key is not equivalent to two of which one is less.
  apart : (j i k : K) → o.less i k ≡ true → equivalent o j i ≡ true → equivalent o j k ≡ true → ⊥
  apart j i k h p q =
      let same : i ≡ k = sym (equivalent-eq j i p) ∙ equivalent-eq j k q in
      ground (arith, h, same, o.irrefl k)

module _ {ℓ} {K V : Type ℓ} (o : Order K) where
  pub find-insert :
      (j k : K) (v : V) (m : List (K × V))
      → find o j (insert o k v m) ≡ (if equivalent o j k then some v else find o j m)
  unfolding find insert
  find-insert j k v [] = refl
  find-insert j k v ((i, w) ∷ m) = elim (Bool-cases (o.less k i)) [
    | inl before ↦ rw before refl
    | inr late ↦ elim (Bool-cases (o.less i k)) [
      | inl after ↦ rw (late, after) (ground (arith, find-insert j k v m, apart o j i k after))
      | inr same ↦ rw (late, same) (ground (arith, o.total k i late same))
    ]
  ]

  -- A key in front of all others is not found behind them.
  pub find_beyond :
      (k : K) (m : List (K × V)) → All (λ e. o.less k e.0 ≡ true) m → find o k m ≡ none
  unfolding find
  find_beyond k [] h = refl
  find_beyond k ((j, v) ∷ m) h = ground (arith, h.0, find_beyond k m h.1)

  pub find-map :
      (f : K → V → V) (k : K) (m : List (K × V))
      → find o k (map (λ e. (e.0, f e.0 e.1)) m) ≡ map_some (f k) (find o k m)
  unfolding find
  find-map f k [] = refl
  find-map f k ((j, v) ∷ m) = elim (Bool-cases (equivalent o k j)) [
    | inl same ↦ ground (arith, same, equivalent-eq o k j same)
    | inr other ↦ ground (arith, other, find-map f k m)
  ]
