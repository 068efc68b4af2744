-- ===== src/OrdMap/Laws.antt =====
-- Insertion into a std::map keeps the order of the keys.
use dist_cache.Prelude.{
  map, ◌≡◌, ◌≢◌, arith, Bool, true, List, [], ◌∷◌, All, All-map, keep_if, Bool-cases, inl, inr,
}
use mathlib.Core.Path.{subst}
use dist_cache.OrdMap.Compare.{Order}
use dist_cache.OrdMap.{insert, IsSorted}

module _ {ℓ} {K V : Type ℓ} (o : Order K) where
  pub insert-ne_nil : (k : K) (v : V) (m : List (K × V)) → insert o k v m ≢ []
  unfolding insert
  insert-ne_nil k v [] = λ e. cc
  insert-ne_nil k v ((j, w) ∷ m) = ground arith

  -- What holds of the new entry and of the old ones holds afterwards.
  pub insert-All {κ} :
      (P : K × V → Type κ) (k : K) (v : V) (m : List (K × V))
      → P (k, v)
      → All P m
      → All P (insert o k v m)
  unfolding insert
  insert-All P k v [] h a = (h, tt)
  insert-All P k v ((j, w) ∷ m) h a = elim (Bool-cases (o.less k j)) [
    | inl before ↦ rw before (h, a)
    | inr late ↦ elim (Bool-cases (o.less j k)) [
      | inl after ↦ rw (late, after) (a.0, insert-All P k v m h a.1)
      | inr same ↦ rw (late, same) (h, a.1)
    ]
  ]

  pub insert-IsSorted :
      (k : K) (v : V) (m : List (K × V)) → IsSorted o m → IsSorted o (insert o k v m)
  unfolding insert
  insert-IsSorted k v [] s = (tt, tt)
  insert-IsSorted k v ((j, w) ∷ m) s = elim (Bool-cases (o.less k j)) [
    | inl before ↦ rw before ((before, All-map (λ e p. o.trans k j e.0 before p) m s.0), s)
    | inr late ↦ elim (Bool-cases (o.less j k)) [
      | inl after ↦
          rw (late, after)
            (insert-All (λ e. o.less j e.0 ≡ true) k v m after s.0, insert-IsSorted k v m s.1)
      | inr same ↦
          rw (late, same)
            (subst (λ i. All (λ e. o.less i e.0 ≡ true) m) (o.total j k same late) s.0, s.1)
    ]
  ]

  pub All-keep_if {κ} :
      (P : K × V → Type κ) (p : K × V → Bool) (m : List (K × V)) → All P m → All P (keep_if p m)
  unfolding keep_if
  All-keep_if P p [] a = tt
  All-keep_if P p (e ∷ m) a = elim (Bool-cases (p e)) [
    | inl pass ↦ rw pass (a.0, All-keep_if P p m a.1)
    | inr fail ↦ rw fail (All-keep_if P p m a.1)
  ]

  -- So does the erasure of any entries.
  pub keep_if-IsSorted :
      (p : K × V → Bool) (m : List (K × V)) → IsSorted o m → IsSorted o (keep_if p m)
  unfolding keep_if
  keep_if-IsSorted p [] s = tt
  keep_if-IsSorted p (e ∷ m) s = elim (Bool-cases (p e)) [
    | inl pass ↦ rw pass (All-keep_if _ p m s.0, keep_if-IsSorted p m s.1)
    | inr fail ↦ rw fail (keep_if-IsSorted p m s.1)
  ]

  -- So does a change of the values.
  map-All {κ} :
      (P : K → Type κ) (f : K → V → V) (m : List (K × V))
      → All {A = K × V} (λ e. P e.0) m
      → All {A = K × V} (λ e. P e.0) (map (λ e. (e.0, f e.0 e.1)) m)
  map-All P f [] a = tt
  map-All P f (e ∷ m) a = (a.0, map-All P f m a.1)

  pub map-IsSorted :
      (f : K → V → V) (m : List (K × V)) → IsSorted o m → IsSorted o (map (λ e. (e.0, f e.0 e.1)) m)
  map-IsSorted f [] s = tt
  map-IsSorted f ((k, v) ∷ m) s = (map-All (λ j. o.less k j ≡ true) f m s.0, map-IsSorted f m s.1)
