-- ===== src/OrdMap.antt =====
-- std::map: its entries in ascending order of the keys. An iterator is the part of the map from its
-- place on, and `[]` is `end()`.
pub mod Compare
pub mod Laws
pub mod Find
use dist_cache.Prelude.{
  ◌≡◌, refl, ap, Bool, true, false, not, ◌&&◌, List, [], ◌∷◌, Option, none, some, arith, All,
  if◌then◌else◌, Bool-cases, inl, inr,
}
use Compare.{Order}

-- Two keys of which neither is less are the same key.
abbrev pub equivalent {ℓ} : {K : Type ℓ} → Order K → K → K → Bool
equivalent o a b = not (o.less a b) && not (o.less b a)

module _ {ℓ} {K V : Type ℓ} (o : Order K) where
  -- `m.find(k)`
  unfoldable pub find : K → List (K × V) → Option V
  find k [] = none
  find k ((j, v) ∷ m) = if equivalent o k j then some v else find k m

  -- `m[k] = v`
  unfoldable pub insert : K → V → List (K × V) → List (K × V)
  insert k v [] = (k, v) ∷ []
  insert k v ((j, w) ∷ m) =
      let later = (j, w) ∷ insert k v m in
      if o.less k j then (k, v) ∷ (j, w) ∷ m else if o.less j k then later else (k, v) ∷ m

  -- `m.lower_bound(k)`: from the first key that is not less.
  unfoldable pub lower_bound : K → List (K × V) → List (K × V)
  lower_bound k [] = []
  lower_bound k ((j, v) ∷ m) = let rest = lower_bound k m in if o.less j k then rest else (j, v) ∷ m

  -- The keys ascend, so that no key stands twice.
  abbrev pub IsSorted : List (K × V) → Type ℓ
  IsSorted [] = Unit
  IsSorted ((k, v) ∷ m) = All (λ e. o.less k e.0 ≡ true) m × IsSorted m
