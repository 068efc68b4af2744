-- ===== src/Dict.antt =====
-- std::unordered_map: its entries in the order of iteration, which the standard leaves open. Nothing
-- that is proved of a client rests on the place where `insert` puts a new entry.
use dist_cache.Prelude.{
  suc, ◌≡◌, refl, ite, List, [], ◌∷◌, Option, none, some, Bool, true, false, arith, length, map,
}

module _ {ℓ} {K V : Type ℓ} where
  abbrev pub keys : List (K × V) → List K
  keys = map (λ e. e.0)

module _ {ℓ} {K V : Type ℓ} (dec : Discrete K) where
  -- `m.find(k)`; `none` is `m.end()`.
  unfoldable pub find : K → List (K × V) → Option V
  find k [] = none
  find k ((j, v) ∷ m) = ite (dec j k) (some v) (find k m)

  -- `m[k] = v`.
  unfoldable pub insert : K → V → List (K × V) → List (K × V)
  insert k v [] = (k, v) ∷ []
  insert k v ((j, w) ∷ m) = ite (dec j k) ((k, v) ∷ m) ((j, w) ∷ insert k v m)

  -- `m.erase(k)`.
  unfoldable pub erase : K → List (K × V) → List (K × V)
  erase k [] = []
  erase k ((j, w) ∷ m) = let rest = erase k m in ite (dec j k) rest ((j, w) ∷ rest)

  -- `m.count(k)`, as a test.
  unfoldable pub contains : K → List (K × V) → Bool
  contains k m = elim (find k m) [ none ↦ false | some _ ↦ true ]

  -- No key has two entries.
  abbrev pub Distinct : List (K × V) → Type ℓ
  Distinct [] = Unit
  Distinct ((k, v) ∷ m) = (find k m ≡ none) × Distinct m

  pub find-insert :
      (k j : K) (v : V) (m : List (K × V))
      → find j (insert k v m) ≡ ite (dec k j) (some v) (find j m)
  unfolding find insert
  find-insert k j v [] = refl
  find-insert k j v ((i, w) ∷ m) = ground (arith, find-insert k j v m)

  pub find-erase : (k j : K) (m : List (K × V)) → find j (erase k m) ≡ ite (dec k j) none (find j m)
  unfolding find erase
  find-erase k j [] = ground arith
  find-erase k j ((i, w) ∷ m) = ground (arith, find-erase k j m)

  pub insert-Distinct : (k : K) (v : V) (m : List (K × V)) → Distinct m → Distinct (insert k v m)
  unfolding find insert
  insert-Distinct k v [] h = (refl, tt)
  insert-Distinct k v ((i, w) ∷ m) h = ground (arith, find-insert k i v m, insert-Distinct k v m)

  pub erase-Distinct : (k : K) (m : List (K × V)) → Distinct m → Distinct (erase k m)
  unfolding erase
  erase-Distinct k [] h = tt
  erase-Distinct k ((i, w) ∷ m) h = ground (arith, find-erase k i m, erase-Distinct k m)

  pub erase_absent : (k : K) (m : List (K × V)) → find k m ≡ none → erase k m ≡ m
  unfolding find erase
  erase_absent k [] h = refl
  erase_absent k ((i, w) ∷ m) h = ground (arith, erase_absent k m)

  pub length-erase :
      (k : K) (m : List (K × V)) {v : V}
      → Distinct m
      → find k m ≡ some v
      → suc (length (erase k m)) ≡ length m
  unfolding find erase
  length-erase k [] d h = cc
  length-erase k ((i, w) ∷ m) {v} d h = ground (arith, length-erase k m {v = v}, erase_absent k m)

  pub length-insert_new :
      (k : K) (v : V) (m : List (K × V)) → find k m ≡ none → length (insert k v m) ≡ suc (length m)
  unfolding find insert
  length-insert_new k v [] h = refl
  length-insert_new k v ((i, w) ∷ m) h = ground (arith, length-insert_new k v m)

  pub length-insert_old :
      (k : K) (v : V) (m : List (K × V)) {w : V}
      → find k m ≡ some w
      → length (insert k v m) ≡ length m
  unfolding find insert
  length-insert_old k v [] h = cc
  length-insert_old k v ((i, u) ∷ m) {w} h = ground (arith, length-insert_old k v m {w = w})

  pub contains-find :
      (k : K) (m : List (K × V)) → contains k m ≡ true → (v : V) × (find k m ≡ some v)
  unfolding contains
  contains-find k m h = ground arith

  pub contains-none : (k : K) (m : List (K × V)) → contains k m ≡ false → find k m ≡ none
  unfolding contains
  contains-none k m h = ground arith

module _ {ℓ} {K V W : Type ℓ} (dec : Discrete K) (f : V → W) where
  -- A change of the values commutes with an erasure.
  pub map-erase :
      (k : K) (m : List (K × V))
      → map (λ e. (e.0, f e.1)) (erase dec k m) ≡ erase dec k (map (λ e. (e.0, f e.1)) m)
  unfolding erase
  map-erase k [] = refl
  map-erase k ((j, v) ∷ m) = ground (arith, map-erase k m)
