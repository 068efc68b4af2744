-- ===== src/Cache/Nodes.antt =====
-- std::list<std::string>: a node is its text with its address, an iterator is an address.
use dist_cache.Prelude.{
  ℕ, suc, ◌≡◌, ◌≤◌, ◌<◌, refl, ap, ite, List, [], ◌∷◌, Option, none, some, arith, length, take,
  ℕ_discrete, ◌>>=◌,
}
use dist_cache.Text.{Text, text_dec}
use dist_cache.Dict.{find, erase, Distinct, erase_absent}

abbrev pub Node : Type 0
Node = Text × ℕ

-- `lru_.back()`, with `none` for an empty list.
unfoldable pub back {ℓ} : {A : Type ℓ} → List A → Option A
back [] = none
back (x ∷ []) = some x
back (x ∷ y ∷ l) = back (y ∷ l)

-- `lru_.pop_back()`
unfoldable pub pop_back {ℓ} : {A : Type ℓ} → List A → List A
pop_back [] = []
pop_back (x ∷ []) = []
pop_back (x ∷ y ∷ l) = x ∷ pop_back (y ∷ l)

-- `lru_.erase(it)`; `none` where no node has the address.
unfoldable pub erase_node : ℕ → List Node → Option (List Node)
erase_node it [] = none
erase_node it ((k, node) ∷ l) =
    ite (ℕ_discrete node it) (some l) (erase_node it l >>= λ rest. some ((k, node) ∷ rest))

-- Addresses fall along the list, and stay under the bound.
abbrev pub Below : ℕ → List Node → Type 0
Below n [] = Unit {0}
Below n ((k, node) ∷ l) = (node < n) × Below node l

pub Below-mono : (m n : ℕ) (l : List Node) → m ≤ n → Below m l → Below n l
Below-mono m n [] h b = tt
Below-mono m n ((k, node) ∷ l) h b = (omega arith, b.1)

pub erase-Below : (k : Text) (n : ℕ) (l : List Node) → Below n l → Below n (erase text_dec k l)
unfolding erase
erase-Below k n [] b = tt
erase-Below k n ((j, node) ∷ l) b =
    ground (arith, erase-Below k node l b.1, Below-mono node n (erase text_dec k l))

-- The address of a key in the list lies below the bound.
pub find-Below :
    (k : Text) (n : ℕ) (l : List Node) {node : ℕ}
    → Below n l
    → find text_dec k l ≡ some node
    → node < n
unfolding find
find-Below k n [] b h = cc
find-Below k n ((j, i) ∷ l) {node} b h = ground (arith, find-Below k i l {node = node})

-- The node that the map holds for a key is the key's node, and no other goes.
pub erase_node-find :
    (k : Text) (n : ℕ) (l : List Node) {node : ℕ}
    → Below n l
    → Distinct text_dec l
    → find text_dec k l ≡ some node
    → erase_node node l ≡ some (erase text_dec k l)
unfolding find erase erase_node
erase_node-find k n [] b d h = cc
erase_node-find k n ((j, i) ∷ l) {node} b d h = ground (
  arith,
  find-Below k i l {node = node},
  erase_absent text_dec k l,
  erase_node-find k i l {node = node},
)

module _ {ℓ} {A : Type ℓ} where
  pub take-pop_back : (n : ℕ) (l : List A) → n < length l → take n (pop_back l) ≡ take n l
  unfolding pop_back
  take-pop_back n [] h = absurd (omega arith)
  take-pop_back (suc n) (x ∷ []) h = absurd (omega arith)
  take-pop_back (suc n) (x ∷ y ∷ l) h = ap (◌∷◌ x) (take-pop_back n (y ∷ l) (omega arith))
  take-pop_back _ (x ∷ l) h = ground arith

pub back-cons : (x : Node) (l : List Node) → (y : Node) × (back (x ∷ l) ≡ some y)
unfolding back
back-cons x [] = (x, refl)
back-cons x (y ∷ l) = back-cons y l

-- The last node's key is found at the last node.
pub find-back :
    (l : List Node) {k : Text} {node : ℕ}
    → Distinct text_dec l
    → back l ≡ some (k, node)
    → find text_dec k l ≡ some node
unfolding find back
find-back [] d h = cc
find-back ((j, i) ∷ []) d h = ground arith
find-back ((j, i) ∷ y ∷ l) {k} {node} d h = ground (arith, find-back (y ∷ l) {k = k} {node = node})

-- Where no key has two nodes, dropping the last node is erasing its key.
pub pop_back-erase :
    (l : List Node) {k : Text} {node : ℕ}
    → Distinct text_dec l
    → back l ≡ some (k, node)
    → pop_back l ≡ erase text_dec k l
unfolding back pop_back erase
pop_back-erase [] d h = cc
pop_back-erase ((j, i) ∷ []) d h = ground arith
pop_back-erase ((j, i) ∷ y ∷ l) {k} {node} d h =
    ground
      (arith, find-back (y ∷ l) {k = k} {node = node}, pop_back-erase (y ∷ l) {k = k} {node = node})
