-- ===== src/Cache/View.antt =====
-- The abstract view of a cache: its entries in the order of `lru_`, the most recent first.
use dist_cache.Prelude.{ℕ, ◌≡◌, refl, List, [], ◌∷◌, none, some, true, arith, length}
use dist_cache.Text.{Text, text_dec}
use dist_cache.Dict.{find, insert, erase, contains, Distinct, find-insert, find-erase}
use dist_cache.Cache.Nodes.{Node, pop_back}
use dist_cache.Cache.{Entry, Cache}

-- The entries of the listed keys; a key with no entry is passed over.
unfoldable pub entries_of : List Node → List (Text × Entry) → List (Text × Entry)
entries_of [] m = []
entries_of ((k, node) ∷ l) m =
    let rest = entries_of l m in elim (find text_dec k m) [ none ↦ rest | some e ↦ (k, e) ∷ rest ]

unfoldable pub view : Cache → List (Text × Entry)
view c = entries_of c.lru c.cache

-- Every listed key has an entry.
abbrev pub Covers : List (Text × Entry) → List Node → Type 0
Covers m l = (k : Text) → contains text_dec k l ≡ true → contains text_dec k m ≡ true

Covers-head :
    (m : List (Text × Entry)) (k : Text) (node : ℕ) (l : List Node)
    → Covers m ((k, node) ∷ l)
    → (e : Entry) × (find text_dec k m ≡ some e)
unfolding contains find
Covers-head m k node l h = ground (arith, h k)

Covers-tail :
    (m : List (Text × Entry)) (k : Text) (node : ℕ) (l : List Node)
    → Covers m ((k, node) ∷ l)
    → Covers m l
unfolding contains find
Covers-tail m k node l h j p = ground (arith, h j)

pub find-entries_of :
    (k : Text) (l : List Node) (m : List (Text × Entry))
    → contains text_dec k l ≡ contains text_dec k m
    → find text_dec k (entries_of l m) ≡ find text_dec k m
unfolding entries_of contains find
find-entries_of k [] m h = ground arith
find-entries_of k ((j, node) ∷ l) m h = ground (arith, find-entries_of k l m)

-- Erasing a key from the list and from the map erases it from the view.
pub entries_of-erase :
    (k : Text) (l : List Node) (m : List (Text × Entry))
    → entries_of (erase text_dec k l) (erase text_dec k m) ≡ erase text_dec k (entries_of l m)
unfolding entries_of erase
entries_of-erase k [] m = refl
entries_of-erase k ((j, node) ∷ l) m =
    ground (arith, find-erase text_dec k j m, entries_of-erase k l m)

-- A new entry changes the view only at its key.
pub entries_of-insert :
    (k : Text) (e : Entry) (l : List Node) (m : List (Text × Entry))
    → entries_of (erase text_dec k l) (insert text_dec k e m) ≡ erase text_dec k (entries_of l m)
unfolding entries_of erase
entries_of-insert k e [] m = refl
entries_of-insert k e ((j, node) ∷ l) m =
    ground (arith, find-insert text_dec k j e m, entries_of-insert k e l m)

pub length-entries_of :
    (l : List Node) (m : List (Text × Entry)) → Covers m l → length (entries_of l m) ≡ length l
unfolding entries_of
length-entries_of [] m h = refl
length-entries_of ((k, node) ∷ l) m h =
    let (e, found) = Covers-head m k node l h in
    ground (arith, found, length-entries_of l m (Covers-tail m k node l h))

find-entries_of-none :
    (k : Text) (l : List Node) (m : List (Text × Entry))
    → find text_dec k l ≡ none
    → find text_dec k (entries_of l m) ≡ none
unfolding entries_of find
find-entries_of-none k [] m h = refl
find-entries_of-none k ((j, node) ∷ l) m h = ground (arith, find-entries_of-none k l m)

pub entries_of-Distinct :
    (l : List Node) (m : List (Text × Entry))
    → Distinct text_dec l
    → Distinct text_dec (entries_of l m)
unfolding entries_of
entries_of-Distinct [] m d = tt
entries_of-Distinct ((k, node) ∷ l) m d =
    ground (arith, find-entries_of-none k l m, entries_of-Distinct l m)

-- The last node of the list and the last entry of the view go together.
pub pop_back-entries_of :
    (l : List Node) (m : List (Text × Entry))
    → Covers m l
    → entries_of (pop_back l) m ≡ pop_back (entries_of l m)
unfolding entries_of pop_back
pop_back-entries_of [] m h = refl
pop_back-entries_of ((k, node) ∷ []) m h =
    let (e, found) = Covers-head m k node [] h in ground (arith, found)
pop_back-entries_of ((k, node) ∷ (j, i) ∷ l) m h =
    let (e, found) = Covers-head m k node ((j, i) ∷ l) h in
    let tail = Covers-tail m k node ((j, i) ∷ l) h in
    let (e', found') = Covers-head m j i l tail in
    ground (arith, found, found', pop_back-entries_of ((j, i) ∷ l) m tail)

-- A key that is not listed may be erased from the map.
pub entries_of-erase_unlisted :
    (k : Text) (l : List Node) (m : List (Text × Entry))
    → find text_dec k l ≡ none
    → entries_of l (erase text_dec k m) ≡ entries_of l m
unfolding entries_of find
entries_of-erase_unlisted k [] m h = refl
entries_of-erase_unlisted k ((j, node) ∷ l) m h =
    ground (arith, find-erase text_dec k j m, entries_of-erase_unlisted k l m)
