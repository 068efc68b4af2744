-- ===== src/Cache/Get.antt =====
-- `LRUCache::get` writes an access time and a counter; nothing else reads the access time.
use dist_cache.Prelude.{
  ℕ, ◌≡◌, refl, List, [], ◌∷◌, none, some, true, false, arith, inl, inr, Bool-cases, Option-cases,
  ltb, map, ◌+◌, ◌%◌,
}
use dist_cache.Text.{Text, text_dec}
use dist_cache.Dict.{find, insert, contains, find-insert, insert-Distinct, length-insert_old}
use dist_cache.Cache.View.{view, entries_of}
use dist_cache.Cache.Invariant.{IsCoherent, IsValid, find-view}
use dist_cache.Cache.Spec.{contents, item, keep_item, find-map, ideal_fresh, is_some}
use dist_cache.Cache.{Entry, Cache, Time, get, get_found, count_miss, exists_key, size_mod}

-- An entry with the same item in place of the old one does not show.
map-entries_of-insert :
    (k : Text) (e e' : Entry) (l : List (Text × ℕ)) (m : List (Text × Entry))
    → find text_dec k m ≡ some e
    → item e' ≡ item e
    → map keep_item (entries_of l (insert text_dec k e' m)) ≡ map keep_item (entries_of l m)
unfolding entries_of
map-entries_of-insert k e e' [] m h same = refl
map-entries_of-insert k e e' ((j, node) ∷ l) m h same =
    ground (arith, find-insert text_dec k j e' m, map-entries_of-insert k e e' l m)

count_miss-IsValid : (c : Cache) → IsValid c → IsValid (count_miss c)
count_miss-IsValid c v = record {
  coherent = record {
    addresses = v.coherent.addresses;
    listed_once = v.coherent.listed_once;
    stored_once = v.coherent.stored_once;
    linked = v.coherent.linked;
    covered = v.coherent.covered;
    count = v.coherent.count;
  };
  bounded = v.bounded;
}

module _ (c : Cache) (key : Text) (entry : Entry)
    (found : find text_dec key c.cache ≡ some entry) where
  touched-IsCoherent :
      (entry' : Entry) (hits : ℕ)
      → IsCoherent c
      → IsCoherent (record c { cache = insert text_dec key entry' c.cache; hits = hits })
  unfolding contains
  touched-IsCoherent entry' hits v = record {
    addresses = v.addresses;
    listed_once = v.listed_once;
    stored_once = insert-Distinct text_dec key entry' c.cache v.stored_once;
    linked = v.linked;
    covered = λ j. ground (arith, v.covered j, find-insert text_dec key j entry' c.cache, found);
    count = omega (arith, v.count, length-insert_old text_dec key entry' c.cache found);
  }

  get_found-IsValid : (now later : Time) → IsValid c → IsValid (get_found c key entry now later).0
  unfolding get_found
  get_found-IsValid now later v = elim (Bool-cases (ltb entry.expire_time now)) [
    | inl old ↦ rw old (count_miss-IsValid c v)
    | inr fresh ↦ rw fresh (record {
      coherent = touched-IsCoherent (record entry { access_time = later }) _ v.coherent;
      bounded = omega (
        arith,
        v.bounded,
        length-insert_old text_dec key (record entry { access_time = later }) c.cache found,
      );
    })
  ]

  get_found-contents :
      (now later : Time) → contents (get_found c key entry now later).0 ≡ contents c
  unfolding get_found contents view
  get_found-contents now later = elim (Bool-cases (ltb entry.expire_time now)) [
    | inl old ↦ rw old refl
    | inr fresh ↦ rw fresh (
        map-entries_of-insert key entry (record entry { access_time = later }) c.lru c.cache found
          refl)
  ]

-- A `get` keeps the cache valid, and changes nothing that the ideal cache shows: neither an entry
-- nor the order of eviction.
pub get-contents :
    (c : Cache) (key : Text) (now later : Time)
    → IsValid c
    → IsValid (get c key now later).0 × (contents (get c key now later).0 ≡ contents c)
unfolding get
get-contents c key now later v = elim (Option-cases (find text_dec key c.cache)) [
  | inl missing ↦ rw (missing, get) (count_miss-IsValid c v, unfold contents view in refl)
  | inr (entry, found) ↦
      rw (found, get)
        (
          get_found-IsValid c key entry found now later v,
          get_found-contents c key entry found now later,
        )
]

find-contents :
    (c : Cache) (key : Text)
    → IsCoherent c
    → find text_dec key (contents c)
      ≡ elim (find text_dec key c.cache) [ none ↦ none | some e ↦ some (item e) ]
unfolding contents
find-contents c key v = rw (find-map key (view c), find-view c key v)

-- The value that `get` returns is the ideal cache's.
pub get-reply :
    (c : Cache) (key : Text) (now later : Time)
    → IsCoherent c
    → (get c key now later).1 ≡ ideal_fresh now (find text_dec key (contents c))
unfolding get get_found
get-reply c key now later v = ground (arith, find-contents c key v)

pub exists_key-reply :
    (c : Cache) (key : Text) (now : Time)
    → IsCoherent c
    → exists_key c key now ≡ is_some (ideal_fresh now (find text_dec key (contents c)))
unfolding exists_key
exists_key-reply c key now v = ground (arith, find-contents c key v)

-- Of the two counters `get` raises exactly one: the hits where it returns a value, the misses where
-- it returns none. Both are taken modulo the range of `size_t`.
pub get-counters :
    (c : Cache) (key : Text) (now later : Time)
    → let (c', reply) = get c key now later in
      (is_some reply ≡ true → (c'.hits ≡ (c.hits + 1) % size_mod) × (c'.misses ≡ c.misses))
      × (is_some reply ≡ false → (c'.hits ≡ c.hits) × (c'.misses ≡ (c.misses + 1) % size_mod))
unfolding get get_found
get-counters c key now later = ground arith

pub get-capacity :
    (c : Cache) (key : Text) (now later : Time) → (get c key now later).0.capacity ≡ c.capacity
unfolding get get_found
get-capacity c key now later = ground arith
