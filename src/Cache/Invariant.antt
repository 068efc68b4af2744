-- ===== src/Cache/Invariant.antt =====
-- What the three containers of LRUCache.cpp have to do with one another, and the erasure of a key.
use dist_cache.Prelude.{◌≡◌, ◌≤◌, some, true, arith, length, sym, ◌∙◌, inl, inr, Bool-cases}
use dist_cache.Text.{Text, text_dec}
use dist_cache.Dict.{
  find, erase, contains, Distinct, find-erase, erase-Distinct, length-erase, erase_absent,
  contains-find, contains-none,
}
use dist_cache.Cache.Nodes.{Below, erase-Below, erase_node-find}
use dist_cache.Cache.View.{view, entries_of-erase, find-entries_of}
use dist_cache.Cache.{Cache, unlink, drop_key}

-- Each key of the cache has one entry and one node, and the iterator kept for it points to that
-- node.
pub record IsCoherent (c : Cache) : Type 0 where
  pub addresses : Below c.next_node c.lru
  pub listed_once : Distinct text_dec c.lru
  pub stored_once : Distinct text_dec c.cache
  pub linked : (k : Text) → find text_dec k c.lru_map ≡ find text_dec k c.lru
  pub covered : (k : Text) → contains text_dec k c.lru ≡ contains text_dec k c.cache
  pub count : length c.lru ≡ length c.cache

pub record IsValid (c : Cache) : Type 0 where
  pub coherent : IsCoherent c
  pub bounded : length c.cache ≤ c.capacity

-- The cache without a key.
unfoldable pub without : Cache → Text → Cache
without c k = record c {
  lru = erase text_dec k c.lru;
  lru_map = erase text_dec k c.lru_map;
  cache = erase text_dec k c.cache;
}

module _ (c : Cache) (k : Text) (v : IsCoherent c) where
  pub unlink-erase :
      contains text_dec k c.lru_map ≡ true
      → unlink c k ≡ some (record c { lru = erase text_dec k c.lru })
  unfolding unlink
  unlink-erase h =
      let (node, held) = contains-find text_dec k c.lru_map h in
      let listed = sym (v.linked k) ∙ held in
      ground (arith, held, erase_node-find k c.next_node c.lru v.addresses v.listed_once listed)

  pub drop_key-without : contains text_dec k c.cache ≡ true → drop_key c k ≡ some (without c k)
  unfolding drop_key without contains
  drop_key-without h = ground (arith, unlink-erase, v.linked k, v.covered k)

  without-length : length (erase text_dec k c.lru) ≡ length (erase text_dec k c.cache)
  without-length = elim (Bool-cases (contains text_dec k c.cache)) [
    | inl held ↦
        let (e, stored) = contains-find text_dec k c.cache held in
        let (node, listed) = contains-find text_dec k c.lru (v.covered k ∙ held) in
        omega (
          arith,
          v.count,
          length-erase text_dec k c.cache v.stored_once stored,
          length-erase text_dec k c.lru v.listed_once listed,
        )
    | inr absent ↦
        rw
          (
            erase_absent text_dec k c.cache (contains-none text_dec k c.cache absent),
            erase_absent text_dec k c.lru (contains-none text_dec k c.lru (v.covered k ∙ absent)),
          )
          v.count
  ]

  pub without-IsCoherent : IsCoherent (without c k)
  unfolding without contains
  without-IsCoherent = record {
    addresses = erase-Below k c.next_node c.lru v.addresses;
    listed_once = erase-Distinct text_dec k c.lru v.listed_once;
    stored_once = erase-Distinct text_dec k c.cache v.stored_once;
    linked = λ j.
        ground
          (arith, find-erase text_dec k j c.lru_map, find-erase text_dec k j c.lru, v.linked j);
    covered = λ j.
        ground (arith, find-erase text_dec k j c.lru, find-erase text_dec k j c.cache, v.covered j);
    count = without-length;
  }

  pub view-without : view (without c k) ≡ erase text_dec k (view c)
  unfolding view without
  view-without = entries_of-erase k c.lru c.cache

  -- The view holds the same entry for a key as the map.
  pub find-view : find text_dec k (view c) ≡ find text_dec k c.cache
  unfolding view
  find-view = find-entries_of k c.lru c.cache (v.covered k)
