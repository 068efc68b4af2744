-- ===== src/Cache/Set.antt =====
-- `LRUCache::set` against the abstract view.
use dist_cache.Prelude.{
  suc, ◌≡◌, ap, ◌∷◌, some, arith, length, sym, ◌∙◌, inl, inr, Bool-cases, take, if◌then◌else◌,
}
use dist_cache.Prelude.Int.{ℤ}
use dist_cache.Text.{Text, text_dec}
use dist_cache.Dict.{
  find, erase, insert, contains, contains-find, contains-none, find-erase, find-insert,
  erase_absent, erase-Distinct, insert-Distinct, length-erase, length-insert_new, length-insert_old,
}
use dist_cache.Cache.Nodes.{erase-Below}
use dist_cache.Cache.View.{view, entries_of, entries_of-insert}
use dist_cache.Cache.Invariant.{IsCoherent, IsValid, unlink-erase}
use dist_cache.Cache.Evict.{evict_while-Settles}
use dist_cache.Cache.{Entry, Cache, Time, store, set, unlink, new_entry}

module _ (c : Cache) (k : Text) (v : IsCoherent c) where
  abbrev unlinked : Cache
  unlinked = record c { lru = erase text_dec k c.lru }

  -- Whether or not the key was listed, its node is gone before the new one comes.
  maybe_unlink : (if contains text_dec k c.lru_map then unlink c k else some c) ≡ some unlinked
  maybe_unlink = elim (Bool-cases (contains text_dec k c.lru_map)) [
    | inl held ↦ rw held (unlink-erase c k v held)
    | inr absent ↦
        let missing = sym (v.linked k) ∙ contains-none text_dec k c.lru_map absent in
        rw absent
          (ap (λ l. some (record c { lru = l })) (sym (erase_absent text_dec k c.lru missing)))
  ]

  module _ (entry : Entry) where
    abbrev stored : Cache
    stored = store unlinked k entry

    stored-count : suc (length (erase text_dec k c.lru)) ≡ length (insert text_dec k entry c.cache)
    stored-count = elim (Bool-cases (contains text_dec k c.cache)) [
      | inl held ↦
          let (e, found) = contains-find text_dec k c.cache held in
          let (node, listed) = contains-find text_dec k c.lru (v.covered k ∙ held) in
          omega (
            arith,
            v.count,
            length-insert_old text_dec k entry c.cache found,
            length-erase text_dec k c.lru v.listed_once listed,
          )
      | inr absent ↦
          let unlisted = contains-none text_dec k c.lru (v.covered k ∙ absent) in
          omega (
            arith,
            v.count,
            length-insert_new text_dec k entry c.cache (contains-none text_dec k c.cache absent),
            ap length (erase_absent text_dec k c.lru unlisted),
          )
    ]

    stored-IsCoherent : IsCoherent stored
    unfolding contains find
    stored-IsCoherent = record {
      addresses = (omega arith, erase-Below k c.next_node c.lru v.addresses);
      listed_once = (
        ground (arith, find-erase text_dec k k c.lru),
        erase-Distinct text_dec k c.lru v.listed_once,
      );
      stored_once = insert-Distinct text_dec k entry c.cache v.stored_once;
      linked = λ j. ground (
        arith,
        find-insert text_dec k j c.next_node c.lru_map,
        find-erase text_dec k j c.lru,
        v.linked j,
      );
      covered = λ j. ground (
        arith,
        find-insert text_dec k j entry c.cache,
        find-erase text_dec k j c.lru,
        v.covered j,
      );
      count = stored-count;
    }

    view-stored : view stored ≡ (k, entry) ∷ erase text_dec k (view c)
    unfolding view entries_of
    view-stored =
        ground
          (arith, find-insert text_dec k k entry c.cache, entries_of-insert k entry c.lru c.cache)

-- On a coherent cache `set` touches no dangling iterator and its loop ends. The cache is valid
-- afterwards, and its view is the key's new entry in front of the other entries, cut off at the
-- capacity; the statistics and the capacity stay.
pub set-view :
    (c : Cache) (key value : Text) (ttl : ℤ) (now : Time)
    → IsCoherent c
    → (c' : Cache) × (set c key value ttl now ≡ some c')
      × IsValid c'
      × (view c' ≡ take c.capacity ((key, new_entry value ttl now) ∷ erase text_dec key (view c)))
      × (c'.capacity ≡ c.capacity)
      × (c'.hits ≡ c.hits)
      × (c'.misses ≡ c.misses)
unfolding set
set-view c key value ttl now v =
    let entry = new_entry value ttl now in
    let s = stored c key v entry in
    let coherent = stored-IsCoherent c key v entry in
    let (c', done, settled) = evict_while-Settles (suc (length s.cache)) s coherent (omega arith) in
    (
      c',
      rw (maybe_unlink c key v) done,
      settled.valid,
      settled.kept ∙ ap (take c.capacity) (view-stored c key v entry),
      settled.capacity,
      settled.hits,
      settled.misses,
    )
