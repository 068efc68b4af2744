-- ===== src/Cache/Evict.antt =====
-- The eviction loop at the end of `LRUCache::set`.
use dist_cache.Prelude.{
  ℕ, suc, zero, ◌-◌, ◌≡◌, ◌≤◌, ◌<◌, refl, ap, List, [], ◌∷◌, some, arith, length, sym, ◌∙◌, inl,
  inr, Bool-cases, take, ltb, take_enough,
}
use dist_cache.Text.{Text, text_dec}
use dist_cache.Dict.{find, erase, find-erase, length-erase, contains-find, contains}
use dist_cache.Cache.Nodes.{
  Node, back, pop_back, back-cons, pop_back-erase, find-back, take-pop_back,
}
use dist_cache.Cache.View.{
  view, pop_back-entries_of, entries_of-erase_unlisted, length-entries_of, Covers,
}
use dist_cache.Cache.Invariant.{IsCoherent, IsValid, without, without-IsCoherent}
use dist_cache.Cache.{Entry, Cache, evict_lru, evict_while}

-- The last node of a coherent cache that holds an entry.
last_node :
    (l : List Node) {n : ℕ} → length l ≡ suc n → (k : Text) × (node : ℕ) × (back l ≡ some (k, node))
last_node [] h = absurd (omega arith)
last_node (x ∷ l) h = let ((k, node), e) = back-cons x l in (k, node, e)

Covers-IsCoherent : (c : Cache) → IsCoherent c → Covers c.cache c.lru
Covers-IsCoherent c v k h = sym (v.covered k) ∙ h

pub length-view : (c : Cache) → IsCoherent c → length (view c) ≡ length c.cache
unfolding view
length-view c v = length-entries_of c.lru c.cache (Covers-IsCoherent c v) ∙ v.count

module _ (c : Cache) (v : IsCoherent c) (k : Text) (node : ℕ)
    (e : back c.lru ≡ some (k, node)) where
  last_listed : find text_dec k c.lru ≡ some node
  last_listed = find-back c.lru v.listed_once e

  -- To evict is to erase the last key of the list.
  pub evict_lru-without : evict_lru c ≡ without c k
  unfolding evict_lru without
  evict_lru-without = ground (arith, pop_back-erase c.lru v.listed_once e)

  last_stored : (entry : Entry) × (find text_dec k c.cache ≡ some entry)
  unfolding contains
  last_stored = contains-find text_dec k c.cache (ground (arith, v.covered k, last_listed))

  length-without : suc (length (without c k).cache) ≡ length c.cache
  unfolding without
  length-without = length-erase text_dec k c.cache v.stored_once last_stored.1

  view-evicted : view (without c k) ≡ pop_back (view c)
  unfolding view without
  view-evicted =
      rw
        (
          entries_of-erase_unlisted k (erase text_dec k c.lru) c.cache
              (ground (arith, find-erase text_dec k k c.lru)),
          ← pop_back-erase c.lru v.listed_once e,
        )
        (pop_back-entries_of c.lru c.cache (Covers-IsCoherent c v))

evict-step :
    (c : Cache) {n : ℕ}
    → IsCoherent c
    → length c.cache ≡ suc n
    → (k : Text) × (evict_lru c ≡ without c k)
      × (suc (length (without c k).cache) ≡ length c.cache)
      × (view (without c k) ≡ pop_back (view c))
evict-step c v h =
    let (k, node, e) = last_node c.lru (v.count ∙ h) in
    (k, evict_lru-without c v k node e, length-without c v k node e, view-evicted c v k node e)

-- The loop has run to its end, and the most recent entries have stayed.
pub record Settles (c c' : Cache) : Type 0 where
  pub valid : IsValid c'
  pub kept : view c' ≡ take c.capacity (view c)
  pub capacity : c'.capacity ≡ c.capacity
  pub hits : c'.hits ≡ c.hits
  pub misses : c'.misses ≡ c.misses

Settles-here : (c : Cache) → IsCoherent c → length c.cache ≤ c.capacity → Settles c c
Settles-here c v h = record {
  valid = record { coherent = v; bounded = h };
  kept = sym (take_enough (view c) c.capacity (omega (arith, length-view c v)));
  capacity = refl;
  hits = refl;
  misses = refl;
}

Settles-step :
    (c c' : Cache) (k : Text)
    → IsCoherent c
    → c.capacity < length c.cache
    → view (without c k) ≡ pop_back (view c)
    → Settles (without c k) c'
    → Settles c c'
unfolding without
Settles-step c c' k v over e s = record {
  valid = s.valid;
  kept =
      s.kept
      ∙ ap (take c.capacity) e
      ∙ take-pop_back c.capacity (view c) (omega (arith, length-view c v));
  capacity = s.capacity;
  hits = s.hits;
  misses = s.misses;
}

-- On a coherent cache the loop of evictions ends within one round for each entry and one more. It
-- leaves a valid cache whose view is cut off at the capacity, and keeps the statistics.
pub evict_while-Settles :
    (fuel : ℕ) (c : Cache)
    → IsCoherent c
    → length c.cache < fuel
    → (c' : Cache) × (evict_while fuel c ≡ some c') × Settles c c'
unfolding evict_while
evict_while-Settles zero c v h = absurd (omega arith)
evict_while-Settles (suc fuel) c v h = elim (Bool-cases (ltb c.capacity (length c.cache))) [
  | inr fits ↦ (c, rw fits refl, Settles-here c v (ground arith))
  | inl over ↦
      let big : c.capacity < length c.cache = ground arith in
      let (k, evicted, shorter, dropped) = evict-step c {n = length c.cache - 1} v (omega arith) in
      let (c', done, settled) =
        evict_while-Settles fuel (without c k) (without-IsCoherent c k v) (omega arith) in
      (c', rw (over, evicted) done, Settles-step c c' k v big dropped settled)
]
