-- ===== src/Cache/Drop.antt =====
-- `LRUCache::del` and `LRUCache::cleanup_expired` against the abstract view.
use dist_cache.Prelude.{
  ◌≡◌, ◌≤◌, refl, ap, List, [], ◌∷◌, some, true, arith, length, sym, ◌∙◌, inl, inr, Bool-cases,
  if◌then◌else◌, ltb,
}
use dist_cache.Text.{Text, text_dec}
use dist_cache.Dict.{find, erase, contains, Distinct, contains-none, find-erase, erase_absent}
use dist_cache.Cache.View.{view}
use dist_cache.Cache.Invariant.{
  IsValid, without, drop_key-without, without-IsCoherent, view-without, find-view,
}
use dist_cache.Cache.{Entry, Cache, Time, del, cleanup_loop}

length-erase-le : (k : Text) (m : List (Text × Entry)) → length (erase text_dec k m) ≤ length m
unfolding erase
length-erase-le k [] = omega arith
length-erase-le k ((j, e) ∷ m) = ground (arith, length-erase-le k m)

without-IsValid : (c : Cache) (k : Text) → IsValid c → IsValid (without c k)
unfolding without
without-IsValid c k v = record {
  coherent = unfold without in without-IsCoherent c k v.coherent;
  bounded = omega (arith, v.bounded, length-erase-le k c.cache);
}

-- On a valid cache `del` touches no dangling iterator, and takes the key out of the view. The
-- cache stays valid.
pub del-view :
    (c : Cache) (key : Text)
    → IsValid c
    → (c' : Cache) × (del c key ≡ some c')
      × IsValid c'
      × (view c' ≡ erase text_dec key (view c))
      × (c'.capacity ≡ c.capacity)
unfolding del
del-view c key v = elim (Bool-cases (contains text_dec key c.cache)) [
  | inl held ↦ (
    without c key,
    rw held (drop_key-without c key v.coherent held),
    without-IsValid c key v,
    view-without c key v.coherent,
    unfold without in refl,
  )
  | inr absent ↦
      let missing = find-view c key v.coherent ∙ contains-none text_dec key c.cache absent in
      (c, rw absent refl, v, sym (erase_absent text_dec key (view c) missing), refl)
]

-- What the loop of `cleanup_expired` makes of the view.
unfoldable pub sweep : List (Text × Entry) → Time → List (Text × Entry) → List (Text × Entry)
sweep [] now l = l
sweep ((k, e) ∷ todo) now l =
    sweep todo now (if ltb e.expire_time now then erase text_dec k l else l)

abbrev Holds : List (Text × Entry) → Cache → Type 0
Holds todo c = (j : Text) → contains text_dec j todo ≡ true → contains text_dec j c.cache ≡ true

Holds-tail :
    (k : Text) (e : Entry) (todo : List (Text × Entry)) (c : Cache)
    → Holds ((k, e) ∷ todo) c
    → Holds todo c
unfolding contains find
Holds-tail k e todo c h j p = ground (arith, h j)

Holds-without :
    (k : Text) (e : Entry) (todo : List (Text × Entry)) (c : Cache)
    → Distinct text_dec ((k, e) ∷ todo)
    → Holds ((k, e) ∷ todo) c
    → Holds todo (without c k)
unfolding contains find without
Holds-without k e todo c d h j p = ground (arith, h j, find-erase text_dec k j c.cache)

pub cleanup_loop-sweep :
    (todo : List (Text × Entry)) (now : Time) (c : Cache)
    → Distinct text_dec todo
    → Holds todo c
    → IsValid c
    → (c' : Cache) × (cleanup_loop todo now c ≡ some c')
      × IsValid c'
      × (view c' ≡ sweep todo now (view c))
      × (c'.capacity ≡ c.capacity)
unfolding cleanup_loop sweep
cleanup_loop-sweep [] now c d h v = (c, refl, v, refl, refl)
cleanup_loop-sweep ((k, e) ∷ todo) now c d h v = elim (Bool-cases (ltb e.expire_time now)) [
  | inl old ↦
      let held : contains text_dec k c.cache ≡ true = unfold contains find in ground (arith, h k) in
      let (c', done, v', swept, cap) =
        cleanup_loop-sweep todo now (without c k) d.1 (Holds-without k e todo c d h)
          (without-IsValid c k v) in
      (
        c',
        rw (cleanup_loop, old, drop_key-without c k v.coherent held) done,
        v',
        rw old (swept ∙ ap (sweep todo now) (view-without c k v.coherent)),
        cap ∙ (unfold without in refl),
      )
  | inr fresh ↦
      let (c', done, v', swept, cap) =
        cleanup_loop-sweep todo now c d.1 (Holds-tail k e todo c h) v in
      (c', rw (cleanup_loop, fresh) done, v', rw fresh swept, cap)
]
