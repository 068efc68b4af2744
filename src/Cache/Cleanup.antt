-- ===== src/Cache/Cleanup.antt =====
-- The loop of `cleanup_expired` visits the map in any order; the view only loses what is expired.
use dist_cache.Prelude.{
  ℕ, ◌≡◌, refl, ap, List, [], ◌∷◌, none, some, Bool, true, false, not, arith, ◌∙◌, inl, inr,
  Bool-cases, keep_if, keep_if_congr, All, All-intro, All-map, ltb, ite,
}
use dist_cache.Text.{Text, text_dec}
use dist_cache.Dict.{find, erase, Distinct}
use dist_cache.Cache.View.{view, entries_of}
use dist_cache.Cache.Invariant.{IsValid}
use dist_cache.Cache.Drop.{sweep, cleanup_loop-sweep}
use dist_cache.Cache.{Entry, Cache, Time, cleanup_expired}

-- The entry is not behind the time that the sweep reads.
abbrev pub is_live : Time → Text × Entry → Bool
is_live now x = not (ltb x.1.expire_time now)

expired_in : List (Text × Entry) → Time → Text → Bool
expired_in todo now k = elim (find text_dec k todo) [
  | none ↦ false
  | some e ↦ ltb e.expire_time now
]

keep_if-erase :
    (p q : Text × Entry → Bool) (k : Text) (l : List (Text × Entry))
    → All (λ x. q x ≡ ite (text_dec x.0 k) false (p x)) l
    → keep_if p (erase text_dec k l) ≡ keep_if q l
unfolding keep_if erase
keep_if-erase p q k [] h = refl
keep_if-erase p q k ((j, e) ∷ l) h = ground (arith, h.0, keep_if-erase p q k l h.1)

-- An expired entry is skipped, and the other entries are looked for in the rest.
expired_in-cons :
    (k : Text) (e : Entry) (todo : List (Text × Entry)) (now : Time) (x : Text × Entry)
    → ltb e.expire_time now ≡ true
    → not (expired_in ((k, e) ∷ todo) now x.0)
      ≡ ite (text_dec x.0 k) false (not (expired_in todo now x.0))
unfolding expired_in find
expired_in-cons k e todo now x old = ground arith

expired_in-cons_live :
    (k : Text) (e : Entry) (todo : List (Text × Entry)) (now : Time) (x : Text × Entry)
    → find text_dec k todo ≡ none
    → ltb e.expire_time now ≡ false
    → not (expired_in todo now x.0) ≡ not (expired_in ((k, e) ∷ todo) now x.0)
unfolding expired_in find
expired_in-cons_live k e todo now x d fresh = ground arith

keep_none_expired :
    (now : Time) (l : List (Text × Entry)) → l ≡ keep_if (λ x. not (expired_in [] now x.0)) l
unfolding keep_if expired_in find
keep_none_expired now [] = refl
keep_none_expired now (x ∷ l) = ap (◌∷◌ x) (keep_none_expired now l)

sweep-keep_if :
    (todo : List (Text × Entry)) (now : Time) (l : List (Text × Entry))
    → Distinct text_dec todo
    → sweep todo now l ≡ keep_if (λ x. not (expired_in todo now x.0)) l
unfolding sweep
sweep-keep_if [] now l d = keep_none_expired now l
sweep-keep_if ((k, e) ∷ todo) now l d = elim (Bool-cases (ltb e.expire_time now)) [
  | inl old ↦
      rw (sweep, old)
        (sweep-keep_if todo now (erase text_dec k l) d.1
          ∙ keep_if-erase _ _ k l (All-intro _ (λ x. expired_in-cons k e todo now x old) l))
  | inr fresh ↦
      rw (sweep, fresh)
        (sweep-keep_if todo now l d.1
          ∙ keep_if_congr _ _ l
              (All-intro _ (λ x. expired_in-cons_live k e todo now x d.0 fresh) l))
]

entries_of-find :
    (l : List (Text × ℕ)) (m : List (Text × Entry))
    → All (λ x. find text_dec x.0 m ≡ some x.1) (entries_of l m)
unfolding entries_of
entries_of-find [] m = tt
entries_of-find ((k, node) ∷ l) m = ground (arith, entries_of-find l m)

expired_in-found :
    (m : List (Text × Entry)) (now : Time) (x : Text × Entry)
    → find text_dec x.0 m ≡ some x.1
    → not (expired_in m now x.0) ≡ is_live now x
unfolding expired_in
expired_in-found m now x h = ground (arith, h)

-- On a valid cache `cleanup_expired` touches no dangling iterator. It takes the expired entries out
-- of the view, and no other; the cache stays valid.
pub cleanup_expired-view :
    (c : Cache) (now : Time)
    → IsValid c
    → (c' : Cache) × (cleanup_expired c now ≡ some c')
      × IsValid c'
      × (view c' ≡ keep_if (is_live now) (view c))
      × (c'.capacity ≡ c.capacity)
unfolding cleanup_expired view
cleanup_expired-view c now v =
    let d = v.coherent.stored_once in
    let (c', done, v', swept, cap) = cleanup_loop-sweep c.cache now c d (λ j h. h) v in
    let live =
      All-map (expired_in-found c.cache now) (entries_of c.lru c.cache)
        (entries_of-find c.lru c.cache) in
    (c', done, v', swept ∙ sweep-keep_if c.cache now _ d ∙ keep_if_congr _ _ _ live, cap)
