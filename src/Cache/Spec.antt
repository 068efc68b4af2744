-- ===== src/Cache/Spec.antt =====
-- What LRUCache promises: an ideal cache is one list of entries, the most recently set first. It
-- has no iterators, no access times and no statistics.
use dist_cache.Prelude.{
  ℕ, ◌≡◌, refl, List, [], ◌∷◌, Option, none, some, Bool, true, false, not, arith, take, keep_if,
  ltb, if◌then◌else◌, map, map-keep_if,
}
use dist_cache.Prelude.Int.{ℤ}
use dist_cache.Text.{Text, text_dec}
use dist_cache.Dict.{find, erase}
use dist_cache.Cache.View.{view}
use dist_cache.Cache.Cleanup.{is_live}
use dist_cache.Cache.{Entry, Cache, Time, expiry}

-- A value with its time of expiry.
abbrev pub Item : Type 0
Item = Text × Time

abbrev pub Ideal : Type 0
Ideal = List (Text × Item)

pub data Call : Type 0 where
  get : Text → Time → Time → Call
  set : Text → Text → ℤ → Time → Call
  del : Text → Call
  exists_key : Text → Time → Call
  cleanup_expired : Time → Call

-- What the caller sees: a value or none, a truth value, or nothing.
pub data Reply : Type 0 where
  value : Option Text → Reply
  truth : Bool → Reply
  done : Reply

abbrev pub ideal_fresh : Time → Option Item → Option Text
ideal_fresh now none = none
ideal_fresh now (some (v, t)) = if ltb t now then none else some v

abbrev pub is_some {ℓ} : {A : Type ℓ} → Option A → Bool
is_some none = false
is_some (some a) = true

unfoldable pub ideal_step : ℕ → Ideal → Call → Ideal × Reply
ideal_step cap l (get k now later) = (l, value (ideal_fresh now (find text_dec k l)))
ideal_step cap l (set k v ttl now) =
    (take cap ((k, (v, expiry ttl now)) ∷ erase text_dec k l), done)
ideal_step cap l (del k) = (erase text_dec k l, done)
ideal_step cap l (exists_key k now) = (l, truth (is_some (ideal_fresh now (find text_dec k l))))
ideal_step cap l (cleanup_expired now) = (keep_if (λ x. not (ltb x.1.1 now)) l, done)

unfoldable pub ideal_run : ℕ → Ideal → List Call → Ideal × List Reply
ideal_run cap l [] = (l, [])
ideal_run cap l (call ∷ calls) =
    let (l', reply) = ideal_step cap l call in
    let (end, replies) = ideal_run cap l' calls in (end, reply ∷ replies)

abbrev pub item : Entry → Item
item e = (e.value, e.expire_time)

abbrev pub keep_item : Text × Entry → Text × Item
keep_item x = (x.0, item x.1)

-- The ideal cache that a cache stands for.
unfoldable pub contents : Cache → Ideal
contents c = map keep_item (view c)

pub find-map :
    (k : Text) (l : List (Text × Entry))
    → find text_dec k (map keep_item l)
      ≡ elim (find text_dec k l) [ none ↦ none | some e ↦ some (item e) ]
unfolding find
find-map k [] = refl
find-map k ((j, e) ∷ l) = ground (arith, find-map k l)

pub map-live :
    (now : Time) (l : List (Text × Entry))
    → map keep_item (keep_if (is_live now) l) ≡ keep_if (λ x. not (ltb x.1.1 now)) (map keep_item l)
map-live now l = map-keep_if keep_item (λ x. not (ltb x.1.1 now)) l
