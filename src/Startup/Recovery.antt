-- ===== src/Startup/Recovery.antt =====
-- Crash recovery: the cache that the log rebuilds has the entries of the cache that wrote it.
use dist_cache.Prelude.{
  length, ℕ, suc, ◌≡◌, refl, ap, ◌∙◌, List, [], ◌∷◌, ◌++◌, some, map, map-take, take, ite, if_pos,
  if_neg,
}
use dist_cache.Text.{Text, text_dec, codes}
use dist_cache.Dict.{erase, map-erase}
use dist_cache.Cache.Invariant.{IsValid}
use dist_cache.Cache.Spec.{Item, contents}
use dist_cache.Cache.Set.{set-view}
use dist_cache.Cache.Drop.{del-view}
use dist_cache.Cache.Get.{get-contents}
use dist_cache.Cache.Run.{set-contents, del-contents, init-Refines}
use dist_cache.Cache
use dist_cache.Cache.{Cache, Time}
use dist_cache.Wal.{Record}
use dist_cache.Persistence.{Map}
use dist_cache.Server.{default_ttl}
use dist_cache.Startup.{redo, redo_all, restore, recover_cache, main_capacity}
use dist_cache.Prelude.Int.{ℤ}

abbrev pub strip : Text × Item → Text × Text
strip x = (x.0, x.1.0)

-- The keys and values of a cache in the order of eviction, without the times of expiry.
unfoldable pub values : Cache → Map
values c = map strip (contents c)

-- What a cache of a capacity holds, call by call.
abbrev pub with_set : ℕ → Text → Text → Map → Map
with_set capacity k v m = take capacity ((k, v) ∷ erase text_dec k m)

pub set-values :
    (c : Cache) (k v : Text) (ttl : ℤ) (now : Time)
    → IsValid c
    → (c' : Cache) × (Cache.set c k v ttl now ≡ some c')
      × IsValid c'
      × (c'.capacity ≡ c.capacity)
      × (values c' ≡ with_set c.capacity k v (values c))
unfolding values
set-values c k v ttl now valid =
    let (c', ended, valid', seen, capacity, _, _) = set-view c k v ttl now valid.coherent in
    (
      c',
      ended,
      valid',
      capacity,
      ap (map strip) (set-contents c c' _ seen)
          ∙ map-take strip c.capacity _
          ∙ ap (λ m. take c.capacity ((k, v) ∷ m)) (map-erase text_dec (λ i. i.0) k (contents c)),
    )

pub del-values :
    (c : Cache) (k : Text)
    → IsValid c
    → (c' : Cache) × (Cache.del c k ≡ some c')
      × IsValid c'
      × (c'.capacity ≡ c.capacity)
      × (values c' ≡ erase text_dec k (values c))
unfolding values
del-values c k valid =
    let (c', ended, valid', seen, capacity) = del-view c k valid in
    (
      c',
      ended,
      valid',
      capacity,
      ap (map strip) (del-contents c c' k seen) ∙ map-erase text_dec (λ i. i.0) k (contents c),
    )

pub get-values :
    (c : Cache) (k : Text) (now later : Time)
    → IsValid c
    → values (Cache.get c k now later).0 ≡ values c
unfolding values
get-values c k now later valid = ap (map strip) (get-contents c k now later valid).1

-- What a log stands for.
unfoldable pub apply_record : ℕ → Map → Record → Map
apply_record capacity m (op, key, value) =
    ite (text_dec op (codes "SET")) (with_set capacity key value m)
      (ite (text_dec op (codes "DEL")) (erase text_dec key m) m)

unfoldable pub apply_all : ℕ → Map → List Record → Map
apply_all capacity m [] = m
apply_all capacity m (r ∷ rs) = apply_all capacity (apply_record capacity m r) rs

pub apply_all-append :
    (capacity : ℕ) (m : Map) (rs : List Record) (r : Record)
    → apply_all capacity m (rs ++ r ∷ []) ≡ apply_record capacity (apply_all capacity m rs) r
unfolding apply_all
apply_all-append capacity m [] r = refl
apply_all-append capacity m (x ∷ rs) r = apply_all-append capacity (apply_record capacity m x) rs r

-- A replayed record does to the cache what it stands for.
pub redo-values :
    (now : Time) (c : Cache) (r : Record)
    → IsValid c
    → (c' : Cache) × (redo now c r ≡ some c')
      × IsValid c'
      × (c'.capacity ≡ c.capacity)
      × (values c' ≡ apply_record c.capacity (values c) r)
unfolding redo apply_record
redo-values now c (op, key, value) valid = elim (text_dec op (codes "SET")) [
  | yes s ↦
      let (c', ended, valid', capacity, seen) = set-values c key value default_ttl now valid in
      (c', rw (if_pos _ s) ended, valid', capacity, rw (if_pos _ s) seen)
  | no s ↦ elim (text_dec op (codes "DEL")) [
    | yes d ↦
        let (c', ended, valid', capacity, seen) = del-values c key valid in
        (c', rw (if_neg _ s, if_pos _ d) ended, valid', capacity, rw (if_neg _ s, if_pos _ d) seen)
    | no d ↦ (c, rw (if_neg _ s, if_neg _ d) refl, valid, refl, rw (if_neg _ s, if_neg _ d) refl)
  ]
]

-- The replay of any log does to the cache what the log stands for.
pub redo_all-values :
    (clock : ℕ → Time) (i : ℕ) (c : Cache) (rs : List Record)
    → IsValid c
    → (c' : Cache) × (redo_all clock i c rs ≡ some c')
      × IsValid c'
      × (c'.capacity ≡ c.capacity)
      × (values c' ≡ apply_all c.capacity (values c) rs)
unfolding redo_all apply_all
redo_all-values clock i c [] valid = (c, refl, valid, refl, refl)
redo_all-values clock i c (r ∷ rs) valid =
    let (c₁, e₁, v₁, k₁, s₁) = redo-values (clock i) c r valid in
    let (c₂, e₂, v₂, k₂, s₂) = redo_all-values clock (suc i) c₁ rs v₁ in
    (c₂, rw e₁ e₂, v₂, k₂ ∙ k₁, rw (k₁, s₁) at s₂)

-- What a snapshot stands for.
unfoldable pub set_all : ℕ → Map → Map → Map
set_all capacity m [] = m
set_all capacity m ((key, value) ∷ entries) =
    set_all capacity (with_set capacity key value m) entries

restore-values :
    (clock : ℕ → Time) (i : ℕ) (c : Cache) (entries : Map)
    → IsValid c
    → (c' : Cache) × (restore clock i c entries ≡ some c')
      × IsValid c'
      × (c'.capacity ≡ c.capacity)
      × (values c' ≡ set_all c.capacity (values c) entries)
unfolding restore set_all
restore-values clock i c [] valid = (c, refl, valid, refl, refl)
restore-values clock i c ((key, value) ∷ entries) valid =
    let (c₁, e₁, v₁, k₁, s₁) = set-values c key value default_ttl (clock i) valid in
    let (c₂, e₂, v₂, k₂, s₂) = restore-values clock (suc i) c₁ entries v₁ in
    (c₂, rw e₁ e₂, v₂, k₂ ∙ k₁, rw (k₁, s₁) at s₂)

pub init-values :
    (capacity : ℕ)
    → IsValid (Cache.init capacity)
      × ((Cache.init capacity).capacity ≡ capacity)
      × (values (Cache.init capacity) ≡ [])
unfolding values
init-values capacity = let r = init-Refines capacity in (r.valid, r.capacity, ap (map strip) r.same)

-- Whatever snapshot and whatever log the program finds when it starts, the two loops end without
-- undefined behaviour in a valid cache. It holds what the snapshot and then the log stand for: the
-- records are applied in order over the snapshot's entries, with the eviction of the entries beyond
-- the capacity.
pub recover_cache-values :
    (clock : ℕ → Time) (persisted_data : Map) (records : List Record)
    → (c : Cache) × (recover_cache clock persisted_data records ≡ some c)
      × IsValid c
      × (c.capacity ≡ main_capacity)
      × (values c ≡ apply_all main_capacity (set_all main_capacity [] persisted_data) records)
unfolding recover_cache
recover_cache-values clock persisted_data records =
    let (valid, size, empty) = init-values main_capacity in
    let (c₁, e₁, v₁, k₁, s₁) =
      restore-values clock 0 (Cache.init main_capacity) persisted_data valid in
    let (c₂, e₂, v₂, k₂, s₂) = redo_all-values clock (length persisted_data) c₁ records v₁ in
    (c₂, rw (e₁, e₂) refl, v₂, k₂ ∙ k₁ ∙ size, s₂ ∙ rw (s₁, k₁, empty, size) refl)
