-- ===== src/Cache/Order.antt =====
-- Which entry an eviction takes, and what a read sees after a write.
use dist_cache.Prelude.{
  ℕ, suc, ◌≡◌, ◌≤◌, ◌<◌, ap, [], ◌∷◌, ◌++◌, none, some, arith, sym, ◌∙◌, take, take-append, length,
  zero, length-append,
}
use dist_cache.Prelude.Int.{ℤ}
use dist_cache.Text.{Text, text_dec}
use dist_cache.Dict.{find, erase, erase_absent}
use dist_cache.Cache.Invariant.{IsValid}
use dist_cache.Cache.Spec.{Item, Ideal, contents}
use dist_cache.Cache.Set.{set-view}
use dist_cache.Cache.Get.{get-contents, get-capacity, get-reply}
use dist_cache.Cache.Run.{set-contents}
use dist_cache.Cache.{Cache, Time, get, set, expiry}

-- `set` in terms of the contents.
pub set-after :
    (c : Cache) (key value : Text) (ttl : ℤ) (now : Time)
    → IsValid c
    → (c' : Cache) × (set c key value ttl now ≡ some c')
      × IsValid c'
      × (contents c'
          ≡ take c.capacity ((key, (value, expiry ttl now)) ∷ erase text_dec key (contents c)))
set-after c key value ttl now v =
    let (c', ended, valid, seen, _, _, _) = set-view c key value ttl now v.coherent in
    (c', ended, valid, set-contents c c' _ seen)

find-take_head :
    (n : ℕ) (k : Text) (x : Item) (l : Ideal)
    → 0 < n
    → find text_dec k (take n ((k, x) ∷ l)) ≡ some x
unfolding find
find-take_head zero k x l h = absurd (omega arith)
find-take_head (suc n) k x l h = ground arith

-- A value that was just set in a valid cache is read back, up to its time of expiry, where the
-- capacity is not zero.
pub get-set :
    (c : Cache) (key value : Text) (ttl : ℤ) (now t later : Time)
    → IsValid c
    → 0 < c.capacity
    → t ≤ expiry ttl now
    → (c' : Cache) × (set c key value ttl now ≡ some c') × ((get c' key t later).1 ≡ some value)
get-set c key value ttl now t later v room fresh =
    let (c', ended, valid, seen) = set-after c key value ttl now v in
    let item : Item = (value, expiry ttl now) in
    (
      c',
      ended,
      get-reply c' key t later valid.coherent
          ∙ rw (seen, find-take_head c.capacity key item (erase text_dec key (contents c)) room)
              (ground arith),
    )

-- Reads do not protect an entry: whatever is read from a valid cache before a `set`, the cache
-- that `set` leaves holds the same entries in the same order as without the read.
pub set-get :
    (c : Cache) (read key value : Text) (ttl : ℤ) (t later now : Time)
    → IsValid c
    → (c₁ : Cache) × (c₂ : Cache) × (set (get c read t later).0 key value ttl now ≡ some c₁)
      × (set c key value ttl now ≡ some c₂)
      × (contents c₁ ≡ contents c₂)
set-get c read key value ttl t later now v =
    let (valid, same) = get-contents c read t later v in
    let (c₁, e₁, _, s₁) = set-after (get c read t later).0 key value ttl now valid in
    let (c₂, e₂, _, s₂) = set-after c key value ttl now v in
    (c₁, c₂, e₁, e₂, s₁ ∙ rw (get-capacity c read t later, same) (sym s₂))

-- In a valid cache that is full, a new key takes the place of the entry that was set longest ago.
pub set_evicts_oldest :
    (c : Cache) (key value : Text) (ttl : ℤ) (now : Time) (newer : Ideal) (oldest : Text × Item)
    → IsValid c
    → contents c ≡ newer ++ oldest ∷ []
    → length (contents c) ≡ c.capacity
    → find text_dec key (contents c) ≡ none
    → (c' : Cache) × (set c key value ttl now ≡ some c')
      × (contents c' ≡ (key, (value, expiry ttl now)) ∷ newer)
set_evicts_oldest c key value ttl now newer oldest v split full absent =
    let (c', ended, _, seen) = set-after c key value ttl now v in
    let n : c.capacity ≡ suc (length newer) =
      omega (arith, full, ap length split, length-append newer (oldest ∷ [])) in
    (
      c',
      ended,
      seen
          ∙ ap (λ m. take m ((key, (value, expiry ttl now)) ∷ erase text_dec key (contents c))) n
          ∙ ap (◌∷◌ (key, (value, expiry ttl now))) (
              ap (take (length newer)) (erase_absent text_dec key (contents c) absent ∙ split)
              ∙ take-append newer (oldest ∷ [])),
    )
