-- ===== src/Bench/Caching.antt =====
-- `benchmark_cache_operations` of benchmark.cpp: the fill of the cache and the reads.
use dist_cache.Prelude.{
  ℕ, zero, suc, ◌+◌, ◌*◌, ◌≤◌, ◌<◌, ◌≡◌, ◌≢◌, refl, ap, ◌∙◌, [], ◌∷◌, Option, none, some, ◌>>=◌,
  arith, length, take_enough, if◌then◌else◌, false, ltb, take, ℕ_discrete,
}
use dist_cache.Text.{Text, text_dec}
use dist_cache.Dict.{find, erase, erase_absent}
use dist_cache.Cache.Invariant.{IsValid}
use dist_cache.Cache.Spec.{Item, Ideal, contents, is_some}
use dist_cache.Cache.Set.{set-view}
use dist_cache.Cache.Get.{get-contents, get-reply, get-capacity}
use dist_cache.Cache.Run.{set-contents, init-Refines}
use dist_cache.Cache
use dist_cache.Cache.{Cache, Time, expiry, second}
use dist_cache.Breaker.{increment, int_mod}
use dist_cache.Server.{default_ttl}
use dist_cache.Bench.{numbered_key, numbered_value, numbered_key-inj}

abbrev pub day : Time
day = 24 * 3600 * second

-- The rounds from number `i` on; round `i` reads `clock i`.
unfoldable pub set_loop : (ℕ → Time) → ℕ → ℕ → Cache → Option Cache
set_loop clock zero i c = some c
set_loop clock (suc left) i c =
    Cache.set c (numbered_key i) (numbered_value i) default_ttl (clock i)
    >>= set_loop clock left (suc i)

-- What one read draws and reads from the clock.
pub record Read : Type 0 where
  pub drawn : ℕ
  pub now : Time
  pub later : Time

unfoldable pub get_loop : (ℕ → Read) → ℕ → ℕ → ℕ → Cache → Cache × ℕ
get_loop draws zero i hits c = (c, hits)
get_loop draws (suc left) i hits c =
    let (c', found) = Cache.get c (numbered_key (draws i).drawn) (draws i).now (draws i).later in
    get_loop draws left (suc i) (if is_some found then increment hits else hits) c'

unfoldable pub cache_operations : ℕ → ℕ → ℕ → (ℕ → Time) → (ℕ → Read) → Option (Cache × ℕ)
unfolding set_loop get_loop
cache_operations capacity num_operations num_reads clock draws =
    set_loop clock num_operations 0 (Cache.init capacity) >>= λ c.
    some (get_loop draws num_reads 0 0 c)

-- The cache, and the hits that are printed as a rate.
unfoldable pub benchmark_cache_operations : (ℕ → Time) → (ℕ → Read) → Option (Cache × ℕ)
unfolding cache_operations
benchmark_cache_operations = cache_operations 100_000 100_000 50_000

-- What the cache holds after the first `n` rounds.
abbrev filled : (ℕ → Time) → ℕ → Ideal
filled clock zero = []
filled clock (suc n) =
    (numbered_key n, (numbered_value n, expiry default_ttl (clock n))) ∷ filled clock n

length-filled : (clock : ℕ → Time) (n : ℕ) → length (filled clock n) ≡ n
length-filled clock zero = refl
length-filled clock (suc n) = ap suc (length-filled clock n)

find-filled_later :
    (clock : ℕ → Time) (n j : ℕ) → n ≤ j → find text_dec (numbered_key j) (filled clock n) ≡ none
unfolding find
find-filled_later clock zero j h = refl
find-filled_later clock (suc n) j h =
    let other : numbered_key n ≢ numbered_key j =
      λ e. absurd (omega (arith, numbered_key-inj n j e)) in
    ground (arith, find-filled_later clock n j (omega arith))

find-filled :
    (clock : ℕ → Time) (n j : ℕ)
    → j < n
    → find text_dec (numbered_key j) (filled clock n)
      ≡ some (numbered_value j, expiry default_ttl (clock j))
unfolding find
find-filled clock zero j h = absurd (omega arith)
find-filled clock (suc n) j h = elim (ℕ_discrete n j) [
  | yes same ↦ ground (arith, same)
  | no other ↦
      let apart : numbered_key n ≢ numbered_key j = λ e. other (numbered_key-inj n j e) in
      ground (arith, find-filled clock n j (omega (arith, other)))
]

-- A cache after `n` rounds.
record IsFilled (clock : ℕ → Time) (n capacity : ℕ) (c : Cache) : Type 0 where
  pub valid : IsValid c
  pub size : c.capacity ≡ capacity
  pub holds : contents c ≡ filled clock n

-- One more round, where there is room for it.
filled_next :
    (clock : ℕ → Time) (i capacity : ℕ) (c : Cache)
    → i < capacity
    → IsFilled clock i capacity c
    → take c.capacity (
        (numbered_key i, (numbered_value i, expiry default_ttl (clock i)))
        ∷ erase text_dec (numbered_key i) (contents c))
      ≡ filled clock (suc i)
filled_next clock i capacity c room f =
    let x : Text × Item = (numbered_key i, (numbered_value i, expiry default_ttl (clock i))) in
    ap (λ l. take c.capacity (x ∷ erase text_dec (numbered_key i) l)) f.holds
    ∙ ap (λ l. take c.capacity (x ∷ l))
        (erase_absent text_dec (numbered_key i) (filled clock i)
          (find-filled_later clock i i (omega arith)))
    ∙ take_enough (filled clock (suc i)) c.capacity
        (omega (arith, length-filled clock (suc i), f.size))

set_loop-IsFilled :
    (clock : ℕ → Time) (left i end capacity : ℕ) (c : Cache)
    → i + left ≡ end
    → end ≤ capacity
    → IsFilled clock i capacity c
    → (c' : Cache) × (set_loop clock left i c ≡ some c') × IsFilled clock end capacity c'
unfolding set_loop
set_loop-IsFilled clock zero i end capacity c until room f =
    let same : i ≡ end = omega (arith, until) in (c, refl, rw (← same) f)
set_loop-IsFilled clock (suc left) i end capacity c until room f =
    let (c₁, ended, valid, seen, size, _, _) =
      set-view c (numbered_key i) (numbered_value i) default_ttl (clock i) f.valid.coherent in
    let step : IsFilled clock (suc i) capacity c₁ = record {
      valid = valid;
      size = size ∙ f.size;
      holds =
          set-contents c c₁ _ seen ∙ filled_next clock i capacity c (omega (arith, until, room)) f;
    } in
    let (c₂, rest, g) =
      set_loop-IsFilled clock left (suc i) end capacity c₁ (omega (arith, until)) room step in
    (c₂, rw ended rest, g)

-- The reads are of keys that were set, and before they expire.
abbrev pub AreEarly : (ℕ → Time) → ℕ → (ℕ → Read) → Type 0
AreEarly clock n draws =
    (i : ℕ) → ((draws i).drawn < n) × ((draws i).now ≤ clock (draws i).drawn + day)

get-hit :
    (clock : ℕ → Time) (n capacity : ℕ) (c : Cache) (r : Read)
    → IsFilled clock n capacity c
    → r.drawn < n
    → r.now ≤ clock r.drawn + day
    → ((Cache.get c (numbered_key r.drawn) r.now r.later).1 ≡ some (numbered_value r.drawn))
      × IsFilled clock n capacity (Cache.get c (numbered_key r.drawn) r.now r.later).0
get-hit clock n capacity c r f known early =
    let k = numbered_key r.drawn in
    let (valid, same) = get-contents c k r.now r.later f.valid in
    let found : find text_dec k (contents c)
        ≡ some (numbered_value r.drawn, expiry default_ttl (clock r.drawn)) =
      ap (find text_dec k) f.holds ∙ find-filled clock n r.drawn known in
    let fresh : ltb (expiry default_ttl (clock r.drawn)) r.now ≡ false =
      unfold expiry in ground (arith, early) in
    (
      get-reply c k r.now r.later f.valid.coherent ∙ rw (found, fresh) refl,
      record {
        valid = valid;
        size = get-capacity c k r.now r.later ∙ f.size;
        holds = same ∙ f.holds;
      },
    )

get_loop-hits :
    (clock : ℕ → Time) (n capacity : ℕ) (draws : ℕ → Read) (left i hits : ℕ) (c : Cache)
    → IsFilled clock n capacity c
    → AreEarly clock n draws
    → hits + left < int_mod
    → (get_loop draws left i hits c).1 ≡ hits + left
unfolding get_loop
get_loop-hits clock n capacity draws zero i hits c f early small = omega arith
get_loop-hits clock n capacity draws (suc left) i hits c f early small =
    let (hit, g) = get-hit clock n capacity c (draws i) f (early i).0 (early i).1 in
    rw (get_loop, hit)
      (get_loop-hits clock n capacity draws left (suc i) (increment hits) _ g early (omega arith)
        ∙ omega arith)

init-IsFilled : (clock : ℕ → Time) (capacity : ℕ) → IsFilled clock 0 capacity (Cache.init capacity)
init-IsFilled clock capacity =
    let r = init-Refines capacity in record { valid = r.valid; size = r.capacity; holds = r.same }

cache_operations-hits :
    (capacity num_operations num_reads : ℕ) (clock : ℕ → Time) (draws : ℕ → Read)
    → num_operations ≤ capacity
    → num_reads < int_mod
    → AreEarly clock num_operations draws
    → (c : Cache) × (cache_operations capacity num_operations num_reads clock draws
        ≡ some (c, num_reads))
unfolding cache_operations
cache_operations-hits capacity n reads clock draws room small early =
    let (c, filled_up, f) =
      set_loop-IsFilled clock n 0 n capacity (Cache.init capacity) (omega arith) room
        (init-IsFilled clock capacity) in
    let hits : (get_loop draws reads 0 0 c).1 ≡ reads =
      get_loop-hits clock n capacity draws reads 0 0 c f early (omega arith) ∙ omega arith in
    let c' = (get_loop draws reads 0 0 c).0 in (c', rw filled_up (ap (λ h. some (c', h)) hits))

-- The benchmark runs to its end, and as its comment says all of its 50000 reads hit: the cache takes
-- the 100000 keys without an eviction. The draws are below 100000, and each read comes within 24
-- hours of the write of its key.
pub benchmark_cache_operations-hits :
    (clock : ℕ → Time) (draws : ℕ → Read)
    → AreEarly clock 100_000 draws
    → (c : Cache) × (benchmark_cache_operations clock draws ≡ some (c, 50_000))
unfolding benchmark_cache_operations
benchmark_cache_operations-hits clock draws early =
    cache_operations-hits 100_000 100_000 50_000 clock draws (omega arith) (omega arith) early
