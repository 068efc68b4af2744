-- ===== src/Cache/Run.antt =====
-- LRUCache refines the ideal cache, over any sequence of calls.
use dist_cache.Prelude.{
  ℕ, ◌≡◌, refl, ap, List, [], ◌∷◌, Option, some, arith, ◌∙◌, ◌>>=◌, map, take, map-take, keep_if,
  not, ltb,
}
use dist_cache.Text.{Text, text_dec}
use dist_cache.Dict.{erase, map-erase, find, contains}
use dist_cache.Cache.View.{view, entries_of}
use dist_cache.Cache.Invariant.{IsValid}
use dist_cache.Cache.Spec.{
  Call, Reply, value, truth, done, Ideal, ideal_step, ideal_run, contents, keep_item, item,
  map-live,
}
use dist_cache.Cache.Set.{set-view}
use dist_cache.Cache.Drop.{del-view}
use dist_cache.Cache.Cleanup.{cleanup_expired-view, is_live}
use dist_cache.Cache.Get.{get-contents, get-reply, get-capacity, exists_key-reply}
use dist_cache.Cache
use dist_cache.Cache.{Cache, Entry, Time, init}

-- One call of a method.
unfoldable pub step : Cache → Call → Option (Cache × Reply)
step c (Call.get k now later) = let (c', found) = Cache.get c k now later in some (c', value found)
step c (Call.set k v ttl now) = Cache.set c k v ttl now >>= λ c'. some (c', done)
step c (Call.del k) = Cache.del c k >>= λ c'. some (c', done)
step c (Call.exists_key k now) = some (c, truth (Cache.exists_key c k now))
step c (Call.cleanup_expired now) = Cache.cleanup_expired c now >>= λ c'. some (c', done)

unfoldable pub run : Cache → List Call → Option (Cache × List Reply)
run c [] = some (c, [])
run c (call ∷ calls) = do
  (c', reply) ← step c call
  (end, replies) ← run c' calls
  some (end, reply ∷ replies)

-- Where the two caches stand to one another.
pub record Refines (bound : ℕ) (c : Cache) (l : Ideal) : Type 0 where
  pub valid : IsValid c
  pub capacity : c.capacity ≡ bound
  pub same : contents c ≡ l

-- The call succeeds, with the ideal cache's reply, and the two caches stay together.
abbrev Simulates : ℕ → Cache → Ideal → Call → Type 0
Simulates bound c l call =
    (c' : Cache) × (step c call ≡ some (c', (ideal_step bound l call).1))
    × Refines bound c' (ideal_step bound l call).0

pub set-contents :
    (c c' : Cache) (x : Text × Entry)
    → view c' ≡ take c.capacity (x ∷ erase text_dec x.0 (view c))
    → contents c' ≡ take c.capacity (keep_item x ∷ erase text_dec x.0 (contents c))
unfolding contents
set-contents c c' (k, e) seen =
    ap (map keep_item) seen
    ∙ map-take keep_item c.capacity ((k, e) ∷ erase text_dec k (view c))
    ∙ ap (λ l. take c.capacity (keep_item (k, e) ∷ l)) (map-erase text_dec item k (view c))

pub del-contents :
    (c c' : Cache) (k : Text)
    → view c' ≡ erase text_dec k (view c)
    → contents c' ≡ erase text_dec k (contents c)
unfolding contents
del-contents c c' k seen = ap (map keep_item) seen ∙ map-erase text_dec item k (view c)

pub live-contents :
    (c c' : Cache) (now : Time)
    → view c' ≡ keep_if (is_live now) (view c)
    → contents c' ≡ keep_if (λ x. not (ltb x.1.1 now)) (contents c)
unfolding contents
live-contents c c' now seen = ap (map keep_item) seen ∙ map-live now (view c)

pub step-Refines :
    (bound : ℕ) (c : Cache) (l : Ideal) (call : Call) → Refines bound c l → Simulates bound c l call
unfolding step ideal_step
step-Refines bound c l (Call.get k now later) r =
    let (valid, same) = get-contents c k now later r.valid in
    (
      (Cache.get c k now later).0,
      rw (get-reply c k now later r.valid.coherent, r.same) refl,
      record {
        valid = valid;
        capacity = get-capacity c k now later ∙ r.capacity;
        same = same ∙ r.same;
      },
    )
step-Refines bound c l (Call.set k v ttl now) r =
    let (c', ended, valid, seen, capacity, _, _) = set-view c k v ttl now r.valid.coherent in
    (
      c',
      rw ended refl,
      record {
        valid = valid;
        capacity = capacity ∙ r.capacity;
        same = rw (← r.capacity, ← r.same) (set-contents c c' _ seen);
      },
    )
step-Refines bound c l (Call.del k) r =
    let (c', ended, valid, seen, capacity) = del-view c k r.valid in
    (
      c',
      rw ended refl,
      record {
        valid = valid;
        capacity = capacity ∙ r.capacity;
        same = rw (← r.same) (del-contents c c' k seen);
      },
    )
step-Refines bound c l (Call.exists_key k now) r =
    (c, rw (exists_key-reply c k now r.valid.coherent, r.same) refl, r)
step-Refines bound c l (Call.cleanup_expired now) r =
    let (c', ended, valid, seen, capacity) = cleanup_expired-view c now r.valid in
    (
      c',
      rw ended refl,
      record {
        valid = valid;
        capacity = capacity ∙ r.capacity;
        same = rw (← r.same) (live-contents c c' now seen);
      },
    )

pub run-Refines :
    (bound : ℕ) (calls : List Call) (c : Cache) (l : Ideal)
    → Refines bound c l
    → (c' : Cache) × (run c calls ≡ some (c', (ideal_run bound l calls).1))
      × Refines bound c' (ideal_run bound l calls).0
unfolding run ideal_run
run-Refines bound [] c l r = (c, refl, r)
run-Refines bound (call ∷ calls) c l r =
    let (c', stepped, r') = step-Refines bound c l call r in
    let (end, ran, r'') = run-Refines bound calls c' (ideal_step bound l call).0 r' in
    (end, rw (stepped, ran) refl, r'')

pub init-Refines : (bound : ℕ) → Refines bound (init bound) []
unfolding init contents view entries_of find contains
init-Refines bound = record {
  valid = record {
    coherent = record {
      addresses = tt;
      listed_once = tt;
      stored_once = tt;
      linked = λ k. refl;
      covered = λ k. refl;
      count = refl;
    };
    bounded = omega arith;
  };
  capacity = refl;
  same = refl;
}

-- Whatever is called on a new cache of capacity `bound`, no call meets undefined behaviour or fails to
-- end. The replies are those of the ideal cache, the cache holds exactly the ideal cache's entries
-- in its order, and it is valid, so that it holds at most `bound` entries.
pub run-init :
    (bound : ℕ) (calls : List Call)
    → (c : Cache) × (run (init bound) calls ≡ some (c, (ideal_run bound [] calls).1))
      × Refines bound c (ideal_run bound [] calls).0
run-init bound calls = run-Refines bound calls (init bound) [] (init-Refines bound)
