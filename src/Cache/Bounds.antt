-- ===== src/Cache/Bounds.antt =====
-- The times of expiry fit the clock's signed 64-bit count of nanoseconds.
use dist_cache.Prelude.{
  ℕ, zero, suc, ◌^◌, ◌<◌, ◌≡◌, List, [], ◌∷◌, some, arith, All, take, keep_if, Bool,
}
use dist_cache.Prelude.Int.{ℤ, pos, negsuc, pos_part}
use dist_cache.Text.{Text, text_dec}
use dist_cache.Dict.{erase}
use dist_cache.Cache.Spec.{Call, Item, Reply, Ideal, ideal_step, ideal_run, contents}
use dist_cache.Cache.Run.{run, run-init}
use dist_cache.Cache
use dist_cache.Cache.{Cache, Time, expiry}

-- A clock that has run for at most 146 years, and a `ttl_seconds` that is an `int`.
abbrev pub clock_limit : Time
clock_limit = 2 ^ 62

abbrev pub time_limit : Time
time_limit = 2 ^ 63

abbrev pub InRange : Call → Type 0
InRange (Call.set k v ttl now) = (now < clock_limit) × (pos_part ttl < 2 ^ 31)
InRange _ = Unit

expiry-lt :
    (ttl : ℤ) (now : Time) → now < clock_limit → pos_part ttl < 2 ^ 31 → expiry ttl now < time_limit
unfolding expiry
expiry-lt (pos zero) now h k = ground arith
expiry-lt (pos (suc n)) now h k = ground arith
expiry-lt (negsuc n) now h k = ground arith

abbrev pub Fits : Ideal → Type 0
Fits = All (λ x. x.1.1 < time_limit)

take-Fits : (n : ℕ) (l : Ideal) → Fits l → Fits (take n l)
take-Fits zero l h = tt
take-Fits (suc n) [] h = tt
take-Fits (suc n) (x ∷ l) h = (h.0, take-Fits n l h.1)

erase-Fits : (k : Text) (l : Ideal) → Fits l → Fits (erase text_dec k l)
unfolding erase
erase-Fits k [] h = tt
erase-Fits k ((j, i) ∷ l) h = ground (arith, h.0, erase-Fits k l h.1)

keep_if-Fits : (p : Text × Item → Bool) (l : Ideal) → Fits l → Fits (keep_if p l)
unfolding keep_if
keep_if-Fits p [] h = tt
keep_if-Fits p (x ∷ l) h = ground (arith, h.0, keep_if-Fits p l h.1)

ideal_step-Fits :
    (cap : ℕ) (l : Ideal) (call : Call) → InRange call → Fits l → Fits (ideal_step cap l call).0
unfolding ideal_step
ideal_step-Fits cap l (Call.get k now later) r h = h
ideal_step-Fits cap l (Call.set k v ttl now) r h =
    take-Fits cap _ (expiry-lt ttl now r.0 r.1, erase-Fits k l h)
ideal_step-Fits cap l (Call.del k) r h = erase-Fits k l h
ideal_step-Fits cap l (Call.exists_key k now) r h = h
ideal_step-Fits cap l (Call.cleanup_expired now) r h = keep_if-Fits _ l h

ideal_run-Fits :
    (cap : ℕ) (l : Ideal) (calls : List Call)
    → All InRange calls
    → Fits l
    → Fits (ideal_run cap l calls).0
unfolding ideal_run
ideal_run-Fits cap l [] r h = h
ideal_run-Fits cap l (call ∷ calls) r h =
    ideal_run-Fits cap (ideal_step cap l call).0 calls r.1 (ideal_step-Fits cap l call r.0 h)

-- Whatever is called on a new cache, with `int`s for the times to live and a clock that has run for
-- less than 2^62 nanoseconds, the calls end, and the time of expiry of each entry that is left is
-- below 2^63, the range of a signed 64-bit count of nanoseconds.
pub run-Fits :
    (capacity : ℕ) (calls : List Call)
    → All InRange calls
    → (c : Cache) × (replies : List Reply) × (run (Cache.init capacity) calls ≡ some (c, replies))
      × Fits (contents c)
run-Fits capacity calls r =
    let (c, ran, refines) = run-init capacity calls in
    (c, _, ran, rw refines.same (ideal_run-Fits capacity [] calls r tt))
