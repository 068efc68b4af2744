-- ===== src/Server/Races.antt =====
-- Two clients of TCPServer.cpp that set a key at once. `process_command` calls the cache and then the
-- log, each under a lock of its own, so that the calls of two commands can mix.
use dist_cache.Prelude.{
  map_some, ℕ, zero, suc, ◌<◌, ◌≡◌, refl, ap, ◌∙◌, true, List, [], ◌∷◌, ◌++◌, Option, some, arith,
  ok, throws, Result, ◌>>=◌, if_pos,
}
use dist_cache.Text.{Text, text_dec, codes}
use dist_cache.Text.Words.{IsWord}
use dist_cache.Text.Lines.{Lacks}
use dist_cache.Dict.{find}
use dist_cache.Cache
use dist_cache.Cache.{Cache, Time}
use dist_cache.Wal.{Wal, Record, append, replay}
use dist_cache.Wal.Replay.{IsLoggable, replay-append}
use dist_cache.Server.{Server, Command, process_command, default_ttl}
use dist_cache.Startup.{redo_all}
use dist_cache.Startup.Recovery.{
  values, with_set, set-values, apply_record, apply_all, apply_all-append, redo_all-values,
  init-values,
}
use dist_cache.Startup.Logged.{IsDurable, set-IsWord}

-- One of the two calls that a SET makes.
pub data Access : Type 0 where
  cache_set : Text → Text → Time → Access
  log_set : Text → Text → Access

-- The log after a call of `append`, which leaves it as it was where it throws.
abbrev pub logged : Wal → Result Wal → Wal
logged w (ok w') = w'
logged w (throws what) = w

unfoldable pub access : Server → Access → Option Server
access s (cache_set key value now) =
    Cache.set s.cache key value default_ttl now >>= λ cache. some (record s { cache = cache })
access s (log_set key value) =
    some (record s { wal = logged s.wal (append s.wal (codes "SET") key value true) })

unfoldable pub access_all : Server → List Access → Option Server
access_all s [] = some s
access_all s (a ∷ rest) = access s a >>= λ s'. access_all s' rest

with_set-find :
    (capacity : ℕ) (k v : Text) (m : List (Text × Text))
    → 0 < capacity
    → find text_dec k (with_set capacity k v m) ≡ some v
unfolding find
with_set-find zero k v m h = absurd (omega arith)
with_set-find (suc n) k v m h = if_pos (text_dec k k) refl _ _

-- A record of a SET in the log is what the cache does.
set-record :
    (capacity : ℕ) (k v : Text) (m : List (Text × Text))
    → apply_record capacity m (codes "SET", k, v) ≡ with_set capacity k v m
unfolding apply_record
set-record capacity k v m = if_pos (text_dec (codes "SET") (codes "SET")) refl _ _

set-IsLoggable : (k v : Text) → IsWord k → Lacks b'\n' v → IsLoggable (codes "SET") k v
set-IsLoggable k v key one = record { op_word = set-IsWord; key_word = key; one_line = one }

module _ (s : Server) (k : Text) (key : IsWord k) where
  -- The log after two records of SETs.
  two_logged :
      (v w : Text)
      → IsDurable s
      → Lacks b'\n' v
      → Lacks b'\n' w
      → (wal : Wal) × (logged
            (logged s.wal (append s.wal (codes "SET") k v true))
            (append (logged s.wal (append s.wal (codes "SET") k v true)) (codes "SET") k w true)
          ≡ wal)
        × (replay wal ≡ (replay s.wal ++ (codes "SET", k, v) ∷ []) ++ (codes "SET", k, w) ∷ [])
  two_logged v w d one two =
      let (wal₁, done₁, tidy₁, open₁, read₁) =
        replay-append s.wal (codes "SET") k v true d.tidy (ground (arith, d.opened))
          (set-IsLoggable k v key one) in
      let (wal₂, done₂, tidy₂, open₂, read₂) =
        replay-append wal₁ (codes "SET") k w true tidy₁ (ground (arith, open₁))
          (set-IsLoggable k w key two) in
      (wal₂, rw (done₁, done₂) refl, read₂ ∙ rw read₁ refl)

  -- A cache that is rebuilt from a log whose last record sets the key.
  rebuilt :
      (capacity : ℕ) (clock : ℕ → Time) (v : Text) (wal : Wal) (rs : List Record)
      → 0 < capacity
      → replay wal ≡ rs ++ (codes "SET", k, v) ∷ []
      → (c : Cache) × (redo_all clock 0 (Cache.init capacity) (replay wal) ≡ some c)
        × (find text_dec k (values c) ≡ some v)
  rebuilt capacity clock v wal rs room read =
      let (valid, size, empty) = init-values capacity in
      let (c, redone, _, _, seen) =
        redo_all-values clock 0 (Cache.init capacity) (replay wal) valid in
      let stands : values c ≡ apply_record capacity (apply_all capacity [] rs) (codes "SET", k, v) =
        seen ∙ rw (empty, size, read) (apply_all-append capacity [] rs (codes "SET", k, v)) in
      (
        c,
        redone,
        ap (find text_dec k) (stands ∙ set-record capacity k v (apply_all capacity [] rs))
            ∙ with_set-find capacity k v (apply_all capacity [] rs) room,
      )

  -- On a durable server with room for an entry two clients set one key, each with the cache's call
  -- before the log's, and the second client's record enters the log first. Then the cache holds
  -- the second value, and a program that starts again and replays the log has the first. The key
  -- is a word, and the values have no line end.
  pub sets_race :
      (v w : Text) (t later : Time) (clock : ℕ → Time)
      → IsDurable s
      → 0 < s.cache.capacity
      → Lacks b'\n' v
      → Lacks b'\n' w
      → (s' : Server) × (access_all s
            (cache_set k v t ∷ cache_set k w later ∷ log_set k w ∷ log_set k v ∷ [])
          ≡ some s')
        × (find text_dec k (values s'.cache) ≡ some w)
        × (c : Cache) × (redo_all clock 0 (Cache.init s.cache.capacity) (replay s'.wal) ≡ some c)
        × (find text_dec k (values c) ≡ some v)
  unfolding access_all access
  sets_race v w t later clock d room one two =
      let (c₁, set₁, valid₁, size₁, seen₁) = set-values s.cache k v default_ttl t d.valid in
      let (c₂, set₂, valid₂, size₂, seen₂) = set-values c₁ k w default_ttl later valid₁ in
      let (wal, appended, read) = two_logged w v d two one in
      let (c, redone, found) = rebuilt s.cache.capacity clock v wal _ room read in
      (
        record s { cache = c₂; wal = wal },
        rw (set₁, set₂, appended) refl,
        ap (find text_dec k) seen₂ ∙ with_set-find c₁.capacity k w (values c₁) (rw size₁ room),
        c,
        redone,
        found,
      )

-- A SET that nothing disturbs makes the two calls in this order.
pub process_set-accesses :
    (s : Server) (c : Command)
    → c.cmd ≡ codes "SET"
    → c.can_open ≡ true
    → map_some (λ r. r.0) (process_command s c)
      ≡ access_all s (cache_set c.key c.value c.now ∷ log_set c.key c.value ∷ [])
unfolding process_command access_all access
process_set-accesses s c e open_ = ground (arith, e, open_)
