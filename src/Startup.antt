-- ===== src/Startup.antt =====
-- main.cpp: how the program fills the cache when it starts, from the snapshot and from the log.
pub mod Recovery
pub mod Logged
pub mod Durable
use dist_cache.Prelude.{ℕ, suc, List, [], ◌∷◌, Option, none, some, ite, length, ◌>>=◌}
use dist_cache.Text.{Text, text_dec, codes}
use dist_cache.Cache
use dist_cache.Cache.{Cache, Time}
use dist_cache.Persistence.{Map}
use dist_cache.Wal.{Record}
use dist_cache.Server.{default_ttl}

-- `LRUCache cache(10000)`
abbrev pub main_capacity : ℕ
main_capacity = 10000

-- `clock i` is what the `i`th call of `set` reads from the clock.
unfoldable pub restore : (ℕ → Time) → ℕ → Cache → Map → Option Cache
restore clock i c [] = some c
restore clock i c ((key, value) ∷ entries) =
    Cache.set c key value default_ttl (clock i) >>= λ c'. restore clock (suc i) c' entries

-- One record of the log; an operation that is neither is passed over.
unfoldable pub redo : Time → Cache → Record → Option Cache
redo now c (op, key, value) =
    ite (text_dec op (codes "SET")) (Cache.set c key value default_ttl now)
      (ite (text_dec op (codes "DEL")) (Cache.del c key) (some c))

unfoldable pub redo_all : (ℕ → Time) → ℕ → Cache → List Record → Option Cache
redo_all clock i c [] = some c
redo_all clock i c (r ∷ rs) = redo (clock i) c r >>= λ c'. redo_all clock (suc i) c' rs

-- main's fill of the new cache: the snapshot first, then the log. The clock goes on where the
-- snapshot's entries stopped reading it.
unfoldable pub recover_cache : (ℕ → Time) → Map → List Record → Option Cache
unfolding restore redo_all
recover_cache clock persisted_data records =
    restore clock 0 (Cache.init main_capacity) persisted_data >>= λ c.
    redo_all clock (length persisted_data) c records
