-- ===== src/Server/Commands.antt =====
-- What the commands do when the log fails, and where they are carried out.
use dist_cache.Prelude.{◌≡◌, ◌≤◌, ◌<◌, refl, Bool, false, ◌++◌, Option, none, some, arith, if_pos}
use dist_cache.Text.{Text, codes}
use dist_cache.Cache.Invariant.{IsValid}
use dist_cache.Cache.Order.{get-set}
use dist_cache.Cache
use dist_cache.Cache.{Cache, Time, expiry}
use dist_cache.Wal.{Wal}
use dist_cache.Wal.Replay.{append_throws}
use dist_cache.Ring.{RingMap, get_node}
use dist_cache.Server.{Server, Command, Outcome, process_command, default_ttl}

-- The cache is changed before the log is written. Where the log is shut and cannot be opened, SET
-- answers with an error and logs nothing, and the value is in the cache all the same: a GET
-- returns it up to its time of expiry. The cache was valid and has room for an entry.
pub process_set_unlogged :
    (s : Server) (c : Command) (t later : Time)
    → IsValid s.cache
    → 0 < s.cache.capacity
    → c.cmd ≡ codes "SET"
    → s.wal.is_open ≡ false
    → c.can_open ≡ false
    → t ≤ expiry default_ttl c.now
    → (s' : Server) × (o : Outcome) × (process_command s c ≡ some (s', o))
      × (o.success ≡ false)
      × (s'.wal ≡ s.wal)
      × ((Cache.get s'.cache c.key t later).1 ≡ some c.value)
unfolding process_command
process_set_unlogged s c t later valid room e shut stuck fresh =
    let (cache, set, read) =
      get-set s.cache c.key c.value default_ttl c.now t later valid room fresh in
    let what = codes "Failed to open WAL file: " ++ s.wal.filename in
    (
      record s { cache = cache },
      record {
        success = false;
        response = codes "ERR " ++ what;
        target_node = get_node s.ring c.key;
      },
      rw (if_pos _ e, set, stuck, append_throws s.wal (codes "SET") c.key c.value shut) refl,
      refl,
      refl,
      read,
    )

-- The server with another ring.
abbrev pub on_ring : RingMap → Server → Server
on_ring ring s = record s { ring = ring }

abbrev pub seen_of : Option (Server × Outcome) → Option (Cache × Wal × Bool × Text)
seen_of none = none
seen_of (some (s, o)) = some (s.cache, s.wal, o.success, o.response)

-- The ring only names a node: whatever the ring is, the command is carried out here, with the same
-- cache, the same log and the same reply.
pub process_command_local :
    (s : Server) (ring : RingMap) (c : Command)
    → seen_of (process_command (on_ring ring s) c) ≡ seen_of (process_command s c)
unfolding process_command
process_command_local s ring c = ground arith
