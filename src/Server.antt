-- ===== src/Server.antt =====
-- src/network/TCPServer.h and TCPServer.cpp: `process_command` over the components that it calls.
-- The console output is left out, but for the node that the ring names for the key.
pub mod Commands
pub mod Client
pub mod Requests
pub mod Sessions
pub mod Failures
pub mod Outage
pub mod Races
pub mod Writes
pub mod Calls
use dist_cache.Prelude.{
  ℕ, Bool, true, false, List, [], ◌∷◌, ◌++◌, Option, none, some, ite, Result, ok, throws, ◌>>=◌,
}
use dist_cache.Prelude.Int.{ℤ, negsuc}
use dist_cache.Text.{Text, text_dec, codes}
use dist_cache.Cache
use dist_cache.Cache.{Cache, Time}
use dist_cache.Wal.{Wal, append}
use dist_cache.Ring.{RingMap, get_node}

pub record Server : Type 0 where
  pub cache : Cache
  pub wal : Wal
  pub ring : RingMap

-- A command, with what the world answers during it: the clock, and whether the log can be opened.
pub record Command : Type 0 where
  pub cmd : Text
  pub key : Text
  pub value : Text
  pub now : Time
  pub later : Time
  pub can_open : Bool

pub record Outcome : Type 0 where
  pub success : Bool
  pub response : Text
  pub target_node : Text

-- `ttl_seconds = -1`
abbrev pub default_ttl : ℤ
default_ttl = negsuc 0

-- What follows a change of the cache: the log has taken the operation, or has thrown.
unfoldable pub after_append : Server → Text → Result Wal → Server × Outcome
after_append s target (ok w) =
    (record s { wal = w }, record { success = true; response = codes "OK"; target_node = target })
after_append s target (throws what) =
    (s, record { success = false; response = codes "ERR " ++ what; target_node = target })

process_set : Server → Command → Text → Option (Server × Outcome)
unfolding after_append
process_set s c target = do
  cache ← Cache.set s.cache c.key c.value default_ttl c.now
  some (
      after_append (record s { cache = cache }) target
        (append s.wal (codes "SET") c.key c.value c.can_open))

abbrev pub found_or_nil : Option Text → Text
found_or_nil none = codes "(nil)"
found_or_nil (some v) = v

process_get : Server → Command → Text → Option (Server × Outcome)
process_get s c target =
    let (cache, found) = Cache.get s.cache c.key c.now c.later in
    some (
      record s { cache = cache },
      record { success = true; response = found_or_nil found; target_node = target },
    )

process_del : Server → Command → Text → Option (Server × Outcome)
unfolding after_append
process_del s c target = do
  cache ← Cache.del s.cache c.key
  some (
      after_append (record s { cache = cache }) target
        (append s.wal (codes "DEL") c.key [] c.can_open))

unfoldable pub process_command : Server → Command → Option (Server × Outcome)
unfolding process_set process_get process_del
process_command s c =
    let target = get_node s.ring c.key in
    ite (text_dec c.cmd (codes "SET")) (process_set s c target) (
      ite (text_dec c.cmd (codes "GET")) (process_get s c target) (
        ite (text_dec c.cmd (codes "DEL")) (process_del s c target) (
          some (
            s,
            record {
              success = false;
              response = codes "ERR unknown command";
              target_node = target;
            },
          ))))

unfoldable pub process_all : Server → List Command → Option (Server × List Outcome)
process_all s [] = some (s, [])
process_all s (c ∷ cs) = do
  (s', outcome) ← process_command s c
  (end, outcomes) ← process_all s' cs
  some (end, outcome ∷ outcomes)
