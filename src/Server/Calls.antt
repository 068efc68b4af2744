-- ===== src/Server/Calls.antt =====
-- The client threads of TCPServer.cpp, one call at a time: the calls of the breaker, the cache, the
-- log and the metrics that a round makes, each under the lock of its own object, mix with those of
-- the other clients in any order.
pub mod Counts
pub mod Invariant
pub mod Answers
pub mod Whole
pub mod Ends
pub mod Progress
pub mod Ledger
pub mod Accounts
pub mod Outage
use dist_cache.Prelude.{
  ℕ, suc, ◌≡◌, ◌<◌, Bool, true, false, List, [], ◌∷◌, ◌++◌, Option, none, some, ok, throws, map,
}
use dist_cache.Text.{Text}
use dist_cache.Cache
use dist_cache.Cache.{Cache, Time}
use dist_cache.Wal.{Wal, Record, append}
use dist_cache.Breaker.{allow_request, record_success, record_failure}
use dist_cache.Metrics.{increment_counter, record_latency}
use dist_cache.Server.{Command}
use dist_cache.Server.Client.{Session, Round, command, client_requests, connect, disconnect}
use dist_cache.Server.Sessions.{succeeded, failed, blocked}
use dist_cache.Server.Writes.{Writers}
use dist_cache.Startup.{redo}

-- Where a client stands in its rounds: before the breaker's answer, behind it, before the log's
-- call, behind the command's answer, behind the latency, behind the report to the breaker.
pub data Stage : Type 0 where
  starting gone : Stage
  asking admitted refused : ℕ → Stage
  logging : ℕ → Record → Stage
  answered timed told : ℕ → Bool → Stage

abbrev pub record_of : Command → Record
record_of c = (c.cmd, c.key, c.value)

-- The session's cache and log in place of the old ones.
abbrev pub with_cache : {D : Type 0} → Session D → Cache → Session D
with_cache s cache = record s { server = record s.server { cache = cache } }

abbrev pub with_wal : {D : Type 0} → Session D → Wal → Session D
with_wal s wal = record s { server = record s.server { wal = wal } }

-- The clients' objects, where each client stands, and the writes that the cache has taken.
pub record Service (D : Type 0) : Type 0 where
  pub session : Session D
  pub stages : List Stage
  pub history : List Record

-- The service with one client between others.
abbrev pub service :
    {D : Type 0} → List Stage → List Stage → Session D → List Record → Stage → Service D
service before after s h at = record { session = s; stages = before ++ at ∷ after; history = h }

module _ {D : Type 0} (add : D → D → D) where
  -- One call of one client, over the objects and the writes so far.
  pub data Call (s : Session D) (h : List Record)
      : Stage → Session D → List Record → Stage → Type 0 where
    enter : Call s h starting (connect s) h (asking 0)
    allow :
        {i : ℕ} (now : Time)
        → i < client_requests
        → (allow_request s.breaker now).1 ≡ true
        → Call s h
            (asking i)
            (record s { breaker = (allow_request s.breaker now).0 })
            h
            (admitted i)
    refuse :
        {i : ℕ} (now : Time)
        → i < client_requests
        → (allow_request s.breaker now).1 ≡ false
        → Call s h (asking i) (record s { breaker = (allow_request s.breaker now).0 }) h (refused i)
    count_refused :
        {i : ℕ}
        → Call s h
            (refused i)
            (record s { metrics = increment_counter blocked s.metrics })
            h
            (asking (suc i))
    -- `cache_.set` of a SET and `cache_.del` of a DEL
    write :
        {i : ℕ} (r : Round D) {cache : Cache}
        → r.choice < 3
        → ¬ (r.choice ≡ 1)
        → redo r.now s.server.cache (record_of (command i r)) ≡ some cache
        → Call s h
            (admitted i)
            (with_cache s cache)
            (h ++ record_of (command i r) ∷ [])
            (logging i (record_of (command i r)))
    -- `cache_.get` of a GET
    look :
        {i : ℕ} (r : Round D)
        → r.choice ≡ 1
        → Call s h
            (admitted i)
            (with_cache s (Cache.get s.server.cache (command i r).key r.now r.later).0)
            h
            (answered i true)
    log :
        {i : ℕ} {r : Record} (can_open : Bool) {wal : Wal}
        → append s.server.wal r.0 r.1 r.2 can_open ≡ ok wal
        → Call s h (logging i r) (with_wal s wal) h (answered i true)
    log_fails :
        {i : ℕ} {r : Record} (can_open : Bool) {what : Text}
        → append s.server.wal r.0 r.1 r.2 can_open ≡ throws what
        → Call s h (logging i r) s h (answered i false)
    measure :
        {i : ℕ} {success : Bool} (ms : D)
        → Call s h
            (answered i success)
            (record s { metrics = record_latency add ms s.metrics })
            h
            (timed i success)
    report_success :
        {i : ℕ}
        → Call s h (timed i true) (record s { breaker = record_success s.breaker }) h (told i true)
    report_failure :
        {i : ℕ} (now : Time)
        → Call s h
            (timed i false)
            (record s { breaker = record_failure s.breaker now })
            h
            (told i false)
    count_success :
        {i : ℕ}
        → Call s h
            (told i true)
            (record s { metrics = increment_counter succeeded s.metrics })
            h
            (asking (suc i))
    count_failure :
        {i : ℕ}
        → Call s h
            (told i false)
            (record s { metrics = increment_counter failed s.metrics })
            h
            (asking (suc i))
    leave : {i : ℕ} → i ≡ client_requests → Call s h (asking i) (disconnect s) h gone

  pub data Step (s : Service D) : Service D → Type 0 where
    call :
        (before after : List Stage) {at at' : Stage} {session : Session D} {history : List Record}
        → s.stages ≡ before ++ at ∷ after
        → Call s.session s.history at session history at'
        → Step s (record { session = session; stages = before ++ at' ∷ after; history = history })

  pub data Reach (start : Service D) : Service D → Type 0 where
    begin : Reach start start
    later : {s t : Service D} → Reach start s → Step s t → Reach start t

-- What a client has written to the cache and not yet to the log.
abbrev pub pends : Stage → Option Record
pends (logging i r) = some r
pends _ = none

abbrev pub writers : {D : Type 0} → Service D → Writers
writers s = record { server = s.session.server; pending = map pends s.stages; history = s.history }
