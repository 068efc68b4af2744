-- ===== src/Program.antt =====
-- main.cpp as one program: what `main` makes before it starts its threads, and the threads as a step
-- relation. One step is one call of a client (Server/Calls), a cleanup, which holds the cache's lock, a
-- report, or a move of `main`; what the world answers in a step (the clock, the draws, whether the log
-- can be opened) is given with the step. What `main` prints is left out.
pub mod Boot
pub mod Latest
pub mod Invariant
pub mod Shutdown
pub mod Restart
pub mod Expired
pub mod Progress
use dist_cache.Prelude.{
  ℕ, suc, ◌≤◌, ◌<◌, ◌+◌, ◌*◌, ◌≡◌, Bool, true, false, List, [], ◌∷◌, ◌++◌, Option, some, Result, ok,
  throws, All, ◌>>=◌,
}
use dist_cache.Prelude.Int.{pos}
use dist_cache.Text.{Text, codes}
use dist_cache.Cache.{Time, cleanup_expired}
use dist_cache.Wal.{open_log, replay}
use dist_cache.Persistence.{open_persistence, load}
use dist_cache.Ring.{RingMap, add_node}
use dist_cache.Breaker
use dist_cache.Breaker.{Breaker}
use dist_cache.Metrics
use dist_cache.Metrics.{record_active_connections}
use dist_cache.Discovery.{Discovery, broadcast_heartbeat, listen_for_heartbeats}
use dist_cache.Dashboard.{generate_status_report}
use dist_cache.Server.Client.{Session, get_connection_count}
use dist_cache.Server.Calls
use dist_cache.Server.Calls.{Stage, starting, gone, Service, with_cache}
use dist_cache.Startup.{recover_cache}

unfoldable pub main_ring : RingMap
unfolding add_node
main_ring = add_node (add_node (add_node [] (codes "node-1")) (codes "node-2")) (codes "node-3")

unfoldable pub main_breaker : Breaker
unfolding Breaker.init
main_breaker = Breaker.init (pos 5) (pos 30000)

-- `main` up to the server's start: the components, and the cache's fill. An exception that a
-- constructor throws ends the program.
unfoldable pub boot :
    {D : Type 0}
    → D
    → (Text → Result (Unit {0}))
    → (ℕ → Time)
    → Option Text
    → Bool
    → Option Text
    → Option (Result (Session D))
unfolding open_log open_persistence recover_cache main_ring main_breaker Metrics.init
boot zero_latency create_directories clock wal_file can_open snapshot_file =
    elim (open_log (codes "wal.log") wal_file can_open) [
      | throws what ↦ some (throws what)
      | ok wal ↦ elim (open_persistence create_directories (codes "snapshot.dat")) [
        | throws what ↦ some (throws what)
        | ok filename ↦ recover_cache clock (load snapshot_file) (replay wal) >>= λ cache. some (
            ok (record {
              server = record { cache = cache; wal = wal; ring = main_ring };
              breaker = main_breaker;
              metrics = Metrics.init zero_latency;
              connection_count = 0;
            }))
      ]
    ]

-- Where the discovery thread stands.
pub data Seeker : Type 0 where
  broadcasting listening found : Seeker

-- The dashboard's thread is in its loop, or has returned from `start`.
pub data Reporter : Type 0 where
  reporting returned : Reporter

-- The cleanup thread: at the test of the flag, behind the sleep, behind `cleanup_expired`, ended.
pub data Sweeper : Type 0 where
  testing sweeping recording stopped : Sweeper

-- `main` waits for the flag, or in one of the joins, or has printed that the shutdown is complete.
pub data MainAt : Type 0 where
  waiting joining_server joining_discovery joining_dashboard joining_cleanup complete : MainAt

pub record Program (D : Type 0) : Type 0 where
  pub service : Service D
  pub discovery : Discovery
  pub reports : List Text
  pub shutdown_requested : Bool
  pub main_at : MainAt
  pub seeker : Seeker
  pub reporter : Reporter
  pub sweeper : Sweeper

-- The threads that `TCPServer::start` makes, and the test that all are joined.
abbrev pub server_clients : List Stage
server_clients = starting ∷ starting ∷ starting ∷ []

abbrev pub AreGone : List Stage → Type 0
AreGone = All (λ at. at ≡ gone)

-- The program when all its threads have been made. Its writes start with those of the log.
unfoldable pub launch : {D : Type 0} → Session D → Discovery → Program D
unfolding replay
launch session discovery = record {
  service = record {
    session = session;
    stages = server_clients;
    history = replay session.server.wal;
  };
  discovery = discovery;
  reports = [];
  shutdown_requested = false;
  main_at = waiting;
  seeker = broadcasting;
  reporter = reporting;
  sweeper = testing;
}

abbrev pub signal_handler : {D : Type 0} → Program D → Program D
signal_handler p = record p { shutdown_requested = true }

-- One round of the `while (true)` of `HttpDashboard::start`.
abbrev pub report_round : {D : Type 0} → Program D → Program D
report_round p = record p {
  reports =
      p.reports
      ++ generate_status_report p.service.session.breaker p.service.session.server.ring
          p.service.session.metrics
        ∷ [];
}

abbrev pub with_session : {D : Type 0} → Program D → Session D → Program D
with_session p s = record p { service = record p.service { session = s } }

-- `cache.cleanup_expired()` in the loop of the cleanup thread.
unfoldable pub sweep_round : {D : Type 0} → Time → Program D → Option (Program D)
sweep_round now p = do
  cache ← cleanup_expired p.service.session.server.cache now
  some (record (with_session p (with_cache p.service.session cache)) { sweeper = recording })

module _ {D : Type 0} (add : D → D → D) where
  pub data Step (p : Program D) : Program D → Type 0 where
    signal : Step p (signal_handler p)
    client : {t : Service D} → Calls.Step add p.service t → Step p (record p { service = t })
    broadcast :
        (now exchanged checked : Time) (heard : Text → Bool)
        → p.seeker ≡ broadcasting
        → Step p (record p {
          discovery = broadcast_heartbeat now exchanged checked heard p.discovery;
          seeker = listening;
        })
    listen :
        (now : Time) (heard : Text → Bool)
        → p.seeker ≡ listening
        → Step p
            (record p { discovery = listen_for_heartbeats heard now p.discovery; seeker = found })
    report : p.reporter ≡ reporting → Step p (report_round p)
    test_on :
        p.sweeper ≡ testing
        → p.shutdown_requested ≡ false
        → Step p (record p { sweeper = sweeping })
    test_off :
        p.sweeper ≡ testing → p.shutdown_requested ≡ true → Step p (record p { sweeper = stopped })
    sweep :
        (now : Time) {q : Program D} → p.sweeper ≡ sweeping → sweep_round now p ≡ some q → Step p q
    record_count :
        p.sweeper ≡ recording
        → Step p
            (record (with_session p (record p.service.session {
              metrics =
                  record_active_connections
                    (get_connection_count p.service.session)
                    p.service.session.metrics;
            })) { sweeper = testing })
    -- The loop of `main`, and what follows it.
    wake :
        p.main_at ≡ waiting
        → p.shutdown_requested ≡ true
        → Step p (record p { main_at = joining_server; shutdown_requested = true })
    join_server :
        p.main_at ≡ joining_server
        → AreGone p.service.stages
        → Step p (record p { main_at = joining_discovery })
    join_discovery :
        p.main_at ≡ joining_discovery
        → p.seeker ≡ found
        → Step p (record p { main_at = joining_dashboard })
    join_dashboard :
        p.main_at ≡ joining_dashboard
        → p.reporter ≡ returned
        → Step p (record p { main_at = joining_cleanup })
    join_cleanup :
        p.main_at ≡ joining_cleanup → p.sweeper ≡ stopped → Step p (record p { main_at = complete })

  -- What the program can come to from a state.
  pub data Reach (start : Program D) : Program D → Type 0 where
    begin : Reach start start
    later : {p q : Program D} → Reach start p → Step p q → Reach start q
