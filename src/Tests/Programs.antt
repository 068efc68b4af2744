-- ===== src/Tests/Programs.antt =====
-- The program of main.cpp from its start, over some steps of its threads, to a kill.
use mathlib.Core.Path.{subst}
use dist_cache.Prelude.{
  ◌⊎◌, ℕ, ◌+◌, ◌≤◌, ◌≡◌, ◌≢◌, refl, true, Bool, [], ◌∷◌, Option, none, some, map, arith, Result, ok,
  throws,
}
use dist_cache.Prelude.Int.{pos}
use dist_cache.Text.{Text, text_dec, codes}
use dist_cache.Text.Decimal.{to_string}
use dist_cache.Text.Lines.{Complete, getlines}
use dist_cache.Cache
use dist_cache.Cache.{Cache, Time}
use dist_cache.Wal.{Record, bytes_of, replay}
use dist_cache.Persistence.{load}
use dist_cache.Dict.{contains, find, insert}
use dist_cache.Breaker.{allow_request}
use dist_cache.Metrics
use dist_cache.Discovery
use dist_cache.Discovery.{Discovery}
use dist_cache.Server.Client.{Session, Round, command, connect}
use dist_cache.Server.Writes.{tally, tally_pending}
use dist_cache.Server.Calls.{starting, logging, enter, allow, write, call, pends, with_cache}
use dist_cache.Startup.{main_capacity, redo}
use dist_cache.Startup.Recovery.{values, apply_all}
use dist_cache.Program.{
  Program, boot, launch, main_ring, main_breaker, joining_server, joining_dashboard, complete,
  signal, client, report, report_round, wake, Reach, begin, later,
}
use dist_cache.Prelude.{◌*◌, keep_if, not, ltb}
use dist_cache.Cache.{second}
use dist_cache.Cache.Nodes.{erase_node}
use dist_cache.Cache.Spec.{contents}
use dist_cache.Cache.View.{view, entries_of}
use dist_cache.Wal.{Wal, append}
use dist_cache.Ring.{get_node}
use dist_cache.Server.{Server, Outcome, process_command}
use dist_cache.Server.Requests.{command-IsClean}
use dist_cache.Startup.Logged.{IsDurable, process_command-Keeps}
use dist_cache.Program.{sweep_round, sweeping}
use dist_cache.Program.Expired.{cleanup_undone}
use dist_cache.Program.Boot.{boot-IsBooted}
use dist_cache.Program.Invariant.{IsRunning, launch-IsRunning, Reach-IsRunning}
use dist_cache.Program.Shutdown.{IsHeld, never_complete}
use dist_cache.Program.Progress.{work, efforts, Advances, shutdown_progress}
use dist_cache.Program.Restart.{start_up, Reach-served, kill_and_restart}

abbrev no_directory : Text → Result (Unit {0})
no_directory dir = throws (codes "no such directory")

abbrev clock : ℕ → Time
clock i = 7 + i

-- What a start without any file makes.
abbrev fresh : Session ℕ
fresh = record {
  server = record {
    cache = Cache.init 10000;
    wal = record { filename = codes "wal.log"; file = some []; buffer = []; is_open = true };
    ring = main_ring;
  };
  breaker = main_breaker;
  metrics = Metrics.init 0;
  connection_count = 0;
}

fresh_started : boot 0 no_directory clock none true none ≡ some (ok fresh)
unfolding boot load replay getlines
fresh_started = refl

abbrev node : Discovery
node = Discovery.init (codes "localhost") (pos 6379) 7

-- The first client connects and sets a key in the cache; its record waits for the log.
abbrev set_round : Round ℕ
set_round = record {
  asked = 8;
  key_number = 7;
  choice = 0;
  now = 8;
  later = 8;
  can_open = true;
  latency = 5;
  failed_at = 9;
}

abbrev record_7 : Record
record_7 = (codes "SET", codes "key7", codes "value0")

abbrev or_empty : Option Cache → Cache
or_empty none = Cache.init 10000
or_empty (some c) = c

abbrev cache_7 : Cache
cache_7 = or_empty (redo 8 (Cache.init 10000) record_7)

cache_7_ran : redo 8 (Cache.init 10000) record_7 ≡ some cache_7
unfolding redo Cache.init text_dec Cache.set contains find Cache.evict_while insert
cache_7_ran = refl

abbrev launched : Program ℕ
launched = launch fresh node

abbrev set_once : Program ℕ
set_once = record launched {
  service = record {
    session = with_cache (connect fresh) cache_7;
    stages = logging 0 record_7 ∷ starting ∷ starting ∷ [];
    history = record_7 ∷ [];
  };
}

abbrev asked_to_stop : Program ℕ
asked_to_stop = record set_once { shutdown_requested = true; main_at = joining_server }

set_once-reached : Reach (◌+◌) launched set_once
unfolding launch main_breaker command allow_request to_string replay getlines
set_once-reached =
    later
      (later (later begin (client (call [] (starting ∷ starting ∷ []) refl enter)))
        (client (call [] (starting ∷ starting ∷ []) refl (allow 7 (omega arith) refl))))
      (client (
        call [] (starting ∷ starting ∷ []) refl
          (write {i = 0} set_round (omega arith) (λ e. omega arith) cache_7_ran)))

asked_to_stop-reached : Reach (◌+◌) launched asked_to_stop
unfolding launch
asked_to_stop-reached = later (later set_once-reached signal) (wake refl refl)

Reach-served_example : IsRunning asked_to_stop
Reach-served_example =
    Reach-served (◌+◌) 0 no_directory clock none fresh node asked_to_stop tt fresh_started
      asked_to_stop-reached

never_complete_example : asked_to_stop.main_at ≢ complete
never_complete_example = never_complete (◌+◌) fresh node asked_to_stop-reached

asked_to_stop-IsRunning : IsRunning asked_to_stop
asked_to_stop-IsRunning =
    let (s, started, b) = boot-IsBooted 0 no_directory clock none tt in
    let same : s ≡ fresh = ground (arith, fresh_started) in
    Reach-IsRunning (◌+◌) asked_to_stop-reached (launch-IsRunning none fresh node (rw (← same) b))

asked_to_stop-IsHeld : IsHeld asked_to_stop
unfolding launch
asked_to_stop-IsHeld = record { reporter = refl; main_at = refl }

-- A report after the shutdown has been asked for.
abbrev reported : Program ℕ
reported = report_round asked_to_stop

reported-reached : Reach (◌+◌) asked_to_stop reported
unfolding launch
reported-reached = later begin (report refl)

shutdown_progress_example :
    (efforts (◌+◌) reported-reached + work reported ≤ work asked_to_stop)
    × ((reported.main_at ≡ joining_dashboard) ⊎ Advances (◌+◌) set_round (omega arith) reported)
shutdown_progress_example =
    shutdown_progress (◌+◌) set_round (omega arith) asked_to_stop reported reported-reached
      asked_to_stop-IsRunning asked_to_stop-IsHeld refl

kill_and_restart_example :
    (s' : Session ℕ) × (start_up
        (◌+◌)
        0
        no_directory
        (λ i. 90 + i)
        asked_to_stop.service.session.server.wal.file
      ≡ some (ok s'))
    × (values s'.server.cache
        ≡ apply_all main_capacity [] (replay asked_to_stop.service.session.server.wal))
    × ((t : Record → Bool)
        → tally t (replay asked_to_stop.service.session.server.wal)
            + tally_pending t (map pends asked_to_stop.service.stages)
          ≡ tally t asked_to_stop.service.history)
    × Complete b'\n' (bytes_of asked_to_stop.service.session.server.wal.file)
kill_and_restart_example =
    kill_and_restart (◌+◌) 0 no_directory clock none fresh node asked_to_stop (λ i. 90 + i) tt
      fresh_started asked_to_stop-reached

-- The key has been set and logged, and the cleanup comes two days after.
abbrev or_empty_log : Result Wal → Wal
or_empty_log (ok w) = w
or_empty_log (throws what) = fresh.server.wal

abbrev wal_7 : Wal
wal_7 = or_empty_log (append fresh.server.wal (codes "SET") (codes "key7") (codes "value0") true)

abbrev served : Server
served = record fresh.server { cache = cache_7; wal = wal_7 }

abbrev ok_7 : Outcome
ok_7 = record {
  success = true;
  response = codes "OK";
  target_node = get_node main_ring (codes "key7");
}

served_ran : process_command fresh.server (command 0 set_round) ≡ some (served, ok_7)
unfolding process_command command to_string redo Cache.init text_dec Cache.set contains find
    Cache.evict_while insert append
served_ran = refl

served-IsDurable : IsDurable served
served-IsDurable =
    let (s, started, b) = boot-IsBooted 0 no_directory clock none tt in
    let same : s ≡ fresh = ground (arith, fresh_started) in
    let durable : IsDurable fresh.server =
      subst (λ (x : Session ℕ). IsDurable x.server) same b.well.durable in
    let (s', o, ran, d, _, _) =
      process_command-Keeps fresh.server (command 0 set_round) durable
        (command-IsClean 0 set_round) in
    let same' : s' ≡ served = ground (arith, served_ran, ran) in subst IsDurable same' d

abbrev before_cleanup : Program ℕ
before_cleanup = record (launch (record fresh { server = served }) node) { sweeper = sweeping }

before_cleanup-IsDurable : IsDurable before_cleanup.service.session.server
unfolding launch
before_cleanup-IsDurable = served-IsDurable

before_cleanup-capacity : before_cleanup.service.session.server.cache.capacity ≡ main_capacity
unfolding launch redo Cache.init text_dec Cache.set contains find Cache.evict_while insert
before_cleanup-capacity = refl

abbrev two_days : Time
two_days = 2 * 24 * 3600 * second

abbrev or_before : Option (Program ℕ) → Program ℕ
or_before none = before_cleanup
or_before (some p) = p

abbrev after_cleanup : Program ℕ
after_cleanup = or_before (sweep_round two_days before_cleanup)

cleaned : sweep_round two_days before_cleanup ≡ some after_cleanup
unfolding sweep_round launch Cache.init redo text_dec Cache.set contains find Cache.evict_while
    insert Cache.cleanup_expired Cache.cleanup_loop Cache.is_expired Cache.drop_key Cache.expiry
    Cache.unlink erase_node
cleaned = refl

-- The entry is gone.
emptied : contents after_cleanup.service.session.server.cache ≡ []
unfolding contents view entries_of sweep_round launch Cache.init redo text_dec Cache.set contains
    find Cache.evict_while insert Cache.cleanup_expired Cache.cleanup_loop Cache.is_expired
    Cache.drop_key Cache.expiry Cache.unlink erase_node
emptied = refl

cleanup_undone_example :
    (contents after_cleanup.service.session.server.cache
      ≡ keep_if
          (λ x. not (ltb x.1.1 two_days))
          (contents before_cleanup.service.session.server.cache))
    × (s' : Session ℕ) × (start_up
          (◌+◌)
          0
          no_directory
          (λ i. two_days + i)
          after_cleanup.service.session.server.wal.file
        ≡ some (ok s'))
    × (values s'.server.cache ≡ values before_cleanup.service.session.server.cache)
cleanup_undone_example =
    cleanup_undone (◌+◌) 0 no_directory before_cleanup after_cleanup two_days (λ i. two_days + i)
      before_cleanup-IsDurable before_cleanup-capacity cleaned
