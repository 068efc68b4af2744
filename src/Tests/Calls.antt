-- ===== src/Tests/Calls.antt =====
-- Two of three clients set a key and get it, with their calls in between one another, a whole
-- session, and a client whose log is shut.
use dist_cache.Prelude.{
  ℕ, ◌+◌, ◌≡◌, refl, true, false, List, [], ◌∷◌, Option, none, some, Result, ok, throws, arith, ◌⊎◌,
  ◌≤◌, ◌%◌,
}
use dist_cache.Prelude.Int.{pos}
use dist_cache.Text.{text_dec, codes}
use dist_cache.Text.Lines.{getlines}
use dist_cache.Text.Decimal.{to_string}
use dist_cache.Dict.{contains, find, insert}
use dist_cache.OrdMap
use dist_cache.Cache.View.{view, entries_of}
use dist_cache.Cache.Spec.{contents}
use dist_cache.Cache.Run.{init-Refines}
use dist_cache.Cache
use dist_cache.Cache.{Cache}
use dist_cache.Wal.{Wal, Record, append, replay}
use dist_cache.Breaker
use dist_cache.Breaker.{allow_request}
use dist_cache.Metrics
use dist_cache.Metrics.{counter}
use dist_cache.Startup.{redo}
use dist_cache.Startup.Recovery.{values, apply_all}
use dist_cache.Server.Client.{Session, Round, command, connect, handle_client_simulation}
use dist_cache.Server.Sessions.{IsWell, handle_client_simulation-Served}
use dist_cache.Server.Calls.{
  starting, gone, asking, admitted, logging, answered, Service, enter, allow, log_fails, write,
  look, log, Step, call, Reach, begin, later, with_cache, with_wal, service,
}
use dist_cache.Server.Calls.Invariant.{IsServing}
use dist_cache.Server.Calls.Ends.{left, calls}
use dist_cache.Server.Calls.Outage.{IsAccounted, Reach-IsAccounted}
use dist_cache.Server.Calls.Progress.{HasEnded, StepFollows, Reach-ends}
use dist_cache.Server.Calls.Counts.{total}
use dist_cache.Server.Calls.Whole.{handle_client_simulation-Reach}

abbrev idle : Session ℕ
idle = record {
  server = record {
    cache = Cache.init 3;
    wal = record { filename = codes "wal.log"; file = some []; buffer = []; is_open = true };
    ring = [];
  };
  breaker = Breaker.init (pos 5) (pos 30000);
  metrics = Metrics.init 0;
  connection_count = 0;
}

abbrev opening : Service ℕ
opening = record { session = idle; stages = starting ∷ starting ∷ starting ∷ []; history = [] }

opening-IsServing : IsServing 3 opening
unfolding values contents view entries_of Cache.init replay getlines apply_all counter Metrics.init
    Breaker.init OrdMap.find
opening-IsServing = record {
  tracked = record {
    valid = unfold Cache.init in (init-Refines 3).valid;
    size = refl;
    tidy = record { flushed = refl; whole = tt };
    opened = refl;
    waiting = (tt, (tt, (tt, tt)));
    logged = λ p. refl;
  };
  shut = refl;
  connections = refl;
  successes = refl;
  requests = refl;
  failures = refl;
  refusals = refl;
  smooth = (tt, (tt, (tt, tt)));
  few = refl;
}

opening-seen : values idle.server.cache ≡ apply_all 3 [] []
unfolding values contents view entries_of Cache.init apply_all
opening-seen = refl

abbrev set_7 : Round ℕ
set_7 = record {
  asked = 8;
  key_number = 7;
  choice = 0;
  now = 8;
  later = 8;
  can_open = true;
  latency = 5;
  failed_at = 9;
}

abbrev record_7 : Record
record_7 = (codes "SET", codes "key7", codes "value0")

abbrev or_empty : Option Cache → Cache
or_empty none = Cache.init 3
or_empty (some c) = c

abbrev or_idle : Result Wal → Wal
or_idle (ok w) = w
or_idle (throws what) = idle.server.wal

abbrev cache_7 : Cache
cache_7 = or_empty (redo 8 (Cache.init 3) record_7)

cache_7_ran : redo 8 (Cache.init 3) record_7 ≡ some cache_7
unfolding redo Cache.init text_dec Cache.set contains find Cache.evict_while insert
cache_7_ran = refl

abbrev wal_7 : Wal
wal_7 = or_idle (append idle.server.wal (codes "SET") (codes "key7") (codes "value0") true)

wal_7_ran : append idle.server.wal (codes "SET") (codes "key7") (codes "value0") true ≡ ok wal_7
unfolding append
wal_7_ran = refl

-- The first client has set the key and not logged it when the second gets it.
abbrev crossed : Service ℕ
crossed = record {
  session =
      record (with_wal
        (with_cache (connect (connect idle)) (Cache.get cache_7 (codes "key7") 8 8).0) wal_7) {
          connection_count = 2;
        };
  stages = answered 0 true ∷ answered 0 true ∷ starting ∷ [];
  history = record_7 ∷ [];
}

crossed-reached : Reach (◌+◌) opening crossed
unfolding command allow_request Breaker.init to_string
crossed-reached =
    later
      (later
        (later
          (later
            (later
              (later (later begin (call [] (starting ∷ starting ∷ []) refl enter))
                (call (asking 0 ∷ []) (starting ∷ []) refl enter))
              (call (asking 0 ∷ []) (starting ∷ []) refl (allow 7 (omega arith) refl)))
            (call [] (admitted 0 ∷ starting ∷ []) refl (allow 8 (omega arith) refl)))
          (call [] (admitted 0 ∷ starting ∷ []) refl
            (write {i = 0} set_7 (omega arith) (λ e. omega arith) cache_7_ran)))
        (call (logging 0 record_7 ∷ []) (starting ∷ []) refl
          (look (record set_7 { choice = 1 }) refl)))
      (call [] (answered 0 true ∷ starting ∷ []) refl (log true wal_7_ran))

Reach-ends_example :
    (calls (◌+◌) crossed-reached + total left crossed.stages ≤ total left opening.stages)
    × (HasEnded 3 crossed
        ⊎ ((t : Service ℕ) × (step : Step (◌+◌) crossed t) × StepFollows set_7 step))
Reach-ends_example =
    Reach-ends (◌+◌) set_7 (omega arith) 3 opening-IsServing opening-seen crossed-reached

abbrev draws : ℕ → Round ℕ
draws i = record set_7 { asked = i; choice = i % 3; now = i; later = i }

idle-IsWell : IsWell idle
unfolding counter Metrics.init Breaker.init OrdMap.find values contents view entries_of Cache.init
    replay getlines apply_all
idle-IsWell = record {
  durable = record {
    valid = unfold Cache.init in (init-Refines 3).valid;
    tidy = record { flushed = refl; whole = tt };
    opened = refl;
    logged = refl;
  };
  shut = refl;
  counted = omega arith;
}

-- One whole session ends.
session_ends : (s : Session ℕ) × (handle_client_simulation (◌+◌) draws idle ≡ some s)
session_ends =
    let (s, ended, _, _) =
      handle_client_simulation-Served (◌+◌) draws idle idle-IsWell (omega arith)
        (λ j. omega arith) in
    (s, ended)

handle_client_simulation-Reach_example :
    (h : List Record) × Reach
      (◌+◌)
      (service (starting ∷ []) [] idle [] starting)
      (service (starting ∷ []) [] session_ends.0 h gone)
handle_client_simulation-Reach_example =
    handle_client_simulation-Reach (◌+◌) (starting ∷ []) [] draws idle session_ends.0 []
      (λ j. omega arith) session_ends.1

-- The log is shut and cannot be opened.
abbrev shut_off : Service ℕ
shut_off = record opening {
  session = record idle {
    server = record idle.server { wal = record idle.server.wal { is_open = false } };
  };
}

shut_off-IsAccounted : IsAccounted 3 shut_off
unfolding values contents view entries_of Cache.init replay getlines apply_all counter Metrics.init
    OrdMap.find
shut_off-IsAccounted = record {
  lost = [];
  seen = refl;
  refused = refl;
  tracked = record {
    valid = unfold Cache.init in (init-Refines 3).valid;
    size = refl;
    tidy = record { flushed = refl; whole = tt };
    opened = refl;
    waiting = (tt, (tt, (tt, tt)));
    logged = λ p. refl;
  };
  connections = refl;
  requests = refl;
  measures = refl;
  within = (tt, (tt, (tt, tt)));
  few = refl;
}

-- The first client's record has been refused.
abbrev unlogged : Service ℕ
unlogged = record {
  session = with_cache (connect shut_off.session) cache_7;
  stages = answered 0 false ∷ starting ∷ starting ∷ [];
  history = record_7 ∷ [];
}

unlogged-reached : Reach (◌+◌) shut_off unlogged
unfolding command allow_request Breaker.init to_string append
unlogged-reached =
    later
      (later
        (later (later begin (call [] (starting ∷ starting ∷ []) refl enter))
          (call [] (starting ∷ starting ∷ []) refl (allow 7 (omega arith) refl)))
        (call [] (starting ∷ starting ∷ []) refl
          (write {i = 0} set_7 (omega arith) (λ e. omega arith) cache_7_ran)))
      (call [] (starting ∷ starting ∷ []) refl (log_fails false refl))

Reach-IsAccounted_example : IsAccounted 3 unlogged
Reach-IsAccounted_example = Reach-IsAccounted (◌+◌) 3 shut_off-IsAccounted unlogged-reached
