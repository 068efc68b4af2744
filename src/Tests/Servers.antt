-- ===== src/Tests/Servers.antt =====
-- Commands of a client, and a restart.
use dist_cache.Cache.{Time}
use dist_cache.Prelude.{◌≡◌, refl, true, false, List, [], ◌∷◌, none, some, arith, All}
use dist_cache.Text.{text_dec, codes}
use dist_cache.Text.Words.{is_space}
use dist_cache.Text.Lines.{getlines}
use dist_cache.Cache.View.{view, entries_of}
use dist_cache.Cache.Spec.{contents}
use dist_cache.Cache.Invariant.{IsValid}
use dist_cache.Cache.Run.{init-Refines}
use dist_cache.Cache
use dist_cache.Cache.{Cache}
use dist_cache.Wal.{replay}
use dist_cache.Server.{Server, Command, Outcome, process_command, process_all}
use dist_cache.Server.Commands.{process_set_unlogged, seen_of, on_ring, process_command_local}
use dist_cache.Prelude.{ℕ, ◌+◌, ◌%◌}
use dist_cache.Prelude.Int.{pos}
use dist_cache.OrdMap
use dist_cache.Breaker
use dist_cache.Metrics
use dist_cache.Metrics.{counter}
use dist_cache.Server.Client.{Session, Round, handle_client_simulation}
use dist_cache.Breaker.{open_}
use dist_cache.Server.Failures.{IsDown, Tally}
use dist_cache.Server.Outage.{IsOutage, handle_client_simulation-outage}
use dist_cache.Server.Sessions.{IsWell, Served, handle_client_simulation-Served}
use dist_cache.Startup.{redo_all, recover_cache, main_capacity}
use dist_cache.Dict.{find}
use dist_cache.Server.Races.{access_all, cache_set, log_set, sets_race}
use dist_cache.Startup.Recovery.{values, apply_all, set_all, recover_cache-values}
use dist_cache.Startup.Logged.{IsDurable, IsClean}
use dist_cache.Startup.Durable.{recovery}

abbrev started : Server
started = record {
  cache = Cache.init 3;
  wal = record { filename = codes "wal.log"; file = some []; buffer = []; is_open = true };
  ring = [];
}

start-IsValid : IsValid (Cache.init 3)
start-IsValid = (init-Refines 3).valid

started-IsDurable : IsDurable started
unfolding values contents view entries_of Cache.init replay getlines apply_all
started-IsDurable = record {
  valid = unfold Cache.init in start-IsValid;
  tidy = record { flushed = refl; whole = tt };
  opened = refl;
  logged = refl;
}

abbrev set_k : Command
set_k = record {
  cmd = codes "SET";
  key = codes "k1";
  value = codes "a b";
  now = 5;
  later = 5;
  can_open = false;
}

abbrev commands : List Command
commands =
    set_k
    ∷ record set_k { cmd = codes "GET" }
    ∷ record set_k { key = codes "k2" }
    ∷ record set_k { cmd = codes "DEL" }
    ∷ []

commands-IsClean : All IsClean commands
unfolding is_space
commands-IsClean = (
  record { key_word = ((λ e. cc), (refl, (refl, tt))); one_line = (refl, (refl, (refl, tt))) },
  (
    record { key_word = ((λ e. cc), (refl, (refl, tt))); one_line = (refl, (refl, (refl, tt))) },
    (
      record { key_word = ((λ e. cc), (refl, (refl, tt))); one_line = (refl, (refl, (refl, tt))) },
      (
        record {
          key_word = ((λ e. cc), (refl, (refl, tt)));
          one_line = (refl, (refl, (refl, tt)));
        },
        tt,
      ),
    ),
  ),
)

recovery_example :
    (s' : Server) × (os : List Outcome) × (process_all started commands ≡ some (s', os))
    × (c : Cache) × (redo_all (λ i. i) 0 (Cache.init started.cache.capacity) (replay s'.wal)
        ≡ some c)
    × IsValid c
    × (values c ≡ values s'.cache)
recovery_example = recovery started commands (λ i. i) started-IsDurable commands-IsClean

-- A snapshot of two entries, and a log that deletes one of them.
recover_cache-values_example :
    (c : Cache) × (recover_cache
        (λ i. i)
        ((codes "k", codes "v") ∷ (codes "l", codes "w") ∷ [])
        ((codes "DEL", codes "k", []) ∷ [])
      ≡ some c)
    × IsValid c
    × (c.capacity ≡ main_capacity)
    × (values c
        ≡ apply_all main_capacity
            (set_all main_capacity [] ((codes "k", codes "v") ∷ (codes "l", codes "w") ∷ []))
            ((codes "DEL", codes "k", []) ∷ []))
recover_cache-values_example =
    recover_cache-values (λ i. i) ((codes "k", codes "v") ∷ (codes "l", codes "w") ∷ [])
      ((codes "DEL", codes "k", []) ∷ [])

sets_race_example :
    (s' : Server) × (access_all started (
        cache_set (codes "k") (codes "1") 4
        ∷ cache_set (codes "k") (codes "2") 5
        ∷ log_set (codes "k") (codes "2")
        ∷ log_set (codes "k") (codes "1")
        ∷ [])
      ≡ some s')
    × (find text_dec (codes "k") (values s'.cache) ≡ some (codes "2"))
    × (c : Cache) × (redo_all (λ i. i) 0 (Cache.init started.cache.capacity) (replay s'.wal)
        ≡ some c)
    × (find text_dec (codes "k") (values c) ≡ some (codes "1"))
unfolding Cache.init is_space
sets_race_example =
    sets_race started (codes "k") ((λ e. cc), (refl, tt)) (codes "1") (codes "2") 4 5 (λ i. i)
      started-IsDurable (omega arith) (refl, tt) (refl, tt)

abbrev shut : Server
shut = record started {
  wal = record { filename = codes "wal.log"; file = none; buffer = []; is_open = false };
}

process_set_unlogged_example :
    (s' : Server) × (o : Outcome) × (process_command shut set_k ≡ some (s', o))
    × (o.success ≡ false)
    × (s'.wal ≡ shut.wal)
    × ((Cache.get s'.cache (codes "k1") 6 6).1 ≡ some (codes "a b"))
unfolding Cache.init Cache.expiry
process_set_unlogged_example =
    process_set_unlogged shut set_k 6 6 start-IsValid (omega arith) refl refl refl (omega arith)

process_command_local_example :
    seen_of (process_command (on_ring ((7, codes "node-9") ∷ []) started) set_k)
    ≡ seen_of (process_command started set_k)
process_command_local_example = process_command_local started ((7, codes "node-9") ∷ []) set_k

-- A session of the ten requests.
abbrev draws : ℕ → Round ℕ
draws i = record {
  asked = i;
  key_number = 7;
  choice = i % 3;
  now = i;
  later = i;
  can_open = true;
  latency = 5;
  failed_at = i;
}

abbrev session : Session ℕ
session = record {
  server = started;
  breaker = Breaker.init (pos 5) (pos 30000);
  metrics = Metrics.init 0;
  connection_count = 2;
}

session-IsWell : IsWell session
unfolding counter Metrics.init Breaker.init OrdMap.find
session-IsWell = record { durable = started-IsDurable; shut = refl; counted = omega arith }

handle_client_simulation-Served_example :
    (s' : Session ℕ) × (handle_client_simulation (◌+◌) draws session ≡ some s')
    × IsWell s'
    × Served 10 session s'
handle_client_simulation-Served_example =
    handle_client_simulation-Served (◌+◌) draws session session-IsWell (omega arith)
      (λ j. omega arith)

-- The log cannot be opened, the threshold is 5, and all requests come within 30 seconds.
abbrev down : Session ℕ
down = record session { server = shut }

abbrev stuck_draws : ℕ → Round ℕ
stuck_draws i = record (draws 0) { asked = 5; can_open = false; failed_at = 4 }

down-IsDown : IsDown 5 down
unfolding counter Metrics.init Breaker.init OrdMap.find
down-IsDown = record {
  valid = start-IsValid;
  shut = refl;
  armed = record {
    positive = omega arith;
    in_range = omega arith;
    threshold = refl;
    below = λ e. omega arith;
  };
  few_failed = omega arith;
  few_blocked = omega arith;
}

stuck_draws-IsOutage : IsOutage 4 30000 stuck_draws
stuck_draws-IsOutage = record {
  stuck = λ j. record { sets = refl; stuck = refl };
  after = λ j h. omega arith;
  before = λ j h. omega arith;
}

handle_client_simulation-outage_example :
    (s' : Session ℕ) × (handle_client_simulation (◌+◌) stuck_draws down ≡ some s')
    × (s'.breaker.state ≡ open_)
    × Tally 5 5 down s'
unfolding Breaker.init
handle_client_simulation-outage_example =
    handle_client_simulation-outage (◌+◌) 4 30000 stuck_draws down down-IsDown refl refl refl
      (omega arith) (omega arith) stuck_draws-IsOutage
