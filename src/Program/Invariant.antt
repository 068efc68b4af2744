-- ===== src/Program/Invariant.antt =====
-- What holds in every state that the program comes to, whenever its threads run.
use dist_cache.Prelude.{ℕ, ◌≡◌, ◌∙◌, refl, map, List, [], ◌∷◌, Option, some, arith}
use dist_cache.Text.{Text}
use dist_cache.Cache.Invariant.{IsValid}
use dist_cache.Cache.Cleanup.{cleanup_expired-view}
use dist_cache.Cache.Run.{live-contents}
use dist_cache.Cache.Spec.{contents, Ideal}
use dist_cache.Cache
use dist_cache.Cache.{Cache, Time}
use dist_cache.Prelude.{keep_if, Bool, Bool-cases, inl, inr}
use dist_cache.Wal.{Record, replay}
use dist_cache.Metrics.{counter, record_active_connections}
use dist_cache.Server.Client.{Session, command}
use dist_cache.Server.Writes.{IsTracked}
use dist_cache.Server.Calls
use dist_cache.Server.Calls.{
  Service, Stage, Call, enter, allow, refuse, count_refused, write, look, log, log_fails, measure,
  report_success, report_failure, count_success, count_failure, leave, call, record_of, with_cache,
  writers,
}
use dist_cache.Server.Calls.Invariant.{IsServing, Step-IsServing}
use dist_cache.Startup.{main_capacity}
use dist_cache.Startup.Recovery.{values, strip, redo-values, get-values}
use dist_cache.Discovery.{Discovery}
use dist_cache.Program.{
  Program, launch, sweep_round, with_session, Step, signal, client, broadcast, listen, report,
  test_on, test_off, sweep, record_count, wake, join_server, join_discovery, join_dashboard,
  join_cleanup, Reach, begin, later, recording,
}
use dist_cache.Program.Boot.{IsBooted}
use dist_cache.Program.Latest.{AreLatest, apply_record-AreLatest, apply_all-AreLatest}

-- The components serve the clients, and the cache holds no value but the one last written.
pub record IsRunning {D : Type 0} (p : Program D) : Type 0 where
  pub serving : IsServing main_capacity p.service
  pub latest : AreLatest p.service.history (values p.service.session.server.cache)

keep_if-AreLatest :
    (h : List Record) (live : Text × Cache.Spec.Item → Bool) (l : Ideal)
    → AreLatest h (map strip l)
    → AreLatest h (map strip (keep_if live l))
unfolding keep_if
keep_if-AreLatest h live [] v = tt
keep_if-AreLatest h live (e ∷ l) v = elim (Bool-cases (live e)) [
  | inl stays ↦ rw stays (v.0, keep_if-AreLatest h live l v.1)
  | inr goes ↦ rw goes (keep_if-AreLatest h live l v.1)
]

-- A cleanup of a valid cache ends.
pub cleanup-AreLatest :
    (h : List Record) (c c' : Cache) (now : Time)
    → IsValid c
    → Cache.cleanup_expired c now ≡ some c'
    → AreLatest h (values c)
    → IsValid c' × (c'.capacity ≡ c.capacity) × AreLatest h (values c')
unfolding values
cleanup-AreLatest h c c' now valid e v =
    let (c₁, ended, valid', seen, capacity) = cleanup_expired-view c now valid in
    let same : c₁ ≡ c' = cc in
    rw (← same)
      (valid', capacity, rw (live-contents c c₁ now seen) (keep_if-AreLatest h _ (contents c) v))

Call-AreLatest :
    {D : Type 0} (add : D → D → D) {s s' : Session D} {h h' : List Record} {at at' : Stage}
    → Call add s h at s' h' at'
    → IsValid s.server.cache
    → AreLatest h (values s.server.cache)
    → AreLatest h' (values s'.server.cache)
Call-AreLatest add enter valid v = v
Call-AreLatest add (allow now lt e) valid v = v
Call-AreLatest add (refuse now lt e) valid v = v
Call-AreLatest add count_refused valid v = v
Call-AreLatest add {s} {h = h} (write {i} r {cache} known other e) valid v =
    let (c, ended, _, _, became) =
      redo-values r.now s.server.cache (record_of (command i r)) valid in
    let same : c ≡ cache = cc in
    rw (← same, became)
      (apply_record-AreLatest s.server.cache.capacity h (values s.server.cache)
        (record_of (command i r)) v)
Call-AreLatest add {s} (look {i} r is_get) valid v =
    rw (get-values s.server.cache (command i r).key r.now r.later valid) v
Call-AreLatest add (log can_open e) valid v = v
Call-AreLatest add (log_fails can_open e) valid v = v
Call-AreLatest add (measure ms) valid v = v
Call-AreLatest add report_success valid v = v
Call-AreLatest add (report_failure now) valid v = v
Call-AreLatest add count_success valid v = v
Call-AreLatest add count_failure valid v = v
Call-AreLatest add (leave all) valid v = v

module _ {D : Type 0} (add : D → D → D) where
  -- A step that leaves the clients and their components as they are.
  quiet : (p q : Program D) → IsRunning p → q.service ≡ p.service → IsRunning q
  quiet p q v same = record { serving = rw same v.serving; latest = rw same v.latest }

  client-IsRunning :
      (p : Program D) (t : Service D)
      → IsRunning p
      → Calls.Step add p.service t
      → IsRunning (record p { service = t })
  client-IsRunning p t v (call before after place made) = record {
    serving = Step-IsServing add main_capacity (call before after place made) v.serving;
    latest = Call-AreLatest add made v.serving.tracked.valid v.latest;
  }

  -- Other components, with the same log, breaker and counts.
  reserve :
      (s : Service D) (session : Session D)
      → IsServing main_capacity s
      → IsTracked main_capacity (writers (record s { session = session }))
      → session.breaker ≡ s.session.breaker
      → session.connection_count ≡ s.session.connection_count
      → ((name : Text) → counter name session.metrics ≡ counter name s.session.metrics)
      → session.metrics.request_count ≡ s.session.metrics.request_count
      → IsServing main_capacity (record s { session = session })
  reserve s session v tracked breaker count same requests = record {
    tracked = tracked;
    shut = rw breaker v.shut;
    connections = count ∙ v.connections;
    successes = same _ ∙ v.successes;
    requests = requests ∙ v.requests;
    failures = same _ ∙ v.failures;
    refusals = same _ ∙ v.refusals;
    smooth = v.smooth;
    few = v.few;
  }

  swept :
      (p : Program D) (cache : Cache) (now : Time)
      → IsRunning p
      → Cache.cleanup_expired p.service.session.server.cache now ≡ some cache
      → IsRunning (with_session p (with_cache p.service.session cache))
  swept p cache now v e =
      let t = v.serving.tracked in
      let (valid, capacity, latest) =
        cleanup-AreLatest p.service.history p.service.session.server.cache cache now t.valid e
          v.latest in
      record {
        serving =
            reserve p.service (with_cache p.service.session cache) v.serving
              (record {
                valid = valid;
                size = capacity ∙ t.size;
                tidy = t.tidy;
                opened = t.opened;
                waiting = t.waiting;
                logged = t.logged;
              })
              refl refl (λ _. refl) refl;
        latest = latest;
      }

  sweep-IsRunning :
      (p q : Program D) (now : Time) → IsRunning p → sweep_round now p ≡ some q → IsRunning q
  unfolding sweep_round
  sweep-IsRunning p q now v e =
      let (cache, cleaned, _, _, _) =
        cleanup_expired-view p.service.session.server.cache now v.serving.tracked.valid in
      let same : record (with_session p (with_cache p.service.session cache)) {
        sweeper = recording;
      }
          ≡ q =
        ground (arith, cleaned) in
      rw (← same) (
        quiet (with_session p (with_cache p.service.session cache)) _ (swept p cache now v cleaned)
          refl)

  record_count-IsRunning :
      (p : Program D) (n : ℕ)
      → IsRunning p
      → IsRunning (
          with_session p (record p.service.session {
            metrics = record_active_connections n p.service.session.metrics;
          }))
  unfolding record_active_connections counter
  record_count-IsRunning p n v = record {
    serving =
        reserve p.service _ v.serving
          (record {
            valid = v.serving.tracked.valid;
            size = v.serving.tracked.size;
            tidy = v.serving.tracked.tidy;
            opened = v.serving.tracked.opened;
            waiting = v.serving.tracked.waiting;
            logged = v.serving.tracked.logged;
          })
          refl refl (λ _. refl) refl;
    latest = v.latest;
  }

  pub Step-IsRunning : {p q : Program D} → Step add p q → IsRunning p → IsRunning q
  Step-IsRunning {p} {q} signal v = quiet p q v refl
  Step-IsRunning {p} (client {t} step) v = client-IsRunning p t v step
  Step-IsRunning {p} {q} (broadcast now exchanged checked heard at) v = quiet p q v refl
  Step-IsRunning {p} {q} (listen now heard at) v = quiet p q v refl
  Step-IsRunning {p} {q} (report at) v = quiet p q v refl
  Step-IsRunning {p} {q} (test_on at off) v = quiet p q v refl
  Step-IsRunning {p} {q} (test_off at on) v = quiet p q v refl
  Step-IsRunning {p} {q} (sweep now at swept) v = sweep-IsRunning p q now v swept
  Step-IsRunning {p} {q} (record_count at) v =
      quiet (with_session p q.service.session) q (record_count-IsRunning p _ v) refl
  Step-IsRunning {p} {q} (wake at on) v = quiet p q v refl
  Step-IsRunning {p} {q} (join_server at all) v = quiet p q v refl
  Step-IsRunning {p} {q} (join_discovery at ended) v = quiet p q v refl
  Step-IsRunning {p} {q} (join_dashboard at ended) v = quiet p q v refl
  Step-IsRunning {p} {q} (join_cleanup at ended) v = quiet p q v refl

  pub Reach-IsRunning : {p q : Program D} → Reach add p q → IsRunning p → IsRunning q
  Reach-IsRunning begin v = v
  Reach-IsRunning (later before step) v = Step-IsRunning step (Reach-IsRunning before v)

pub launch-IsRunning :
    {D : Type 0} (file : Option Text) (s : Session D) (d : Discovery)
    → IsBooted file s
    → IsRunning (launch s d)
unfolding launch
launch-IsRunning file s d b = record {
  serving = record {
    tracked = record {
      valid = b.well.durable.valid;
      size = b.capacity;
      tidy = b.well.durable.tidy;
      opened = b.well.durable.opened;
      waiting = (tt, (tt, (tt, tt)));
      logged = λ p. omega arith;
    };
    shut = b.well.shut;
    connections = b.idle;
    successes = b.successes;
    requests = b.measures;
    failures = b.failures;
    refusals = b.refusals;
    smooth = (tt, (tt, (tt, tt)));
    few = refl;
  };
  latest =
      rw b.well.durable.logged
        (apply_all-AreLatest s.server.cache.capacity [] [] (replay s.server.wal) tt);
}
