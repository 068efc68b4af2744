-- ===== src/Program/Boot.antt =====
-- What `main` starts its threads with, when no snapshot is there and the log can be opened.
use dist_cache.Prelude.{
  ℕ, ◌≡◌, ◌∙◌, refl, ap, sym, List, [], Option, some, none, arith, true, Result, ok,
}
use dist_cache.Text.{Text, codes}
use dist_cache.Text.Lines.{Complete}
use dist_cache.OrdMap.{find}
use dist_cache.Cache
use dist_cache.Cache.{Cache, Time}
use dist_cache.Wal.{Wal, Record, bytes_of, replay}
use dist_cache.Persistence.{load}
use dist_cache.Metrics
use dist_cache.Metrics.{counter}
use dist_cache.Server.Client.{Session}
use dist_cache.Server.Sessions.{IsWell, succeeded, failed, blocked}
use dist_cache.Startup.{main_capacity, redo_all, restore, recover_cache}
use dist_cache.Startup.Recovery.{values, apply_all, redo_all-values, init-values}
use dist_cache.Program.{boot, main_ring, main_breaker}

-- The log as the constructor leaves it.
abbrev pub opened_log : Option Text → Wal
opened_log file = record {
  filename = codes "wal.log";
  file = some (bytes_of file);
  buffer = [];
  is_open = true;
}

-- The components when the threads start: the log stands for the cache, the breaker is closed, and
-- nothing has been counted.
pub record IsBooted {D : Type 0} (file : Option Text) (s : Session D) : Type 0 where
  pub well : IsWell s
  pub capacity : s.server.cache.capacity ≡ main_capacity
  pub seen : values s.server.cache ≡ apply_all main_capacity [] (replay (opened_log file))
  pub idle : s.connection_count ≡ 0
  pub successes : counter succeeded s.metrics ≡ 0
  pub failures : counter failed s.metrics ≡ 0
  pub refusals : counter blocked s.metrics ≡ 0
  pub measures : s.metrics.request_count ≡ 0

counter-init :
    {D : Type 0} (zero_latency : D) (name : Text) → counter name (Metrics.init zero_latency) ≡ 0
unfolding counter Metrics.init find
counter-init zero_latency name = refl

recover_cache-unsaved :
    (clock : ℕ → Time) (rs : List Record)
    → recover_cache clock (load none) rs ≡ redo_all clock 0 (Cache.init main_capacity) rs
unfolding recover_cache restore load
recover_cache-unsaved clock rs = refl

module _ {D : Type 0} (zero_latency : D) (create_directories : Text → Result (Unit {0}))
    (clock : ℕ → Time) (file : Option Text) where
  booted : Cache → Session D
  booted cache = record {
    server = record { cache = cache; wal = opened_log file; ring = main_ring };
    breaker = main_breaker;
    metrics = Metrics.init zero_latency;
    connection_count = 0;
  }

  -- With no snapshot, and a log of whole lines, or none, that can be opened, the program starts. The
  -- cache holds what the log stands for, the breaker is closed, and the counters are 0.
  pub boot-IsBooted :
      Complete b'\n' (bytes_of file)
      → (s : Session D) × (boot zero_latency create_directories clock file true none ≡ some (ok s))
        × IsBooted file s
  unfolding boot booted
  boot-IsBooted whole =
      let (valid, size, empty) = init-values main_capacity in
      let rs = replay (opened_log file) in
      let (c, e, v, k, seen) = redo_all-values clock 0 (Cache.init main_capacity) rs valid in
      let standing : values c ≡ apply_all main_capacity [] rs =
        seen
        ∙ ap (λ n. apply_all n (values (Cache.init main_capacity)) rs) size
        ∙ ap (λ m. apply_all main_capacity m rs) empty in
      (
        booted c,
        rw (recover_cache-unsaved clock rs, e) refl,
        record {
          well = record {
            durable = record {
              valid = v;
              tidy = record { flushed = refl; whole = whole };
              opened = refl;
              logged = standing ∙ ap (λ n. apply_all n [] rs) (sym (k ∙ size));
            };
            shut = unfold main_breaker in refl;
            counted = omega (arith, counter-init zero_latency succeeded);
          };
          capacity = k ∙ size;
          seen = standing;
          idle = refl;
          successes = counter-init zero_latency succeeded;
          failures = counter-init zero_latency failed;
          refusals = counter-init zero_latency blocked;
          measures = unfold Metrics.init in refl;
        },
      )
