-- ===== src/Program/Expired.antt =====
-- A cleanup leaves no trace in the log, and the log holds no time of expiry.
use dist_cache.Prelude.{ℕ, ◌≡◌, ◌∙◌, ap, sym, some, keep_if, not, ltb, arith, Result, ok, []}
use dist_cache.Text.{Text}
use dist_cache.Cache.Spec.{contents}
use dist_cache.Cache.Cleanup.{cleanup_expired-view}
use dist_cache.Cache.Run.{live-contents}
use dist_cache.Cache.{Time}
use dist_cache.Wal.{replay}
use dist_cache.Server.Calls.{with_cache}
use dist_cache.Server.Client.{Session}
use dist_cache.Startup.{main_capacity}
use dist_cache.Startup.Recovery.{values, apply_all}
use dist_cache.Startup.Logged.{IsDurable}
use dist_cache.Program.{Program, sweep_round, with_session, recording}
use dist_cache.Program.Boot.{boot-IsBooted}
use dist_cache.Program.Restart.{start_up, replay-opened_log}

module _ {D : Type 0} (add : D → D → D) (zero_latency : D)
    (create_directories : Text → Result (Unit {0})) where
  -- Let the log stand for the cache. A round of the cleanup thread takes exactly the expired entries
  -- out of the cache; and a start from the log's file as that round leaves it brings all of them back:
  -- the cache then holds every key and value from before the round, in the same order of eviction.
  pub cleanup_undone :
      (p q : Program D) (now : Time) (clock : ℕ → Time)
      → IsDurable p.service.session.server
      → p.service.session.server.cache.capacity ≡ main_capacity
      → sweep_round now p ≡ some q
      → (contents q.service.session.server.cache
          ≡ keep_if (λ x. not (ltb x.1.1 now)) (contents p.service.session.server.cache))
        × (s' : Session D) × (start_up add zero_latency create_directories clock
              q.service.session.server.wal.file
            ≡ some (ok s'))
        × (values s'.server.cache ≡ values p.service.session.server.cache)
  unfolding sweep_round
  cleanup_undone p q now clock d capacity e =
      let s = p.service.session in
      let (cache, cleaned, _, seen, _) = cleanup_expired-view s.server.cache now d.valid in
      let same : record (with_session p (with_cache p.service.session cache)) {
        sweeper = recording;
      }
          ≡ q =
        ground (arith, cleaned) in
      let (s', started, b) =
        boot-IsBooted zero_latency create_directories clock s.server.wal.file d.tidy.whole in
      rw (← same) (
        live-contents s.server.cache cache now seen,
        s',
        started,
        b.seen
            ∙ ap (apply_all main_capacity [])
                (replay-opened_log add zero_latency create_directories s)
            ∙ ap (λ n. apply_all n [] (replay s.server.wal)) (sym capacity)
            ∙ sym d.logged,
      )
