-- ===== src/Program/Shutdown.antt =====
-- The joins of `main` when the shutdown has been asked for.
use dist_cache.Prelude.{◌≡◌, ◌≢◌, refl, sym, ◌∙◌, Bool, true, false, arith}
use dist_cache.Cache.{Time, cleanup_expired}
use dist_cache.Prelude.{some, Option-cases, inl, inr}
use dist_cache.Server.Calls.{with_cache}
use dist_cache.Discovery.{Discovery}
use dist_cache.Server.Client.{Session}
use dist_cache.Program.{
  Program, sweep_round, with_session, recording, Reporter, reporting, returned, MainAt,
  joining_cleanup, complete, launch, Step, signal, client, broadcast, listen, report, test_on,
  test_off, sweep, record_count, wake, join_server, join_discovery, join_dashboard, join_cleanup,
  Reach, begin, later,
}

-- `main` has not passed the join of the dashboard's thread.
abbrev pub before_join : MainAt → Bool
before_join joining_cleanup = false
before_join complete = false
before_join _ = true

-- The dashboard's thread is in its loop, and `main` has not joined it.
pub record IsHeld {D : Type 0} (p : Program D) : Type 0 where
  pub reporter : p.reporter ≡ reporting
  pub main_at : before_join p.main_at ≡ true

abbrev has_returned : Reporter → Bool
has_returned reporting = false
has_returned returned = true

module _ {D : Type 0} (add : D → D → D) where
  -- The main thread stays where it is.
  held : (p q : Program D) → IsHeld p → q.reporter ≡ p.reporter → q.main_at ≡ p.main_at → IsHeld q
  held p q v same_reporter same_main = record {
    reporter = same_reporter ∙ v.reporter;
    main_at = rw same_main v.main_at;
  }

  sweep-IsHeld : (p q : Program D) (now : Time) → IsHeld p → sweep_round now p ≡ some q → IsHeld q
  unfolding sweep_round
  sweep-IsHeld p q now v e =
      elim (Option-cases (cleanup_expired p.service.session.server.cache now)) [
        | inl stuck ↦ absurd (ground (arith, stuck))
        | inr (cache, cleaned) ↦
            let same : record (with_session p (with_cache p.service.session cache)) {
              sweeper = recording;
            }
                ≡ q =
              ground (arith, cleaned) in
            rw (← same) (held p _ v refl refl)
      ]

  pub Step-IsHeld : {p q : Program D} → Step add p q → IsHeld p → IsHeld q
  Step-IsHeld {p} {q} signal v = held p q v refl refl
  Step-IsHeld {p} {q} (client step) v = held p q v refl refl
  Step-IsHeld {p} {q} (broadcast now exchanged checked heard at) v = held p q v refl refl
  Step-IsHeld {p} {q} (listen now heard at) v = held p q v refl refl
  Step-IsHeld {p} {q} (report at) v = held p q v refl refl
  Step-IsHeld {p} {q} (test_on at off) v = held p q v refl refl
  Step-IsHeld {p} {q} (test_off at on) v = held p q v refl refl
  Step-IsHeld {p} {q} (sweep now at swept) v = sweep-IsHeld p q now v swept
  Step-IsHeld {p} {q} (record_count at) v = held p q v refl refl
  Step-IsHeld (wake at on) v = record { reporter = v.reporter; main_at = refl }
  Step-IsHeld (join_server at all) v = record { reporter = v.reporter; main_at = refl }
  Step-IsHeld (join_discovery at ended) v = record { reporter = v.reporter; main_at = refl }
  Step-IsHeld {p} (join_dashboard at ended) v =
      let same : returned ≡ reporting = sym ended ∙ v.reporter in absurd (cc)
  Step-IsHeld {p} (join_cleanup at ended) v =
      let past = v.main_at in absurd (ground (arith, at, past))

  pub Reach-IsHeld : {p q : Program D} → Reach add p q → IsHeld p → IsHeld q
  Reach-IsHeld begin v = v
  Reach-IsHeld (later before step) v = Step-IsHeld step (Reach-IsHeld before v)

  launch-IsHeld : (s : Session D) (d : Discovery) → IsHeld (launch s d)
  unfolding launch
  launch-IsHeld s d = record { reporter = refl; main_at = refl }

  -- Whatever the threads do and whatever signals come, `main` never completes the shutdown: it gets
  -- no further than the join of the dashboard's thread, whose loop has no end.
  pub never_complete :
      (s : Session D) (d : Discovery) {p : Program D}
      → Reach add (launch s d) p
      → p.main_at ≢ complete
  never_complete s d {p} reached done =
      let at = (Reach-IsHeld reached (launch-IsHeld s d)).main_at in
      absurd (ground (arith, at, done))
