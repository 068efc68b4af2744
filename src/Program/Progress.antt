-- ===== src/Program/Progress.antt =====
-- When the shutdown has been asked for, `main` comes as far as the join of the dashboard's thread.
use dist_cache.Prelude.{
  ℕ, ◌+◌, ◌≤◌, ◌<◌, ◌≡◌, refl, some, true, arith, All-split, ◌⊎◌, inl, inr, Option-cases,
}
use dist_cache.Cache.{Time, cleanup_expired}
use dist_cache.Server.Client.{Round}
use dist_cache.Server.Calls.{with_cache, call}
use dist_cache.Server.Calls.Counts.{IsSmooth, total}
use dist_cache.Server.Calls.Ends.{left, Step-left}
use dist_cache.Server.Calls.Progress.{StepFollows, gone-or-Stays, any-CanCall}
use dist_cache.Program.{
  Program, sweep_round, with_session, Seeker, broadcasting, listening, found, Sweeper, testing,
  sweeping, recording, stopped, MainAt, waiting, joining_server, joining_discovery,
  joining_dashboard, joining_cleanup, complete, Step, signal, client, broadcast, listen, report,
  test_on, test_off, sweep, record_count, wake, join_server, join_discovery, join_dashboard,
  join_cleanup, Reach, begin, later,
}
use dist_cache.Program.Invariant.{IsRunning, Reach-IsRunning}
use dist_cache.Program.Shutdown.{IsHeld, Reach-IsHeld}

-- The steps that the discovery thread, the cleanup thread and `main` have still to take, and with
-- them the calls that the clients have.
abbrev seeker_work : Seeker → ℕ
seeker_work broadcasting = 2
seeker_work listening = 1
seeker_work found = 0

abbrev sweeper_work : Sweeper → ℕ
sweeper_work testing = 1
sweeper_work recording = 2
sweeper_work sweeping = 3
sweeper_work stopped = 0

abbrev main_work : MainAt → ℕ
main_work waiting = 5
main_work joining_server = 4
main_work joining_discovery = 3
main_work joining_dashboard = 2
main_work joining_cleanup = 1
main_work complete = 0

unfoldable pub work : {D : Type 0} → Program D → ℕ
work p =
    total left p.service.stages
    + (seeker_work p.seeker + (sweeper_work p.sweeper + main_work p.main_at))

module _ {D : Type 0} (add : D → D → D) where
  sweep-work :
      (p q : Program D) (now : Time)
      → p.sweeper ≡ sweeping
      → sweep_round now p ≡ some q
      → (q.shutdown_requested ≡ p.shutdown_requested) × (1 + work q ≤ work p)
  unfolding sweep_round work
  sweep-work p q now at e =
      elim (Option-cases (cleanup_expired p.service.session.server.cache now)) [
        | inl stuck ↦ absurd (ground (arith, stuck))
        | inr (cache, cleaned) ↦
            let same : record (with_session p (with_cache p.service.session cache)) {
              sweeper = recording;
            }
                ≡ q =
              ground (arith, cleaned) in
            rw (← same) (refl, rw at (omega arith))
      ]

  -- A signal and a report leave the threads where they are.
  abbrev pub effort : {p q : Program D} → Step add p q → ℕ
  effort signal = 0
  effort (report at) = 0
  effort _ = 1

  -- The steps of a run but for the signals and the reports.
  abbrev pub efforts : {p q : Program D} → Reach add p q → ℕ
  efforts begin = 0
  efforts (later before step) = efforts before + effort step

  -- Once the shutdown has been asked for, each such step is one step less to take.
  Step-work :
      {p q : Program D} (step : Step add p q)
      → p.shutdown_requested ≡ true
      → (q.shutdown_requested ≡ true) × (effort step + work q ≤ work p)
  unfolding work
  Step-work signal on = (refl, omega arith)
  Step-work (client step) on = (on, omega (arith, Step-left add step))
  Step-work (broadcast now exchanged checked heard at) on = (on, rw at (omega arith))
  Step-work (listen now heard at) on = (on, rw at (omega arith))
  Step-work (report at) on = (on, omega arith)
  Step-work (test_on at off) on = absurd (cc)
  Step-work (test_off at _) on = (on, rw at (omega arith))
  Step-work {p} {q} (sweep now at swept) on =
      let (same, less) = sweep-work p q now at swept in (rw same on, less)
  Step-work (record_count at) on = (on, rw at (omega arith))
  Step-work (wake at _) on = (refl, rw at (omega arith))
  Step-work (join_server at all) on = (on, rw at (omega arith))
  Step-work (join_discovery at ended) on = (on, rw at (omega arith))
  Step-work (join_dashboard at ended) on = (on, rw at (omega arith))
  Step-work (join_cleanup at ended) on = (on, rw at (omega arith))

  Reach-work :
      {p q : Program D} (reached : Reach add p q)
      → p.shutdown_requested ≡ true
      → (q.shutdown_requested ≡ true) × (efforts reached + work q ≤ work p)
  Reach-work begin on = (on, omega arith)
  Reach-work (later before step) on =
      let (on', spent) = Reach-work before on in
      let (on'', less) = Step-work step on' in (on'', omega (arith, spent, less))

  -- A step of a client is as a round draws it.
  abbrev pub AsDrawn : Round D → {p q : Program D} → Step add p q → Type 0
  AsDrawn r (client step) = StepFollows r step
  AsDrawn r _ = Unit

  module _ (r : Round D) (known : r.choice < 3) where
    -- A step that brings the threads nearer to their ends.
    abbrev pub Advances : Program D → Type 0
    Advances p = (q : Program D) × (step : Step add p q) × (work q < work p) × AsDrawn r step

    advance-server : (p : Program D) → IsRunning p → p.main_at ≡ joining_server → Advances p
    unfolding work
    advance-server p v at = elim (gone-or-Stays p.service.stages) [
      | inl all ↦ (_, join_server at all, rw at (omega arith), tt)
      | inr (before, stage, after, place, stays) ↦
          let (smooth, _) = All-split IsSmooth before stage after (rw (← place) v.serving.smooth) in
          let (s', h', stage', made, follows) =
            any-CanCall add r known p.service.session p.service.history stage
              v.serving.tracked.valid smooth stays in
          let step = call before after place made in
          (_, client step, omega (arith, Step-left add step), follows)
    ]

    advance-discovery :
        (p : Program D) (at : Seeker) → p.seeker ≡ at → p.main_at ≡ joining_discovery → Advances p
    unfolding work
    advance-discovery p broadcasting e at =
        (_, broadcast r.now r.now r.now (λ _. true) e, rw e (omega arith), tt)
    advance-discovery p listening e at = (_, listen r.now (λ _. true) e, rw e (omega arith), tt)
    advance-discovery p found e at = (_, join_discovery at e, rw at (omega arith), tt)

    -- Before the join of the dashboard's thread some thread can go on.
    advance :
        (p : Program D) (at : MainAt)
        → p.main_at ≡ at
        → IsRunning p
        → IsHeld p
        → p.shutdown_requested ≡ true
        → (p.main_at ≡ joining_dashboard) ⊎ Advances p
    unfolding work
    advance p waiting e v held on = inr (_, wake e on, rw e (omega arith), tt)
    advance p joining_server e v held on = inr (advance-server p v e)
    advance p joining_discovery e v held on = inr (advance-discovery p p.seeker refl e)
    advance p joining_dashboard e v held on = inl e
    advance p joining_cleanup e v held on = let at = held.main_at in absurd (ground (arith, at, e))
    advance p complete e v held on = let at = held.main_at in absurd (ground (arith, at, e))

    -- Let the shutdown have been asked for, with the components as the clients leave them and the
    -- dashboard's thread not joined. Every run from there makes at most `work` steps other than
    -- signals and reports, and wherever it stands, `main` is at the join of the dashboard's thread
    -- or a step can be made that leaves less to do; if it is a client's, it is as the given round of one
    -- of the three commands draws, reads and measures.
    pub shutdown_progress :
        (p q : Program D) (reached : Reach add p q)
        → IsRunning p
        → IsHeld p
        → p.shutdown_requested ≡ true
        → (efforts reached + work q ≤ work p) × ((q.main_at ≡ joining_dashboard) ⊎ Advances q)
    shutdown_progress p q reached v held on =
        let (on', spent) = Reach-work reached on in
        (
          spent,
          advance q q.main_at refl (Reach-IsRunning add reached v) (Reach-IsHeld add reached held)
              on',
        )
