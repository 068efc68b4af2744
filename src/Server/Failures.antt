-- ===== src/Server/Failures.antt =====
-- The simulated clients of TCPServer.cpp while the log is shut, up to the failure that opens the
-- breaker.
use dist_cache.Prelude.{
  ℕ, zero, suc, ◌+◌, ◌%◌, ◌<◌, ◌≡◌, refl, ap, ◌∙◌, false, ◌++◌, some, arith, if_pos,
}
use dist_cache.Text.{codes}
use dist_cache.Text.Order.{less}
use dist_cache.Cache.{Time}
use dist_cache.Cache.Invariant.{IsValid}
use dist_cache.Breaker.{Breaker, closed, open_, record_failure, int_mod, increment}
use dist_cache.Breaker.States.{failure, step}
use dist_cache.Breaker.History.{IsArmed, step-IsArmed, failure_opens}
use dist_cache.Metrics.{counter, record_latency, increment_counter}
use dist_cache.Metrics.Counters.{counter-increment, counter-other}
use dist_cache.Wal.Replay.{append_throws}
use dist_cache.Ring.{get_node}
use dist_cache.Server.{Server, Command, Outcome, process_command, default_ttl}
use dist_cache.Server.Client.{Session, Round, command, settle, client_round, client_rounds}
use dist_cache.Server.Sessions.{failed, blocked, counter-latency, allow_request-closed}
use dist_cache.Startup.Recovery.{set-values}

-- A SET that cannot be logged fails, and leaves a valid cache and the shut log.
process_set-shut :
    (s : Server) (c : Command)
    → IsValid s.cache
    → s.wal.is_open ≡ false
    → c.cmd ≡ codes "SET"
    → c.can_open ≡ false
    → (s' : Server) × (o : Outcome) × (process_command s c ≡ some (s', o))
      × (o.success ≡ false)
      × IsValid s'.cache
      × (s'.wal.is_open ≡ false)
unfolding process_command
process_set-shut s c valid shut e stuck =
    let (cache, set, valid', _, _) = set-values s.cache c.key c.value default_ttl c.now valid in
    (
      record s { cache = cache },
      record {
        success = false;
        response = codes "ERR " ++ (codes "Failed to open WAL file: " ++ s.wal.filename);
        target_node = get_node s.ring c.key;
      },
      rw (if_pos _ e, set, stuck, append_throws s.wal (codes "SET") c.key c.value shut) refl,
      refl,
      valid',
      shut,
    )

-- The log is shut, and the breaker has the threshold `n`.
pub record IsDown {D : Type 0} (n : ℕ) (s : Session D) : Type 0 where
  pub valid : IsValid s.server.cache
  pub shut : s.server.wal.is_open ≡ false
  pub armed : IsArmed n s.breaker
  pub few_failed : counter failed s.metrics < int_mod
  pub few_blocked : counter blocked s.metrics < int_mod

-- Between two states of a session `f` requests have failed and `b` were refused.
pub record Tally {D : Type 0} (f b : ℕ) (s s' : Session D) : Type 0 where
  pub connections : s'.connection_count ≡ s.connection_count
  pub failures : counter failed s'.metrics ≡ (counter failed s.metrics + f) % int_mod
  pub refusals : counter blocked s'.metrics ≡ (counter blocked s.metrics + b) % int_mod

-- A round that sets a key, while the log cannot be opened.
pub record IsStuck {D : Type 0} (r : Round D) : Type 0 where
  pub sets : r.choice ≡ 0
  pub stuck : r.can_open ≡ false

pub Tally-trans :
    {D : Type 0} (f b g d h e : ℕ) (s₁ s₂ s₃ : Session D)
    → f + g ≡ h
    → b + d ≡ e
    → Tally f b s₁ s₂
    → Tally g d s₂ s₃
    → Tally h e s₁ s₃
Tally-trans f b g d h e s₁ s₂ s₃ p q t u = record {
  connections = u.connections ∙ t.connections;
  failures = u.failures ∙ rw t.failures (omega (arith, p));
  refusals = u.refusals ∙ rw t.refusals (omega (arith, q));
}

module _ {D : Type 0} (add : D → D → D) (n : ℕ) where
  -- What the breaker and the counters make of the failure.
  settle-Tally :
      (r : Round D) (s : Session D) (server : Server)
      → IsDown n s
      → IsValid server.cache
      → server.wal.is_open ≡ false
      → IsDown n (settle add r s server false) × Tally 1 0 s (settle add r s server false)
  unfolding settle
  settle-Tally r s server w valid shut =
      let m = record_latency add r.latency s.metrics in
      let up : counter failed (increment_counter failed m) ≡ increment (counter failed s.metrics) =
        counter-increment failed m
        ∙ ap increment (counter-latency add failed r.latency s.metrics) in
      let same : counter blocked (increment_counter failed m) ≡ counter blocked s.metrics =
        counter-other blocked failed m (unfold less in refl)
        ∙ counter-latency add blocked r.latency s.metrics in
      (
        record {
          valid = valid;
          shut = shut;
          armed = unfold step in step-IsArmed n s.breaker (failure r.failed_at) w.armed;
          few_failed = rw up (omega arith);
          few_blocked = rw same w.few_blocked;
        },
        record {
          connections = refl;
          failures = up;
          refusals = rw same (omega (arith, w.few_blocked));
        },
      )

  -- A round ends in a failure while the breaker is closed.
  fail_round :
      (i : ℕ) (r : Round D) (s : Session D)
      → IsDown n s
      → s.breaker.state ≡ closed
      → IsStuck r
      → (s' : Session D) × (client_round add i r s ≡ some s')
        × IsDown n s'
        × Tally 1 0 s s'
        × (s'.breaker ≡ record_failure s.breaker r.failed_at)
  unfolding client_round
  fail_round i r s w shut h =
      let (server, o, ran, lost, valid, shut_log) =
        process_set-shut s.server (command i r) w.valid w.shut
          (unfold command in ground (arith, h.sets)) (unfold command in h.stuck) in
      let (w', tally) = settle-Tally r s server w valid shut_log in
      (
        settle add r s server false,
        rw (allow_request-closed s.breaker r.asked shut, ran, lost) refl,
        w',
        tally,
        unfold settle in refl,
      )

  record_failure-below :
      (b : Breaker) (now : Time)
      → IsArmed n b
      → b.state ≡ closed
      → b.failure_count + 1 < n
      → ((record_failure b now).state ≡ closed)
        × ((record_failure b now).failure_count ≡ b.failure_count + 1)
  unfolding record_failure
  record_failure-below b now v c h = ground (arith, c, v.threshold, v.in_range)

  record_failure-times :
      (b : Breaker) (now : Time)
      → ((record_failure b now).timeout_ms ≡ b.timeout_ms)
        × ((record_failure b now).last_failure_time ≡ now)
  unfolding record_failure
  record_failure-times b now = ground arith

  -- The rounds up to the one that opens the breaker.
  pub fail_rounds :
      (left i : ℕ) (draws : ℕ → Round D) (s : Session D)
      → IsDown n s
      → s.breaker.state ≡ closed
      → s.breaker.failure_count + suc left ≡ n
      → ((j : ℕ) → IsStuck (draws j))
      → (s' : Session D) × (client_rounds add (suc left) i draws s ≡ some s')
        × IsDown n s'
        × Tally (suc left) 0 s s'
        × (s'.breaker.state ≡ open_)
        × (s'.breaker.timeout_ms ≡ s.breaker.timeout_ms)
        × (s'.breaker.last_failure_time ≡ (draws (i + left)).failed_at)
  unfolding client_rounds
  fail_rounds zero i draws s w shut count h =
      let (s₁, ran, w₁, tally, breaker) = fail_round i (draws i) s w shut (h i) in
      let (timeout, last) = record_failure-times s.breaker (draws i).failed_at in
      (
        s₁,
        rw ran refl,
        w₁,
        tally,
        rw breaker (failure_opens n s.breaker (draws i).failed_at w.armed shut count),
        rw breaker timeout,
        ap (λ b. b.last_failure_time) breaker ∙ last ∙ ap (λ j. (draws j).failed_at) (omega arith),
      )
  fail_rounds (suc left) i draws s w shut count h =
      let (s₁, ran, w₁, tally, breaker) = fail_round i (draws i) s w shut (h i) in
      let (shut₁, count₁) =
        record_failure-below s.breaker (draws i).failed_at w.armed shut (omega (arith, count)) in
      let (timeout, _) = record_failure-times s.breaker (draws i).failed_at in
      let (s₂, rest, w₂, more, opened, timeout₂, last) =
        fail_rounds left (suc i) draws s₁ w₁ (rw breaker shut₁)
          (rw breaker (omega (arith, count₁, count))) h in
      (
        s₂,
        rw (ran, rest) refl,
        w₂,
        Tally-trans 1 0 (suc left) 0 (suc (suc left)) 0 s s₁ s₂ (omega arith) refl tally more,
        opened,
        timeout₂ ∙ rw breaker timeout,
        last ∙ ap (λ j. (draws j).failed_at) (omega arith),
      )
