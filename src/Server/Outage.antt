-- ===== src/Server/Outage.antt =====
-- The simulated clients of TCPServer.cpp while the log is shut and cannot be opened.
use dist_cache.Prelude.{
  Bool-cases, ℕ, zero, suc, ◌+◌, ◌-◌, ◌*◌, ◌%◌, ◌<◌, ◌≤◌, ◌≡◌, refl, ap, none, sym, ◌∙◌, false,
  some, arith, Option-cases, inl, inr,
}
use dist_cache.Prelude.Int.{pos}
use dist_cache.Text.Order.{less}
use dist_cache.Breaker.{Breaker, closed, open_, is_timeout_expired, int_mod, increment, ns_per_ms}
use dist_cache.Breaker.States.{allow_request_open, is_timeout_expired_iff}
use dist_cache.Metrics.{increment_counter}
use dist_cache.Metrics.Counters.{counter-increment, counter-other}
use dist_cache.Server.Client.{Session, Round, client_round, client_rounds, handle_client_simulation}
use dist_cache.Server.Sessions.{failed, blocked}
use dist_cache.Server.Failures.{IsDown, IsStuck, Tally, Tally-trans, fail_rounds}

module _ {D : Type 0} (add : D → D → D) (n : ℕ) where
  -- A round while the breaker is open and its time-out has not run out.
  blocked_round :
      (i : ℕ) (r : Round D) (s : Session D)
      → IsDown n s
      → s.breaker.state ≡ open_
      → is_timeout_expired s.breaker r.asked ≡ false
      → (s' : Session D) × (client_round add i r s ≡ some s')
        × IsDown n s'
        × Tally 0 1 s s'
        × (s'.breaker ≡ s.breaker)
  unfolding client_round
  blocked_round i r s w opened early =
      let up = counter-increment blocked s.metrics in
      let same = counter-other failed blocked s.metrics (unfold less in refl) in
      (
        record s { metrics = increment_counter blocked s.metrics },
        rw (allow_request_open s.breaker r.asked opened early) refl,
        record {
          valid = w.valid;
          shut = w.shut;
          armed = w.armed;
          few_failed = rw same w.few_failed;
          few_blocked = rw up (omega arith);
        },
        record {
          connections = refl;
          failures = rw same (omega (arith, w.few_failed));
          refusals = up;
        },
        refl,
      )

  blocked_rounds :
      (left i : ℕ) (draws : ℕ → Round D) (s : Session D)
      → IsDown n s
      → s.breaker.state ≡ open_
      → ((j : ℕ) → i ≤ j → is_timeout_expired s.breaker (draws j).asked ≡ false)
      → (s' : Session D) × (client_rounds add left i draws s ≡ some s')
        × Tally 0 left s s'
        × (s'.breaker.state ≡ open_)
  unfolding client_rounds
  blocked_rounds zero i draws s w opened early = (
    s,
    refl,
    record {
      connections = refl;
      failures = omega (arith, w.few_failed);
      refusals = omega (arith, w.few_blocked);
    },
    opened,
  )
  blocked_rounds (suc left) i draws s w opened early =
      let (s₁, ran, w₁, tally, breaker) =
        blocked_round i (draws i) s w opened (early i (omega arith)) in
      let (s₂, rest, more, opened₂) =
        blocked_rounds left (suc i) draws s₁ w₁ (rw breaker opened)
          (λ j h. rw breaker (early j (omega arith))) in
      (
        s₂,
        rw (ran, rest) refl,
        Tally-trans 0 1 0 left 0 (suc left) s s₁ s₂ refl (omega arith) tally more,
        opened₂,
      )

  client_rounds-suc :
      (left i : ℕ) (draws : ℕ → Round D) (s s₁ : Session D)
      → client_round add i (draws i) s ≡ some s₁
      → client_rounds add (suc left) i draws s ≡ client_rounds add left (suc i) draws s₁
  unfolding client_rounds
  client_rounds-suc left i draws s s₁ e = rw e refl

  -- The rounds can be cut in two.
  client_rounds-split :
      (a b total i j : ℕ) (draws : ℕ → Round D) (s s₁ : Session D)
      → a + b ≡ total
      → i + a ≡ j
      → client_rounds add a i draws s ≡ some s₁
      → client_rounds add total i draws s ≡ client_rounds add b j draws s₁
  client_rounds-split zero b total i j draws s s₁ p q h =
      let total_b : total ≡ b = omega (arith, p) in
      let j_i : j ≡ i = omega (arith, q) in
      let same : some s ≡ some s₁ = unfold client_rounds in h in cc
  client_rounds-split (suc a) b total i j draws s s₁ p q h =
      let total_suc : total ≡ suc (a + b) = omega (arith, p) in
      elim (Option-cases (client_round add i (draws i) s)) [
        | inl e ↦
            let gone : client_rounds add (suc a) i draws s ≡ none =
              unfold client_rounds in rw e refl in
            absurd cc
        | inr (s₂, e) ↦
            let rest =
              client_rounds-split a b (a + b) (suc i) j draws s₂ s₁ refl (omega (arith, q))
                (sym (client_rounds-suc a i draws s s₂ e) ∙ h) in
            ap (λ t. client_rounds add t i draws s) total_suc
            ∙ client_rounds-suc (a + b) i draws s s₂ e
            ∙ rest
      ]

-- The first `n` requests fail and open the breaker, and the others come before its time-out.
pub record IsOutage {D : Type 0} (m : ℕ) (timeout : ℕ) (draws : ℕ → Round D) : Type 0 where
  pub stuck : (j : ℕ) → IsStuck (draws j)
  pub after : (j : ℕ) → m < j → (draws m).failed_at ≤ (draws j).asked
  pub before : (j : ℕ) → m < j → (draws j).asked < (draws m).failed_at + timeout * ns_per_ms

-- A breaker's time-out has not run out before its time.
early_before :
    (b : Breaker) (timeout last now : ℕ)
    → b.timeout_ms ≡ pos timeout
    → b.last_failure_time ≡ last
    → last ≤ now
    → now < last + timeout * ns_per_ms
    → is_timeout_expired b now ≡ false
early_before b timeout last now t e h k = elim (Bool-cases (is_timeout_expired b now)) [
  | inl over ↦
      let late = (is_timeout_expired_iff b now timeout t (omega (arith, e, h))).0 over in
      absurd (omega (arith, late, e, k))
  | inr early ↦ early
]

-- While the log is shut and cannot be opened, a client whose ten requests are SETs has the first
-- `m + 1` of them counted as failed and all others as refused: the breaker is open at the end, and
-- the number of connections is what it was. The breaker has the threshold `m + 1`, at most ten, is
-- closed and has counted no failure; the later requests come after the failure that opens it and
-- before its time-out. The cache is valid, and the counters are below the range of `int`.
pub handle_client_simulation-outage :
    {D : Type 0} (add : D → D → D) (m timeout : ℕ) (draws : ℕ → Round D) (s : Session D)
    → IsDown (suc m) s
    → s.breaker.state ≡ closed
    → s.breaker.failure_count ≡ 0
    → s.breaker.timeout_ms ≡ pos timeout
    → m < 10
    → s.connection_count < int_mod
    → IsOutage m timeout draws
    → (s' : Session D) × (handle_client_simulation add draws s ≡ some s')
      × (s'.breaker.state ≡ open_)
      × Tally (suc m) (9 - m) s s'
unfolding handle_client_simulation
handle_client_simulation-outage add m timeout draws s w shut none_yet t few many o =
    let opened = record s { connection_count = increment s.connection_count } in
    let w₀ : IsDown (suc m) opened = record {
      valid = w.valid;
      shut = w.shut;
      armed = w.armed;
      few_failed = w.few_failed;
      few_blocked = w.few_blocked;
    } in
    let (s₁, ran, w₁, failures, open₁, t₁, last) =
      fail_rounds add (suc m) m 0 draws opened w₀ shut (omega (arith, none_yet)) o.stuck in
    let (s₂, rest, refusals, open₂) =
      blocked_rounds add (suc m) (9 - m) (suc m) draws s₁ w₁ open₁ (λ j h.
        early_before s₁.breaker timeout (draws m).failed_at (draws j).asked (t₁ ∙ t)
          (last ∙ ap (λ i. (draws i).failed_at) (omega arith)) (o.after j (omega arith))
          (o.before j (omega arith))) in
    let all =
      client_rounds-split add (suc m) (suc m) (9 - m) 10 0 (suc m) draws opened s₁ (omega arith)
        (omega arith) ran in
    let tally =
      Tally-trans (suc m) 0 0 (9 - m) (suc m) (9 - m) opened s₁ s₂ (omega arith) (omega arith)
        failures refusals in
    (
      record s₂ { connection_count = (s₂.connection_count + (int_mod - 1)) % int_mod },
      rw (all, rest) refl,
      open₂,
      record {
        connections = rw tally.connections (omega arith);
        failures = tally.failures;
        refusals = tally.refusals;
      },
    )
