-- ===== src/Server/Sessions.antt =====
-- The simulated clients of TCPServer.cpp while the log stays open.
use dist_cache.Prelude.{
  ℕ, zero, suc, ◌+◌, ◌-◌, ◌%◌, ◌<◌, ◌≡◌, refl, ap, ◌∙◌, true, false, some, arith,
}
use dist_cache.Text.{Text, codes}
use dist_cache.OrdMap.{equivalent}
use dist_cache.Cache.{Time}
use dist_cache.Text.Order.{less, text_order}
use dist_cache.Breaker.{Breaker, closed, allow_request, record_success, int_mod, increment}
use dist_cache.Metrics.{Metrics, counter, record_latency}
use dist_cache.Metrics.Counters.{counter-increment, counter-other}
use dist_cache.Server.{Server}
use dist_cache.Server.Client.{
  Session, Round, command, settle, client_round, client_rounds, handle_client_simulation,
}
use dist_cache.Startup.Logged.{IsDurable, process_command-Keeps}
use dist_cache.Server.Requests.{command-IsClean, command-IsKnown}

abbrev pub succeeded : Text
succeeded = codes "requests_success"

abbrev pub failed : Text
failed = codes "requests_failed"

abbrev pub blocked : Text
blocked = codes "requests_blocked"

-- A session that goes well: the server is durable and the breaker closed.
pub record IsWell {D : Type 0} (s : Session D) : Type 0 where
  pub durable : IsDurable s.server
  pub shut : s.breaker.state ≡ closed
  pub counted : counter succeeded s.metrics < int_mod

-- What is between two states of a session, `n` requests apart.
pub record Served {D : Type 0} (n : ℕ) (s s' : Session D) : Type 0 where
  pub connections : s'.connection_count ≡ s.connection_count
  pub successes : counter succeeded s'.metrics ≡ (counter succeeded s.metrics + n) % int_mod
  pub failures : counter failed s'.metrics ≡ counter failed s.metrics
  pub refusals : counter blocked s'.metrics ≡ counter blocked s.metrics

pub counter-latency :
    {D : Type 0} (add : D → D → D) (name : Text) (ms : D) (m : Metrics D)
    → counter name (record_latency add ms m) ≡ counter name m
unfolding counter record_latency
counter-latency add name ms m = refl

pub record_success-closed : (b : Breaker) → b.state ≡ closed → (record_success b).state ≡ closed
unfolding record_success
record_success-closed b h = ground (arith, h)

pub allow_request-closed :
    (b : Breaker) (now : Time) → b.state ≡ closed → allow_request b now ≡ (b, true)
unfolding allow_request
allow_request-closed b now h = ground (arith, h)

module _ {D : Type 0} (add : D → D → D) where
  settle-Served :
      (r : Round D) (s : Session D) (server : Server)
      → IsWell s
      → IsDurable server
      → IsWell (settle add r s server true) × Served 1 s (settle add r s server true)
  unfolding settle
  settle-Served r s server w d =
      let m = record_latency add r.latency s.metrics in
      let up =
        counter-increment succeeded m
        ∙ ap increment (counter-latency add succeeded r.latency s.metrics) in
      let other = λ (name : Text) (h : equivalent text_order name succeeded ≡ false).
        counter-other name succeeded m h ∙ counter-latency add name r.latency s.metrics in
      (
        record {
          durable = d;
          shut = record_success-closed s.breaker w.shut;
          counted = rw up (omega arith);
        },
        record {
          connections = refl;
          successes = up;
          failures = other failed (unfold less in refl);
          refusals = other blocked (unfold less in refl);
        },
      )

  pub client_round-Served :
      (i : ℕ) (r : Round D) (s : Session D)
      → IsWell s
      → r.choice < 3
      → (s' : Session D) × (client_round add i r s ≡ some s') × IsWell s' × Served 1 s s'
  unfolding client_round
  client_round-Served i r s w h =
      let (server, o, ran, d, _, success) =
        process_command-Keeps s.server (command i r) w.durable (command-IsClean i r) in
      let (w', served) = settle-Served r s server w d in
      (
        settle add r s server true,
        rw (allow_request-closed s.breaker r.asked w.shut, ran, success (command-IsKnown i r h))
            refl,
        w',
        served,
      )

  client_rounds-Served :
      (left i : ℕ) (draws : ℕ → Round D) (s : Session D)
      → IsWell s
      → ((j : ℕ) → (draws j).choice < 3)
      → (s' : Session D) × (client_rounds add left i draws s ≡ some s')
        × IsWell s'
        × Served left s s'
  unfolding client_rounds
  client_rounds-Served zero i draws s w h = (
    s,
    refl,
    w,
    record {
      connections = refl;
      successes = omega (arith, w.counted);
      failures = refl;
      refusals = refl;
    },
  )
  client_rounds-Served (suc left) i draws s w h =
      let (s₁, ran, w₁, one) = client_round-Served i (draws i) s w (h i) in
      let (s₂, rest, w₂, more) = client_rounds-Served left (suc i) draws s₁ w₁ h in
      (
        s₂,
        rw (ran, rest) refl,
        w₂,
        record {
          connections = more.connections ∙ one.connections;
          successes = more.successes ∙ rw one.successes (omega arith);
          failures = more.failures ∙ one.failures;
          refusals = more.refusals ∙ one.refusals;
        },
      )

  -- While the log is open and the breaker closed, a client's ten requests are all served, whatever
  -- the draws are: the counter of successes grows by ten, no request is refused and none fails, the
  -- breaker stays closed, the log still stands for the cache, and the number of connections is what
  -- it was. The counters are below the range of `int`, and the draws are those of the distribution.
  pub handle_client_simulation-Served :
      (draws : ℕ → Round D) (s : Session D)
      → IsWell s
      → s.connection_count < int_mod
      → ((j : ℕ) → (draws j).choice < 3)
      → (s' : Session D) × (handle_client_simulation add draws s ≡ some s')
        × IsWell s'
        × Served 10 s s'
  unfolding handle_client_simulation
  handle_client_simulation-Served draws s w few h =
      let opened = record s { connection_count = increment s.connection_count } in
      let w₀ : IsWell opened = record { durable = w.durable; shut = w.shut; counted = w.counted } in
      let (s₁, ran, w₁, served) = client_rounds-Served 10 0 draws opened w₀ h in
      (
        record s₁ { connection_count = (s₁.connection_count + (int_mod - 1)) % int_mod },
        rw ran refl,
        record { durable = w₁.durable; shut = w₁.shut; counted = w₁.counted },
        record {
          connections = rw served.connections (omega arith);
          successes = served.successes;
          failures = served.failures;
          refusals = served.refusals;
        },
      )
