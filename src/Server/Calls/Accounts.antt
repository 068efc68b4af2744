-- ===== src/Server/Calls/Accounts.antt =====
-- What one call of a client changes in the metrics and in the number of connections.
use dist_cache.Prelude.{true, false}
use dist_cache.Prelude.{ℕ, suc, ◌+◌, ◌≡◌, ◌≤◌, ◌<◌, refl, List, arith}
use dist_cache.Text.Order.{less}
use dist_cache.Wal.{Record}
use dist_cache.Breaker.{int_mod}
use dist_cache.Metrics.{counter, record_latency, increment_counter}
use dist_cache.Metrics.Counters.{counter-increment, counter-other}
use dist_cache.Server.Client.{Session, client_requests}
use dist_cache.Server.Sessions.{succeeded, failed, blocked, counter-latency}
use dist_cache.Server.Calls.{
  Stage, starting, gone, asking, admitted, refused, logging, answered, timed, told, Call, enter,
  allow, refuse, count_refused, write, look, log, log_fails, measure, report_success,
  report_failure, count_success, count_failure, leave,
}
use dist_cache.Server.Calls.Ledger.{fails}
use dist_cache.Server.Calls.Counts.{connected, served}

-- The client is within its ten rounds.
abbrev pub IsWithin : Stage → Type 0
IsWithin starting = Unit
IsWithin gone = Unit
IsWithin (asking i) = i ≤ client_requests
IsWithin (admitted i) = i < client_requests
IsWithin (refused i) = i < client_requests
IsWithin (logging i r) = i < client_requests
IsWithin (answered i success) = i < client_requests
IsWithin (timed i success) = i < client_requests
IsWithin (told i success) = i < client_requests

-- A request of the client has been measured and not yet counted.
abbrev pub reporting : Stage → ℕ
reporting (timed i success) = 1
reporting (told i success) = 1
reporting _ = 0

-- The log has refused the client's record, and the failure has not been counted.
abbrev pub failing : Stage → ℕ
failing (answered i false) = 1
failing (timed i false) = 1
failing (told i false) = 1
failing _ = 0

-- The requests that the cache has answered, and those with the ones that the breaker has refused.
abbrev pub answers : {D : Type 0} → Session D → ℕ
answers s = counter succeeded s.metrics + counter failed s.metrics

abbrev pub asked : {D : Type 0} → Session D → ℕ
asked s = answers s + counter blocked s.metrics

-- What the metrics and the number of connections show, while `n` connections, `a` requests and `k`
-- reports of a client become `n'`, `a'` and `k'`.
pub record Moved {D : Type 0} (s s' : Session D) (n n' a a' k k' : ℕ) : Type 0 where
  pub connections : s'.connection_count + n ≡ s.connection_count + n'
  pub requests : asked s' + a ≡ asked s + a'
  pub measures :
      (s'.metrics.request_count + answers s) + k ≡ (s.metrics.request_count + answers s') + k'

same-Moved :
    {D : Type 0} (s s' : Session D) (n a k : ℕ)
    → s'.connection_count ≡ s.connection_count
    → s'.metrics ≡ s.metrics
    → Moved s s' n n a a k k
same-Moved s s' n a k count metrics = record {
  connections = rw count refl;
  requests = rw metrics refl;
  measures = rw metrics refl;
}

module _ {D : Type 0} (s : Session D) (n a : ℕ) (room : asked s + 1 < int_mod) where
  counted_success :
      Moved s (record s { metrics = increment_counter succeeded s.metrics }) n n a (suc a) 1 0
  counted_success =
      let up = counter-increment succeeded s.metrics in
      let others = counter-other failed succeeded s.metrics (unfold less in refl) in
      let refusals = counter-other blocked succeeded s.metrics (unfold less in refl) in
      record {
        connections = refl;
        requests = omega (arith, up, others, refusals);
        measures = unfold increment_counter in omega (arith, up, others);
      }

  counted_failure :
      Moved s (record s { metrics = increment_counter failed s.metrics }) n n a (suc a) 1 0
  counted_failure =
      let up = counter-increment failed s.metrics in
      let others = counter-other succeeded failed s.metrics (unfold less in refl) in
      let refusals = counter-other blocked failed s.metrics (unfold less in refl) in
      record {
        connections = refl;
        requests = omega (arith, up, others, refusals);
        measures = unfold increment_counter in omega (arith, up, others);
      }

  counted_refusal :
      Moved s (record s { metrics = increment_counter blocked s.metrics }) n n a (suc a) 0 0
  counted_refusal =
      let up = counter-increment blocked s.metrics in
      let successes = counter-other succeeded blocked s.metrics (unfold less in refl) in
      let failures = counter-other failed blocked s.metrics (unfold less in refl) in
      record {
        connections = refl;
        requests = omega (arith, up, successes, failures);
        measures = unfold increment_counter in omega (arith, successes, failures);
      }

measured :
    {D : Type 0} (add : D → D → D) (s : Session D) (ms : D) (n a : ℕ)
    → s.metrics.request_count + 1 < int_mod
    → Moved s (record s { metrics = record_latency add ms s.metrics }) n n a a 0 1
measured add s ms n a space =
    let successes = counter-latency add succeeded ms s.metrics in
    let failures = counter-latency add failed ms s.metrics in
    let refusals = counter-latency add blocked ms s.metrics in
    record {
      connections = refl;
      requests = omega (arith, successes, failures, refusals);
      measures = unfold record_latency in omega (arith, successes, failures);
    }

module _ {D : Type 0} (add : D → D → D) where
  -- While the counters are in range.
  pub Call-Moved :
      {s s' : Session D} {h h' : List Record} {at at' : Stage}
      → Call add s h at s' h' at'
      → IsWithin at
      → connected at ≤ s.connection_count
      → s.connection_count + 1 < int_mod
      → asked s + 1 < int_mod
      → s.metrics.request_count + 1 < int_mod
      → Moved s s'
          (connected at)
          (connected at')
          (served at)
          (served at')
          (reporting at)
          (reporting at')
        × IsWithin at'
  Call-Moved enter within some_in few room space =
      (record { connections = omega arith; requests = refl; measures = refl }, omega arith)
  Call-Moved {s} (allow now lt e) within some_in few room space =
      (same-Moved s _ 1 _ 0 refl refl, lt)
  Call-Moved {s} (refuse now lt e) within some_in few room space =
      (same-Moved s _ 1 _ 0 refl refl, lt)
  Call-Moved {s} count_refused within some_in few room space =
      (counted_refusal s 1 _ room, omega (arith, within))
  Call-Moved {s} (write r known other e) within some_in few room space =
      (same-Moved s _ 1 _ 0 refl refl, within)
  Call-Moved {s} (look r is_get) within some_in few room space =
      (same-Moved s _ 1 _ 0 refl refl, within)
  Call-Moved {s} (log can_open e) within some_in few room space =
      (same-Moved s _ 1 _ 0 refl refl, within)
  Call-Moved {s} (log_fails can_open e) within some_in few room space =
      (same-Moved s _ 1 _ 0 refl refl, within)
  Call-Moved {s} (measure ms) within some_in few room space = (measured add s ms 1 _ space, within)
  Call-Moved {s} report_success within some_in few room space =
      (same-Moved s _ 1 _ 1 refl refl, within)
  Call-Moved {s} (report_failure now) within some_in few room space =
      (same-Moved s _ 1 _ 1 refl refl, within)
  Call-Moved {s} count_success within some_in few room space =
      (counted_success s 1 _ room, omega (arith, within))
  Call-Moved {s} count_failure within some_in few room space =
      (counted_failure s 1 _ room, omega (arith, within))
  Call-Moved (leave all) within some_in few room space =
      (record { connections = omega arith; requests = omega (arith, all); measures = refl }, tt)

-- Each failure of the log is one of its client, until it is counted.
pub Call-failures :
    {D : Type 0} (add : D → D → D) {s s' : Session D} {h h' : List Record} {at at' : Stage}
    (made : Call add s h at s' h' at')
    → counter failed s.metrics + 1 < int_mod
    → counter failed s'.metrics + failing at' ≡ (counter failed s.metrics + failing at) + fails made
Call-failures add enter room = omega arith
Call-failures add (allow now lt e) room = omega arith
Call-failures add (refuse now lt e) room = omega arith
Call-failures add {s} count_refused room =
    omega (arith, counter-other failed blocked s.metrics (unfold less in refl))
Call-failures add (write r known other e) room = omega arith
Call-failures add (look r is_get) room = omega arith
Call-failures add (log can_open e) room = omega arith
Call-failures add (log_fails can_open e) room = omega arith
Call-failures add {s} (measure {success = true} ms) room =
    omega (arith, counter-latency add failed ms s.metrics)
Call-failures add {s} (measure {success = false} ms) room =
    omega (arith, counter-latency add failed ms s.metrics)
Call-failures add report_success room = omega arith
Call-failures add (report_failure now) room = omega arith
Call-failures add {s} count_success room =
    omega (arith, counter-other failed succeeded s.metrics (unfold less in refl))
Call-failures add {s} count_failure room = omega (arith, counter-increment failed s.metrics)
Call-failures add (leave all) room = omega arith

pub bounded :
    (at : Stage)
    → IsWithin at
    → (connected at ≤ 1) × (served at ≤ client_requests) × (reporting at ≤ 1)
bounded starting h = (omega arith, omega arith, omega arith)
bounded gone h = (omega arith, omega arith, omega arith)
bounded (asking i) h = (omega arith, h, omega arith)
bounded (admitted i) h = (omega arith, omega (arith, h), omega arith)
bounded (refused i) h = (omega arith, omega (arith, h), omega arith)
bounded (logging i r) h = (omega arith, omega (arith, h), omega arith)
bounded (answered i success) h = (omega arith, omega (arith, h), omega arith)
bounded (timed i success) h = (omega arith, omega (arith, h), omega arith)
bounded (told i success) h = (omega arith, omega (arith, h), omega arith)
