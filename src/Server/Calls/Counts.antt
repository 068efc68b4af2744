-- ===== src/Server/Calls/Counts.antt =====
-- What the clients have counted, by where they stand.
use dist_cache.Prelude.{
  ℕ, suc, ◌+◌, ◌≡◌, ◌≤◌, ◌<◌, refl, ap, Bool, true, List, [], ◌∷◌, ◌++◌, arith, throws,
}
use dist_cache.Wal.{Wal, Record, append}
use dist_cache.Text.{Text}
use dist_cache.Text.Order.{less}
use dist_cache.Breaker.{closed, allow_request, int_mod}
use dist_cache.Metrics.{counter, record_latency, increment_counter}
use dist_cache.Metrics.Counters.{counter-increment, counter-other}
use dist_cache.Server.Client.{Session, client_requests}
use dist_cache.Server.Sessions.{
  succeeded, failed, blocked, counter-latency, record_success-closed, allow_request-closed,
}
use dist_cache.Server.Calls.{
  Stage, starting, gone, asking, admitted, refused, logging, answered, timed, told, Call, enter,
  allow, refuse, count_refused, write, look, log, log_fails, measure, report_success,
  report_failure, count_success, count_failure, leave,
}

-- The client has met no refusal and no failure, and is within its ten rounds.
abbrev pub IsSmooth : Stage → Type 0
IsSmooth starting = Unit
IsSmooth gone = Unit
IsSmooth (asking i) = i ≤ client_requests
IsSmooth (admitted i) = i < client_requests
IsSmooth (refused i) = ⊥
IsSmooth (logging i r) = i < client_requests
IsSmooth (answered i success) = (success ≡ true) × (i < client_requests)
IsSmooth (timed i success) = (success ≡ true) × (i < client_requests)
IsSmooth (told i success) = (success ≡ true) × (i < client_requests)

-- The connections, the served requests and the measured requests of one client.
abbrev pub connected : Stage → ℕ
connected starting = 0
connected gone = 0
connected _ = 1

abbrev pub served : Stage → ℕ
served starting = 0
served gone = client_requests
served (asking i) = i
served (admitted i) = i
served (refused i) = i
served (logging i r) = i
served (answered i success) = i
served (timed i success) = i
served (told i success) = i

abbrev pub measured : Stage → ℕ
measured (timed i success) = suc i
measured (told i success) = suc i
measured at = served at

abbrev pub total : (Stage → ℕ) → List Stage → ℕ
total f [] = 0
total f (at ∷ ats) = f at + total f ats

pub total-split :
    (f : Stage → ℕ) (before : List Stage) (at : Stage) (after : List Stage)
    → total f (before ++ at ∷ after) ≡ f at + (total f before + total f after)
total-split f [] at after = omega arith
total-split f (b ∷ before) at after = omega (arith, total-split f before at after)

-- What the metrics and the breaker show, while `n` connections and `a` and `m` requests of a client
-- become `n'`, `a'` and `m'`.
pub record Counted {D : Type 0} (s s' : Session D) (n n' a a' m m' : ℕ) : Type 0 where
  pub shut : s'.breaker.state ≡ closed
  pub connections : s'.connection_count + n ≡ s.connection_count + n'
  pub successes : counter succeeded s'.metrics + a ≡ counter succeeded s.metrics + a'
  pub requests : s'.metrics.request_count + m ≡ s.metrics.request_count + m'
  pub failures : counter failed s'.metrics ≡ counter failed s.metrics
  pub refusals : counter blocked s'.metrics ≡ counter blocked s.metrics

-- A call that leaves the breaker, the metrics and the number of connections as they are.
same-Counted :
    {D : Type 0} (s s' : Session D) (n a m : ℕ)
    → s.breaker.state ≡ closed
    → s'.breaker.state ≡ closed
    → s'.connection_count ≡ s.connection_count
    → s'.metrics ≡ s.metrics
    → Counted s s' n n a a m m
same-Counted s s' n a m shut shut' count metrics = record {
  shut = shut';
  connections = rw count refl;
  successes = rw metrics refl;
  requests = rw metrics refl;
  failures = rw metrics refl;
  refusals = rw metrics refl;
}

measured-Counted :
    {D : Type 0} (add : D → D → D) (s : Session D) (ms : D) (n a m : ℕ)
    → s.breaker.state ≡ closed
    → s.metrics.request_count + 1 < int_mod
    → Counted s (record s { metrics = record_latency add ms s.metrics }) n n a a m (suc m)
measured-Counted add s ms n a m shut room = record {
  shut = shut;
  connections = refl;
  successes = ap (λ k. k + a) (counter-latency add succeeded ms s.metrics);
  requests = unfold record_latency in omega arith;
  failures = counter-latency add failed ms s.metrics;
  refusals = counter-latency add blocked ms s.metrics;
}

served-Counted :
    {D : Type 0} (s : Session D) (n a m : ℕ)
    → s.breaker.state ≡ closed
    → counter succeeded s.metrics + 1 < int_mod
    → Counted s (record s { metrics = increment_counter succeeded s.metrics }) n n a (suc a) m m
served-Counted s n a m shut room = record {
  shut = shut;
  connections = refl;
  successes = omega (arith, counter-increment succeeded s.metrics);
  requests = unfold increment_counter in refl;
  failures = counter-other failed succeeded s.metrics (unfold less in refl);
  refusals = counter-other blocked succeeded s.metrics (unfold less in refl);
}

pub append_open :
    (w : Wal) (op key value : Text) (can_open : Bool) (what : Text)
    → w.is_open ≡ true
    → ¬ (append w op key value can_open ≡ throws what)
unfolding append
append_open w op key value can_open what opened e = absurd (ground (arith, opened))

module _ {D : Type 0} (add : D → D → D) where
  -- While the log is open, the breaker closed and the counters in range.
  pub Call-Counted :
      {s s' : Session D} {h h' : List Record} {at at' : Stage}
      → Call add s h at s' h' at'
      → IsSmooth at
      → s.breaker.state ≡ closed
      → s.server.wal.is_open ≡ true
      → connected at ≤ s.connection_count
      → s.connection_count + 1 < int_mod
      → counter succeeded s.metrics + 1 < int_mod
      → s.metrics.request_count + 1 < int_mod
      → Counted s s'
          (connected at)
          (connected at')
          (served at)
          (served at')
          (measured at)
          (measured at')
        × IsSmooth at'
  Call-Counted enter smooth shut opened some_in few room space = (
    record {
      shut = shut;
      connections = omega arith;
      successes = refl;
      requests = refl;
      failures = refl;
      refusals = refl;
    },
    omega arith,
  )
  Call-Counted {s} (allow now lt allowed) smooth shut opened some_in few room space =
      let open_still : (allow_request s.breaker now).0.state ≡ closed =
        rw (allow_request-closed s.breaker now shut) shut in
      (same-Counted s _ 1 _ _ shut open_still refl refl, lt)
  Call-Counted {s} (refuse now lt refused_) smooth shut opened some_in few room space =
      let allowed = allow_request-closed s.breaker now shut in absurd (ground (arith, allowed))
  Call-Counted count_refused smooth shut opened some_in few room space = absurd smooth
  Call-Counted {s} (write r known other e) smooth shut opened some_in few room space =
      (same-Counted s _ 1 _ _ shut shut refl refl, smooth)
  Call-Counted {s} (look r is_get) smooth shut opened some_in few room space =
      (same-Counted s _ 1 _ _ shut shut refl refl, (refl, smooth))
  Call-Counted {s} (log can_open e) smooth shut opened some_in few room space =
      (same-Counted s _ 1 _ _ shut shut refl refl, (refl, smooth))
  Call-Counted {s} (log_fails can_open e) smooth shut opened some_in few room space =
      absurd (append_open s.server.wal _ _ _ can_open _ opened e)
  Call-Counted {s} (measure ms) smooth shut opened some_in few room space =
      (measured-Counted add s ms 1 _ _ shut space, smooth)
  Call-Counted {s} report_success smooth shut opened some_in few room space =
      (same-Counted s _ 1 _ _ shut (record_success-closed s.breaker shut) refl refl, smooth)
  Call-Counted (report_failure now) smooth shut opened some_in few room space =
      let failed_ = smooth.0 in absurd (cc)
  Call-Counted {s} count_success smooth shut opened some_in few room space =
      (served-Counted s 1 _ _ shut room, omega (arith, smooth.1))
  Call-Counted count_failure smooth shut opened some_in few room space =
      let failed_ = smooth.0 in absurd (cc)
  Call-Counted (leave all) smooth shut opened some_in few room space = (
    record {
      shut = shut;
      connections = omega arith;
      successes = omega arith;
      requests = omega arith;
      failures = refl;
      refusals = refl;
    },
    tt,
  )
