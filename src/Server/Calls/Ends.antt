-- ===== src/Server/Calls/Ends.antt =====
-- The end of the client threads: how many calls they make, and that they do not stop before.
use dist_cache.Prelude.{ℕ, suc, ◌+◌, ◌*◌, ◌-◌, ◌≤◌, ◌<◌, ap, List, arith}
use dist_cache.Wal.{Record}
use dist_cache.Server.Client.{Session, client_requests}
use dist_cache.Server.Calls.{
  Stage, starting, gone, asking, admitted, refused, logging, answered, timed, told, Service, Call,
  enter, allow, refuse, count_refused, write, look, log, log_fails, measure, report_success,
  report_failure, count_success, count_failure, leave, Step, call, Reach, begin, later,
}
use dist_cache.Server.Calls.Counts.{total, total-split}

-- The calls that a client has before it at most: six for each of its rounds.
abbrev pub left : Stage → ℕ
left starting = 6 * client_requests + 2
left gone = 0
left (asking i) = 6 * (client_requests - i) + 1
left (admitted i) = 6 * (client_requests - suc i) + 6
left (refused i) = 6 * (client_requests - suc i) + 2
left (logging i r) = 6 * (client_requests - suc i) + 5
left (answered i success) = 6 * (client_requests - suc i) + 4
left (timed i success) = 6 * (client_requests - suc i) + 3
left (told i success) = 6 * (client_requests - suc i) + 2

module _ {D : Type 0} (add : D → D → D) where
  Call-left :
      {s s' : Session D} {h h' : List Record} {at at' : Stage}
      → Call add s h at s' h' at'
      → left at' < left at
  Call-left enter = omega arith
  Call-left (allow now lt e) = omega (arith, lt)
  Call-left (refuse now lt e) = omega (arith, lt)
  Call-left count_refused = omega arith
  Call-left (write r known other e) = omega arith
  Call-left (look r is_get) = omega arith
  Call-left (log can_open e) = omega arith
  Call-left (log_fails can_open e) = omega arith
  Call-left (measure ms) = omega arith
  Call-left report_success = omega arith
  Call-left (report_failure now) = omega arith
  Call-left count_success = omega arith
  Call-left count_failure = omega arith
  Call-left (leave all) = omega (arith, all)

  -- The number of calls of a run.
  abbrev pub calls : {start s : Service D} → Reach add start s → ℕ
  calls begin = 0
  calls (later reached step) = suc (calls reached)

  pub Step-left : {s t : Service D} → Step add s t → total left t.stages < total left s.stages
  Step-left {s} (call before after {at} {at'} place moved) = omega (
    arith,
    ap (total left) place,
    Call-left moved,
    total-split left before at after,
    total-split left before at' after,
  )

  -- In any run of any number of clients, whether the log takes the records and the breaker lets the
  -- requests pass or not, the calls made and the calls that are left at most are together no more
  -- than the calls that were left at the start: 62 for each client that has not started.
  pub Reach-left :
      {start s : Service D} (reached : Reach add start s)
      → calls reached + total left s.stages ≤ total left start.stages
  Reach-left begin = omega arith
  Reach-left (later reached step) = omega (arith, Reach-left reached, Step-left step)
