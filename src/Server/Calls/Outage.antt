-- ===== src/Server/Calls/Outage.antt =====
-- The client threads whatever the log and the breaker do.
use dist_cache.Prelude.{ℕ, ◌+◌, ◌≡◌, ◌∙◌, ap, List, ◌∷◌, ◌++◌, arith, All, All-split, length}
use dist_cache.Wal.{Record}
use dist_cache.Server.Client.{client_requests}
use dist_cache.Server.Writes.{IsTracked}
use dist_cache.Server.Calls.{Service, Step, call, Reach, begin, later}
use dist_cache.Server.Calls.Counts.{connected, served, total, total-split}
use dist_cache.Prelude.{[]}
use dist_cache.Metrics.{counter}
use dist_cache.Server.Sessions.{failed}
use dist_cache.Startup.Recovery.{values, apply_all}
use dist_cache.Server.Calls.Invariant.{Call-IsCurrent, total-bounded, length-split, retotal}
use dist_cache.Server.Calls.Ledger.{ledger, Call-Kept}
use dist_cache.Server.Calls.Accounts.{
  IsWithin, reporting, answers, asked, failing, Call-failures, Call-Moved, bounded,
}

-- The cache is valid and holds what the writes so far stand for; the log is of whole lines, and its
-- records, the waiting ones and those that it has lost are together those writes, each as often; it
-- has lost one for each failure that is counted or that a client has still to count.
-- Each client that is in is a connection, each of its rounds is counted as a success, a failure or a
-- refusal, and each that was let through is measured.
pub record IsAccounted {D : Type 0} (capacity : ℕ) (s : Service D) : Type 0 where
  pub lost : List Record
  pub tracked : IsTracked capacity (ledger s lost)
  pub seen : values s.session.server.cache ≡ apply_all capacity [] s.history
  pub refused : length lost ≡ counter failed s.session.metrics + total failing s.stages
  pub connections : s.session.connection_count ≡ total connected s.stages
  pub requests : asked s.session ≡ total served s.stages
  pub measures : s.session.metrics.request_count ≡ answers s.session + total reporting s.stages
  pub within : All IsWithin s.stages
  pub few : length s.stages ≡ 3

module _ {D : Type 0} (add : D → D → D) (capacity : ℕ) where
  Step-IsAccounted :
      {s t : Service D} → Step add s t → IsAccounted capacity s → IsAccounted capacity t
  Step-IsAccounted {s} (call before after {at} {at'} {session} {history} place moved) v =
      let within_all : All IsWithin (before ++ at ∷ after) = rw (← place) v.within in
      let few : length (before ++ at ∷ after) ≡ 3 = rw (← place) v.few in
      let connections : s.session.connection_count ≡ total connected (before ++ at ∷ after) =
        v.connections ∙ ap (total connected) place in
      let requests : asked s.session ≡ total served (before ++ at ∷ after) =
        v.requests ∙ ap (total served) place in
      let measures : s.session.metrics.request_count
          ≡ answers s.session + total reporting (before ++ at ∷ after) =
        v.measures ∙ ap (λ n. answers s.session + n) (ap (total reporting) place) in
      let (within, put) = All-split IsWithin before at after within_all in
      let in_count = total-bounded IsWithin connected 1 (λ a h. (bounded a h).0) _ within_all in
      let served_count =
        total-bounded IsWithin served client_requests (λ a h. (bounded a h).1) _ within_all in
      let reports = total-bounded IsWithin reporting 1 (λ a h. (bounded a h).2) _ within_all in
      let (shown, within') =
        Call-Moved add moved within
          (omega (arith, connections, total-split connected before at after))
          (omega (arith, connections, in_count, few)) (omega (arith, requests, served_count, few))
          (omega (arith, measures, requests, served_count, reports, few)) in
      let (lost, kept, more) =
        Call-Kept add capacity before after v.lost moved (rw (← place) v.tracked) in
      let refused : length v.lost
          ≡ counter failed s.session.metrics + total failing (before ++ at ∷ after) =
        v.refused ∙ ap (λ n. counter failed s.session.metrics + n) (ap (total failing) place) in
      record {
        lost = lost;
        tracked = kept;
        seen = Call-IsCurrent add capacity moved v.tracked.valid v.tracked.size v.seen;
        refused = omega (
          arith,
          refused,
          more,
          Call-failures add moved (omega (arith, requests, served_count, few)),
          total-split failing before at after,
          total-split failing before at' after,
        );
        connections = retotal connected before after at at' _ _ connections shown.connections;
        requests = retotal served before after at at' _ _ requests shown.requests;
        measures = omega (
          arith,
          measures,
          shown.measures,
          total-split reporting before at after,
          total-split reporting before at' after,
        );
        within = put at' within';
        few = length-split before at at' after ∙ few;
      }

  -- Any calls of three clients, in any order, whether the log takes the records or not and the
  -- breaker lets the requests pass or not, keep the accounts: the cache holds what the writes stand
  -- for, each write is in the log, waits for it or is lost to it, and as many are lost as failures are
  -- counted or have still to be counted; each client that is in is a connection, and each of the
  -- rounds made is counted once and, if it was let through, measured.
  pub Reach-IsAccounted :
      {start s : Service D}
      → IsAccounted capacity start
      → Reach add start s
      → IsAccounted capacity s
  Reach-IsAccounted v begin = v
  Reach-IsAccounted v (later reached step) = Step-IsAccounted step (Reach-IsAccounted v reached)
