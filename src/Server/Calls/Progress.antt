-- ===== src/Server/Calls/Progress.antt =====
-- The client threads never wait for one another, and what they leave at the end.
use dist_cache.Prelude.{
  All-split, ℕ, ◌+◌, ◌*◌, ◌≡◌, ◌≤◌, ◌<◌, refl, ap, Bool, true, false, List, [], ◌∷◌, ◌++◌, map,
  arith, Bool-cases, inl, inr, ◌⊎◌, All, length, Result, ok, throws,
}
use dist_cache.Cache.Invariant.{IsValid}
use dist_cache.Wal.{Wal, Record, replay, append}
use dist_cache.Metrics.{counter}
use dist_cache.Breaker.{allow_request}
use dist_cache.Startup.Recovery.{values, apply_all, redo-values}
use dist_cache.Server.Client.{Session, Round, command, client_requests}
use dist_cache.Server.Sessions.{succeeded, failed, blocked}
use dist_cache.Server.Writes.{tally, tally_pending}
use dist_cache.Server.Calls.{
  Stage, starting, gone, asking, admitted, refused, logging, answered, timed, told, Service, Call,
  enter, allow, refuse, count_refused, write, look, log, log_fails, measure, report_success,
  report_failure, count_success, count_failure, leave, Step, call, Reach, pends, record_of,
}
use dist_cache.Server.Calls.Counts.{IsSmooth, connected, served, measured, total}
use dist_cache.Server.Calls.Ends.{left, calls, Reach-left}
use dist_cache.Server.Calls.Invariant.{IsServing, Reach-IsCurrent, Reach-IsServing}

abbrev pub AreGone : List Stage → Type 0
AreGone = All (λ at. at ≡ gone)

-- Every client has left: all requests have been served and counted, and the log has every write that
-- the cache has taken, each as often.
pub record HasEnded {D : Type 0} (capacity : ℕ) (s : Service D) : Type 0 where
  pub all_gone : AreGone s.stages
  pub connections : s.session.connection_count ≡ 0
  pub successes : counter succeeded s.session.metrics ≡ 3 * client_requests
  pub requests : s.session.metrics.request_count ≡ 3 * client_requests
  pub failures : counter failed s.session.metrics ≡ 0
  pub refusals : counter blocked s.session.metrics ≡ 0
  pub seen : values s.session.server.cache ≡ apply_all capacity [] s.history
  pub logged : (p : Record → Bool) → tally p (replay s.session.server.wal) ≡ tally p s.history

-- Some client is still there.
abbrev pub Stays : List Stage → Type 0
Stays ats =
    (before : List Stage) × (at : Stage) × (after : List Stage) × (ats ≡ before ++ at ∷ after)
    × ¬ (at ≡ gone)

gone-or : (at : Stage) → (at ≡ gone) ⊎ (¬ (at ≡ gone))
gone-or gone = inl refl
gone-or starting = inr (λ e. cc)
gone-or (asking i) = inr (λ e. cc)
gone-or (admitted i) = inr (λ e. cc)
gone-or (refused i) = inr (λ e. cc)
gone-or (logging i r) = inr (λ e. cc)
gone-or (answered i success) = inr (λ e. cc)
gone-or (timed i success) = inr (λ e. cc)
gone-or (told i success) = inr (λ e. cc)

pub gone-or-Stays : (ats : List Stage) → AreGone ats ⊎ Stays ats
gone-or-Stays [] = inl tt
gone-or-Stays (at ∷ ats) = elim (gone-or at) [
  | inr stays ↦ inr ([], at, ats, refl, stays)
  | inl ended_ ↦ elim (gone-or-Stays ats) [
    | inl all ↦ inl (ended_, all)
    | inr (before, b, after, place, stays) ↦
        inr (at ∷ before, b, after, ap (λ bs. at ∷ bs) place, stays)
  ]
]

total-gone : (f : Stage → ℕ) (ats : List Stage) → AreGone ats → total f ats ≡ f gone * length ats
total-gone f [] h = omega arith
total-gone f (at ∷ ats) h = omega (arith, ap f h.0, total-gone f ats h.1)

pends-gone :
    (p : Record → Bool) (ats : List Stage) → AreGone ats → tally_pending p (map pends ats) ≡ 0
pends-gone p [] h = refl
pends-gone p (at ∷ ats) h = rw h.0 (pends-gone p ats h.1)

asks-or-leaves : (i : ℕ) → i ≤ client_requests → (i < client_requests) ⊎ (i ≡ client_requests)
asks-or-leaves i h = omega (arith, h)

-- The call is the one that a client makes which draws `r`, and reads of the clock and measures what
-- `r` has; if the log is shut, it can be opened or not as `r` has it.
abbrev pub Follows :
    {D : Type 0} {add : D → D → D} (r : Round D) {s s' : Session D} {h h' : List Record}
    {at at' : Stage}
    → Call add s h at s' h' at'
    → Type 0
Follows r (allow now lt e) = now ≡ r.asked
Follows r (refuse now lt e) = now ≡ r.asked
Follows r (write r' known other e) = r' ≡ r
Follows r (look r' is_get) = r' ≡ r
Follows r (log can_open e) = can_open ≡ r.can_open
Follows r (log_fails can_open e) = can_open ≡ r.can_open
Follows r (measure ms) = ms ≡ r.latency
Follows r (report_failure now) = now ≡ r.failed_at
Follows r _ = Unit

abbrev pub StepFollows :
    {D : Type 0} {add : D → D → D} (r : Round D) {s t : Service D} → Step add s t → Type 0
StepFollows r (call before after place made) = Follows r made

module _ {D : Type 0} (add : D → D → D) (r : Round D) (known : r.choice < 3) where
  -- The client has a call to make, whatever the round draws.
  abbrev pub CanCall : Session D → List Record → Stage → Type 0
  CanCall s h at =
      (s' : Session D) × (h' : List Record) × (at' : Stage) × (made : Call add s h at s' h' at')
      × Follows r made

  admitted-CanCall :
      (s : Session D) (h : List Record) (i : ℕ) → IsValid s.server.cache → CanCall s h (admitted i)
  admitted-CanCall s h i valid = elim (choice_cases r.choice) [
    | inl one ↦ (_, _, _, look r one, refl)
    | inr other ↦
        let (cache, ran, _, _, _) =
          redo-values r.now s.server.cache (record_of (command i r)) valid in
        (_, _, _, write r known other ran, refl)
  ]
    where
      choice_cases : (n : ℕ) → (n ≡ 1) ⊎ (¬ (n ≡ 1))
      choice_cases n = omega arith

  logging-CanCall :
      (s : Session D) (h : List Record) (i : ℕ) (w : Record) (result : Result Wal)
      → append s.server.wal w.0 w.1 w.2 r.can_open ≡ result
      → CanCall s h (logging i w)
  logging-CanCall s h i w (ok wal) e = (_, _, _, log r.can_open e, refl)
  logging-CanCall s h i w (throws what) e = (_, _, _, log_fails r.can_open e, refl)

  pub any-CanCall :
      (s : Session D) (h : List Record) (at : Stage)
      → IsValid s.server.cache
      → IsSmooth at
      → ¬ (at ≡ gone)
      → CanCall s h at
  any-CanCall s h starting valid smooth stays = (_, _, _, enter, tt)
  any-CanCall s h gone valid smooth stays = absurd (stays refl)
  any-CanCall s h (asking i) valid smooth stays = elim (asks-or-leaves i smooth) [
    | inl within ↦ elim (Bool-cases (allow_request s.breaker r.asked).1) [
      | inl allowed ↦ (_, _, _, allow r.asked within allowed, refl)
      | inr denied ↦ (_, _, _, refuse r.asked within denied, refl)
    ]
    | inr all ↦ (_, _, _, leave all, tt)
  ]
  any-CanCall s h (admitted i) valid smooth stays = admitted-CanCall s h i valid
  any-CanCall s h (refused i) valid smooth stays = (_, _, _, count_refused, tt)
  any-CanCall s h (logging i w) valid smooth stays = logging-CanCall s h i w _ refl
  any-CanCall s h (answered i success) valid smooth stays = (_, _, _, measure r.latency, refl)
  any-CanCall s h (timed i true) valid smooth stays = (_, _, _, report_success, tt)
  any-CanCall s h (timed i false) valid smooth stays = (_, _, _, report_failure r.failed_at, refl)
  any-CanCall s h (told i true) valid smooth stays = (_, _, _, count_success, tt)
  any-CanCall s h (told i false) valid smooth stays = (_, _, _, count_failure, tt)

  module _ (capacity : ℕ) where
    ended :
        (s : Service D)
        → IsServing capacity s
        → values s.session.server.cache ≡ apply_all capacity [] s.history
        → AreGone s.stages
        → HasEnded capacity s
    ended s v seen all = record {
      all_gone = all;
      connections = omega (arith, v.connections, total-gone connected s.stages all);
      successes = omega (arith, v.successes, total-gone served s.stages all, v.few);
      requests = omega (arith, v.requests, total-gone measured s.stages all, v.few);
      failures = v.failures;
      refusals = v.refusals;
      seen = seen;
      logged = λ p. omega (arith, v.tracked.logged p, pends-gone p s.stages all);
    }

    -- While three clients are served by a log that is open, a breaker that is closed and a valid
    -- cache that holds what the writes so far stand for, any calls of theirs in any order come to where
    -- either all have left, with no connection, thirty requests served and measured, none failed or
    -- blocked, the cache as the writes have it, and the log's records those writes, each as often; or
    -- one of them can make a call that is as the round `r` draws, reads and measures, for any round of
    -- one of the three commands. The calls made and those left at most are together no more than were left at the start, which are
    -- 62 for a client that has not started.
    pub Reach-ends :
        {start s : Service D}
        → IsServing capacity start
        → values start.session.server.cache ≡ apply_all capacity [] start.history
        → (reached : Reach add start s)
        → (calls add reached + total left s.stages ≤ total left start.stages)
          × (HasEnded capacity s ⊎ ((t : Service D) × (step : Step add s t) × StepFollows r step))
    Reach-ends {s = s} v seen reached =
        let w = Reach-IsServing add capacity v reached in
        (
          Reach-left add reached,
          elim (gone-or-Stays s.stages) [
            | inl all ↦ inl (ended s w (Reach-IsCurrent add capacity v seen reached) all)
            | inr (before, at, after, place, stays) ↦
                let (smooth, _) = All-split IsSmooth before at after (rw (← place) w.smooth) in
                let (s', h', at', made, follows) =
                  any-CanCall s.session s.history at w.tracked.valid smooth stays in
                inr (_, call before after place made, follows)
          ],
        )
