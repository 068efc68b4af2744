-- ===== src/Server/Calls/Invariant.antt =====
-- What holds after any calls of the client threads, in any order.
use mathlib.Core.List.{map-append}
use dist_cache.Prelude.{
  All-split, ℕ, zero, suc, ◌+◌, ◌*◌, ◌≡◌, ◌≤◌, ◌<◌, ◌∙◌, refl, ap, sym, List, [], ◌∷◌, ◌++◌, map,
  arith, All, length, inl, inr, ◌⊎◌,
}
use dist_cache.Text.{codes}
use dist_cache.Wal.{Record}
use dist_cache.Breaker.{closed}
use dist_cache.Metrics.{counter}
use dist_cache.Server.Client.{Session, Round, command, command_name, client_requests}
use dist_cache.Server.Requests.{command-IsClean}
use dist_cache.Server.Sessions.{succeeded, failed, blocked}
use dist_cache.Server.Writes
use dist_cache.Server.Writes.{
  Writers, IsWrite, IsTracked, apply-IsCurrent, apply-IsTracked, log-IsTracked, Step-IsTracked,
}
use dist_cache.Cache.Invariant.{IsValid}
use dist_cache.Startup.Recovery.{values, apply_all, get-values}
use dist_cache.Startup.Logged.{set-IsWord, del-IsWord}
use dist_cache.Server.Calls.{
  Stage, starting, gone, asking, admitted, refused, logging, answered, timed, told, Service, Call,
  enter, allow, refuse, count_refused, write, look, log, log_fails, measure, report_success,
  report_failure, count_success, count_failure, leave, Step, call, Reach, begin, later, record_of,
  pends, writers, service,
}
use dist_cache.Server.Calls.Counts.{
  IsSmooth, connected, served, measured, total, total-split, append_open, Call-Counted,
}

-- The cache is valid, the log is whole and has the writes that the cache has taken, but for those
-- that wait; the breaker is closed, and the counts are those of where the clients stand.
pub record IsServing {D : Type 0} (capacity : ℕ) (s : Service D) : Type 0 where
  pub tracked : IsTracked capacity (writers s)
  pub shut : s.session.breaker.state ≡ closed
  pub connections : s.session.connection_count ≡ total connected s.stages
  pub successes : counter succeeded s.session.metrics ≡ total served s.stages
  pub requests : s.session.metrics.request_count ≡ total measured s.stages
  pub failures : counter failed s.session.metrics ≡ 0
  pub refusals : counter blocked s.session.metrics ≡ 0
  pub smooth : All IsSmooth s.stages
  pub few : length s.stages ≡ 3

write_name :
    (n : ℕ) → n < 3 → ¬ (n ≡ 1) → (command_name n ≡ codes "SET") ⊎ (command_name n ≡ codes "DEL")
write_name zero h k = inl refl
write_name (suc zero) h k = absurd (k refl)
write_name (suc (suc zero)) h k = inr refl
write_name (suc (suc (suc n))) h k = absurd (omega arith)

pub command-IsWrite :
    {D : Type 0} (i : ℕ) (r : Round D)
    → r.choice < 3
    → ¬ (r.choice ≡ 1)
    → IsWrite (record_of (command i r))
unfolding command
command-IsWrite i r h k =
    let clean = command-IsClean i r in
    elim (write_name r.choice h k) [
      | inl is_set ↦ record {
        known = inl is_set;
        loggable = record {
          op_word = rw is_set set-IsWord;
          key_word = clean.key_word;
          one_line = clean.one_line;
        };
      }
      | inr is_del ↦ record {
        known = inr is_del;
        loggable = record {
          op_word = rw is_del del-IsWord;
          key_word = clean.key_word;
          one_line = clean.one_line;
        };
      }
    ]

-- Another description of the same writers.
pub retrack :
    (capacity : ℕ) (w w' : Writers)
    → IsTracked capacity w
    → w'.server ≡ w.server
    → w'.pending ≡ w.pending
    → w'.history ≡ w.history
    → IsTracked capacity w'
retrack capacity w w' v server pending history = record {
  valid = rw server v.valid;
  size = rw server v.size;
  tidy = rw server v.tidy;
  opened = rw server v.opened;
  waiting = rw pending v.waiting;
  logged = rw (server, pending, history) v.logged;
}

pub pends-split :
    (before : List Stage) (at : Stage) (after : List Stage)
    → map pends (before ++ at ∷ after) ≡ map pends before ++ pends at ∷ map pends after
pends-split before at after = map-append pends before (at ∷ after)

module _ {D : Type 0} (add : D → D → D) (capacity : ℕ) (before after : List Stage) where
  -- A call that touches neither the cache nor the log.
  untouched :
      (s s' : Session D) (h : List Record) (at at' : Stage)
      → IsTracked capacity (writers (service before after s h at))
      → s'.server ≡ s.server
      → pends at' ≡ pends at
      → IsTracked capacity (writers (service before after s' h at'))
  untouched s s' h at at' v server same =
      retrack capacity (writers (service before after s h at))
        (writers (service before after s' h at')) v server
        (pends-split before at' after
          ∙ ap (λ p. map pends before ++ p ∷ map pends after) same
          ∙ sym (pends-split before at after))
        refl

  Call-IsTracked :
      {s s' : Session D} {h h' : List Record} {at at' : Stage}
      → Call add s h at s' h' at'
      → IsTracked capacity (writers (service before after s h at))
      → IsTracked capacity (writers (service before after s' h' at'))
  Call-IsTracked {s} {s'} {h} {at} {at'} enter v = untouched s s' h at at' v refl refl
  Call-IsTracked {s} {s'} {h} {at} {at'} (allow now lt e) v = untouched s s' h at at' v refl refl
  Call-IsTracked {s} {s'} {h} {at} {at'} (refuse now lt e) v = untouched s s' h at at' v refl refl
  Call-IsTracked {s} {s'} {h} {at} {at'} count_refused v = untouched s s' h at at' v refl refl
  Call-IsTracked {s} {s'} {h} {at} {at'} (write {i} r {cache} known other e) v =
      retrack capacity _ (writers (service before after s' (h ++ record_of (command i r) ∷ []) at'))
        (apply-IsTracked capacity (writers (service before after s h at)) (map pends before)
          (map pends after) (record_of (command i r)) r.now cache v (pends-split before at after)
          (command-IsWrite i r known other) e)
        refl (pends-split before at' after) refl
  Call-IsTracked {s} {s'} {h} {at} {at'} (look {i} r is_get) v =
      retrack capacity _ (writers (service before after s' h at'))
        (Step-IsTracked capacity (Writes.Step.look (command i r).key r.now r.later) v) refl
        (pends-split before at' after ∙ sym (pends-split before at after)) refl
  Call-IsTracked {s} {s'} {h} {at} {at'} (log {i} {r} can_open {wal} e) v =
      retrack capacity _ (writers (service before after s' h at'))
        (log-IsTracked capacity (writers (service before after s h at)) (map pends before)
          (map pends after) r can_open wal v (pends-split before at after) e)
        refl (pends-split before at' after) refl
  Call-IsTracked {s} {s'} {h} {at} {at'} (log_fails can_open e) v =
      absurd (append_open s.server.wal _ _ _ can_open _ v.opened e)
  Call-IsTracked {s} {s'} {h} {at} {at'} (measure ms) v = untouched s s' h at at' v refl refl
  Call-IsTracked {s} {s'} {h} {at} {at'} report_success v = untouched s s' h at at' v refl refl
  Call-IsTracked {s} {s'} {h} {at} {at'} (report_failure now) v =
      untouched s s' h at at' v refl refl
  Call-IsTracked {s} {s'} {h} {at} {at'} count_success v = untouched s s' h at at' v refl refl
  Call-IsTracked {s} {s'} {h} {at} {at'} count_failure v = untouched s s' h at at' v refl refl
  Call-IsTracked {s} {s'} {h} {at} {at'} (leave all) v = untouched s s' h at at' v refl refl

-- What the cache holds, after a call, is still what the writes so far stand for.
pub Call-IsCurrent :
    {D : Type 0} (add : D → D → D) (capacity : ℕ) {s s' : Session D} {h h' : List Record}
    {at at' : Stage}
    → Call add s h at s' h' at'
    → IsValid s.server.cache
    → s.server.cache.capacity ≡ capacity
    → values s.server.cache ≡ apply_all capacity [] h
    → values s'.server.cache ≡ apply_all capacity [] h'
Call-IsCurrent add capacity enter valid size seen = seen
Call-IsCurrent add capacity (allow now lt e) valid size seen = seen
Call-IsCurrent add capacity (refuse now lt e) valid size seen = seen
Call-IsCurrent add capacity count_refused valid size seen = seen
Call-IsCurrent add capacity {s} {h = h} (write {i} r {cache} known other e) valid size seen =
    apply-IsCurrent capacity s.server.cache cache h (record_of (command i r)) r.now valid size seen
      e
Call-IsCurrent add capacity {s} (look {i} r is_get) valid size seen =
    get-values s.server.cache (command i r).key r.now r.later valid ∙ seen
Call-IsCurrent add capacity (log can_open e) valid size seen = seen
Call-IsCurrent add capacity (log_fails can_open e) valid size seen = seen
Call-IsCurrent add capacity (measure ms) valid size seen = seen
Call-IsCurrent add capacity report_success valid size seen = seen
Call-IsCurrent add capacity (report_failure now) valid size seen = seen
Call-IsCurrent add capacity count_success valid size seen = seen
Call-IsCurrent add capacity count_failure valid size seen = seen
Call-IsCurrent add capacity (leave all) valid size seen = seen

-- A client is in at most once, and has ten requests at most.
bounded :
    (at : Stage)
    → IsSmooth at
    → (connected at ≤ 1) × (served at ≤ client_requests) × (measured at ≤ client_requests)
bounded starting h = (omega arith, omega arith, omega arith)
bounded gone h = (omega arith, omega arith, omega arith)
bounded (asking i) h = (omega arith, h, h)
bounded (admitted i) h = (omega arith, omega (arith, h), omega (arith, h))
bounded (refused i) h = absurd h
bounded (logging i r) h = (omega arith, omega (arith, h), omega (arith, h))
bounded (answered i success) h = (omega arith, omega (arith, h.1), omega (arith, h.1))
bounded (timed i success) h = (omega arith, omega (arith, h.1), omega (arith, h.1))
bounded (told i success) h = (omega arith, omega (arith, h.1), omega (arith, h.1))

pub total-bounded :
    (P : Stage → Type 0) (f : Stage → ℕ) (most : ℕ)
    → ((at : Stage) → P at → f at ≤ most)
    → (ats : List Stage) → All P ats
    → total f ats ≤ most * length ats
total-bounded P f most bound [] h = omega arith
total-bounded P f most bound (at ∷ ats) h =
    omega (arith, bound at h.0, total-bounded P f most bound ats h.1)

pub length-split :
    (before : List Stage) (at at' : Stage) (after : List Stage)
    → length (before ++ at' ∷ after) ≡ length (before ++ at ∷ after)
length-split [] at at' after = refl
length-split (b ∷ before) at at' after = ap suc (length-split before at at' after)

-- One client moves on, and a count over all the clients with it.
pub retotal :
    (f : Stage → ℕ) (before after : List Stage) (at at' : Stage) (n n' : ℕ)
    → n ≡ total f (before ++ at ∷ after)
    → n' + f at ≡ n + f at'
    → n' ≡ total f (before ++ at' ∷ after)
retotal f before after at at' n n' e moved =
    omega (arith, e, moved, total-split f before at after, total-split f before at' after)

module _ {D : Type 0} (add : D → D → D) (capacity : ℕ) where
  pub Step-IsServing :
      {s t : Service D} → Step add s t → IsServing capacity s → IsServing capacity t
  Step-IsServing {s} (call before after {at} {at'} {session} {history} place moved) v =
      let smooth_all : All IsSmooth (before ++ at ∷ after) = rw (← place) v.smooth in
      let few : length (before ++ at ∷ after) ≡ 3 = rw (← place) v.few in
      let connections : s.session.connection_count ≡ total connected (before ++ at ∷ after) =
        v.connections ∙ ap (total connected) place in
      let successes : counter succeeded s.session.metrics ≡ total served (before ++ at ∷ after) =
        v.successes ∙ ap (total served) place in
      let requests : s.session.metrics.request_count ≡ total measured (before ++ at ∷ after) =
        v.requests ∙ ap (total measured) place in
      let (smooth, put) = All-split IsSmooth before at after smooth_all in
      let in_count = total-bounded IsSmooth connected 1 (λ a h. (bounded a h).0) _ smooth_all in
      let served_count =
        total-bounded IsSmooth served client_requests (λ a h. (bounded a h).1) _ smooth_all in
      let measured_count =
        total-bounded IsSmooth measured client_requests (λ a h. (bounded a h).2) _ smooth_all in
      let (counted, smooth') =
        Call-Counted add moved smooth v.shut v.tracked.opened
          (omega (arith, connections, total-split connected before at after))
          (omega (arith, connections, in_count, few)) (omega (arith, successes, served_count, few))
          (omega (arith, requests, measured_count, few)) in
      record {
        tracked =
            Call-IsTracked add capacity before after moved
              (retrack capacity (writers s) _ v.tracked refl (sym (ap (map pends) place)) refl);
        shut = counted.shut;
        connections = retotal connected before after at at' _ _ connections counted.connections;
        successes = retotal served before after at at' _ _ successes counted.successes;
        requests = retotal measured before after at at' _ _ requests counted.requests;
        failures = counted.failures ∙ v.failures;
        refusals = counted.refusals ∙ v.refusals;
        smooth = put at' smooth';
        few = length-split before at at' after ∙ few;
      }

  -- While three clients make their calls, in any order: if the cache, the log, the breaker, the
  -- metrics and the number of connections were serving the clients before, they are after.
  pub Reach-IsServing :
      {start s : Service D} → IsServing capacity start → Reach add start s → IsServing capacity s
  Reach-IsServing v begin = v
  Reach-IsServing v (later r step) = Step-IsServing step (Reach-IsServing v r)

  pub Reach-IsCurrent :
      {start s : Service D}
      → IsServing capacity start
      → values start.session.server.cache ≡ apply_all capacity [] start.history
      → Reach add start s
      → values s.session.server.cache ≡ apply_all capacity [] s.history
  Reach-IsCurrent v seen begin = seen
  Reach-IsCurrent v seen (later r (call before after place moved)) =
      let w = Reach-IsServing v r in
      Call-IsCurrent add capacity moved w.tracked.valid w.tracked.size (Reach-IsCurrent v seen r)
