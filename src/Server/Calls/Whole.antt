-- ===== src/Server/Calls/Whole.antt =====
-- The calls of one client with none between them, and `client_round` and
-- `handle_client_simulation` as functions.
use dist_cache.Prelude.{
  ℕ, zero, suc, ◌+◌, ◌≡◌, ◌<◌, refl, Bool, true, false, List, [], some, arith, Option-cases,
  Bool-cases, inl, inr, ◌⊎◌,
}
use dist_cache.Text.{codes}
use dist_cache.Wal.{Record}
use dist_cache.Server.{Server, Outcome, process_command}
use dist_cache.Server.Client.{
  Session, Round, command, settle, client_round, client_rounds, client_requests, connect,
  disconnect, handle_client_simulation,
}
use dist_cache.Server.Sessions.{blocked}
use dist_cache.Metrics.{increment_counter}
use dist_cache.Breaker.{allow_request}
use dist_cache.Server.Calls.{
  Stage, starting, gone, asking, admitted, answered, Service, service, Call, enter, allow, refuse,
  count_refused, write, look, log, log_fails, measure, report_success, report_failure,
  count_success, count_failure, leave, Reach, begin, later, call,
}
use dist_cache.Server.Calls.Answers.{Written, kept, lost, set-Written, del-Written, get_looks}

-- What a client may draw, and the command that it makes up of it.
command-cases :
    {D : Type 0} (i : ℕ) (r : Round D)
    → r.choice < 3
    → ((r.choice ≡ 1) × ((command i r).cmd ≡ codes "GET"))
      ⊎ ((¬ (r.choice ≡ 1))
          × (((command i r).cmd ≡ codes "SET")
              ⊎ (((command i r).cmd ≡ codes "DEL") × ((command i r).value ≡ []))))
unfolding command
command-cases i r h = elim (choices r.choice h) [
  | inl is_set ↦ inr (λ e. omega (arith, is_set, e), inl (rw is_set refl))
  | inr (inl is_get) ↦ inl (is_get, rw is_get refl)
  | inr (inr is_del) ↦ inr (λ e. omega (arith, is_del, e), inr (rw is_del refl, rw is_del refl))
]
  where
    choices : (n : ℕ) → n < 3 → (n ≡ 0) ⊎ ((n ≡ 1) ⊎ (n ≡ 2))
    choices zero h = inl refl
    choices (suc zero) h = inr (inl refl)
    choices (suc (suc zero)) h = inr (inr refl)
    choices (suc (suc (suc n))) h = absurd (omega arith)

module _ {D : Type 0} (add : D → D → D) (before after : List Stage) (start : Service D) where
  -- The client stands at a stage, after calls from the start.
  abbrev At : Session D → List Record → Stage → Type 0
  At s h at = Reach add start (service before after s h at)

  then_call :
      {s s' : Session D} {h h' : List Record} {at at' : Stage}
      → At s h at
      → Call add s h at s' h' at'
      → At s' h' at'
  then_call reached made = later reached (call before after refl made)

  module _ (i : ℕ) (r : Round D) where
    written-At :
        (s : Session D) (h : List Record) (server : Server) (success : Bool)
        → At s h (admitted i)
        → r.choice < 3
        → ¬ (r.choice ≡ 1)
        → Written s.server (command i r) server success
        → (h' : List Record) × At (record s { server = server }) h' (answered i success)
    unfolding command
    written-At s h server success reached known other (cache, ran, kept logged) = (
      _,
      then_call (then_call reached (write r known other ran)) (log (command i r).can_open logged),
    )
    written-At s h server success reached known other (cache, ran, lost threw) = (
      _,
      then_call (then_call reached (write r known other ran))
          (log_fails (command i r).can_open threw),
    )

    answered-At :
        (s : Session D) (h : List Record) (server : Server) (o : Outcome)
        → At s h (admitted i)
        → r.choice < 3
        → process_command s.server (command i r) ≡ some (server, o)
        → (h' : List Record) × At (record s { server = server }) h' (answered i o.success)
    unfolding command
    answered-At s h server o reached known e = elim (command-cases i r known) [
      | inl (one, is_get) ↦
          let (seen, success) = get_looks s.server server (command i r) o is_get e in
          (h, rw (← seen, ← success) (then_call reached (look r one)))
      | inr (other, inl is_set) ↦
          written-At s h server o.success reached known other
            (set-Written s.server server (command i r) o is_set e)
      | inr (other, inr (is_del, empty)) ↦
          written-At s h server o.success reached known other
            (del-Written s.server server (command i r) o is_del empty e)
    ]

    settled-At :
        (s : Session D) (h : List Record) (success : Bool)
        → At s h (answered i success)
        → At (settle add r s s.server success) h (asking (suc i))
    unfolding settle
    settled-At s h true reached =
        then_call (then_call (then_call reached (measure r.latency)) report_success) count_success
    settled-At s h false reached =
        then_call (then_call (then_call reached (measure r.latency)) (report_failure r.failed_at))
          count_failure

    round-At :
        (s s' : Session D) (h : List Record)
        → i < client_requests
        → r.choice < 3
        → At s h (asking i)
        → client_round add i r s ≡ some s'
        → (h' : List Record) × At s' h' (asking (suc i))
    unfolding client_round
    round-At s s' h within known reached e =
        let breaker = (allow_request s.breaker r.asked).0 in
        elim (Bool-cases (allow_request s.breaker r.asked).1) [
          | inl allowed ↦
              let admitted_ = then_call reached (allow r.asked within allowed) in
              elim (Option-cases (process_command s.server (command i r))) [
                | inl stuck ↦ absurd (let e' = rw (allowed, stuck) at e in cc)
                | inr ((server, o), ran) ↦
                    let same : settle add r (record s { breaker = breaker }) server o.success ≡ s' =
                      (let e' = rw (allowed, ran) at e in cc) in
                    let (h', answered_) =
                      answered-At (record s { breaker = breaker }) h server o admitted_ known ran in
                    (
                      h',
                      rw (← same) (
                          settled-At (record s { breaker = breaker; server = server }) h' o.success
                            answered_),
                    )
              ]
          | inr denied ↦
              let same : record s {
                breaker = breaker;
                metrics = increment_counter blocked s.metrics;
              }
                  ≡ s' =
                (let e' = rw denied at e in cc) in
              (
                h,
                rw (← same)
                    (then_call (then_call reached (refuse r.asked within denied)) count_refused),
              )
        ]

  module _ (draws : ℕ → Round D) (known : (j : ℕ) → (draws j).choice < 3) where
    rounds-At :
        (left i : ℕ) (s s' : Session D) (h : List Record)
        → i + left ≡ client_requests
        → At s h (asking i)
        → client_rounds add left i draws s ≡ some s'
        → (h' : List Record) × At s' h' (asking client_requests)
    unfolding client_rounds
    rounds-At zero i s s' h until reached e =
        let same : s ≡ s' = cc in
        let all : i ≡ client_requests = omega (arith, until) in (h, rw (← same, ← all) reached)
    rounds-At (suc left) i s s' h until reached e =
        elim (Option-cases (client_round add i (draws i) s)) [
          | inl stuck ↦ absurd (ground (arith, stuck))
          | inr (s₁, ran) ↦
              let (h', next) =
                round-At i (draws i) s s₁ h (omega (arith, until)) (known i) reached ran in
              rounds-At left (suc i) s₁ s' h' (omega (arith, until)) next (rw ran at e)
        ]

    session-At :
        (s s' : Session D) (h : List Record)
        → At s h starting
        → handle_client_simulation add draws s ≡ some s'
        → (h' : List Record) × At s' h' gone
    unfolding handle_client_simulation
    session-At s s' h reached e =
        elim (Option-cases (client_rounds add client_requests 0 draws (connect s))) [
          | inl stuck ↦ absurd (ground (arith, stuck))
          | inr (t, ran) ↦
              let same : disconnect t ≡ s' = ground (arith, ran) in
              let (h', rounds) =
                rounds-At client_requests 0 (connect s) t h (omega arith) (then_call reached enter)
                  ran in
              (h', rw (← same) (then_call rounds (leave refl)))
        ]

module _ {D : Type 0} (add : D → D → D) where
  -- If `handle_client_simulation` returns a session and the draws are of the three commands, calls
  -- of one client, starting among others that make none, come to that session with the client gone.
  pub handle_client_simulation-Reach :
      (before after : List Stage) (draws : ℕ → Round D) (s s' : Session D) (h : List Record)
      → ((j : ℕ) → (draws j).choice < 3)
      → handle_client_simulation add draws s ≡ some s'
      → (h' : List Record) × Reach add
          (service before after s h starting)
          (service before after s' h' gone)
  handle_client_simulation-Reach before after draws s s' h known e =
      session-At add before after (service before after s h starting) draws known s s' h begin e
