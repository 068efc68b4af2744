-- ===== src/Breaker/States.antt =====
-- The states of the circuit breaker, step by step.
use dist_cache.Prelude.{
  ℕ, ◌+◌, ◌≡◌, ◌≤◌, refl, Bool, true, false, List, [], ◌∷◌, arith, All, inl, inr, map, ◌*◌, ◌↔◌,
  Bool-cases,
}
use dist_cache.Prelude.Int.{pos}
use dist_cache.Breaker.{
  State, closed, open_, half_open, Breaker, allow_request, record_success, record_failure,
  is_timeout_expired, to_int, increment, ns_per_ms,
}
use dist_cache.Prelude.Int.{leb_ℤ}

pub data Event : Type 0 where
  request : ℕ → Event
  success : Event
  failure : ℕ → Event

-- The state after an event, and whether a request is let through.
unfoldable pub step : Breaker → Event → Breaker
unfolding allow_request record_success record_failure
step b (request now) = (allow_request b now).0
step b success = record_success b
step b (failure now) = record_failure b now

unfoldable pub run : Breaker → List Event → Breaker
run b [] = b
run b (e ∷ es) = run (step b e) es

-- The failures that make the count reach the threshold.
abbrev reaches : Breaker → Bool
reaches b = leb_ℤ b.failure_threshold (to_int (increment b.failure_count))

-- What makes the breaker leave its state, and for which: the transitions that the program means to
-- make, each with its event and its condition.
pub data Cause (b : Breaker) (e : Event) : State → Type 0 where
  trip : (now : ℕ) → e ≡ failure now → b.state ≡ closed → reaches b ≡ true → Cause b e open_
  probe :
      (now : ℕ)
      → e ≡ request now
      → b.state ≡ open_
      → is_timeout_expired b now ≡ true
      → Cause b e half_open
  recover : e ≡ success → b.state ≡ half_open → Cause b e closed
  relapse : (now : ℕ) → e ≡ failure now → b.state ≡ half_open → Cause b e open_

-- The next state is the one that there is a cause for, and the old one only if there is none.
pub data Transition (b : Breaker) (e : Event) : State → Type 0 where
  move : {s : State} → Cause b e s → Transition b e s
  stay : {s : State} → ((t : State) → ¬ Cause b e t) → s ≡ b.state → Transition b e s

-- A closed breaker has no cause to leave but a failure that reaches the threshold.
calm_closed :
    (b : Breaker) (e : Event)
    → b.state ≡ closed
    → ((now : ℕ) → e ≡ failure now → reaches b ≡ false)
    → (t : State) → ¬ Cause b e t
calm_closed b e h calm t (trip now at _ full) = let room = calm now at in absurd (cc)
calm_closed b e h calm t (probe now at o _) = absurd (cc)
calm_closed b e h calm t (recover at o) = absurd (cc)
calm_closed b e h calm t (relapse now at o) = absurd (cc)

-- An open breaker has none but a request after the time-out.
calm_open :
    (b : Breaker) (e : Event)
    → b.state ≡ open_
    → ((now : ℕ) → e ≡ request now → is_timeout_expired b now ≡ false)
    → (t : State) → ¬ Cause b e t
calm_open b e h calm t (trip now at o _) = absurd (cc)
calm_open b e h calm t (probe now at _ over) = let early = calm now at in absurd (cc)
calm_open b e h calm t (recover at o) = absurd (cc)
calm_open b e h calm t (relapse now at o) = absurd (cc)

-- A half open one has none in a request.
calm_half_open :
    (b : Breaker) (now : ℕ) → b.state ≡ half_open → (t : State) → ¬ Cause b (request now) t
calm_half_open b now h t (trip _ at o _) = absurd (cc)
calm_half_open b now h t (probe _ at o _) = absurd (cc)
calm_half_open b now h t (recover at o) = absurd (cc)
calm_half_open b now h t (relapse _ at o) = absurd (cc)

Transition-from :
    (s : State) (b : Breaker) (e : Event) → b.state ≡ s → Transition b e (step b e).state
unfolding step
Transition-from closed b (request now) h =
    stay (calm_closed b (request now) h (λ n e. absurd (cc))) (ground (arith, h))
Transition-from closed b success h =
    stay (calm_closed b success h (λ n e. absurd (cc))) (ground (arith, h))
Transition-from closed b (failure now) h = elim (Bool-cases (reaches b)) [
  | inl full ↦
      let opens : open_ ≡ (step b (failure now)).state = ground (arith, h, full) in
      rw (← opens) (move (trip now refl h full))
  | inr room ↦ stay (calm_closed b (failure now) h (λ n e. room)) (ground (arith, h, room))
]
Transition-from open_ b (request now) h = elim (Bool-cases (is_timeout_expired b now)) [
  | inl over ↦
      let tries : half_open ≡ (step b (request now)).state = ground (arith, h, over) in
      rw (← tries) (move (probe now refl h over))
  | inr early ↦
      stay (calm_open b (request now) h (λ n e. let same : now ≡ n = cc in rw (← same) early))
        (ground (arith, h, early))
]
Transition-from open_ b success h =
    stay (calm_open b success h (λ n e. absurd (cc))) (ground (arith, h))
Transition-from open_ b (failure now) h =
    stay (calm_open b (failure now) h (λ n e. absurd (cc))) (ground (arith, h))
Transition-from half_open b (request now) h = stay (calm_half_open b now h) (ground (arith, h))
Transition-from half_open b success h =
    let closes : closed ≡ (step b success).state = ground (arith, h) in
    rw (← closes) (move (recover refl h))
Transition-from half_open b (failure now) h =
    let opens : open_ ≡ (step b (failure now)).state = ground (arith, h) in
    rw (← opens) (move (relapse now refl h))

-- Every event makes the transition that it is the cause of, and leaves the state only if it is the
-- cause of none. The causes are: for a closed breaker a failure that makes the count reach the
-- threshold, which opens it; for an open one a request after the time-out, which tries again; and for
-- a half open one a success, which closes it, and a failure, which opens it.
pub step-Transition : (b : Breaker) (e : Event) → Transition b e (step b e).state
step-Transition b e = Transition-from b.state b e refl

-- While the breaker is open and the time-out has not run out, a request is refused and changes
-- nothing.
pub allow_request_open :
    (b : Breaker) (now : ℕ)
    → b.state ≡ open_
    → is_timeout_expired b now ≡ false
    → allow_request b now ≡ (b, false)
unfolding allow_request
allow_request_open b now o h = ground (arith, o, h)

-- The times of a list of requests are all within the time-out of the last failure.
abbrev pub AreEarly : Breaker → List ℕ → Type 0
AreEarly b = All (λ now. is_timeout_expired b now ≡ false)

-- The replies to requests in a row.
unfoldable pub ask : Breaker → List ℕ → Breaker × List Bool
ask b [] = (b, [])
ask b (now ∷ times) =
    let (b', reply) = allow_request b now in
    let (end, replies) = ask b' times in (end, reply ∷ replies)

-- However often an open breaker is asked before the time-out, it refuses, and stays as it is.
pub ask_open :
    (b : Breaker) (times : List ℕ)
    → b.state ≡ open_
    → AreEarly b times
    → ask b times ≡ (b, map (λ _. false) times)
unfolding ask
ask_open b [] o h = refl
ask_open b (now ∷ times) o h =
    ground (arith, allow_request_open b now o h.0, ask_open b times o h.1)

-- The first request when the time-out has run out is let through, and half opens the breaker.
pub allow_request_probe :
    (b : Breaker) (now : ℕ)
    → b.state ≡ open_
    → is_timeout_expired b now ≡ true
    → ((allow_request b now).1 ≡ true) × ((allow_request b now).0.state ≡ half_open)
unfolding allow_request
allow_request_probe b now o h = ground (arith, o, h)

-- With a time-out of `n` milliseconds, and a clock that does not go back, the time-out has run out
-- exactly when that many milliseconds have passed since the last failure.
pub is_timeout_expired_iff :
    (b : Breaker) (now n : ℕ)
    → b.timeout_ms ≡ pos n
    → b.last_failure_time ≤ now
    → (is_timeout_expired b now ≡ true) ↔ (b.last_failure_time + n * ns_per_ms ≤ now)
unfolding is_timeout_expired
is_timeout_expired_iff b now n t h = (λ e. ground (arith, t), λ e. ground (arith, t))
