-- ===== src/Breaker.antt =====
-- src/patterns/CircuitBreaker.h and CircuitBreaker.cpp. The clock is an argument of the calls that
-- read it; the atomic counters are `int`s, kept as their bit patterns, and wrap. What the
-- transitions print is left out.
pub mod States
pub mod History
pub mod Races
use dist_cache.Prelude.{
  ℕ, ◌+◌, ◌-◌, ◌*◌, ◌/◌, ◌%◌, ◌^◌, ◌≡◌, Bool, true, false, List, [], ◌∷◌, leb, if◌then◌else◌,
}
use dist_cache.Prelude.Int.{ℤ, pos, negsuc, leb_ℤ}
use dist_cache.Text.{Text, codes}

pub data State : Type 0 where
  closed open_ half_open : State

-- `success_count_` is written and never read.
pub record Breaker : Type 0 where
  pub state : State
  pub failure_count : ℕ
  pub success_count : ℕ
  pub failure_threshold : ℤ
  pub timeout_ms : ℤ
  pub last_failure_time : ℕ

abbrev pub int_mod : ℕ
int_mod = 2 ^ 32

-- The `int` that a bit pattern stands for.
abbrev pub to_int : ℕ → ℤ
to_int w = if leb (2 ^ 31) w then negsuc (int_mod - w - 1) else pos w

-- `count++` on a `std::atomic<int>`.
abbrev pub increment : ℕ → ℕ
increment w = (w + 1) % int_mod

unfoldable pub init : ℤ → ℤ → Breaker
init failure_threshold timeout_ms = record {
  state = closed;
  failure_count = 0;
  success_count = 0;
  failure_threshold = failure_threshold;
  timeout_ms = timeout_ms;
  last_failure_time = 0;
}

abbrev pub ns_per_ms : ℕ
ns_per_ms = 1_000_000

-- `duration_cast<milliseconds>(now - last).count()`: the difference, cut towards zero.
unfoldable pub elapsed_ms : ℕ → ℕ → ℤ
elapsed_ms now last =
    if leb last now
    then pos ((now - last) / ns_per_ms)
    else (let n = (last - now) / ns_per_ms in if leb n 0 then pos 0 else negsuc (n - 1))

unfoldable pub is_timeout_expired : Breaker → ℕ → Bool
unfolding elapsed_ms
is_timeout_expired b now = leb_ℤ b.timeout_ms (elapsed_ms now b.last_failure_time)

abbrev transition_to_open : Breaker → Breaker
transition_to_open b = record b { state = open_ }

abbrev transition_to_half_open : Breaker → Breaker
transition_to_half_open b = record b { state = half_open }

abbrev transition_to_closed : Breaker → Breaker
transition_to_closed b = record b { state = closed; failure_count = 0 }

allow_in : State → Breaker → ℕ → Breaker × Bool
allow_in closed b now = (b, true)
allow_in open_ b now =
    if is_timeout_expired b now then (transition_to_half_open b, true) else (b, false)
allow_in half_open b now = (b, true)

unfoldable pub allow_request : Breaker → ℕ → Breaker × Bool
unfolding allow_in
allow_request b now = allow_in b.state b now

success_in : State → Breaker → Breaker
success_in half_open b = transition_to_closed b
success_in _ b = b

unfoldable pub record_success : Breaker → Breaker
unfolding success_in
record_success b = success_in b.state (record b { success_count = increment b.success_count })

failure_in : State → Breaker → Breaker
failure_in closed b =
    if leb_ℤ b.failure_threshold (to_int b.failure_count) then transition_to_open b else b
failure_in half_open b = transition_to_open b
failure_in open_ b = b

unfoldable pub record_failure : Breaker → ℕ → Breaker
unfolding failure_in
record_failure b now =
    failure_in b.state
      (record b { failure_count = increment b.failure_count; last_failure_time = now })

unfoldable pub get_state_string : Breaker → Text
get_state_string b = elim b.state [
  | closed ↦ codes "CLOSED"
  | open_ ↦ codes "OPEN"
  | half_open ↦ codes "HALF_OPEN"
]

abbrev pub get_state : Breaker → State
get_state b = b.state

abbrev pub get_failure_count : Breaker → ℤ
get_failure_count b = to_int b.failure_count
