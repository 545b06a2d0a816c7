-- ===== src/Safety/Breaker.antt =====
-- `CircuitBreaker` of src/revenue_recovery/safety/circuit_breaker.py. The lock makes each method one
-- step; `now` is `current_time`, or the clock's reading where that is not given; times and the
-- timeout are microseconds.
pub mod Invariant
pub mod Probes
pub mod Recovery
use ai_revenue_recovery.Prelude.{
  ℕ, ◌+◌, ◌-◌, String, Bool, true, false, Option, none, some, ltb, leb, eqb, ◌||◌, if◌then◌else◌,
}
use ai_revenue_recovery.Prelude.Exec.{Result, ok, err, Exec, pure, raise, gets, modify, ◌>>=◌, ◌>>◌}
use ai_revenue_recovery.Foundation.Errors.{
  Error, value_error, circuit_broken, CircuitBreakerState, closed, open_circuit, half_open,
}

pub record CircuitBreaker : Type 0 where
  pub target : String
  pub failure_threshold : ℕ
  pub recovery_timeout : ℕ
  pub half_open_success_threshold : ℕ
  pub half_open_max_probes : ℕ
  pub state : CircuitBreakerState
  pub consecutive_failures : ℕ
  pub half_open_successes : ℕ
  pub active_half_open_probes : ℕ
  pub tripped_at : Option ℕ

-- `__init__`; a number that is not positive is refused.
unfoldable pub new : String → ℕ → ℕ → ℕ → ℕ → Result Error CircuitBreaker
new target failure_threshold recovery_timeout success_threshold max_probes =
    if eqb failure_threshold 0
      || eqb recovery_timeout 0
      || eqb success_threshold 0
      || eqb max_probes 0
    then err value_error
    else ok (record {
      target = target;
      failure_threshold = failure_threshold;
      recovery_timeout = recovery_timeout;
      half_open_success_threshold = success_threshold;
      half_open_max_probes = max_probes;
      state = closed;
      consecutive_failures = 0;
      half_open_successes = 0;
      active_half_open_probes = 0;
      tripped_at = none;
    })

abbrev enter_half_open : CircuitBreaker → CircuitBreaker
enter_half_open b = record b {
  state = half_open;
  half_open_successes = 0;
  active_half_open_probes = 0;
}

-- `now - tripped_at >= recovery_timeout`; the timeout is positive, so a clock that went back is
-- an elapsed time below it here too.
abbrev transition : CircuitBreakerState → Option ℕ → ℕ → CircuitBreaker → CircuitBreaker
transition open_circuit (some tripped_at) now b =
    if leb (tripped_at + b.recovery_timeout) now then enter_half_open b else b
transition _ _ now b = b

-- `_evaluate_state_transition`
unfoldable pub evaluate_state_transition : ℕ → CircuitBreaker → CircuitBreaker
evaluate_state_transition now b = transition b.state b.tripped_at now b

-- `get_state`, and the property `state`
unfoldable pub get_state : ℕ → Exec Error CircuitBreaker CircuitBreakerState
unfolding evaluate_state_transition
get_state now = do modify (evaluate_state_transition now); gets (λ b. b.state)

abbrev has_room : CircuitBreakerState → CircuitBreaker → Bool
has_room open_circuit b = false
has_room half_open b = ltb b.active_half_open_probes b.half_open_max_probes
has_room closed b = true

unfoldable pub can_attempt_probe : ℕ → Exec Error CircuitBreaker Bool
unfolding evaluate_state_transition
can_attempt_probe now = do modify (evaluate_state_transition now); gets (λ b. has_room b.state b)

abbrev broken : CircuitBreaker → Error
broken b = circuit_broken b.target b.state b.tripped_at

abbrev admit : CircuitBreakerState → Exec Error CircuitBreaker Bool
admit open_circuit b = (err (broken b), b)
admit half_open b =
    if leb b.half_open_max_probes b.active_half_open_probes
    then (err (broken b), b)
    else (ok true, record b { active_half_open_probes = b.active_half_open_probes + 1 })
admit closed b = (ok true, b)

-- `check_execution_allowed`, and its alias `acquire_execution_permission`
unfoldable pub check_execution_allowed : ℕ → Exec Error CircuitBreaker Bool
unfolding evaluate_state_transition
check_execution_allowed now b = let b' = evaluate_state_transition now b in admit b'.state b'

abbrev reset_to_closed : CircuitBreaker → CircuitBreaker
reset_to_closed b = record b {
  state = closed;
  consecutive_failures = 0;
  half_open_successes = 0;
  active_half_open_probes = 0;
  tripped_at = none;
}

-- `-` on ℕ stops at 0, which is the guard `if active > 0`.
abbrev count_success : CircuitBreakerState → CircuitBreaker → CircuitBreaker
count_success half_open b =
    let c = record b {
      active_half_open_probes = b.active_half_open_probes - 1;
      half_open_successes = b.half_open_successes + 1;
    } in
    if leb c.half_open_success_threshold c.half_open_successes then reset_to_closed c else c
count_success closed b = record b { consecutive_failures = 0 }
count_success open_circuit b = b

unfoldable pub record_success : ℕ → CircuitBreaker → CircuitBreaker
unfolding evaluate_state_transition
record_success now b = let b' = evaluate_state_transition now b in count_success b'.state b'

abbrev count_failure : CircuitBreakerState → ℕ → CircuitBreaker → CircuitBreaker
count_failure half_open now b = record b {
  state = open_circuit;
  tripped_at = some now;
  half_open_successes = 0;
  active_half_open_probes = 0;
}
count_failure closed now b =
    let c = record b { consecutive_failures = b.consecutive_failures + 1 } in
    if leb c.failure_threshold c.consecutive_failures
    then record c { state = open_circuit; tripped_at = some now; active_half_open_probes = 0 }
    else c
count_failure open_circuit now b = b

unfoldable pub record_failure : ℕ → CircuitBreaker → CircuitBreaker
unfolding evaluate_state_transition
record_failure now b = let b' = evaluate_state_transition now b in count_failure b'.state now b'

abbrev release : CircuitBreakerState → CircuitBreaker → CircuitBreaker
release half_open b = record b { active_half_open_probes = b.active_half_open_probes - 1 }
release _ b = b

unfoldable pub release_probe : CircuitBreaker → CircuitBreaker
release_probe b = release b.state b

unfoldable pub trip_manually : ℕ → CircuitBreaker → CircuitBreaker
trip_manually now b = record b {
  state = open_circuit;
  tripped_at = some now;
  active_half_open_probes = 0;
  half_open_successes = 0;
}

unfoldable pub reset : CircuitBreaker → CircuitBreaker
reset b = reset_to_closed b
