-- ===== src/Safety/Breaker/Invariant.antt =====
-- What holds of a breaker between two calls, whatever is called.
use ai_revenue_recovery.Prelude.{ℕ, ◌≤◌, ◌<◌, String, none, List, [], ◌∷◌, ◌≡◌, ◌≢◌, arith}
use ai_revenue_recovery.Prelude.Exec.{ok}
use ai_revenue_recovery.Foundation.Errors.{closed, open_circuit, half_open}
use ai_revenue_recovery.Safety.Breaker.{
  CircuitBreaker, new, get_state, can_attempt_probe, check_execution_allowed, record_success,
  record_failure, release_probe, trip_manually, reset, evaluate_state_transition,
}

pub record IsValid (b : CircuitBreaker) : Type 0 where
  pub failures_positive : 0 < b.failure_threshold
  pub timeout_positive : 0 < b.recovery_timeout
  pub successes_positive : 0 < b.half_open_success_threshold
  pub probes_positive : 0 < b.half_open_max_probes
  pub closed_failures : b.state ≡ closed → b.consecutive_failures < b.failure_threshold
  pub closed_untripped : b.state ≡ closed → b.tripped_at ≡ none
  pub closed_probes : b.state ≡ closed → b.active_half_open_probes ≡ 0
  pub open_tripped : b.state ≡ open_circuit → b.tripped_at ≢ none
  pub open_probes : b.state ≡ open_circuit → b.active_half_open_probes ≡ 0
  pub half_open_tripped : b.state ≡ half_open → b.tripped_at ≢ none
  pub half_open_probes : b.state ≡ half_open → b.active_half_open_probes ≤ b.half_open_max_probes
  pub half_open_successes :
      b.state ≡ half_open → b.half_open_successes < b.half_open_success_threshold

-- The calls that a client can make; each carries its time.
pub data Call : Type 0 where
  get_state_call can_attempt_probe_call check_call : ℕ → Call
  success_call failure_call trip_call : ℕ → Call
  release_call reset_call : Call

-- The breaker after a call, also after one that raised.
unfoldable pub step : Call → CircuitBreaker → CircuitBreaker
unfolding get_state can_attempt_probe check_execution_allowed record_success record_failure
    release_probe trip_manually reset
step (get_state_call now) b = (get_state now b).1
step (can_attempt_probe_call now) b = (can_attempt_probe now b).1
step (check_call now) b = (check_execution_allowed now b).1
step (success_call now) b = record_success now b
step (failure_call now) b = record_failure now b
step (trip_call now) b = trip_manually now b
step release_call b = release_probe b
step reset_call b = reset b

abbrev pub steps : List Call → CircuitBreaker → CircuitBreaker
steps [] b = b
steps (c ∷ cs) b = steps cs (step c b)

pub evaluate_state_transition-IsValid :
    (now : ℕ) (b : CircuitBreaker) → IsValid b → IsValid (evaluate_state_transition now b)
unfolding evaluate_state_transition
evaluate_state_transition-IsValid now b h = ground arith

pub step-IsValid : (c : Call) (b : CircuitBreaker) → IsValid b → IsValid (step c b)
unfolding step
step-IsValid (get_state_call now) b h = ground arith
step-IsValid (can_attempt_probe_call now) b h = ground arith
step-IsValid (check_call now) b h = ground arith
step-IsValid (success_call now) b h = ground arith
step-IsValid (failure_call now) b h = ground arith
step-IsValid (trip_call now) b h = ground arith
step-IsValid release_call b h = ground arith
step-IsValid reset_call b h = ground arith

pub steps-IsValid : (cs : List Call) (b : CircuitBreaker) → IsValid b → IsValid (steps cs b)
steps-IsValid [] b h = h
steps-IsValid (c ∷ cs) b h = steps-IsValid cs (step c b) (step-IsValid c b h)

pub new-IsValid :
    (target : String) (failures timeout successes probes : ℕ) (b : CircuitBreaker)
    → new target failures timeout successes probes ≡ ok b
    → IsValid b
unfolding new
new-IsValid target failures timeout successes probes b h = ground arith

-- A breaker that `__init__` returned is valid after any calls at any times, clocks that go back
-- included: its limits are positive; closed, it has fewer failures in a row than the threshold and
-- no trip time; open or half open, it has one; and no more probes are out than the maximum.
pub reachable-IsValid :
    (target : String) (failures timeout successes probes : ℕ) (b : CircuitBreaker) (cs : List Call)
    → new target failures timeout successes probes ≡ ok b
    → IsValid (steps cs b)
reachable-IsValid target failures timeout successes probes b cs h =
    steps-IsValid cs b (new-IsValid target failures timeout successes probes b h)
