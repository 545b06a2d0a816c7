-- ===== src/Foundation/Errors.antt =====
-- The exceptions that the components raise. A message is left out; where a class raises for several
-- reasons that a caller can tell apart only by the message, the reason is an argument.
use ai_revenue_recovery.Prelude.{ℕ, String, Option}

pub data CircuitBreakerState : Type 0 where
  closed open_circuit half_open : CircuitBreakerState

pub data KillSwitchScope : Type 0 where
  global action_type action_channel customer case_scope : KillSwitchScope

-- The checks of `verify_authorization` and of gate 1b of the executor.
pub data AuthCheck : Type 0 where
  status signature expiration customer_id currency amount_bound amount_positive : AuthCheck
  channel case_id action_kind idempotency_key : AuthCheck

pub data Error : Type 0 where
  value_error key_error type_error validation_error : Error
  case_not_found invalid_state_transition max_attempts_exceeded case_error : Error
  authorization_verification : AuthCheck → Error
  kill_switch_active : KillSwitchScope → String → String → ℕ → Error
  circuit_broken : String → CircuitBreakerState → Option ℕ → Error
  capacity_exceeded : ℕ → ℕ → ℕ → ℕ → Error
  idempotency_conflict sandbox_violation : Error
  audit_sequence audit_link audit_hash : ℕ → Error
