-- ===== src/Examples/Executions.antt =====
-- A token that is minted, and an executor that is asked twice.
use ai_revenue_recovery.Prelude.{
  ℕ, ◌≤◌, String, Bool, true, false, Option, none, some, List, [], ◌∷◌, ◌≡◌, refl, ◌↔◌, arith,
}
use ai_revenue_recovery.Prelude.Int.{pos, negsuc}
use ai_revenue_recovery.Prelude.Exec.{Result, ok, err, IsOk}
use ai_revenue_recovery.Prelude.Dict.{lookup}
use ai_revenue_recovery.Foundation.Errors.{
  Error, closed, half_open, sandbox_violation, validation_error,
}
use ai_revenue_recovery.Foundation.Events.{send_notification, email, success}
use ai_revenue_recovery.Foundation.Value.{null, text, dict_of}
use ai_revenue_recovery.Safety.Breaker.{CircuitBreaker}
use ai_revenue_recovery.Safety.Breaker.Probes.{IsSaturated}
use ai_revenue_recovery.Safety.KillSwitch
use ai_revenue_recovery.Safety.Capacity.{CapacityGovernor}
use ai_revenue_recovery.Safety.Registry.{Registry}
use ai_revenue_recovery.Safety.Authorizer.{
  ActionAuthorization, Grant, issued, mint_authorization, verify_authorization,
}
use ai_revenue_recovery.Safety.Authorizer.Verification.{IsGenuine, verify_authorization_iff}
use ai_revenue_recovery.Safety.Authorizer.Minting.{verify_authorization-mint_authorization}
use ai_revenue_recovery.Execution.Idempotency.{ExecutionRequest, ExecutionResult, get}
use ai_revenue_recovery.Execution.Executor.{
  Answer, answered, raised, ActionExecutor, result_of, check_authorization, execute_action,
}
use ai_revenue_recovery.Execution.Executor.Scope.{IsScoped, check_authorization_iff}
use ai_revenue_recovery.Execution.Executor.Gates.{
  Turn, execute_action-Turn, execute_action-dispatches,
}
use ai_revenue_recovery.Execution.Executor.Answers.{IsRecordable}
use ai_revenue_recovery.Execution.Executor.Once.{
  Event, execute, change, steps, HasDistinctKeys, steps-HasDistinctKeys,
}
use ai_revenue_recovery.Execution.Executor.Replay.{execute_action-replays}
use ai_revenue_recovery.Execution.Executor.Probe.{execute_action-leaks}
use ai_revenue_recovery.Examples.Logs.{runtime, ones}

abbrev grant : Grant
grant = record {
  authorization_id = "a1";
  case_id = "c1";
  action_type = send_notification;
  customer_id = "cus_1";
  max_amount_in_cents = 500;
  currency = "INR";
  channel = email;
  policy_version = "v1";
  decision_id = "d1";
  expires_at = 100;
  idempotency_key = "k1";
}

abbrev pub token : ActionAuthorization
token = record { grant = grant; signature = ones; status = issued }

abbrev pub request : ExecutionRequest
request = record {
  case_id = "c1";
  customer_id = "cus_1";
  action_type = send_notification;
  channel = email;
  amount_in_cents = pos 300;
  currency = "inr";
  destination_url = "http://localhost/mail";
  idempotency_key = "k1";
  action_payload = null;
}

abbrev pub healthy : CircuitBreaker
healthy = record {
  target = "EMAIL";
  failure_threshold = 3;
  recovery_timeout = 60;
  half_open_success_threshold = 1;
  half_open_max_probes = 1;
  state = closed;
  consecutive_failures = 0;
  half_open_successes = 0;
  active_half_open_probes = 0;
  tripped_at = none;
}

abbrev pub probing : CircuitBreaker
probing = record healthy { state = half_open; tripped_at = some 1 }

abbrev pub executor : CircuitBreaker → ActionExecutor
executor b = record {
  kill_switch = KillSwitch.new;
  circuit_breakers = record {
    default_failure_threshold = 3;
    default_recovery_timeout = 60;
    default_half_open_max_probes = 1;
    breakers = ("EMAIL", b) ∷ [];
  };
  capacity_governor = record { max_actions = 5; max_volume = 1000; window = 60; history = [] };
  idempotency_store = [];
  audit_log = [];
  dispatched = [];
}

abbrev pub allow_all : String → Result Error Bool
allow_all url = ok true

abbrev refuse_all : String → Result Error Bool
refuse_all url = err sandbox_violation

abbrev mailer : List ExecutionRequest → ExecutionRequest → Answer
mailer calls r = answered (dict_of (("status", text "SUCCESS") ∷ []))

verify_authorization_iff_example :
    (verify_authorization runtime "secret" token (some "cus_1") none (some (negsuc 4)) none 50
      ≡ ok true)
    ↔ IsGenuine runtime "secret" token (some "cus_1") none (some (negsuc 4)) none 50
verify_authorization_iff_example =
    verify_authorization_iff runtime "secret" token (some "cus_1") none (some (negsuc 4)) none 50

verify_authorization-mint_authorization_example :
    verify_authorization runtime "secret" token
      (some "cus_1")
      (some "inr")
      (some (pos 300))
      (some email)
      99
    ≡ ok true
unfolding mint_authorization ai_revenue_recovery.Prelude.is_code ai_revenue_recovery.Prelude.upper
    ai_revenue_recovery.Safety.Authorizer.compute_signature
    ai_revenue_recovery.Safety.Authorizer.canonical_signing_string
    ai_revenue_recovery.Prelude.decimal
verify_authorization-mint_authorization_example =
    verify_authorization-mint_authorization runtime "secret" grant 10 99 "inr" 300 {token = token}
      refl (omega arith) refl (omega arith) (omega arith)

check_authorization_iff_example :
    IsOk (check_authorization runtime "secret" request token 50)
    ↔ IsScoped runtime "secret" request token 50
check_authorization_iff_example = check_authorization_iff runtime "secret" request token 50

execute_action-Turn_example :
    Turn runtime "secret" allow_all mailer request token 50 (executor healthy)
execute_action-Turn_example =
    execute_action-Turn runtime "secret" allow_all mailer request token 50 (executor healthy)

execute_action-dispatches_example :
    let (r, s') =
      execute_action runtime "secret" allow_all mailer request token 50 (executor healthy) in
    (s'.dispatched ≡ request ∷ [])
    × (IsRecordable (mailer [] request)
        → (result : ExecutionResult) × (r ≡ ok result)
          × (get "k1" s'.idempotency_store ≡ some result))
    × (¬ IsRecordable (mailer [] request)
        → (r ≡ err validation_error) × (s'.idempotency_store ≡ []))
unfolding check_authorization verify_authorization
    ai_revenue_recovery.Safety.Authorizer.compute_signature
    ai_revenue_recovery.Safety.Authorizer.canonical_signing_string
    ai_revenue_recovery.Prelude.decimal ai_revenue_recovery.Prelude.upper
    ai_revenue_recovery.Execution.Idempotency.get lookup KillSwitch.check_execution_allowed
    ai_revenue_recovery.Safety.Registry.check_execution_allowed
    ai_revenue_recovery.Safety.Breaker.check_execution_allowed
    ai_revenue_recovery.Safety.Capacity.record_action
    ai_revenue_recovery.Safety.Capacity.purge_expired
execute_action-dispatches_example =
    execute_action-dispatches runtime "secret" allow_all mailer request token 50 (executor healthy)
      tt refl (record { switched = tt; healthy = tt; egress = tt; capacity = tt })

abbrev events : List Event
events =
    execute request token 50
    ∷ change KillSwitch.new (executor probing).circuit_breakers (executor probing).capacity_governor
    ∷ execute request token 60
    ∷ execute (record request { amount_in_cents = pos 200 }) token 70
    ∷ []

steps-HasDistinctKeys_example :
    HasDistinctKeys mailer
      (steps runtime "secret" allow_all mailer events (executor healthy)).dispatched
steps-HasDistinctKeys_example =
    steps-HasDistinctKeys runtime "secret" allow_all mailer events (executor healthy) refl

-- A failure whose error is no text is lost, and the same key is dispatched twice.
abbrev confused : List ExecutionRequest → ExecutionRequest → Answer
confused calls r =
    answered
      (dict_of (("status", text "FAILED") ∷ ("error", dict_of (("code", text "402") ∷ [])) ∷ []))

twice_runs :
    (steps runtime "secret" allow_all confused
      (execute request token 50 ∷ execute request token 60 ∷ [])
      (executor healthy)).dispatched
    ≡ request ∷ request ∷ []
unfolding ai_revenue_recovery.Execution.Executor.Once.step execute_action verify_authorization
    ai_revenue_recovery.Safety.Authorizer.compute_signature
    ai_revenue_recovery.Safety.Authorizer.canonical_signing_string
    ai_revenue_recovery.Prelude.decimal ai_revenue_recovery.Prelude.upper get lookup
    KillSwitch.check_execution_allowed ai_revenue_recovery.Safety.Registry.check_execution_allowed
    ai_revenue_recovery.Safety.Breaker.check_execution_allowed
    ai_revenue_recovery.Safety.Capacity.record_action
    ai_revenue_recovery.Safety.Capacity.purge_expired ai_revenue_recovery.Foundation.Value.get
    ai_revenue_recovery.Safety.Registry.record_failure ai_revenue_recovery.Prelude.Dict.insert
    ai_revenue_recovery.Execution.Executor.dispatch ai_revenue_recovery.Execution.Executor.outcome
    ai_revenue_recovery.Execution.Executor.readable ai_revenue_recovery.Execution.Executor.is_truthy
    ai_revenue_recovery.Safety.Breaker.record_failure
    ai_revenue_recovery.Safety.Registry.get_or_create
    ai_revenue_recovery.Execution.Executor.pass_gates ai_revenue_recovery.Safety.Capacity.purge
twice_runs = refl

abbrev mailed : ExecutionResult
mailed = result_of request 50 (success, none, dict_of (("status", text "SUCCESS") ∷ []))

execute_action-replays_example :
    let s' =
      steps runtime "secret" allow_all mailer
        (execute request token 70 ∷ [])
        (execute_action runtime "secret" allow_all mailer request token 50 (executor healthy)).1 in
    execute_action runtime "secret" allow_all mailer request token 80 s' ≡ (ok mailed, s')
unfolding execute_action verify_authorization
    ai_revenue_recovery.Safety.Authorizer.compute_signature
    ai_revenue_recovery.Safety.Authorizer.canonical_signing_string
    ai_revenue_recovery.Prelude.decimal ai_revenue_recovery.Prelude.upper
    ai_revenue_recovery.Execution.Idempotency.get lookup KillSwitch.check_execution_allowed
    ai_revenue_recovery.Safety.Registry.check_execution_allowed
    ai_revenue_recovery.Safety.Breaker.check_execution_allowed
    ai_revenue_recovery.Safety.Capacity.record_action
    ai_revenue_recovery.Safety.Capacity.purge_expired ai_revenue_recovery.Execution.Executor.outcome
    ai_revenue_recovery.Foundation.Value.get
execute_action-replays_example =
    execute_action-replays runtime "secret" allow_all mailer request token token 50 80
      (executor healthy) mailed (execute request token 70 ∷ []) refl tt

execute_action-leaks_example :
    let (r, s') =
      execute_action runtime "secret" refuse_all mailer request token 50 (executor probing) in
    (r ≡ err sandbox_violation)
    × (c : CircuitBreaker) × (lookup "EMAIL" s'.circuit_breakers.breakers ≡ some c)
    × IsSaturated c
unfolding execute_action verify_authorization
    ai_revenue_recovery.Safety.Authorizer.compute_signature
    ai_revenue_recovery.Safety.Authorizer.canonical_signing_string
    ai_revenue_recovery.Prelude.decimal ai_revenue_recovery.Prelude.upper
    ai_revenue_recovery.Execution.Idempotency.get lookup KillSwitch.check_execution_allowed
execute_action-leaks_example =
    execute_action-leaks runtime "secret" refuse_all mailer request token 50 (executor probing)
      probing sandbox_violation tt refl tt refl (record { state = refl; last = refl }) refl
