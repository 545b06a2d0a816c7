-- ===== src/Execution/Executor.antt =====
-- `execute_action` of src/revenue_recovery/executor/executor.py. The sandbox guard and the sandbox
-- handler are injected objects and arguments here; a handler may answer by all its calls so far.
pub mod Answers
pub mod Once
pub mod Gates
pub mod Replay
pub mod Scope
pub mod Probe
use ai_revenue_recovery.Prelude.{
  ℕ, String, Bool, true, false, Option, none, some, List, [], ◌∷◌, ◌++◌, ◌==◌, not, ◌||◌,
  if◌then◌else◌,
}
use ai_revenue_recovery.Prelude.Int.{ℤ, pos, eqb_ℤ}
use ai_revenue_recovery.Prelude.Exec.{
  Result, ok, err, Exec, pure, raise, raise_if, gets, modify, zoom, ◌>>=◌, ◌>>◌,
}
use ai_revenue_recovery.Foundation.Events.{
  ExecutionStatus, success, failed, ActionChannel, eq_action_type, action_type_value, channel_value,
  execution_status_value,
}
use ai_revenue_recovery.Foundation.Errors.{
  Error, authorization_verification, case_id, action_kind, idempotency_key, idempotency_conflict,
  validation_error,
}
use ai_revenue_recovery.Foundation.Value.{
  Value, null, bool, int, float, text, list, tuple, dict, immutable_dict, nil, end,
  get as get_field, dict_of,
}
use ai_revenue_recovery.Foundation.Runtime.{Runtime}
use ai_revenue_recovery.Foundation.Audit.{AuditLog, append}
use ai_revenue_recovery.Safety.KillSwitch
use ai_revenue_recovery.Safety.KillSwitch.{KillSwitchManager, Query}
use ai_revenue_recovery.Safety.Registry
use ai_revenue_recovery.Safety.Registry.{Registry}
use ai_revenue_recovery.Safety.Capacity
use ai_revenue_recovery.Safety.Capacity.{CapacityGovernor}
use ai_revenue_recovery.Safety.Authorizer.{ActionAuthorization, verify_authorization}
use ai_revenue_recovery.Execution.Idempotency.{
  ExecutionRequest, ExecutionResult, IdempotencyStore, matches_request, get, record_result,
}

-- What the handler returns, which may be any value, or the message of the exception it raised.
pub data Answer : Type 0 where
  answered : Value → Answer
  raised : String → Answer

-- The objects that an executor holds, and the calls of its handler so far, the latest first.
pub record ActionExecutor : Type 0 where
  pub kill_switch : KillSwitchManager
  pub circuit_breakers : Registry
  pub capacity_governor : CapacityGovernor
  pub idempotency_store : IdempotencyStore
  pub audit_log : AuditLog
  pub dispatched : List ExecutionRequest

abbrev pub is_failure : Value → Bool
is_failure (text status) = status == "FAILED" || status == "ERROR" || status == "DECLINED"
is_failure _ = false

-- `bool(v)`
unfoldable pub is_truthy : Value → Bool
is_truthy null = false
is_truthy (bool b) = b
is_truthy (int n) = not (eqb_ℤ n (pos 0))
is_truthy (float n) = not (eqb_ℤ n (pos 0))
is_truthy (text s) = not (s == "")
is_truthy (list nil) = false
is_truthy (tuple nil) = false
is_truthy (dict end) = false
is_truthy (immutable_dict end) = false
is_truthy _ = true

-- `v or default`
abbrev pub or_value : Value → Value → Value
or_value v default = if is_truthy v then v else default

-- The status, the message and the payload of a result, before they are validated. Only a dict is
-- asked for its status.
unfoldable pub outcome : Answer → ExecutionStatus × Value × Value
unfolding is_truthy
outcome (raised message) = (failed, text message, dict_of (("error", text message) ∷ []))
outcome (answered (dict fs)) =
    if is_failure (get_field "status" fs)
    then (
      failed,
      or_value (get_field "error" fs)
          (or_value (get_field "message" fs) (text "Simulator returned failure")),
      dict fs,
    )
    else (success, null, dict fs)
outcome (answered v) = (success, null, v)

-- What `ExecutionResult` takes: a message that is a text or None, and a mapping, which becomes a
-- dict. Anything else is refused.
unfoldable pub readable :
    ExecutionStatus × Value × Value → Option (ExecutionStatus × Option String × Value)
readable (status, null, dict fs) = some (status, none, dict fs)
readable (status, null, immutable_dict fs) = some (status, none, dict fs)
readable (status, text message, dict fs) = some (status, some message, dict fs)
readable (status, text message, immutable_dict fs) = some (status, some message, dict fs)
readable _ = none

-- The health that is reported to the channel's breaker; it is there since gate 4, so no report
-- raises.
abbrev report : ExecutionStatus → String → ℕ → Registry → Registry
report success key now r = (Registry.record_success key now r).1
report _ key now r = (Registry.record_failure key now r).1

abbrev pub result_of :
    ExecutionRequest → ℕ → ExecutionStatus × Option String × Value → ExecutionResult
result_of request now (status, message, body) = record {
  idempotency_key = request.idempotency_key;
  case_id = request.case_id;
  customer_id = request.customer_id;
  action_type = request.action_type;
  channel = request.channel;
  amount_in_cents = request.amount_in_cents;
  currency = request.currency;
  destination_url = request.destination_url;
  status = status;
  response_payload = body;
  error_message = message;
  executed_at = now;
}

abbrev message_or_empty : Option String → String
message_or_empty none = ""
message_or_empty (some s) = s

unfoldable pub executed_payload : ExecutionResult → ActionAuthorization → Value
executed_payload result token = dict_of (
    ("idempotency_key", text result.idempotency_key)
    ∷ ("case_id", text result.case_id)
    ∷ ("customer_id", text result.customer_id)
    ∷ ("action_type", text (action_type_value result.action_type))
    ∷ ("channel", text (channel_value result.channel))
    ∷ ("amount_in_cents", int result.amount_in_cents)
    ∷ ("currency", text result.currency)
    ∷ ("destination_url", text result.destination_url)
    ∷ ("status", text (execution_status_value result.status))
    ∷ ("token_signature", text token.signature)
    ∷ ("error_message", text (message_or_empty result.error_message))
    ∷ [])

abbrev pub query_of : ExecutionRequest → Query
query_of request = record {
  action_type_value = some (action_type_value request.action_type);
  channel = some (channel_value request.channel);
  customer_id = some request.customer_id;
  case_id = some request.case_id;
}

module _ (rt : Runtime) (secret : String) where
  -- Gate 1: the token, and the request's scope against it.
  unfoldable pub check_authorization :
      ExecutionRequest → ActionAuthorization → ℕ → Result Error Bool
  check_authorization request token now =
      elim (verify_authorization rt secret token (some request.customer_id) (some request.currency)
        (some request.amount_in_cents) (some request.channel) now) [
          | err e ↦ err e
          | ok _ ↦
              if not (token.grant.case_id == request.case_id)
              then err (authorization_verification case_id)
              else if not (eq_action_type token.grant.action_type request.action_type)
              then err (authorization_verification action_kind)
              else if not (token.grant.idempotency_key == request.idempotency_key)
              then err (authorization_verification idempotency_key)
              else ok true
        ]

module _ (check_egress_allowed : String → Result Error Bool) where
  -- Gates 3 to 6.
  unfoldable pub pass_gates : ExecutionRequest → ℕ → Exec Error ActionExecutor (Unit {0})
  pass_gates request now = do
    zoom (λ s. s.kill_switch) (λ k s. record s { kill_switch = k })
        (KillSwitch.check_execution_allowed (query_of request))
    zoom (λ s. s.circuit_breakers) (λ r s. record s { circuit_breakers = r })
        (Registry.check_execution_allowed (channel_value request.channel) now)
    (λ s. (check_egress_allowed request.destination_url, s))
    zoom (λ s. s.capacity_governor) (λ g s. record s { capacity_governor = g })
        (Capacity.record_action request.amount_in_cents now)

-- Gate 2: a known key is replayed or refused; a new one goes on.
abbrev pub replay_or :
    Option ExecutionResult
    → ExecutionRequest
    → Exec Error ActionExecutor ExecutionResult
    → Exec Error ActionExecutor ExecutionResult
replay_or none request proceed s = proceed s
replay_or (some existing) request proceed s =
    if matches_request existing request then (ok existing, s) else (err idempotency_conflict, s)

module _ (rt : Runtime) where
  -- The result, the store and the log; a result that is refused raises.
  abbrev pub commit :
      Option (ExecutionStatus × Option String × Value)
      → ExecutionRequest
      → ActionAuthorization
      → ℕ
      → Exec Error ActionExecutor ExecutionResult
  commit none request token now s = (err validation_error, s)
  commit (some answer) request token now s =
      let result = result_of request now answer in
      (
        ok result,
        record s {
          idempotency_store = record_result result s.idempotency_store;
          audit_log =
              (append rt "ACTION_EXECUTED" (executed_payload result token) now s.audit_log).1;
        },
      )

  module _ (handler : List ExecutionRequest → ExecutionRequest → Answer) where
    -- Gates 7 and 8. The handler has run and the breaker has its report before the result is built.
    unfoldable pub dispatch :
        ExecutionRequest → ActionAuthorization → ℕ → Exec Error ActionExecutor ExecutionResult
    unfolding outcome readable
    dispatch request token now s =
        let answer = outcome (handler s.dispatched request) in
        commit (readable answer) request token now (record s {
          circuit_breakers = report answer.0 (channel_value request.channel) now s.circuit_breakers;
          dispatched = request ∷ s.dispatched;
        })

module _ (rt : Runtime) (secret : String) (check_egress_allowed : String → Result Error Bool)
    (handler : List ExecutionRequest → ExecutionRequest → Answer) where
  unfoldable pub execute_action :
      ExecutionRequest → ActionAuthorization → ℕ → Exec Error ActionExecutor ExecutionResult
  unfolding check_authorization pass_gates dispatch
  execute_action request token now = do
    (λ s. (check_authorization rt secret request token now, s))
    (λ s.
        replay_or (get request.idempotency_key s.idempotency_store) request
          (do pass_gates check_egress_allowed request now; dispatch rt handler request token now) s)
