-- ===== src/Execution/Idempotency.antt =====
-- src/revenue_recovery/executor/idempotency.py: requests, results and the store of results by key.
use ai_revenue_recovery.Prelude.{ℕ, String, Bool, Option, ◌==◌, ◌&&◌, upper, []}
use ai_revenue_recovery.Prelude.Int.{ℤ, eqb_ℤ}
use ai_revenue_recovery.Prelude.Dict.{Dict, lookup, insert}
use ai_revenue_recovery.Foundation.Events.{
  ActionType, ActionChannel, ExecutionStatus, eq_action_type, eq_channel,
}
use ai_revenue_recovery.Foundation.Value.{Value}

pub record ExecutionRequest : Type 0 where
  pub case_id : String
  pub customer_id : String
  pub action_type : ActionType
  pub channel : ActionChannel
  pub amount_in_cents : ℤ
  pub currency : String
  pub destination_url : String
  pub idempotency_key : String
  pub action_payload : Value

pub record ExecutionResult : Type 0 where
  pub idempotency_key : String
  pub case_id : String
  pub customer_id : String
  pub action_type : ActionType
  pub channel : ActionChannel
  pub amount_in_cents : ℤ
  pub currency : String
  pub destination_url : String
  pub status : ExecutionStatus
  pub response_payload : Value
  pub error_message : Option String
  pub executed_at : ℕ

unfoldable pub matches_request : ExecutionResult → ExecutionRequest → Bool
matches_request result request =
    result.idempotency_key == request.idempotency_key
    && result.case_id == request.case_id
    && result.customer_id == request.customer_id
    && eq_action_type result.action_type request.action_type
    && eq_channel result.channel request.channel
    && eqb_ℤ result.amount_in_cents request.amount_in_cents
    && upper result.currency == upper request.currency
    && result.destination_url == request.destination_url

abbrev pub IdempotencyStore : Type 0
IdempotencyStore = Dict ExecutionResult

unfoldable pub get : String → IdempotencyStore → Option ExecutionResult
get idempotency_key store = lookup idempotency_key store

-- `record`, which is a word of the language.
unfoldable pub record_result : ExecutionResult → IdempotencyStore → IdempotencyStore
record_result result store = insert result.idempotency_key result store

unfoldable pub clear : IdempotencyStore → IdempotencyStore
clear store = []
