-- ===== src/Foundation/Events.antt =====
-- src/revenue_recovery/foundation/events.py: the enums with their string values, and the records
-- that the components exchange. A `datetime` is a number of microseconds.
use ai_revenue_recovery.Prelude.{ℕ, String, Bool, Option, eqb}

pub data CaseState : Type 0 where
  open_case diagnosed evaluating scheduled executing reconciling : CaseState
  resolved abandoned frozen : CaseState

pub data RiskTier : Type 0 where
  low medium high blocked : RiskTier

pub data FailureReason : Type 0 where
  insufficient_funds card_expired gateway_timeout processing_error : FailureReason
  authentication_failed fraud_suspected generic_decline : FailureReason

pub data ActionType : Type 0 where
  retry_charge send_notification update_payment_method_request : ActionType
  offer_payment_plan apply_grace_period no_action : ActionType

pub data ActionChannel : Type 0 where
  direct_payment_gateway email sms whatsapp internal_system : ActionChannel

pub data ObligationType : Type 0 where
  mandatory_disclosure cooling_off retry_window consent_check : ObligationType

pub data ExecutionStatus : Type 0 where
  pending success failed blocked skipped : ExecutionStatus

abbrev pub case_state_value : CaseState → String
case_state_value open_case = "OPEN"
case_state_value diagnosed = "DIAGNOSED"
case_state_value evaluating = "EVALUATING"
case_state_value scheduled = "SCHEDULED"
case_state_value executing = "EXECUTING"
case_state_value reconciling = "RECONCILING"
case_state_value resolved = "RESOLVED"
case_state_value abandoned = "ABANDONED"
case_state_value frozen = "FROZEN"

abbrev pub risk_tier_value : RiskTier → String
risk_tier_value low = "LOW"
risk_tier_value medium = "MEDIUM"
risk_tier_value high = "HIGH"
risk_tier_value RiskTier.blocked = "BLOCKED"

abbrev pub action_type_value : ActionType → String
action_type_value retry_charge = "RETRY_CHARGE"
action_type_value send_notification = "SEND_NOTIFICATION"
action_type_value update_payment_method_request = "UPDATE_PAYMENT_METHOD_REQUEST"
action_type_value offer_payment_plan = "OFFER_PAYMENT_PLAN"
action_type_value apply_grace_period = "APPLY_GRACE_PERIOD"
action_type_value no_action = "NO_ACTION"

abbrev pub channel_value : ActionChannel → String
channel_value direct_payment_gateway = "DIRECT_PAYMENT_GATEWAY"
channel_value email = "EMAIL"
channel_value sms = "SMS"
channel_value whatsapp = "WHATSAPP"
channel_value internal_system = "INTERNAL_SYSTEM"

abbrev pub execution_status_value : ExecutionStatus → String
execution_status_value pending = "PENDING"
execution_status_value success = "SUCCESS"
execution_status_value failed = "FAILED"
execution_status_value ExecutionStatus.blocked = "BLOCKED"
execution_status_value skipped = "SKIPPED"

abbrev pub obligation_type_value : ObligationType → String
obligation_type_value mandatory_disclosure = "MANDATORY_DISCLOSURE"
obligation_type_value cooling_off = "COOLING_OFF"
obligation_type_value retry_window = "RETRY_WINDOW"
obligation_type_value consent_check = "CONSENT_CHECK"

-- `==` of two members, by their place in the enum.
abbrev pub case_state_index : CaseState → ℕ
case_state_index open_case = 0
case_state_index diagnosed = 1
case_state_index evaluating = 2
case_state_index scheduled = 3
case_state_index executing = 4
case_state_index reconciling = 5
case_state_index resolved = 6
case_state_index abandoned = 7
case_state_index frozen = 8

abbrev pub eq_case_state : CaseState → CaseState → Bool
eq_case_state a b = eqb (case_state_index a) (case_state_index b)

abbrev pub risk_tier_index : RiskTier → ℕ
risk_tier_index low = 0
risk_tier_index medium = 1
risk_tier_index high = 2
risk_tier_index RiskTier.blocked = 3

abbrev pub eq_risk_tier : RiskTier → RiskTier → Bool
eq_risk_tier a b = eqb (risk_tier_index a) (risk_tier_index b)

abbrev pub action_type_index : ActionType → ℕ
action_type_index retry_charge = 0
action_type_index send_notification = 1
action_type_index update_payment_method_request = 2
action_type_index offer_payment_plan = 3
action_type_index apply_grace_period = 4
action_type_index no_action = 5

abbrev pub eq_action_type : ActionType → ActionType → Bool
eq_action_type a b = eqb (action_type_index a) (action_type_index b)

abbrev pub channel_index : ActionChannel → ℕ
channel_index direct_payment_gateway = 0
channel_index email = 1
channel_index sms = 2
channel_index whatsapp = 3
channel_index internal_system = 4

abbrev pub eq_channel : ActionChannel → ActionChannel → Bool
eq_channel a b = eqb (channel_index a) (channel_index b)

pub record PaymentFailureEvent : Type 0 where
  pub event_id : String
  pub customer_id : String
  pub invoice_id : String
  pub amount_in_cents : ℕ
  pub currency : String
  pub failure_reason : FailureReason
  pub failure_code : String
  pub gateway_reference : String
  pub failed_at : ℕ

pub record RecoveryCase : Type 0 where
  pub case_id : String
  pub customer_id : String
  pub trigger_event_id : String
  pub amount_in_cents : ℕ
  pub currency : String
  pub state : CaseState
  pub risk_tier : RiskTier
  pub attempt_count : ℕ
  pub max_attempts : ℕ
  pub created_at : ℕ
  pub updated_at : ℕ

pub record ComplianceObligation : Type 0 where
  pub obligation_id : String
  pub case_id : String
  pub obligation_type : ObligationType
  pub is_mandatory : Bool
  pub scheduled_time : ℕ
  pub status : String
  pub resolution_reason : Option String
  pub created_at : ℕ
