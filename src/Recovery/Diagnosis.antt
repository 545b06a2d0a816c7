-- ===== src/Recovery/Diagnosis.antt =====
-- src/revenue_recovery/recovery_engine/diagnosis.py. A risk score is counted in ten-thousandths.
pub mod Verdicts
use Prim.Native.String.{◌++◌ as concat}
use mathlib.Core.Path.{subst}
use ai_revenue_recovery.Prelude.{
  ℕ, ◌≤◌, ◌<◌, String, Bool, true, false, List, [], ◌∷◌, ◌≡◌, ◌≢◌, ◌⊎◌, ◌↔◌, inl, inr, refl, arith,
  Bool-cases, eq_iff, ◌==◌, leb, ltb, not, ◌||◌, if◌then◌else◌, upper, All,
}
use ai_revenue_recovery.Prelude.Int.{ℤ, pos, negsuc}
use ai_revenue_recovery.Prelude.Exec.{Result, ok, err}
use ai_revenue_recovery.Foundation.Errors.{Error, value_error}
use ai_revenue_recovery.Foundation.Events.{
  FailureReason, insufficient_funds, card_expired, gateway_timeout, processing_error,
  authentication_failed, fraud_suspected, generic_decline, RiskTier, low, medium, high,
  ActionChannel, direct_payment_gateway, email, internal_system, PaymentFailureEvent,
}

pub record DiagnosisResult : Type 0 where
  pub diagnosis_code : String
  pub risk_score : ℕ
  pub risk_tier : RiskTier
  pub is_recoverable : Bool
  pub recommended_channel : ActionChannel
  pub rationale : String

-- `SUPPORTED_CURRENCIES`
abbrev pub supported_currencies : List String
supported_currencies = "INR" ∷ "USD" ∷ "EUR" ∷ "GBP" ∷ []

unfoldable pub is_supported : String → List String → Bool
is_supported currency [] = false
is_supported currency (c ∷ cs) = currency == c || is_supported currency cs

-- `HIGH_VALUE_THRESHOLD_UNITS`
abbrev pub high_value_threshold_units : ℕ
high_value_threshold_units = 100000

abbrev recoverable : String → ℕ → RiskTier → ActionChannel → String → DiagnosisResult
recoverable code score tier channel rationale = record {
  diagnosis_code = code;
  risk_score = score;
  risk_tier = tier;
  is_recoverable = true;
  recommended_channel = channel;
  rationale = rationale;
}

abbrev pub refused : String → String → DiagnosisResult
refused code rationale = record {
  diagnosis_code = code;
  risk_score = 10000;
  risk_tier = RiskTier.blocked;
  is_recoverable = false;
  recommended_channel = internal_system;
  rationale = rationale;
}

-- The branches on the failure reason. The enum has no other member, so the last fallback of the
-- source, for an unknown reason, is never reached.
unfoldable pub classify : FailureReason → ℕ → ℕ → DiagnosisResult
classify fraud_suspected amount attempts =
    refused "FRAUD_RISK_BLOCK"
      "Suspected fraud detected; automated recovery blocked and routed to internal security."
classify authentication_failed amount attempts =
    recoverable "AUTH_STEP_UP_REQUIRED" 7500 high email
      "Customer authentication failed; interactive step-up required via notification."
classify generic_decline amount attempts =
    if leb high_value_threshold_units amount || leb 2 attempts
    then recoverable "HIGH_RISK_GENERIC_DECLINE" 6500 high email
        "Unclassified bank decline with high-risk attributes; customer notification recommended."
    else recoverable "UNCLASSIFIED_DECLINE" 5000 medium direct_payment_gateway
        "Unclassified bank decline; initial conservative payment retry permitted."
classify card_expired amount attempts =
    recoverable "CREDENTIAL_EXPIRED" 4000 medium email
      "Payment card is expired; customer payment method update notification required."
classify insufficient_funds amount attempts =
    if leb 2 attempts
    then recoverable "PERSISTENT_LIQUIDITY_SHORTFALL" 3500 medium email
        "Repeated insufficient funds failures; escalating to customer communication."
    else recoverable "TRANSIENT_INSUFFICIENT_FUNDS" 2000 low direct_payment_gateway
        "Transient liquidity shortfall; eligible for automated smart retry."
classify processing_error amount attempts =
    recoverable "GATEWAY_PROCESSING_ERROR" 1000 low direct_payment_gateway
      "Transient gateway processing error; eligible for automated backoff retry."
classify gateway_timeout amount attempts =
    recoverable "NETWORK_GATEWAY_TIMEOUT" 500 low direct_payment_gateway
      "Network or gateway timeout; eligible for immediate automated retry."

-- `RiskDiagnosisEvaluator.evaluate`
unfoldable pub evaluate : PaymentFailureEvent → ℤ → Result Error DiagnosisResult
evaluate event (negsuc _) = err value_error
evaluate event (pos attempt_count) =
    if not (is_supported (upper event.currency) supported_currencies)
    then ok (
        refused "UNSUPPORTED_CURRENCY_BLOCK"
          (concat "Currency '" (concat event.currency "' is unsupported; failing closed.")))
    else ok (classify event.failure_reason event.amount_in_cents attempt_count)

unfoldable pub evaluate_diagnosis : PaymentFailureEvent → ℤ → Result Error DiagnosisResult
evaluate_diagnosis event attempt_count = evaluate event attempt_count
