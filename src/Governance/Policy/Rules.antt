-- ===== src/Governance/Policy/Rules.antt =====
-- `PolicyEngine._evaluate_rule`: each rule's test and the reason that it gives.
use Prim.Native.Nat.{◌/◌, ◌%◌}
use ai_revenue_recovery.Prelude.{
  ℕ, suc, String, Bool, true, false, Option, none, some, ◌==◌, ltb, leb, not, ◌&&◌, ◌||◌,
  if◌then◌else◌, decimal,
}
use ai_revenue_recovery.Prelude.Int.{ℤ, pos, negsuc, ltb_ℤ, leb_ℤ}
use ai_revenue_recovery.Foundation.Events.{
  retry_charge, no_action, direct_payment_gateway, RiskTier, high, frozen, RecoveryCase,
  action_type_value, channel_value, eq_action_type, eq_risk_tier, eq_case_state,
}
use ai_revenue_recovery.Foundation.Value.{Value, bool, int, text, get}
use ai_revenue_recovery.Foundation.Runtime.{Runtime}
use ai_revenue_recovery.Foundation.Audit.{◌&◌}
use ai_revenue_recovery.Recovery.Diagnosis.{DiagnosisResult}
use ai_revenue_recovery.AiDecision.Artifacts.{DecisionArtifact}
use ai_revenue_recovery.Governance.Policy.Model.{PolicyRule, RuleEvaluationResult}

-- The number that `isinstance(v, int)` finds: Python's `bool` is an `int`.
abbrev pub as_int : Value → Option ℤ
as_int (int n) = some n
as_int (bool true) = some (pos 1)
as_int (bool false) = some (pos 0)
as_int _ = none

-- `v == s` for a text.
abbrev pub is_text : Value → String → Bool
is_text (text t) s = t == s
is_text _ s = false

-- A number below 10000 with its leading zeros.
abbrev padded : ℕ → String
padded n =
    if ltb n 10
    then "000" & decimal n
    else if ltb n 100
    then "00" & decimal n
    else if ltb n 1000
    then "0" & decimal n
    else decimal n

abbrev four_places : ℕ → String
four_places n = decimal (n / 10000) & "." & padded (n % 10000)

-- `f"{x:.4f}"`
abbrev pub four_decimals : ℤ → String
four_decimals (pos n) = four_places n
four_decimals (negsuc n) = "-" & four_places (suc n)

-- `amt` is no positive number up to the case's amount.
abbrev pub out_of_bounds : Option ℤ → ℕ → Bool
out_of_bounds none amount = true
out_of_bounds (some n) amount = leb_ℤ n (pos 0) || ltb_ℤ (pos amount) n

module _ (case : RecoveryCase) (diagnosis : DiagnosisResult) (decision : DecisionArtifact) where
  abbrev pub acts : Bool
  acts = not (eq_action_type decision.recommended_action no_action)

  abbrev pub charges : Bool
  charges = eq_action_type decision.recommended_action retry_charge

  unfoldable pub breaks_fraud_block : Bool
  breaks_fraud_block =
      (eq_risk_tier diagnosis.risk_tier RiskTier.blocked
        || diagnosis.diagnosis_code == "FRAUD_RISK_BLOCK"
        || eq_risk_tier case.risk_tier RiskTier.blocked)
      && acts

  unfoldable pub breaks_non_recoverable_block : Bool
  breaks_non_recoverable_block = not diagnosis.is_recoverable && acts

  unfoldable pub breaks_max_attempts_limit : Bool
  breaks_max_attempts_limit = leb case.max_attempts case.attempt_count && acts

  unfoldable pub breaks_safety_freeze_guard : Bool
  breaks_safety_freeze_guard = eq_case_state case.state frozen

  unfoldable pub breaks_high_risk_channel_restriction : Bool
  breaks_high_risk_channel_restriction =
      eq_risk_tier diagnosis.risk_tier high
      && (is_text (get "channel" decision.parameters) (channel_value direct_payment_gateway)
          || charges)

  unfoldable pub breaks_action_amount_bound : Bool
  breaks_action_amount_bound =
      charges
      && out_of_bounds (as_int (get "amount_in_cents" decision.parameters)) case.amount_in_cents

  unfoldable pub breaks_min_confidence_threshold : Bool
  breaks_min_confidence_threshold = charges && ltb_ℤ decision.confidence_score (pos 5000)

  unfoldable pub breaks_model_version_freshness : Bool
  breaks_model_version_freshness = decision.model_version == "" || decision.prompt_version == ""

  -- The branches on `rule_id`: whether the rule is broken. An unknown rule never is.
  unfoldable pub breaks : String → Bool
  breaks rule_id =
      if rule_id == "RULE_T1_FRAUD_BLOCK"
      then breaks_fraud_block
      else if rule_id == "RULE_T1_NON_RECOVERABLE_BLOCK"
      then breaks_non_recoverable_block
      else if rule_id == "RULE_T1_MAX_ATTEMPTS_LIMIT"
      then breaks_max_attempts_limit
      else if rule_id == "RULE_T1_SAFETY_FREEZE_GUARD"
      then breaks_safety_freeze_guard
      else if rule_id == "RULE_T2_HIGH_RISK_CHANNEL_RESTRICTION"
      then breaks_high_risk_channel_restriction
      else if rule_id == "RULE_T2_ACTION_AMOUNT_BOUND"
      then breaks_action_amount_bound
      else if rule_id == "RULE_T3_MIN_CONFIDENCE_THRESHOLD"
      then breaks_min_confidence_threshold
      else if rule_id == "RULE_T3_MODEL_VERSION_FRESHNESS"
      then breaks_model_version_freshness
      else false

module _ (rt : Runtime) (case : RecoveryCase) (diagnosis : DiagnosisResult)
    (decision : DecisionArtifact) where
  -- The text after the colon of a broken rule's reason.
  unfoldable pub reason_of : String → String
  reason_of rule_id =
      let action = action_type_value decision.recommended_action in
      if rule_id == "RULE_T1_FRAUD_BLOCK"
      then "Fraud suspected or BLOCKED risk tier. Recommended action '" & action
        & "' is prohibited; MUST be NO_ACTION."
      else if rule_id == "RULE_T1_NON_RECOVERABLE_BLOCK"
      then "Diagnosis marked case as non-recoverable. Recommended action '" & action
        & "' is prohibited; MUST be NO_ACTION."
      else if rule_id == "RULE_T1_MAX_ATTEMPTS_LIMIT"
      then "Case attempt_count ("
        & decimal case.attempt_count
        & ") has reached or exceeded max_attempts ("
        & decimal case.max_attempts
        & "). Further recovery attempts are prohibited."
      else if rule_id == "RULE_T1_SAFETY_FREEZE_GUARD"
      then "Case is in FROZEN state. All recovery operations are prohibited."
      else if rule_id == "RULE_T2_HIGH_RISK_CHANNEL_RESTRICTION"
      then "HIGH risk tier requires customer-interactive notification channels. "
        & "Direct automated retry on '"
        & rt.str (get "channel" decision.parameters)
        & "' is disallowed."
      else if rule_id == "RULE_T2_ACTION_AMOUNT_BOUND"
      then "RETRY_CHARGE parameter 'amount_in_cents' ("
        & rt.str (get "amount_in_cents" decision.parameters)
        & ") must be positive and <= case amount ("
        & decimal case.amount_in_cents
        & ")."
      else if rule_id == "RULE_T3_MIN_CONFIDENCE_THRESHOLD"
      then "Automated retry confidence score "
        & four_decimals decision.confidence_score
        & " is below minimum threshold 0.5000."
      else "Model version or prompt version is missing or empty."

  -- `_evaluate_rule`
  unfoldable pub evaluate_rule : PolicyRule → RuleEvaluationResult
  evaluate_rule rule =
      let broken = breaks case diagnosis decision rule.rule_id in
      record {
        rule_id = rule.rule_id;
        rule_tier = rule.tier;
        is_compliant = not broken;
        violation_reason =
            if broken then some (rule.rule_id & ": " & reason_of rule.rule_id) else none;
      }
