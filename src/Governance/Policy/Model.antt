-- ===== src/Governance/Policy/Model.antt =====
-- The enums, records and the default policy of policy_engine.py. The time at which a policy was
-- made, which nothing reads, is left out.
use ai_revenue_recovery.Prelude.{ℕ, String, Bool, true, Option, some, List, [], ◌∷◌}

pub data PolicyLifecycleState : Type 0 where
  draft review test simulate approved stage production retired : PolicyLifecycleState

abbrev pub lifecycle_value : PolicyLifecycleState → String
lifecycle_value draft = "DRAFT"
lifecycle_value review = "REVIEW"
lifecycle_value test = "TEST"
lifecycle_value simulate = "SIMULATE"
lifecycle_value approved = "APPROVED"
lifecycle_value stage = "STAGE"
lifecycle_value production = "PRODUCTION"
lifecycle_value retired = "RETIRED"

pub data RuleTier : Type 0 where
  tier_1_mandatory_legal_safety tier_2_business_governance : RuleTier
  tier_3_strategy_compatibility : RuleTier

-- `tier_precedence`
abbrev pub tier_precedence : RuleTier → ℕ
tier_precedence tier_1_mandatory_legal_safety = 1
tier_precedence tier_2_business_governance = 2
tier_precedence tier_3_strategy_compatibility = 3

pub record PolicyRule : Type 0 where
  pub rule_id : String
  pub name : String
  pub tier : RuleTier
  pub description : String
  pub is_active : Bool

pub record Policy : Type 0 where
  pub policy_id : String
  pub version : String
  pub lifecycle_state : PolicyLifecycleState
  pub rules : List PolicyRule
  pub approved_by : Option String

pub record RuleEvaluationResult : Type 0 where
  pub rule_id : String
  pub rule_tier : RuleTier
  pub is_compliant : Bool
  pub violation_reason : Option String

pub record PolicyEvaluationResult : Type 0 where
  pub case_id : String
  pub policy_id : String
  pub policy_version : String
  pub is_allowed : Bool
  pub violated_rules : List String
  pub rule_results : List RuleEvaluationResult
  pub evaluated_at : ℕ

abbrev pub rule : String → String → RuleTier → String → PolicyRule
rule rule_id name tier description = record {
  rule_id = rule_id;
  name = name;
  tier = tier;
  description = description;
  is_active = true;
}

-- `STANDARD_POLICY_RULES`
abbrev pub standard_policy_rules : List PolicyRule
standard_policy_rules =
    rule "RULE_T1_FRAUD_BLOCK" "Fraud Risk Immediate Block" tier_1_mandatory_legal_safety
      "Blocks any recovery action if fraud is suspected or risk tier is BLOCKED."
    ∷ rule "RULE_T1_NON_RECOVERABLE_BLOCK" "Non-Recoverable Case Guard"
        tier_1_mandatory_legal_safety
        "Enforces NO_ACTION when diagnosis marks case as non-recoverable."
    ∷ rule "RULE_T1_MAX_ATTEMPTS_LIMIT" "Lifetime Attempt Boundary Guard"
        tier_1_mandatory_legal_safety
        "Prohibits further recovery actions when attempt_count reaches max_attempts."
    ∷ rule "RULE_T1_SAFETY_FREEZE_GUARD" "Safety Freeze Non-Bypass Guard"
        tier_1_mandatory_legal_safety "Prohibits any action execution on cases in FROZEN state."
    ∷ rule "RULE_T2_HIGH_RISK_CHANNEL_RESTRICTION" "High Risk Channel Restriction"
        tier_2_business_governance
        "Restricts HIGH risk tier cases to customer-interactive notification channels only."
    ∷ rule "RULE_T2_ACTION_AMOUNT_BOUND" "Action Amount Upper Bound" tier_2_business_governance
        "Ensures requested charge amount is positive and does not exceed case amount."
    ∷ rule "RULE_T3_MIN_CONFIDENCE_THRESHOLD" "Minimum Model Confidence Threshold"
        tier_3_strategy_compatibility
        "Requires automated retry recommendation confidence score to meet minimum threshold of 0.5000."
    ∷ rule "RULE_T3_MODEL_VERSION_FRESHNESS" "Model Version Freshness" tier_3_strategy_compatibility
        "Validates that model_version and prompt_version are specified and non-empty."
    ∷ []

-- `DEFAULT_STANDARD_POLICY`
abbrev pub default_standard_policy : Policy
default_standard_policy = record {
  policy_id = "standard-recovery-policy-v1";
  version = "1.0.0";
  lifecycle_state = production;
  rules = standard_policy_rules;
  approved_by = some "governance-board@revenue-recovery.internal";
}
