-- ===== src/Examples/Decisions.antt =====
-- A timeout that the decision engine answers with a retry, and the default policy's view of it.
use ai_revenue_recovery.Prelude.{
  ℕ, String, Bool, true, false, Option, none, some, List, [], ◌∷◌, ◌≡◌, ◌↔◌, ◌⊎◌, ◌<◌, inl, inr,
  refl, arith, Bool-cases, ◌==◌, eq_iff,
}
use ai_revenue_recovery.Prelude.Int.{pos}
use ai_revenue_recovery.Prelude.Exec.{ok, err}
use ai_revenue_recovery.Prelude.Dict.{lookup}
use ai_revenue_recovery.Foundation.Errors.{value_error}
use ai_revenue_recovery.Foundation.Events.{
  RecoveryCase, PaymentFailureEvent, gateway_timeout, diagnosed, frozen, low, retry_charge,
  direct_payment_gateway,
}
use ai_revenue_recovery.Foundation.Value.{fields, text, bool, get}
use ai_revenue_recovery.Recovery.Diagnosis.{DiagnosisResult}
use ai_revenue_recovery.Recovery.Diagnosis
use ai_revenue_recovery.AiDecision.Artifacts.{
  DecisionArtifact, Draw, default_versions, is_digest, create_decision_artifact,
  compute_canonical_input_hash,
}
use ai_revenue_recovery.AiDecision.Artifacts.Routing.{
  HasDigests, IsWellFormed, IsEvaluable, IsBarred, IsRouted, create_decision_artifact-IsRouted,
}
use ai_revenue_recovery.AiDecision.Engine.{generate_recommendation, evaluate_case, Provider}
use ai_revenue_recovery.AiDecision.Engine.Accountability.{
  IsAccountable, Leaves, evaluate_case-IsAccountable,
}
use ai_revenue_recovery.Governance.Policy
use ai_revenue_recovery.Governance.Policy.{PolicyEngine, target_of}
use ai_revenue_recovery.Governance.Policy.Model.{default_standard_policy}
use ai_revenue_recovery.Governance.Policy.Verdict.{Permits, Logs, evaluate-Permits}
use ai_revenue_recovery.Governance.Policy.Safety.{IsSafe, evaluate-IsSafe}
use ai_revenue_recovery.Governance.Policy.Agreement.{recommendation-IsAllowed}
use ai_revenue_recovery.Examples.Logs.{runtime, ones}

abbrev pub timeout : PaymentFailureEvent
timeout = record {
  event_id = "e1";
  customer_id = "u1";
  invoice_id = "i1";
  amount_in_cents = 1000;
  currency = "INR";
  failure_reason = gateway_timeout;
  failure_code = "T";
  gateway_reference = "g1";
  failed_at = 1;
}

abbrev pub case : RecoveryCase
case = record {
  case_id = "c1";
  customer_id = "u1";
  trigger_event_id = "e1";
  amount_in_cents = 1000;
  currency = "INR";
  state = diagnosed;
  risk_tier = low;
  attempt_count = 0;
  max_attempts = 3;
  created_at = 1;
  updated_at = 2;
}

abbrev pub diagnosis : DiagnosisResult
diagnosis = record {
  diagnosis_code = "NETWORK_GATEWAY_TIMEOUT";
  risk_score = 500;
  risk_tier = low;
  is_recoverable = true;
  recommended_channel = direct_payment_gateway;
  rationale = "Network or gateway timeout; eligible for immediate automated retry.";
}

abbrev pub draw : Draw
draw = record { artifact_id = "a1"; created_at = 3 }

abbrev pub decision : DecisionArtifact
decision = record {
  artifact_id = "a1";
  case_id = "c1";
  model_version = "m1";
  prompt_version = "p1";
  tool_schema_version = "t1";
  canonical_input_hash = ones;
  input_snapshot = fields [];
  recommended_action = retry_charge;
  parameters =
      fields (("channel", text "DIRECT_PAYMENT_GATEWAY") ∷ ("amount_in_cents", bool true) ∷ []);
  confidence_score = pos 9500;
  reasoning_summary = "retry";
  created_at = 3;
}

abbrev pub engine : PolicyEngine
engine = record {
  policies = (default_standard_policy.policy_id, default_standard_policy) ∷ [];
  audit = some [];
}

diagnosis_runs : Diagnosis.evaluate timeout (pos 0) ≡ ok diagnosis
unfolding Diagnosis.evaluate Diagnosis.is_supported ai_revenue_recovery.Prelude.upper
    Diagnosis.classify
diagnosis_runs = refl

digests : HasDigests runtime
unfolding is_digest ai_revenue_recovery.Prelude.is_hex
digests s = elim (Bool-cases (s == "")) [ inl e ↦ rw e refl | inr e ↦ rw e refl ]

well_formed : IsWellFormed case diagnosis default_versions
well_formed = record {
  case_id = λ e. ground (arith, eq_iff "c1" "");
  risk_score = omega arith;
  model_version = λ e. ground (arith, eq_iff "mock-decision-v1.0.0" "");
  prompt_version = λ e. ground (arith, eq_iff "v1.0.0" "");
  tool_schema_version = λ e. ground (arith, eq_iff "v1.0.0" "");
}

create_decision_artifact-IsRouted_example :
    (IsEvaluable case
      → (a : DecisionArtifact) × (create_decision_artifact runtime draw case diagnosis
            default_versions none
          ≡ ok a)
        × (a.canonical_input_hash ≡ compute_canonical_input_hash runtime a.input_snapshot)
        × IsRouted case diagnosis default_versions a)
    × (¬ IsEvaluable case
        → create_decision_artifact runtime draw case diagnosis default_versions none
          ≡ err value_error)
create_decision_artifact-IsRouted_example =
    create_decision_artifact-IsRouted runtime draw case diagnosis default_versions none digests
      well_formed

abbrev provider : Provider
provider = generate_recommendation runtime draw default_versions

evaluate_case-IsAccountable_example :
    ((a : DecisionArtifact)
      → ((evaluate_case runtime provider "v1" case diagnosis 7 (some [])).0 ≡ ok a)
        ↔ IsAccountable runtime provider "v1" case diagnosis 7 (some []) a)
    × Leaves runtime "v1" 7
        (some [])
        (evaluate_case runtime provider "v1" case diagnosis 7 (some []))
evaluate_case-IsAccountable_example =
    evaluate_case-IsAccountable runtime provider "v1" case diagnosis 7 (some [])

evaluate-Permits_example :
    (((Policy.evaluate runtime "v1" case diagnosis decision none 7 engine).0.is_allowed ≡ true)
      ↔ Permits runtime case diagnosis decision (lookup (target_of runtime none) engine.policies))
    × Logs runtime case diagnosis decision "v1" 7 engine
        (lookup (target_of runtime none) engine.policies)
        (Policy.evaluate runtime "v1" case diagnosis decision none 7 engine)
evaluate-Permits_example = evaluate-Permits runtime case diagnosis decision "v1" 7 engine none

evaluate-IsSafe_example :
    ((Policy.evaluate runtime "v1" case diagnosis decision none 7 engine).0.is_allowed ≡ true)
    ↔ IsSafe case diagnosis decision
unfolding lookup
evaluate-IsSafe_example = evaluate-IsSafe runtime case diagnosis decision "v1" 7 engine refl

recommendation-IsAllowed_example :
    (a : DecisionArtifact) × (create_decision_artifact runtime draw case diagnosis default_versions
        none
      ≡ ok a)
    × (((Policy.evaluate runtime "v1" case diagnosis a none 7 engine).0.is_allowed ≡ true)
        ↔ (IsBarred case diagnosis ⊎ (0 < 3)))
unfolding lookup
recommendation-IsAllowed_example =
    recommendation-IsAllowed runtime draw case timeout (pos 0) diagnosis default_versions "v1" 7
      engine digests diagnosis_runs well_formed (inl refl) (omega arith) refl

-- A Boolean amount passes the bound on the amount: Python's `True` is the integer 1.
bool_amount_runs :
    (Policy.evaluate runtime "v1" case diagnosis decision none 7 engine).0.is_allowed ≡ true
unfolding Policy.evaluate lookup Policy.decided Policy.evaluate_rules
    ai_revenue_recovery.Prelude.Sorting.sort Policy.active
    ai_revenue_recovery.Prelude.Sorting.insert_sorted
    ai_revenue_recovery.Governance.Policy.Rules.evaluate_rule
    ai_revenue_recovery.Governance.Policy.Rules.breaks
    ai_revenue_recovery.Governance.Policy.Rules.breaks_fraud_block
    ai_revenue_recovery.Governance.Policy.Rules.breaks_max_attempts_limit
    ai_revenue_recovery.Governance.Policy.Rules.breaks_non_recoverable_block
    ai_revenue_recovery.Governance.Policy.Rules.breaks_safety_freeze_guard
    ai_revenue_recovery.Governance.Policy.Rules.breaks_action_amount_bound get
    ai_revenue_recovery.Governance.Policy.Rules.breaks_high_risk_channel_restriction
    ai_revenue_recovery.Governance.Policy.Rules.breaks_min_confidence_threshold
    ai_revenue_recovery.Governance.Policy.Rules.breaks_model_version_freshness
bool_amount_runs = refl

frozen_runs :
    (Policy.evaluate runtime "v1"
      (record case { state = frozen })
      diagnosis
      decision
      none
      7
      engine).0.is_allowed
    ≡ false
unfolding Policy.evaluate lookup Policy.decided Policy.evaluate_rules
    ai_revenue_recovery.Prelude.Sorting.sort Policy.active
    ai_revenue_recovery.Prelude.Sorting.insert_sorted
    ai_revenue_recovery.Governance.Policy.Rules.evaluate_rule
    ai_revenue_recovery.Governance.Policy.Rules.breaks
    ai_revenue_recovery.Governance.Policy.Rules.breaks_fraud_block
    ai_revenue_recovery.Governance.Policy.Rules.breaks_max_attempts_limit
    ai_revenue_recovery.Governance.Policy.Rules.breaks_non_recoverable_block
    ai_revenue_recovery.Governance.Policy.Rules.breaks_safety_freeze_guard
frozen_runs = refl
