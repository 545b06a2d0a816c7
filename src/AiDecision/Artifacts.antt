-- ===== src/AiDecision/Artifacts.antt =====
-- src/revenue_recovery/ai_decision/artifacts.py. A confidence is counted in ten-thousandths, like a
-- risk score. The id and the time that an artifact draws by itself are arguments.
pub mod Routing
use Prim.Native.String.{count}
use ai_revenue_recovery.Prelude.{
  ℕ, String, Bool, true, false, Option, none, some, List, [], ◌∷◌, ◌==◌, eqb, not, ◌&&◌, ◌||◌,
  if◌then◌else◌, lower, is_hex,
}
use ai_revenue_recovery.Prelude.Int.{ℤ, pos, leb_ℤ, sub_ℕ}
use ai_revenue_recovery.Prelude.Exec.{Result, ok, err}
use ai_revenue_recovery.Foundation.Errors.{Error, value_error, validation_error}
use ai_revenue_recovery.Foundation.Events.{
  ActionType, retry_charge, send_notification, no_action, ActionChannel, direct_payment_gateway,
  internal_system, RiskTier, diagnosed, evaluating, RecoveryCase, case_state_value, risk_tier_value,
  channel_value, eq_case_state, eq_risk_tier, eq_channel,
}
use ai_revenue_recovery.Foundation.Value.{
  Value, Fields, bool, float, text, nat, dict, dict_of, fields, freeze_fields,
}
use ai_revenue_recovery.Foundation.Runtime.{Runtime}
use ai_revenue_recovery.Foundation.Audit.{canonical_json, ◌&◌}
use ai_revenue_recovery.Recovery.Diagnosis.{DiagnosisResult}

pub record DecisionArtifact : Type 0 where
  pub artifact_id : String
  pub case_id : String
  pub model_version : String
  pub prompt_version : String
  pub tool_schema_version : String
  pub canonical_input_hash : String
  pub input_snapshot : Fields
  pub recommended_action : ActionType
  pub parameters : Fields
  pub confidence_score : ℤ
  pub reasoning_summary : String
  pub created_at : ℕ

-- What the default factories of one artifact draw.
pub record Draw : Type 0 where
  pub artifact_id : String
  pub created_at : ℕ

pub record Versions : Type 0 where
  pub model_version : String
  pub prompt_version : String
  pub tool_schema_version : String

-- The default arguments of `create_decision_artifact`.
abbrev pub default_versions : Versions
default_versions = record {
  model_version = "mock-decision-v1.0.0";
  prompt_version = "v1.0.0";
  tool_schema_version = "v1.0.0";
}

module _ (rt : Runtime) where
  unfoldable pub compute_canonical_input_hash : Fields → String
  compute_canonical_input_hash input_snapshot = rt.sha256 (canonical_json rt (dict input_snapshot))

-- The test of `validate_hash_format` on the text in small letters.
unfoldable pub is_digest : String → Bool
is_digest v = eqb (count v) 64 && is_hex v

unfoldable pub is_evaluable : RecoveryCase → Bool
is_evaluable case = eq_case_state case.state diagnosed || eq_case_state case.state evaluating

unfoldable pub input_snapshot_of : RecoveryCase → DiagnosisResult → Fields
input_snapshot_of case diagnosis = fields (
    ("case_id", text case.case_id)
    ∷ ("customer_id", text case.customer_id)
    ∷ ("amount_in_cents", nat case.amount_in_cents)
    ∷ ("currency", text case.currency)
    ∷ ("state", text (case_state_value case.state))
    ∷ ("risk_tier", text (risk_tier_value case.risk_tier))
    ∷ ("attempt_count", nat case.attempt_count)
    ∷ ("max_attempts", nat case.max_attempts)
    ∷ (
      "diagnosis",
      dict_of (
          ("diagnosis_code", text diagnosis.diagnosis_code)
          ∷ ("risk_score", float (pos diagnosis.risk_score))
          ∷ ("risk_tier", text (risk_tier_value diagnosis.risk_tier))
          ∷ ("is_recoverable", bool diagnosis.is_recoverable)
          ∷ ("recommended_channel", text (channel_value diagnosis.recommended_channel))
          ∷ []),
    )
    ∷ [])

-- The variables that the branches on the diagnosis set.
pub record Recommendation : Type 0 where
  pub recommended_action : ActionType
  pub parameters : Fields
  pub confidence_score : ℤ
  pub reasoning : String

-- `override_reasoning or default`
abbrev pub reasoning_or : Option String → String → String
reasoning_or none default = default
reasoning_or (some given) default = if given == "" then default else given

unfoldable pub recommend_nothing : RecoveryCase → Option String → Recommendation
recommend_nothing case override_reasoning = record {
  recommended_action = no_action;
  parameters = fields (
      ("channel", text (channel_value internal_system))
      ∷ ("reason", text "Recovery blocked by safety or fraud risk")
      ∷ ("amount_in_cents", nat 0)
      ∷ ("currency", text case.currency)
      ∷ []);
  confidence_score = pos 10000;
  reasoning =
      reasoning_or override_reasoning
        "Case classified as BLOCKED or non-recoverable; no recovery action recommended.";
}

unfoldable pub recommend_retry : RecoveryCase → DiagnosisResult → Option String → Recommendation
recommend_retry case diagnosis override_reasoning = record {
  recommended_action = retry_charge;
  parameters = fields (
      ("channel", text (channel_value direct_payment_gateway))
      ∷ ("amount_in_cents", nat case.amount_in_cents)
      ∷ ("currency", text case.currency)
      ∷ ("suggested_retry_delay_seconds", nat 3600)
      ∷ []);
  confidence_score = sub_ℕ 10000 diagnosis.risk_score;
  reasoning = reasoning_or override_reasoning (
      "Automated payment retry recommended via "
      & channel_value diagnosis.recommended_channel
      & ".");
}

unfoldable pub recommend_notification :
    RecoveryCase → DiagnosisResult → Option String → Recommendation
recommend_notification case diagnosis override_reasoning = record {
  recommended_action = send_notification;
  parameters = fields (
      ("channel", text (channel_value diagnosis.recommended_channel))
      ∷ ("amount_in_cents", nat case.amount_in_cents)
      ∷ ("currency", text case.currency)
      ∷ ("template_id", text ("tpl_" & lower diagnosis.diagnosis_code))
      ∷ []);
  confidence_score = sub_ℕ 10000 diagnosis.risk_score;
  reasoning = reasoning_or override_reasoning (
      "Customer notification recommended via " & channel_value diagnosis.recommended_channel & ".");
}

unfoldable pub recommend : RecoveryCase → DiagnosisResult → Option String → Recommendation
recommend case diagnosis override_reasoning =
    if eq_risk_tier case.risk_tier RiskTier.blocked || not diagnosis.is_recoverable
    then recommend_nothing case override_reasoning
    else if eq_channel diagnosis.recommended_channel direct_payment_gateway
    then recommend_retry case diagnosis override_reasoning
    else recommend_notification case diagnosis override_reasoning

-- What the fields of `DecisionArtifact` ask of an artifact.
unfoldable pub accepts_artifact : DecisionArtifact → Bool
accepts_artifact a =
    not (a.case_id == "")
    && not (a.model_version == "")
    && not (a.prompt_version == "")
    && not (a.tool_schema_version == "")
    && is_digest a.canonical_input_hash
    && leb_ℤ (pos 0) a.confidence_score
    && leb_ℤ a.confidence_score (pos 10000)
    && not (a.reasoning_summary == "")

-- The constructor: the mappings are frozen, and the hash is kept in small letters.
unfoldable pub artifact_of :
    Draw → RecoveryCase → Versions → String → Fields → Recommendation → DecisionArtifact
artifact_of draw case v hash snapshot r = record {
  artifact_id = draw.artifact_id;
  case_id = case.case_id;
  model_version = v.model_version;
  prompt_version = v.prompt_version;
  tool_schema_version = v.tool_schema_version;
  canonical_input_hash = lower hash;
  input_snapshot = freeze_fields snapshot;
  recommended_action = r.recommended_action;
  parameters = freeze_fields r.parameters;
  confidence_score = r.confidence_score;
  reasoning_summary = r.reasoning;
  created_at = draw.created_at;
}

abbrev pub validated : DecisionArtifact → Result Error DecisionArtifact
validated a = if accepts_artifact a then ok a else err validation_error

module _ (rt : Runtime) where
  unfoldable pub create_decision_artifact :
      Draw
      → RecoveryCase
      → DiagnosisResult
      → Versions
      → Option String
      → Result Error DecisionArtifact
  unfolding is_evaluable compute_canonical_input_hash
  create_decision_artifact draw case diagnosis versions override_reasoning =
      let snapshot = input_snapshot_of case diagnosis in
      let hash = compute_canonical_input_hash rt snapshot in
      if not (is_evaluable case)
      then err value_error
      else validated (
          artifact_of draw case versions hash snapshot
            (recommend case diagnosis override_reasoning))
