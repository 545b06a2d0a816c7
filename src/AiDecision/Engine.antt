-- ===== src/AiDecision/Engine.antt =====
-- src/revenue_recovery/ai_decision/engine.py. The provider is an injected object and an argument;
-- the state of the engine is its audit log.
pub mod Accountability
use Prim.Native.String.{count}
use ai_revenue_recovery.Prelude.{
  ℕ, String, Bool, Option, none, some, List, [], ◌∷◌, ◌==◌, eqb, not, ◌&&◌, if◌then◌else◌,
}
use ai_revenue_recovery.Prelude.Exec.{Result, ok, err, Exec}
use ai_revenue_recovery.Foundation.Errors.{Error, value_error, validation_error}
use ai_revenue_recovery.Foundation.Events.{RecoveryCase, action_type_value}
use ai_revenue_recovery.Foundation.Value.{Value, text, dict_of}
use ai_revenue_recovery.Foundation.Runtime.{Runtime}
use ai_revenue_recovery.Foundation.Audit.{AuditLog}
use ai_revenue_recovery.Foundation.Audited.{log_event}
use ai_revenue_recovery.Recovery.Diagnosis.{DiagnosisResult}
use ai_revenue_recovery.AiDecision.Artifacts.{
  DecisionArtifact, Draw, Versions, create_decision_artifact, compute_canonical_input_hash,
  is_evaluable,
}

-- `AIModelProvider`: its one method, which may raise.
abbrev pub Provider : Type 0
Provider = RecoveryCase → DiagnosisResult → ℕ → Result Error DecisionArtifact

module _ (rt : Runtime) where
  -- `DeterministicAIProvider`: the current time is not used.
  unfoldable pub generate_recommendation : Draw → Versions → Provider
  generate_recommendation draw versions case diagnosis current_time =
      create_decision_artifact rt draw case diagnosis versions none

  unfoldable pub created_payload : String → DecisionArtifact → ℕ → Value
  created_payload event_id a now = dict_of (
      ("event_id", text event_id)
      ∷ ("artifact_id", text a.artifact_id)
      ∷ ("case_id", text a.case_id)
      ∷ ("canonical_input_hash", text a.canonical_input_hash)
      ∷ ("model_version", text a.model_version)
      ∷ ("recommended_action", text (action_type_value a.recommended_action))
      ∷ ("occurred_at", text (rt.json_datetime now))
      ∷ [])

  -- What the fields of `DecisionArtifactCreatedEvent` ask of the artifact.
  unfoldable pub accepts_event : DecisionArtifact → Bool
  accepts_event a =
      not (a.artifact_id == "")
      && not (a.case_id == "")
      && eqb (count a.canonical_input_hash) 64
      && not (a.model_version == "")

  -- The event is built, and can fail, only if a logger is attached.
  unfoldable pub record_created :
      String → DecisionArtifact → ℕ → Exec Error (Option AuditLog) DecisionArtifact
  record_created event_id a now none = (ok a, none)
  record_created event_id a now (some log) =
      if accepts_event a
      then (
        ok a,
        log_event rt "DECISION_ARTIFACT_CREATED" (created_payload event_id a now) now (some log),
      )
      else (err validation_error, some log)

  abbrev pub check_and_record :
      Result Error DecisionArtifact → String → ℕ → Exec Error (Option AuditLog) DecisionArtifact
  check_and_record (err e) event_id now audit = (err e, audit)
  check_and_record (ok a) event_id now audit =
      if not (a.canonical_input_hash == compute_canonical_input_hash rt a.input_snapshot)
      then (err value_error, audit)
      else record_created event_id a now audit

  unfoldable pub evaluate_case :
      Provider
      → String
      → RecoveryCase
      → DiagnosisResult
      → ℕ
      → Exec Error (Option AuditLog) DecisionArtifact
  unfolding record_created
  evaluate_case provider event_id case diagnosis now audit =
      if not (is_evaluable case)
      then (err value_error, audit)
      else check_and_record (provider case diagnosis now) event_id now audit
