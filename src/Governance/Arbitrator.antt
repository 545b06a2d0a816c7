-- ===== src/Governance/Arbitrator.antt =====
-- src/revenue_recovery/governance/arbitrator.py. `message` is the text of a caught exception. An
-- action's channel is a text or missing, and its amount an integer or missing: the model raises a
-- TypeError for any other amount.
pub mod Matrix
pub mod Gates
pub mod Outcome
pub mod Starvation
use ai_revenue_recovery.Prelude.{
  ℕ, String, Bool, true, false, Option, none, some, List, [], ◌∷◌, ◌==◌, not, ◌&&◌, ◌||◌,
  if◌then◌else◌, lower,
}
use ai_revenue_recovery.Prelude.Int.{ℤ, pos}
use ai_revenue_recovery.Prelude.Exec.{Result, ok, err, Exec, pure, raise, zoom, ◌>>=◌, ◌>>◌}
use ai_revenue_recovery.Foundation.Errors.{
  Error, type_error, validation_error, circuit_broken, capacity_exceeded,
}
use ai_revenue_recovery.Foundation.Events.{
  RecoveryCase, frozen, eq_case_state, ComplianceObligation, ObligationType, mandatory_disclosure,
  cooling_off, retry_window, consent_check, obligation_type_value, action_type_value,
}
use ai_revenue_recovery.Foundation.Value.{
  Value, Fields, null, bool, int, text, end, field, dict, dict_of, fields, get,
}
use ai_revenue_recovery.Foundation.Runtime.{Runtime}
use ai_revenue_recovery.Foundation.Audit.{AuditLog, canonical_json, ◌&◌}
use ai_revenue_recovery.Foundation.Audited.{log_event}
use ai_revenue_recovery.Safety.KillSwitch
use ai_revenue_recovery.Safety.KillSwitch.{KillSwitchManager, KillSwitchRecord, Query}
use ai_revenue_recovery.Safety.Registry
use ai_revenue_recovery.Safety.Registry.{Registry}
use ai_revenue_recovery.Safety.Capacity
use ai_revenue_recovery.Safety.Capacity.{CapacityGovernor}
use ai_revenue_recovery.Recovery.Diagnosis.{DiagnosisResult}
use ai_revenue_recovery.AiDecision.Artifacts.{DecisionArtifact, is_digest}
use ai_revenue_recovery.Governance.Policy
use ai_revenue_recovery.Governance.Policy.{PolicyEngine}
use ai_revenue_recovery.Governance.Policy.Model.{PolicyEvaluationResult}
use ai_revenue_recovery.Governance.Policy.Rules.{as_int}
use ai_revenue_recovery.Governance.Scheduler.{
  ComplianceScheduler, Obligations, get_pending_obligations,
}
use ai_revenue_recovery.Governance.Arbitrator.Matrix.{
  SafetyVerdict, pass, circuit_broken as breaker_open, kill_switch_active,
  capacity_exceeded as over_capacity, ComplianceVerdict, approved, blocked, deferred,
  ExperimentAssignment, ArbitratedOutcome, safety_value, compliance_value, experiment_value,
  outcome_value, arbitrated, rationale_of,
}

pub record ControlPlaneArbitrator : Type 0 where
  pub policy_engine : PolicyEngine
  pub scheduler : ComplianceScheduler
  pub kill_switch : KillSwitchManager
  pub circuit_breakers : Registry
  pub capacity_governor : CapacityGovernor
  pub audit : Option AuditLog

pub record ArbitrationRecord : Type 0 where
  pub arbitration_id : String
  pub case_id : String
  pub decision_artifact_id : String
  pub safety_verdict : SafetyVerdict
  pub compliance_verdict : ComplianceVerdict
  pub experiment_assignment : ExperimentAssignment
  pub arbitrated_outcome : ArbitratedOutcome
  pub arbitration_hash : String
  pub rationale : String
  pub created_at : ℕ

-- The random ids that one call draws.
pub record Ids : Type 0 where
  pub arbitration_id : String
  pub event_id : String
  pub policy_event_id : String

-- `decision.parameters.get("channel")`
abbrev pub text_of : Value → Option String
text_of (text s) = some s
text_of _ = none

abbrev pub channel_of : DecisionArtifact → Option String
channel_of decision = text_of (get "channel" decision.parameters)

-- `channel_val or "GLOBAL"`
abbrev pub target_of : Option String → String
target_of none = "GLOBAL"
target_of (some channel) = if channel == "" then "GLOBAL" else channel

-- `decision.parameters.get("amount_in_cents", 0)`, where it is a number.
unfoldable pub amount_in : Fields → Option ℤ
amount_in end = some (pos 0)
amount_in (field key v fs) =
    let rest = amount_in fs in if key == "amount_in_cents" then as_int v else rest

abbrev pub query_of : RecoveryCase → DecisionArtifact → Query
query_of case decision = record {
  action_type_value = some (action_type_value decision.recommended_action);
  channel = channel_of decision;
  customer_id = some case.customer_id;
  case_id = some case.case_id;
}

abbrev pub Verdict : Type 0
Verdict = SafetyVerdict × String

-- A check that raises an exception which `_evaluate_safety` catches.
abbrev pub breaker_verdict :
    (Error → String) → String → Result Error Bool → Result Error (Option Verdict)
breaker_verdict message target (ok true) = ok none
breaker_verdict message target (ok false) =
    ok (some (breaker_open, "Circuit breaker for channel '" & target & "' is OPEN or saturated."))
breaker_verdict message target (err (circuit_broken t state tripped)) = ok (
    some (
      breaker_open,
      "Circuit breaker for channel '"
          & target
          & "' is OPEN: "
          & message (circuit_broken t state tripped),
    ))
breaker_verdict message target (err e) = err e

abbrev pub capacity_verdict : (Error → String) → Result Error Bool → Result Error (Option Verdict)
capacity_verdict message (ok _) = ok none
capacity_verdict message (err (capacity_exceeded n max_n v max_v)) =
    ok (some (over_capacity, message (capacity_exceeded n max_n v max_v)))
capacity_verdict message (err e) = err e

module _ (message : Error → String) where
  unfoldable pub breaker_gate : String → ℕ → Exec Error ControlPlaneArbitrator (Option Verdict)
  breaker_gate target now s =
      let (r, breakers) = Registry.check_execution_allowed target now s.circuit_breakers in
      (breaker_verdict message target r, record s { circuit_breakers = breakers })

  abbrev pub check_amount : Option ℤ → ℕ → Exec Error CapacityGovernor Bool
  check_amount none now g = (err type_error, g)
  check_amount (some amount) now g = Capacity.check_capacity_available amount now g

  unfoldable pub capacity_gate :
      DecisionArtifact → ℕ → Exec Error ControlPlaneArbitrator (Option Verdict)
  unfolding amount_in
  capacity_gate decision now s =
      let (r, governor) = check_amount (amount_in decision.parameters) now s.capacity_governor in
      (capacity_verdict message r, record s { capacity_governor = governor })

  -- An early return.
  abbrev pub or_next :
      Option Verdict
      → Exec Error ControlPlaneArbitrator Verdict
      → Exec Error ControlPlaneArbitrator Verdict
  or_next (some verdict) next = pure verdict
  or_next none next = next

  -- Gates 3 and 4.
  unfoldable pub check_breaker_and_capacity :
      DecisionArtifact → ℕ → Exec Error ControlPlaneArbitrator Verdict
  unfolding breaker_gate capacity_gate
  check_breaker_and_capacity decision now = do
    found ← breaker_gate (target_of (channel_of decision)) now
    or_next found
        (do over ← capacity_gate decision now; or_next over (pure (pass, "Safety controls clear.")))

  abbrev pub switched :
      Option KillSwitchRecord
      → Exec Error ControlPlaneArbitrator Verdict
      → Exec Error ControlPlaneArbitrator Verdict
  switched (some switch) next = pure (kill_switch_active, "Kill switch active: " & switch.reason)
  switched none next = next

  unfoldable pub evaluate_safety :
      RecoveryCase → DecisionArtifact → ℕ → Exec Error ControlPlaneArbitrator Verdict
  unfolding check_breaker_and_capacity
  evaluate_safety case decision now s =
      if eq_case_state case.state frozen
      then (
        ok (
          kill_switch_active,
          "Case '" & case.case_id & "' is in FROZEN state. Safety freeze blocks recovery.",
        ),
        s,
      )
      else switched (KillSwitch.get_active_switch_record (query_of case decision) s.kill_switch)
          (check_breaker_and_capacity decision now) s

-- `"; ".join(violated_rules)`
unfoldable pub join : List String → String
join [] = ""
join (s ∷ []) = s
join (s ∷ t ∷ ts) = s & "; " & join (t ∷ ts)

abbrev pub defers : ObligationType → Bool
defers cooling_off = true
defers mandatory_disclosure = true
defers _ = false

-- The loop over the obligations that are due.
unfoldable pub first_deferring : Obligations → Option ComplianceObligation
first_deferring [] = none
first_deferring (o ∷ os) =
    let rest = first_deferring os in if defers o.obligation_type then some o else rest

module _ (rt : Runtime) where
  abbrev pub compliance_of :
      PolicyEvaluationResult → Option ComplianceObligation → ComplianceVerdict × String
  compliance_of r found =
      if not r.is_allowed
      then (blocked, "Policy Engine rejected decision: " & join r.violated_rules)
      else elim found [
        | none ↦ (approved, "Policy and compliance requirements satisfied.")
        | some o ↦ (
          deferred,
          "Compliance obligation '"
              & obligation_type_value o.obligation_type
              & "' ("
              & o.obligation_id
              & ") is active until "
              & rt.isoformat o.scheduled_time
              & ".",
        )
      ]

  -- The obligations are asked for only if the policy allows; the query changes nothing.
  unfoldable pub evaluate_compliance :
      String
      → RecoveryCase
      → DiagnosisResult
      → DecisionArtifact
      → Option String
      → ℕ
      → Exec Error ControlPlaneArbitrator (ComplianceVerdict × String)
  unfolding first_deferring
  evaluate_compliance event_id case diagnosis decision policy_id now s =
      let (r, engine) =
        Policy.evaluate rt event_id case diagnosis decision policy_id now s.policy_engine in
      let due = get_pending_obligations (some case.case_id) (some now) s.scheduler in
      (ok (compliance_of r (first_deferring due)), record s { policy_engine = engine })

  unfoldable pub arbitration_payload :
      RecoveryCase
      → DecisionArtifact
      → SafetyVerdict
      → ComplianceVerdict
      → ExperimentAssignment
      → Fields
  arbitration_payload case decision safety compliance assignment = fields (
      ("case_id", text case.case_id)
      ∷ ("decision_artifact_id", text decision.artifact_id)
      ∷ ("safety_verdict", text (safety_value safety))
      ∷ ("compliance_verdict", text (compliance_value compliance))
      ∷ ("experiment_assignment", text (experiment_value assignment))
      ∷ ("arbitrated_outcome", text (outcome_value (arbitrated safety compliance assignment)))
      ∷ ("canonical_input_hash", text decision.canonical_input_hash)
      ∷ ("recommended_action", text (action_type_value decision.recommended_action))
      ∷ [])

  unfoldable pub compute_canonical_arbitration_hash : Fields → String
  compute_canonical_arbitration_hash payload = rt.sha256 (canonical_json rt (dict payload))

  unfoldable pub record_of :
      Ids
      → RecoveryCase
      → DecisionArtifact
      → ExperimentAssignment
      → Verdict
      → ComplianceVerdict × String
      → ℕ
      → ArbitrationRecord
  unfolding compute_canonical_arbitration_hash
  record_of ids case decision assignment (safety, why_safety) (compliance, why_compliance) now =
      record {
        arbitration_id = ids.arbitration_id;
        case_id = case.case_id;
        decision_artifact_id = decision.artifact_id;
        safety_verdict = safety;
        compliance_verdict = compliance;
        experiment_assignment = assignment;
        arbitrated_outcome = arbitrated safety compliance assignment;
        arbitration_hash = lower (
            compute_canonical_arbitration_hash
              (arbitration_payload case decision safety compliance assignment));
        rationale = rationale_of safety compliance assignment why_safety why_compliance;
        created_at = now;
      }

  -- What the fields of `ArbitrationRecord` ask.
  unfoldable pub accepts_record : ArbitrationRecord → Bool
  accepts_record r =
      not (r.case_id == "")
      && not (r.decision_artifact_id == "")
      && is_digest r.arbitration_hash
      && not (r.rationale == "")

  unfoldable pub evaluated_payload : String → ArbitrationRecord → ℕ → Value
  evaluated_payload event_id r now = dict_of (
      ("event_id", text event_id)
      ∷ ("case_id", text r.case_id)
      ∷ ("arbitration_id", text r.arbitration_id)
      ∷ ("verdict", text (outcome_value r.arbitrated_outcome))
      ∷ ("experiment_state", text (experiment_value r.experiment_assignment))
      ∷ ("arbitration_hash", text r.arbitration_hash)
      ∷ ("occurred_at", text (rt.json_datetime now))
      ∷ [])

  -- Steps 4 and 5.
  unfoldable pub conclude :
      String → ArbitrationRecord → ℕ → Exec Error ControlPlaneArbitrator ArbitrationRecord
  conclude event_id r now s =
      if accepts_record r
      then (
        ok r,
        record s {
          audit =
              log_event rt "ARBITRATION_EVALUATED" (evaluated_payload event_id r now) now s.audit;
        },
      )
      else (err validation_error, s)

  unfoldable pub arbitrate :
      (Error → String)
      → Ids
      → RecoveryCase
      → DiagnosisResult
      → DecisionArtifact
      → ExperimentAssignment
      → Option String
      → ℕ
      → Exec Error ControlPlaneArbitrator ArbitrationRecord
  unfolding evaluate_safety evaluate_compliance conclude
  arbitrate message ids case diagnosis decision assignment policy_id now = do
    safety ← evaluate_safety message case decision now
    compliance ← evaluate_compliance ids.policy_event_id case diagnosis decision policy_id now
    conclude ids.event_id (record_of ids case decision assignment safety compliance now) now
