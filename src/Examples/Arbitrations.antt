-- ===== src/Examples/Arbitrations.antt =====
-- An arbitration that lets an action proceed, and the probe that it takes from the executor.
use ai_revenue_recovery.Prelude.{
  ℕ, String, Bool, true, false, Option, none, some, List, [], ◌∷◌, ◌≡◌, ◌↔◌, refl, arith,
}
use ai_revenue_recovery.Prelude.Exec.{ok, IsOk}
use ai_revenue_recovery.Foundation.Errors.{Error}
use ai_revenue_recovery.Foundation.Events.{frozen}
use ai_revenue_recovery.Foundation.Value.{fields, text, nat}
use ai_revenue_recovery.Foundation.Audited.{log_event}
use ai_revenue_recovery.AiDecision.Artifacts.{DecisionArtifact}
use ai_revenue_recovery.Safety.Breaker.{CircuitBreaker}
use ai_revenue_recovery.Safety.KillSwitch
use ai_revenue_recovery.Execution.Executor.{pass_gates}
use ai_revenue_recovery.Governance.Arbitrator.Matrix.{pass, approved, treatment, proceed, block}
use ai_revenue_recovery.Governance.Arbitrator.{
  ControlPlaneArbitrator, ArbitrationRecord, Ids, arbitrate, evaluated_payload,
}
use ai_revenue_recovery.Governance.Arbitrator.Outcome.{IsGoverned, arbitrate-IsGoverned}
use ai_revenue_recovery.Governance.Arbitrator.Starvation.{after, arbitrate-starves}
use ai_revenue_recovery.Examples.Logs.{runtime, ones}
use ai_revenue_recovery.Examples.Decisions.{case, diagnosis, decision, engine}
use ai_revenue_recovery.Examples.Executions.{executor, healthy, probing, request, allow_all}

abbrev ids : Ids
ids = record { arbitration_id = "r1"; event_id = "v1"; policy_event_id = "v2" }

abbrev message : Error → String
message e = "refused"

abbrev mail : DecisionArtifact
mail = record decision {
  parameters = fields (("channel", text "EMAIL") ∷ ("amount_in_cents", nat 300) ∷ []);
}

abbrev arbitrator : CircuitBreaker → ControlPlaneArbitrator
arbitrator b = record {
  policy_engine = record engine { audit = none };
  scheduler = record { store = []; audit = none };
  kill_switch = KillSwitch.new;
  circuit_breakers = (executor b).circuit_breakers;
  capacity_governor = (executor b).capacity_governor;
  audit = none;
}

abbrev expected : ArbitrationRecord
expected = record {
  arbitration_id = "r1";
  case_id = "c1";
  decision_artifact_id = "a1";
  safety_verdict = pass;
  compliance_verdict = approved;
  experiment_assignment = treatment;
  arbitrated_outcome = proceed;
  arbitration_hash = ones;
  rationale =
      "All governance gates passed: Safety PASS, Compliance APPROVED, Experiment TREATMENT.";
  created_at = 7;
}

arbitrate_runs :
    (arbitrate runtime message ids case diagnosis mail treatment none 7 (arbitrator healthy)).0
    ≡ ok expected
unfolding arbitrate ai_revenue_recovery.Governance.Policy.evaluate
    ai_revenue_recovery.Prelude.Dict.lookup ai_revenue_recovery.Prelude.Dict.insert
    ai_revenue_recovery.Governance.Policy.decided
    ai_revenue_recovery.Governance.Policy.evaluate_rules ai_revenue_recovery.Prelude.Sorting.sort
    ai_revenue_recovery.Governance.Policy.active ai_revenue_recovery.Prelude.Sorting.insert_sorted
    ai_revenue_recovery.Governance.Policy.Rules.evaluate_rule
    ai_revenue_recovery.Governance.Policy.Rules.breaks
    ai_revenue_recovery.Governance.Policy.Rules.breaks_fraud_block
    ai_revenue_recovery.Governance.Policy.Rules.breaks_max_attempts_limit
    ai_revenue_recovery.Governance.Policy.Rules.breaks_non_recoverable_block
    ai_revenue_recovery.Governance.Policy.Rules.breaks_safety_freeze_guard
    ai_revenue_recovery.Governance.Policy.Rules.breaks_action_amount_bound
    ai_revenue_recovery.Foundation.Value.get
    ai_revenue_recovery.Governance.Policy.Rules.breaks_high_risk_channel_restriction
    ai_revenue_recovery.Governance.Policy.Rules.breaks_min_confidence_threshold
    ai_revenue_recovery.Governance.Policy.Rules.breaks_model_version_freshness
    ai_revenue_recovery.Governance.Policy.record_audit_event
    ai_revenue_recovery.Foundation.Audited.log_event
    ai_revenue_recovery.Safety.KillSwitch.get_active_switch_record
    ai_revenue_recovery.Safety.Registry.check_execution_allowed
    ai_revenue_recovery.Safety.Breaker.check_execution_allowed
    ai_revenue_recovery.Safety.Capacity.check_capacity_available
    ai_revenue_recovery.Governance.Scheduler.get_pending_obligations
    ai_revenue_recovery.Governance.Arbitrator.record_of
    ai_revenue_recovery.Governance.Arbitrator.accepts_record
    ai_revenue_recovery.Governance.Arbitrator.Matrix.arbitrated
    ai_revenue_recovery.Governance.Arbitrator.Matrix.rationale_of
    ai_revenue_recovery.AiDecision.Artifacts.is_digest ai_revenue_recovery.Prelude.lower
    ai_revenue_recovery.Prelude.is_hex ai_revenue_recovery.Prelude.strip
    ai_revenue_recovery.Governance.Arbitrator.evaluate_safety
    ai_revenue_recovery.Governance.Arbitrator.evaluate_compliance
    ai_revenue_recovery.Governance.Arbitrator.conclude
    ai_revenue_recovery.Governance.Arbitrator.compute_canonical_arbitration_hash
    ai_revenue_recovery.Governance.Arbitrator.arbitration_payload
    ai_revenue_recovery.Foundation.Audit.canonical_json
    ai_revenue_recovery.Foundation.Value.to_serializable
    ai_revenue_recovery.Governance.Arbitrator.amount_in
arbitrate_runs = refl

arbitrate-IsGoverned_example :
    ((expected.arbitrated_outcome ≡ proceed)
      ↔ IsGoverned runtime message ids case diagnosis mail treatment none 7 (arbitrator healthy))
    × (case.state ≡ frozen → expected.arbitrated_outcome ≡ block)
    × ((arbitrate runtime message ids case diagnosis mail treatment none 7
          (arbitrator healthy)).1.audit
        ≡ log_event runtime "ARBITRATION_EVALUATED"
            (evaluated_payload runtime "v1" expected 7)
            7
            none)
arbitrate-IsGoverned_example =
    arbitrate-IsGoverned runtime message ids case diagnosis mail treatment none 7
      (arbitrator healthy) expected arbitrate_runs

arbitrate-starves_example :
    ¬ IsOk
      (pass_gates allow_all request 8 (record (executor probing) {
        circuit_breakers =
            (after runtime message ids case diagnosis mail treatment none 7
              (arbitrator probing)).circuit_breakers;
      })).0
unfolding KillSwitch.get_active_switch_record ai_revenue_recovery.Prelude.Dict.lookup
    ai_revenue_recovery.Foundation.Value.get
arbitrate-starves_example =
    arbitrate-starves runtime message ids case diagnosis mail treatment none 7 (arbitrator probing)
      probing (λ e. ground arith) refl refl (record { state = refl; last = refl }) allow_all request
      8 _ refl refl
