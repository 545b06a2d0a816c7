-- ===== src/Governance/Arbitrator/Outcome.antt =====
-- The outcome of an arbitration, from the decisions of the components that it asks.
use ai_revenue_recovery.Prelude.{ℕ, String, Option, some, ◌≡◌, ◌↔◌, refl, sym, ap, ◌∙◌, arith}
use ai_revenue_recovery.Prelude.Dict.{lookup}
use ai_revenue_recovery.Prelude.Exec.{Result, ok, err}
use ai_revenue_recovery.Foundation.Errors.{Error}
use ai_revenue_recovery.Foundation.Events.{RecoveryCase, frozen}
use ai_revenue_recovery.Foundation.Runtime.{Runtime}
use ai_revenue_recovery.Foundation.Audited.{log_event}
use ai_revenue_recovery.Recovery.Diagnosis.{DiagnosisResult}
use ai_revenue_recovery.AiDecision.Artifacts.{DecisionArtifact}
use ai_revenue_recovery.Governance.Policy
use ai_revenue_recovery.Governance.Policy.Verdict.{Permits, evaluate-Permits}
use ai_revenue_recovery.Governance.Scheduler.{Obligations, get_pending_obligations}
use ai_revenue_recovery.Governance.Arbitrator.Matrix.{
  SafetyVerdict, pass, ComplianceVerdict, approved, ExperimentAssignment, treatment, proceed, block,
  arbitrated,
}
use ai_revenue_recovery.Governance.Arbitrator.{
  ControlPlaneArbitrator, ArbitrationRecord, Ids, Verdict, evaluate_safety, evaluate_compliance,
  compliance_of, first_deferring, record_of, conclude, arbitrate, evaluated_payload,
}
use ai_revenue_recovery.Governance.Arbitrator.Gates.{
  HasPassed, IsClear, IsClear_iff, NoneDefers, compliance_of_iff, evaluate_safety-frame,
}

arbitrated_iff :
    (v : SafetyVerdict) (c : ComplianceVerdict) (e : ExperimentAssignment)
    → (arbitrated v c e ≡ proceed) ↔ ((v ≡ pass) × (c ≡ approved) × (e ≡ treatment))
unfolding arbitrated
arbitrated_iff v c e = (λ h. ground arith, λ h. ground arith)

module _ (rt : Runtime) (message : Error → String) (ids : Ids) (case : RecoveryCase)
    (diagnosis : DiagnosisResult) (decision : DecisionArtifact) (assignment : ExperimentAssignment)
    (policy_id : Option String) (now : ℕ) (s : ControlPlaneArbitrator) where
  abbrev run : Result Error ArbitrationRecord × ControlPlaneArbitrator
  run = arbitrate rt message ids case diagnosis decision assignment policy_id now s

  abbrev due : Obligations
  due = get_pending_obligations (some case.case_id) (some now) s.scheduler

  -- All that an action needs to proceed.
  pub record IsGoverned : Type 0 where
    pub clear : IsClear message case decision now s
    pub permitted :
        Permits rt case diagnosis decision
          (lookup (Policy.target_of rt policy_id) s.policy_engine.policies)
    pub undeferred : NoneDefers due
    pub treated : assignment ≡ treatment

  abbrev safety : Result Error Verdict
  safety = (evaluate_safety message case decision now s).0

  abbrev compliance : ComplianceVerdict × String
  compliance =
      compliance_of rt
        (Policy.evaluate rt ids.policy_event_id case diagnosis decision policy_id now
          s.policy_engine).0
        (first_deferring due)

  abbrev concluded : Verdict → ArbitrationRecord
  concluded v = record_of rt ids case decision assignment v compliance now

  returned_from :
      (found : Result Error Verdict)
      → safety ≡ found
      → (r : ArbitrationRecord) → run.0 ≡ ok r
      → (v : Verdict) × (safety ≡ ok v) × (r ≡ concluded v)
  unfolding arbitrate evaluate_compliance conclude
  returned_from (err e) p r h = absurd (ground arith)
  returned_from (ok v) p r h =
      (v, p, ground (arith, evaluate_safety-frame message case decision now s))

  passed_iff : (v : Verdict) → HasPassed (ok v) ↔ (v.0 ≡ pass)
  passed_iff (x, why) = ground arith

  outcome_of :
      (r : ArbitrationRecord) (v : Verdict)
      → r ≡ concluded v
      → r.arbitrated_outcome ≡ arbitrated v.0 compliance.0 assignment
  unfolding record_of
  outcome_of r v e = ap (λ r. r.arbitrated_outcome) e

  proceed_iff :
      (r : ArbitrationRecord) (v : Verdict)
      → safety ≡ ok v
      → r ≡ concluded v
      → (r.arbitrated_outcome ≡ proceed) ↔ IsGoverned
  proceed_iff r v p e =
      let matrix = arbitrated_iff v.0 compliance.0 assignment in
      let engine =
        (evaluate-Permits rt case diagnosis decision ids.policy_event_id now s.policy_engine
          policy_id).0 in
      let found =
        compliance_of_iff rt
          (Policy.evaluate rt ids.policy_event_id case diagnosis decision policy_id now
            s.policy_engine).0
          due in
      let clear = IsClear_iff message case decision now s in
      (
        λ h.
            let all = matrix.0 (sym (outcome_of r v e) ∙ h) in
            record {
              clear = clear.0 (rw p ((passed_iff v).1 all.0));
              permitted = engine.0 (found.0 all.1).0;
              undeferred = (found.0 all.1).1;
              treated = all.2;
            },
        λ g.
            outcome_of r v e
            ∙ matrix.1 (
              (passed_iff v).0 (rw p at (clear.1 g.clear)),
              found.1 (engine.1 g.permitted, g.undeferred),
              g.treated,
            ),
      )

  frozen-block :
      (r : ArbitrationRecord) (v : Verdict)
      → safety ≡ ok v
      → r ≡ concluded v
      → case.state ≡ frozen
      → r.arbitrated_outcome ≡ block
  unfolding evaluate_safety arbitrated
  frozen-block r v p e f = outcome_of r v e ∙ ground arith

  logged :
      (r : ArbitrationRecord)
      → run.0 ≡ ok r
      → run.1.audit
        ≡ log_event rt "ARBITRATION_EVALUATED" (evaluated_payload rt ids.event_id r now) now s.audit
  unfolding arbitrate evaluate_compliance conclude
  logged r h = ground (arith, evaluate_safety-frame message case decision now s)

  -- An arbitration that returns says PROCEED exactly if the case is not frozen, no kill switch
  -- covers the action, the channel's breaker admits it, the governor has room, the policy permits
  -- the decision, no cooling-off period or mandatory disclosure is due, and the case is in the
  -- treatment group. A frozen case is always blocked, and the record is logged as it is returned.
  pub arbitrate-IsGoverned :
      (r : ArbitrationRecord)
      → run.0 ≡ ok r
      → ((r.arbitrated_outcome ≡ proceed) ↔ IsGoverned)
        × (case.state ≡ frozen → r.arbitrated_outcome ≡ block)
        × (run.1.audit
            ≡ log_event rt "ARBITRATION_EVALUATED"
                (evaluated_payload rt ids.event_id r now)
                now
                s.audit)
  arbitrate-IsGoverned r h =
      let (v, p, e) = returned_from safety refl r h in
      (proceed_iff r v p e, frozen-block r v p e, logged r h)
