-- ===== src/Governance/Arbitrator/Gates.antt =====
-- The safety and compliance gates of an arbitration, each as its component decides it.
use ai_revenue_recovery.Prelude.{
  ℕ, String, true, false, none, [], ◌∷◌, ◌≡◌, ◌≢◌, ◌↔◌, inl, inr, refl, arith, Option-cases, All,
}
use ai_revenue_recovery.Prelude.Exec.{Result, ok, IsOk}
use ai_revenue_recovery.Foundation.Errors.{Error}
use ai_revenue_recovery.Foundation.Events.{RecoveryCase, frozen}
use ai_revenue_recovery.Foundation.Runtime.{Runtime}
use ai_revenue_recovery.Safety.KillSwitch
use ai_revenue_recovery.Safety.Registry
use ai_revenue_recovery.AiDecision.Artifacts.{DecisionArtifact}
use ai_revenue_recovery.Governance.Policy.Model.{PolicyEvaluationResult}
use ai_revenue_recovery.Governance.Scheduler.{Obligations}
use ai_revenue_recovery.Governance.Arbitrator.Matrix.{pass, approved}
use ai_revenue_recovery.Governance.Arbitrator.{
  ControlPlaneArbitrator, Verdict, query_of, target_of, channel_of, amount_in, check_amount,
  breaker_gate, capacity_gate, check_breaker_and_capacity, evaluate_safety, defers, first_deferring,
  compliance_of,
}

-- The call returned the verdict PASS.
abbrev pub HasPassed : Result Error Verdict → Type 0
HasPassed (ok (pass, why)) = Unit
HasPassed _ = ⊥

module _ (message : Error → String) (case : RecoveryCase) (decision : DecisionArtifact) (now : ℕ)
    (s : ControlPlaneArbitrator) where
  -- The case is not frozen, no kill switch covers the action, the channel's breaker admits it, and
  -- the governor has room for its amount.
  pub record IsClear : Type 0 where
    pub awake : case.state ≢ frozen
    pub uncovered :
        KillSwitch.get_active_switch_record (query_of case decision) s.kill_switch ≡ none
    pub healthy :
        (Registry.check_execution_allowed
          (target_of (channel_of decision))
          now
          s.circuit_breakers).0
        ≡ ok true
    pub capacity :
        IsOk (check_amount message (amount_in decision.parameters) now s.capacity_governor).0

  pub IsClear_iff : HasPassed (evaluate_safety message case decision now s).0 ↔ IsClear
  unfolding evaluate_safety check_breaker_and_capacity breaker_gate capacity_gate
  IsClear_iff = (
    λ h. record {
      awake = λ e. ground arith;
      uncovered = ground arith;
      healthy = ground arith;
      capacity = ground arith;
    },
    λ h. ground (arith, h.awake, h.uncovered, h.healthy, h.capacity),
  )

  -- An arbitration changes breakers, the governor's history and logs, and nothing else.
  pub evaluate_safety-frame :
      let after = (evaluate_safety message case decision now s).1 in
      (after.policy_engine ≡ s.policy_engine)
      × (after.scheduler ≡ s.scheduler)
      × (after.kill_switch ≡ s.kill_switch)
      × (after.audit ≡ s.audit)
  unfolding evaluate_safety check_breaker_and_capacity breaker_gate capacity_gate
  evaluate_safety-frame = (ground arith, ground arith, ground arith, ground arith)

-- No obligation among these is a cooling-off period or a mandatory disclosure.
abbrev pub NoneDefers : Obligations → Type 0
NoneDefers = All (λ o. defers o.obligation_type ≡ false)

first_deferring_iff : (os : Obligations) → (first_deferring os ≡ none) ↔ NoneDefers os
unfolding first_deferring
first_deferring_iff [] = (λ h. tt, λ h. refl)
first_deferring_iff (o ∷ os) =
    (λ h. ground (arith, first_deferring_iff os), λ h. ground (arith, first_deferring_iff os))

module _ (rt : Runtime) where
  pub compliance_of_iff :
      (r : PolicyEvaluationResult) (os : Obligations)
      → ((compliance_of rt r (first_deferring os)).0 ≡ approved)
        ↔ ((r.is_allowed ≡ true) × NoneDefers os)
  compliance_of_iff r os = elim (Option-cases (first_deferring os)) [
    | inl e ↦
        rw e (
          (
            λ h. ground (arith, first_deferring_iff os),
            λ h. ground (arith, first_deferring_iff os),
          ))
    | inr (o, e) ↦ rw e ((λ h. ground arith, λ h. ground (arith, first_deferring_iff os, h.1)))
  ]
