-- ===== src/Governance/Arbitrator/Starvation.antt =====
-- The probe that an arbitration takes from the breaker which the executor asks again.
use ai_revenue_recovery.Prelude.{ℕ, ◌+◌, String, Bool, Option, none, some, ◌≡◌, ◌≢◌, arith, ◌∙◌}
use ai_revenue_recovery.Prelude.Exec.{Result, IsOk}
use ai_revenue_recovery.Prelude.Dict.{lookup}
use ai_revenue_recovery.Foundation.Errors.{Error}
use ai_revenue_recovery.Foundation.Events.{RecoveryCase, frozen, channel_value}
use ai_revenue_recovery.Foundation.Runtime.{Runtime}
use ai_revenue_recovery.Recovery.Diagnosis.{DiagnosisResult}
use ai_revenue_recovery.AiDecision.Artifacts.{DecisionArtifact}
use ai_revenue_recovery.Safety.Breaker
use ai_revenue_recovery.Safety.Breaker.{CircuitBreaker}
use ai_revenue_recovery.Safety.Breaker.Probes.{IsSaturated}
use ai_revenue_recovery.Safety.KillSwitch
use ai_revenue_recovery.Safety.Registry
use ai_revenue_recovery.Safety.Registry.{Registry}
use ai_revenue_recovery.Execution.Idempotency.{ExecutionRequest}
use ai_revenue_recovery.Execution.Executor.{ActionExecutor, pass_gates}
use ai_revenue_recovery.Execution.Executor.Gates.{pass_gates-IsPassed}
use ai_revenue_recovery.Execution.Executor.Probe.{HasLastProbe, registry_probe_out}
use ai_revenue_recovery.Governance.Arbitrator.Matrix.{ExperimentAssignment}
use ai_revenue_recovery.Governance.Arbitrator.{
  ControlPlaneArbitrator, Ids, query_of, target_of, channel_of, evaluate_safety,
  evaluate_compliance, check_breaker_and_capacity, breaker_gate, capacity_gate, conclude, arbitrate,
}

registry_refuses :
    (key : String) (now : ℕ) (r : Registry) (b : CircuitBreaker)
    → lookup key r.breakers ≡ some b
    → IsSaturated b
    → ¬ IsOk (Registry.check_execution_allowed key now r).0
unfolding Registry.check_execution_allowed Registry.get_or_create Breaker.check_execution_allowed
registry_refuses key now r b found h k = ground (arith, h, rw found at k)

module _ (rt : Runtime) (message : Error → String) (ids : Ids) (case : RecoveryCase)
    (diagnosis : DiagnosisResult) (decision : DecisionArtifact) (assignment : ExperimentAssignment)
    (policy_id : Option String) (now : ℕ) (s : ControlPlaneArbitrator) where
  abbrev pub after : ControlPlaneArbitrator
  after = (arbitrate rt message ids case diagnosis decision assignment policy_id now s).1

  asks_breaker :
      case.state ≢ frozen
      → KillSwitch.get_active_switch_record (query_of case decision) s.kill_switch ≡ none
      → after.circuit_breakers
        ≡ (Registry.check_execution_allowed
            (target_of (channel_of decision))
            now
            s.circuit_breakers).1
  unfolding arbitrate evaluate_safety check_breaker_and_capacity breaker_gate capacity_gate
      evaluate_compliance conclude
  asks_breaker awake uncovered = ground (arith, awake, uncovered)

  -- Where the breaker of an action's channel is half-open with its last probe left, an arbitration
  -- that is neither frozen nor switched off takes that probe, whatever its outcome: an executor
  -- with the same breakers then lets no request on the channel through its gates.
  pub arbitrate-starves :
      (b : CircuitBreaker)
      → case.state ≢ frozen
      → KillSwitch.get_active_switch_record (query_of case decision) s.kill_switch ≡ none
      → lookup (target_of (channel_of decision)) s.circuit_breakers.breakers ≡ some b
      → HasLastProbe b
      → (check_egress_allowed : String → Result Error Bool) (request : ExecutionRequest) (later : ℕ)
        (executor : ActionExecutor)
      → channel_value request.channel ≡ target_of (channel_of decision)
      → executor.circuit_breakers ≡ after.circuit_breakers
      → ¬ IsOk (pass_gates check_egress_allowed request later executor).0
  arbitrate-starves b awake uncovered found h check_egress_allowed request later executor same
        shared passed =
      let key = target_of (channel_of decision) in
      let shared_after = shared ∙ asks_breaker awake uncovered in
      let asked =
        (pass_gates-IsPassed check_egress_allowed request later executor passed).healthy in
      registry_refuses key later (Registry.check_execution_allowed key now s.circuit_breakers).1
        (record b { active_half_open_probes = b.active_half_open_probes + 1 })
        (registry_probe_out key now s.circuit_breakers b found h) (h.state, omega (arith, h.last))
        (rw (same, shared_after) at asked)
