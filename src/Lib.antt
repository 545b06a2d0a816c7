-- ===== src/Lib.antt =====
-- Verification library of the AI revenue recovery system, a Python program that takes failed
-- payments through diagnosis, governance, bounded execution and reconciliation.
--
-- The parts, and the file that models each (paths from the repository's root):
--
-- - src/revenue_recovery/foundation/events.py: Foundation/Events, the enums with their values and
--   the records PaymentFailureEvent, RecoveryCase and ComplianceObligation. The exceptions of all
--   components are in Foundation/Errors.
-- - src/revenue_recovery/foundation/audit.py: Foundation/Value (freeze_payload, _to_serializable)
--   and Foundation/Audit (append, verify_chain_integrity), with proofs in Audit/Chain and
--   Audit/Tamper. Foundation/Audited is the optional logger that the components hold.
-- - src/revenue_recovery/foundation/config.py: Foundation/Config, the forbidden production domains
--   only.
-- - src/revenue_recovery/safety/circuit_breaker.py: Safety/Breaker (CircuitBreaker),
--   Safety/Registry (GranularCircuitBreakerRegistry) and Safety/Capacity (CapacityGovernor).
-- - src/revenue_recovery/safety/kill_switch.py: Safety/KillSwitch (KillSwitchManager).
-- - src/revenue_recovery/safety/authorizer.py: Safety/Authorizer (mint_authorization,
--   verify_authorization; the signed parameters of a token are the record Grant).
-- - src/revenue_recovery/executor: Execution/Idempotency (idempotency.py), Execution/Executor
--   (execute_action of executor.py) and Execution/SandboxGuard (sandbox_guard.py). The executor
--   holds a kill switch, a breaker registry, a capacity governor, a store and a log and calls
--   their methods in the order of its gates; the sandbox guard and the handler are arguments, as
--   they are injected in the program; SandboxGuard/Confinement puts the guard in. Executor/Answers
--   says which answers of a handler become a result.
-- - src/revenue_recovery/reconciliation: Reconciliation/Ledger (ledger.py) and
--   Reconciliation/Handler (dispute_handler.py), which posts on its ledger.
-- - src/revenue_recovery/recovery_engine/case_manager.py: Recovery/Cases (CaseManager), and
--   diagnosis.py beside it: Recovery/Diagnosis.
-- - src/revenue_recovery/ai_decision: AiDecision/Artifacts (artifacts.py, create_decision_artifact
--   with the validators of its record) and AiDecision/Engine (engine.py, the deterministic
--   provider and evaluate_case for any provider).
-- - src/revenue_recovery/governance/policy_engine.py: Governance/Policy (PolicyEngine), with its
--   records and the default policy in Policy/Model and _evaluate_rule in Policy/Rules.
-- - src/revenue_recovery/governance/scheduler.py: Governance/Scheduler (ComplianceScheduler). Its
--   sort is the stable sort of Prelude/Sorting.
-- - src/revenue_recovery/governance/arbitrator.py: Governance/Arbitrator (ControlPlaneArbitrator),
--   which asks a kill switch, a breaker registry, a capacity governor and a scheduler, with the
--   verdicts and the matrix in Arbitrator/Matrix.
-- - src/revenue_recovery/evidence: Evidence/Experiment (ExperimentEngine of experiment.py) and
--   Evidence/Engine (EvidenceEngine of evidence_engine.py, which reads a ledger), with
--   ExperimentAssignment in Governance/Arbitrator/Matrix, as in the program.
--
-- A method of an object is a function from the object's record to its result and the new record,
-- which comes back beside an exception too (Prelude/Exec); a lock makes a method one step. A
-- function has the name of the method it models, without a leading underscore. A dict keyed by
-- texts is an association list in insertion order (Prelude/Dict). A datetime is a number of
-- microseconds, and the current time is an argument. An amount that the source may be given below
-- 0 is an integer (Prelude/Int), any other a natural number. A risk score or a confidence, a float
-- between 0 and 1, is counted in ten-thousandths; the floats of an experiment and their arithmetic
-- are those of Doubles, and of the evidence those of Rates, both parameters. The text of an
-- exception is an argument where a record keeps it. SHA-256, HMAC, isoformat, pydantic's JSON text
-- of a datetime, json.dumps and str are the fields of Runtime (Foundation/Runtime), a parameter;
-- urlparse, ip_address and the resolver are those of Net (Execution/SandboxGuard). Random ids are
-- arguments, or drawn by one where a loop makes several. str.upper, str.lower and str.strip are
-- modelled on ASCII text (Prelude/Text); str of a number (Prelude/Decimal) recurses on fuel one
-- above the number, more than its count of digits.
--
-- Not modelled: the configuration apart from the forbidden domains, since it is read from the
-- environment once, by regular expressions; the simulators, which stand for outside services; the
-- default resolver, a call of the socket library; logging and printing; a log that several
-- components share, which here each have their own; interleavings inside a method. A method holds
-- its lock from its first read to its last write, but execute_action checks its token before it
-- takes the lock, unfreeze_case reads the case before transition_case takes it, and another thread
-- may change a shared kill switch, breaker or governor between two gates.
--
-- Runs on concrete inputs are in Examples.
pub mod Prelude
pub mod Foundation
pub mod Safety
pub mod Recovery
pub mod AiDecision
pub mod Governance
pub mod Reconciliation
pub mod Execution
pub mod Evidence
pub mod Examples
