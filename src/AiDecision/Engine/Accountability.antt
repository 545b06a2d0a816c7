-- ===== src/AiDecision/Engine/Accountability.antt =====
-- When the decision engine returns an artifact, and what it logs, whatever the provider is.
use ai_revenue_recovery.Prelude.{
  ℕ, String, true, Option, none, some, ◌≡◌, ◌⊎◌, ◌↔◌, inl, inr, refl, arith, Bool-cases, eq_iff,
  ◌==◌,
}
use ai_revenue_recovery.Prelude.Exec.{Result, ok, err}
use ai_revenue_recovery.Foundation.Errors.{Error}
use ai_revenue_recovery.Foundation.Events.{RecoveryCase}
use ai_revenue_recovery.Foundation.Runtime.{Runtime}
use ai_revenue_recovery.Foundation.Audit.{AuditLog}
use ai_revenue_recovery.Foundation.Audited.{log_event}
use ai_revenue_recovery.Recovery.Diagnosis.{DiagnosisResult}
use ai_revenue_recovery.AiDecision.Artifacts.{
  DecisionArtifact, compute_canonical_input_hash, is_evaluable,
}
use ai_revenue_recovery.AiDecision.Artifacts.Routing.{IsEvaluable, is_evaluable_iff}
use ai_revenue_recovery.AiDecision.Engine.{
  Provider, evaluate_case, record_created, check_and_record, accepts_event, created_payload,
}

module _ (rt : Runtime) (event_id : String) (now : ℕ) where
  abbrev pub logged : Option AuditLog → DecisionArtifact → Option AuditLog
  logged audit a =
      log_event rt "DECISION_ARTIFACT_CREATED" (created_payload rt event_id a now) now audit

  abbrev pub HasHash : DecisionArtifact → Type 0
  HasHash a = a.canonical_input_hash ≡ compute_canonical_input_hash rt a.input_snapshot

  abbrev pub CanLog : Option AuditLog → DecisionArtifact → Type 0
  CanLog audit a = (audit ≡ none) ⊎ (accepts_event rt a ≡ true)

  record_created_iff :
      (audit : Option AuditLog) (a b : DecisionArtifact)
      → ((record_created rt event_id a now audit).0 ≡ ok b) ↔ ((a ≡ b) × CanLog audit a)
  unfolding record_created
  record_created_iff none a b = (λ h. (ground arith, inl refl), λ h. ground arith)
  record_created_iff (some log) a b = (λ h. ground arith, λ h. ground arith)

  -- The log after a call: with the event if it returned, as it was if it raised.
  abbrev pub Leaves : Option AuditLog → Result Error DecisionArtifact × Option AuditLog → Type 0
  Leaves audit (ok a, after) = after ≡ logged audit a
  Leaves audit (err e, after) = after ≡ audit

  record_created-Leaves :
      (audit : Option AuditLog) (a : DecisionArtifact)
      → Leaves audit (record_created rt event_id a now audit)
  unfolding record_created log_event
  record_created-Leaves none a = refl
  record_created-Leaves (some log) a = elim (Bool-cases (accepts_event rt a)) [
    | inl e ↦ rw e refl
    | inr e ↦ rw e refl
  ]

  abbrev checked :
      Option AuditLog
      → Result Error DecisionArtifact
      → Result Error DecisionArtifact × Option AuditLog
  checked audit r = check_and_record rt r event_id now audit

  check_and_record_iff :
      (audit : Option AuditLog) (r : Result Error DecisionArtifact) (b : DecisionArtifact)
      → ((checked audit r).0 ≡ ok b) ↔ ((r ≡ ok b) × HasHash b × CanLog audit b)
  check_and_record_iff audit (err e) b = (λ h. ground arith, λ h. ground arith)
  check_and_record_iff audit (ok a) b =
      let same = eq_iff a.canonical_input_hash (compute_canonical_input_hash rt a.input_snapshot) in
      elim (Bool-cases
        (a.canonical_input_hash == compute_canonical_input_hash rt a.input_snapshot)) [
          | inl e ↦ rw e (
              (
                λ h. ground (arith, same, record_created_iff audit a b),
                λ h. ground (arith, same, record_created_iff audit a b),
              ))
          | inr e ↦ rw e ((λ h. ground arith, λ h. ground (arith, same)))
        ]

  check_and_record-Leaves :
      (audit : Option AuditLog) (r : Result Error DecisionArtifact) → Leaves audit (checked audit r)
  check_and_record-Leaves audit (err e) = refl
  check_and_record-Leaves audit (ok a) =
      elim (Bool-cases
        (a.canonical_input_hash == compute_canonical_input_hash rt a.input_snapshot)) [
          | inl e ↦ rw e (record_created-Leaves audit a)
          | inr e ↦ rw e refl
        ]

module _ (rt : Runtime) (provider : Provider) (event_id : String) (case : RecoveryCase)
    (diagnosis : DiagnosisResult) (now : ℕ) (audit : Option AuditLog) where
  -- The provider's answer carries the hash of its own snapshot, and its event can be built.
  pub record IsAccountable (a : DecisionArtifact) : Type 0 where
    pub evaluable : IsEvaluable case
    pub recommended : provider case diagnosis now ≡ ok a
    pub hash : a.canonical_input_hash ≡ compute_canonical_input_hash rt a.input_snapshot
    pub event : CanLog rt event_id now audit a

  abbrev run : Result Error DecisionArtifact × Option AuditLog
  run = evaluate_case rt provider event_id case diagnosis now audit

  evaluate_case_iff : (a : DecisionArtifact) → (run.0 ≡ ok a) ↔ IsAccountable a
  unfolding evaluate_case
  evaluate_case_iff a =
      let asked = check_and_record_iff rt event_id now audit (provider case diagnosis now) a in
      elim (Bool-cases (is_evaluable case)) [
        | inl e ↦ rw e (
            (
              λ h. record {
                evaluable = ground (arith, is_evaluable_iff case);
                recommended = (asked.0 h).0;
                hash = (asked.0 h).1;
                event = (asked.0 h).2;
              },
              λ h. asked.1 (h.recommended, h.hash, h.event),
            ))
        | inr e ↦
            rw e ((λ h. ground arith, λ h. ground (arith, is_evaluable_iff case, h.evaluable)))
      ]

  evaluate_case-Leaves : Leaves rt event_id now audit run
  unfolding evaluate_case
  evaluate_case-Leaves = elim (Bool-cases (is_evaluable case)) [
    | inl e ↦ rw e (check_and_record-Leaves rt event_id now audit (provider case diagnosis now))
    | inr e ↦ rw e refl
  ]

  -- Whatever the provider answers, `evaluate_case` returns an artifact exactly if the case is
  -- DIAGNOSED or EVALUATING, the provider answered with that artifact, its hash is that of its own
  -- snapshot, and, where a logger is attached, its event is valid. It then logs exactly that event;
  -- if it raises, the log stays as it was.
  pub evaluate_case-IsAccountable :
      ((a : DecisionArtifact) → (run.0 ≡ ok a) ↔ IsAccountable a) × Leaves rt event_id now audit run
  evaluate_case-IsAccountable = (evaluate_case_iff, evaluate_case-Leaves)
