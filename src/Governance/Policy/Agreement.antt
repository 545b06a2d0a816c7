-- ===== src/Governance/Policy/Agreement.antt =====
-- The default policy and the deterministic provider: what the one proposes against what the other
-- lets through.
use ai_revenue_recovery.Prelude.{
  ℕ, ◌≤◌, ◌<◌, String, true, false, none, some, ◌≡◌, ◌≢◌, ◌⊎◌, ◌↔◌, inl, inr, refl, sym, arith,
  Bool-cases, eq_iff, ◌==◌, ◌∙◌, leb, ◌||◌, not,
}
use ai_revenue_recovery.Prelude.Int.{ℤ, pos, ◌≤ℤ◌}
use ai_revenue_recovery.Prelude.Exec.{ok}
use ai_revenue_recovery.Prelude.Dict.{lookup}
use ai_revenue_recovery.Foundation.Events.{
  retry_charge, direct_payment_gateway, RiskTier, high, RecoveryCase, PaymentFailureEvent,
  ActionChannel, channel_value, email, sms, whatsapp, internal_system, eq_risk_tier,
}
use ai_revenue_recovery.Foundation.Value.{text, get}
use ai_revenue_recovery.Foundation.Runtime.{Runtime}
use ai_revenue_recovery.Recovery.Diagnosis.{DiagnosisResult}
use ai_revenue_recovery.Recovery.Diagnosis
use ai_revenue_recovery.Recovery.Diagnosis.Verdicts.{
  IsActionable, IsCoherent, evaluate-IsActionable, evaluate-IsCoherent,
}
use ai_revenue_recovery.AiDecision.Artifacts.{
  DecisionArtifact, Draw, Versions, create_decision_artifact,
}
use ai_revenue_recovery.AiDecision.Artifacts.Routing.{
  HasDigests, IsEvaluable, IsBarred, IsWellFormed, IsRouted, create_decision_artifact-IsRouted,
}
use ai_revenue_recovery.Governance.Policy.Model.{default_standard_policy}
use ai_revenue_recovery.Governance.Policy.Rules.{as_int}
use ai_revenue_recovery.Governance.Policy.{PolicyEngine, evaluate}
use ai_revenue_recovery.Governance.Policy.Safety.{IsSafe, IsCharge, IsStopped, evaluate-IsSafe}

other-gateway :
    (s : String) → (s == "DIRECT_PAYMENT_GATEWAY") ≡ false → s ≢ "DIRECT_PAYMENT_GATEWAY"
other-gateway s h e = ground (arith, eq_iff s "DIRECT_PAYMENT_GATEWAY")

-- A channel other than the gateway has another name.
channel_value-gateway :
    (c : ActionChannel)
    → channel_value c ≡ channel_value direct_payment_gateway
    → c ≡ direct_payment_gateway
channel_value-gateway direct_payment_gateway h = refl
channel_value-gateway email h = absurd (other-gateway "EMAIL" refl h)
channel_value-gateway sms h = absurd (other-gateway "SMS" refl h)
channel_value-gateway whatsapp h = absurd (other-gateway "WHATSAPP" refl h)
channel_value-gateway internal_system h = absurd (other-gateway "INTERNAL_SYSTEM" refl h)

IsBarred-cases : (case : RecoveryCase) (d : DiagnosisResult) → IsBarred case d ⊎ (¬ IsBarred case d)
IsBarred-cases case d =
    elim (Bool-cases (eq_risk_tier case.risk_tier RiskTier.blocked || not d.is_recoverable)) [
      | inl e ↦ inl (ground arith)
      | inr e ↦ inr (λ b. ground arith)
    ]

module _ (case : RecoveryCase) (d : DiagnosisResult) (v : Versions) (a : DecisionArtifact)
    (coherent : IsCoherent d) (actionable : IsActionable d) (wf : IsWellFormed case d v)
    (state : IsEvaluable case) (amount : 0 < case.amount_in_cents) (r : IsRouted case d v a) where
  IsStopped-cases : IsStopped case d → IsBarred case d ⊎ (case.max_attempts ≤ case.attempt_count)
  IsStopped-cases h = ground (arith, coherent.blocked, actionable.fraud)

  no_direct_channel :
      d.risk_tier ≡ high → get "channel" a.parameters ≢ text (channel_value direct_payment_gateway)
  no_direct_channel k e = elim (IsBarred-cases case d) [
    | inl b ↦ other-gateway "INTERNAL_SYSTEM" refl (ground (arith, r.internal b, e))
    | inr n ↦
        actionable.high_tier k
          (channel_value-gateway d.recommended_channel (ground (arith, r.channel n, e)))
  ]

  charged :
      a.recommended_action ≡ retry_charge
      → IsCharge (as_int (get "amount_in_cents" a.parameters)) case.amount_in_cents
  charged k = rw (r.amount (r.retry.0 k).0) (amount, omega arith)

  confident : a.recommended_action ≡ retry_charge → pos 5000 ≤ℤ a.confidence_score
  confident k =
      rw (r.confidence (r.retry.0 k).0) (ground (arith, actionable.gateway (r.retry.0 k).1))

  allowed_of_attempts : IsBarred case d ⊎ (case.attempt_count < case.max_attempts) → IsSafe case d a
  allowed_of_attempts h = record {
    not_frozen = λ e. ground (arith, state);
    stopped = λ k. ground (arith, IsStopped-cases k, r.nothing);
    no_direct_channel = no_direct_channel;
    no_charge = λ k e. actionable.high_tier k (r.retry.0 e).1;
    amount = charged;
    confidence = confident;
    model_version = λ e. wf.model_version (sym r.model_version ∙ e);
    prompt_version = λ e. wf.prompt_version (sym r.prompt_version ∙ e);
  }

  attempts_of_allowed : IsSafe case d a → IsBarred case d ⊎ (case.attempt_count < case.max_attempts)
  attempts_of_allowed h = elim (Bool-cases (leb case.max_attempts case.attempt_count)) [
    | inl e ↦ inl (r.nothing.0 (h.stopped (inr (inr (inr (inr (ground arith)))))))
    | inr e ↦ inr (ground arith)
  ]

-- With digests as SHA-256 makes them, well-formed arguments and the default policy registered: for
-- a case that is DIAGNOSED or EVALUATING, with a positive amount and a diagnosis that the evaluator
-- made, the deterministic provider returns an artifact, and the default policy allows it exactly if
-- recovery is barred, so that it proposes NO_ACTION, or the case has an attempt left.
pub recommendation-IsAllowed :
    (rt : Runtime) (draw : Draw) (case : RecoveryCase) (event : PaymentFailureEvent) (attempts : ℤ)
    (d : DiagnosisResult) (v : Versions) (event_id : String) (now : ℕ) (s : PolicyEngine)
    → HasDigests rt
    → Diagnosis.evaluate event attempts ≡ ok d
    → IsWellFormed case d v
    → IsEvaluable case
    → 0 < case.amount_in_cents
    → lookup default_standard_policy.policy_id s.policies ≡ some default_standard_policy
    → (a : DecisionArtifact) × (create_decision_artifact rt draw case d v none ≡ ok a)
      × (((evaluate rt event_id case d a none now s).0.is_allowed ≡ true)
          ↔ (IsBarred case d ⊎ (case.attempt_count < case.max_attempts)))
recommendation-IsAllowed rt draw case event attempts d v event_id now s digests made wf state amount
      registered =
    let coherent = (evaluate-IsCoherent event attempts d made).0 in
    let actionable = evaluate-IsActionable event attempts d made in
    let (a, returned, hash, r) =
      (create_decision_artifact-IsRouted rt draw case d v none digests wf).0 state in
    let safe = evaluate-IsSafe rt case d a event_id now s registered in
    (
      a,
      returned,
      (
        λ h. attempts_of_allowed case d v a coherent actionable wf state amount r (safe.0 h),
        λ h. safe.1 (allowed_of_attempts case d v a coherent actionable wf state amount r h),
      ),
    )
