-- ===== src/Governance/Policy/Safety.antt =====
-- What the default policy lets through, and that it lets through what the decision engine proposes.
use ai_revenue_recovery.Prelude.{
  ℕ, ◌≤◌, ◌<◌, String, true, false, Option, none, some, ◌≡◌, ◌≢◌, ◌⊎◌, ◌↔◌, inl, refl, arith,
  eq_iff, All,
}
use ai_revenue_recovery.Prelude.Int.{ℤ, pos, negsuc, ◌≤ℤ◌}
use ai_revenue_recovery.Prelude.Dict.{lookup}
use ai_revenue_recovery.Foundation.Events.{
  retry_charge, no_action, direct_payment_gateway, RiskTier, high, frozen, RecoveryCase,
  channel_value,
}
use ai_revenue_recovery.Foundation.Value.{
  Value, null, bool, int, float, text, list, tuple, dict, immutable_dict, get,
}
use ai_revenue_recovery.Foundation.Runtime.{Runtime}
use ai_revenue_recovery.Recovery.Diagnosis.{DiagnosisResult}
use ai_revenue_recovery.AiDecision.Artifacts.{DecisionArtifact}
use ai_revenue_recovery.Governance.Policy.Model.{default_standard_policy, standard_policy_rules}
use ai_revenue_recovery.Governance.Policy.Rules.{
  breaks, breaks_fraud_block, breaks_non_recoverable_block, breaks_max_attempts_limit,
  breaks_safety_freeze_guard, breaks_high_risk_channel_restriction, breaks_action_amount_bound,
  breaks_min_confidence_threshold, breaks_model_version_freshness, as_int, is_text, out_of_bounds,
}
use ai_revenue_recovery.Governance.Policy.{PolicyEngine, evaluate}
use ai_revenue_recovery.Governance.Policy.Verdict.{Holds, evaluate-Permits}

-- The amount is a number above zero and not above the case's amount.
abbrev pub IsCharge : Option ℤ → ℕ → Type 0
IsCharge none amount = ⊥
IsCharge (some (negsuc n)) amount = ⊥
IsCharge (some (pos n)) amount = (0 < n) × (n ≤ amount)

out_of_bounds_iff :
    (n : Option ℤ) (amount : ℕ) → (out_of_bounds n amount ≡ false) ↔ IsCharge n amount
out_of_bounds_iff none amount = (λ h. ground arith, λ h. absurd h)
out_of_bounds_iff (some (pos n)) amount = (λ h. ground arith, λ h. ground arith)
out_of_bounds_iff (some (negsuc n)) amount = (λ h. ground arith, λ h. absurd h)

is_text_iff : (v : Value) (s : String) → (is_text v s ≡ true) ↔ (v ≡ text s)
is_text_iff (text t) s = (λ h. ground (arith, eq_iff t s), λ h. ground (arith, eq_iff t s))
is_text_iff null s = (λ h. ground arith, λ h. ground arith)
is_text_iff (bool b) s = (λ h. ground arith, λ h. ground arith)
is_text_iff (int n) s = (λ h. ground arith, λ h. ground arith)
is_text_iff (float n) s = (λ h. ground arith, λ h. ground arith)
is_text_iff (list xs) s = (λ h. ground arith, λ h. ground arith)
is_text_iff (tuple xs) s = (λ h. ground arith, λ h. ground arith)
is_text_iff (dict fs) s = (λ h. ground arith, λ h. ground arith)
is_text_iff (immutable_dict fs) s = (λ h. ground arith, λ h. ground arith)

-- No action may be taken on the case: fraud, no prospect, or no attempt left.
abbrev pub IsStopped : RecoveryCase → DiagnosisResult → Type 0
IsStopped case d =
    (d.risk_tier ≡ RiskTier.blocked)
    ⊎ ((d.diagnosis_code ≡ "FRAUD_RISK_BLOCK")
        ⊎ ((case.risk_tier ≡ RiskTier.blocked)
            ⊎ ((d.is_recoverable ≡ false) ⊎ (case.max_attempts ≤ case.attempt_count))))

-- The eight rules of the default policy, in words.
pub record IsSafe (case : RecoveryCase) (d : DiagnosisResult) (a : DecisionArtifact) : Type 0 where
  pub not_frozen : case.state ≢ frozen
  pub stopped : IsStopped case d → a.recommended_action ≡ no_action
  pub no_direct_channel :
      d.risk_tier ≡ high → get "channel" a.parameters ≢ text (channel_value direct_payment_gateway)
  pub no_charge : d.risk_tier ≡ high → a.recommended_action ≢ retry_charge
  pub amount :
      a.recommended_action ≡ retry_charge
      → IsCharge (as_int (get "amount_in_cents" a.parameters)) case.amount_in_cents
  pub confidence : a.recommended_action ≡ retry_charge → pos 5000 ≤ℤ a.confidence_score
  pub model_version : a.model_version ≢ ""
  pub prompt_version : a.prompt_version ≢ ""

module _ (rt : Runtime) (case : RecoveryCase) (d : DiagnosisResult) (a : DecisionArtifact) where
  kept_fraud_block_iff : (breaks_fraud_block case d a ≡ false) ↔ (
      (d.risk_tier ≡ RiskTier.blocked)
        ⊎ ((d.diagnosis_code ≡ "FRAUD_RISK_BLOCK") ⊎ (case.risk_tier ≡ RiskTier.blocked))
      → a.recommended_action ≡ no_action)
  unfolding breaks_fraud_block
  kept_fraud_block_iff = (
    λ h k. ground (arith, eq_iff d.diagnosis_code "FRAUD_RISK_BLOCK"),
    λ h. ground (arith, eq_iff d.diagnosis_code "FRAUD_RISK_BLOCK"),
  )

  kept_channel_iff : (breaks_high_risk_channel_restriction case d a ≡ false) ↔ (
      d.risk_tier ≡ high
      → (get "channel" a.parameters ≢ text (channel_value direct_payment_gateway))
        × (a.recommended_action ≢ retry_charge))
  unfolding breaks_high_risk_channel_restriction
  kept_channel_iff =
      let is = is_text_iff (get "channel" a.parameters) (channel_value direct_payment_gateway) in
      (λ h k. ((λ e. ground (arith, is)), (λ e. ground arith)), λ h. ground (arith, is))

  kept_amount_iff : (breaks_action_amount_bound case d a ≡ false) ↔ (
      a.recommended_action ≡ retry_charge
      → IsCharge (as_int (get "amount_in_cents" a.parameters)) case.amount_in_cents)
  unfolding breaks_action_amount_bound
  kept_amount_iff =
      let bounds =
        out_of_bounds_iff (as_int (get "amount_in_cents" a.parameters)) case.amount_in_cents in
      (λ h k. ground (arith, bounds), λ h. ground (arith, bounds))

  rules_sound : All (Holds rt case d a) standard_policy_rules → IsSafe case d a
  unfolding breaks breaks_non_recoverable_block breaks_max_attempts_limit breaks_safety_freeze_guard
      breaks_min_confidence_threshold breaks_model_version_freshness
  rules_sound
        (fraud, (prospect, (attempts, (freeze, (channel, (amount, (confidence, (fresh, end)))))))) =
      record {
        not_frozen = λ e. ground (arith, freeze refl);
        stopped =
            λ k. ground (arith, kept_fraud_block_iff.0 (fraud refl), prospect refl, attempts refl);
        no_direct_channel = λ k. (kept_channel_iff.0 (channel refl) k).0;
        no_charge = λ k. (kept_channel_iff.0 (channel refl) k).1;
        amount = kept_amount_iff.0 (amount refl);
        confidence = λ k. ground (arith, confidence refl);
        model_version = λ e. ground (arith, fresh refl, eq_iff a.model_version "");
        prompt_version = λ e. ground (arith, fresh refl, eq_iff a.prompt_version "");
      }

  rules_complete : IsSafe case d a → All (Holds rt case d a) standard_policy_rules
  unfolding breaks breaks_non_recoverable_block breaks_max_attempts_limit breaks_safety_freeze_guard
      breaks_min_confidence_threshold breaks_model_version_freshness
  rules_complete h = (
    (λ e. kept_fraud_block_iff.1 (λ k. ground (arith, h.stopped))),
    (
      (λ e. ground (arith, h.stopped)),
      (
        (λ e. ground (arith, h.stopped)),
        (
          (λ e. ground (arith, h.not_frozen)),
          (
            (λ e. kept_channel_iff.1 (λ k. (h.no_direct_channel k, h.no_charge k))),
            (
              (λ e. kept_amount_iff.1 h.amount),
              (
                (λ e. ground (arith, h.confidence)),
                (
                  (λ e. ground (
                    arith,
                    h.model_version,
                    h.prompt_version,
                    eq_iff a.model_version "",
                    eq_iff a.prompt_version "",
                  )),
                  tt,
                ),
              ),
            ),
          ),
        ),
      ),
    ),
  )

  -- Where the default policy is registered under its id and no other is asked for, a decision is
  -- allowed exactly if it is safe: the case is not frozen; a blocked, fraudulent, unrecoverable or
  -- exhausted case gets NO_ACTION; a HIGH tier gets no charge and no direct channel; a charge has
  -- an amount above zero and up to the case's, and a confidence of at least 0.5; and the versions
  -- are named.
  pub evaluate-IsSafe :
      (event_id : String) (now : ℕ) (s : PolicyEngine)
      → lookup default_standard_policy.policy_id s.policies ≡ some default_standard_policy
      → ((evaluate rt event_id case d a none now s).0.is_allowed ≡ true) ↔ IsSafe case d a
  evaluate-IsSafe event_id now s e =
      let permits = (evaluate-Permits rt case d a event_id now s none).0 in
      (
        λ h. rules_sound (rw e at (permits.0 h)).1,
        λ h. permits.1 (rw e (inl refl, rules_complete h)),
      )
