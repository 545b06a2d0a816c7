-- ===== src/Recovery/Diagnosis/Verdicts.antt =====
-- Which verdicts the diagnosis can return, and when a case is recoverable.
use Prim.Native.String.{◌++◌ as concat}
use mathlib.Core.Path.{subst}
use ai_revenue_recovery.Prelude.{
  ℕ, ◌≤◌, ◌<◌, String, true, false, ◌≡◌, ◌≢◌, ◌⊎◌, ◌↔◌, inl, inr, refl, arith, Bool-cases, eq_iff,
  not, if◌then◌else◌, upper, ◌==◌, leb, ◌||◌,
}
use ai_revenue_recovery.Prelude.Int.{ℤ, pos, negsuc}
use ai_revenue_recovery.Prelude.Exec.{ok, err}
use ai_revenue_recovery.Foundation.Errors.{value_error}
use ai_revenue_recovery.Foundation.Events.{
  FailureReason, fraud_suspected, RiskTier, low, medium, high, internal_system, PaymentFailureEvent,
  direct_payment_gateway,
}
use ai_revenue_recovery.Recovery.Diagnosis.{
  DiagnosisResult, evaluate, classify, is_supported, supported_currencies, refused,
  high_value_threshold_units,
}

-- The score that each tier goes with.
abbrev pub HasTierOf : ℕ → RiskTier → Type 0
HasTierOf score low = score ≤ 2000
HasTierOf score medium = (3500 ≤ score) × (score ≤ 5000)
HasTierOf score high = (6500 ≤ score) × (score ≤ 7500)
HasTierOf score RiskTier.blocked = score ≡ 10000

pub record IsCoherent (d : DiagnosisResult) : Type 0 where
  pub tier : HasTierOf d.risk_score d.risk_tier
  pub blocked : (d.is_recoverable ≡ false) ↔ (d.risk_tier ≡ RiskTier.blocked)
  pub internal : (d.is_recoverable ≡ false) ↔ (d.recommended_channel ≡ internal_system)
  pub bounded : d.risk_score ≤ 10000
  pub positive : 0 < d.risk_score

classify-IsCoherent :
    (r : FailureReason) (amount attempts : ℕ) → IsCoherent (classify r amount attempts)
unfolding classify
classify-IsCoherent r amount attempts = record {
  tier = ground arith;
  blocked = (λ h. ground arith, λ h. ground arith);
  internal = (λ h. ground arith, λ h. ground arith);
  bounded = ground arith;
  positive = ground arith;
}

-- What `evaluate` returns for a count that is not negative.
abbrev diagnosed_as : PaymentFailureEvent → ℕ → DiagnosisResult
diagnosed_as event attempts =
    if not (is_supported (upper event.currency) supported_currencies)
    then refused "UNSUPPORTED_CURRENCY_BLOCK"
        (concat "Currency '" (concat event.currency "' is unsupported; failing closed."))
    else classify event.failure_reason event.amount_in_cents attempts

evaluate_pos :
    (event : PaymentFailureEvent) (n : ℕ) → evaluate event (pos n) ≡ ok (diagnosed_as event n)
unfolding evaluate
evaluate_pos event n = ground arith

refused-IsCoherent : (code rationale : String) → IsCoherent (refused code rationale)
refused-IsCoherent code rationale = record {
  tier = refl;
  blocked = (λ h. refl, λ h. refl);
  internal = (λ h. refl, λ h. refl);
  bounded = omega arith;
  positive = omega arith;
}

-- The scores that the module's documentation lists.
abbrev pub IsDiscrete : ℕ → Type 0
IsDiscrete score =
    (score ≡ 500)
    ⊎ ((score ≡ 1000)
        ⊎ ((score ≡ 2000)
            ⊎ ((score ≡ 3500)
                ⊎ ((score ≡ 4000)
                    ⊎ ((score ≡ 5000) ⊎ ((score ≡ 6500) ⊎ ((score ≡ 7500) ⊎ (score ≡ 10000))))))))

classify-IsDiscrete :
    (r : FailureReason) (amount n : ℕ) → IsDiscrete (classify r amount n).risk_score
unfolding classify
classify-IsDiscrete r amount n = ground arith

-- Every diagnosis that is returned is coherent: its score is one of the nine listed ones and fits
-- the tier, and a case is not recoverable exactly if the tier is BLOCKED, and exactly if the
-- channel is the internal one.
pub evaluate-IsCoherent :
    (event : PaymentFailureEvent) (attempts : ℤ) (d : DiagnosisResult)
    → evaluate event attempts ≡ ok d
    → IsCoherent d × IsDiscrete d.risk_score
unfolding evaluate
evaluate-IsCoherent event (negsuc _) d h = absurd (ground arith)
evaluate-IsCoherent event (pos n) d h =
    elim (Bool-cases (is_supported (upper event.currency) supported_currencies)) [
      | inl e ↦
          subst (λ d. IsCoherent d × IsDiscrete d.risk_score)
            {x = classify event.failure_reason event.amount_in_cents n} (ground arith)
            (
              classify-IsCoherent event.failure_reason event.amount_in_cents n,
              classify-IsDiscrete event.failure_reason event.amount_in_cents n,
            )
      | inr e ↦
          subst (λ d. IsCoherent d × IsDiscrete d.risk_score)
            {x = refused "UNSUPPORTED_CURRENCY_BLOCK"
              (concat "Currency '" (concat event.currency "' is unsupported; failing closed."))}
            (ground arith) (refused-IsCoherent _ _, ground arith)
    ]

-- The four codes, in capitals.
abbrev pub IsSupported : String → Type 0
IsSupported code = (code ≡ "INR") ⊎ ((code ≡ "USD") ⊎ ((code ≡ "EUR") ⊎ (code ≡ "GBP")))

is_supported_iff :
    (code : String) → (is_supported code supported_currencies ≡ true) ↔ IsSupported code
unfolding is_supported
is_supported_iff code = (
  λ h. ground (arith, eq_iff code "INR", eq_iff code "USD", eq_iff code "EUR", eq_iff code "GBP"),
  λ h. ground (arith, eq_iff code "INR", eq_iff code "USD", eq_iff code "EUR", eq_iff code "GBP"),
)

abbrev pub IsRecoverable : PaymentFailureEvent → Type 0
IsRecoverable event = IsSupported (upper event.currency) × (event.failure_reason ≢ fraud_suspected)

classify-recoverable :
    (r : FailureReason) (amount n : ℕ)
    → ((classify r amount n).is_recoverable ≡ true) ↔ (r ≢ fraud_suspected)
unfolding classify
classify-recoverable r amount n = (λ h e. ground arith, λ h. ground arith)

-- The diagnosis fails closed: with a count that is not negative it always returns, and it calls a
-- case recoverable exactly if the currency is supported, in any case of letters, and no fraud is
-- suspected; with a negative count it raises.
pub evaluate-IsRecoverable :
    (event : PaymentFailureEvent)
    → ((n : ℕ) → evaluate event (negsuc n) ≡ err value_error)
      × ((n : ℕ)
          → (d : DiagnosisResult) × (evaluate event (pos n) ≡ ok d)
            × ((d.is_recoverable ≡ true) ↔ IsRecoverable event))
unfolding evaluate
evaluate-IsRecoverable event = (
  λ n. refl,
  λ n. (
    diagnosed_as event n,
    evaluate_pos event n,
    (
      λ h. ground (
        arith,
        is_supported_iff (upper event.currency),
        classify-recoverable event.failure_reason event.amount_in_cents n,
      ),
      λ h. ground (
        arith,
        is_supported_iff (upper event.currency),
        classify-recoverable event.failure_reason event.amount_in_cents n,
      ),
    ),
  ),
)

classify_monotone :
    (r : FailureReason) (a b m n : ℕ)
    → a ≤ b
    → m ≤ n
    → (classify r a m).risk_score ≤ (classify r b n).risk_score
unfolding classify
classify_monotone r a b m n h k = ground arith

-- Of two failures with one currency and one reason, the one with no smaller amount and no fewer
-- attempts has no lower score.
pub evaluate_monotone :
    (e f : PaymentFailureEvent) (m n : ℕ) {d d' : DiagnosisResult}
    → e.currency ≡ f.currency
    → e.failure_reason ≡ f.failure_reason
    → e.amount_in_cents ≤ f.amount_in_cents
    → m ≤ n
    → evaluate e (pos m) ≡ ok d
    → evaluate f (pos n) ≡ ok d'
    → d.risk_score ≤ d'.risk_score
unfolding evaluate
evaluate_monotone e f m n c r a k g h =
    ground (arith, classify_monotone f.failure_reason e.amount_in_cents f.amount_in_cents m n a k)

-- How far a diagnosis supports the action that its channel stands for.
pub record IsActionable (d : DiagnosisResult) : Type 0 where
  pub fraud : d.diagnosis_code ≡ "FRAUD_RISK_BLOCK" → d.is_recoverable ≡ false
  pub high_tier : d.risk_tier ≡ high → d.recommended_channel ≢ direct_payment_gateway
  pub gateway : d.recommended_channel ≡ direct_payment_gateway → d.risk_score ≤ 5000

classify-code :
    (r : FailureReason) (amount n : ℕ)
    → ((classify r amount n).diagnosis_code == "FRAUD_RISK_BLOCK")
      ≡ not (classify r amount n).is_recoverable
unfolding classify
classify-code FailureReason.insufficient_funds amount n = elim (Bool-cases (leb 2 n)) [
  | inl e ↦ rw e refl
  | inr e ↦ rw e refl
]
classify-code FailureReason.card_expired amount n = refl
classify-code FailureReason.gateway_timeout amount n = refl
classify-code FailureReason.processing_error amount n = refl
classify-code FailureReason.authentication_failed amount n = refl
classify-code fraud_suspected amount n = refl
classify-code FailureReason.generic_decline amount n =
    elim (Bool-cases (leb high_value_threshold_units amount || leb 2 n)) [
      | inl e ↦ rw e refl
      | inr e ↦ rw e refl
    ]

classify-IsActionable : (r : FailureReason) (amount n : ℕ) → IsActionable (classify r amount n)
classify-IsActionable r amount n = record {
  fraud = λ e. ground (
    arith,
    classify-code r amount n,
    eq_iff (classify r amount n).diagnosis_code "FRAUD_RISK_BLOCK",
  );
  high_tier = λ e g. unfold classify in ground arith;
  gateway = λ e. unfold classify in ground arith;
}

refused-IsActionable : (code rationale : String) → IsActionable (refused code rationale)
refused-IsActionable code rationale = record {
  fraud = λ e. refl;
  high_tier = λ e g. ground arith;
  gateway = λ e. ground arith;
}

pub evaluate-IsActionable :
    (event : PaymentFailureEvent) (attempts : ℤ) (d : DiagnosisResult)
    → evaluate event attempts ≡ ok d
    → IsActionable d
unfolding evaluate
evaluate-IsActionable event (negsuc _) d h = absurd (ground arith)
evaluate-IsActionable event (pos n) d h =
    elim (Bool-cases (is_supported (upper event.currency) supported_currencies)) [
      | inl e ↦
          subst IsActionable {x = classify event.failure_reason event.amount_in_cents n}
            (ground arith) (classify-IsActionable event.failure_reason event.amount_in_cents n)
      | inr e ↦
          subst IsActionable
            {x = refused "UNSUPPORTED_CURRENCY_BLOCK"
              (concat "Currency '" (concat event.currency "' is unsupported; failing closed."))}
            (ground arith) (refused-IsActionable _ _)
    ]
