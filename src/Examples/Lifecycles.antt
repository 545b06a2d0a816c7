-- ===== src/Examples/Lifecycles.antt =====
-- A recovery case on its way, and some diagnoses.
use ai_revenue_recovery.Prelude.{ℕ, true, false, none, some, List, [], ◌∷◌, ◌≡◌, refl, ◌↔◌, arith}
use ai_revenue_recovery.Prelude.Int.{pos, negsuc}
use ai_revenue_recovery.Prelude.Exec.{ok, err}
use ai_revenue_recovery.Prelude.Dict.{lookup, insert}
use ai_revenue_recovery.Foundation.Errors.{value_error}
use ai_revenue_recovery.Foundation.Events.{
  diagnosed, scheduled, executing, resolved, low, RecoveryCase, PaymentFailureEvent,
  generic_decline,
}
use ai_revenue_recovery.Recovery.Cases.{CaseManager, transitioned}
use ai_revenue_recovery.Recovery.Cases.Transition.{Succeeds, transitioned_iff}
use ai_revenue_recovery.Recovery.Cases.Invariant.{
  Call, create, transition, freeze, unfreeze, steps, IsSoundDict, Effect, step, step-Effect,
  steps-IsSoundDict,
}
use ai_revenue_recovery.Recovery.Cases.Lifecycle.{EvolvesTo, steps-Evolves}
use ai_revenue_recovery.Recovery.Diagnosis.{DiagnosisResult, evaluate, classify}
use ai_revenue_recovery.Recovery.Diagnosis.Verdicts.{evaluate-IsRecoverable, IsRecoverable}
use ai_revenue_recovery.Examples.Logs.{runtime}

abbrev c1 : RecoveryCase
c1 = record {
  case_id = "c1";
  customer_id = "cus_1";
  trigger_event_id = "e1";
  amount_in_cents = 150000;
  currency = "INR";
  state = executing;
  risk_tier = low;
  attempt_count = 2;
  max_attempts = 3;
  created_at = 5;
  updated_at = 9;
}

-- A retry that is counted, and a clock that went back.
abbrev c1_retried : RecoveryCase
c1_retried = record c1 { state = scheduled; attempt_count = 3 }

transitioned_iff_example :
    (transitioned scheduled none true 8 c1 ≡ ok c1_retried)
    ↔ Succeeds scheduled none true 8 c1 c1_retried
transitioned_iff_example = transitioned_iff scheduled none true 8 c1 c1_retried

abbrev one_case : CaseManager
one_case = record { cases = ("c1", c1) ∷ []; audit = none }

abbrev failure : PaymentFailureEvent
failure = record {
  event_id = "e2";
  customer_id = "cus_2";
  invoice_id = "i2";
  amount_in_cents = 99999;
  currency = "inr";
  failure_reason = generic_decline;
  failure_code = "05";
  gateway_reference = "g2";
  failed_at = 3;
}

abbrev some_calls : List Call
some_calls =
    transition "c1" scheduled "retry" none true 8
    ∷ freeze "c1" "audit" 11
    ∷ unfreeze "c1" diagnosed "cleared" 12
    ∷ transition "c1" resolved "skips a step" none false 13
    ∷ []

moves_run :
    lookup "c1" (steps runtime some_calls one_case).cases
    ≡ some (record c1 { state = diagnosed; attempt_count = 3; updated_at = 12 })
unfolding lookup step transitioned ai_revenue_recovery.Recovery.Cases.is_in
    ai_revenue_recovery.Recovery.Cases.allowed_transitions insert
moves_run = refl

step-Effect_example :
    Effect
      (create "c2" failure (pos 3) 20)
      one_case.cases
      (step runtime (create "c2" failure (pos 3) 20) one_case).cases
step-Effect_example = step-Effect runtime (create "c2" failure (pos 3) 20) one_case

steps-Evolves_example : EvolvesTo "c1" c1 (steps runtime some_calls one_case).cases
unfolding lookup
steps-Evolves_example =
    steps-Evolves runtime some_calls one_case "c1" c1 refl (tt, (tt, (tt, (tt, tt))))

one_case-IsSoundDict : IsSoundDict one_case.cases
unfolding lookup
one_case-IsSoundDict id c e = ground arith

steps-IsSoundDict_example : IsSoundDict (steps runtime some_calls one_case).cases
steps-IsSoundDict_example = steps-IsSoundDict runtime some_calls one_case one_case-IsSoundDict

abbrev unclassified : DiagnosisResult
unfolding classify
unclassified = classify generic_decline 99999 1

abbrev high_risk : DiagnosisResult
unfolding classify
high_risk = classify generic_decline 99999 2

evaluate-IsRecoverable_example :
    ((n : ℕ) → evaluate failure (negsuc n) ≡ err value_error)
    × ((n : ℕ)
        → (d : DiagnosisResult) × (evaluate failure (pos n) ≡ ok d)
          × ((d.is_recoverable ≡ true) ↔ IsRecoverable failure))
evaluate-IsRecoverable_example = evaluate-IsRecoverable failure
