-- ===== src/Examples/Evidences.antt =====
-- A window with one case in each cohort, of which the treated one is settled.
use ai_revenue_recovery.Prelude.{
  ℕ, String, Bool, true, false, Option, none, some, List, [], ◌∷◌, ◌≡◌, refl, ltb,
}
use ai_revenue_recovery.Prelude.Exec.{ok}
use ai_revenue_recovery.Foundation.Value.{nat}
use ai_revenue_recovery.Reconciliation.Ledger.{RevenueLedger, confirmed_settled}
use ai_revenue_recovery.Evidence.Engine.{
  Rates, EvidenceMetricEntry, EvidenceEngine, Window, entry_of, evaluate_window, approved,
}
use ai_revenue_recovery.Evidence.Engine.Reporting.{
  IsReported, IsRegistered, evaluate_window-IsReported,
}
use ai_revenue_recovery.Examples.Logs.{runtime}

-- A rate is rounded to a whole number.
abbrev small_rates : Rates
small_rates = record {
  Float = ℕ;
  zero_rate = 0;
  ratio = λ a b. a;
  relative = λ a b. a;
  is_positive = λ a. ltb 0 a;
  round_4 = λ a. a;
  to_value = nat;
}

abbrev ledger : RevenueLedger
ledger = record {
  entries =
      record {
        entry_id = "l1";
        case_id = "c1";
        execution_id = none;
        financial_state = confirmed_settled;
        gross_amount = 500;
        net_confirmed_amount = 480;
        currency = "INR";
        reconciliation_reference = "r1";
        recorded_at = 3;
      }
      ∷ [];
  audit = none;
}

abbrev window : Window
window = record {
  metric_id = "recovery_rate";
  evaluation_window = "2026-Q3";
  treatment_case_ids = "c1" ∷ [];
  control_case_ids = "c2" ∷ [];
  is_backtest = false;
  min_sample_size = 1;
}

abbrev engine : Option RevenueLedger → EvidenceEngine ℕ
engine l = record { ledger = l; audit_logger = none; registry = [] }

abbrev entry : Option RevenueLedger → EvidenceMetricEntry ℕ
entry l = entry_of runtime small_rates window 5 l

evaluate_runs :
    (evaluate_window runtime small_rates "e1" window 5 (engine (some ledger))).0
    ≡ ok (entry (some ledger))
unfolding evaluate_window ai_revenue_recovery.Foundation.Audit.canonical_json
evaluate_runs = refl

confirmed_runs : (entry (some ledger)).confirmed_recovered ≡ 480
unfolding entry_of ai_revenue_recovery.Reconciliation.Ledger.get_case_summary
    ai_revenue_recovery.Prelude.Sorting.sort ai_revenue_recovery.Prelude.Sorting.insert_sorted
confirmed_runs = refl

-- Without a ledger nothing has been recovered, and the evidence is approved.
unfounded_runs : (entry none).reporting_state ≡ approved
unfolding entry_of
unfounded_runs = refl

evaluate_window-IsReported_example :
    IsReported runtime small_rates window (some ledger) (entry (some ledger))
    × IsRegistered runtime small_rates
        (engine (some ledger))
        (evaluate_window runtime small_rates "e1" window 5 (engine (some ledger))).1
        (entry (some ledger))
evaluate_window-IsReported_example =
    evaluate_window-IsReported runtime small_rates "e1" window 5 (engine (some ledger))
      (entry (some ledger)) evaluate_runs
