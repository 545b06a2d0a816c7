-- ===== src/Examples/Experiments.antt =====
-- An engine that assigns a case, then gets another configuration of the same experiment.
use Prim.Native.Nat.{◌+◌, ◌*◌}
use ai_revenue_recovery.Prelude.{
  ℕ, String, Bool, true, false, Option, none, some, List, [], ◌∷◌, ◌≡◌, refl, ltb,
}
use ai_revenue_recovery.Prelude.Int.{pos}
use ai_revenue_recovery.Prelude.Exec.{ok}
use ai_revenue_recovery.Foundation.Events.{medium}
use ai_revenue_recovery.Foundation.Value.{int}
use ai_revenue_recovery.Governance.Arbitrator.Matrix.{treatment}
use ai_revenue_recovery.Evidence.Experiment.{
  Doubles, ExperimentConfig, ExperimentAssignmentRecord, ExperimentEngine, new, default_config,
  assign, compute_stratum,
}
use ai_revenue_recovery.Evidence.Experiment.Sticky.{
  Event, register, request, steps, assign-IsSticky,
}
use ai_revenue_recovery.Examples.Decisions.{case}
use ai_revenue_recovery.Examples.Logs.{runtime}

-- A float is counted in 2^64ths.
abbrev small_doubles : Doubles
small_doubles = record {
  Float = ℕ;
  lt = ltb;
  add = ◌+◌;
  over_2_64 = λ n. n;
  hundredths = λ n. n * 184467440737095516;
  to_value = λ n. int (pos n);
}

abbrev engine : ExperimentEngine ℕ
engine = new runtime small_doubles none none

abbrev record_1 : ExperimentAssignmentRecord ℕ
record_1 = record {
  assignment_id = "a1";
  experiment_id = "default_recovery_rct";
  case_id = case.case_id;
  customer_id = case.customer_id;
  stratum = "LOW:INR:NONE";
  assignment = treatment;
  bucket_score = 1229782938247303441;
  assigned_at = 10;
}

assign_runs : (assign runtime small_doubles "a1" case none none 10 none engine).0 ≡ ok record_1
unfolding assign ai_revenue_recovery.Prelude.Dict.lookup new ai_revenue_recovery.Prelude.Dict.insert
    ai_revenue_recovery.Prelude.upper ai_revenue_recovery.Prelude.strip
assign_runs = refl

-- No one is treated any more.
abbrev stopped : ExperimentConfig ℕ
stopped = record (default_config runtime small_doubles) { treatment_ratio = 0 }

abbrev events : List (Event runtime small_doubles)
events = register stopped ∷ request "a2" (record case { case_id = "c9" }) none none 20 none ∷ []

abbrev later : ExperimentEngine ℕ
later =
    steps runtime small_doubles events
      (assign runtime small_doubles "a1" case none none 10 none engine).1

assign-IsSticky_example :
    assign runtime small_doubles "a3"
      (record case { risk_tier = medium })
      none
      (some "other")
      30
      (some "05")
      later
    ≡ (ok record_1, later)
unfolding ai_revenue_recovery.Prelude.Dict.lookup
    ai_revenue_recovery.Evidence.Experiment.Sticky.step assign
    ai_revenue_recovery.Evidence.Experiment.register_experiment
    ai_revenue_recovery.Prelude.Dict.insert new
assign-IsSticky_example =
    assign-IsSticky runtime small_doubles "a1" case none none 10 none engine record_1 assign_runs
      events later refl stopped refl refl "a3" (record case { risk_tier = medium }) (some "other")
      30 (some "05") refl
