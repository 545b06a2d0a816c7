-- ===== src/Evidence/Experiment.antt =====
-- src/revenue_recovery/evidence/experiment.py. The arithmetic of floats is the processor's: the
-- parameter Doubles. A random assignment id is an argument.
pub mod Sticky
use Prim.Native.Nat.{zero, suc, ◌+◌, ◌*◌, ◌-◌}
use Prim.Native.Char.{Char, code}
use Prim.Native.String.{[] as ε, ◌∷◌ as ◌◂◌}
use ai_revenue_recovery.Prelude.{
  ℕ, String, Bool, true, false, Option, none, some, List, [], ◌∷◌, ◌==◌, leb, not, is_some,
  if◌then◌else◌, strip, upper,
}
use ai_revenue_recovery.Prelude.Exec.{Result, ok, err, Exec}
use ai_revenue_recovery.Prelude.Dict.{Dict, lookup, insert}
use ai_revenue_recovery.Foundation.Errors.{Error, key_error, value_error}
use ai_revenue_recovery.Foundation.Events.{RiskTier, risk_tier_value, RecoveryCase}
use ai_revenue_recovery.Foundation.Value.{Value, text, dict_of}
use ai_revenue_recovery.Foundation.Runtime.{Runtime}
use ai_revenue_recovery.Foundation.Audit.{AuditLog, ◌&◌}
use ai_revenue_recovery.Foundation.Audited.{log_event}
use ai_revenue_recovery.Governance.Arbitrator.Matrix.{
  ExperimentAssignment, treatment, control, excluded, experiment_value,
}

pub record Doubles : Type 1 where
  pub Float : Type 0
  pub lt : Float → Float → Bool
  pub add : Float → Float → Float
  -- A number over `float(1 << 64)`.
  pub over_2_64 : ℕ → Float
  -- A literal, in hundredths.
  pub hundredths : ℕ → Float
  -- What a payload holds.
  pub to_value : Float → Value

pub record ExperimentConfig (Float : Type 0) : Type 0 where
  pub experiment_id : String
  pub name : String
  pub treatment_ratio : Float
  pub control_ratio : Float
  pub excluded_ratio : Float
  pub salt : String
  pub is_active : Bool

pub record ExperimentAssignmentRecord (Float : Type 0) : Type 0 where
  pub assignment_id : String
  pub experiment_id : String
  pub case_id : String
  pub customer_id : String
  pub stratum : String
  pub assignment : ExperimentAssignment
  pub bucket_score : Float
  pub assigned_at : ℕ

-- The assignments are keyed by the case, then by the experiment.
pub record ExperimentEngine (Float : Type 0) : Type 0 where
  pub default_experiment_id : String
  pub experiments : Dict (ExperimentConfig Float)
  pub assignments : Dict (Dict (ExperimentAssignmentRecord Float))
  pub audit_logger : Option AuditLog

-- `text or default`
abbrev pub or_default : Option String → String → String
or_default none default = default
or_default (some s) default = if s == "" then default else s

-- `StratumKey.to_canonical_str`
unfoldable pub to_canonical_str : RiskTier → String → Option String → String
to_canonical_str risk_tier currency failure_code =
    risk_tier_value risk_tier
    & ":"
    & upper (strip currency)
    & ":"
    & upper (strip (or_default failure_code "NONE"))

unfoldable pub compute_stratum : RecoveryCase → Option String → String
unfolding to_canonical_str
compute_stratum case failure_code = to_canonical_str case.risk_tier case.currency failure_code

-- The value of a hexadecimal digit in small letters.
abbrev pub digit_value : Char → ℕ
digit_value c = if leb 97 (code c) then code c - 87 else code c - 48

-- `int(digest[:n], 16)`, after the digits so far.
unfoldable pub prefix_value : ℕ → ℕ → String → ℕ
prefix_value zero value digits = value
prefix_value (suc n) value ε = value
prefix_value (suc n) value (c ◂ digits) = prefix_value n (value * 16 + digit_value c) digits

-- The record of an experiment and a case, under two keys.
abbrev pub or_nothing : {A : Type 0} → String → Option (Dict A) → Option A
or_nothing k none = none
or_nothing k (some d) = lookup k d

unfoldable pub find : {A : Type 0} → String → String → Dict (Dict A) → Option A
find j k d = or_nothing k (lookup j d)

abbrev pub or_empty : {A : Type 0} → Option (Dict A) → Dict A
or_empty none = []
or_empty (some d) = d

unfoldable pub put : {A : Type 0} → String → String → A → Dict (Dict A) → Dict (Dict A)
put j k v d = insert j (insert k v (or_empty (lookup j d))) d

module _ (rt : Runtime) (doubles : Doubles) where
  abbrev Config : Type 0
  Config = ExperimentConfig doubles.Float

  abbrev Assigned : Type 0
  Assigned = ExperimentAssignmentRecord doubles.Float

  abbrev Engine : Type 0
  Engine = ExperimentEngine doubles.Float

  unfoldable pub register_experiment : Config → Engine → Engine
  register_experiment config s = record s {
    experiments = insert config.experiment_id config s.experiments;
  }

  -- The experiment that stands in where none is given.
  abbrev pub default_config : Config
  default_config = record {
    experiment_id = "default_recovery_rct";
    name = "Default Recovery RCT 80/10/10";
    treatment_ratio = doubles.hundredths 80;
    control_ratio = doubles.hundredths 10;
    excluded_ratio = doubles.hundredths 10;
    salt = "default_rct_salt_v1";
    is_active = true;
  }

  abbrev pub config_or : Option Config → Config
  config_or none = default_config
  config_or (some config) = config

  unfoldable pub new : Option Config → Option AuditLog → Engine
  unfolding register_experiment
  new given audit_logger =
      let config = config_or given in
      register_experiment config (record {
        default_experiment_id = config.experiment_id;
        experiments = [];
        assignments = [];
        audit_logger = audit_logger;
      })

  abbrev or_key_error : Option Config → Result Error Config
  or_key_error none = err key_error
  or_key_error (some config) = ok config

  unfoldable pub get_experiment : String → Engine → Result Error Config
  get_experiment experiment_id s = or_key_error (lookup experiment_id s.experiments)

  unfoldable pub compute_bucket_score : String → String → String → String → doubles.Float
  unfolding prefix_value
  compute_bucket_score salt experiment_id customer_id stratum = doubles.over_2_64 (
      prefix_value 16 0
        (rt.sha256 (salt & ":" & experiment_id & ":" & customer_id & ":" & stratum)))

  -- The arm of a score.
  abbrev pub arm_of : Config → doubles.Float → ExperimentAssignment
  arm_of config score =
      if doubles.lt score config.treatment_ratio
      then treatment
      else if doubles.lt score (doubles.add config.treatment_ratio config.control_ratio)
      then control
      else excluded

  unfoldable pub assignment_payload : Assigned → Value
  assignment_payload r = dict_of (
      ("assignment_id", text r.assignment_id)
      ∷ ("experiment_id", text r.experiment_id)
      ∷ ("case_id", text r.case_id)
      ∷ ("customer_id", text r.customer_id)
      ∷ ("stratum", text r.stratum)
      ∷ ("assignment", text (experiment_value r.assignment))
      ∷ ("bucket_score", doubles.to_value r.bucket_score)
      ∷ ("assigned_at", text (rt.isoformat r.assigned_at))
      ∷ [])

  -- The record that a case without one gets.
  unfoldable pub record_of : String → RecoveryCase → Config → String → ℕ → Assigned
  unfolding compute_bucket_score
  record_of assignment_id case config stratum now =
      let score = compute_bucket_score config.salt config.experiment_id case.customer_id stratum in
      record {
        assignment_id = assignment_id;
        experiment_id = config.experiment_id;
        case_id = case.case_id;
        customer_id = case.customer_id;
        stratum = stratum;
        assignment = arm_of config score;
        bucket_score = score;
        assigned_at = now;
      }

  abbrev pub return_or :
      Option Assigned → String → String → Assigned → ℕ → Exec Error Engine Assigned
  return_or (some r) exp_id case_id fresh now s = (ok r, s)
  return_or none exp_id case_id fresh now s = (
    ok fresh,
    record s {
      assignments = put case_id exp_id fresh s.assignments;
      audit_logger =
          log_event rt "EXPERIMENT_ASSIGNED" (assignment_payload fresh) now s.audit_logger;
    },
  )

  abbrev pub assign_in :
      Option Config → String → String → RecoveryCase → String → ℕ → Exec Error Engine Assigned
  assign_in none exp_id id case stratum now s = (err key_error, s)
  assign_in (some config) exp_id id case stratum now s =
      if not config.is_active
      then (err value_error, s)
      else return_or (find case.case_id exp_id s.assignments) exp_id case.case_id
          (record_of id case config stratum now) now s

  unfoldable pub assign :
      String
      → RecoveryCase
      → Option String
      → Option String
      → ℕ
      → Option String
      → Exec Error Engine Assigned
  unfolding find put assignment_payload record_of compute_stratum
  assign id case experiment_id stratum_override now failure_code s =
      let exp_id = or_default experiment_id s.default_experiment_id in
      assign_in (lookup exp_id s.experiments) exp_id id case
        (or_default stratum_override (compute_stratum case failure_code)) now s

  unfoldable pub get_assignment_for_case : String → Option String → Engine → Option Assigned
  unfolding find
  get_assignment_for_case case_id experiment_id s =
      find case_id (or_default experiment_id s.default_experiment_id) s.assignments
