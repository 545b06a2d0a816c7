-- ===== src/Governance/Arbitrator/Matrix.antt =====
-- The verdicts of arbitrator.py and the matrix that combines them.
use ai_revenue_recovery.Prelude.{String}
use ai_revenue_recovery.Foundation.Audit.{◌&◌}

pub data SafetyVerdict : Type 0 where
  pass circuit_broken kill_switch_active capacity_exceeded : SafetyVerdict

pub data ComplianceVerdict : Type 0 where
  approved blocked deferred : ComplianceVerdict

pub data ExperimentAssignment : Type 0 where
  treatment control excluded : ExperimentAssignment

pub data ArbitratedOutcome : Type 0 where
  proceed block defer hold : ArbitratedOutcome

abbrev pub safety_value : SafetyVerdict → String
safety_value pass = "PASS"
safety_value circuit_broken = "CIRCUIT_BROKEN"
safety_value kill_switch_active = "KILL_SWITCH_ACTIVE"
safety_value capacity_exceeded = "CAPACITY_EXCEEDED"

abbrev pub compliance_value : ComplianceVerdict → String
compliance_value approved = "APPROVED"
compliance_value blocked = "BLOCKED"
compliance_value deferred = "DEFERRED"

abbrev pub experiment_value : ExperimentAssignment → String
experiment_value treatment = "TREATMENT"
experiment_value control = "CONTROL"
experiment_value excluded = "EXCLUDED"

abbrev pub outcome_value : ArbitratedOutcome → String
outcome_value proceed = "PROCEED"
outcome_value block = "BLOCK"
outcome_value defer = "DEFER"
outcome_value hold = "HOLD"

abbrev if_compliant : ComplianceVerdict → ExperimentAssignment → ArbitratedOutcome
if_compliant blocked _ = block
if_compliant deferred _ = defer
if_compliant approved control = hold
if_compliant approved excluded = block
if_compliant approved treatment = proceed

-- Step 3 of `arbitrate`: the outcome.
unfoldable pub arbitrated :
    SafetyVerdict → ComplianceVerdict → ExperimentAssignment → ArbitratedOutcome
arbitrated kill_switch_active compliance assignment = block
arbitrated circuit_broken compliance assignment = hold
arbitrated capacity_exceeded compliance assignment = hold
arbitrated pass compliance assignment = if_compliant compliance assignment

abbrev why_compliant : ComplianceVerdict → ExperimentAssignment → String → String
why_compliant blocked _ why = "Compliance Block: " & why
why_compliant deferred _ why = "Compliance Defer: " & why
why_compliant approved control why =
    "Experiment Holdback: Case assigned to CONTROL group counterfactual baseline."
why_compliant approved excluded why =
    "Experiment Exclusion: Case is EXCLUDED from automated recovery."
why_compliant approved treatment why =
    "All governance gates passed: Safety PASS, Compliance APPROVED, Experiment TREATMENT."

-- Step 3 of `arbitrate`: the rationale.
unfoldable pub rationale_of :
    SafetyVerdict → ComplianceVerdict → ExperimentAssignment → String → String → String
rationale_of kill_switch_active compliance assignment why_safety why = "Safety Block: " & why_safety
rationale_of circuit_broken compliance assignment why_safety why = "Safety Hold: " & why_safety
rationale_of capacity_exceeded compliance assignment why_safety why = "Safety Hold: " & why_safety
rationale_of pass compliance assignment why_safety why = why_compliant compliance assignment why
