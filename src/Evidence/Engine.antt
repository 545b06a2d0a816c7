-- ===== src/Evidence/Engine.antt =====
-- src/revenue_recovery/evidence/evidence_engine.py. The arithmetic of rates is that of floats: the
-- parameter Rates. The random id of an event is an argument; the experiment engine that is handed
-- over is stored and never used, and left out.
pub mod Cohorts
pub mod Reporting
use Prim.Native.Nat.{◌+◌}
use Prim.Native.String.{count}
use ai_revenue_recovery.Prelude.{
  ℕ, String, Bool, true, false, Option, none, some, List, [], ◌∷◌, ◌==◌, eqb, ltb, not, ◌&&◌, ◌||◌,
  if◌then◌else◌, length,
}
use ai_revenue_recovery.Prelude.Exec.{Result, ok, err, Exec}
use ai_revenue_recovery.Foundation.Errors.{Error, validation_error}
use ai_revenue_recovery.Foundation.Value.{Value, Items, nil, cons, null, text, nat, list, dict_of}
use ai_revenue_recovery.Foundation.Runtime.{Runtime}
use ai_revenue_recovery.Foundation.Audit.{AuditLog, canonical_json}
use ai_revenue_recovery.Foundation.Audited.{log_event}
use ai_revenue_recovery.Reconciliation.Ledger.{
  RevenueLedger, LedgerSummary, is_confirmed, get_case_summary,
}

pub record Rates : Type 1 where
  pub Float : Type 0
  -- `0.0`
  pub zero_rate : Float
  -- A quotient of two numbers, of which the second is not 0.
  pub ratio : ℕ → ℕ → Float
  -- `(a - b) / b`
  pub relative : Float → Float → Float
  -- `a > 0`
  pub is_positive : Float → Bool
  -- `round(a, 4)`
  pub round_4 : Float → Float
  -- What a payload holds.
  pub to_value : Float → Value

-- `EXPERIMENTAL` is never given.
pub data ReportingState : Type 0 where
  approved experimental directional not_reportable data_pending : ReportingState

abbrev pub reporting_state_value : ReportingState → String
reporting_state_value approved = "APPROVED"
reporting_state_value experimental = "EXPERIMENTAL"
reporting_state_value directional = "DIRECTIONAL"
reporting_state_value not_reportable = "NOT_REPORTABLE"
reporting_state_value data_pending = "DATA_PENDING"

-- The reasons that the engine gives.
pub data BlockingReason : Type 0 where
  no_experiment_control backtesting_only unsettled_revenue insufficient_sample_size : BlockingReason

abbrev pub blocking_reason_value : BlockingReason → String
blocking_reason_value no_experiment_control = "NO_EXPERIMENT_CONTROL"
blocking_reason_value backtesting_only = "BACKTESTING_ONLY"
blocking_reason_value unsettled_revenue = "UNSETTLED_REVENUE"
blocking_reason_value insufficient_sample_size = "INSUFFICIENT_SAMPLE_SIZE"

pub record EvidenceMetricEntry (Float : Type 0) : Type 0 where
  pub metric_id : String
  pub evaluation_window : String
  pub reporting_state : ReportingState
  pub gross_recovered : ℕ
  pub confirmed_recovered : ℕ
  pub incremental_lift : Option Float
  -- There is at most one.
  pub blocking_reasons : Option BlockingReason
  pub treatment_count : ℕ
  pub control_count : ℕ
  pub treatment_recovered_count : ℕ
  pub control_recovered_count : ℕ
  pub provenance_hash : String
  pub computed_at : ℕ

pub record EvidenceEngine (Float : Type 0) : Type 0 where
  pub ledger : Option RevenueLedger
  pub audit_logger : Option AuditLog
  pub registry : List (String × String × EvidenceMetricEntry Float)

-- What a cohort has recovered: gross, confirmed, and in how many cases.
pub record Recovered : Type 0 where
  pub gross : ℕ
  pub confirmed : ℕ
  pub cases : ℕ

abbrev pub nothing : Recovered
nothing = record { gross = 0; confirmed = 0; cases = 0 }

-- The two conditions under which a case counts as recovered.
abbrev pub has_recovered : LedgerSummary → Bool
has_recovered s =
    ltb 0 s.total_net_confirmed || is_confirmed s.latest_state || ltb 0 s.total_gross_recovered

-- One turn of a loop over a cohort, whose lookup may raise.
abbrev pub count_case : Result Error LedgerSummary → Recovered → Recovered
count_case (err e) r = r
count_case (ok s) r = record {
  gross = r.gross + s.total_gross_recovered;
  confirmed = r.confirmed + s.total_net_confirmed;
  cases = if has_recovered s then r.cases + 1 else r.cases;
}

unfoldable pub count_cohort : RevenueLedger → List String → Recovered → Recovered
count_cohort l [] r = r
count_cohort l (cid ∷ cids) r = count_cohort l cids (count_case (get_case_summary cid l) r)

abbrev pub cohort_of : Option RevenueLedger → List String → Recovered
cohort_of none cids = nothing
cohort_of (some l) cids = count_cohort l cids nothing

unfoldable pub find_entry : {A : Type 0} → String → String → List (String × String × A) → Option A
find_entry metric window [] = none
find_entry metric window ((m, w, entry) ∷ rest) =
    if m == metric && w == window then some entry else find_entry metric window rest

unfoldable pub put_entry :
    {A : Type 0} → String → String → A → List (String × String × A) → List (String × String × A)
put_entry metric window entry [] = (metric, window, entry) ∷ []
put_entry metric window entry ((m, w, old) ∷ rest) =
    if m == metric && w == window
    then (m, w, entry) ∷ rest
    else (m, w, old) ∷ put_entry metric window entry rest

unfoldable pub entries : {A : Type 0} → List (String × String × A) → List A
entries [] = []
entries ((_, _, entry) ∷ rest) = entry ∷ entries rest

-- What the caller hands over, beside the time.
pub record Window : Type 0 where
  pub metric_id : String
  pub evaluation_window : String
  pub treatment_case_ids : List String
  pub control_case_ids : List String
  pub is_backtest : Bool
  pub min_sample_size : ℕ

abbrev pub reasons : Option BlockingReason → Value
reasons none = list nil
reasons (some r) = list (cons (text (blocking_reason_value r)) nil)

module _ (rt : Runtime) (rates : Rates) where
  abbrev pub rate_of : ℕ → ℕ → rates.Float
  rate_of recovered size = if ltb 0 size then rates.ratio recovered size else rates.zero_rate

  abbrev pub raw_lift : rates.Float → rates.Float → rates.Float
  raw_lift treated held =
      if rates.is_positive held
      then rates.relative treated held
      else if rates.is_positive treated
      then treated
      else rates.zero_rate

  -- The state, the reason against it and the lift.
  unfoldable pub verdict :
      Window → Recovered → Recovered → ReportingState × Option BlockingReason × Option rates.Float
  verdict w treated held =
      let treatment_count = length w.treatment_case_ids in
      let control_count = length w.control_case_ids in
      let lift = some (
        rates.round_4
          (raw_lift (rate_of treated.cases treatment_count) (rate_of held.cases control_count))) in
      if w.is_backtest
      then (not_reportable, some backtesting_only, none)
      else if eqb control_count 0
      then (directional, some no_experiment_control, none)
      else if ltb treatment_count w.min_sample_size || ltb control_count w.min_sample_size
      then (data_pending, some insufficient_sample_size, lift)
      else if ltb 0 (treated.gross + held.gross) && eqb (treated.confirmed + held.confirmed) 0
      then (data_pending, some unsettled_revenue, lift)
      else (approved, none, lift)

  abbrev pub lift_value : Option rates.Float → Value
  lift_value none = null
  lift_value (some lift) = rates.to_value lift

  unfoldable pub provenance : EvidenceMetricEntry rates.Float → Value
  provenance e = dict_of (
      ("metric_id", text e.metric_id)
      ∷ ("evaluation_window", text e.evaluation_window)
      ∷ ("reporting_state", text (reporting_state_value e.reporting_state))
      ∷ ("gross_recovered", nat e.gross_recovered)
      ∷ ("confirmed_recovered", nat e.confirmed_recovered)
      ∷ ("incremental_lift", lift_value e.incremental_lift)
      ∷ ("blocking_reasons", reasons e.blocking_reasons)
      ∷ ("treatment_count", nat e.treatment_count)
      ∷ ("control_count", nat e.control_count)
      ∷ ("treatment_recovered_count", nat e.treatment_recovered_count)
      ∷ ("control_recovered_count", nat e.control_recovered_count)
      ∷ [])

  unfoldable pub calculated_payload : String → EvidenceMetricEntry rates.Float → ℕ → Value
  calculated_payload event_id e now = dict_of (
      ("event_id", text event_id)
      ∷ ("window_id", text e.evaluation_window)
      ∷ ("metric_id", text e.metric_id)
      ∷ ("reporting_state", text (reporting_state_value e.reporting_state))
      ∷ ("gross_recovered", nat e.gross_recovered)
      ∷ ("confirmed_recovered", nat e.confirmed_recovered)
      ∷ ("incremental_lift", lift_value e.incremental_lift)
      ∷ ("blocking_reasons", reasons e.blocking_reasons)
      ∷ ("provenance_hash", text e.provenance_hash)
      ∷ ("timestamp", text (rt.json_datetime now))
      ∷ [])

  -- The entry of a verdict, before its hash is known.
  abbrev pub draft_of :
      Window
      → Recovered
      → Recovered
      → ReportingState × Option BlockingReason × Option rates.Float
      → ℕ
      → EvidenceMetricEntry rates.Float
  draft_of w treated held (state, reason, lift) now = record {
    metric_id = w.metric_id;
    evaluation_window = w.evaluation_window;
    reporting_state = state;
    gross_recovered = treated.gross + held.gross;
    confirmed_recovered = treated.confirmed + held.confirmed;
    incremental_lift = lift;
    blocking_reasons = reason;
    treatment_count = length w.treatment_case_ids;
    control_count = length w.control_case_ids;
    treatment_recovered_count = treated.cases;
    control_recovered_count = held.cases;
    provenance_hash = "";
    computed_at = now;
  }

  unfoldable pub entry_of : Window → ℕ → Option RevenueLedger → EvidenceMetricEntry rates.Float
  unfolding verdict provenance count_cohort
  entry_of w now ledger =
      let treated = cohort_of ledger w.treatment_case_ids in
      let held = cohort_of ledger w.control_case_ids in
      let draft = draft_of w treated held (verdict w treated held) now in
      record draft { provenance_hash = rt.sha256 (canonical_json rt (provenance draft)) }

  -- What the fields of the entry, and of the event after it, ask for.
  unfoldable pub accepts_entry : EvidenceMetricEntry rates.Float → Bool
  accepts_entry e =
      not (e.metric_id == "") && not (e.evaluation_window == "") && eqb (count e.provenance_hash) 64

  -- The registration of a new entry.
  unfoldable pub record_evidence :
      String
      → ℕ
      → EvidenceMetricEntry rates.Float
      → Exec Error (EvidenceEngine rates.Float) (EvidenceMetricEntry rates.Float)
  unfolding accepts_entry put_entry calculated_payload
  record_evidence event_id now entry s =
      if accepts_entry entry
      then (
        ok entry,
        record s {
          registry = put_entry entry.metric_id entry.evaluation_window entry s.registry;
          audit_logger =
              log_event rt "EVIDENCE_CALCULATED" (calculated_payload event_id entry now) now
                s.audit_logger;
        },
      )
      else (err validation_error, s)

  unfoldable pub evaluate_window :
      String
      → Window
      → ℕ
      → Exec Error (EvidenceEngine rates.Float) (EvidenceMetricEntry rates.Float)
  unfolding entry_of record_evidence
  evaluate_window event_id w now s = record_evidence event_id now (entry_of w now s.ledger) s

  unfoldable pub get_evidence :
      String → String → EvidenceEngine rates.Float → Option (EvidenceMetricEntry rates.Float)
  unfolding find_entry
  get_evidence metric window s = find_entry metric window s.registry

  unfoldable pub list_metrics : EvidenceEngine rates.Float → List (EvidenceMetricEntry rates.Float)
  unfolding entries
  list_metrics s = entries s.registry
