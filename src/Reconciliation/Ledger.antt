-- ===== src/Reconciliation/Ledger.antt =====
-- src/revenue_recovery/reconciliation/ledger.py: the append-only ledger. The random ids of an entry
-- and of its event are arguments; `stamp` is the text that strftime makes of a time. A state that is
-- given as a text is a state here.
pub mod Accounting
pub mod Summary
use ai_revenue_recovery.Prelude.{
  ℕ, suc, ◌+◌, String, Bool, true, false, Option, none, some, List, [], ◌∷◌, ◌++◌, ◌==◌, eqb, ltb,
  leb, not, ◌&&◌, ◌||◌, if◌then◌else◌, max, length, upper, is_code,
}
use ai_revenue_recovery.Prelude.Int.{ℤ, pos, negsuc}
use ai_revenue_recovery.Prelude.Exec.{Result, ok, err, Exec}
use ai_revenue_recovery.Prelude.Sorting.{leb_text, sort}
use ai_revenue_recovery.Foundation.Errors.{Error, value_error, validation_error}
use ai_revenue_recovery.Foundation.Value.{Value, text, nat, dict_of}
use ai_revenue_recovery.Foundation.Runtime.{Runtime}
use ai_revenue_recovery.Foundation.Audit.{AuditLog, ◌&◌}
use ai_revenue_recovery.Foundation.Audited.{log_event}

pub data FinancialState : Type 0 where
  initiated gross_recovered confirmed_settled disputed refunded written_off : FinancialState

abbrev pub financial_state_value : FinancialState → String
financial_state_value initiated = "INITIATED"
financial_state_value gross_recovered = "GROSS_RECOVERED"
financial_state_value confirmed_settled = "CONFIRMED_SETTLED"
financial_state_value disputed = "DISPUTED"
financial_state_value refunded = "REFUNDED"
financial_state_value written_off = "WRITTEN_OFF"

pub record RevenueLedgerEntry : Type 0 where
  pub entry_id : String
  pub case_id : String
  pub execution_id : Option String
  pub financial_state : FinancialState
  pub gross_amount : ℕ
  pub net_confirmed_amount : ℕ
  pub currency : String
  pub reconciliation_reference : String
  pub recorded_at : ℕ

pub record RevenueLedger : Type 0 where
  pub entries : List RevenueLedgerEntry
  pub audit : Option AuditLog

pub record LedgerSummary : Type 0 where
  pub case_id : String
  pub currency : String
  pub total_gross_recovered : ℕ
  pub total_net_confirmed : ℕ
  pub latest_state : FinancialState
  pub entry_count : ℕ

-- The random ids that one call draws.
pub record Ids : Type 0 where
  pub entry_id : String
  pub event_id : String

-- What a caller hands over beside the amounts.
pub record Posting : Type 0 where
  pub case_id : String
  pub execution_id : Option String
  pub currency : String
  pub reference : String

-- `validate_amounts_consistency`
unfoldable pub amounts_consistent : FinancialState → ℕ → ℕ → Bool
amounts_consistent initiated gross net = eqb net 0
amounts_consistent gross_recovered gross net = eqb net 0
amounts_consistent confirmed_settled gross net = ltb 0 net && leb net gross
amounts_consistent _ gross net = true

abbrev pub reference_or : String → String → String
reference_or given default = if given == "" then default else given

module _ (rt : Runtime) (stamp : ℕ → String) where
  -- The constructor of `RevenueLedgerEntry`.
  unfoldable pub entry_of :
      Ids → Posting → FinancialState → ℕ → ℕ → ℕ → Result Error RevenueLedgerEntry
  entry_of ids p state gross net now =
      if not (p.case_id == "") && is_code p.currency && amounts_consistent state gross net
      then ok (record {
        entry_id = ids.entry_id;
        case_id = p.case_id;
        execution_id = p.execution_id;
        financial_state = state;
        gross_amount = gross;
        net_confirmed_amount = net;
        currency = upper p.currency;
        reconciliation_reference = reference_or p.reference ("rec_" & p.case_id & "_" & stamp now);
        recorded_at = now;
      })
      else err validation_error

  -- The event of `_record_audit_event`.
  unfoldable pub recorded_payload : String → RevenueLedgerEntry → ℕ → Value
  recorded_payload event_id e now = dict_of (
      ("event_id", text event_id)
      ∷ ("entry_id", text e.entry_id)
      ∷ ("case_id", text e.case_id)
      ∷ ("financial_state", text (financial_state_value e.financial_state))
      ∷ ("gross_amount", nat e.gross_amount)
      ∷ ("net_confirmed_amount", nat e.net_confirmed_amount)
      ∷ ("currency", text e.currency)
      ∷ ("reconciliation_reference", text e.reconciliation_reference)
      ∷ ("occurred_at", text (rt.json_datetime now))
      ∷ [])

  abbrev store_entry :
      Result Error RevenueLedgerEntry → String → ℕ → Exec Error RevenueLedger RevenueLedgerEntry
  store_entry (err e) event_id now l = (err e, l)
  store_entry (ok entry) event_id now l = (
    ok entry,
    record {
      entries = l.entries ++ entry ∷ [];
      audit =
          log_event rt "LEDGER_ENTRY_RECORDED" (recorded_payload event_id entry now) now l.audit;
    },
  )

  unfoldable pub record_entry :
      Ids → Posting → FinancialState → ℤ → ℤ → ℕ → Exec Error RevenueLedger RevenueLedgerEntry
  unfolding entry_of
  record_entry ids p state (negsuc _) net now l = (err value_error, l)
  record_entry ids p state (pos gross) (negsuc _) now l = (err value_error, l)
  record_entry ids p state (pos gross) (pos net) now l =
      store_entry (entry_of ids p state gross net now) ids.event_id now l

  unfoldable pub record_gross_recovery :
      Ids → Posting → ℤ → ℕ → Exec Error RevenueLedger RevenueLedgerEntry
  unfolding record_entry
  record_gross_recovery ids p (negsuc _) now l = (err value_error, l)
  record_gross_recovery ids p (pos gross) now l =
      if eqb gross 0
      then (err value_error, l)
      else record_entry ids p gross_recovered (pos gross) (pos 0) now l

  unfoldable pub record_confirmed_settlement :
      Ids → Posting → ℤ → ℤ → ℕ → Exec Error RevenueLedger RevenueLedgerEntry
  unfolding record_entry
  record_confirmed_settlement ids p (negsuc _) net now l = (err value_error, l)
  record_confirmed_settlement ids p (pos gross) (negsuc _) now l = (err value_error, l)
  record_confirmed_settlement ids p (pos gross) (pos net) now l =
      if eqb gross 0 || eqb net 0 || ltb gross net
      then (err value_error, l)
      else record_entry ids p confirmed_settled (pos gross) (pos net) now l

-- `e.case_id == case_id`
unfoldable pub of_case : String → List RevenueLedgerEntry → List RevenueLedgerEntry
of_case case_id [] = []
of_case case_id (e ∷ es) =
    let rest = of_case case_id es in if e.case_id == case_id then e ∷ rest else rest

-- The order of the keys `(recorded_at, entry_id)`.
abbrev pub not_after : RevenueLedgerEntry → RevenueLedgerEntry → Bool
not_after a b =
    ltb a.recorded_at b.recorded_at
    || eqb a.recorded_at b.recorded_at && leb_text a.entry_id b.entry_id

unfoldable pub get_entries_for_case : String → RevenueLedger → List RevenueLedgerEntry
unfolding of_case
get_entries_for_case case_id l = sort not_after (of_case case_id l.entries)

unfoldable pub get_all_entries : RevenueLedger → List RevenueLedgerEntry
get_all_entries l = sort not_after l.entries

abbrev pub is_recovery : FinancialState → Bool
is_recovery gross_recovered = true
is_recovery confirmed_settled = true
is_recovery _ = false

abbrev pub is_confirmed : FinancialState → Bool
is_confirmed confirmed_settled = true
is_confirmed _ = false

abbrev pub is_reversal : FinancialState → Bool
is_reversal disputed = true
is_reversal refunded = true
is_reversal written_off = true
is_reversal _ = false

-- `max(..., default=0)` over the recovery stages.
unfoldable pub gross_max : List RevenueLedgerEntry → ℕ
gross_max [] = 0
gross_max (e ∷ es) =
    let rest = gross_max es in
    if is_recovery e.financial_state then max e.gross_amount rest else rest

-- `confirmed_entries[-1].net_confirmed_amount`, or the number so far.
unfoldable pub last_confirmed : ℕ → List RevenueLedgerEntry → ℕ
last_confirmed net [] = net
last_confirmed net (e ∷ es) =
    last_confirmed (if is_confirmed e.financial_state then e.net_confirmed_amount else net) es

abbrev pub latest : RevenueLedgerEntry → List RevenueLedgerEntry → RevenueLedgerEntry
latest e [] = e
latest e (f ∷ es) = latest f es

unfoldable pub summarize : String → List RevenueLedgerEntry → Result Error LedgerSummary
unfolding gross_max last_confirmed
summarize case_id [] = err value_error
summarize case_id (e ∷ es) =
    let last = latest e es in
    ok (record {
      case_id = case_id;
      currency = e.currency;
      total_gross_recovered = gross_max (e ∷ es);
      total_net_confirmed =
          if is_reversal last.financial_state then 0 else last_confirmed 0 (e ∷ es);
      latest_state = last.financial_state;
      entry_count = length (e ∷ es);
    })

-- `get_case_summary`
unfoldable pub get_case_summary : String → RevenueLedger → Result Error LedgerSummary
unfolding summarize get_entries_for_case
get_case_summary case_id l = summarize case_id (get_entries_for_case case_id l)
