-- ===== src/Examples/Ledgers.antt =====
-- A settlement that is disputed, and delivered twice.
use ai_revenue_recovery.Prelude.{
  ℕ, ◌≤◌, String, Bool, true, false, Option, none, some, List, [], ◌∷◌, ◌≡◌, refl, arith, All,
  if◌then◌else◌,
}
use ai_revenue_recovery.Prelude.Int.{pos}
use ai_revenue_recovery.Prelude.Exec.{ok}
use ai_revenue_recovery.Reconciliation.Ledger.{
  RevenueLedger, RevenueLedgerEntry, LedgerSummary, Ids, Posting, confirmed_settled, disputed,
  gross_recovered, get_entries_for_case, get_case_summary, of_case, is_reversal,
}
use ai_revenue_recovery.Reconciliation.Ledger.Accounting
use ai_revenue_recovery.Reconciliation.Ledger.Accounting.{Appends, IsConsistent, steps-Appends}
use ai_revenue_recovery.Reconciliation.Ledger.Summary.{IsSummary, get_case_summary-IsSummary}
use ai_revenue_recovery.Reconciliation.Handler.{
  SettlementDisputeHandler, SettlementWebhook, DisputeWebhook, general, won, under_review,
}
use ai_revenue_recovery.Reconciliation.Handler.Deduplication.{
  Call, settlement, dispute, refund, run, steps, run-replays,
}
use ai_revenue_recovery.Examples.Logs.{runtime}

abbrev stamp : ℕ → String
stamp now = "20260101000000"

abbrev ids : Ids
ids = record { entry_id = "n1"; event_id = "v1" }

abbrev posting : Posting
posting = record { case_id = "c1"; execution_id = none; currency = "inr"; reference = "r1" }

abbrev settled : RevenueLedgerEntry
settled = record {
  entry_id = "n1";
  case_id = "c1";
  execution_id = none;
  financial_state = confirmed_settled;
  gross_amount = 1000;
  net_confirmed_amount = 950;
  currency = "INR";
  reconciliation_reference = "settlement_s1";
  recorded_at = 5;
}

abbrev contested : RevenueLedgerEntry
contested = record settled {
  entry_id = "n0";
  financial_state = disputed;
  gross_amount = 100;
  net_confirmed_amount = 0;
  recorded_at = 9;
}

abbrev ledger : RevenueLedger
ledger = record { entries = contested ∷ settled ∷ []; audit = none }

abbrev ledger_calls : List Accounting.Call
ledger_calls =
    Accounting.gross_recovery ids posting (pos 1000) 3
    ∷ Accounting.settlement ids posting (pos 1000) (pos 1200) 4
    ∷ Accounting.entry ids posting gross_recovered (pos 10) (pos 10) 5
    ∷ []

steps-Appends_example :
    Appends ledger.entries (Accounting.steps runtime stamp ledger_calls ledger).entries
steps-Appends_example = steps-Appends runtime stamp ledger_calls ledger

abbrev summary : LedgerSummary
summary = record {
  case_id = "c1";
  currency = "INR";
  total_gross_recovered = 1000;
  total_net_confirmed = 0;
  latest_state = disputed;
  entry_count = 2;
}

get_case_summary-IsSummary_example : IsSummary "c1" ledger.entries summary
unfolding get_case_summary ai_revenue_recovery.Prelude.Sorting.sort
    ai_revenue_recovery.Prelude.Sorting.insert_sorted
get_case_summary-IsSummary_example =
    get_case_summary-IsSummary "c1" ledger {s = summary} (tt, ((omega arith, omega arith), tt)) refl

abbrev handler : SettlementDisputeHandler
handler = record {
  ledger = record { entries = []; audit = none };
  audit = none;
  processed_webhooks = [];
}

abbrev settlement_hook : SettlementWebhook
settlement_hook = record {
  event_id = "w1";
  settlement_id = "s1";
  case_id = "c1";
  execution_id = none;
  gross_amount = 1000;
  fee_amount = 50;
  net_amount = 950;
  currency = "INR";
  settled_at = 5;
}

abbrev dispute_hook : DisputeWebhook
dispute_hook = record {
  event_id = "w2";
  dispute_id = "d1";
  case_id = "c1";
  execution_id = none;
  disputed_amount = 100;
  fee_amount = 0;
  currency = "INR";
  reason = general;
  stage = won;
  occurred_at = 9;
}

run-replays_example :
    let h' =
      steps runtime stamp
        (dispute ids "v2" dispute_hook ∷ [])
        (run runtime stamp (settlement ids "v1" settlement_hook) handler).1 in
    run runtime stamp (settlement ids "v3" settlement_hook) h' ≡ (ok settled, h')
unfolding run ai_revenue_recovery.Prelude.Dict.lookup
    ai_revenue_recovery.Reconciliation.Ledger.record_confirmed_settlement
    ai_revenue_recovery.Prelude.is_code ai_revenue_recovery.Prelude.upper
    ai_revenue_recovery.Reconciliation.Ledger.amounts_consistent
run-replays_example =
    run-replays runtime stamp (settlement ids "v1" settlement_hook)
      (dispute ids "v2" dispute_hook ∷ []) (settlement ids "v3" settlement_hook) handler "w1"
      settled refl refl refl

abbrev hooks : List Call
hooks =
    settlement ids "v1" settlement_hook
    ∷ dispute ids "v2" dispute_hook
    ∷ refund ids posting (pos 100) 12
    ∷ []

-- A won dispute over a part of a settlement leaves that part as all that is confirmed.
won_part_runs :
    get_case_summary "c1"
      (steps runtime stamp
        (settlement ids "v1" settlement_hook ∷ dispute ids "v2" dispute_hook ∷ [])
        handler).ledger
    ≡ ok (record {
      case_id = "c1";
      currency = "INR";
      total_gross_recovered = 1000;
      total_net_confirmed = 100;
      latest_state = confirmed_settled;
      entry_count = 2;
    })
unfolding run get_case_summary ai_revenue_recovery.Prelude.Dict.lookup
    ai_revenue_recovery.Reconciliation.Ledger.record_confirmed_settlement
    ai_revenue_recovery.Prelude.is_code ai_revenue_recovery.Prelude.upper
    ai_revenue_recovery.Reconciliation.Ledger.amounts_consistent
    ai_revenue_recovery.Prelude.Dict.insert ai_revenue_recovery.Reconciliation.Handler.target_state
    ai_revenue_recovery.Prelude.Sorting.sort ai_revenue_recovery.Prelude.Sorting.insert_sorted
won_part_runs = refl
