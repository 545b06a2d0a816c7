-- ===== src/Reconciliation/Handler.antt =====
-- `SettlementDisputeHandler` of src/revenue_recovery/reconciliation/dispute_handler.py. The ledger is
-- the handler's own here; its audit log and the handler's may be one object in the program.
pub mod Deduplication
use ai_revenue_recovery.Prelude.{
  ℕ, ◌+◌, String, Bool, true, false, Option, none, some, List, [], ◌∷◌, ◌==◌, eqb, if◌then◌else◌,
  is_some,
}
use ai_revenue_recovery.Prelude.Int.{ℤ, pos, negsuc}
use ai_revenue_recovery.Prelude.Exec.{Result, ok, err, Exec}
use ai_revenue_recovery.Prelude.Dict.{Dict, lookup, insert}
use ai_revenue_recovery.Foundation.Errors.{Error, value_error}
use ai_revenue_recovery.Foundation.Value.{Value, text, nat, dict_of}
use ai_revenue_recovery.Foundation.Runtime.{Runtime}
use ai_revenue_recovery.Foundation.Audit.{AuditLog, ◌&◌}
use ai_revenue_recovery.Foundation.Audited.{log_event}
use ai_revenue_recovery.Reconciliation.Ledger.{
  FinancialState, confirmed_settled, disputed, refunded, written_off, financial_state_value,
  RevenueLedger, RevenueLedgerEntry, Ids, Posting, record_entry, record_confirmed_settlement,
  reference_or,
}

pub data DisputeReason : Type 0 where
  fraudulent unrecognized_charge product_not_received duplicate_charge : DisputeReason
  subscription_canceled general : DisputeReason

abbrev dispute_reason_value : DisputeReason → String
dispute_reason_value fraudulent = "FRAUDULENT"
dispute_reason_value unrecognized_charge = "UNRECOGNIZED_CHARGE"
dispute_reason_value product_not_received = "PRODUCT_NOT_RECEIVED"
dispute_reason_value duplicate_charge = "DUPLICATE_CHARGE"
dispute_reason_value subscription_canceled = "SUBSCRIPTION_CANCELED"
dispute_reason_value general = "GENERAL"

pub data DisputeStage : Type 0 where
  needs_response under_review lost won : DisputeStage

abbrev dispute_stage_value : DisputeStage → String
dispute_stage_value needs_response = "NEEDS_RESPONSE"
dispute_stage_value under_review = "UNDER_REVIEW"
dispute_stage_value lost = "LOST"
dispute_stage_value won = "WON"

pub record SettlementWebhook : Type 0 where
  pub event_id : String
  pub settlement_id : String
  pub case_id : String
  pub execution_id : Option String
  pub gross_amount : ℕ
  pub fee_amount : ℕ
  pub net_amount : ℕ
  pub currency : String
  pub settled_at : ℕ

pub record DisputeWebhook : Type 0 where
  pub event_id : String
  pub dispute_id : String
  pub case_id : String
  pub execution_id : Option String
  pub disputed_amount : ℕ
  pub fee_amount : ℕ
  pub currency : String
  pub reason : DisputeReason
  pub stage : DisputeStage
  pub occurred_at : ℕ

pub record SettlementDisputeHandler : Type 0 where
  pub ledger : RevenueLedger
  pub audit : Option AuditLog
  pub processed_webhooks : Dict RevenueLedgerEntry

unfoldable pub is_webhook_processed : String → SettlementDisputeHandler → Bool
is_webhook_processed event_id h = is_some (lookup event_id h.processed_webhooks)

-- `LOST` is written off, `WON` is settled, the other stages are disputed.
unfoldable pub target_state : DisputeStage → FinancialState
target_state lost = written_off
target_state won = confirmed_settled
target_state _ = disputed

-- A known event returns its entry; a new one goes on.
abbrev once :
    Option RevenueLedgerEntry
    → Exec Error SettlementDisputeHandler RevenueLedgerEntry
    → Exec Error SettlementDisputeHandler RevenueLedgerEntry
once (some entry) proceed h = (ok entry, h)
once none proceed h = proceed h

module _ (rt : Runtime) (stamp : ℕ → String) where
  -- The posting on the ledger, then the event in the handler's log and the event's id.
  abbrev posted :
      Result Error RevenueLedgerEntry
      → RevenueLedger
      → String
      → String
      → Value
      → ℕ
      → Exec Error SettlementDisputeHandler RevenueLedgerEntry
  posted (err e) l event_id kind payload now h = (err e, record h { ledger = l })
  posted (ok entry) l event_id kind payload now h = (
    ok entry,
    record {
      ledger = l;
      audit = log_event rt kind payload now h.audit;
      processed_webhooks = insert event_id entry h.processed_webhooks;
    },
  )

  -- What both webhooks do: the idempotency check, then a posting on the ledger.
  abbrev pub deliver :
      String
      → Exec Error RevenueLedger RevenueLedgerEntry
      → String
      → Value
      → ℕ
      → Exec Error SettlementDisputeHandler RevenueLedgerEntry
  deliver event_id post kind payload now h =
      once (lookup event_id h.processed_webhooks)
        (λ h. let (r, l) = post h.ledger in posted r l event_id kind payload now h) h

  abbrev settlement_payload : String → SettlementWebhook → Value
  settlement_payload id w = dict_of (
      ("event_id", text id)
      ∷ ("case_id", text w.case_id)
      ∷ ("settlement_id", text w.settlement_id)
      ∷ ("gross_amount", nat w.gross_amount)
      ∷ ("fee_amount", nat w.fee_amount)
      ∷ ("net_amount", nat w.net_amount)
      ∷ ("state", text (financial_state_value confirmed_settled))
      ∷ ("occurred_at", text (rt.json_datetime w.settled_at))
      ∷ [])

  unfoldable pub process_settlement :
      Ids → String → SettlementWebhook → Exec Error SettlementDisputeHandler RevenueLedgerEntry
  process_settlement ids log_id w =
      deliver w.event_id
        (record_confirmed_settlement rt stamp ids
          (record {
            case_id = w.case_id;
            execution_id = w.execution_id;
            currency = w.currency;
            reference = "settlement_" & w.settlement_id;
          })
          (pos w.gross_amount) (pos w.net_amount) w.settled_at)
        "SETTLEMENT_RECONCILED" (settlement_payload log_id w) w.settled_at

  abbrev dispute_payload : String → DisputeWebhook → Value
  dispute_payload id w = dict_of (
      ("event_id", text id)
      ∷ ("case_id", text w.case_id)
      ∷ ("dispute_id", text w.dispute_id)
      ∷ ("disputed_amount", nat w.disputed_amount)
      ∷ ("fee_amount", nat w.fee_amount)
      ∷ ("reason", text (dispute_reason_value w.reason))
      ∷ ("state", text (financial_state_value (target_state w.stage)))
      ∷ ("occurred_at", text (rt.json_datetime w.occurred_at))
      ∷ [])

  abbrev dispute_posting : String → DisputeWebhook → Posting
  dispute_posting reference w = record {
    case_id = w.case_id;
    execution_id = w.execution_id;
    currency = w.currency;
    reference = reference;
  }

  unfoldable pub post_dispute :
      Ids → DisputeWebhook → FinancialState → Exec Error RevenueLedger RevenueLedgerEntry
  post_dispute ids w confirmed_settled =
      record_confirmed_settlement rt stamp ids (dispute_posting ("dispute_won_" & w.dispute_id) w)
        (pos w.disputed_amount) (pos w.disputed_amount) w.occurred_at
  post_dispute ids w state =
      record_entry rt stamp ids
        (dispute_posting ("dispute_" & w.dispute_id & "_" & dispute_stage_value w.stage) w) state
        (pos w.disputed_amount) (pos 0) w.occurred_at

  unfoldable pub process_dispute :
      Ids → String → DisputeWebhook → Exec Error SettlementDisputeHandler RevenueLedgerEntry
  unfolding post_dispute
  process_dispute ids log_id w =
      deliver w.event_id (post_dispute ids w (target_state w.stage)) "DISPUTE_RECONCILED"
        (dispute_payload log_id w) w.occurred_at

  unfoldable pub process_refund :
      Ids → Posting → ℤ → ℕ → Exec Error SettlementDisputeHandler RevenueLedgerEntry
  process_refund ids p (negsuc _) now h = (err value_error, h)
  process_refund ids p (pos amount) now h =
      let (r, l) =
        record_entry rt stamp ids
          (record p {
            reference = reference_or p.reference ("refund_" & p.case_id & "_" & stamp now);
          })
          refunded (pos amount) (pos 0) now h.ledger in
      if eqb amount 0 then (err value_error, h) else (r, record h { ledger = l })
