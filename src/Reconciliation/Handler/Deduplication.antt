-- ===== src/Reconciliation/Handler/Deduplication.antt =====
-- The handler under repeated event ids, and its ledger, over any sequence of calls.
use ai_revenue_recovery.Prelude.{
  ℕ, String, none, some, List, [], ◌∷◌, ◌≡◌, refl, sym, ap, ◌∙◌, arith, Option-cases, Bool-cases,
  inl, inr, eq_iff, eq_refl, eqb,
}
use ai_revenue_recovery.Prelude.Int.{ℤ, pos, negsuc}
use ai_revenue_recovery.Prelude.Exec.{Result, ok, err, Exec}
use ai_revenue_recovery.Prelude.Dict.{lookup, lookup-insert}
use ai_revenue_recovery.Foundation.Errors.{Error}
use ai_revenue_recovery.Foundation.Value.{Value}
use ai_revenue_recovery.Foundation.Runtime.{Runtime}
use ai_revenue_recovery.Reconciliation.Ledger.{
  RevenueLedger, RevenueLedgerEntry, Ids, Posting, FinancialState, initiated, gross_recovered,
  confirmed_settled, disputed, refunded, written_off,
}
use ai_revenue_recovery.Reconciliation.Ledger.Accounting.{
  Appends, Appends-refl, Appends-trans, record_entry-Appends, record_confirmed_settlement-Appends,
}
use ai_revenue_recovery.Reconciliation.Handler.{
  SettlementWebhook, DisputeWebhook, SettlementDisputeHandler, deliver, posted, process_settlement,
  process_dispute, process_refund, post_dispute, target_state,
}

-- The calls of a handler, with the random ids that each draws.
pub data Call : Type 0 where
  settlement : Ids → String → SettlementWebhook → Call
  dispute : Ids → String → DisputeWebhook → Call
  refund : Ids → Posting → ℤ → ℕ → Call

-- The call delivers a webhook with this event id.
abbrev pub Delivers : Call → String → Type 0
Delivers (settlement ids log_id w) id = w.event_id ≡ id
Delivers (dispute ids log_id w) id = w.event_id ≡ id
Delivers (refund ids p amount now) id = ⊥

module _ (rt : Runtime) (stamp : ℕ → String) where
  module _ (id : String) (post : Exec Error RevenueLedger RevenueLedgerEntry) (kind : String)
      (payload : Value) (now : ℕ) (h : SettlementDisputeHandler) where
    deliver-known :
        (e : RevenueLedgerEntry)
        → lookup id h.processed_webhooks ≡ some e
        → deliver rt stamp id post kind payload now h ≡ (ok e, h)
    deliver-known e found = rw found refl

    deliver-keeps :
        (key : String) (e : RevenueLedgerEntry)
        → lookup key h.processed_webhooks ≡ some e
        → lookup key (deliver rt stamp id post kind payload now h).1.processed_webhooks ≡ some e
    deliver-keeps key e found = elim (Option-cases (lookup id h.processed_webhooks)) [
      | inr (d, known) ↦ rw known found
      | inl absent ↦ rw absent (kept absent (post h.ledger).0 (post h.ledger).1)
    ]
      where
        kept :
            lookup id h.processed_webhooks ≡ none
            → (r : Result Error RevenueLedgerEntry) (l : RevenueLedger)
            → lookup key (posted rt stamp r l id kind payload now h).1.processed_webhooks ≡ some e
        kept absent (err _) l = found
        kept absent (ok d) l = ground (
          arith,
          lookup-insert key id d h.processed_webhooks,
          eq_iff id key,
          λ (s : id ≡ key). ap (λ k. lookup k h.processed_webhooks) s,
        )

    deliver-stores :
        (e : RevenueLedgerEntry)
        → (deliver rt stamp id post kind payload now h).0 ≡ ok e
        → lookup id (deliver rt stamp id post kind payload now h).1.processed_webhooks ≡ some e
    deliver-stores e run = elim (Option-cases (lookup id h.processed_webhooks)) [
      | inr (d, known) ↦ rw known (known ∙ ground (arith, ap (λ x. x.0) (deliver-known d known)))
      | inl absent ↦ rw absent (stored (post h.ledger).0 (post h.ledger).1 (rw absent at run))
    ]
      where
        stored :
            (r : Result Error RevenueLedgerEntry) (l : RevenueLedger)
            → (posted rt stamp r l id kind payload now h).0 ≡ ok e
            → lookup id (posted rt stamp r l id kind payload now h).1.processed_webhooks ≡ some e
        stored (err _) l q = absurd (ground arith)
        stored (ok d) l q = ground (arith, lookup-insert id id d h.processed_webhooks, eq_refl id)

    deliver-Appends :
        Appends h.ledger.entries (post h.ledger).1.entries
        → Appends h.ledger.entries (deliver rt stamp id post kind payload now h).1.ledger.entries
    deliver-Appends a = elim (Option-cases (lookup id h.processed_webhooks)) [
      | inr (d, known) ↦ rw known (Appends-refl h.ledger.entries)
      | inl absent ↦ rw absent (appended (post h.ledger).0 (post h.ledger).1 a)
    ]
      where
        appended :
            (r : Result Error RevenueLedgerEntry) (l : RevenueLedger)
            → Appends h.ledger.entries l.entries
            → Appends h.ledger.entries (posted rt stamp r l id kind payload now h).1.ledger.entries
        appended (err _) l b = b
        appended (ok d) l b = b

  unfoldable pub run : Call → Exec Error SettlementDisputeHandler RevenueLedgerEntry
  unfolding process_settlement process_dispute process_refund
  run (settlement ids log_id w) = process_settlement rt stamp ids log_id w
  run (dispute ids log_id w) = process_dispute rt stamp ids log_id w
  run (refund ids p amount now) = process_refund rt stamp ids p amount now

  abbrev pub steps : List Call → SettlementDisputeHandler → SettlementDisputeHandler
  steps [] h = h
  steps (c ∷ cs) h = steps cs (run c h).1

  run-keeps :
      (c : Call) (h : SettlementDisputeHandler) (key : String) (e : RevenueLedgerEntry)
      → lookup key h.processed_webhooks ≡ some e
      → lookup key (run c h).1.processed_webhooks ≡ some e
  unfolding run
  run-keeps (settlement ids log_id w) h key e found = deliver-keeps w.event_id _ _ _ _ h key e found
  run-keeps (dispute ids log_id w) h key e found = deliver-keeps w.event_id _ _ _ _ h key e found
  run-keeps (refund ids p (negsuc _) now) h key e found = found
  run-keeps (refund ids p (pos amount) now) h key e found = ground arith

  steps_keep :
      (cs : List Call) (h : SettlementDisputeHandler) (key : String) (e : RevenueLedgerEntry)
      → lookup key h.processed_webhooks ≡ some e
      → lookup key (steps cs h).processed_webhooks ≡ some e
  steps_keep [] h key e found = found
  steps_keep (c ∷ cs) h key e found = steps_keep cs (run c h).1 key e (run-keeps c h key e found)

  run-stores :
      (c : Call) (h : SettlementDisputeHandler) (id : String) (e : RevenueLedgerEntry)
      → Delivers c id
      → (run c h).0 ≡ ok e
      → lookup id (run c h).1.processed_webhooks ≡ some e
  unfolding run
  run-stores (settlement ids log_id w) h id e same result =
      ap (λ k. lookup k (run (settlement ids log_id w) h).1.processed_webhooks) (sym same)
      ∙ deliver-stores w.event_id _ _ _ _ h e result
  run-stores (dispute ids log_id w) h id e same result =
      ap (λ k. lookup k (run (dispute ids log_id w) h).1.processed_webhooks) (sym same)
      ∙ deliver-stores w.event_id _ _ _ _ h e result
  run-stores (refund ids p amount now) h id e same result = absurd same

  run-known :
      (c : Call) (h : SettlementDisputeHandler) (id : String) (e : RevenueLedgerEntry)
      → Delivers c id
      → lookup id h.processed_webhooks ≡ some e
      → run c h ≡ (ok e, h)
  unfolding run
  run-known (settlement ids log_id w) h id e same found =
      deliver-known w.event_id _ _ _ _ h e (ap (λ k. lookup k h.processed_webhooks) same ∙ found)
  run-known (dispute ids log_id w) h id e same found =
      deliver-known w.event_id _ _ _ _ h e (ap (λ k. lookup k h.processed_webhooks) same ∙ found)
  run-known (refund ids p amount now) h id e same found = absurd same

  -- Once a webhook was reconciled, any settlement or dispute that comes with the same event id, at
  -- any later time and after any other calls, returns the entry of the first and changes nothing.
  pub run-replays :
      (first : Call) (between : List Call) (again : Call) (h : SettlementDisputeHandler)
      (id : String) (e : RevenueLedgerEntry)
      → Delivers first id
      → Delivers again id
      → (run first h).0 ≡ ok e
      → let h' = steps between (run first h).1 in run again h' ≡ (ok e, h')
  run-replays first between again h id e d d' result =
      run-known again _ id e d'
        (steps_keep between (run first h).1 id e (run-stores first h id e d result))

  post_dispute-Appends :
      (ids : Ids) (w : DisputeWebhook) (state : FinancialState) (l : RevenueLedger)
      → Appends l.entries (post_dispute rt stamp ids w state l).1.entries
  unfolding post_dispute
  post_dispute-Appends ids w initiated l = record_entry-Appends rt stamp ids _ _ _ _ _ l
  post_dispute-Appends ids w gross_recovered l = record_entry-Appends rt stamp ids _ _ _ _ _ l
  post_dispute-Appends ids w confirmed_settled l =
      record_confirmed_settlement-Appends rt stamp ids _ _ _ _ l
  post_dispute-Appends ids w disputed l = record_entry-Appends rt stamp ids _ _ _ _ _ l
  post_dispute-Appends ids w refunded l = record_entry-Appends rt stamp ids _ _ _ _ _ l
  post_dispute-Appends ids w written_off l = record_entry-Appends rt stamp ids _ _ _ _ _ l

  run-Appends :
      (c : Call) (h : SettlementDisputeHandler)
      → Appends h.ledger.entries (run c h).1.ledger.entries
  unfolding run
  run-Appends (settlement ids log_id w) h =
      deliver-Appends w.event_id _ _ _ _ h
        (record_confirmed_settlement-Appends rt stamp ids _ _ _ _ h.ledger)
  run-Appends (dispute ids log_id w) h =
      deliver-Appends w.event_id _ _ _ _ h
        (post_dispute-Appends ids w (target_state w.stage) h.ledger)
  run-Appends (refund ids p (negsuc _) now) h = Appends-refl h.ledger.entries
  run-Appends (refund ids p (pos amount) now) h = elim (Bool-cases (eqb amount 0)) [
    | inl bad ↦ rw bad (Appends-refl h.ledger.entries)
    | inr good ↦
        rw good (record_entry-Appends rt stamp ids _ refunded (pos amount) (pos 0) now h.ledger)
  ]

  -- Whatever settlements, disputes and refunds are reconciled, the handler only ever appends to
  -- the ledger, and each entry that it appends keeps two-stage accounting.
  pub handler_steps-Appends :
      (cs : List Call) (h : SettlementDisputeHandler)
      → Appends h.ledger.entries (steps cs h).ledger.entries
  handler_steps-Appends [] h = Appends-refl h.ledger.entries
  handler_steps-Appends (c ∷ cs) h =
      Appends-trans h.ledger.entries (run c h).1.ledger.entries
        (steps cs (run c h).1).ledger.entries (run-Appends c h)
        (handler_steps-Appends cs (run c h).1)
