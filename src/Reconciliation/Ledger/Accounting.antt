-- ===== src/Reconciliation/Ledger/Accounting.antt =====
-- The entries of a ledger over any sequence of calls.
use ai_revenue_recovery.Prelude.{
  ℕ, ◌≤◌, ◌<◌, String, List, [], ◌∷◌, ◌++◌, ◌≡◌, refl, sym, ap, ◌∙◌, arith, eqb, ltb, ◌||◌, All,
  All-append, Bool-cases, inl, inr,
}
use ai_revenue_recovery.Prelude.Int.{ℤ, pos, negsuc}
use ai_revenue_recovery.Prelude.Exec.{Result, ok, err}
use ai_revenue_recovery.Foundation.Errors.{Error}
use ai_revenue_recovery.Foundation.Runtime.{Runtime}
use ai_revenue_recovery.Reconciliation.Ledger.{
  FinancialState, initiated, gross_recovered, confirmed_settled, RevenueLedgerEntry, RevenueLedger,
  Ids, Posting, entry_of, record_entry, record_gross_recovery, record_confirmed_settlement,
  store_entry, amounts_consistent,
}

-- INV-11: no confirmed amount before a settlement, and a settlement's within its gross amount.
abbrev pub HasStage : FinancialState → ℕ → ℕ → Type 0
HasStage initiated gross net = net ≡ 0
HasStage gross_recovered gross net = net ≡ 0
HasStage confirmed_settled gross net = (0 < net) × (net ≤ gross)
HasStage _ gross net = Unit

abbrev pub IsConsistent : RevenueLedgerEntry → Type 0
IsConsistent e = HasStage e.financial_state e.gross_amount e.net_confirmed_amount

-- The later entries of a ledger, after the earlier ones.
pub record Appends (before after : List RevenueLedgerEntry) : Type 0 where
  pub added : List RevenueLedgerEntry
  pub result : after ≡ before ++ added
  pub consistent : All IsConsistent added

pub data Call : Type 0 where
  entry : Ids → Posting → FinancialState → ℤ → ℤ → ℕ → Call
  gross_recovery : Ids → Posting → ℤ → ℕ → Call
  settlement : Ids → Posting → ℤ → ℤ → ℕ → Call

append_nil : (xs : List RevenueLedgerEntry) → xs ++ [] ≡ xs
append_nil [] = refl
append_nil (x ∷ xs) = ap (◌∷◌ x) (append_nil xs)

append_assoc : (xs ys zs : List RevenueLedgerEntry) → (xs ++ ys) ++ zs ≡ xs ++ (ys ++ zs)
append_assoc [] ys zs = refl
append_assoc (x ∷ xs) ys zs = ap (◌∷◌ x) (append_assoc xs ys zs)

pub Appends-refl : (l : List RevenueLedgerEntry) → Appends l l
Appends-refl l = record { added = []; result = sym (append_nil l); consistent = tt }

pub Appends-trans : (a b c : List RevenueLedgerEntry) → Appends a b → Appends b c → Appends a c
Appends-trans a b c g h = record {
  added = g.added ++ h.added;
  result = h.result ∙ ap (λ x. x ++ h.added) g.result ∙ append_assoc a g.added h.added;
  consistent = All-append IsConsistent g.added h.added g.consistent h.consistent;
}

module _ (rt : Runtime) (stamp : ℕ → String) where
  entry_of-IsConsistent :
      (ids : Ids) (p : Posting) (state : FinancialState) (gross net now : ℕ)
      (e : RevenueLedgerEntry)
      → entry_of rt stamp ids p state gross net now ≡ ok e
      → IsConsistent e
  unfolding entry_of amounts_consistent
  entry_of-IsConsistent ids p state gross net now e h = ground arith

  store_entry-Appends :
      (r : Result Error RevenueLedgerEntry) (event_id : String) (now : ℕ) (l : RevenueLedger)
      → ((e : RevenueLedgerEntry) → r ≡ ok e → IsConsistent e)
      → Appends l.entries (store_entry rt stamp r event_id now l).1.entries
  store_entry-Appends (err e) event_id now l h = Appends-refl l.entries
  store_entry-Appends (ok e) event_id now l h = record {
    added = e ∷ [];
    result = refl;
    consistent = (h e refl, tt);
  }

  pub record_entry-Appends :
      (ids : Ids) (p : Posting) (state : FinancialState) (gross net : ℤ) (now : ℕ)
      (l : RevenueLedger)
      → Appends l.entries (record_entry rt stamp ids p state gross net now l).1.entries
  unfolding record_entry
  record_entry-Appends ids p state (negsuc _) net now l = Appends-refl l.entries
  record_entry-Appends ids p state (pos gross) (negsuc _) now l = Appends-refl l.entries
  record_entry-Appends ids p state (pos gross) (pos net) now l =
      store_entry-Appends (entry_of rt stamp ids p state gross net now) ids.event_id now l
        (entry_of-IsConsistent ids p state gross net now)

  unfoldable pub step : Call → RevenueLedger → RevenueLedger
  unfolding record_gross_recovery record_confirmed_settlement
  step (entry ids p state gross net now) l = (record_entry rt stamp ids p state gross net now l).1
  step (gross_recovery ids p gross now) l = (record_gross_recovery rt stamp ids p gross now l).1
  step (settlement ids p gross net now) l =
      (record_confirmed_settlement rt stamp ids p gross net now l).1

  abbrev pub steps : List Call → RevenueLedger → RevenueLedger
  steps [] l = l
  steps (c ∷ cs) l = steps cs (step c l)

  pub record_confirmed_settlement-Appends :
      (ids : Ids) (p : Posting) (gross net : ℤ) (now : ℕ) (l : RevenueLedger)
      → Appends l.entries (record_confirmed_settlement rt stamp ids p gross net now l).1.entries
  unfolding record_confirmed_settlement
  record_confirmed_settlement-Appends ids p (negsuc _) net now l = Appends-refl l.entries
  record_confirmed_settlement-Appends ids p (pos gross) (negsuc _) now l = Appends-refl l.entries
  record_confirmed_settlement-Appends ids p (pos gross) (pos net) now l =
      elim (Bool-cases (eqb gross 0 || eqb net 0 || ltb gross net)) [
        | inl bad ↦ rw bad (Appends-refl l.entries)
        | inr good ↦
            rw good (record_entry-Appends ids p confirmed_settled (pos gross) (pos net) now l)
      ]

  record_gross_recovery-Appends :
      (ids : Ids) (p : Posting) (gross : ℤ) (now : ℕ) (l : RevenueLedger)
      → Appends l.entries (record_gross_recovery rt stamp ids p gross now l).1.entries
  unfolding record_gross_recovery
  record_gross_recovery-Appends ids p (negsuc _) now l = Appends-refl l.entries
  record_gross_recovery-Appends ids p (pos gross) now l = elim (Bool-cases (eqb gross 0)) [
    | inl bad ↦ rw bad (Appends-refl l.entries)
    | inr good ↦ rw good (record_entry-Appends ids p gross_recovered (pos gross) (pos 0) now l)
  ]

  step-Appends : (c : Call) (l : RevenueLedger) → Appends l.entries (step c l).entries
  unfolding step
  step-Appends (entry ids p state gross net now) l =
      record_entry-Appends ids p state gross net now l
  step-Appends (gross_recovery ids p gross now) l = record_gross_recovery-Appends ids p gross now l
  step-Appends (settlement ids p gross net now) l =
      record_confirmed_settlement-Appends ids p gross net now l

  -- A ledger is append-only: whatever is recorded, its entries stay where they are, and each entry
  -- that is added keeps two-stage accounting: before a settlement nothing is confirmed, and a
  -- settlement confirms a positive amount up to its gross amount.
  pub steps-Appends : (cs : List Call) (l : RevenueLedger) → Appends l.entries (steps cs l).entries
  steps-Appends [] l = Appends-refl l.entries
  steps-Appends (c ∷ cs) l =
      Appends-trans l.entries (step c l).entries (steps cs (step c l)).entries (step-Appends c l)
        (steps-Appends cs (step c l))
