-- ===== src/Reconciliation/Ledger/Summary.antt =====
-- What the queries of a ledger return.
use ai_revenue_recovery.Prelude.{
  ℕ, ◌≤◌, String, List, [], ◌∷◌, ◌≡◌, ap, arith, max, All, Bool-cases, inl, inr, if◌then◌else◌,
  ◌==◌, eq_iff, ◌<◌, ◌⊎◌, ◌≢◌, ◌++◌, true,
}
use mathlib.Core.List.{Perm, perm_middle}
use mathlib.Core.List.Perm
use ai_revenue_recovery.Prelude.Sorting.{
  IsOrdered, sort, All-sort, sort-Perm, sort-IsOrdered, leb_text, leb_text_trans, leb_text_total,
}
use ai_revenue_recovery.Prelude.Exec.{ok}
use ai_revenue_recovery.Reconciliation.Ledger.{
  RevenueLedgerEntry, RevenueLedger, LedgerSummary, of_case, get_entries_for_case, gross_max,
  last_confirmed, summarize, get_case_summary, is_reversal, not_after, latest, FinancialState,
  disputed, refunded, written_off,
}
use ai_revenue_recovery.Reconciliation.Ledger.Accounting.{IsConsistent}

module _ {ℓ} (P : RevenueLedgerEntry → Type ℓ) where
  All-of_case : (id : String) (es : List RevenueLedgerEntry) → All P es → All P (of_case id es)
  unfolding of_case
  All-of_case id [] h = tt
  All-of_case id (e ∷ es) h = elim (Bool-cases (e.case_id == id)) [
    | inl same ↦ rw same (h.0, All-of_case id es h.1)
    | inr other ↦ rw other (All-of_case id es h.1)
  ]

-- In the order of time.
abbrev pub IsChronological : List RevenueLedgerEntry → Type 0
IsChronological = IsOrdered (λ e f. e.recorded_at ≤ f.recorded_at)

sort-IsChronological : (es : List RevenueLedgerEntry) → IsChronological (sort not_after es)
sort-IsChronological =
    sort-IsOrdered not_after (λ e f. e.recorded_at ≤ f.recorded_at) (λ a b c h k. omega arith)
      (λ a b h. ground arith) (λ a b h. ground arith)

of_case-All :
    (id : String) (es : List RevenueLedgerEntry) → All (λ e. e.case_id ≡ id) (of_case id es)
unfolding of_case
of_case-All id [] = tt
of_case-All id (e ∷ es) = elim (Bool-cases (e.case_id == id)) [
  | inl same ↦ rw same (ground (arith, eq_iff e.case_id id), of_case-All id es)
  | inr other ↦ rw other (of_case-All id es)
]

-- The entries of a case come in the order of time, all of them are that case's, and they are a
-- permutation of the ledger's entries of the case.
pub get_entries_for_case-IsChronological :
    (case_id : String) (l : RevenueLedger)
    → IsChronological (get_entries_for_case case_id l)
      × All (λ e. e.case_id ≡ case_id) (get_entries_for_case case_id l)
      × Perm (get_entries_for_case case_id l) (of_case case_id l.entries)
unfolding get_entries_for_case
get_entries_for_case-IsChronological case_id l = (
  sort-IsChronological (of_case case_id l.entries),
  All-sort not_after (λ e. e.case_id ≡ case_id) (of_case case_id l.entries)
      (of_case-All case_id l.entries),
  sort-Perm not_after (of_case case_id l.entries),
)

last_confirmed-le :
    (net gross : ℕ) (es : List RevenueLedgerEntry)
    → net ≤ gross
    → All IsConsistent es
    → last_confirmed net es ≤ max gross (gross_max es)
unfolding last_confirmed gross_max
last_confirmed-le net gross [] n h = ground arith
last_confirmed-le net gross (e ∷ es) n h = ground (
  arith,
  last_confirmed-le net gross es n h.1,
  last_confirmed-le e.net_confirmed_amount e.gross_amount es,
)

-- A recorded time, and of equal times the id, decides which entry is the later one.
abbrev pub IsUpTo : RevenueLedgerEntry → RevenueLedgerEntry → Type 0
IsUpTo e f =
    (e.recorded_at < f.recorded_at)
    ⊎ ((e.recorded_at ≡ f.recorded_at) × (leb_text e.entry_id f.entry_id ≡ true))

abbrev pub IsReversal : FinancialState → Type 0
IsReversal state = (state ≡ disputed) ⊎ ((state ≡ refunded) ⊎ (state ≡ written_off))

-- The latest of the case's entries, with the others, which it is not before; `rest` is what the
-- ledger has of other cases.
pub record HasLatest (case_id : String) (entries : List RevenueLedgerEntry)
    (last : RevenueLedgerEntry) : Type 0 where
  pub others : List RevenueLedgerEntry
  pub rest : List RevenueLedgerEntry
  pub members : Perm ((last ∷ others) ++ rest) entries
  pub own : All (λ e. e.case_id ≡ case_id) (last ∷ others)
  pub foreign : All (λ e. e.case_id ≢ case_id) rest
  pub latest : All (λ e. IsUpTo e last) others

-- The entries of other cases.
not_of_case : String → List RevenueLedgerEntry → List RevenueLedgerEntry
not_of_case case_id [] = []
not_of_case case_id (e ∷ es) =
    let rest = not_of_case case_id es in if e.case_id == case_id then rest else e ∷ rest

of_case-Perm :
    (case_id : String) (es : List RevenueLedgerEntry)
    → Perm (of_case case_id es ++ not_of_case case_id es) es
unfolding of_case not_of_case
of_case-Perm case_id [] = Perm.rfl
of_case-Perm case_id (e ∷ es) = elim (Bool-cases (e.case_id == case_id)) [
  | inl same ↦ rw same (Perm.cons e (of_case-Perm case_id es))
  | inr other ↦ rw other (
      Perm.trans (perm_middle (of_case case_id es) (not_of_case case_id es))
        (Perm.cons e (of_case-Perm case_id es)))
]

not_of_case-All :
    (case_id : String) (es : List RevenueLedgerEntry)
    → All (λ e. e.case_id ≢ case_id) (not_of_case case_id es)
unfolding not_of_case
not_of_case-All case_id [] = tt
not_of_case-All case_id (e ∷ es) = elim (Bool-cases (e.case_id == case_id)) [
  | inl same ↦ rw same (not_of_case-All case_id es)
  | inr other ↦ rw other (λ h. ground (arith, eq_iff e.case_id case_id), not_of_case-All case_id es)
]

sort-IsUpTo : (es : List RevenueLedgerEntry) → IsOrdered IsUpTo (sort not_after es)
sort-IsUpTo =
    sort-IsOrdered not_after IsUpTo
      (λ a b c h k. ground (arith, h, k, leb_text_trans a.entry_id b.entry_id c.entry_id))
      (λ a b h. ground arith) (λ a b h. ground (arith, leb_text_total a.entry_id b.entry_id))

module _ {ℓ} (P : RevenueLedgerEntry → Type ℓ) where
  All-latest :
      (e : RevenueLedgerEntry) (es : List RevenueLedgerEntry) → All P (e ∷ es) → P (latest e es)
  All-latest e [] h = h.0
  All-latest e (f ∷ es) h = All-latest f es h.1

-- All but the last.
before : RevenueLedgerEntry → List RevenueLedgerEntry → List RevenueLedgerEntry
before e [] = []
before e (f ∷ es) = e ∷ before f es

before-Perm :
    (e : RevenueLedgerEntry) (es : List RevenueLedgerEntry)
    → Perm (latest e es ∷ before e es) (e ∷ es)
unfolding before
before-Perm e [] = Perm.rfl
before-Perm e (f ∷ es) =
    Perm.trans (Perm.swap e (latest f es) (before f es)) (Perm.cons e (before-Perm f es))

before-All :
    (e : RevenueLedgerEntry) (es : List RevenueLedgerEntry)
    → IsOrdered IsUpTo (e ∷ es)
    → All (λ f. IsUpTo f (latest e es)) (before e es)
unfolding before
before-All e [] h = tt
before-All e (f ∷ es) h = (All-latest (IsUpTo e) f es h.0, before-All f es h.1)

before-keeps :
    (P : RevenueLedgerEntry → Type 0) (e : RevenueLedgerEntry) (es : List RevenueLedgerEntry)
    → All P (e ∷ es)
    → All P (before e es)
unfolding before
before-keeps P e [] h = tt
before-keeps P e (f ∷ es) h = (h.0, before-keeps P f es h.1)

sorted-HasLatest :
    (case_id : String) (entries : List RevenueLedgerEntry) (e : RevenueLedgerEntry)
    (es : List RevenueLedgerEntry)
    → Perm (e ∷ es) (of_case case_id entries)
    → IsOrdered IsUpTo (e ∷ es)
    → All (λ f. f.case_id ≡ case_id) (e ∷ es)
    → HasLatest case_id entries (latest e es)
sorted-HasLatest case_id entries e es p ordered own = record {
  others = before e es;
  rest = not_of_case case_id entries;
  members =
      Perm.trans (Perm.append_right (not_of_case case_id entries) (Perm.trans (before-Perm e es) p))
        (of_case-Perm case_id entries);
  own = (
    All-latest (λ f. f.case_id ≡ case_id) e es own,
    before-keeps (λ f. f.case_id ≡ case_id) e es own,
  );
  foreign = not_of_case-All case_id entries;
  latest = before-All e es ordered;
}

is_reversal-IsReversal : (state : FinancialState) → IsReversal state → is_reversal state ≡ true
is_reversal-IsReversal state (inl e) = ap is_reversal e
is_reversal-IsReversal state (inr (inl e)) = ap is_reversal e
is_reversal-IsReversal state (inr (inr e)) = ap is_reversal e

-- What a summary says of the case's entries.
pub record IsSummary (case_id : String) (entries : List RevenueLedgerEntry) (s : LedgerSummary)
    : Type 0 where
  pub last : RevenueLedgerEntry
  pub newest : HasLatest case_id entries last
  pub state : s.latest_state ≡ last.financial_state
  pub reversed : IsReversal last.financial_state → s.total_net_confirmed ≡ 0
  pub bounded : s.total_net_confirmed ≤ s.total_gross_recovered

summarize-IsSummary :
    (case_id : String) (entries es : List RevenueLedgerEntry) (s : LedgerSummary)
    → Perm es (of_case case_id entries)
    → IsOrdered IsUpTo es
    → All (λ f. f.case_id ≡ case_id) es
    → All IsConsistent es
    → summarize case_id es ≡ ok s
    → IsSummary case_id entries s
unfolding summarize
summarize-IsSummary case_id entries [] s p ordered own h e = absurd (ground arith)
summarize-IsSummary case_id entries (x ∷ es) s p ordered own h e = record {
  last = latest x es;
  newest = sorted-HasLatest case_id entries x es p ordered own;
  state = ground arith;
  reversed = λ r. ground (arith, is_reversal-IsReversal (latest x es).financial_state r);
  bounded = ground (arith, last_confirmed-le 0 0 (x ∷ es) (omega arith) h);
}

-- A summary of a consistent ledger tells the state of the latest entry of the case, by time and
-- then by id, confirms nothing where that entry is a dispute, a refund or a write-off, and never
-- confirms more than the gross amount that was recovered.
pub get_case_summary-IsSummary :
    (case_id : String) (l : RevenueLedger) {s : LedgerSummary}
    → All IsConsistent l.entries
    → get_case_summary case_id l ≡ ok s
    → IsSummary case_id l.entries s
unfolding get_case_summary get_entries_for_case
get_case_summary-IsSummary case_id l {s} h e =
    let own = of_case case_id l.entries in
    summarize-IsSummary case_id l.entries (sort not_after own) s (sort-Perm not_after own)
      (sort-IsUpTo own)
      (All-sort not_after (λ f. f.case_id ≡ case_id) own (of_case-All case_id l.entries))
      (All-sort not_after IsConsistent own (All-of_case IsConsistent case_id l.entries h)) e
