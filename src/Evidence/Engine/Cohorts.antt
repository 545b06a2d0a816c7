-- ===== src/Evidence/Engine/Cohorts.antt =====
-- The sums over a cohort, from the summaries of the ledger.
use Prim.Native.Nat.{◌+◌}
use ai_revenue_recovery.Prelude.{
  ℕ, String, Option, none, some, List, [], ◌∷◌, ◌≡◌, refl, arith, if◌then◌else◌, eqb,
}
use ai_revenue_recovery.Reconciliation.Ledger.{
  RevenueLedger, LedgerSummary, is_confirmed, get_case_summary,
}
use ai_revenue_recovery.Prelude.Exec.{Result, ok, err}
use ai_revenue_recovery.Foundation.Errors.{Error}
use ai_revenue_recovery.Evidence.Engine.{Recovered, nothing, count_case, count_cohort, cohort_of}

-- What a summary of the ledger says of a case, or 0 where it has no entries.
abbrev pub or_zero : (LedgerSummary → ℕ) → Result Error LedgerSummary → ℕ
or_zero f (err e) = 0
or_zero f (ok s) = f s

-- The sum over the cases of a cohort, or 0 without a ledger.
abbrev pub total : (LedgerSummary → ℕ) → Option RevenueLedger → List String → ℕ
total f none cids = 0
total f (some l) [] = 0
total f (some l) (cid ∷ cids) = or_zero f (get_case_summary cid l) + total f (some l) cids

-- 1 for a case that is settled, or of which anything was recovered.
abbrev pub one_if_recovered : LedgerSummary → ℕ
one_if_recovered s =
    if is_confirmed s.latest_state
    then 1
    else if eqb (s.total_net_confirmed + s.total_gross_recovered) 0
    then 0
    else 1

-- The sums of a cohort are those of its cases' summaries.
pub record IsCounted (ledger : Option RevenueLedger) (cids : List String) (before after : Recovered)
    : Type 0 where
  pub gross : after.gross ≡ before.gross + total (λ s. s.total_gross_recovered) ledger cids
  pub confirmed :
      after.confirmed ≡ before.confirmed + total (λ s. s.total_net_confirmed) ledger cids
  pub cases : after.cases ≡ before.cases + total one_if_recovered ledger cids

count_case-IsCounted :
    (l : RevenueLedger) (cids : List String) (r after : Recovered)
    (found : Result Error LedgerSummary) (cid : String)
    → get_case_summary cid l ≡ found
    → IsCounted (some l) cids (count_case found r) after
    → IsCounted (some l) (cid ∷ cids) r after
count_case-IsCounted l cids r after (err e) cid same h = record {
  gross = rw same (omega (arith, h.gross));
  confirmed = rw same (omega (arith, h.confirmed));
  cases = rw same (omega (arith, h.cases));
}
count_case-IsCounted l cids r after (ok s) cid same h = record {
  gross = rw same (omega (arith, h.gross));
  confirmed = rw same (omega (arith, h.confirmed));
  cases = rw same (ground (arith, h.cases));
}

count_cohort-IsCounted :
    (l : RevenueLedger) (cids : List String) (r : Recovered)
    → IsCounted (some l) cids r (count_cohort l cids r)
unfolding count_cohort
count_cohort-IsCounted l [] r = record {
  gross = omega arith;
  confirmed = omega arith;
  cases = omega arith;
}
count_cohort-IsCounted l (cid ∷ cids) r =
    count_case-IsCounted l cids r _ (get_case_summary cid l) cid refl
      (count_cohort-IsCounted l cids (count_case (get_case_summary cid l) r))

pub cohort_of-IsCounted :
    (ledger : Option RevenueLedger) (cids : List String)
    → IsCounted ledger cids nothing (cohort_of ledger cids)
cohort_of-IsCounted none cids = record { gross = refl; confirmed = refl; cases = refl }
cohort_of-IsCounted (some l) cids = count_cohort-IsCounted l cids nothing
