-- ===== src/Evidence/Engine/Reporting.antt =====
-- When a lift is reported and approved, and where the evidence is kept.
use Prim.Native.Nat.{◌+◌, ◌<◌, ◌≤◌}
use ai_revenue_recovery.Prelude.{
  ℕ, String, true, false, Option, none, some, List, [], ◌∷◌, ◌≡◌, ◌↔◌, refl, inl, inr, Bool-cases,
  arith, eq_iff, ◌==◌, ◌&&◌, if◌then◌else◌, is_some, length,
}
use mathlib.Core.Path.{subst}
use ai_revenue_recovery.Reconciliation.Ledger.{RevenueLedger}
use ai_revenue_recovery.Prelude.Exec.{ok}
use ai_revenue_recovery.Foundation.Runtime.{Runtime}
use ai_revenue_recovery.Evidence.Engine.Cohorts.{
  total, one_if_recovered, IsCounted, cohort_of-IsCounted,
}
use ai_revenue_recovery.Evidence.Engine.{
  Rates, approved, EvidenceMetricEntry, EvidenceEngine, Window, Recovered, nothing, cohort_of,
  find_entry, put_entry, verdict, draft_of, entry_of, evaluate_window, accepts_entry,
  record_evidence,
}

find_entry-put_entry :
    {A : Type 0}
    → (m w metric window : String) (entry : A) (d : List (String × String × A))
    → find_entry m w (put_entry metric window entry d)
      ≡ (if metric == m && window == w then some entry else find_entry m w d)
unfolding find_entry put_entry
find_entry-put_entry m w metric window entry [] = refl
find_entry-put_entry m w metric window entry ((m', w', old) ∷ rest) = ground (
  arith,
  eq_iff m' metric,
  eq_iff w' window,
  eq_iff m' m,
  eq_iff w' w,
  eq_iff metric m,
  eq_iff window w,
  find_entry-put_entry m w metric window entry rest,
)

-- A live experiment with a control group.
pub record IsControlled (w : Window) : Type 0 where
  pub live : w.is_backtest ≡ false
  pub control : 0 < length w.control_case_ids

-- Both groups are large enough, and revenue has settled if any has come in.
pub record IsSufficient (w : Window) (gross confirmed : ℕ) : Type 0 where
  pub controlled : IsControlled w
  pub treated : w.min_sample_size ≤ length w.treatment_case_ids
  pub held : w.min_sample_size ≤ length w.control_case_ids
  pub settled : 0 < gross → 0 < confirmed

module _ (rt : Runtime) (rates : Rates) where
  pub record IsReported (w : Window) (ledger : Option RevenueLedger)
      (e : EvidenceMetricEntry rates.Float) : Type 0 where
    pub gross :
        e.gross_recovered
        ≡ total (λ s. s.total_gross_recovered) ledger w.treatment_case_ids
          + total (λ s. s.total_gross_recovered) ledger w.control_case_ids
    pub confirmed :
        e.confirmed_recovered
        ≡ total (λ s. s.total_net_confirmed) ledger w.treatment_case_ids
          + total (λ s. s.total_net_confirmed) ledger w.control_case_ids
    pub treated : e.treatment_recovered_count ≡ total one_if_recovered ledger w.treatment_case_ids
    pub held : e.control_recovered_count ≡ total one_if_recovered ledger w.control_case_ids
    pub causal : (is_some e.incremental_lift ≡ true) ↔ IsControlled w
    pub lift :
        IsControlled w
        → 0 < length w.treatment_case_ids
        → let r_treat = rates.ratio e.treatment_recovered_count (length w.treatment_case_ids) in
          let r_ctrl = rates.ratio e.control_recovered_count (length w.control_case_ids) in
          rates.is_positive r_ctrl ≡ true
          → e.incremental_lift ≡ some (rates.round_4 (rates.relative r_treat r_ctrl))
    pub sufficient :
        (e.reporting_state ≡ approved) ↔ IsSufficient w e.gross_recovered e.confirmed_recovered
    pub unblocked : (e.blocking_reasons ≡ none) ↔ (e.reporting_state ≡ approved)

  module _ (w : Window) (treated held : Recovered) where
    verdict-IsControlled : (is_some (verdict rt rates w treated held).2 ≡ true) ↔ IsControlled w
    unfolding verdict
    verdict-IsControlled = (
      λ h. record { live = ground arith; control = ground arith },
      λ h. ground (arith, h.live, h.control),
    )

    verdict-lift :
        IsControlled w
        → 0 < length w.treatment_case_ids
        → let r_treat = rates.ratio treated.cases (length w.treatment_case_ids) in
          let r_ctrl = rates.ratio held.cases (length w.control_case_ids) in
          rates.is_positive r_ctrl ≡ true
          → (verdict rt rates w treated held).2
            ≡ some (rates.round_4 (rates.relative r_treat r_ctrl))
    unfolding verdict
    verdict-lift h t p = ground (arith, h.live, h.control, t, p)

    verdict-IsSufficient :
        ((verdict rt rates w treated held).0 ≡ approved)
        ↔ IsSufficient w (treated.gross + held.gross) (treated.confirmed + held.confirmed)
    unfolding verdict
    verdict-IsSufficient = (
      λ h. record {
        controlled = record { live = ground arith; control = ground arith };
        treated = ground arith;
        held = ground arith;
        settled = λ p. ground arith;
      },
      λ h. ground (arith, h.controlled.live, h.controlled.control, h.treated, h.held, h.settled),
    )

    verdict-unblocked :
        ((verdict rt rates w treated held).1 ≡ none)
        ↔ ((verdict rt rates w treated held).0 ≡ approved)
    unfolding verdict
    verdict-unblocked = (λ h. ground arith, λ h. ground arith)

  -- The registry tells the entry for its metric and window, and nothing new of any other.
  abbrev pub IsRegistered :
      EvidenceEngine rates.Float
      → EvidenceEngine rates.Float
      → EvidenceMetricEntry rates.Float
      → Type 0
  IsRegistered before after e =
      (metric window : String)
      → find_entry metric window after.registry ≡ (
          if e.metric_id == metric && e.evaluation_window == window
          then some e
          else find_entry metric window before.registry)

  record_evidence-IsRegistered :
      (event_id : String) (now : ℕ) (entry e : EvidenceMetricEntry rates.Float)
      (s : EvidenceEngine rates.Float)
      → (record_evidence rt rates event_id now entry s).0 ≡ ok e
      → (entry ≡ e) × IsRegistered s (record_evidence rt rates event_id now entry s).1 entry
  unfolding record_evidence
  record_evidence-IsRegistered event_id now entry e s h =
      elim (Bool-cases (accepts_entry rt rates entry)) [
        | inl fits ↦ (
          ground (arith, fits, h),
          λ metric window. rw fits (
              find_entry-put_entry metric window entry.metric_id entry.evaluation_window entry
                s.registry),
        )
        | inr unfit ↦ absurd (ground (arith, unfit, h))
      ]

  draft-IsReported :
      (w : Window) (ledger : Option RevenueLedger) (treated held : Recovered) (now : ℕ)
      (hash : String)
      → IsCounted ledger w.treatment_case_ids nothing treated
      → IsCounted ledger w.control_case_ids nothing held
      → IsReported w ledger
          (record (draft_of rt rates w treated held (verdict rt rates w treated held) now) {
            provenance_hash = hash;
          })
  draft-IsReported w ledger treated held now hash t h = record {
    gross = omega (arith, t.gross, h.gross);
    confirmed = omega (arith, t.confirmed, h.confirmed);
    treated = omega (arith, t.cases);
    held = omega (arith, h.cases);
    causal = verdict-IsControlled w treated held;
    lift = verdict-lift w treated held;
    sufficient = verdict-IsSufficient w treated held;
    unblocked = verdict-unblocked w treated held;
  }

  entry_of-IsReported :
      (w : Window) (now : ℕ) (ledger : Option RevenueLedger)
      → IsReported w ledger (entry_of rt rates w now ledger)
  unfolding entry_of
  entry_of-IsReported w now ledger =
      draft-IsReported w ledger (cohort_of ledger w.treatment_case_ids)
        (cohort_of ledger w.control_case_ids) now _
        (cohort_of-IsCounted ledger w.treatment_case_ids)
        (cohort_of-IsCounted ledger w.control_case_ids)

  -- An evaluation that returns an entry reports it as it should. Its gross and confirmed revenue
  -- are the sums of what the ledger's summaries say of the cases of both cohorts, and its counts
  -- those of the cases that are settled or of which anything was recovered. A lift is given exactly
  -- for a live experiment with a control group, never for a backtest; with a treated case and a
  -- positive rate of the control group it is the relative difference of the two rates, rounded. The
  -- entry is APPROVED exactly
  -- if both groups reach the minimal size besides, and confirmed revenue is there where any gross
  -- revenue is; and it gives a blocking reason exactly if it is not APPROVED. After the call the
  -- registry has it under its metric and window, and what it had under all others.
  pub evaluate_window-IsReported :
      (event_id : String) (w : Window) (now : ℕ) (s : EvidenceEngine rates.Float)
      (e : EvidenceMetricEntry rates.Float)
      → (evaluate_window rt rates event_id w now s).0 ≡ ok e
      → IsReported w s.ledger e × IsRegistered s (evaluate_window rt rates event_id w now s).1 e
  unfolding evaluate_window
  evaluate_window-IsReported event_id w now s e h =
      let entry = entry_of rt rates w now s.ledger in
      let (same, registered) = record_evidence-IsRegistered event_id now entry e s h in
      subst
        (λ x.
          IsReported w s.ledger x
          × IsRegistered s (record_evidence rt rates event_id now entry s).1 x)
        same (entry_of-IsReported w now s.ledger, registered)
