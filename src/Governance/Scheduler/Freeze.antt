-- ===== src/Governance/Scheduler/Freeze.antt =====
-- A freeze of a case's obligations, and the intake of new ones.
use ai_revenue_recovery.Prelude.{
  ℕ, String, true, false, [], ◌∷◌, ◌≡◌, ◌↔◌, inl, inr, refl, ap, arith, Bool-cases, eq_iff, eq_refl,
  ◌==◌, All,
}
use ai_revenue_recovery.Prelude.Exec.{err, IsOk}
use ai_revenue_recovery.Prelude.Dict.{lookup-insert}
use ai_revenue_recovery.Foundation.Errors.{value_error}
use ai_revenue_recovery.Foundation.Events.{RecoveryCase}
use ai_revenue_recovery.Foundation.Runtime.{Runtime}
use ai_revenue_recovery.Governance.Scheduler.{
  Obligations, ComplianceScheduler, is_freezable, is_for, filter, freeze_obligation, freeze_each,
  freeze_case_obligations, obligations_of, schedule_case_obligations,
}
use ai_revenue_recovery.Governance.Scheduler.Conservation.{identity, identities}

abbrev pub mandatory_ones : Obligations → Obligations
mandatory_ones os = filter (λ o. o.is_mandatory) os

module _ (rt : Runtime) (draw : ℕ → String) where
  freeze_each-identities : (os : Obligations) → identities (freeze_each rt draw os) ≡ identities os
  unfolding freeze_each freeze_obligation
  freeze_each-identities [] = refl
  freeze_each-identities (o ∷ os) = elim (Bool-cases (is_freezable o)) [
    | inl e ↦ rw e (ap (identity o ∷◌) (freeze_each-identities os))
    | inr e ↦ rw e (ap (identity o ∷◌) (freeze_each-identities os))
  ]

  freeze_each-All : (os : Obligations) → All (λ o. is_freezable o ≡ false) (freeze_each rt draw os)
  unfolding freeze_each freeze_obligation
  freeze_each-All [] = tt
  freeze_each-All (o ∷ os) = elim (Bool-cases (is_freezable o)) [
    | inl e ↦ rw e (refl, freeze_each-All os)
    | inr e ↦ rw e (e, freeze_each-All os)
  ]

  freeze_each-mandatory :
      (os : Obligations) → mandatory_ones (freeze_each rt draw os) ≡ mandatory_ones os
  unfolding freeze_each freeze_obligation filter
  freeze_each-mandatory [] = refl
  freeze_each-mandatory (o ∷ os) = elim (Bool-cases (is_freezable o)) [
    | inl e ↦ rw e (ground (arith, freeze_each-mandatory os))
    | inr e ↦ rw e (ground (arith, freeze_each-mandatory os))
  ]

  stored_frozen :
      (case_id : String) (now : ℕ) (s : ComplianceScheduler)
      → obligations_of case_id (freeze_case_obligations rt draw case_id now s).1
        ≡ freeze_each rt draw (obligations_of case_id s)
  unfolding freeze_case_obligations
  stored_frozen case_id now s = ground (
    arith,
    lookup-insert case_id case_id (freeze_each rt draw (obligations_of case_id s)) s.store,
    eq_refl case_id,
  )

  -- A freeze leaves no obligation of the case that is PENDING and not mandatory, changes no
  -- mandatory one, and keeps all others but for the status and its reason; the obligations of other
  -- cases stay as they are.
  pub freeze_case_obligations-IsFrozen :
      (case_id : String) (now : ℕ) (s : ComplianceScheduler)
      → let after = (freeze_case_obligations rt draw case_id now s).1 in
        All (λ o. is_freezable o ≡ false) (obligations_of case_id after)
        × (mandatory_ones (obligations_of case_id after)
            ≡ mandatory_ones (obligations_of case_id s))
        × (identities (obligations_of case_id after) ≡ identities (obligations_of case_id s))
        × ((key : String)
            → (case_id == key) ≡ false
            → obligations_of key after ≡ obligations_of key s)
  unfolding freeze_case_obligations
  freeze_case_obligations-IsFrozen case_id now s =
      let os = obligations_of case_id s in
      rw (stored_frozen case_id now s) (
        (
          freeze_each-All os,
          freeze_each-mandatory os,
          freeze_each-identities os,
          λ key h. ground (arith, lookup-insert key case_id (freeze_each rt draw os) s.store),
        ))

is_for_iff :
    (case_id : String) (os : Obligations)
    → (is_for case_id os ≡ true) ↔ All (λ o. o.case_id ≡ case_id) os
unfolding is_for
is_for_iff case_id [] = (λ h. tt, λ h. refl)
is_for_iff case_id (o ∷ os) = (
  λ h. ground (arith, eq_iff o.case_id case_id, is_for_iff case_id os),
  λ h. ground (arith, eq_iff o.case_id case_id, is_for_iff case_id os),
)

module _ (rt : Runtime) (draw : ℕ → String) (case : RecoveryCase) (os : Obligations) (now : ℕ)
    (s : ComplianceScheduler) where
  -- The intake returns a plan exactly if every obligation names the case; otherwise it raises a
  -- ValueError and changes nothing, neither the store nor the log.
  pub schedule_case_obligations_iff :
      (IsOk (schedule_case_obligations rt draw case os now s).0
        ↔ All (λ o. o.case_id ≡ case.case_id) os)
      × ((¬ All (λ o. o.case_id ≡ case.case_id) os)
          → schedule_case_obligations rt draw case os now s ≡ (err value_error, s))
  unfolding schedule_case_obligations
  schedule_case_obligations_iff = elim (Bool-cases (is_for case.case_id os)) [
    | inl e ↦ rw e (
        (
          (λ h. (is_for_iff case.case_id os).0 e, λ h. tt),
          λ n. absurd (n ((is_for_iff case.case_id os).0 e)),
        ))
    | inr e ↦
        rw e (((λ h. absurd h, λ h. ground (arith, (is_for_iff case.case_id os).1 h)), λ n. refl))
  ]
