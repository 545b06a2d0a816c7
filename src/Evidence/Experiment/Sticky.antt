-- ===== src/Evidence/Experiment/Sticky.antt =====
-- A case stays in the arm that it was put into.
use ai_revenue_recovery.Prelude.{
  ℕ, String, true, Option, none, some, List, [], ◌∷◌, ◌≡◌, refl, ap, sym, ◌∙◌, inl, inr, Bool-cases,
  arith, eq_iff, eq_refl, ◌==◌, ◌&&◌, if◌then◌else◌,
}
use ai_revenue_recovery.Prelude.Exec.{ok}
use ai_revenue_recovery.Prelude.Dict.{Dict, lookup, insert, lookup-insert}
use ai_revenue_recovery.Foundation.Events.{RecoveryCase}
use ai_revenue_recovery.Foundation.Runtime.{Runtime}
use ai_revenue_recovery.Evidence.Experiment.{
  Doubles, ExperimentConfig, ExperimentAssignmentRecord, ExperimentEngine, or_default, or_nothing,
  or_empty, find, put, register_experiment, compute_stratum, record_of, return_or, assign_in,
  assign,
}

lookup-or_empty :
    {A : Type 0} → (k : String) (d : Option (Dict A)) → lookup k (or_empty d) ≡ or_nothing k d
unfolding lookup
lookup-or_empty k none = refl
lookup-or_empty k (some d) = refl

find-put :
    {A : Type 0}
    → (i l j k : String) (v : A) (d : Dict (Dict A))
    → find i l (put j k v d) ≡ (if j == i && k == l then some v else find i l d)
unfolding find put
find-put i l j k v d = elim (Bool-cases (j == i)) [
  | inl e ↦
      rw
        (
          lookup-insert i j (insert k v (or_empty (lookup j d))) d,
          e,
          (eq_iff j i).0 e,
          lookup-insert l k v (or_empty (lookup i d)),
          lookup-or_empty l (lookup i d),
        )
        refl
  | inr e ↦ rw (lookup-insert i j (insert k v (or_empty (lookup j d))) d, e) refl
]

module _ (rt : Runtime) (doubles : Doubles) where
  -- What happens to an engine.
  pub data Event : Type 0 where
    register : ExperimentConfig doubles.Float → Event
    request : String → RecoveryCase → Option String → Option String → ℕ → Option String → Event

  unfoldable pub step : Event → ExperimentEngine doubles.Float → ExperimentEngine doubles.Float
  step (register config) s = register_experiment rt doubles config s
  step (request id case experiment_id stratum now failure_code) s =
      (assign rt doubles id case experiment_id stratum now failure_code s).1

  abbrev pub steps : List Event → ExperimentEngine doubles.Float → ExperimentEngine doubles.Float
  steps [] s = s
  steps (e ∷ es) s = steps es (step e s)

  module _ (c e : String) (r : ExperimentAssignmentRecord doubles.Float) where
    -- The case has this record in the experiment.
    abbrev pub IsAssigned : ExperimentEngine doubles.Float → Type 0
    IsAssigned s = find c e s.assignments ≡ some r

    return_or-IsAssigned :
        (found : Option (ExperimentAssignmentRecord doubles.Float)) (exp_id case_id : String)
        (fresh : ExperimentAssignmentRecord doubles.Float) (now : ℕ)
        (s : ExperimentEngine doubles.Float)
        → find case_id exp_id s.assignments ≡ found
        → IsAssigned s
        → IsAssigned (return_or rt doubles found exp_id case_id fresh now s).1
    return_or-IsAssigned (some x) exp_id case_id fresh now s same h = h
    return_or-IsAssigned none exp_id case_id fresh now s same h = ground (
      arith,
      same,
      h,
      eq_iff case_id c,
      eq_iff exp_id e,
      find-put c e case_id exp_id fresh s.assignments,
    )

    assign_in-IsAssigned :
        (config : Option (ExperimentConfig doubles.Float)) (exp_id id : String)
        (case : RecoveryCase) (stratum : String) (now : ℕ) (s : ExperimentEngine doubles.Float)
        → IsAssigned s
        → IsAssigned (assign_in rt doubles config exp_id id case stratum now s).1
    unfolding record_of
    assign_in-IsAssigned none exp_id id case stratum now s h = h
    assign_in-IsAssigned (some config) exp_id id case stratum now s h =
        elim (Bool-cases config.is_active) [
          | inl on ↦ rw on (
              return_or-IsAssigned _ exp_id case.case_id
                (record_of rt doubles id case config stratum now) now s refl h)
          | inr off ↦ rw off h
        ]

    steps-IsAssigned :
        (events : List Event) (s : ExperimentEngine doubles.Float)
        → IsAssigned s
        → IsAssigned (steps events s)
    unfolding step assign register_experiment
    steps-IsAssigned [] s h = h
    steps-IsAssigned (register config ∷ es) s h = steps-IsAssigned es _ h
    steps-IsAssigned (request id case given stratum now failure_code ∷ es) s h =
        steps-IsAssigned es _ (assign_in-IsAssigned _ _ id case _ now s h)

  return_or-stores :
      (found : Option (ExperimentAssignmentRecord doubles.Float)) (exp_id case_id : String)
      (fresh r : ExperimentAssignmentRecord doubles.Float) (now : ℕ)
      (s : ExperimentEngine doubles.Float)
      → find case_id exp_id s.assignments ≡ found
      → (return_or rt doubles found exp_id case_id fresh now s).0 ≡ ok r
      → IsAssigned case_id exp_id r (return_or rt doubles found exp_id case_id fresh now s).1
  return_or-stores (some x) exp_id case_id fresh r now s same h = ground (arith, same, h)
  return_or-stores none exp_id case_id fresh r now s same h = ground (
    arith,
    h,
    eq_refl case_id,
    eq_refl exp_id,
    find-put case_id exp_id case_id exp_id fresh s.assignments,
  )

  assign_in-stores :
      (config : Option (ExperimentConfig doubles.Float)) (exp_id id : String) (case : RecoveryCase)
      (stratum : String) (now : ℕ) (s : ExperimentEngine doubles.Float)
      (r : ExperimentAssignmentRecord doubles.Float)
      → (assign_in rt doubles config exp_id id case stratum now s).0 ≡ ok r
      → IsAssigned case.case_id exp_id r
          (assign_in rt doubles config exp_id id case stratum now s).1
  unfolding record_of
  assign_in-stores none exp_id id case stratum now s r h = ground (arith, h)
  assign_in-stores (some config) exp_id id case stratum now s r h =
      elim (Bool-cases config.is_active) [
        | inl on ↦
            let stored =
              return_or-stores _ exp_id case.case_id
                (record_of rt doubles id case config stratum now) r now s refl in
            rw on (stored (ground (arith, on, h)))
        | inr off ↦ ground (arith, off, h)
      ]

  assign_in-default :
      (config : Option (ExperimentConfig doubles.Float)) (exp_id id : String) (case : RecoveryCase)
      (stratum : String) (now : ℕ) (s : ExperimentEngine doubles.Float)
      → (assign_in rt doubles config exp_id id case stratum now s).1.default_experiment_id
        ≡ s.default_experiment_id
  assign_in-default none exp_id id case stratum now s = refl
  assign_in-default (some config) exp_id id case stratum now s =
      ground (arith, find case.case_id exp_id s.assignments)

  steps-default :
      (events : List Event) (s : ExperimentEngine doubles.Float)
      → (steps events s).default_experiment_id ≡ s.default_experiment_id
  unfolding step assign register_experiment
  steps-default [] s = refl
  steps-default (register config ∷ es) s = steps-default es _
  steps-default (request id case given stratum now failure_code ∷ es) s =
      steps-default es _ ∙ assign_in-default _ _ id case _ now s

  return_or-found :
      (found : Option (ExperimentAssignmentRecord doubles.Float)) (exp_id case_id : String)
      (fresh r : ExperimentAssignmentRecord doubles.Float) (now : ℕ)
      (s : ExperimentEngine doubles.Float)
      → found ≡ some r
      → return_or rt doubles found exp_id case_id fresh now s ≡ (ok r, s)
  return_or-found none exp_id case_id fresh r now s h = ground (arith, h)
  return_or-found (some x) exp_id case_id fresh r now s h = ground (arith, h)

  assign-found :
      (id : String) (case : RecoveryCase) (given stratum : Option String) (now : ℕ)
      (failure_code : Option String) (s : ExperimentEngine doubles.Float)
      (r : ExperimentAssignmentRecord doubles.Float) (config : ExperimentConfig doubles.Float)
      → lookup (or_default given s.default_experiment_id) s.experiments ≡ some config
      → config.is_active ≡ true
      → IsAssigned case.case_id (or_default given s.default_experiment_id) r s
      → assign rt doubles id case given stratum now failure_code s ≡ (ok r, s)
  unfolding assign record_of
  assign-found id case given stratum now failure_code s r config found on h =
      rw (found, on) (return_or-found _ _ case.case_id _ r now s h)

  -- A case stays in the arm that it was put into: once an assignment has returned a record, then
  -- after any further assignments and registrations, also of the same experiment with other ratios,
  -- a call for the same case and the same argument for the experiment returns that very record and
  -- changes nothing, whatever the case's other fields, the stratum, the failure code and the time
  -- are, if the experiment is active at that time.
  pub assign-IsSticky :
      (id : String) (case : RecoveryCase) (given stratum : Option String) (now : ℕ)
      (failure_code : Option String) (s : ExperimentEngine doubles.Float)
      (r : ExperimentAssignmentRecord doubles.Float)
      → (assign rt doubles id case given stratum now failure_code s).0 ≡ ok r
      → (events : List Event) (s' : ExperimentEngine doubles.Float)
      → steps events (assign rt doubles id case given stratum now failure_code s).1 ≡ s'
      → (config : ExperimentConfig doubles.Float)
      → lookup (or_default given s.default_experiment_id) s'.experiments ≡ some config
      → config.is_active ≡ true
      → (id' : String) (case' : RecoveryCase) (stratum' : Option String) (now' : ℕ)
        (failure_code' : Option String)
      → case'.case_id ≡ case.case_id
      → assign rt doubles id' case' given stratum' now' failure_code' s' ≡ (ok r, s')
  unfolding assign
  assign-IsSticky id case given stratum now failure_code s r h events s' later config found on id'
        case' stratum' now' failure_code' same =
      let exp_id = or_default given s.default_experiment_id in
      let text = or_default stratum (compute_stratum case failure_code) in
      let after = (assign rt doubles id case given stratum now failure_code s).1 in
      let first = assign_in-stores (lookup exp_id s.experiments) exp_id id case text now s r h in
      let kept = steps-IsAssigned case.case_id exp_id r events after first in
      let default =
        steps-default events after
        ∙ assign_in-default (lookup exp_id s.experiments) exp_id id case text now s in
      let standing = ap (λ x. x.default_experiment_id) (sym later) ∙ default in
      assign-found id' case' given stratum' now' failure_code' s' r config (rw standing found) on
        (rw (standing, same, sym later) kept)
