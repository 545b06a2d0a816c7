-- ===== src/Governance/Scheduler/Query.antt =====
-- The query of what is due.
use mathlib.Core.List.{Perm, append-nil, append_assoc, perm_append_comm}
use mathlib.Core.Path.{subst}
use ai_revenue_recovery.Prelude.{
  ℕ, String, true, Option, some, List, [], ◌∷◌, ◌≡◌, ◌≢◌, ◌↔◌, inl, inr, refl, ap, ◌∙◌, ◌++◌, ◌≤◌,
  Bool, none, if◌then◌else◌, not, arith, Bool-cases, eq_iff, eq_refl, ◌==◌, All, All-append,
}
use ai_revenue_recovery.Prelude.Dict.{Dict, lookup}
use ai_revenue_recovery.Foundation.Audit.{AuditLog}
use ai_revenue_recovery.Foundation.Events.{ComplianceObligation}
use mathlib.Core.List.Perm
use ai_revenue_recovery.Prelude.Sorting.{
  sort, sort-Perm, All-sort, leb_text, insert_sorted, IsOrdered,
}
use ai_revenue_recovery.Governance.Scheduler.{
  Obligations, ComplianceScheduler, is_due, filter, not_after, obligations_of, collect, asked,
  keys_of, get_pending_obligations,
}
use ai_revenue_recovery.Governance.Scheduler.Order.{
  Comes, sort-Comes, filter-All, filter-Perm, All-map,
}

collect-All :
    (as_of : Option ℕ) (keys : List String) (s : ComplianceScheduler)
    → All (λ o. is_due as_of o ≡ true) (collect as_of keys s)
unfolding collect
collect-All as_of [] s = tt
collect-All as_of (k ∷ ks) s =
    All-append (λ o. is_due as_of o ≡ true) (filter (is_due as_of) (obligations_of k s))
      (collect as_of ks s) (filter-All (is_due as_of) (obligations_of k s)) (collect-All as_of ks s)

collect-one :
    (as_of : Option ℕ) (key : String) (s : ComplianceScheduler)
    → collect as_of (key ∷ []) s ≡ filter (is_due as_of) (obligations_of key s)
unfolding collect
collect-one as_of key s = append-nil (filter (is_due as_of) (obligations_of key s))

-- PENDING, and not later than the given time, if there is one.
abbrev pub IsBy : Option ℕ → ℕ → Type 0
IsBy none time = Unit
IsBy (some as_of) time = time ≤ as_of

abbrev pub IsDue : Option ℕ → ComplianceObligation → Type 0
IsDue as_of o = (o.status ≡ "PENDING") × IsBy as_of o.scheduled_time

is_due_iff : (as_of : Option ℕ) (o : ComplianceObligation) → (is_due as_of o ≡ true) ↔ IsDue as_of o
is_due_iff none o = (
  λ h. (ground (arith, eq_iff o.status "PENDING"), tt),
  λ h. ground (arith, h.0, eq_iff o.status "PENDING"),
)
is_due_iff (some n) o = (
  λ h. (ground (arith, eq_iff o.status "PENDING"), ground arith),
  λ h. ground (arith, h.0, h.1, eq_iff o.status "PENDING"),
)

-- The obligations of the cases that are asked for: of one, or of all that the store has.
abbrev pub stored : Dict Obligations → Obligations
stored [] = []
stored ((_, os) ∷ d) = os ++ stored d

abbrev pub scope : Option String → ComplianceScheduler → Obligations
scope none s = stored s.store
scope (some case_id) s = if case_id == "" then stored s.store else obligations_of case_id s

-- A Python dict has no key twice.
abbrev pub IsDict : Dict Obligations → Type 0
IsDict [] = Unit
IsDict ((k, os) ∷ d) = All (λ e. e.0 ≢ k) d × IsDict d

keys_of-All :
    (k : String) (d : Dict Obligations) → All (λ e. e.0 ≢ k) d → All (λ j. j ≢ k) (keys_of d)
unfolding keys_of
keys_of-All k [] h = tt
keys_of-All k ((j, os) ∷ d) h = (h.0, keys_of-All k d h.1)

filter-append :
    (test : ComplianceObligation → Bool) (os ps : Obligations)
    → filter test (os ++ ps) ≡ filter test os ++ filter test ps
unfolding filter
filter-append test [] ps = refl
filter-append test (o ∷ os) ps = elim (Bool-cases (test o)) [
  | inl e ↦ rw e (ap (o ∷◌) (filter-append test os ps))
  | inr e ↦ rw e (filter-append test os ps)
]

module _ (as_of : Option ℕ) (audit : Option AuditLog) where
  abbrev at : Dict Obligations → ComplianceScheduler
  at d = record { store = d; audit = audit }

  append_swap : (os ps qs : Obligations) → Perm (os ++ (ps ++ qs)) (ps ++ (os ++ qs))
  append_swap os ps qs =
      subst (λ x. Perm (os ++ (ps ++ qs)) x) (append_assoc ps os qs)
        (subst (λ x. Perm x ((ps ++ os) ++ qs)) (append_assoc os ps qs)
          (Perm.append_right qs (perm_append_comm os ps)))

  collect-insert_sorted :
      (k : String) (ks : List String) (s : ComplianceScheduler)
      → Perm (collect as_of (insert_sorted leb_text k ks) s) (collect as_of (k ∷ ks) s)
  unfolding collect insert_sorted
  collect-insert_sorted k [] s = Perm.rfl
  collect-insert_sorted k (j ∷ ks) s = elim (Bool-cases (leb_text k j)) [
    | inl first ↦ rw first Perm.rfl
    | inr later ↦ rw later (
        Perm.trans
          (Perm.append_left (filter (is_due as_of) (obligations_of j s))
            (collect-insert_sorted k ks s))
          (append_swap (filter (is_due as_of) (obligations_of j s))
            (filter (is_due as_of) (obligations_of k s)) (collect as_of ks s)))
  ]

  collect-sort :
      (ks : List String) (s : ComplianceScheduler)
      → Perm (collect as_of (sort leb_text ks) s) (collect as_of ks s)
  unfolding collect sort
  collect-sort [] s = Perm.rfl
  collect-sort (k ∷ ks) s =
      Perm.trans (collect-insert_sorted k (sort leb_text ks) s)
        (Perm.append_left (filter (is_due as_of) (obligations_of k s)) (collect-sort ks s))

  -- A key that is not asked for does not matter.
  collect-skip :
      (ks : List String) (k : String) (os : Obligations) (d : Dict Obligations)
      → All (λ j. j ≢ k) ks
      → collect as_of ks (at ((k, os) ∷ d)) ≡ collect as_of ks (at d)
  unfolding collect lookup
  collect-skip [] k os d h = refl
  collect-skip (j ∷ ks) k os d h = ground (arith, h.0, eq_iff k j, collect-skip ks k os d h.1)

  collect-keys :
      (d : Dict Obligations)
      → IsDict d
      → collect as_of (keys_of d) (at d) ≡ filter (is_due as_of) (stored d)
  unfolding collect lookup keys_of filter
  collect-keys [] h = refl
  collect-keys ((k, os) ∷ d) h =
      rw (eq_refl k, filter-append (is_due as_of) os (stored d))
        (ap (filter (is_due as_of) os ++◌)
          (collect-skip (keys_of d) k os d (keys_of-All k d h.0) ∙ collect-keys d h.1))

collect-scope :
    (case_id : Option String) (as_of : Option ℕ) (s : ComplianceScheduler)
    → IsDict s.store
    → collect as_of (asked case_id (keys_of s.store)) s ≡ filter (is_due as_of) (scope case_id s)
collect-scope none as_of s h = collect-keys as_of s.audit s.store h
collect-scope (some case_id) as_of s h = elim (Bool-cases (case_id == "")) [
  | inl e ↦ rw e (collect-keys as_of s.audit s.store h)
  | inr e ↦ rw e (collect-one as_of case_id s)
]

filter_rest :
    (as_of : Option ℕ) (os : Obligations)
    → All (λ o. ¬ IsDue as_of o) (filter (λ o. not (is_due as_of o)) os)
filter_rest as_of os =
    All-map (λ o h due. ground (arith, h, (is_due_iff as_of o).1 due))
      (filter (λ o. not (is_due as_of o)) os) (filter-All (λ o. not (is_due as_of o)) os)

-- Of a store without a key twice, the query returns exactly the obligations that are PENDING and
-- not later than the given time, if one is given: of the named case, or of all cases if none or
-- the empty one is named. They and the ones that are not due make up all that was asked for. They
-- come by time; at one time, mandatory ones first, then by type, then by id.
pub get_pending_obligations-IsDue :
    (case_id : Option String) (as_of : Option ℕ) (s : ComplianceScheduler)
    → IsDict s.store
    → let found = get_pending_obligations case_id as_of s in
      All (IsDue as_of) found
      × IsOrdered Comes found
      × (rest : Obligations) × All (λ o. ¬ IsDue as_of o) rest
      × Perm (found ++ rest) (scope case_id s)
unfolding get_pending_obligations
get_pending_obligations-IsDue case_id as_of s h =
    let keys = asked case_id (keys_of s.store) in
    let all = scope case_id s in
    let due = collect as_of (sort leb_text keys) s in
    let rest = filter (λ o. not (is_due as_of o)) all in
    let same =
      Perm.trans (sort-Perm not_after due)
        (subst (Perm due) (collect-scope case_id as_of s h) (collect-sort as_of s.audit keys s)) in
    (
      All-map (λ o e. (is_due_iff as_of o).0 e) (sort not_after due)
          (All-sort not_after (λ o. is_due as_of o ≡ true) due
            (collect-All as_of (sort leb_text keys) s)),
      sort-Comes due,
      rest,
      filter_rest as_of all,
      Perm.trans (Perm.append_right rest same) (filter-Perm (is_due as_of) all),
    )
