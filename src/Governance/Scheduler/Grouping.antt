-- ===== src/Governance/Scheduler/Grouping.antt =====
-- The groups of the times make up the list that they were taken from.
use mathlib.Core.List.{Perm, perm_middle}
use mathlib.Core.List.Perm
use ai_revenue_recovery.Prelude.{
  ℕ, ◌+◌, ◌≤◌, false, List, [], ◌∷◌, ◌++◌, ◌≡◌, inl, inr, refl, ap, arith, Bool-cases, eqb, leb,
  if◌then◌else◌, All, All-mono,
}
use ai_revenue_recovery.Prelude.Sorting.{sort, insert_sorted}
use ai_revenue_recovery.Foundation.Events.{ComplianceObligation}
use ai_revenue_recovery.Governance.Scheduler.{Obligations, filter, at_time, add_time, times_of}

-- How often a time stands in a list.
abbrev pub tally : ℕ → List ℕ → ℕ
tally t [] = 0
tally t (u ∷ us) = (if eqb t u then 1 else 0) + tally t us

tally-insert_sorted : (t u : ℕ) (us : List ℕ) → tally t (insert_sorted leb u us) ≡ tally t (u ∷ us)
unfolding insert_sorted
tally-insert_sorted t u [] = refl
tally-insert_sorted t u (v ∷ us) = elim (Bool-cases (leb u v)) [
  | inl e ↦ rw e refl
  | inr e ↦ rw e (omega (arith, tally-insert_sorted t u us))
]

pub tally-sort : (t : ℕ) (us : List ℕ) → tally t (sort leb us) ≡ tally t us
unfolding sort
tally-sort t [] = refl
tally-sort t (u ∷ us) = omega (arith, tally-insert_sorted t u (sort leb us), tally-sort t us)

tally-add_time-same : (t : ℕ) (us : List ℕ) → tally t us ≤ 1 → tally t (add_time t us) ≡ 1
unfolding add_time
tally-add_time-same t [] h = ground arith
tally-add_time-same t (u ∷ us) h = elim (Bool-cases (eqb u t)) [
  | inl e ↦ rw e (ground arith)
  | inr e ↦ rw e (ground (arith, tally-add_time-same t us))
]

tally-add_time-le : (t u : ℕ) (us : List ℕ) → tally t us ≤ tally t (add_time u us)
unfolding add_time
tally-add_time-le t u [] = omega arith
tally-add_time-le t u (v ∷ us) = elim (Bool-cases (eqb v u)) [
  | inl e ↦ rw e (omega arith)
  | inr e ↦ rw e (omega (arith, tally-add_time-le t u us))
]

tally-add_time-other :
    (t u : ℕ) (us : List ℕ) → eqb u t ≡ false → tally t (add_time u us) ≡ tally t us
unfolding add_time
tally-add_time-other t u [] h = ground arith
tally-add_time-other t u (v ∷ us) h = elim (Bool-cases (eqb v u)) [
  | inl e ↦ rw e refl
  | inr e ↦ rw e (omega (arith, tally-add_time-other t u us h))
]

-- Each time is a key once at most.
pub times_of-distinct : (t : ℕ) (os : Obligations) → tally t (times_of os) ≤ 1
unfolding times_of
times_of-distinct t [] = omega arith
times_of-distinct t (o ∷ os) = elim (Bool-cases (eqb o.scheduled_time t)) [
  | inl e ↦ ground (arith, tally-add_time-same t (times_of os), times_of-distinct t os)
  | inr e ↦
      ground
        (arith, tally-add_time-other t o.scheduled_time (times_of os) e, times_of-distinct t os)
]

-- The groups of the times, one after the other.
unfoldable pub grouped : List ℕ → Obligations → Obligations
unfolding filter
grouped [] os = []
grouped (t ∷ ts) os = at_time t os ++ grouped ts os

grouped-absent :
    (o : ComplianceObligation) (os : Obligations) (ts : List ℕ)
    → tally o.scheduled_time ts ≡ 0
    → grouped ts (o ∷ os) ≡ grouped ts os
unfolding grouped filter
grouped-absent o os [] h = refl
grouped-absent o os (t ∷ ts) h = elim (Bool-cases (eqb o.scheduled_time t)) [
  | inl e ↦ absurd (ground arith)
  | inr e ↦ rw e (ap (at_time t os ++◌) (grouped-absent o os ts (ground arith)))
]

grouped-present :
    (o : ComplianceObligation) (os : Obligations) (ts : List ℕ)
    → tally o.scheduled_time ts ≡ 1
    → Perm (grouped ts (o ∷ os)) (o ∷ grouped ts os)
unfolding grouped filter
grouped-present o os [] h = absurd (omega arith)
grouped-present o os (t ∷ ts) h = elim (Bool-cases (eqb o.scheduled_time t)) [
  | inl e ↦ rw (e, grouped-absent o os ts (ground arith)) Perm.rfl
  | inr e ↦ rw e (
      Perm.trans (Perm.append_left (at_time t os) (grouped-present o os ts (ground arith)))
        (perm_middle (at_time t os) (grouped ts os)))
]

tally-times_of-head :
    (o : ComplianceObligation) (os : Obligations) → tally o.scheduled_time (times_of (o ∷ os)) ≡ 1
unfolding times_of
tally-times_of-head o os =
    tally-add_time-same o.scheduled_time (times_of os) (times_of-distinct o.scheduled_time os)

grouped-nil : (ts : List ℕ) → grouped ts [] ≡ []
unfolding grouped filter
grouped-nil [] = refl
grouped-nil (t ∷ ts) = grouped-nil ts

grouped-Perm :
    (ts : List ℕ) (os : Obligations)
    → All (λ o. tally o.scheduled_time ts ≡ 1) os
    → Perm (grouped ts os) os
grouped-Perm ts [] h = rw (grouped-nil ts) Perm.rfl
grouped-Perm ts (o ∷ os) h =
    Perm.trans (grouped-present o os ts h.0) (Perm.cons o (grouped-Perm ts os h.1))

times_of-All : (os : Obligations) → All (λ o. 1 ≤ tally o.scheduled_time (times_of os)) os
unfolding times_of
times_of-All [] = tt
times_of-All (o ∷ os) = (
  omega (arith, tally-times_of-head o os),
  All-mono (λ p. 1 ≤ tally p.scheduled_time (times_of os))
      (λ p. 1 ≤ tally p.scheduled_time (times_of (o ∷ os)))
      (λ p h. omega (arith, h, tally-add_time-le p.scheduled_time o.scheduled_time (times_of os)))
      os (times_of-All os),
)

sorted_times-All :
    (os : Obligations) → All (λ o. tally o.scheduled_time (sort leb (times_of os)) ≡ 1) os
sorted_times-All os =
    All-mono (λ o. 1 ≤ tally o.scheduled_time (times_of os))
      (λ o. tally o.scheduled_time (sort leb (times_of os)) ≡ 1)
      (λ o h. omega (
        arith,
        h,
        tally-sort o.scheduled_time (times_of os),
        times_of-distinct o.scheduled_time os,
      ))
      os (times_of-All os)

-- The groups of all times, in the order of time, are a permutation of the list.
pub grouped-times_of : (os : Obligations) → Perm (grouped (sort leb (times_of os)) os) os
grouped-times_of os = grouped-Perm (sort leb (times_of os)) os (sorted_times-All os)
