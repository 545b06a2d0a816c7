-- ===== src/Governance/Scheduler/Precedence.antt =====
-- The outcome of a collision.
use mathlib.Core.List.{Perm}
use mathlib.Core.List.Perm
use ai_revenue_recovery.Prelude.{
  ℕ, ◌≤◌, [], ◌∷◌, ◌≡◌, inl, inr, refl, ap, arith, Bool-cases, eqb, none, some, ◌≢◌, eq_iff, All,
  length,
}
use ai_revenue_recovery.Prelude.Sorting.{IsOrdered, sort, All-sort, sort-Perm}
use ai_revenue_recovery.Foundation.Audit.{◌&◌}
use ai_revenue_recovery.Foundation.Events.{ComplianceObligation, obligation_type_value}
use ai_revenue_recovery.Foundation.Runtime.{Runtime}
use ai_revenue_recovery.Governance.Scheduler.{
  Obligations, Resolution, filter, at_time, not_after, made_pending, is_pending, subordinates,
  collide, settle,
}
use ai_revenue_recovery.Governance.Scheduler.Order.{Precedes, sort-Precedes, Outranks, outranks_of}

outranks_all :
    (time : ℕ) (a : ComplianceObligation) (os : Obligations)
    → a.scheduled_time ≡ time
    → All (λ o. o.scheduled_time ≡ time) os
    → All (Precedes a) os
    → All (Outranks a) os
outranks_all time a [] e es h = tt
outranks_all time a (o ∷ os) e es h =
    (outranks_of a o (ground (arith, e, es.0)) h.0, outranks_all time a os e es.1 h.1)

-- A PENDING obligation stays as it is; another one becomes PENDING, with no reason.
abbrev pub IsMadePending : ComplianceObligation → ComplianceObligation → Type 0
IsMadePending o after =
    (o.status ≡ "PENDING" → after ≡ o)
    × (o.status ≢ "PENDING" → after ≡ record o { status = "PENDING"; resolution_reason = none })

-- An obligation that has lost to `winner`: only its status and the reason for it change.
abbrev pub IsSubordinated :
    Runtime → ComplianceObligation → ComplianceObligation → ComplianceObligation → Type 0
IsSubordinated rt winner o after = after ≡ record o {
  status = "COLLISION_RESOLVED";
  resolution_reason = some (
      "Collision resolved: subordinate to "
      & obligation_type_value winner.obligation_type
      & " ("
      & winner.obligation_id
      & ") at "
      & rt.isoformat o.scheduled_time);
}

abbrev pub AreSubordinated : Runtime → ComplianceObligation → Obligations → Obligations → Type 0
AreSubordinated rt winner [] [] = Unit
AreSubordinated rt winner (o ∷ os) (after ∷ afters) =
    IsSubordinated rt winner o after × AreSubordinated rt winner os afters
AreSubordinated rt winner _ _ = ⊥

subordinates-AreSubordinated :
    (rt : Runtime) (winner : ComplianceObligation) (os : Obligations)
    → AreSubordinated rt winner os (subordinates rt winner os)
unfolding subordinates
subordinates-AreSubordinated rt winner [] = tt
subordinates-AreSubordinated rt winner (o ∷ os) = (refl, subordinates-AreSubordinated rt winner os)

made_pending-IsMadePending : (o : ComplianceObligation) → IsMadePending o (made_pending o)
unfolding made_pending
made_pending-IsMadePending o = elim (Bool-cases (is_pending o)) [
  | inl e ↦ rw e (λ h. refl, λ h. absurd (h (ground (arith, eq_iff o.status "PENDING"))))
  | inr e ↦ rw e (λ h. absurd (ground (arith, eq_iff o.status "PENDING")), λ h. refl)
]

-- A collision of a group: one obligation outranks all others, and stays or is made PENDING; the
-- others are marked as its subordinates; and all of these are what is stored.
pub record IsResolved (rt : Runtime) (group : Obligations) (r : Resolution) : Type 0 where
  pub dominant : ComplianceObligation
  pub others : Obligations
  pub members : Perm (dominant ∷ others) group
  pub first : All (Outranks dominant) others
  pub winner : ComplianceObligation
  pub pending : IsMadePending dominant winner
  pub scheduled : r.scheduled ≡ winner ∷ []
  pub collisions : AreSubordinated rt winner others r.collisions
  pub stored : r.updated ≡ winner ∷ r.collisions

pub at_time-All :
    (time : ℕ) (os : Obligations) → All (λ o. o.scheduled_time ≡ time) (at_time time os)
unfolding filter
at_time-All time [] = tt
at_time-All time (o ∷ os) = elim (Bool-cases (eqb o.scheduled_time time)) [
  | inl e ↦ rw e (ground arith, at_time-All time os)
  | inr e ↦ rw e (at_time-All time os)
]

collide-IsResolved :
    (rt : Runtime) (time : ℕ) (group sorted : Obligations)
    → 2 ≤ length group
    → Perm sorted group
    → IsOrdered Precedes sorted
    → All (λ o. o.scheduled_time ≡ time) sorted
    → IsResolved rt group (collide rt sorted)
unfolding collide
collide-IsResolved rt time group [] h p ordered times =
    absurd (omega (arith, ap length (Perm.nil-eq p)))
collide-IsResolved rt time group (o ∷ os) h p ordered times = record {
  dominant = o;
  others = os;
  members = p;
  first = outranks_all time o os times.0 times.1 ordered.0;
  winner = made_pending o;
  pending = made_pending-IsMadePending o;
  scheduled = refl;
  collisions = subordinates-AreSubordinated rt (made_pending o) os;
  stored = refl;
}

settle-collide :
    (rt : Runtime) (group : Obligations)
    → 2 ≤ length group
    → settle rt group ≡ collide rt (sort not_after group)
unfolding settle
settle-collide rt [] h = absurd (omega arith)
settle-collide rt (o ∷ []) h = absurd (omega arith)
settle-collide rt (o ∷ p ∷ ps) h = refl

-- Of the obligations of a time, where there are at least two, one outranks all others, by being
-- mandatory, by its type, or by its id; it stays PENDING or becomes so without a reason, and it
-- alone is scheduled. Each of the others is marked COLLISION_RESOLVED with a reason that names the
-- winner, and keeps everything else. The winner and the marked ones are what is stored.
pub settle-IsResolved :
    (rt : Runtime) (time : ℕ) (os : Obligations)
    → 2 ≤ length (at_time time os)
    → IsResolved rt (at_time time os) (settle rt (at_time time os))
settle-IsResolved rt time os h =
    let group = at_time time os in
    rw (settle-collide rt group h) (
      collide-IsResolved rt time group (sort not_after group) h (sort-Perm not_after group)
        (sort-Precedes group)
        (All-sort not_after (λ o. o.scheduled_time ≡ time) group (at_time-All time os)))
