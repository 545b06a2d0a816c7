-- ===== src/Governance/Scheduler/Conservation.antt =====
-- What a resolution of collisions keeps, and how many obligations it leaves PENDING.
use mathlib.Core.List.{Perm, map-append}
use mathlib.Core.List.Perm
use ai_revenue_recovery.Prelude.{
  ℕ, ◌+◌, ◌≤◌, String, false, none, List, [], ◌∷◌, ◌++◌, ◌≡◌, inl, inr, refl, ap, arith, Bool-cases,
  eqb, eq_refl, leb, not, ◌==◌, ◌&&◌, if◌then◌else◌, All, map,
}
use ai_revenue_recovery.Prelude.Dict.{lookup-insert}
use ai_revenue_recovery.Prelude.Sorting.{sort, sort-Perm, All-sort}
use ai_revenue_recovery.Foundation.Events.{ComplianceObligation}
use ai_revenue_recovery.Foundation.Runtime.{Runtime}
use ai_revenue_recovery.Governance.Scheduler.{
  Obligations, ComplianceScheduler, is_pending, is_active, filter, at_time, times_of, not_after,
  made_pending, subordinates, collide, settle, settle_all, resolved, obligations_of,
  resolve_collisions, resolve_found,
}
use ai_revenue_recovery.Governance.Scheduler.Order.{filter-Perm}
use ai_revenue_recovery.Governance.Scheduler.Precedence.{at_time-All}
use ai_revenue_recovery.Governance.Scheduler.Grouping.{
  tally, grouped, grouped-times_of, tally-sort, times_of-distinct,
}

-- An obligation without its status and the reason for it.
abbrev pub identity : ComplianceObligation → ComplianceObligation
identity o = record o { status = ""; resolution_reason = none }

abbrev pub identities : Obligations → Obligations
identities = map identity

identity-made_pending : (o : ComplianceObligation) → identity (made_pending o) ≡ identity o
unfolding made_pending
identity-made_pending o = elim (Bool-cases (is_pending o)) [ inl e ↦ rw e refl | inr e ↦ rw e refl ]

identities-append :
    (xs ys us vs : Obligations)
    → Perm (identities xs) (identities us)
    → Perm (identities ys) (identities vs)
    → Perm (identities (xs ++ ys)) (identities (us ++ vs))
identities-append xs ys us vs p q =
    rw (map-append identity xs ys, map-append identity us vs) (Perm.append p q)

module _ (rt : Runtime) where
  identities-subordinates :
      (d : ComplianceObligation) (os : Obligations)
      → identities (subordinates rt d os) ≡ identities os
  unfolding subordinates
  identities-subordinates d [] = refl
  identities-subordinates d (o ∷ os) = ap (identity o ∷◌) (identities-subordinates d os)

  identities-collide : (os : Obligations) → identities (collide rt os).updated ≡ identities os
  unfolding collide
  identities-collide [] = refl
  identities-collide (o ∷ os) =
      rw (identity-made_pending o, identities-subordinates (made_pending o) os) refl

  identities-settle : (os : Obligations) → Perm (identities (settle rt os).updated) (identities os)
  unfolding settle sort
  identities-settle [] = Perm.rfl
  identities-settle (o ∷ []) = Perm.rfl
  identities-settle (o ∷ p ∷ ps) =
      rw (identities-collide (sort not_after (o ∷ p ∷ ps)))
        (Perm.map identity (sort-Perm not_after (o ∷ p ∷ ps)))

  identities-settle_all :
      (ts : List ℕ) (os : Obligations)
      → Perm (identities (settle_all rt ts os).updated) (identities (grouped ts os))
  unfolding settle_all grouped
  identities-settle_all [] os = Perm.rfl
  identities-settle_all (t ∷ ts) os =
      identities-append (settle rt (at_time t os)).updated (settle_all rt ts os).updated
        (at_time t os) (grouped ts os) (identities-settle (at_time t os))
        (identities-settle_all ts os)

  resolved-Perm : (os : Obligations) → Perm (identities (resolved rt os)) (identities os)
  unfolding resolved
  resolved-Perm os =
      let active = filter is_active os in
      let inactive = filter (λ o. not (is_active o)) os in
      let ts = sort leb (times_of active) in
      Perm.trans
        (identities-append (settle_all rt ts active).updated inactive active inactive
          (Perm.trans (identities-settle_all ts active)
            (Perm.map identity (grouped-times_of active)))
          Perm.rfl)
        (Perm.map identity (filter-Perm is_active os))

  -- The number of PENDING obligations of a time.
  abbrev pub pending_at : ℕ → Obligations → ℕ
  pending_at t [] = 0
  pending_at t (o ∷ os) =
      (if is_pending o && eqb o.scheduled_time t then 1 else 0) + pending_at t os

  pending_at-append :
      (t : ℕ) (os ps : Obligations) → pending_at t (os ++ ps) ≡ pending_at t os + pending_at t ps
  pending_at-append t [] ps = omega arith
  pending_at-append t (o ∷ os) ps = omega (arith, pending_at-append t os ps)

  pending_at-subordinates :
      (t : ℕ) (d : ComplianceObligation) (os : Obligations)
      → pending_at t (subordinates rt d os) ≡ 0
  unfolding subordinates
  pending_at-subordinates t d [] = refl
  pending_at-subordinates t d (o ∷ os) = omega (arith, pending_at-subordinates t d os)

  scheduled_time-made_pending :
      (o : ComplianceObligation) → (made_pending o).scheduled_time ≡ o.scheduled_time
  unfolding made_pending
  scheduled_time-made_pending o = elim (Bool-cases (is_pending o)) [
    | inl e ↦ rw e refl
    | inr e ↦ rw e refl
  ]

  -- What a group of the time `u` may add.
  abbrev share : ℕ → ℕ → ℕ
  share t u = if eqb t u then 1 else 0

  pending_at-collide :
      (t u : ℕ) (os : Obligations)
      → All (λ o. o.scheduled_time ≡ u) os
      → pending_at t (collide rt os).updated ≤ share t u
  unfolding collide
  pending_at-collide t u [] h = omega arith
  pending_at-collide t u (o ∷ os) h =
      ground
        (arith, scheduled_time-made_pending o, pending_at-subordinates t (made_pending o) os, h.0)

  pending_at-settle :
      (t u : ℕ) (os : Obligations)
      → All (λ o. o.scheduled_time ≡ u) os
      → pending_at t (settle rt os).updated ≤ share t u
  unfolding settle sort
  pending_at-settle t u [] h = pending_at-collide t u [] tt
  pending_at-settle t u (o ∷ []) h = ground (arith, h.0)
  pending_at-settle t u (o ∷ p ∷ ps) h =
      pending_at-collide t u (sort not_after (o ∷ p ∷ ps))
        (All-sort not_after (λ o. o.scheduled_time ≡ u) (o ∷ p ∷ ps) h)

  pending_at-settle_all :
      (t : ℕ) (ts : List ℕ) (os : Obligations)
      → pending_at t (settle_all rt ts os).updated ≤ tally t ts
  unfolding settle_all
  pending_at-settle_all t [] os = omega arith
  pending_at-settle_all t (u ∷ us) os = omega (
    arith,
    pending_at-append t (settle rt (at_time u os)).updated (settle_all rt us os).updated,
    pending_at-settle t u (at_time u os) (at_time-All u os),
    pending_at-settle_all t us os,
  )

  pending_at-inactive :
      (t : ℕ) (os : Obligations) → pending_at t (filter (λ o. not (is_active o)) os) ≡ 0
  unfolding filter
  pending_at-inactive t [] = refl
  pending_at-inactive t (o ∷ os) = elim (Bool-cases (is_active o)) [
    | inl e ↦ rw e (pending_at-inactive t os)
    | inr e ↦ rw e (ground (arith, pending_at-inactive t os))
  ]

  pending_at-resolved : (t : ℕ) (os : Obligations) → pending_at t (resolved rt os) ≤ 1
  unfolding resolved
  pending_at-resolved t os =
      let active = filter is_active os in
      let ts = sort leb (times_of active) in
      omega (
        arith,
        pending_at-append t (settle_all rt ts active).updated (filter (λ o. not (is_active o)) os),
        pending_at-settle_all t ts active,
        tally-sort t (times_of active),
        times_of-distinct t active,
        pending_at-inactive t os,
      )

  module _ (draw : ℕ → String) (case_id : String) (now : ℕ) (s : ComplianceScheduler) where
    abbrev pub after : ComplianceScheduler
    after = (resolve_collisions rt draw case_id now s).1

    stored_found :
        (os : Obligations)
        → obligations_of case_id s ≡ os
        → obligations_of case_id (resolve_found rt draw os case_id now s).1 ≡ resolved rt os
    unfolding resolved sort
    stored_found [] e = e
    stored_found (o ∷ os) e =
        ground
          (arith, lookup-insert case_id case_id (resolved rt (o ∷ os)) s.store, eq_refl case_id)

    stored_other :
        (os : Obligations) (key : String)
        → (case_id == key) ≡ false
        → obligations_of key (resolve_found rt draw os case_id now s).1 ≡ obligations_of key s
    stored_other [] key h = refl
    stored_other (o ∷ os) key h =
        ground (arith, lookup-insert key case_id (resolved rt (o ∷ os)) s.store)

    -- Resolving the collisions of a case loses no obligation of it and makes up none: but for the
    -- status and its reason they are the same ones, and those of other cases do not change. At each
    -- time at most one of the case's obligations is PENDING afterwards.
    pub resolve_collisions-IsConserving :
        Perm (identities (obligations_of case_id after)) (identities (obligations_of case_id s))
        × ((time : ℕ) → pending_at time (obligations_of case_id after) ≤ 1)
        × ((key : String)
            → (case_id == key) ≡ false
            → obligations_of key after ≡ obligations_of key s)
    unfolding resolve_collisions
    resolve_collisions-IsConserving = rw (stored_found (obligations_of case_id s) refl) (
        (
          resolved-Perm (obligations_of case_id s),
          (λ time. pending_at-resolved time (obligations_of case_id s)),
          stored_other (obligations_of case_id s),
        ))
