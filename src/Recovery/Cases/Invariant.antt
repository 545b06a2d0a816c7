-- ===== src/Recovery/Cases/Invariant.antt =====
-- What each call does to the registry of cases, and what holds of every case between two calls.
use ai_revenue_recovery.Prelude.{
  ℕ, zero, suc, ◌≤◌, String, Bool, false, Option, none, some, List, [], ◌∷◌, ◌≡◌, refl, arith,
  Bool-cases, Option-cases, inl, inr, ◌==◌, ◌∙◌, sym,
}
use ai_revenue_recovery.Prelude.Int.{ℤ, pos, negsuc}
use ai_revenue_recovery.Prelude.Exec.{Result, ok, err}
use ai_revenue_recovery.Prelude.Dict.{Dict, lookup, insert, lookup-insert}
use ai_revenue_recovery.Foundation.Events.{
  CaseState, open_case, RiskTier, RecoveryCase, PaymentFailureEvent, frozen, diagnosed, abandoned,
  eq_case_state,
}
use ai_revenue_recovery.Foundation.Errors.{Error}
use ai_revenue_recovery.Foundation.Runtime.{Runtime}
use mathlib.Core.Path.{subst}
use ai_revenue_recovery.Recovery.Cases.{
  CaseManager, transitioned, create_case, transition_case, freeze_case, unfreeze_case, is_in,
  commit_transition,
}
use ai_revenue_recovery.Recovery.Cases.Transition.{Succeeds, transitioned_iff}

-- The calls that change a manager, with the random id that a creation draws.
pub data Call : Type 0 where
  create : String → PaymentFailureEvent → ℤ → ℕ → Call
  transition : String → CaseState → String → Option RiskTier → Bool → ℕ → Call
  freeze : String → String → ℕ → Call
  unfreeze : String → CaseState → String → ℕ → Call

pub record IsOpened (c : RecoveryCase) (now : ℕ) : Type 0 where
  pub state : c.state ≡ open_case
  pub attempts : c.attempt_count ≡ 0
  pub room : 1 ≤ c.max_attempts
  pub created : c.created_at ≡ now
  pub updated : c.updated_at ≡ now

-- What a call does to the cases: nothing, a new case, or one successful transition of one case.
pub data Effect (call : Call) (before after : Dict RecoveryCase) : Type 0 where
  unchanged : after ≡ before → Effect call before after
  created :
      (id : String) (event : PaymentFailureEvent) (max_attempts : ℤ) (now : ℕ) (c : RecoveryCase)
      → call ≡ create id event max_attempts now
      → IsOpened c now
      → after ≡ insert id c before
      → Effect call before after
  moved :
      (id : String) (target : CaseState) (risk_tier : Option RiskTier) (increment : Bool) (now : ℕ)
      (c c' : RecoveryCase)
      → lookup id before ≡ some c
      → Succeeds target risk_tier increment now c c'
      → after ≡ insert id c' before
      → Effect call before after

module _ (rt : Runtime) where
  unfoldable pub step : Call → CaseManager → CaseManager
  unfolding create_case freeze_case unfreeze_case
  step (create id event max_attempts now) m = (create_case rt id event max_attempts now m).1
  step (transition id target reason risk_tier increment now) m =
      (transition_case rt id target reason risk_tier increment now m).1
  step (freeze id reason now) m = (freeze_case rt id reason now m).1
  step (unfreeze id target reason now) m = (unfreeze_case rt id target reason now m).1

  abbrev pub steps : List Call → CaseManager → CaseManager
  steps [] m = m
  steps (call ∷ calls) m = steps calls (step call m)

  transition-Effect :
      (call : Call) (id : String) (target : CaseState) (reason : String)
      (risk_tier : Option RiskTier) (increment : Bool) (now : ℕ) (m : CaseManager)
      → Effect call m.cases (transition_case rt id target reason risk_tier increment now m).1.cases
  unfolding transition_case
  transition-Effect call id target reason risk_tier increment now m =
      elim (Option-cases (lookup id m.cases)) [
        | inl absent ↦ rw absent (unchanged refl)
        | inr (c, found) ↦
            rw found (go c found (transitioned target risk_tier increment now c) refl)
      ]
    where
      go :
          (c : RecoveryCase)
          → lookup id m.cases ≡ some c
          → (r : Result Error RecoveryCase) → transitioned target risk_tier increment now c ≡ r
          → Effect call m.cases (commit_transition rt r c id reason m).1.cases
      go c found (err e) h = unchanged refl
      go c found (ok c') h =
          moved id target risk_tier increment now c c' found
            ((transitioned_iff target risk_tier increment now c c').0 h) refl

  create-Effect :
      (id : String) (event : PaymentFailureEvent) (max_attempts : ℤ) (now : ℕ) (m : CaseManager)
      → Effect
          (create id event max_attempts now)
          m.cases
          (create_case rt id event max_attempts now m).1.cases
  unfolding create_case
  create-Effect id event (negsuc _) now m = unchanged refl
  create-Effect id event (pos zero) now m = unchanged refl
  create-Effect id event (pos (suc n)) now m = elim (Bool-cases (event.event_id == "")) [
    | inl e ↦ rw e (unchanged refl)
    | inr e ↦ rw e (
        created id event (pos (suc n)) now _ refl
          (record {
            state = refl;
            attempts = refl;
            room = omega arith;
            created = refl;
            updated = refl;
          })
          refl)
  ]

  unfreeze-Effect :
      (id : String) (target : CaseState) (reason : String) (now : ℕ) (m : CaseManager)
      → Effect
          (unfreeze id target reason now)
          m.cases
          (unfreeze_case rt id target reason now m).1.cases
  unfolding unfreeze_case
  unfreeze-Effect id target reason now m = elim (Option-cases (lookup id m.cases)) [
    | inl absent ↦ rw absent (unchanged refl)
    | inr (c, found) ↦ rw found (elim (Bool-cases (eq_case_state c.state frozen)) [
      | inl same ↦ rw same (elim (Bool-cases (is_in target (diagnosed ∷ abandoned ∷ []))) [
        | inl allowed ↦ rw allowed (transition-Effect _ id target _ none false now m)
        | inr other ↦ rw other (unchanged refl)
      ])
      | inr other ↦ rw other (unchanged refl)
    ])
  ]

  -- Every call leaves the cases as they were, adds one opened case, or moves one case by one
  -- successful transition; nothing else changes a case.
  pub step-Effect : (call : Call) (m : CaseManager) → Effect call m.cases (step call m).cases
  unfolding step freeze_case
  step-Effect (create id event max_attempts now) m = create-Effect id event max_attempts now m
  step-Effect (transition id target reason risk_tier increment now) m =
      transition-Effect _ id target reason risk_tier increment now m
  step-Effect (freeze id reason now) m = transition-Effect _ id frozen _ none false now m
  step-Effect (unfreeze id target reason now) m = unfreeze-Effect id target reason now m

-- What holds of a case between two calls.
pub record IsSoundCase (c : RecoveryCase) : Type 0 where
  pub attempts : c.attempt_count ≤ c.max_attempts
  pub room : 1 ≤ c.max_attempts
  pub times : c.created_at ≤ c.updated_at

abbrev pub IsSoundDict : Dict RecoveryCase → Type 0
IsSoundDict d = (id : String) (c : RecoveryCase) → lookup id d ≡ some c → IsSoundCase c

IsOpened-IsSoundCase : (c : RecoveryCase) (now : ℕ) → IsOpened c now → IsSoundCase c
IsOpened-IsSoundCase c now h = record {
  attempts = omega (arith, h.attempts);
  room = h.room;
  times = omega (arith, h.created, h.updated);
}

module _ {target : CaseState} {risk_tier : Option RiskTier} {increment : Bool} {now : ℕ}
    {c c' : RecoveryCase} where
  Succeeds-IsSoundCase :
      Succeeds target risk_tier increment now c c' → IsSoundCase c → IsSoundCase c'
  Succeeds-IsSoundCase s h = subst IsSoundCase (sym s.result) (record {
    attempts = ground (arith, s.room, h.attempts);
    room = h.room;
    times = ground (arith, h.times);
  })

insert-IsSoundDict :
    (id : String) (c : RecoveryCase) (d : Dict RecoveryCase)
    → IsSoundCase c
    → IsSoundDict d
    → IsSoundDict (insert id c d)
insert-IsSoundDict id c d sound h j c' e = elim (Bool-cases (id == j)) [
  | inl same ↦ subst IsSoundCase {x = c} (ground (arith, lookup-insert j id c d)) sound
  | inr other ↦ h j c' (sym (rw other at (lookup-insert j id c d)) ∙ e)
]

Effect-IsSoundDict :
    {call : Call} {before after : Dict RecoveryCase}
    → Effect call before after
    → IsSoundDict before
    → IsSoundDict after
Effect-IsSoundDict (unchanged e) h = subst IsSoundDict (sym e) h
Effect-IsSoundDict {before} (created id event max_attempts now c _ opened e) h =
    subst IsSoundDict (sym e) (insert-IsSoundDict id c before (IsOpened-IsSoundCase c now opened) h)
Effect-IsSoundDict {before} (moved id target risk_tier increment now c c' found s e) h =
    subst IsSoundDict (sym e)
      (insert-IsSoundDict id c' before (Succeeds-IsSoundCase s (h id c found)) h)

module _ (rt : Runtime) where
  -- From sound cases on, whatever is called at whatever times: no case has more attempts than its
  -- maximum, the maximum is positive, and no case was updated before it was created.
  pub steps-IsSoundDict :
      (calls : List Call) (m : CaseManager)
      → IsSoundDict m.cases
      → IsSoundDict (steps rt calls m).cases
  steps-IsSoundDict [] m h = h
  steps-IsSoundDict (call ∷ calls) m h =
      steps-IsSoundDict calls (step rt call m) (Effect-IsSoundDict (step-Effect rt call m) h)
