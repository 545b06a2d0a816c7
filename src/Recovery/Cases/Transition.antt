-- ===== src/Recovery/Cases/Transition.antt =====
-- The transition guards against a step relation on the states.
use ai_revenue_recovery.Prelude.{
  ℕ, ◌+◌, ◌≤◌, ◌<◌, Bool, true, false, Option, [], ◌∷◌, ◌≡◌, ◌↔◌, refl, arith, if◌then◌else◌,
}
use ai_revenue_recovery.Prelude.Exec.{ok}
use ai_revenue_recovery.Foundation.Events.{
  CaseState, open_case, diagnosed, evaluating, scheduled, executing, reconciling, resolved,
  abandoned, frozen, RiskTier, RecoveryCase,
}
use ai_revenue_recovery.Recovery.Cases.{
  allowed_transitions, terminal_states, is_in, transitioned, not_before, or_given,
}

pub data IsActive : CaseState → Type 0 where
  open_active : IsActive open_case
  diagnosed_active : IsActive diagnosed
  evaluating_active : IsActive evaluating
  scheduled_active : IsActive scheduled
  executing_active : IsActive executing
  reconciling_active : IsActive reconciling

-- The lifecycle: one way forward, two ways back to `scheduled`, a freeze from every active state, and
-- the end from every state that is not terminal.
infix 40 ◌⟶◌
pub data ◌⟶◌ : CaseState → CaseState → Type 0 where
  diagnose : open_case ⟶ diagnosed
  evaluate : diagnosed ⟶ evaluating
  schedule : evaluating ⟶ scheduled
  execute : scheduled ⟶ executing
  reconcile : executing ⟶ reconciling
  settle : reconciling ⟶ resolved
  retry_execution : executing ⟶ scheduled
  retry_settlement : reconciling ⟶ scheduled
  freeze : {s : CaseState} → IsActive s → s ⟶ frozen
  unfreeze : frozen ⟶ diagnosed
  abandon : {s : CaseState} → IsActive s → s ⟶ abandoned
  abandon_frozen : frozen ⟶ abandoned

ruleset edges = (
  open_active, diagnosed_active, evaluating_active, scheduled_active, executing_active,
  reconciling_active, diagnose, evaluate, schedule, execute, reconcile, settle, retry_execution,
  retry_settlement, freeze, unfreeze, abandon, abandon_frozen,
)

⟶-of_table : (s t : CaseState) → is_in t (allowed_transitions s) ≡ true → s ⟶ t
unfolding is_in allowed_transitions
⟶-of_table open_case t h = grind (arith, edges)
⟶-of_table diagnosed t h = grind (arith, edges)
⟶-of_table evaluating t h = grind (arith, edges)
⟶-of_table scheduled t h = grind (arith, edges)
⟶-of_table executing t h = grind (arith, edges)
⟶-of_table reconciling t h = grind (arith, edges)
⟶-of_table frozen t h = grind (arith, edges)
⟶-of_table resolved t h = cc
⟶-of_table abandoned t h = cc

table-of_active :
    (s : CaseState)
    → IsActive s
    → (is_in frozen (allowed_transitions s) ≡ true)
      × (is_in abandoned (allowed_transitions s) ≡ true)
unfolding is_in allowed_transitions
table-of_active s open_active = (refl, refl)
table-of_active s diagnosed_active = (refl, refl)
table-of_active s evaluating_active = (refl, refl)
table-of_active s scheduled_active = (refl, refl)
table-of_active s executing_active = (refl, refl)
table-of_active s reconciling_active = (refl, refl)

table-of_⟶ : {s t : CaseState} → s ⟶ t → is_in t (allowed_transitions s) ≡ true
unfolding is_in allowed_transitions
table-of_⟶ diagnose = refl
table-of_⟶ evaluate = refl
table-of_⟶ schedule = refl
table-of_⟶ execute = refl
table-of_⟶ reconcile = refl
table-of_⟶ settle = refl
table-of_⟶ retry_execution = refl
table-of_⟶ retry_settlement = refl
table-of_⟶ (freeze {s} a) = (table-of_active s a).0
table-of_⟶ unfreeze = refl
table-of_⟶ (abandon {s} a) = (table-of_active s a).1
table-of_⟶ abandon_frozen = refl

-- The attempts after a transition.
abbrev pub attempts_after : Bool → RecoveryCase → ℕ
attempts_after increment c = if increment then c.attempt_count + 1 else c.attempt_count

-- When a transition succeeds, and with which case.
pub record Succeeds (target : CaseState) (risk_tier : Option RiskTier) (increment : Bool) (now : ℕ)
    (before after : RecoveryCase) : Type 0 where
  pub edge : before.state ⟶ target
  pub room : increment ≡ true → before.attempt_count < before.max_attempts
  pub capped :
      is_in target (scheduled ∷ executing ∷ []) ≡ true
      → attempts_after increment before ≤ before.max_attempts
  pub result : after ≡ record before {
    state = target;
    risk_tier = or_given risk_tier before.risk_tier;
    attempt_count = attempts_after increment before;
    updated_at = not_before now before.updated_at;
  }

pub not-terminal : {s t : CaseState} → s ⟶ t → is_in s terminal_states ≡ false
unfolding is_in
not-terminal diagnose = refl
not-terminal evaluate = refl
not-terminal schedule = refl
not-terminal execute = refl
not-terminal reconcile = refl
not-terminal settle = refl
not-terminal retry_execution = refl
not-terminal retry_settlement = refl
not-terminal (freeze open_active) = refl
not-terminal (freeze diagnosed_active) = refl
not-terminal (freeze evaluating_active) = refl
not-terminal (freeze scheduled_active) = refl
not-terminal (freeze executing_active) = refl
not-terminal (freeze reconciling_active) = refl
not-terminal unfreeze = refl
not-terminal (abandon open_active) = refl
not-terminal (abandon diagnosed_active) = refl
not-terminal (abandon evaluating_active) = refl
not-terminal (abandon scheduled_active) = refl
not-terminal (abandon executing_active) = refl
not-terminal (abandon reconciling_active) = refl
not-terminal abandon_frozen = refl

module _ (target : CaseState) (risk_tier : Option RiskTier) (increment : Bool) (now : ℕ)
    (before : RecoveryCase) where
  transitioned_sound :
      (after : RecoveryCase)
      → transitioned target risk_tier increment now before ≡ ok after
      → Succeeds target risk_tier increment now before after
  unfolding transitioned
  transitioned_sound after h = record {
    edge = ⟶-of_table before.state target (ground arith);
    room = λ i. ground arith;
    capped = λ c. ground arith;
    result = ground arith;
  }

  transitioned_complete :
      (after : RecoveryCase)
      → Succeeds target risk_tier increment now before after
      → transitioned target risk_tier increment now before ≡ ok after
  unfolding transitioned
  transitioned_complete after h =
      ground (arith, not-terminal h.edge, table-of_⟶ h.edge, h.room, h.capped, h.result)

-- A transition succeeds exactly along an edge of the lifecycle, with an attempt left where one is
-- counted, and with no more attempts than the maximum where it schedules or executes; the case
-- changes in its state, tier, attempts and time alone.
pub transitioned_iff :
    (target : CaseState) (risk_tier : Option RiskTier) (increment : Bool) (now : ℕ)
    (before after : RecoveryCase)
    → (transitioned target risk_tier increment now before ≡ ok after)
      ↔ Succeeds target risk_tier increment now before after
transitioned_iff target risk_tier increment now before after = (
  transitioned_sound target risk_tier increment now before after,
  transitioned_complete target risk_tier increment now before after,
)
