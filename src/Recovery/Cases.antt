-- ===== src/Recovery/Cases.antt =====
-- src/revenue_recovery/recovery_engine/case_manager.py. The locks make each method one step. `now`
-- is the given time or the clock's; a new case's random id is an argument of `create_case`.
pub mod Transition
pub mod Invariant
pub mod Lifecycle
use Prim.Native.String.{◌++◌ as concat}
use ai_revenue_recovery.Prelude.{
  ℕ, suc, ◌+◌, String, Bool, true, false, Option, none, some, List, [], ◌∷◌, ◌==◌, leb, ltb, not,
  ◌&&◌, ◌||◌, if◌then◌else◌, upper,
}
use ai_revenue_recovery.Prelude.Int.{ℤ, pos, negsuc}
use ai_revenue_recovery.Prelude.Exec.{Result, ok, err, Exec}
use ai_revenue_recovery.Prelude.Dict.{Dict, lookup, insert}
use ai_revenue_recovery.Foundation.Events.{
  CaseState, open_case, diagnosed, evaluating, scheduled, executing, reconciling, resolved,
  abandoned, frozen, RiskTier, low, PaymentFailureEvent, RecoveryCase, eq_case_state,
  case_state_value, risk_tier_value,
}
use ai_revenue_recovery.Foundation.Errors.{
  Error, value_error, validation_error, case_not_found, invalid_state_transition,
  max_attempts_exceeded, case_error,
}
use ai_revenue_recovery.Foundation.Value.{text, nat, dict_of}
use ai_revenue_recovery.Foundation.Runtime.{Runtime}
use ai_revenue_recovery.Foundation.Audit.{AuditLog}
use ai_revenue_recovery.Foundation.Audited.{log_event}

-- `ALLOWED_TRANSITIONS`
unfoldable pub allowed_transitions : CaseState → List CaseState
allowed_transitions open_case = diagnosed ∷ frozen ∷ abandoned ∷ []
allowed_transitions diagnosed = evaluating ∷ abandoned ∷ frozen ∷ []
allowed_transitions evaluating = scheduled ∷ abandoned ∷ frozen ∷ []
allowed_transitions scheduled = executing ∷ abandoned ∷ frozen ∷ []
allowed_transitions executing = reconciling ∷ scheduled ∷ abandoned ∷ frozen ∷ []
allowed_transitions reconciling = resolved ∷ scheduled ∷ abandoned ∷ frozen ∷ []
allowed_transitions frozen = diagnosed ∷ abandoned ∷ []
allowed_transitions resolved = []
allowed_transitions abandoned = []

-- `TERMINAL_STATES`
abbrev pub terminal_states : List CaseState
terminal_states = resolved ∷ abandoned ∷ []

-- `state in states`
unfoldable pub is_in : CaseState → List CaseState → Bool
is_in state [] = false
is_in state (s ∷ states) = eq_case_state state s || is_in state states

pub record CaseManager : Type 0 where
  pub cases : Dict RecoveryCase
  pub audit : Option AuditLog

abbrev or_given : Option RiskTier → RiskTier → RiskTier
or_given none current = current
or_given (some given) current = given

-- `if now < current_case.updated_at: now = current_case.updated_at`
abbrev pub not_before : ℕ → ℕ → ℕ
not_before now updated_at = if ltb now updated_at then updated_at else now

-- The four guards of `transition_case` on the case that was found, and the case that replaces it.
unfoldable pub transitioned :
    CaseState → Option RiskTier → Bool → ℕ → RecoveryCase → Result Error RecoveryCase
transitioned target risk_tier increment_attempt now c =
    let count = if increment_attempt then c.attempt_count + 1 else c.attempt_count in
    if is_in c.state terminal_states
    then err invalid_state_transition
    else if not (is_in target (allowed_transitions c.state))
    then err invalid_state_transition
    else if increment_attempt && leb c.max_attempts c.attempt_count
    then err max_attempts_exceeded
    else if is_in target (scheduled ∷ executing ∷ []) && ltb c.max_attempts count
    then err max_attempts_exceeded
    else ok (record c {
      state = target;
      risk_tier = or_given risk_tier c.risk_tier;
      attempt_count = count;
      updated_at = not_before now c.updated_at;
    })

-- `get_case`
unfoldable pub get_case : String → CaseManager → Option RecoveryCase
get_case case_id m = lookup case_id m.cases

-- The two filters of `list_cases`.
abbrev matches_state : Option CaseState → RecoveryCase → Bool
matches_state none c = true
matches_state (some state) c = eq_case_state c.state state

abbrev matches_customer : Option String → RecoveryCase → Bool
matches_customer none c = true
matches_customer (some customer_id) c = c.customer_id == customer_id

list_from : Option CaseState → Option String → Dict RecoveryCase → List RecoveryCase
list_from state customer_id [] = []
list_from state customer_id ((_, c) ∷ cases) =
    let rest = list_from state customer_id cases in
    if matches_state state c && matches_customer customer_id c then c ∷ rest else rest

unfoldable pub list_cases : Option CaseState → Option String → CaseManager → List RecoveryCase
unfolding list_from
list_cases state customer_id m = list_from state customer_id m.cases

module _ (rt : Runtime) where
  abbrev opened : String → PaymentFailureEvent → ℕ → ℕ → RecoveryCase
  opened case_id event max_attempts now = record {
    case_id = case_id;
    customer_id = event.customer_id;
    trigger_event_id = event.event_id;
    amount_in_cents = event.amount_in_cents;
    currency = upper event.currency;
    state = open_case;
    risk_tier = low;
    attempt_count = 0;
    max_attempts = max_attempts;
    created_at = now;
    updated_at = now;
  }

  abbrev add_case : RecoveryCase → ℕ → CaseManager → CaseManager
  add_case c now m = record {
    cases = insert c.case_id c m.cases;
    audit =
        log_event rt "CASE_CREATED"
          (dict_of (
            ("case_id", text c.case_id)
            ∷ ("customer_id", text c.customer_id)
            ∷ ("trigger_event_id", text c.trigger_event_id)
            ∷ ("amount_in_cents", nat c.amount_in_cents)
            ∷ ("currency", text c.currency)
            ∷ ("state", text (case_state_value c.state))
            ∷ ("risk_tier", text (risk_tier_value c.risk_tier))
            ∷ ("max_attempts", nat c.max_attempts)
            ∷ []))
          now m.audit;
  }

  -- `create_case`; `max_attempts < 1` is refused, and a trigger without an id, which only
  -- `RecoveryCase` asks for.
  unfoldable pub create_case :
      String → PaymentFailureEvent → ℤ → ℕ → Exec Error CaseManager RecoveryCase
  create_case case_id event (negsuc _) now m = (err value_error, m)
  create_case case_id event (pos ℕ.zero) now m = (err value_error, m)
  create_case case_id event (pos (suc n)) now m =
      if event.event_id == ""
      then (err validation_error, m)
      else let c = opened case_id event (suc n) now in (ok c, add_case c now m)

  abbrev pub replace_case :
      RecoveryCase → RecoveryCase → String → String → CaseManager → CaseManager
  replace_case before after case_id reason m = record {
    cases = insert case_id after m.cases;
    audit =
        log_event rt "CASE_TRANSITIONED"
          (dict_of (
            ("case_id", text case_id)
            ∷ ("from_state", text (case_state_value before.state))
            ∷ ("to_state", text (case_state_value after.state))
            ∷ ("risk_tier", text (risk_tier_value after.risk_tier))
            ∷ ("attempt_count", nat after.attempt_count)
            ∷ ("max_attempts", nat after.max_attempts)
            ∷ ("reason", text reason)
            ∷ []))
          after.updated_at m.audit;
  }

  abbrev pub commit_transition :
      Result Error RecoveryCase
      → RecoveryCase
      → String
      → String
      → Exec Error CaseManager RecoveryCase
  commit_transition (err e) before case_id reason m = (err e, m)
  commit_transition (ok after) before case_id reason m =
      (ok after, replace_case before after case_id reason m)

  abbrev transition_found :
      Option RecoveryCase
      → String
      → CaseState
      → String
      → Option RiskTier
      → Bool
      → ℕ
      → Exec Error CaseManager RecoveryCase
  transition_found none case_id target reason risk_tier increment now m = (err case_not_found, m)
  transition_found (some c) case_id target reason risk_tier increment now m =
      commit_transition (transitioned target risk_tier increment now c) c case_id reason m

  unfoldable pub transition_case :
      String → CaseState → String → Option RiskTier → Bool → ℕ → Exec Error CaseManager RecoveryCase
  transition_case case_id target reason risk_tier increment now m =
      transition_found (lookup case_id m.cases) case_id target reason risk_tier increment now m

  unfoldable pub freeze_case : String → String → ℕ → Exec Error CaseManager RecoveryCase
  unfolding transition_case
  freeze_case case_id reason now =
      transition_case case_id frozen (concat "Safety freeze: " reason) none false now

  abbrev unfreeze_found :
      Option RecoveryCase → String → CaseState → String → ℕ → Exec Error CaseManager RecoveryCase
  unfreeze_found none case_id target reason now m = (err case_not_found, m)
  unfreeze_found (some c) case_id target reason now m =
      if not (eq_case_state c.state frozen)
      then (err case_error, m)
      else if not (is_in target (diagnosed ∷ abandoned ∷ []))
      then (err invalid_state_transition, m)
      else transition_case case_id target (concat "Safety unfreeze: " reason) none false now m

  unfoldable pub unfreeze_case :
      String → CaseState → String → ℕ → Exec Error CaseManager RecoveryCase
  unfolding transition_case
  unfreeze_case case_id target reason now m =
      unfreeze_found (lookup case_id m.cases) case_id target reason now m
