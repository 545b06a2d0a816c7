-- ===== src/Execution/Executor/Answers.antt =====
-- Which answers of the handler become a result, and what a dispatch does with the others.
use ai_revenue_recovery.Prelude.{
  ℕ, String, true, false, Option, some, List, ◌∷◌, ◌≡◌, ◌⊎◌, ◌↔◌, inl, inr, refl, arith, is_some,
  Bool-cases, Option-cases, eq_refl, upper,
}
use ai_revenue_recovery.Prelude.Exec.{ok, err}
use ai_revenue_recovery.Foundation.Errors.{validation_error}
use ai_revenue_recovery.Foundation.Events.{ExecutionStatus, failed}
use ai_revenue_recovery.Foundation.Value.{
  Value, null, bool, int, float, text, list, tuple, dict, immutable_dict, Fields, get,
}
use ai_revenue_recovery.Foundation.Runtime.{Runtime}
use ai_revenue_recovery.Safety.Authorizer.{ActionAuthorization}
use ai_revenue_recovery.Execution.Idempotency.{
  ExecutionRequest, ExecutionResult, IdempotencyStore, get as get_result, record_result,
  matches_request,
}
use ai_revenue_recovery.Prelude.Dict.{lookup-insert}
use ai_revenue_recovery.Prelude.Int.{ℤ, eqb_ℤ}
use ai_revenue_recovery.Execution.Executor.{
  Answer, answered, raised, ActionExecutor, is_failure, is_truthy, or_value, outcome, readable,
  result_of, dispatch,
}

abbrev IsText : Value → Type 0
IsText (text s) = Unit
IsText _ = ⊥

-- The message that a failure reports, the error or else the message, is a text if there is one.
abbrev IsMessage : Value → Value → Type 0
IsMessage error message =
    (is_truthy error ≡ true → IsText error)
    × (is_truthy error ≡ false → is_truthy message ≡ true → IsText message)

-- An answer that can be recorded: a raised exception, or a mapping, whose error, or else its
-- message, is a text where it is a dict that reports a failure.
abbrev pub IsRecordable : Answer → Type 0
IsRecordable (raised message) = Unit
IsRecordable (answered (dict fs)) =
    is_failure (get "status" fs) ≡ true → IsMessage (get "error" fs) (get "message" fs)
IsRecordable (answered (immutable_dict fs)) = Unit
IsRecordable (answered _) = ⊥

readable-IsText :
    (v : Value) (fs : Fields)
    → is_truthy v ≡ true
    → (is_some (readable (failed, v, dict fs)) ≡ true) ↔ IsText v
unfolding readable is_truthy
readable-IsText (text s) fs h = (λ e. tt, λ e. refl)
readable-IsText null fs h = absurd (ground arith)
readable-IsText (bool b) fs h = (λ e. ground arith, λ e. absurd e)
readable-IsText (int n) fs h = (λ e. ground arith, λ e. absurd e)
readable-IsText (float n) fs h = (λ e. ground arith, λ e. absurd e)
readable-IsText (list xs) fs h = (λ e. ground arith, λ e. absurd e)
readable-IsText (tuple xs) fs h = (λ e. ground arith, λ e. absurd e)
readable-IsText (dict xs) fs h = (λ e. ground arith, λ e. absurd e)
readable-IsText (immutable_dict xs) fs h = (λ e. ground arith, λ e. absurd e)

readable-IsMessage :
    (error message : Value) (fs : Fields)
    → (is_some (
          readable (
            failed,
            or_value error (or_value message (text "Simulator returned failure")),
            dict fs,
          ))
        ≡ true)
      ↔ IsMessage error message
unfolding readable
readable-IsMessage error message fs = elim (Bool-cases (is_truthy error)) [
  | inl e ↦
      let first = readable-IsText error fs e in
      rw e (λ h. (λ t. first.0 h, λ f. absurd (ground (arith, f))), λ h. first.1 (h.0 refl))
  | inr e ↦ elim (Bool-cases (is_truthy message)) [
    | inl m ↦
        let second = readable-IsText message fs m in
        rw (e, m)
          (λ h. (λ t. absurd (ground (arith, t)), λ f t. second.0 h), λ h. second.1 (h.1 refl refl))
    | inr m ↦
        rw (e, m)
          (λ h. (λ t. absurd (ground (arith, t)), λ f t. absurd (ground (arith, t))), λ h. refl)
  ]
]

pub readable_iff : (a : Answer) → (is_some (readable (outcome a)) ≡ true) ↔ IsRecordable a
unfolding readable outcome
readable_iff (raised message) = (λ h. tt, λ h. refl)
readable_iff (answered (dict fs)) =
    let failure = readable-IsMessage (get "error" fs) (get "message" fs) fs in
    elim (Bool-cases (is_failure (get "status" fs))) [
      | inl e ↦ rw e (λ h f. failure.0 h, λ h. failure.1 (h refl))
      | inr e ↦ rw e (λ h f. absurd (ground (arith, f)), λ h. refl)
    ]
readable_iff (answered (immutable_dict fs)) = (λ h. tt, λ h. refl)
readable_iff (answered null) = (λ h. ground arith, λ h. absurd h)
readable_iff (answered (bool b)) = (λ h. ground arith, λ h. absurd h)
readable_iff (answered (int n)) = (λ h. ground arith, λ h. absurd h)
readable_iff (answered (float n)) = (λ h. ground arith, λ h. absurd h)
readable_iff (answered (text s)) = (λ h. ground arith, λ h. absurd h)
readable_iff (answered (list xs)) = (λ h. ground arith, λ h. absurd h)
readable_iff (answered (tuple xs)) = (λ h. ground arith, λ h. absurd h)

pub IsRecordable-cases : (a : Answer) → IsRecordable a ⊎ (¬ IsRecordable a)
IsRecordable-cases a = elim (Bool-cases (is_some (readable (outcome a)))) [
  | inl e ↦ inl ((readable_iff a).0 e)
  | inr e ↦ inr (λ h. ground (arith, e, (readable_iff a).1 h))
]

pub get-record_result :
    (result : ExecutionResult) (store : IdempotencyStore)
    → get_result result.idempotency_key (record_result result store) ≡ some result
unfolding get_result record_result
get-record_result result store = ground (
  arith,
  lookup-insert result.idempotency_key result.idempotency_key result store,
  eq_refl result.idempotency_key,
)

eqb_ℤ-refl : (a : ℤ) → eqb_ℤ a a ≡ true
eqb_ℤ-refl a = ground arith

matches_request-result_of :
    (request : ExecutionRequest) (now : ℕ) (o : ExecutionStatus × Option String × Value)
    → matches_request (result_of request now o) request ≡ true
unfolding matches_request
matches_request-result_of request now o = ground (
  arith,
  eq_refl request.idempotency_key,
  eq_refl request.case_id,
  eq_refl request.customer_id,
  eqb_ℤ-refl request.amount_in_cents,
  eq_refl (upper request.currency),
  eq_refl request.destination_url,
)

-- The result, which agrees with the request, is stored, and the handler was called once more.
pub record IsStoring (request : ExecutionRequest) (before after : ActionExecutor)
    (result : ExecutionResult) : Type 0 where
  pub key : result.idempotency_key ≡ request.idempotency_key
  pub matches : matches_request result request ≡ true
  pub store : after.idempotency_store ≡ record_result result before.idempotency_store
  pub calls : after.dispatched ≡ request ∷ before.dispatched

-- The handler was called once more, and neither the store nor the log has heard of it.
pub record IsLosing (request : ExecutionRequest) (before after : ActionExecutor) : Type 0 where
  pub store : after.idempotency_store ≡ before.idempotency_store
  pub log : after.audit_log ≡ before.audit_log
  pub calls : after.dispatched ≡ request ∷ before.dispatched

module _ (rt : Runtime) (handler : List ExecutionRequest → ExecutionRequest → Answer) where
  module _ (request : ExecutionRequest) (token : ActionAuthorization) (now : ℕ)
      (s : ActionExecutor) where
    pub dispatch-calls :
        (dispatch rt handler request token now s).1.dispatched ≡ request ∷ s.dispatched
    unfolding dispatch
    dispatch-calls = elim (Option-cases (readable (outcome (handler s.dispatched request)))) [
      | inl e ↦ rw e refl
      | inr (o, e) ↦ rw e refl
    ]

    pub dispatch-IsStoring :
        IsRecordable (handler s.dispatched request)
        → (result : ExecutionResult) × ((dispatch rt handler request token now s).0 ≡ ok result)
          × IsStoring request s (dispatch rt handler request token now s).1 result
    unfolding dispatch
    dispatch-IsStoring h = elim (Option-cases (readable (outcome (handler s.dispatched request)))) [
      | inl e ↦ absurd (ground (arith, e, (readable_iff (handler s.dispatched request)).1 h))
      | inr (o, e) ↦ (
        result_of request now o,
        rw e refl,
        rw e (record {
          key = refl;
          matches = matches_request-result_of request now o;
          store = refl;
          calls = refl;
        }),
      )
    ]

    pub dispatch-IsLosing :
        ¬ IsRecordable (handler s.dispatched request)
        → ((dispatch rt handler request token now s).0 ≡ err validation_error)
          × IsLosing request s (dispatch rt handler request token now s).1
    unfolding dispatch
    dispatch-IsLosing h = elim (Option-cases (readable (outcome (handler s.dispatched request)))) [
      | inl e ↦ (rw e refl, rw e (record { store = refl; log = refl; calls = refl }))
      | inr (o, e) ↦ absurd (h ((readable_iff (handler s.dispatched request)).0 (rw e refl)))
    ]
