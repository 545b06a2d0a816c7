-- ===== src/Execution/Executor/Gates.antt =====
-- What a call of the executor can do, and which gates stand before a dispatch.
use ai_revenue_recovery.Prelude.{
  ℕ, String, Bool, true, none, some, List, ◌∷◌, ◌≡◌, refl, arith, Option-cases, Bool-cases, inl,
  inr, ap, sym, ◌∙◌,
}
use mathlib.Core.Path.{subst}
use ai_revenue_recovery.Prelude.Exec.{Result, ok, err, IsOk}
use ai_revenue_recovery.Foundation.Events.{channel_value}
use ai_revenue_recovery.Foundation.Errors.{Error, idempotency_conflict, validation_error}
use ai_revenue_recovery.Foundation.Runtime.{Runtime}
use ai_revenue_recovery.Safety.KillSwitch
use ai_revenue_recovery.Safety.Registry
use ai_revenue_recovery.Safety.Capacity
use ai_revenue_recovery.Safety.Authorizer.{ActionAuthorization}
use ai_revenue_recovery.Execution.Idempotency.{
  ExecutionRequest, ExecutionResult, get, record_result, matches_request,
}
use ai_revenue_recovery.Execution.Executor.{
  Answer, ActionExecutor, check_authorization, query_of, pass_gates, dispatch, execute_action,
}
use ai_revenue_recovery.Execution.Executor.Answers.{
  IsRecordable, IsRecordable-cases, IsStoring, IsLosing, dispatch-calls, dispatch-IsStoring,
  dispatch-IsLosing, get-record_result,
}

-- The parts of an executor that no gate touches.
pub record IsFramed (before after : ActionExecutor) : Type 0 where
  pub store : after.idempotency_store ≡ before.idempotency_store
  pub log : after.audit_log ≡ before.audit_log
  pub calls : after.dispatched ≡ before.dispatched

module _ (check_egress_allowed : String → Result Error Bool) where
  -- Gates 3 to 6, each as its own component decides it.
  pub record IsPassed (request : ExecutionRequest) (now : ℕ) (s : ActionExecutor) : Type 0 where
    pub switched : IsOk (KillSwitch.check_execution_allowed (query_of request) s.kill_switch).0
    pub healthy :
        IsOk
          (Registry.check_execution_allowed
            (channel_value request.channel)
            now
            s.circuit_breakers).0
    pub egress : IsOk (check_egress_allowed request.destination_url)
    pub capacity : IsOk (Capacity.record_action request.amount_in_cents now s.capacity_governor).0

  module _ (request : ExecutionRequest) (now : ℕ) (s : ActionExecutor) where
    pub pass_gates-IsFramed : IsFramed s (pass_gates check_egress_allowed request now s).1
    unfolding pass_gates
    pass_gates-IsFramed = record { store = ground arith; log = ground arith; calls = ground arith }

    pub pass_gates-IsPassed :
        IsOk (pass_gates check_egress_allowed request now s).0 → IsPassed request now s
    unfolding pass_gates
    pass_gates-IsPassed h = record {
      switched = ground arith;
      healthy = ground arith;
      egress = ground arith;
      capacity = ground arith;
    }

    IsPassed-pass_gates :
        IsPassed request now s → (pass_gates check_egress_allowed request now s).0 ≡ ok tt
    unfolding pass_gates
    IsPassed-pass_gates h = ground (arith, h.switched, h.healthy, h.egress, h.capacity)

module _ (rt : Runtime) (secret : String) (check_egress_allowed : String → Result Error Bool)
    (handler : List ExecutionRequest → ExecutionRequest → Answer) where
  -- What a call does: it raises before the handler is called and leaves the store, the log and the
  -- handler alone; it returns the stored result of a matching request and changes nothing; or, with
  -- all gates open, it calls the handler, whose answer is stored and returned or is lost.
  pub data Turn (request : ExecutionRequest) (token : ActionAuthorization) (now : ℕ)
      (s : ActionExecutor) : Type 0 where
    refused :
        (e : Error) (s' : ActionExecutor)
        → execute_action rt secret check_egress_allowed handler request token now s ≡ (err e, s')
        → IsFramed s s'
        → Turn request token now s
    replayed :
        (result : ExecutionResult)
        → IsOk (check_authorization rt secret request token now)
        → get request.idempotency_key s.idempotency_store ≡ some result
        → matches_request result request ≡ true
        → execute_action rt secret check_egress_allowed handler request token now s ≡ (ok result, s)
        → Turn request token now s
    executed :
        (result : ExecutionResult) (s' : ActionExecutor)
        → IsOk (check_authorization rt secret request token now)
        → get request.idempotency_key s.idempotency_store ≡ none
        → IsPassed check_egress_allowed request now s
        → IsRecordable (handler s.dispatched request)
        → execute_action rt secret check_egress_allowed handler request token now s
          ≡ (ok result, s')
        → IsStoring request s s' result
        → Turn request token now s
    lost :
        (s' : ActionExecutor)
        → IsOk (check_authorization rt secret request token now)
        → get request.idempotency_key s.idempotency_store ≡ none
        → IsPassed check_egress_allowed request now s
        → ¬ IsRecordable (handler s.dispatched request)
        → execute_action rt secret check_egress_allowed handler request token now s
          ≡ (err validation_error, s')
        → IsLosing request s s'
        → Turn request token now s

  module _ (request : ExecutionRequest) (token : ActionAuthorization) (now : ℕ)
      (s : ActionExecutor) where
    new_turn :
        IsOk (check_authorization rt secret request token now)
        → get request.idempotency_key s.idempotency_store ≡ none
        → IsPassed check_egress_allowed request now s
        → execute_action rt secret check_egress_allowed handler request token now s
          ≡ dispatch rt handler request token now (pass_gates check_egress_allowed request now s).1
        → Turn request token now s
    new_turn a absent passed run =
        let middle = (pass_gates check_egress_allowed request now s).1 in
        let framed = pass_gates-IsFramed check_egress_allowed request now s in
        let after = (dispatch rt handler request token now middle).1 in
        elim (IsRecordable-cases (handler middle.dispatched request)) [
          | inl r ↦
              let (result, e, stored) = dispatch-IsStoring rt handler request token now middle r in
              executed result after a absent passed
                (subst (λ c. IsRecordable (handler c request)) framed.calls r)
                (run ∙ ap (λ x. (x, after)) e)
                (record {
                  key = stored.key;
                  matches = stored.matches;
                  store = stored.store ∙ ap (record_result result) framed.store;
                  calls = stored.calls ∙ ap (request ∷◌) framed.calls;
                })
          | inr r ↦
              let (e, losing) = dispatch-IsLosing rt handler request token now middle r in
              lost after a absent passed
                (λ h. r (subst (λ c. IsRecordable (handler c request)) (sym framed.calls) h))
                (run ∙ ap (λ x. (x, after)) e)
                (record {
                  store = losing.store ∙ framed.store;
                  log = losing.log ∙ framed.log;
                  calls = losing.calls ∙ ap (request ∷◌) framed.calls;
                })
        ]

    new_key :
        IsOk (check_authorization rt secret request token now)
        → get request.idempotency_key s.idempotency_store ≡ none
        → (r : Result Error (Unit {0})) → (pass_gates check_egress_allowed request now s).0 ≡ r
        → Turn request token now s
    unfolding execute_action
    new_key a absent (err e) h =
        refused e (pass_gates check_egress_allowed request now s).1 (ground arith)
          (pass_gates-IsFramed check_egress_allowed request now s)
    new_key a absent (ok _) h =
        new_turn a absent (pass_gates-IsPassed check_egress_allowed request now s (rw h tt))
          (ground arith)

    known_key :
        (result : ExecutionResult)
        → IsOk (check_authorization rt secret request token now)
        → get request.idempotency_key s.idempotency_store ≡ some result
        → Turn request token now s
    unfolding execute_action
    known_key result a found = elim (Bool-cases (matches_request result request)) [
      | inl same ↦ replayed result a found same (ground arith)
      | inr other ↦
          refused idempotency_conflict s (ground arith)
            (record { store = refl; log = refl; calls = refl })
    ]

    -- A call of the executor always ends in one of four ways: it raises before any dispatch and
    -- leaves the store, the log and the handler alone; it returns the stored result of a request
    -- that agrees with it in everything but the payload, and changes nothing; or the token is
    -- accepted, the key is new, the kill switch, the channel's breaker, the egress guard and the
    -- capacity governor all let it pass, and the handler is called once. Then, if the answer can be
    -- recorded, a result that agrees with the request is stored and returned; if it cannot, the call
    -- raises a ValidationError, and the store and the log are as before.
    pub execute_action-Turn : Turn request token now s
    unfolding execute_action
    execute_action-Turn = go (check_authorization rt secret request token now) refl
      where
        go :
            (r : Result Error Bool)
            → check_authorization rt secret request token now ≡ r
            → Turn request token now s
        go (err e) h =
            refused e s (ground arith) (record { store = refl; log = refl; calls = refl })
        go (ok _) h = elim (Option-cases (get request.idempotency_key s.idempotency_store)) [
          | inl absent ↦
              new_key (rw h tt) absent (pass_gates check_egress_allowed request now s).0 refl
          | inr (result, found) ↦ known_key result (rw h tt) found
        ]

    opened :
        IsOk (check_authorization rt secret request token now)
        → get request.idempotency_key s.idempotency_store ≡ none
        → IsPassed check_egress_allowed request now s
        → execute_action rt secret check_egress_allowed handler request token now s
          ≡ dispatch rt handler request token now (pass_gates check_egress_allowed request now s).1
    unfolding execute_action
    opened a absent passed =
        ground (arith, IsPassed-pass_gates check_egress_allowed request now s passed)

    -- An action is dispatched whenever nothing stands against it: with an accepted token, a new key
    -- and gates 3 to 6 passed, the handler is called with the request once more, and the call returns
    -- a result exactly if the handler's answer can be recorded, which is then stored under the key;
    -- otherwise it raises a ValidationError and stores nothing.
    pub execute_action-dispatches :
        IsOk (check_authorization rt secret request token now)
        → get request.idempotency_key s.idempotency_store ≡ none
        → IsPassed check_egress_allowed request now s
        → let (r, s') = execute_action rt secret check_egress_allowed handler request token now s in
          (s'.dispatched ≡ request ∷ s.dispatched)
          × (IsRecordable (handler s.dispatched request)
              → (result : ExecutionResult) × (r ≡ ok result)
                × (get request.idempotency_key s'.idempotency_store ≡ some result))
          × (¬ IsRecordable (handler s.dispatched request)
              → (r ≡ err validation_error) × (s'.idempotency_store ≡ s.idempotency_store))
    execute_action-dispatches a absent passed =
        let middle = (pass_gates check_egress_allowed request now s).1 in
        let framed = pass_gates-IsFramed check_egress_allowed request now s in
        rw (opened a absent passed) (
          dispatch-calls rt handler request token now middle ∙ ap (request ∷◌) framed.calls,
          λ r.
              let (result, e, stored) =
                dispatch-IsStoring rt handler request token now middle
                  (subst (λ c. IsRecordable (handler c request)) (sym framed.calls) r) in
              (
                result,
                e,
                ap (get request.idempotency_key) stored.store
                    ∙ ap (λ k. get k (record_result result middle.idempotency_store))
                        (sym stored.key)
                    ∙ get-record_result result middle.idempotency_store,
              ),
          λ r.
              let (e, losing) =
                dispatch-IsLosing rt handler request token now middle
                  (λ h. r (subst (λ c. IsRecordable (handler c request)) framed.calls h)) in
              (e, losing.store ∙ framed.store),
        )
