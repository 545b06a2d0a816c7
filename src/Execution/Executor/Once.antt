-- ===== src/Execution/Executor/Once.antt =====
-- The executor over any sequence of calls: stored results against dispatched requests.
use ai_revenue_recovery.Prelude.{
  ℕ, String, Bool, true, none, List, [], ◌∷◌, ◌≡◌, ◌≢◌, ap, sym, ◌∙◌, arith, is_some,
}
use ai_revenue_recovery.Prelude.Exec.{Result}
use ai_revenue_recovery.Prelude.Dict.{lookup-insert}
use ai_revenue_recovery.Foundation.Errors.{Error}
use ai_revenue_recovery.Foundation.Runtime.{Runtime}
use ai_revenue_recovery.Safety.KillSwitch.{KillSwitchManager}
use ai_revenue_recovery.Safety.Registry.{Registry}
use ai_revenue_recovery.Safety.Capacity.{CapacityGovernor}
use ai_revenue_recovery.Safety.Authorizer.{ActionAuthorization}
use ai_revenue_recovery.Execution.Idempotency.{
  ExecutionRequest, ExecutionResult, IdempotencyStore, get, record_result,
}
use ai_revenue_recovery.Execution.Executor.{Answer, ActionExecutor, execute_action}
use ai_revenue_recovery.Execution.Executor.Answers.{
  IsRecordable, IsStoring, IsLosing, get-record_result,
}
use ai_revenue_recovery.Execution.Executor.Gates.{
  IsFramed, Turn, refused, replayed, executed, lost, execute_action-Turn,
}

module _ (handler : List ExecutionRequest → ExecutionRequest → Answer) where
  -- Every request of the list, the latest first, whose answer could be recorded has a result.
  abbrev IsRecorded : IdempotencyStore → List ExecutionRequest → Type 0
  IsRecorded store [] = Unit
  IsRecorded store (r ∷ rs) =
      (IsRecordable (handler rs r) → is_some (get r.idempotency_key store) ≡ true)
      × IsRecorded store rs

  -- No request with the key has an answer that could be recorded.
  abbrev pub IsUnanswered : String → List ExecutionRequest → Type 0
  IsUnanswered key [] = Unit
  IsUnanswered key (r ∷ rs) =
      (IsRecordable (handler rs r) → r.idempotency_key ≢ key) × IsUnanswered key rs

  -- No request comes after one with the same key whose answer could be recorded.
  abbrev pub HasDistinctKeys : List ExecutionRequest → Type 0
  HasDistinctKeys [] = Unit
  HasDistinctKeys (r ∷ rs) = IsUnanswered r.idempotency_key rs × HasDistinctKeys rs

  record IsOnce (s : ActionExecutor) : Type 0 where
    pub recorded : IsRecorded s.idempotency_store s.dispatched
    pub distinct : HasDistinctKeys s.dispatched

  unrecorded :
      (key : String) (store : IdempotencyStore) (rs : List ExecutionRequest)
      → get key store ≡ none
      → IsRecorded store rs
      → IsUnanswered key rs
  unrecorded key store [] absent h = tt
  unrecorded key store (r ∷ rs) absent h = (
    λ a e. absurd (ground (arith, h.0 a, ap (λ k. get k store) e)),
    unrecorded key store rs absent h.1,
  )

  IsRecorded-record_result :
      (result : ExecutionResult) (store : IdempotencyStore) (rs : List ExecutionRequest)
      → IsRecorded store rs
      → IsRecorded (record_result result store) rs
  unfolding get record_result
  IsRecorded-record_result result store [] h = tt
  IsRecorded-record_result result store (r ∷ rs) h = (
    λ a. ground (arith, h.0 a, lookup-insert r.idempotency_key result.idempotency_key result store),
    IsRecorded-record_result result store rs h.1,
  )

  stored_key :
      (request : ExecutionRequest) (result : ExecutionResult) (store : IdempotencyStore)
      → result.idempotency_key ≡ request.idempotency_key
      → is_some (get request.idempotency_key (record_result result store)) ≡ true
  stored_key request result store e =
      ap (λ k. is_some (get k (record_result result store))) (sym e)
      ∙ ap is_some (get-record_result result store)

  IsFramed-IsOnce : (s s' : ActionExecutor) → IsFramed s s' → IsOnce s → IsOnce s'
  IsFramed-IsOnce s s' f h = record {
    recorded = rw (f.store, f.calls) h.recorded;
    distinct = rw f.calls h.distinct;
  }

  IsStoring-IsOnce :
      (request : ExecutionRequest) (s s' : ActionExecutor) (result : ExecutionResult)
      → get request.idempotency_key s.idempotency_store ≡ none
      → IsStoring request s s' result
      → IsOnce s
      → IsOnce s'
  IsStoring-IsOnce request s s' result absent f h = record {
    recorded =
        rw (f.store, f.calls)
          (
            λ a. stored_key request result s.idempotency_store f.key,
            IsRecorded-record_result result s.idempotency_store s.dispatched h.recorded,
          );
    distinct = rw f.calls (
      unrecorded request.idempotency_key s.idempotency_store s.dispatched absent h.recorded,
      h.distinct,
    );
  }

  IsLosing-IsOnce :
      (request : ExecutionRequest) (s s' : ActionExecutor)
      → get request.idempotency_key s.idempotency_store ≡ none
      → ¬ IsRecordable (handler s.dispatched request)
      → IsLosing request s s'
      → IsOnce s
      → IsOnce s'
  IsLosing-IsOnce request s s' absent n f h = record {
    recorded = rw (f.store, f.calls) (λ a. absurd (n a), h.recorded);
    distinct = rw f.calls (
      unrecorded request.idempotency_key s.idempotency_store s.dispatched absent h.recorded,
      h.distinct,
    );
  }

-- What happens to an executor: a call, or any change of the objects that it shares with others.
pub data Event : Type 0 where
  execute : ExecutionRequest → ActionAuthorization → ℕ → Event
  change : KillSwitchManager → Registry → CapacityGovernor → Event

module _ (rt : Runtime) (secret : String) (check_egress_allowed : String → Result Error Bool)
    (handler : List ExecutionRequest → ExecutionRequest → Answer) where
  execute_action-IsOnce :
      (request : ExecutionRequest) (token : ActionAuthorization) (now : ℕ) (s : ActionExecutor)
      → IsOnce handler s
      → IsOnce handler (execute_action rt secret check_egress_allowed handler request token now s).1
  execute_action-IsOnce request token now s h =
      by_turn (execute_action-Turn rt secret check_egress_allowed handler request token now s)
    where
      by_turn :
          Turn rt secret check_egress_allowed handler request token now s
          → IsOnce handler
              (execute_action rt secret check_egress_allowed handler request token now s).1
      by_turn (refused e s' run framed) = rw run (IsFramed-IsOnce handler s s' framed h)
      by_turn (replayed result _ _ _ run) = rw run h
      by_turn (executed result s' _ absent _ _ run f) =
          rw run (IsStoring-IsOnce handler request s s' result absent f h)
      by_turn (lost s' _ absent _ n run f) =
          rw run (IsLosing-IsOnce handler request s s' absent n f h)

  unfoldable pub step : Event → ActionExecutor → ActionExecutor
  step (execute request token now) s =
      (execute_action rt secret check_egress_allowed handler request token now s).1
  step (change k r g) s = record s { kill_switch = k; circuit_breakers = r; capacity_governor = g }

  abbrev pub steps : List Event → ActionExecutor → ActionExecutor
  steps [] s = s
  steps (e ∷ es) s = steps es (step e s)

  steps-IsOnce :
      (events : List Event) (s : ActionExecutor)
      → IsOnce handler s
      → IsOnce handler (steps events s)
  unfolding step
  steps-IsOnce [] s h = h
  steps-IsOnce (execute request token now ∷ es) s h =
      steps-IsOnce es _ (execute_action-IsOnce request token now s h)
  steps-IsOnce (change k r g ∷ es) s h =
      steps-IsOnce es _ (record { recorded = h.recorded; distinct = h.distinct })

  -- Starting from an executor that has dispatched nothing, no idempotency key is dispatched again
  -- once the handler has given it an answer that can be recorded, whatever the handler answers otherwise,
  -- whatever is requested with whatever tokens, and however the kill switches, breakers and capacity
  -- change in between.
  pub steps-HasDistinctKeys :
      (events : List Event) (s : ActionExecutor)
      → s.dispatched ≡ []
      → HasDistinctKeys handler (steps events s).dispatched
  steps-HasDistinctKeys events s e =
      (steps-IsOnce events s (record { recorded = rw e tt; distinct = rw e tt })).distinct
