-- ===== src/Execution/Executor/Replay.antt =====
-- The executor asked again with the request of an earlier call.
use ai_revenue_recovery.Prelude.{
  ℕ, String, Bool, true, some, List, [], ◌∷◌, ◌≡◌, ◌≢◌, sym, ap, ◌∙◌, arith, eq_iff,
}
use ai_revenue_recovery.Prelude.Exec.{Result, ok, IsOk}
use ai_revenue_recovery.Prelude.Dict.{lookup-insert}
use ai_revenue_recovery.Foundation.Errors.{Error}
use ai_revenue_recovery.Foundation.Runtime.{Runtime}
use ai_revenue_recovery.Safety.Authorizer.{ActionAuthorization}
use ai_revenue_recovery.Execution.Idempotency.{
  ExecutionRequest, ExecutionResult, IdempotencyStore, get, record_result, matches_request,
}
use ai_revenue_recovery.Execution.Executor.{
  Answer, ActionExecutor, check_authorization, execute_action,
}
use mathlib.Core.Path.{subst}
use ai_revenue_recovery.Execution.Executor.Answers.{IsStoring, get-record_result}
use ai_revenue_recovery.Execution.Executor.Gates.{
  Turn, refused, replayed, executed, lost, execute_action-Turn,
}
use ai_revenue_recovery.Execution.Executor.Once.{Event, execute, change, step, steps}

-- The store has this result under the request's key.
abbrev pub IsStored : ExecutionRequest → ExecutionResult → ActionExecutor → Type 0
IsStored request result s =
    (get request.idempotency_key s.idempotency_store ≡ some result)
    × (matches_request result request ≡ true)

get-record_other :
    (key : String) (result : ExecutionResult) (store : IdempotencyStore)
    → result.idempotency_key ≢ key
    → get key (record_result result store) ≡ get key store
unfolding get record_result
get-record_other key result store h = ground (
  arith,
  lookup-insert key result.idempotency_key result store,
  eq_iff result.idempotency_key key,
)

IsStoring-IsStored :
    (request : ExecutionRequest) (s s' : ActionExecutor) (result : ExecutionResult)
    → IsStoring request s s' result
    → IsStored request result s'
IsStoring-IsStored request s s' result f = (
  ap (λ k. get k s'.idempotency_store) (sym f.key)
      ∙ ap (get result.idempotency_key) f.store
      ∙ get-record_result result s.idempotency_store,
  f.matches,
)

module _ (rt : Runtime) (secret : String) (check_egress_allowed : String → Result Error Bool)
    (handler : List ExecutionRequest → ExecutionRequest → Answer) where
  -- A call that returned has stored what it returned.
  execute_action-IsStored :
      (request : ExecutionRequest) (token : ActionAuthorization) (now : ℕ) (s : ActionExecutor)
      (result : ExecutionResult)
      → (execute_action rt secret check_egress_allowed handler request token now s).0 ≡ ok result
      → IsStored request result
          (execute_action rt secret check_egress_allowed handler request token now s).1
  execute_action-IsStored request token now s result h =
      by_turn (execute_action-Turn rt secret check_egress_allowed handler request token now s)
    where
      by_turn :
          Turn rt secret check_egress_allowed handler request token now s
          → IsStored request result
              (execute_action rt secret check_egress_allowed handler request token now s).1
      by_turn (refused e s' run framed) = absurd (ground (arith, ap (λ x. x.0) run))
      by_turn (replayed r _ found same run) =
          rw run (ground (arith, ap (λ x. x.0) run), ground (arith, ap (λ x. x.0) run))
      by_turn (executed r s' _ _ _ _ run f) =
          let same : r ≡ result = ground (arith, ap (λ x. x.0) run) in
          rw run (subst (λ x. IsStored request x s') same (IsStoring-IsStored request s s' r f))
      by_turn (lost s' _ _ _ _ run f) = absurd (ground (arith, ap (λ x. x.0) run))

  -- A stored result is never replaced.
  keeps_stored :
      (request : ExecutionRequest) (token : ActionAuthorization) (now : ℕ) (s : ActionExecutor)
      (key : String) (result : ExecutionResult)
      → get key s.idempotency_store ≡ some result
      → get key
          (execute_action rt secret check_egress_allowed handler request token now
            s).1.idempotency_store
        ≡ some result
  keeps_stored request token now s key result h =
      by_turn (execute_action-Turn rt secret check_egress_allowed handler request token now s)
    where
      by_turn :
          Turn rt secret check_egress_allowed handler request token now s
          → get key
              (execute_action rt secret check_egress_allowed handler request token now
                s).1.idempotency_store
            ≡ some result
      by_turn (refused e s' run framed) = rw (run, framed.store) h
      by_turn (replayed _ _ _ _ run) = rw run h
      by_turn (executed r s' _ absent _ _ run f) =
          rw (run, f.store)
            (get-record_other key r s.idempotency_store (λ e.
                ground (arith, h, absent, ap (λ k. get k s.idempotency_store) (sym f.key ∙ e)))
              ∙ h)
      by_turn (lost s' _ _ _ _ run f) = rw (run, f.store) h

  steps_keep_stored :
      (events : List Event) (s : ActionExecutor) (key : String) (result : ExecutionResult)
      → get key s.idempotency_store ≡ some result
      → get key (steps rt secret check_egress_allowed handler events s).idempotency_store
        ≡ some result
  unfolding step
  steps_keep_stored [] s key result h = h
  steps_keep_stored (execute request token now ∷ es) s key result h =
      steps_keep_stored es _ key result (keeps_stored request token now s key result h)
  steps_keep_stored (change k r g ∷ es) s key result h = steps_keep_stored es _ key result h

  replay_run :
      (request : ExecutionRequest) (token : ActionAuthorization) (now : ℕ) (s : ActionExecutor)
      (result : ExecutionResult)
      → IsStored request result s
      → IsOk (check_authorization rt secret request token now)
      → execute_action rt secret check_egress_allowed handler request token now s ≡ (ok result, s)
  unfolding execute_action
  replay_run request token now s result h a = ground (arith, h.0, h.1)

  -- Once a call has returned a result, the same request with any accepted token returns this very
  -- result at any later time, changes nothing and calls no handler, whatever has happened between,
  -- kill switches, open breakers and exhausted capacity included.
  pub execute_action-replays :
      (request : ExecutionRequest) (token again : ActionAuthorization) (now later : ℕ)
      (s : ActionExecutor) (result : ExecutionResult) (between : List Event)
      → (execute_action rt secret check_egress_allowed handler request token now s).0 ≡ ok result
      → IsOk (check_authorization rt secret request again later)
      → let s' =
          steps rt secret check_egress_allowed handler between
            (execute_action rt secret check_egress_allowed handler request token now s).1 in
        execute_action rt secret check_egress_allowed handler request again later s'
        ≡ (ok result, s')
  execute_action-replays request token again now later s result between h a =
      let (found, same) = execute_action-IsStored request token now s result h in
      replay_run request again later _ result
        (steps_keep_stored between _ request.idempotency_key result found, same) a
