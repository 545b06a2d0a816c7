-- ===== src/Execution/SandboxGuard/Confinement.antt =====
-- The executor under the guard: where the requests that reach the handler go.
use ai_revenue_recovery.Prelude.{ℕ, String, false, List, [], ◌∷◌, ◌≡◌, ◌≢◌, All, strip}
use ai_revenue_recovery.Foundation.Runtime.{Runtime}
use ai_revenue_recovery.Safety.Authorizer.{ActionAuthorization}
use ai_revenue_recovery.Execution.Idempotency.{ExecutionRequest}
use ai_revenue_recovery.Execution.Executor.{Answer, ActionExecutor, execute_action}
use ai_revenue_recovery.Execution.Executor.Gates.{
  Turn, refused, replayed, executed, lost, execute_action-Turn,
}
use ai_revenue_recovery.Execution.Executor.Once.{Event, execute, change, step, steps}
use ai_revenue_recovery.Execution.SandboxGuard.{Net, SandboxGuard, has_space, check_egress_allowed}
use ai_revenue_recovery.Execution.SandboxGuard.Egress.{IsWebUrl, check_egress_allowed-IsWebUrl}

-- The URLs that the guard lets through, by the predicates on their parts.
abbrev pub IsSandboxUrl : Net → SandboxGuard → String → Type 0
IsSandboxUrl net g url =
    (strip url ≢ "") × (has_space (strip url) ≡ false) × IsWebUrl net g (net.urlparse (strip url))

abbrev pub IsConfined : Net → SandboxGuard → List ExecutionRequest → Type 0
IsConfined net g = All (λ r. IsSandboxUrl net g r.destination_url)

module _ (net : Net) (g : SandboxGuard) (rt : Runtime) (secret : String)
    (handler : List ExecutionRequest → ExecutionRequest → Answer) where
  execute_action-IsConfined :
      (request : ExecutionRequest) (token : ActionAuthorization) (now : ℕ) (s : ActionExecutor)
      → IsConfined net g s.dispatched
      → IsConfined net g
          (execute_action rt secret
            (check_egress_allowed net g)
            handler
            request
            token
            now
            s).1.dispatched
  execute_action-IsConfined request token now s h =
      by_turn
        (execute_action-Turn rt secret (check_egress_allowed net g) handler request token now s)
    where
      by_turn :
          Turn rt secret (check_egress_allowed net g) handler request token now s
          → IsConfined net g
              (execute_action rt secret
                (check_egress_allowed net g)
                handler
                request
                token
                now
                s).1.dispatched
      by_turn (refused e s' run framed) = rw (run, framed.calls) h
      by_turn (replayed result _ _ _ run) = rw run h
      by_turn (executed result s' _ _ passed _ run f) =
          rw (run, f.calls)
            ((check_egress_allowed-IsWebUrl net g request.destination_url).0 passed.egress, h)
      by_turn (lost s' _ _ passed _ run f) =
          rw (run, f.calls)
            ((check_egress_allowed-IsWebUrl net g request.destination_url).0 passed.egress, h)

  -- With the sandbox guard in place, every request that ever reaches the handler goes to a URL of
  -- the sandbox. If the requests of an executor went there so far, so do all that it dispatches
  -- later, whatever is requested with whatever tokens, and however the kill switches, breakers and
  -- capacity change in between: each URL is an HTTP or HTTPS one without credentials, outside the
  -- forbidden domains, on an allowed port, at a loopback address or at an allowed name that
  -- resolves, where names are resolved, to loopback addresses only.
  pub steps-IsConfined :
      (events : List Event) (s : ActionExecutor)
      → IsConfined net g s.dispatched
      → IsConfined net g (steps rt secret (check_egress_allowed net g) handler events s).dispatched
  unfolding step
  steps-IsConfined [] s h = h
  steps-IsConfined (execute request token now ∷ es) s h =
      steps-IsConfined es _ (execute_action-IsConfined request token now s h)
  steps-IsConfined (change k r c ∷ es) s h = steps-IsConfined es _ h
