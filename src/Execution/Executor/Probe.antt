-- ===== src/Execution/Executor/Probe.antt =====
-- The half-open probe of gate 4 where a later gate refuses.
use ai_revenue_recovery.Prelude.{
  ℕ, suc, ◌+◌, String, Bool, true, none, some, List, ◌≡◌, arith, eq_refl,
}
use ai_revenue_recovery.Prelude.Exec.{Result, ok, err, IsOk}
use ai_revenue_recovery.Prelude.Dict.{lookup, lookup-insert}
use ai_revenue_recovery.Foundation.Events.{channel_value}
use ai_revenue_recovery.Foundation.Errors.{Error, half_open}
use ai_revenue_recovery.Foundation.Runtime.{Runtime}
use ai_revenue_recovery.Safety.Breaker.{CircuitBreaker}
use ai_revenue_recovery.Safety.Breaker
use ai_revenue_recovery.Safety.Breaker.Probes.{IsSaturated}
use ai_revenue_recovery.Safety.KillSwitch
use ai_revenue_recovery.Safety.Registry
use ai_revenue_recovery.Safety.Authorizer.{ActionAuthorization}
use ai_revenue_recovery.Execution.Idempotency.{ExecutionRequest, get}
use ai_revenue_recovery.Execution.Executor.{
  Answer, ActionExecutor, check_authorization, query_of, pass_gates, execute_action,
}

-- A half-open breaker with its last probe left.
pub record HasLastProbe (b : CircuitBreaker) : Type 0 where
  pub state : b.state ≡ half_open
  pub last : suc b.active_half_open_probes ≡ b.half_open_max_probes

pub registry_takes_probe :
    (key : String) (now : ℕ) (r : Registry.Registry) (b : CircuitBreaker)
    → lookup key r.breakers ≡ some b
    → HasLastProbe b
    → (Registry.check_execution_allowed key now r).0 ≡ ok true
unfolding Registry.check_execution_allowed Registry.get_or_create Breaker.check_execution_allowed
registry_takes_probe key now r b found h = rw found (ground (arith, h.state, h.last))

pub registry_probe_out :
    (key : String) (now : ℕ) (r : Registry.Registry) (b : CircuitBreaker)
    → lookup key r.breakers ≡ some b
    → HasLastProbe b
    → lookup key (Registry.check_execution_allowed key now r).1.breakers
      ≡ some (record b { active_half_open_probes = b.active_half_open_probes + 1 })
unfolding Registry.check_execution_allowed Registry.get_or_create Breaker.check_execution_allowed
registry_probe_out key now r b found h = rw found (
    ground (
      arith,
      h.state,
      h.last,
      lookup-insert key key b r.breakers,
      lookup-insert key key (record b { active_half_open_probes = b.active_half_open_probes + 1 })
          r.breakers,
      eq_refl key,
    ))

module _ (rt : Runtime) (secret : String) (check_egress_allowed : String → Result Error Bool)
    (handler : List ExecutionRequest → ExecutionRequest → Answer) where
  module _ (request : ExecutionRequest) (token : ActionAuthorization) (now : ℕ) (s : ActionExecutor)
      (b : CircuitBreaker) (e : Error) where
    -- Where the channel's breaker has its last half-open probe left, an accepted and switched-on
    -- request with a new key whose destination the egress guard refuses takes that probe with it:
    -- the call raises the guard's error, and the breaker is left with all its probes out.
    pub execute_action-leaks :
        IsOk (check_authorization rt secret request token now)
        → get request.idempotency_key s.idempotency_store ≡ none
        → IsOk (KillSwitch.check_execution_allowed (query_of request) s.kill_switch).0
        → lookup (channel_value request.channel) s.circuit_breakers.breakers ≡ some b
        → HasLastProbe b
        → check_egress_allowed request.destination_url ≡ err e
        → let (r, s') = execute_action rt secret check_egress_allowed handler request token now s in
          (r ≡ err e)
          × (c : CircuitBreaker) × (lookup
                (channel_value request.channel)
                s'.circuit_breakers.breakers
              ≡ some c)
          × IsSaturated c
    unfolding execute_action pass_gates
    execute_action-leaks a absent switched found h refused =
        let probe =
          registry_takes_probe (channel_value request.channel) now s.circuit_breakers b found h in
        (
          ground (arith, probe),
          record b { active_half_open_probes = b.active_half_open_probes + 1 },
          ground (
            arith,
            probe,
            registry_probe_out (channel_value request.channel) now s.circuit_breakers b found h,
          ),
          (h.state, omega (arith, h.last)),
        )
