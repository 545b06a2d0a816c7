-- ===== src/Examples/Breakers.antt =====
-- A circuit breaker, a registry and a capacity governor at work.
use ai_revenue_recovery.Prelude.{ℕ, true, none, some, List, [], ◌∷◌, ◌≡◌, refl, ◌↔◌, arith}
use ai_revenue_recovery.Prelude.Int.{ℤ, pos}
use ai_revenue_recovery.Prelude.Exec.{ok, err}
use ai_revenue_recovery.Prelude.Dict.{lookup}
use ai_revenue_recovery.Foundation.Errors.{closed, open_circuit, half_open, circuit_broken}
use ai_revenue_recovery.Safety.Breaker
use ai_revenue_recovery.Safety.Breaker.{CircuitBreaker}
use ai_revenue_recovery.Safety.Breaker.Invariant
use ai_revenue_recovery.Safety.Breaker.Invariant.{IsValid, reachable-IsValid}
use ai_revenue_recovery.Safety.Breaker.Probes.{Admits, check_execution_allowed_iff}
use ai_revenue_recovery.Safety.Registry.{Registry}
use ai_revenue_recovery.Safety.Registry.Isolation
use ai_revenue_recovery.Safety.Registry.Isolation.{
  HasDefaults, IsSound, breaker_of, on_breaker-isolates, registry_steps-IsSound,
}
use ai_revenue_recovery.Safety.Capacity
use ai_revenue_recovery.Safety.Capacity.{CapacityGovernor, Actions}
use ai_revenue_recovery.Safety.Capacity.Purge.{recent}
use ai_revenue_recovery.Safety.Capacity.Window.{IsWithin, serve, serve-IsWithin}

-- A breaker that trips at the third failure and closes after two successes.
abbrev gateway : CircuitBreaker
gateway = record {
  target = "EMAIL";
  failure_threshold = 3;
  recovery_timeout = 60;
  half_open_success_threshold = 2;
  half_open_max_probes = 1;
  state = closed;
  consecutive_failures = 0;
  half_open_successes = 0;
  active_half_open_probes = 0;
  tripped_at = none;
}

abbrev tripped : CircuitBreaker
tripped = record gateway { state = open_circuit; consecutive_failures = 3; tripped_at = some 10 }

abbrev busy : CircuitBreaker
busy = record tripped { state = half_open; active_half_open_probes = 1 }

check_execution_allowed_iff_example :
    ((Breaker.check_execution_allowed 70 tripped).0 ≡ ok true) ↔ Admits 70 tripped
check_execution_allowed_iff_example = check_execution_allowed_iff 70 tripped

check_runs :
    (Breaker.check_execution_allowed 69 tripped).0
    ≡ err (circuit_broken "EMAIL" open_circuit (some 10))
unfolding Breaker.check_execution_allowed
check_runs = refl

abbrev busy_day : List Invariant.Call
busy_day =
    Invariant.failure_call 1
    ∷ Invariant.failure_call 2
    ∷ Invariant.failure_call 3
    ∷ Invariant.check_call 70
    ∷ Invariant.success_call 71
    ∷ []

reachable-IsValid_example : IsValid (Invariant.steps busy_day gateway)
unfolding Breaker.new
reachable-IsValid_example = reachable-IsValid "EMAIL" 3 60 2 1 gateway busy_day refl

abbrev channels : Registry
channels = record {
  default_failure_threshold = 3;
  default_recovery_timeout = 60;
  default_half_open_max_probes = 1;
  breakers = ("EMAIL", tripped) ∷ [];
}

channels-HasDefaults : HasDefaults channels
channels-HasDefaults = record {
  threshold_positive = omega arith;
  timeout_positive = omega arith;
  probes_positive = omega arith;
}

abbrev new_channels : Registry
new_channels = record channels { breakers = [] }

new_channels-IsSound : IsSound new_channels
unfolding lookup
new_channels-IsSound = record {
  defaults = record {
    threshold_positive = omega arith;
    timeout_positive = omega arith;
    probes_positive = omega arith;
  };
  valid = λ key b e. absurd (ground arith);
}

abbrev channel_calls : List Isolation.Call
channel_calls =
    Isolation.check "SMS" 1
    ∷ Isolation.failure "SMS" 2
    ∷ Isolation.success "EMAIL" 3
    ∷ Isolation.reset_call
    ∷ []

-- Two actions and 1,000 cents in 60 units of time.
abbrev governor : CapacityGovernor
governor = record { max_actions = 2; max_volume = 1000; window = 60; history = [] }

abbrev requests : List (ℕ × ℤ)
requests = (1, pos 400) ∷ (2, pos 700) ∷ (3, pos 600) ∷ (4, pos 1) ∷ (70, pos 900) ∷ []

serve-IsWithin_example :
    IsWithin governor (recent governor.window 70 (serve requests governor []).1)
unfolding Capacity.new
serve-IsWithin_example = serve-IsWithin 2 1000 60 governor requests 70 refl (omega arith)

serve_runs : (serve requests governor []).1 ≡ (1, 400) ∷ (3, 600) ∷ (70, 900) ∷ []
unfolding Capacity.record_action Capacity.purge_expired Capacity.purge
serve_runs = refl
