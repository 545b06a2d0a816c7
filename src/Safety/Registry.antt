-- ===== src/Safety/Registry.antt =====
-- `GranularCircuitBreakerRegistry`: a breaker for each target, made when it is first asked for.
pub mod Isolation
use ai_revenue_recovery.Prelude.{
  ℕ, String, Bool, Option, none, some, eqb, if◌then◌else◌, List, [], ◌∷◌,
}
use ai_revenue_recovery.Prelude.Exec.{Result, ok, err, Exec, ◌>>=◌}
use ai_revenue_recovery.Prelude.Dict.{Dict, lookup, insert}
use ai_revenue_recovery.Foundation.Errors.{Error}
use ai_revenue_recovery.Safety.Breaker
use ai_revenue_recovery.Safety.Breaker.{CircuitBreaker}

pub record Registry : Type 0 where
  pub default_failure_threshold : ℕ
  pub default_recovery_timeout : ℕ
  pub default_half_open_max_probes : ℕ
  pub breakers : Dict CircuitBreaker

-- `given or default`
abbrev or_default : Option ℕ → ℕ → ℕ
or_default none default = default
or_default (some n) default = if eqb n 0 then default else n

abbrev store_new : Result Error CircuitBreaker → String → Exec Error Registry CircuitBreaker
store_new (ok b) key r = (ok b, record r { breakers = insert key b r.breakers })
store_new (err e) key r = (err e, r)

abbrev found_or_new :
    Option CircuitBreaker
    → String
    → Option ℕ
    → Option ℕ
    → Option ℕ
    → Exec Error Registry CircuitBreaker
found_or_new (some b) key threshold timeout probes r = (ok b, r)
found_or_new none key threshold timeout probes r =
    store_new
      (Breaker.new key (or_default threshold r.default_failure_threshold)
        (or_default timeout r.default_recovery_timeout) 1
        (or_default probes r.default_half_open_max_probes))
      key r

-- A new breaker's success threshold is always the default of `CircuitBreaker`, 1.
unfoldable pub get_or_create :
    String → Option ℕ → Option ℕ → Option ℕ → Exec Error Registry CircuitBreaker
get_or_create key threshold timeout probes r =
    found_or_new (lookup key r.breakers) key threshold timeout probes r

-- A method of the breaker of `key`: the object is shared, so its change shows in the registry.
abbrev run_on :
    {A : Type 0} → String → Exec Error CircuitBreaker A → CircuitBreaker → Exec Error Registry A
run_on key m b r =
    let (result, b') = m b in (result, record r { breakers = insert key b' r.breakers })

abbrev on_breaker : {A : Type 0} → String → Exec Error CircuitBreaker A → Exec Error Registry A
on_breaker key m = get_or_create key none none none >>= run_on key m

unfoldable pub check_execution_allowed : String → ℕ → Exec Error Registry Bool
unfolding get_or_create
check_execution_allowed key now = on_breaker key (Breaker.check_execution_allowed now)

abbrev updating : (CircuitBreaker → CircuitBreaker) → Exec Error CircuitBreaker (Unit {0})
updating f b = (ok tt, f b)

unfoldable pub record_success : String → ℕ → Exec Error Registry (Unit {0})
unfolding get_or_create
record_success key now = on_breaker key (updating (Breaker.record_success now))

unfoldable pub record_failure : String → ℕ → Exec Error Registry (Unit {0})
unfolding get_or_create
record_failure key now = on_breaker key (updating (Breaker.record_failure now))

reset_each : Dict CircuitBreaker → Dict CircuitBreaker
reset_each [] = []
reset_each ((key, b) ∷ bs) = (key, Breaker.reset b) ∷ reset_each bs

unfoldable pub reset_all : Registry → Registry
unfolding reset_each
reset_all r = record r { breakers = reset_each r.breakers }
