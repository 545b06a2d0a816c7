-- ===== src/Safety/Registry/Isolation.antt =====
-- The methods of the registry against the methods of its breakers, target by target.
use ai_revenue_recovery.Prelude.{
  ℕ, ◌<◌, String, Option, none, some, ◌≡◌, refl, inl, inr, arith, sym, ◌∙◌, Bool-cases, List, [],
  ◌∷◌, ◌==◌, Option-cases, if◌then◌else◌,
}
use ai_revenue_recovery.Prelude.Exec.{ok, Exec}
use ai_revenue_recovery.Prelude.Dict.{Dict, lookup, lookup-insert}
use ai_revenue_recovery.Foundation.Errors.{Error, closed}
use ai_revenue_recovery.Safety.Breaker
use ai_revenue_recovery.Safety.Breaker.{CircuitBreaker}
use ai_revenue_recovery.Safety.Breaker.Invariant.{IsValid, step-IsValid}
use ai_revenue_recovery.Safety.Breaker.Invariant
use mathlib.Core.Option
use mathlib.Core.Option.{some-injective}
use mathlib.Core.Path.{subst}
use ai_revenue_recovery.Safety.Registry.{
  Registry, get_or_create, on_breaker, check_execution_allowed, record_success, record_failure,
  reset_each, reset_all,
}

pub record HasDefaults (r : Registry) : Type 0 where
  pub threshold_positive : 0 < r.default_failure_threshold
  pub timeout_positive : 0 < r.default_recovery_timeout
  pub probes_positive : 0 < r.default_half_open_max_probes

-- What `get_or_create` makes for a target.
abbrev fresh_breaker : String → Registry → CircuitBreaker
fresh_breaker key r = record {
  target = key;
  failure_threshold = r.default_failure_threshold;
  recovery_timeout = r.default_recovery_timeout;
  half_open_success_threshold = 1;
  half_open_max_probes = r.default_half_open_max_probes;
  state = closed;
  consecutive_failures = 0;
  half_open_successes = 0;
  active_half_open_probes = 0;
  tripped_at = none;
}

abbrev or_fresh : Option CircuitBreaker → CircuitBreaker → CircuitBreaker
or_fresh none fresh = fresh
or_fresh (some b) fresh = b

-- The breaker that a method on a target finds or makes.
abbrev pub breaker_of : String → Registry → CircuitBreaker
breaker_of key r = or_fresh (lookup key r.breakers) (fresh_breaker key r)

new-fresh :
    (key : String) (r : Registry)
    → HasDefaults r
    → Breaker.new key r.default_failure_threshold r.default_recovery_timeout 1
        r.default_half_open_max_probes
      ≡ ok (fresh_breaker key r)
unfolding Breaker.new
new-fresh key r h = ground arith

keep_defaults :
    {r : Registry} {d : Dict CircuitBreaker}
    → HasDefaults r
    → HasDefaults (record r { breakers = d })
keep_defaults h = record {
  threshold_positive = h.threshold_positive;
  timeout_positive = h.timeout_positive;
  probes_positive = h.probes_positive;
}

module _ {A : Type 0} (key : String) (m : Exec Error CircuitBreaker A) (r : Registry)
    (h : HasDefaults r) where
  on_breaker-result : (on_breaker key m r).0 ≡ (m (breaker_of key r)).0
  unfolding get_or_create
  on_breaker-result = elim (Option-cases (lookup key r.breakers)) [
    | inl absent ↦ rw (absent, new-fresh key r h)
    | inr (b, found) ↦ rw found
  ]

  lookup-on_breaker :
      (j : String)
      → lookup j (on_breaker key m r).1.breakers
        ≡ (if key == j then some (m (breaker_of key r)).1 else lookup j r.breakers)
  unfolding get_or_create
  lookup-on_breaker j = elim (Option-cases (lookup key r.breakers)) [
    | inl absent ↦
        rw (absent, new-fresh key r h)
          (rw lookup-insert (ground (arith, lookup-insert j key (fresh_breaker key r) r.breakers)))
    | inr (b, found) ↦ rw found (rw lookup-insert)
  ]

  on_breaker-defaults : HasDefaults (on_breaker key m r).1
  unfolding get_or_create
  on_breaker-defaults = elim (Option-cases (lookup key r.breakers)) [
    | inl absent ↦ rw (absent, new-fresh key r h) (keep_defaults h)
    | inr (b, found) ↦ rw found (keep_defaults h)
  ]

-- A method on the target `key` returns or raises as that breaker's own method does, leaves the
-- breaker as that method leaves it, and changes the breaker of no other target; where the target
-- has no breaker, the method runs on a new one with the registry's defaults.
pub on_breaker-isolates :
    (key j : String) (now : ℕ) (r : Registry)
    → HasDefaults r
    → ((check_execution_allowed key now r).0
        ≡ (Breaker.check_execution_allowed now (breaker_of key r)).0)
      × (lookup j (check_execution_allowed key now r).1.breakers ≡ (
          if key == j
          then some (Breaker.check_execution_allowed now (breaker_of key r)).1
          else lookup j r.breakers))
      × (lookup j (record_success key now r).1.breakers ≡ (
          if key == j
          then some (Breaker.record_success now (breaker_of key r))
          else lookup j r.breakers))
      × (lookup j (record_failure key now r).1.breakers ≡ (
          if key == j
          then some (Breaker.record_failure now (breaker_of key r))
          else lookup j r.breakers))
unfolding check_execution_allowed record_success record_failure
on_breaker-isolates key j now r h = (
  on_breaker-result key _ r h,
  lookup-on_breaker key _ r h j,
  lookup-on_breaker key _ r h j,
  lookup-on_breaker key _ r h j,
)

-- The calls that change a registry.
pub data Call : Type 0 where
  check success failure : String → ℕ → Call
  reset_call : Call

unfoldable pub step : Call → Registry → Registry
step (check key now) r = (check_execution_allowed key now r).1
step (success key now) r = (record_success key now r).1
step (failure key now) r = (record_failure key now r).1
step reset_call r = reset_all r

abbrev pub steps : List Call → Registry → Registry
steps [] r = r
steps (c ∷ cs) r = steps cs (step c r)

pub record IsSound (r : Registry) : Type 0 where
  pub defaults : HasDefaults r
  pub valid : (key : String) (b : CircuitBreaker) → lookup key r.breakers ≡ some b → IsValid b

fresh-IsValid : (key : String) (r : Registry) → HasDefaults r → IsValid (fresh_breaker key r)
fresh-IsValid key r h = ground arith

breaker_of-IsValid : (key : String) (r : Registry) → IsSound r → IsValid (breaker_of key r)
breaker_of-IsValid key r h = elim (Option-cases (lookup key r.breakers)) [
  | inl absent ↦ rw absent (fresh-IsValid key r h.defaults)
  | inr (b, found) ↦ rw found (h.valid key b found)
]

on_breaker-IsSound :
    {A : Type 0} (key : String) (m : Exec Error CircuitBreaker A) (r : Registry)
    → ((b : CircuitBreaker) → IsValid b → IsValid (m b).1)
    → IsSound r
    → IsSound (on_breaker key m r).1
on_breaker-IsSound key m r keep h = record {
  defaults = on_breaker-defaults key m r h.defaults;
  valid = λ j b e. elim (Bool-cases (key == j)) [
    | inl same ↦
        subst IsValid (ground (arith, lookup-on_breaker key m r h.defaults j))
          (keep (breaker_of key r) (breaker_of-IsValid key r h))
    | inr other ↦ h.valid j b (sym (rw other at (lookup-on_breaker key m r h.defaults j)) ∙ e)
  ];
}

lookup-reset_each :
    (j : String) (bs : Dict CircuitBreaker)
    → lookup j (reset_each bs) ≡ Option.map Breaker.reset (lookup j bs)
unfolding lookup reset_each
lookup-reset_each j [] = refl
lookup-reset_each j ((key, b) ∷ bs) = ground (arith, lookup-reset_each j bs)

reset_all-IsSound : (r : Registry) → IsSound r → IsSound (reset_all r)
unfolding reset_all
reset_all-IsSound r h = record {
  defaults = keep_defaults h.defaults;
  valid = λ j c e. elim (Option-cases (lookup j r.breakers)) [
    | inl absent ↦ cc (lookup-reset_each j r.breakers, absent)
    | inr (b, found) ↦
        subst IsValid {x = Breaker.reset b} (ground (arith, lookup-reset_each j r.breakers))
          (unfold Invariant.step in step-IsValid Invariant.reset_call b (h.valid j b found))
  ];
}

step-IsSound : (c : Call) (r : Registry) → IsSound r → IsSound (step c r)
unfolding step check_execution_allowed record_success record_failure
step-IsSound (check key now) r h =
    on_breaker-IsSound key _ r
      (λ b. unfold Invariant.step in step-IsValid (Invariant.check_call now) b) h
step-IsSound (success key now) r h =
    on_breaker-IsSound key _ r
      (λ b. unfold Invariant.step in step-IsValid (Invariant.success_call now) b) h
step-IsSound (failure key now) r h =
    on_breaker-IsSound key _ r
      (λ b. unfold Invariant.step in step-IsValid (Invariant.failure_call now) b) h
step-IsSound reset_call r h = reset_all-IsSound r h

-- In a registry with positive defaults every breaker stays valid, whatever methods are called on
-- whatever targets at whatever times.
pub registry_steps-IsSound : (cs : List Call) (r : Registry) → IsSound r → IsSound (steps cs r)
registry_steps-IsSound [] r h = h
registry_steps-IsSound (c ∷ cs) r h = registry_steps-IsSound cs (step c r) (step-IsSound c r h)
