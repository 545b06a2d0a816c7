-- ===== src/Safety/Breaker/Probes.antt =====
-- When a breaker admits an execution, and what a probe that is never resolved does to it.
use ai_revenue_recovery.Prelude.{
  ℕ, ◌+◌, ◌≤◌, ◌<◌, true, List, [], ◌∷◌, Option, none, some, ◌≡◌, refl, ◌⊎◌, ◌↔◌, arith, ◌∙◌, ap,
}
use ai_revenue_recovery.Prelude.Exec.{ok, err}
use ai_revenue_recovery.Foundation.Errors.{closed, open_circuit, half_open, circuit_broken}
use ai_revenue_recovery.Safety.Breaker.{
  CircuitBreaker, get_state, can_attempt_probe, check_execution_allowed,
}

-- The timeout has passed since the trip.
abbrev HasElapsed : ℕ → ℕ → Option ℕ → Type 0
HasElapsed now timeout none = ⊥
HasElapsed now timeout (some tripped_at) = tripped_at + timeout ≤ now

-- The breaker may let one more execution through.
abbrev pub Admits : ℕ → CircuitBreaker → Type 0
Admits now b =
    (b.state ≡ closed)
    ⊎ ((b.state ≡ half_open) × (b.active_half_open_probes < b.half_open_max_probes))
    ⊎ ((b.state ≡ open_circuit)
        × HasElapsed now b.recovery_timeout b.tripped_at
        × (0 < b.half_open_max_probes))

admitted_only :
    (now : ℕ) (b : CircuitBreaker) → (check_execution_allowed now b).0 ≡ ok true → Admits now b
unfolding check_execution_allowed
admitted_only now b h = ground arith

admitted_if :
    (now : ℕ) (b : CircuitBreaker) → Admits now b → (check_execution_allowed now b).0 ≡ ok true
unfolding check_execution_allowed
admitted_if now b h = ground arith

-- An execution is admitted exactly if the breaker is closed, or half open with a probe left, or
-- open with its timeout passed since the trip (and a positive number of probes).
pub check_execution_allowed_iff :
    (now : ℕ) (b : CircuitBreaker) → ((check_execution_allowed now b).0 ≡ ok true) ↔ Admits now b
check_execution_allowed_iff now b = (admitted_only now b, admitted_if now b)

-- `can_attempt_probe` answers what `check_execution_allowed` would do, and takes no probe.
pub can_attempt_probe-agrees :
    (now : ℕ) (b : CircuitBreaker)
    → (can_attempt_probe now b ≡ (ok true, (get_state now b).1)) ↔ Admits now b
unfolding can_attempt_probe get_state
can_attempt_probe-agrees now b = (only, whenever)
  where
    only : can_attempt_probe now b ≡ (ok true, (get_state now b).1) → Admits now b
    only h = ground (arith, ap (λ r. r.0) h)

    whenever : Admits now b → can_attempt_probe now b ≡ (ok true, (get_state now b).1)
    whenever h = ground arith

-- A half-open breaker whose probes are all out.
abbrev pub IsSaturated : CircuitBreaker → Type 0
IsSaturated b = (b.state ≡ half_open) × (b.half_open_max_probes ≤ b.active_half_open_probes)

-- `count` admissions of a half-open breaker with room, with no outcome reported in between.
abbrev pub admissions : List ℕ → CircuitBreaker → CircuitBreaker
admissions [] b = b
admissions (now ∷ times) b = admissions times (check_execution_allowed now b).1

check_execution_allowed-saturated :
    (now : ℕ) (b : CircuitBreaker)
    → IsSaturated b
    → check_execution_allowed now b ≡ (err (circuit_broken b.target half_open b.tripped_at), b)
unfolding check_execution_allowed
check_execution_allowed-saturated now b h = ground arith

admissions-unchanged :
    (times : List ℕ) (b : CircuitBreaker) → IsSaturated b → admissions times b ≡ b
admissions-unchanged [] b h = refl
admissions-unchanged (now ∷ times) b h =
    ap (λ r. admissions times r.1) (check_execution_allowed-saturated now b h)
    ∙ admissions-unchanged times b h

-- A half-open breaker whose probes are all out refuses every execution, however many are tried and
-- however late, and stays as it is: the passing of time alone never ends this state.
pub admissions-saturated :
    (times : List ℕ) (now : ℕ) (b : CircuitBreaker)
    → IsSaturated b
    → check_execution_allowed now (admissions times b)
      ≡ (err (circuit_broken b.target half_open b.tripped_at), b)
admissions-saturated times now b h =
    ap (check_execution_allowed now) (admissions-unchanged times b h)
    ∙ check_execution_allowed-saturated now b h
