-- ===== src/Safety/Breaker/Recovery.antt =====
-- How a breaker trips and how it closes again.
use ai_revenue_recovery.Prelude.{
  ℕ, suc, ◌+◌, ◌≤◌, ◌<◌, List, [], ◌∷◌, some, ◌≡◌, arith, length, refl,
}
use ai_revenue_recovery.Foundation.Errors.{closed, open_circuit, half_open}
use ai_revenue_recovery.Safety.Breaker.{
  CircuitBreaker, check_execution_allowed, record_success, record_failure,
}

-- Failures reported one after another, the latest time returned beside the breaker.
abbrev pub failures : List ℕ → CircuitBreaker → CircuitBreaker
failures [] b = b
failures (now ∷ times) b = failures times (record_failure now b)

-- Executions that are admitted and succeed, one after another.
abbrev pub probe_successes : List ℕ → CircuitBreaker → CircuitBreaker
probe_successes [] b = b
probe_successes (now ∷ times) b =
    probe_successes times (record_success now (check_execution_allowed now b).1)

record_failure_one :
    (now : ℕ) (b : CircuitBreaker)
    → b.state ≡ closed
    → suc b.consecutive_failures < b.failure_threshold
    → record_failure now b ≡ record b { consecutive_failures = b.consecutive_failures + 1 }
unfolding record_failure
record_failure_one now b c h = ground arith

-- A closed breaker stays closed while the failures in a row are below the threshold, and counts them.
pub failures-below :
    (times : List ℕ) (b : CircuitBreaker)
    → b.state ≡ closed
    → b.consecutive_failures + length times < b.failure_threshold
    → failures times b ≡ record b { consecutive_failures = b.consecutive_failures + length times }
failures-below [] b c h = ground arith
failures-below (now ∷ times) b c h = ground (
  arith,
  record_failure_one now b c,
  failures-below times (record b { consecutive_failures = b.consecutive_failures + 1 }),
)

record_failure_last :
    (now : ℕ) (b : CircuitBreaker)
    → b.state ≡ closed
    → b.failure_threshold ≤ suc b.consecutive_failures
    → (record_failure now b).state ≡ open_circuit
unfolding record_failure
record_failure_last now b c h = ground arith

record_failure_time :
    (now : ℕ) (b : CircuitBreaker)
    → b.state ≡ closed
    → b.failure_threshold ≤ suc b.consecutive_failures
    → (record_failure now b).tripped_at ≡ some now
unfolding record_failure
record_failure_time now b c h = ground arith

-- A closed breaker that is one failure in a row below its threshold after `times` trips at the
-- next failure, and not before: it is closed after `times`, and then open since `now`.
pub failures-trip :
    (times : List ℕ) (now : ℕ) (b : CircuitBreaker)
    → b.state ≡ closed
    → b.consecutive_failures + length times + 1 ≡ b.failure_threshold
    → let before = failures times b in
      let after = record_failure now before in
      (before.state ≡ closed) × (after.state ≡ open_circuit) × (after.tripped_at ≡ some now)
failures-trip times now b c h = rw (failures-below times b c (omega arith)) (
  c,
  record_failure_last now
      (record b { consecutive_failures = b.consecutive_failures + length times }) c (omega arith),
  record_failure_time now
      (record b { consecutive_failures = b.consecutive_failures + length times }) c (omega arith),
)

-- One admitted and successful probe.
abbrev probed : CircuitBreaker → CircuitBreaker
probed b = record b { half_open_successes = b.half_open_successes + 1 }

probe_success_one :
    (now : ℕ) (b : CircuitBreaker)
    → b.state ≡ half_open
    → b.active_half_open_probes < b.half_open_max_probes
    → suc b.half_open_successes < b.half_open_success_threshold
    → record_success now (check_execution_allowed now b).1 ≡ probed b
unfolding record_success check_execution_allowed
probe_success_one now b c r h = ground arith

probe_success_last :
    (now : ℕ) (b : CircuitBreaker)
    → b.state ≡ half_open
    → b.active_half_open_probes < b.half_open_max_probes
    → b.half_open_success_threshold ≤ suc b.half_open_successes
    → (record_success now (check_execution_allowed now b).1).state ≡ closed
unfolding record_success check_execution_allowed
probe_success_last now b c r h = ground arith

-- Half open, with room for a probe: as many admitted successes as the threshold still wants close
-- the breaker, and fewer do not.
half_open_recovers :
    (times : List ℕ) (b : CircuitBreaker)
    → b.state ≡ half_open
    → b.active_half_open_probes < b.half_open_max_probes
    → b.half_open_successes < b.half_open_success_threshold
    → b.half_open_successes + length times ≡ b.half_open_success_threshold
    → (probe_successes times b).state ≡ closed
half_open_recovers [] b c r s h = absurd (omega arith)
half_open_recovers (now ∷ []) b c r s h = probe_success_last now b c r (omega arith)
half_open_recovers (now ∷ next ∷ times) b c r s h =
    rw (probe_success_one now b c r (omega arith), probe_successes)
      (half_open_recovers (next ∷ times) (probed b) c r (omega arith) (omega arith))

open_first :
    (now t : ℕ) (b : CircuitBreaker)
    → b.state ≡ open_circuit
    → b.tripped_at ≡ some t
    → t + b.recovery_timeout ≤ now
    → check_execution_allowed now b
      ≡ check_execution_allowed now
          (record b { state = half_open; half_open_successes = 0; active_half_open_probes = 0 })
unfolding check_execution_allowed
open_first now t b c e h = ground arith

-- An open breaker recovers: from its timeout on, as many admitted successes in a row as
-- `half_open_success_threshold` says leave it closed, whatever the later times are.
pub probe_successes-recover :
    (now t : ℕ) (times : List ℕ) (b : CircuitBreaker)
    → b.state ≡ open_circuit
    → b.tripped_at ≡ some t
    → t + b.recovery_timeout ≤ now
    → 0 < b.half_open_max_probes
    → length (now ∷ times) ≡ b.half_open_success_threshold
    → (probe_successes (now ∷ times) b).state ≡ closed
probe_successes-recover now t times b c e h r l =
    rw (open_first now t b c e h, probe_successes)
      (half_open_recovers (now ∷ times)
        (record b { state = half_open; half_open_successes = 0; active_half_open_probes = 0 }) refl
        r (omega arith) (omega arith))
