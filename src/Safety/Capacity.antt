-- ===== src/Safety/Capacity.antt =====
-- `CapacityGovernor` of src/revenue_recovery/safety/circuit_breaker.py: a sliding window over the
-- accepted actions. Times and the window are microseconds; an amount is checked not to be negative
-- before it is stored.
pub mod Purge
pub mod Window
use ai_revenue_recovery.Prelude.{
  ℕ, ◌+◌, Bool, true, List, [], ◌∷◌, ◌++◌, ltb, eqb, ◌||◌, if◌then◌else◌, length,
}
use ai_revenue_recovery.Prelude.Int.{ℤ, pos, negsuc}
use ai_revenue_recovery.Prelude.Exec.{Result, ok, err, Exec, raise}
use ai_revenue_recovery.Foundation.Errors.{Error, value_error, capacity_exceeded}

abbrev pub Actions : Type 0
Actions = List (ℕ × ℕ)

pub record CapacityGovernor : Type 0 where
  pub max_actions : ℕ
  pub max_volume : ℕ
  pub window : ℕ
  pub history : Actions

-- `__init__`
unfoldable pub new : ℕ → ℕ → ℕ → Result Error CapacityGovernor
new max_actions max_volume window =
    if eqb max_actions 0 || eqb max_volume 0 || eqb window 0
    then err value_error
    else ok (record {
      max_actions = max_actions;
      max_volume = max_volume;
      window = window;
      history = [];
    })

-- `sum(amt for _, amt in self._history)`
abbrev pub volume : Actions → ℕ
volume [] = 0
volume ((_, amount) ∷ h) = amount + volume h

-- The loop of `_purge_expired`; `timestamp < now - window` without going below 0.
unfoldable pub purge : ℕ → ℕ → Actions → Actions
purge window now [] = []
purge window now ((time, amount) ∷ h) =
    let rest = purge window now h in if ltb (time + window) now then rest else (time, amount) ∷ h

unfoldable pub purge_expired : ℕ → CapacityGovernor → CapacityGovernor
unfolding purge
purge_expired now g = record g { history = purge g.window now g.history }

unfoldable pub get_current_utilization : ℕ → Exec Error CapacityGovernor (ℕ × ℕ)
unfolding purge_expired
get_current_utilization now g =
    let g' = purge_expired now g in (ok (length g'.history, volume g'.history), g')

abbrev exceeded : CapacityGovernor → Error
exceeded g = capacity_exceeded (length g.history) g.max_actions (volume g.history) g.max_volume

-- The two tests that `check_capacity_available` and `record_action` make after the purge.
abbrev guarded : {A : Type 0} → ℕ → Exec Error CapacityGovernor A → Exec Error CapacityGovernor A
guarded amount proceed g =
    if ltb g.max_actions (length g.history + 1)
    then (err (exceeded g), g)
    else if ltb g.max_volume (volume g.history + amount)
    then (err (exceeded g), g)
    else proceed g

abbrev allow : Exec Error CapacityGovernor Bool
allow g = (ok true, g)

abbrev reserve : ℕ → ℕ → Exec Error CapacityGovernor (Unit {0})
reserve now amount g = (ok tt, record g { history = g.history ++ (now, amount) ∷ [] })

unfoldable pub check_capacity_available : ℤ → ℕ → Exec Error CapacityGovernor Bool
unfolding purge_expired
check_capacity_available (negsuc _) now g = (err value_error, g)
check_capacity_available (pos amount) now g = guarded amount allow (purge_expired now g)

unfoldable pub record_action : ℤ → ℕ → Exec Error CapacityGovernor (Unit {0})
record_action (negsuc _) now g = (err value_error, g)
record_action (pos amount) now g = guarded amount (reserve now amount) (purge_expired now g)

unfoldable pub reset : CapacityGovernor → CapacityGovernor
reset g = record g { history = [] }
