-- ===== src/Safety/KillSwitch/Coverage.antt =====
-- Which executions a switch stops, and what activating and deactivating one changes.
use ai_revenue_recovery.Prelude.{
  ℕ, String, Bool, true, false, Option, none, some, ◌≡◌, ◌≢◌, ap, refl, ◌↔◌, ◌==◌, arith, is_some,
  strip, ◌||◌, eq_iff, not, ◌&&◌,
}
use ai_revenue_recovery.Prelude.Exec.{ok, err, Exec}
use ai_revenue_recovery.Prelude.Dict.{Dict, insert, erase, lookup-insert, lookup-erase}
use ai_revenue_recovery.Foundation.Errors.{Error, validation_error}
use ai_revenue_recovery.Safety.KillSwitch.{
  KillSwitchRecord, KillSwitchManager, Query, switch_at, stripped, make_record, activate_global,
  deactivate_global, activate_action_type, deactivate_action_type, activate_channel,
  deactivate_channel, activate_customer, deactivate_customer, activate_case, deactivate_case,
  is_active, check_execution_allowed,
}

-- The switch that an activation or a deactivation is about.
pub data Switch : Type 0 where
  global_scope : Switch
  of_action_type of_channel of_customer of_case : String → Switch

unfoldable pub activate :
    Switch → String → String → ℕ → Exec Error KillSwitchManager KillSwitchRecord
unfolding activate_global activate_action_type activate_channel activate_customer activate_case
activate global_scope reason by now = activate_global reason by now
activate (of_action_type key) reason by now = activate_action_type key reason by now
activate (of_channel key) reason by now = activate_channel key reason by now
activate (of_customer id) reason by now = activate_customer id reason by now
activate (of_case id) reason by now = activate_case id reason by now

unfoldable pub deactivate : Switch → Exec Error KillSwitchManager Bool
unfolding deactivate_global deactivate_action_type deactivate_channel deactivate_customer
    deactivate_case
deactivate global_scope = deactivate_global
deactivate (of_action_type key) = deactivate_action_type key
deactivate (of_channel key) = deactivate_channel key
deactivate (of_customer id) = deactivate_customer id
deactivate (of_case id) = deactivate_case id

abbrev names : String → Option String → Bool
names key none = false
names key (some k) = key == k

-- A switch stops the executions that name its target; the global one stops all.
abbrev pub covers : Switch → Query → Bool
covers global_scope q = true
covers (of_action_type key) q = names key q.action_type_value
covers (of_channel key) q = names key q.channel
covers (of_customer id) q = names (strip id) (stripped q.customer_id)
covers (of_case id) q = names (strip id) (stripped q.case_id)

module _ (key : String) (v : KillSwitchRecord) (d : Dict KillSwitchRecord) where
  is_some-insert :
      (k : Option String)
      → is_some (switch_at k (insert key v d)) ≡ (names key k || is_some (switch_at k d))
  is_some-insert none = refl
  is_some-insert (some k) = ground (arith, lookup-insert k key v d)

module _ (key : String) (d : Dict KillSwitchRecord) where
  is_some-erase :
      (k : Option String)
      → is_some (switch_at k (erase key d)) ≡ (not (names key k) && is_some (switch_at k d))
  is_some-erase none = refl
  is_some-erase (some k) = ground (arith, lookup-erase k key d)

-- The five places where a query can be stopped.
is_active_lem :
    (q : Query) (m : KillSwitchManager)
    → is_active q m ≡ (
        is_some m.global_switch
        || (is_some (switch_at q.action_type_value m.action_type_switches)
            || (is_some (switch_at q.channel m.channel_switches)
                || (is_some (switch_at (stripped q.customer_id) m.customer_switches)
                    || is_some (switch_at (stripped q.case_id) m.case_switches)))))
unfolding is_active
is_active_lem q m = ground arith

-- An activation that returns stops exactly what its switch covers, on top of what was stopped before.
pub is_active-activate :
    (s : Switch) (reason by : String) (now : ℕ) (m : KillSwitchManager) (q : Query)
    {switch : KillSwitchRecord}
    → (activate s reason by now m).0 ≡ ok switch
    → is_active q (activate s reason by now m).1 ≡ (covers s q || is_active q m)
unfolding activate make_record
is_active-activate global_scope reason by now m q h = simp is_active_lem (grind arith)
is_active-activate (of_action_type key) reason by now m q h =
    simp is_active_lem (grind (arith, is_some-insert))
is_active-activate (of_channel key) reason by now m q h =
    simp is_active_lem (grind (arith, is_some-insert))
is_active-activate (of_customer id) reason by now m q h =
    simp is_active_lem (grind (arith, is_some-insert))
is_active-activate (of_case id) reason by now m q h =
    simp is_active_lem (grind (arith, is_some-insert))

-- A deactivation stops nothing that was not stopped, and outside of what its switch covers it
-- changes nothing.
pub is_active-deactivate :
    (s : Switch) (m : KillSwitchManager) (q : Query)
    → ((is_active q (deactivate s m).1 || is_active q m) ≡ is_active q m)
      × ((covers s q || is_active q (deactivate s m).1) ≡ (covers s q || is_active q m))
unfolding deactivate
is_active-deactivate global_scope m q = simp is_active_lem (ground arith)
is_active-deactivate (of_action_type key) m q =
    simp is_active_lem
      (ground (arith, is_some-erase key m.action_type_switches q.action_type_value))
is_active-deactivate (of_channel key) m q =
    simp is_active_lem (ground (arith, is_some-erase key m.channel_switches q.channel))
is_active-deactivate (of_customer id) m q =
    simp is_active_lem
      (ground (arith, is_some-erase (strip id) m.customer_switches (stripped q.customer_id)))
is_active-deactivate (of_case id) m q =
    simp is_active_lem
      (ground (arith, is_some-erase (strip id) m.case_switches (stripped q.case_id)))

-- An activation is undone by the deactivation of the same switch: what is stopped then is what
-- the deactivation alone would leave.
pub deactivate-activate :
    (s : Switch) (reason by : String) (now : ℕ) (m : KillSwitchManager) (q : Query)
    → is_active q (deactivate s (activate s reason by now m).1).1 ≡ is_active q (deactivate s m).1
unfolding activate deactivate make_record
deactivate-activate global_scope reason by now m q = simp is_active_lem (grind arith)
deactivate-activate (of_action_type key) reason by now m q =
    simp is_active_lem (grind (arith, is_some-insert, is_some-erase))
deactivate-activate (of_channel key) reason by now m q =
    simp is_active_lem (grind (arith, is_some-insert, is_some-erase))
deactivate-activate (of_customer id) reason by now m q =
    simp is_active_lem (grind (arith, is_some-insert, is_some-erase))
deactivate-activate (of_case id) reason by now m q =
    simp is_active_lem (grind (arith, is_some-insert, is_some-erase))

-- No switch of any scope is hit.
abbrev pub IsClear : Query → KillSwitchManager → Type 0
IsClear q m =
    (m.global_switch ≡ none)
    × (switch_at q.action_type_value m.action_type_switches ≡ none)
    × (switch_at q.channel m.channel_switches ≡ none)
    × (switch_at (stripped q.customer_id) m.customer_switches ≡ none)
    × (switch_at (stripped q.case_id) m.case_switches ≡ none)

-- The gate is open exactly if no switch of any scope is hit, and it changes nothing.
pub check_execution_allowed-IsClear :
    (q : Query) (m : KillSwitchManager) → (check_execution_allowed q m ≡ (ok true, m)) ↔ IsClear q m
unfolding check_execution_allowed
check_execution_allowed-IsClear q m = (closed_gate, open_gate)
  where
    closed_gate : check_execution_allowed q m ≡ (ok true, m) → IsClear q m
    closed_gate e = ground (arith, ap (λ r. r.0) e)

    open_gate : IsClear q m → check_execution_allowed q m ≡ (ok true, m)
    open_gate h = ground arith

-- A reason of blanks alone is refused, and the switch is not set: an emergency halt with such a
-- reason stops nothing.
pub activate-blank :
    (s : Switch) (reason by : String) (now : ℕ) (m : KillSwitchManager)
    → reason ≢ ""
    → strip reason ≡ ""
    → activate s reason by now m ≡ (err validation_error, m)
unfolding activate make_record
activate-blank global_scope reason by now m h e =
    ground (arith, eq_iff reason "", eq_iff (strip reason) "")
activate-blank (of_action_type key) reason by now m h e =
    ground (arith, eq_iff reason "", eq_iff (strip reason) "")
activate-blank (of_channel key) reason by now m h e =
    ground (arith, eq_iff reason "", eq_iff (strip reason) "")
activate-blank (of_customer id) reason by now m h e =
    ground (arith, eq_iff reason "", eq_iff (strip reason) "")
activate-blank (of_case id) reason by now m h e =
    ground (arith, eq_iff reason "", eq_iff (strip reason) "")
