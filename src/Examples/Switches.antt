-- ===== src/Examples/Switches.antt =====
-- Kill switches that are set and lifted.
use ai_revenue_recovery.Prelude.{
  ℕ, String, true, false, none, some, List, [], ◌∷◌, ◌≡◌, ◌≢◌, refl, ◌↔◌, arith, ◌||◌, strip,
  eq_iff,
}
use ai_revenue_recovery.Prelude.Exec.{ok}
use ai_revenue_recovery.Foundation.Errors.{customer}
use ai_revenue_recovery.Safety.KillSwitch
use ai_revenue_recovery.Safety.KillSwitch.{KillSwitchManager, KillSwitchRecord, Query, is_active}
use ai_revenue_recovery.Safety.KillSwitch.Coverage.{
  of_customer, activate, covers, is_active-activate, IsClear, check_execution_allowed-IsClear,
}

abbrev cus_1 : KillSwitchRecord
cus_1 = record {
  scope = customer;
  target = "cus_1";
  reason = "chargeback";
  activated_by = "ops";
  activated_at = 7;
}

abbrev halted : KillSwitchManager
halted = record KillSwitch.new { customer_switches = ("cus_1", cus_1) ∷ [] }

abbrev email_to_cus_1 : Query
email_to_cus_1 = record {
  action_type_value = some "SEND_NOTIFICATION";
  channel = some "EMAIL";
  customer_id = some " cus_1 ";
  case_id = none;
}

stripped_runs : is_active email_to_cus_1 halted ≡ true
unfolding is_active ai_revenue_recovery.Prelude.Dict.lookup strip
stripped_runs = refl

check_execution_allowed-IsClear_example :
    (KillSwitch.check_execution_allowed email_to_cus_1 halted ≡ (ok true, halted))
    ↔ IsClear email_to_cus_1 halted
check_execution_allowed-IsClear_example = check_execution_allowed-IsClear email_to_cus_1 halted

is_active-activate_example :
    is_active email_to_cus_1 (activate (of_customer "cus_1") "chargeback" "ops" 7 KillSwitch.new).1
    ≡ (covers (of_customer "cus_1") email_to_cus_1 || is_active email_to_cus_1 KillSwitch.new)
unfolding activate KillSwitch.make_record strip
is_active-activate_example =
    is_active-activate (of_customer "cus_1") "chargeback" "ops" 7 KillSwitch.new email_to_cus_1
      {switch = cus_1} refl
