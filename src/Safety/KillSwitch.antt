-- ===== src/Safety/KillSwitch.antt =====
-- src/revenue_recovery/safety/kill_switch.py: the global switch and a dict of switches for each
-- narrower scope. A query names an enum by its value.
pub mod Coverage
use Prim.Native.String.{◌++◌ as concat}
use ai_revenue_recovery.Prelude.{
  ℕ, String, Bool, true, false, Option, none, some, [], ◌==◌, if◌then◌else◌, is_some, strip, ◌||◌,
}
use ai_revenue_recovery.Prelude.Exec.{Result, ok, err, Exec}
use ai_revenue_recovery.Prelude.Dict.{Dict, lookup, insert, erase}
use ai_revenue_recovery.Foundation.Errors.{
  Error, validation_error, kill_switch_active, KillSwitchScope, global, action_type, action_channel,
  customer, case_scope,
}

pub record KillSwitchRecord : Type 0 where
  pub scope : KillSwitchScope
  pub target : String
  pub reason : String
  pub activated_by : String
  pub activated_at : ℕ

pub record KillSwitchManager : Type 0 where
  pub global_switch : Option KillSwitchRecord
  pub action_type_switches : Dict KillSwitchRecord
  pub channel_switches : Dict KillSwitchRecord
  pub customer_switches : Dict KillSwitchRecord
  pub case_switches : Dict KillSwitchRecord

abbrev pub new : KillSwitchManager
new = record {
  global_switch = none;
  action_type_switches = [];
  channel_switches = [];
  customer_switches = [];
  case_switches = [];
}

-- `reason.strip() if reason else default`
abbrev reason_or : String → String → String
reason_or reason default = if reason == "" then default else strip reason

-- The constructor of `KillSwitchRecord`, whose fields `reason` and `activated_by` refuse "".
unfoldable pub make_record :
    KillSwitchScope → String → String → String → ℕ → Result Error KillSwitchRecord
make_record scope target reason activated_by now =
    if reason == "" || activated_by == ""
    then err validation_error
    else ok (record {
      scope = scope;
      target = target;
      reason = reason;
      activated_by = activated_by;
      activated_at = now;
    })

abbrev store_as :
    (KillSwitchRecord → KillSwitchManager → KillSwitchManager)
    → Result Error KillSwitchRecord
    → Exec Error KillSwitchManager KillSwitchRecord
store_as put (ok switch) m = (ok switch, put switch m)
store_as put (err e) m = (err e, m)

unfoldable pub activate_global : String → String → ℕ → Exec Error KillSwitchManager KillSwitchRecord
activate_global reason by now =
    store_as (λ switch m. record m { global_switch = some switch })
      (make_record global "GLOBAL" (reason_or reason "Unspecified global emergency halt") by now)

unfoldable pub deactivate_global : Exec Error KillSwitchManager Bool
deactivate_global m = (ok (is_some m.global_switch), record m { global_switch = none })

unfoldable pub activate_action_type :
    String → String → String → ℕ → Exec Error KillSwitchManager KillSwitchRecord
activate_action_type key reason by now =
    store_as
      (λ switch m. record m { action_type_switches = insert key switch m.action_type_switches })
      (make_record action_type key (reason_or reason (concat "Halted action type " key)) by now)

unfoldable pub deactivate_action_type : String → Exec Error KillSwitchManager Bool
deactivate_action_type key m = (
  ok (is_some (lookup key m.action_type_switches)),
  record m { action_type_switches = erase key m.action_type_switches },
)

unfoldable pub activate_channel :
    String → String → String → ℕ → Exec Error KillSwitchManager KillSwitchRecord
activate_channel key reason by now =
    store_as (λ switch m. record m { channel_switches = insert key switch m.channel_switches })
      (make_record action_channel key (reason_or reason (concat "Halted channel " key)) by now)

unfoldable pub deactivate_channel : String → Exec Error KillSwitchManager Bool
deactivate_channel key m = (
  ok (is_some (lookup key m.channel_switches)),
  record m { channel_switches = erase key m.channel_switches },
)

unfoldable pub activate_customer :
    String → String → String → ℕ → Exec Error KillSwitchManager KillSwitchRecord
activate_customer customer_id reason by now =
    let key = strip customer_id in
    store_as (λ switch m. record m { customer_switches = insert key switch m.customer_switches })
      (make_record customer key (reason_or reason (concat "Halted customer " key)) by now)

unfoldable pub deactivate_customer : String → Exec Error KillSwitchManager Bool
deactivate_customer customer_id m =
    let key = strip customer_id in
    (
      ok (is_some (lookup key m.customer_switches)),
      record m { customer_switches = erase key m.customer_switches },
    )

unfoldable pub activate_case :
    String → String → String → ℕ → Exec Error KillSwitchManager KillSwitchRecord
activate_case case_id reason by now =
    let key = strip case_id in
    store_as (λ switch m. record m { case_switches = insert key switch m.case_switches })
      (make_record case_scope key (reason_or reason (concat "Halted case " key)) by now)

unfoldable pub deactivate_case : String → Exec Error KillSwitchManager Bool
deactivate_case case_id m =
    let key = strip case_id in
    (
      ok (is_some (lookup key m.case_switches)),
      record m { case_switches = erase key m.case_switches },
    )

-- The arguments of `get_active_switch_record`.
pub record Query : Type 0 where
  pub action_type_value : Option String
  pub channel : Option String
  pub customer_id : Option String
  pub case_id : Option String

-- `switches[key]`, if a key is asked for and is there.
abbrev pub switch_at : Option String → Dict KillSwitchRecord → Option KillSwitchRecord
switch_at none switches = none
switch_at (some key) switches = lookup key switches

abbrev pub stripped : Option String → Option String
stripped none = none
stripped (some s) = some (strip s)

abbrev or_else : Option KillSwitchRecord → Option KillSwitchRecord → Option KillSwitchRecord
or_else (some switch) next = some switch
or_else none next = next

-- The first switch that is hit, from the widest scope to the narrowest.
unfoldable pub get_active_switch_record : Query → KillSwitchManager → Option KillSwitchRecord
get_active_switch_record q m = or_else m.global_switch (
    or_else (switch_at q.action_type_value m.action_type_switches) (
      or_else (switch_at q.channel m.channel_switches) (
        or_else (switch_at (stripped q.customer_id) m.customer_switches)
          (switch_at (stripped q.case_id) m.case_switches))))

unfoldable pub is_active : Query → KillSwitchManager → Bool
unfolding get_active_switch_record
is_active q m = is_some (get_active_switch_record q m)

abbrev refuse : Option KillSwitchRecord → Result Error Bool
refuse none = ok true
refuse (some switch) =
    err (kill_switch_active switch.scope switch.target switch.reason switch.activated_at)

unfoldable pub check_execution_allowed : Query → Exec Error KillSwitchManager Bool
unfolding get_active_switch_record
check_execution_allowed q m = (refuse (get_active_switch_record q m), m)

unfoldable pub reset_all : KillSwitchManager → KillSwitchManager
reset_all m = new
