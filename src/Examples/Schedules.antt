-- ===== src/Examples/Schedules.antt =====
-- Two obligations of one time, and a case whose freeze is undone.
use mathlib.Core.List.{Perm}
use ai_revenue_recovery.Prelude.{
  ℕ, ◌≤◌, String, Bool, true, false, Option, none, some, List, [], ◌∷◌, ◌≡◌, ◌≢◌, refl, arith, All,
  length, ◌==◌, ◌++◌,
}
use ai_revenue_recovery.Prelude.Sorting.{IsOrdered}
use ai_revenue_recovery.Foundation.Events.{
  ComplianceObligation, mandatory_disclosure, retry_window, consent_check, frozen, RecoveryCase,
}
use ai_revenue_recovery.Governance.Scheduler.{
  ComplianceScheduler, Obligations, at_time, filter, settle, is_due, is_freezable, obligations_of,
  resolve_collisions, freeze_case_obligations, get_pending_obligations, schedule_case_obligations,
  schedule_obligation,
}
use ai_revenue_recovery.Governance.Scheduler.Precedence.{IsResolved, settle-IsResolved}
use ai_revenue_recovery.Governance.Scheduler.Order.{Comes}
use ai_revenue_recovery.Governance.Scheduler.Conservation.{
  identities, pending_at, resolve_collisions-IsConserving,
}
use ai_revenue_recovery.Governance.Scheduler.Freeze.{
  mandatory_ones, freeze_case_obligations-IsFrozen,
}
use ai_revenue_recovery.Governance.Scheduler.Query.{IsDue, scope, get_pending_obligations-IsDue}
use ai_revenue_recovery.Examples.Logs.{runtime}
use ai_revenue_recovery.Examples.Decisions.{case}

abbrev draw : ℕ → String
draw n = "v"

abbrev retry : ComplianceObligation
retry = record {
  obligation_id = "o1";
  case_id = "c1";
  obligation_type = retry_window;
  is_mandatory = false;
  scheduled_time = 5;
  status = "PENDING";
  resolution_reason = none;
  created_at = 1;
}

abbrev disclosure : ComplianceObligation
disclosure = record retry {
  obligation_id = "o2";
  obligation_type = mandatory_disclosure;
  is_mandatory = true;
}

abbrev consent : ComplianceObligation
consent = record retry { obligation_id = "o3"; obligation_type = consent_check }

abbrev pub scheduler : ComplianceScheduler
scheduler = record { store = ("c1", retry ∷ disclosure ∷ []) ∷ []; audit = some [] }

settle-IsResolved_example :
    IsResolved runtime
      (at_time 5 (retry ∷ disclosure ∷ []))
      (settle runtime (at_time 5 (retry ∷ disclosure ∷ [])))
unfolding filter
settle-IsResolved_example = settle-IsResolved runtime 5 (retry ∷ disclosure ∷ []) (omega arith)

resolve_collisions-IsConserving_example :
    let after = (resolve_collisions runtime draw "c1" 7 scheduler).1 in
    Perm (identities (obligations_of "c1" after)) (identities (obligations_of "c1" scheduler))
    × ((time : ℕ) → pending_at runtime time (obligations_of "c1" after) ≤ 1)
    × ((key : String)
        → ("c1" == key) ≡ false
        → obligations_of key after ≡ obligations_of key scheduler)
resolve_collisions-IsConserving_example =
    resolve_collisions-IsConserving runtime draw "c1" 7 scheduler

freeze_case_obligations-IsFrozen_example :
    let after = (freeze_case_obligations runtime draw "c1" 7 scheduler).1 in
    All (λ o. is_freezable o ≡ false) (obligations_of "c1" after)
    × (mandatory_ones (obligations_of "c1" after) ≡ mandatory_ones (obligations_of "c1" scheduler))
    × (identities (obligations_of "c1" after) ≡ identities (obligations_of "c1" scheduler))
    × ((key : String)
        → ("c1" == key) ≡ false
        → obligations_of key after ≡ obligations_of key scheduler)
freeze_case_obligations-IsFrozen_example =
    freeze_case_obligations-IsFrozen runtime draw "c1" 7 scheduler

get_pending_obligations-IsDue_example :
    let found = get_pending_obligations none (some 9) scheduler in
    All (IsDue (some 9)) found
    × IsOrdered Comes found
    × (rest : Obligations) × All (λ o. ¬ IsDue (some 9) o) rest
    × Perm (found ++ rest) (scope none scheduler)
get_pending_obligations-IsDue_example =
    get_pending_obligations-IsDue none (some 9) scheduler (tt, tt)

-- Two obligations that are not mandatory have lost to a disclosure. Once the disclosure is
-- satisfied, scheduling nothing for the frozen case makes one of them PENDING again.
abbrev lost : Obligations
lost =
    record disclosure { status = "SATISFIED" }
    ∷ record retry { status = "COLLISION_RESOLVED" }
    ∷ record consent { status = "COLLISION_RESOLVED" }
    ∷ []

abbrev frozen_case : RecoveryCase
frozen_case = record case { state = frozen }

revived_runs :
    get_pending_obligations
      (some "c1")
      none
      (schedule_case_obligations runtime draw frozen_case [] 7
        (record { store = ("c1", lost) ∷ []; audit = none })).1
    ≡ consent ∷ []
unfolding get_pending_obligations ai_revenue_recovery.Prelude.Sorting.sort
    ai_revenue_recovery.Prelude.Sorting.insert_sorted ai_revenue_recovery.Prelude.Dict.lookup
    schedule_case_obligations ai_revenue_recovery.Prelude.Dict.insert
    ai_revenue_recovery.Governance.Scheduler.not_after
    ai_revenue_recovery.Governance.Scheduler.subordinates
revived_runs = refl
