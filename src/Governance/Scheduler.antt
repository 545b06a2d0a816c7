-- ===== src/Governance/Scheduler.antt =====
-- src/revenue_recovery/governance/scheduler.py. The lock makes each method a single step. The id of
-- the event that becomes entry n of the audit log is drawn at random: the argument `draw` gives it.
pub mod Order
pub mod Precedence
pub mod Grouping
pub mod Conservation
pub mod Freeze
pub mod Query
use ai_revenue_recovery.Prelude.{
  ℕ, String, Bool, true, false, Option, none, some, List, [], ◌∷◌, ◌++◌, ◌==◌, eqb, ltb, leb, not,
  ◌&&◌, ◌||◌, if◌then◌else◌, length,
}
use ai_revenue_recovery.Prelude.Exec.{Result, ok, err, Exec}
use ai_revenue_recovery.Prelude.Dict.{Dict, lookup, insert}
use ai_revenue_recovery.Prelude.Sorting.{leb_text, sort}
use ai_revenue_recovery.Foundation.Errors.{Error, value_error}
use ai_revenue_recovery.Foundation.Events.{
  ComplianceObligation, ObligationType, mandatory_disclosure, cooling_off, retry_window,
  consent_check, obligation_type_value, RecoveryCase, frozen, eq_case_state,
}
use ai_revenue_recovery.Foundation.Value.{Value, text, bool, dict_of}
use ai_revenue_recovery.Foundation.Runtime.{Runtime}
use ai_revenue_recovery.Foundation.Audit.{AuditLog, ◌&◌}
use ai_revenue_recovery.Foundation.Audited.{log_event}

abbrev pub Obligations : Type 0
Obligations = List ComplianceObligation

pub record ComplianceScheduler : Type 0 where
  pub store : Dict Obligations
  pub audit : Option AuditLog

pub record ScheduledObligationPlan : Type 0 where
  pub case_id : String
  pub scheduled_obligations : Obligations
  pub collision_resolutions : Obligations
  pub evaluated_at : ℕ

-- The values of `ObligationStatus`. An obligation's status is a text, which may be another one.
abbrev pub pending_status : String
pending_status = "PENDING"

abbrev pub collision_resolved_status : String
collision_resolved_status = "COLLISION_RESOLVED"

abbrev pub frozen_status : String
frozen_status = "FROZEN"

abbrev pub is_pending : ComplianceObligation → Bool
is_pending o = o.status == pending_status

abbrev pub is_active : ComplianceObligation → Bool
is_active o = o.status == pending_status || o.status == collision_resolved_status

-- `self._store.get(case_id, [])`
abbrev pub or_empty : Option Obligations → Obligations
or_empty none = []
or_empty (some os) = os

abbrev pub obligations_of : String → ComplianceScheduler → Obligations
obligations_of case_id s = or_empty (lookup case_id s.store)

abbrev pub type_rank : ObligationType → ℕ
type_rank mandatory_disclosure = 1
type_rank consent_check = 2
type_rank cooling_off = 3
type_rank retry_window = 4

abbrev pub mandatory_rank : ComplianceObligation → ℕ
mandatory_rank o = if o.is_mandatory then 0 else 1

-- The order of the keys of `_obligation_sort_key`.
unfoldable pub not_after : ComplianceObligation → ComplianceObligation → Bool
not_after a b =
    ltb a.scheduled_time b.scheduled_time
    || eqb a.scheduled_time b.scheduled_time
      && (ltb (mandatory_rank a) (mandatory_rank b)
          || eqb (mandatory_rank a) (mandatory_rank b)
            && (ltb (type_rank a.obligation_type) (type_rank b.obligation_type)
                || eqb (type_rank a.obligation_type) (type_rank b.obligation_type)
                  && leb_text a.obligation_id b.obligation_id))

-- The obligation of that id is replaced, or the new one is appended.
unfoldable pub put : ComplianceObligation → Obligations → Obligations
put o [] = o ∷ []
put o (p ∷ ps) =
    let rest = put o ps in if p.obligation_id == o.obligation_id then o ∷ ps else p ∷ rest

unfoldable pub filter : (ComplianceObligation → Bool) → Obligations → Obligations
filter test [] = []
filter test (o ∷ os) = let rest = filter test os in if test o then o ∷ rest else rest

-- `time_groups[time]`
abbrev pub at_time : ℕ → Obligations → Obligations
at_time time os = filter (λ o. eqb o.scheduled_time time) os

unfoldable pub add_time : ℕ → List ℕ → List ℕ
add_time t [] = t ∷ []
add_time t (u ∷ us) = let rest = add_time t us in if eqb u t then u ∷ us else u ∷ rest

-- The keys of `time_groups`.
unfoldable pub times_of : Obligations → List ℕ
unfolding add_time
times_of [] = []
times_of (o ∷ os) = add_time o.scheduled_time (times_of os)

unfoldable pub made_pending : ComplianceObligation → ComplianceObligation
made_pending o =
    if is_pending o then o else record o { status = pending_status; resolution_reason = none }

unfoldable pub freeze_obligation : ComplianceObligation → ComplianceObligation
freeze_obligation o = record o {
  status = frozen_status;
  resolution_reason = some "Safety freeze triggered on RecoveryCase.";
}

abbrev pub is_freezable : ComplianceObligation → Bool
is_freezable o = is_pending o && not o.is_mandatory

-- What a group, or several, add to the three lists and to the log.
pub record Resolution : Type 0 where
  pub scheduled : Obligations
  pub collisions : Obligations
  pub updated : Obligations
  pub events : Obligations

-- `case_id is None or case_id == ""` asks for all cases.
abbrev pub asked : Option String → List String → List String
asked none keys = keys
asked (some case_id) keys = if case_id == "" then keys else case_id ∷ []

unfoldable pub keys_of : Dict Obligations → List String
keys_of [] = []
keys_of ((k, os) ∷ d) = k ∷ keys_of d

abbrev pub is_due : Option ℕ → ComplianceObligation → Bool
is_due none o = is_pending o
is_due (some as_of) o = is_pending o && leb o.scheduled_time as_of

unfoldable pub collect : Option ℕ → List String → ComplianceScheduler → Obligations
unfolding filter
collect as_of [] s = []
collect as_of (k ∷ ks) s = filter (is_due as_of) (obligations_of k s) ++ collect as_of ks s

unfoldable pub get_pending_obligations :
    Option String → Option ℕ → ComplianceScheduler → Obligations
unfolding collect keys_of
get_pending_obligations case_id as_of s =
    sort not_after (collect as_of (sort leb_text (asked case_id (keys_of s.store))) s)

unfoldable pub is_for : String → Obligations → Bool
is_for case_id [] = true
is_for case_id (o ∷ os) = o.case_id == case_id && is_for case_id os

abbrev pub log_size : Option AuditLog → ℕ
log_size none = 0
log_size (some log) = length log

module _ (rt : Runtime) where
  unfoldable pub subordinate_to : ComplianceObligation → ComplianceObligation → ComplianceObligation
  subordinate_to dominant o = record o {
    status = collision_resolved_status;
    resolution_reason = some (
        "Collision resolved: subordinate to "
        & obligation_type_value dominant.obligation_type
        & " ("
        & dominant.obligation_id
        & ") at "
        & rt.isoformat o.scheduled_time);
  }

  unfoldable pub subordinates : ComplianceObligation → Obligations → Obligations
  unfolding subordinate_to
  subordinates dominant [] = []
  subordinates dominant (o ∷ os) = subordinate_to dominant o ∷ subordinates dominant os

  -- A group of at least two, sorted.
  unfoldable pub collide : Obligations → Resolution
  unfolding made_pending
  collide [] = record { scheduled = []; collisions = []; updated = []; events = [] }
  collide (first ∷ rest) =
      let dominant = made_pending first in
      let resolved = subordinates dominant rest in
      record {
        scheduled = dominant ∷ [];
        collisions = resolved;
        updated = dominant ∷ resolved;
        events = if is_pending first then resolved else dominant ∷ resolved;
      }

  unfoldable pub settle : Obligations → Resolution
  unfolding collide
  settle (o ∷ []) = record { scheduled = o ∷ []; collisions = []; updated = o ∷ []; events = [] }
  settle group = collide (sort not_after group)

  -- The loop over the times of the groups.
  unfoldable pub settle_all : List ℕ → Obligations → Resolution
  unfolding settle filter
  settle_all [] active = record { scheduled = []; collisions = []; updated = []; events = [] }
  settle_all (time ∷ times) active =
      let group = settle (at_time time active) in
      let rest = settle_all times active in
      record {
        scheduled = group.scheduled ++ rest.scheduled;
        collisions = group.collisions ++ rest.collisions;
        updated = group.updated ++ rest.updated;
        events = group.events ++ rest.events;
      }

  abbrev pub resolution_of : Obligations → Resolution
  resolution_of os =
      let active = filter is_active os in settle_all (sort leb (times_of active)) active

  -- The list that `resolve_collisions` stores.
  unfoldable pub resolved : Obligations → Obligations
  unfolding settle_all times_of
  resolved os = (resolution_of os).updated ++ filter (λ o. not (is_active o)) os

module _ (rt : Runtime) (draw : ℕ → String) where
  unfoldable pub obligation_payload : String → ComplianceObligation → ℕ → Value
  obligation_payload event_id o now = dict_of (
      ("event_id", text event_id)
      ∷ ("case_id", text o.case_id)
      ∷ ("obligation_id", text o.obligation_id)
      ∷ ("obligation_type", text (obligation_type_value o.obligation_type))
      ∷ ("is_mandatory", bool o.is_mandatory)
      ∷ ("scheduled_time", text (rt.json_datetime o.scheduled_time))
      ∷ ("status", text o.status)
      ∷ ("occurred_at", text (rt.json_datetime now))
      ∷ [])

  unfoldable pub record_audit_event : ComplianceObligation → ℕ → Option AuditLog → Option AuditLog
  unfolding obligation_payload
  record_audit_event o now audit =
      log_event rt "OBLIGATION_SCHEDULED" (obligation_payload (draw (log_size audit)) o now) now
        audit

  unfoldable pub record_all : Obligations → ℕ → Option AuditLog → Option AuditLog
  unfolding record_audit_event
  record_all [] now audit = audit
  record_all (o ∷ os) now audit = record_all os now (record_audit_event o now audit)

  unfoldable pub schedule_obligation :
      ComplianceObligation → ℕ → ComplianceScheduler → ComplianceScheduler
  unfolding put record_audit_event
  schedule_obligation o now s = record {
    store = insert o.case_id (put o (obligations_of o.case_id s)) s.store;
    audit = record_audit_event o now s.audit;
  }

  unfoldable pub schedule_each : Obligations → ℕ → ComplianceScheduler → ComplianceScheduler
  unfolding schedule_obligation
  schedule_each [] now s = s
  schedule_each (o ∷ os) now s = schedule_each os now (schedule_obligation o now s)

  unfoldable pub freeze_each : Obligations → Obligations
  unfolding freeze_obligation
  freeze_each [] = []
  freeze_each (o ∷ os) = (if is_freezable o then freeze_obligation o else o) ∷ freeze_each os

  unfoldable pub frozen_results : Obligations → Obligations
  unfolding freeze_obligation
  frozen_results [] = []
  frozen_results (o ∷ os) =
      let rest = frozen_results os in if is_freezable o then freeze_obligation o ∷ rest else rest

  unfoldable pub freeze_case_obligations :
      String → ℕ → ComplianceScheduler → Obligations × ComplianceScheduler
  unfolding freeze_each frozen_results record_all
  freeze_case_obligations case_id now s =
      let os = obligations_of case_id s in
      (
        frozen_results os,
        record {
          store = insert case_id (freeze_each os) s.store;
          audit = record_all (frozen_results os) now s.audit;
        },
      )

  abbrev pub plan_of : String → Obligations → ℕ → ScheduledObligationPlan
  plan_of case_id os now =
      let r = resolution_of rt os in
      record {
        case_id = case_id;
        scheduled_obligations = sort not_after r.scheduled;
        collision_resolutions = sort not_after r.collisions;
        evaluated_at = now;
      }

  abbrev pub resolve_found :
      Obligations → String → ℕ → ComplianceScheduler → ScheduledObligationPlan × ComplianceScheduler
  resolve_found [] case_id now s = (plan_of case_id [] now, s)
  resolve_found (o ∷ os) case_id now s = (
    plan_of case_id (o ∷ os) now,
    record {
      store = insert case_id (resolved rt (o ∷ os)) s.store;
      audit = record_all (resolution_of rt (o ∷ os)).events now s.audit;
    },
  )

  unfoldable pub resolve_collisions :
      String → ℕ → ComplianceScheduler → ScheduledObligationPlan × ComplianceScheduler
  unfolding resolved record_all
  resolve_collisions case_id now s = resolve_found (obligations_of case_id s) case_id now s

  abbrev pub frozen_first : RecoveryCase → ℕ → ComplianceScheduler → ComplianceScheduler
  frozen_first case now s =
      if eq_case_state case.state frozen then (freeze_case_obligations case.case_id now s).1 else s

  abbrev returning :
      ScheduledObligationPlan × ComplianceScheduler
      → Result Error ScheduledObligationPlan × ComplianceScheduler
  returning (plan, s) = (ok plan, s)

  unfoldable pub schedule_case_obligations :
      RecoveryCase → Obligations → ℕ → Exec Error ComplianceScheduler ScheduledObligationPlan
  unfolding is_for schedule_each freeze_case_obligations resolve_collisions
  schedule_case_obligations case os now s =
      if is_for case.case_id os
      then returning
          (resolve_collisions case.case_id now (frozen_first case now (schedule_each os now s)))
      else (err value_error, s)
