-- ===== src/Governance/Policy.antt =====
-- src/revenue_recovery/governance/policy_engine.py. Its models are in Policy/Model and the
-- evaluation of a single rule in Policy/Rules.
pub mod Model
pub mod Rules
pub mod Verdict
pub mod Safety
pub mod Agreement
use ai_revenue_recovery.Prelude.{
  ℕ, String, Bool, true, false, Option, none, some, List, [], ◌∷◌, ◌==◌, eqb, ltb, ◌&&◌, ◌||◌,
  if◌then◌else◌,
}
use ai_revenue_recovery.Prelude.Dict.{Dict, lookup, insert}
use ai_revenue_recovery.Prelude.Sorting.{leb_text, sort}
use ai_revenue_recovery.Foundation.Events.{RecoveryCase}
use ai_revenue_recovery.Foundation.Value.{Value, Items, nil, cons, text, bool, list, dict_of}
use ai_revenue_recovery.Foundation.Runtime.{Runtime}
use ai_revenue_recovery.Foundation.Audit.{AuditLog, ◌&◌}
use ai_revenue_recovery.Foundation.Audited.{log_event}
use ai_revenue_recovery.Recovery.Diagnosis.{DiagnosisResult}
use ai_revenue_recovery.AiDecision.Artifacts.{DecisionArtifact}
use ai_revenue_recovery.Governance.Policy.Model.{
  Policy, PolicyRule, RuleEvaluationResult, PolicyEvaluationResult, PolicyLifecycleState, approved,
  stage, production, lifecycle_value, tier_precedence, default_standard_policy,
}
use ai_revenue_recovery.Governance.Policy.Rules.{evaluate_rule}

pub record PolicyEngine : Type 0 where
  pub policies : Dict Policy
  pub audit : Option AuditLog

-- `policy_registry.values()`, each under its own id
unfoldable pub load : List Policy → Dict Policy → Dict Policy
load [] loaded = loaded
load (p ∷ ps) loaded = load ps (insert p.policy_id p loaded)

-- The constructor: an empty registry stands for the default policy.
unfoldable pub new : Dict Policy → Option AuditLog → PolicyEngine
unfolding load
new [] audit = record {
  policies = (default_standard_policy.policy_id, default_standard_policy) ∷ [];
  audit = audit;
}
new ((k, p) ∷ ps) audit = record { policies = load (values ((k, p) ∷ ps)) []; audit = audit }
  where
    values : Dict Policy → List Policy
    values [] = []
    values ((k, p) ∷ ps) = p ∷ values ps

unfoldable pub register_policy : Policy → PolicyEngine → PolicyEngine
register_policy p s = record s { policies = insert p.policy_id p s.policies }

unfoldable pub get_policy : String → PolicyEngine → Option Policy
get_policy policy_id s = lookup policy_id s.policies

abbrev pub is_executable : PolicyLifecycleState → Bool
is_executable production = true
is_executable stage = true
is_executable approved = true
is_executable _ = false

-- `[r for r in policy.rules if r.is_active]`
unfoldable pub active : List PolicyRule → List PolicyRule
active [] = []
active (r ∷ rs) = let rest = active rs in if r.is_active then r ∷ rest else rest

-- The order of the keys `(tier, rule_id)`.
abbrev pub not_after : PolicyRule → PolicyRule → Bool
not_after a b =
    ltb (tier_precedence a.tier) (tier_precedence b.tier)
    || eqb (tier_precedence a.tier) (tier_precedence b.tier) && leb_text a.rule_id b.rule_id

-- `res.violation_reason or rule.rule_id`
abbrev pub reason_or : Option String → String → String
reason_or none rule_id = rule_id
reason_or (some reason) rule_id = if reason == "" then rule_id else reason

abbrev pub is_empty : List String → Bool
is_empty [] = true
is_empty (s ∷ ss) = false

unfoldable pub texts : List String → Items
texts [] = nil
texts (s ∷ ss) = cons (text s) (texts ss)

module _ (rt : Runtime) (case : RecoveryCase) (diagnosis : DiagnosisResult)
    (decision : DecisionArtifact) where
  -- The loop over the sorted rules, with the lists that it appends to.
  unfoldable pub evaluate_rules : List PolicyRule → List RuleEvaluationResult × List String
  evaluate_rules [] = ([], [])
  evaluate_rules (rule ∷ rules) =
      let result = evaluate_rule rt case diagnosis decision rule in
      let rest = evaluate_rules rules in
      (
        result ∷ rest.0,
        if result.is_compliant
            then rest.1
            else reason_or result.violation_reason rule.rule_id ∷ rest.1,
      )

  unfoldable pub refused : String → String → String → ℕ → PolicyEvaluationResult
  refused policy_id version violation now = record {
    case_id = case.case_id;
    policy_id = policy_id;
    policy_version = version;
    is_allowed = false;
    violated_rules = violation ∷ [];
    rule_results = [];
    evaluated_at = now;
  }

  unfoldable pub decided : Policy → ℕ → PolicyEvaluationResult
  decided policy now =
      let found = evaluate_rules (sort not_after (active policy.rules)) in
      record {
        case_id = case.case_id;
        policy_id = policy.policy_id;
        policy_version = policy.version;
        is_allowed = is_empty found.1;
        violated_rules = found.1;
        rule_results = found.0;
        evaluated_at = now;
      }

  unfoldable pub inactive : Policy → ℕ → PolicyEvaluationResult
  inactive policy now =
      refused policy.policy_id policy.version
        ("INACTIVE_POLICY_LIFECYCLE: Policy '"
          & policy.policy_id
          & "' is in state '"
          & lifecycle_value policy.lifecycle_state
          & "', which is not authorized for execution.")
        now

module _ (rt : Runtime) where
  unfoldable pub evaluated_payload : String → PolicyEvaluationResult → ℕ → Value
  evaluated_payload event_id r now = dict_of (
      ("event_id", text event_id)
      ∷ ("case_id", text r.case_id)
      ∷ ("policy_id", text r.policy_id)
      ∷ ("policy_version", text r.policy_version)
      ∷ ("is_allowed", bool r.is_allowed)
      ∷ ("violated_rules", list (texts r.violated_rules))
      ∷ ("occurred_at", text (rt.json_datetime now))
      ∷ [])

  unfoldable pub record_audit_event :
      String → PolicyEvaluationResult → ℕ → PolicyEngine → PolicyEngine
  record_audit_event event_id r now s = record s {
    audit = log_event rt "POLICY_EVALUATED" (evaluated_payload event_id r now) now s.audit;
  }

  abbrev pub recorded :
      String → PolicyEvaluationResult → ℕ → PolicyEngine → PolicyEvaluationResult × PolicyEngine
  recorded event_id r now s = (r, record_audit_event event_id r now s)

  abbrev pub evaluate_found :
      Option Policy
      → String
      → RecoveryCase
      → DiagnosisResult
      → DecisionArtifact
      → String
      → ℕ
      → PolicyEngine
      → PolicyEvaluationResult × PolicyEngine
  evaluate_found none event_id case diagnosis decision target now s = (
    refused rt case diagnosis decision target "UNKNOWN"
        ("POLICY_NOT_FOUND: Policy '" & target & "' is not registered.") now,
    s,
  )
  evaluate_found (some policy) event_id case diagnosis decision target now s =
      if is_executable policy.lifecycle_state
      then recorded event_id (decided rt case diagnosis decision policy now) now s
      else recorded event_id (inactive rt case diagnosis decision policy now) now s

  -- `policy_id or DEFAULT_STANDARD_POLICY.policy_id`
  abbrev pub target_of : Option String → String
  target_of none = default_standard_policy.policy_id
  target_of (some policy_id) =
      if policy_id == "" then default_standard_policy.policy_id else policy_id

  -- `evaluate`; it never raises.
  unfoldable pub evaluate :
      String
      → RecoveryCase
      → DiagnosisResult
      → DecisionArtifact
      → Option String
      → ℕ
      → PolicyEngine
      → PolicyEvaluationResult × PolicyEngine
  evaluate event_id case diagnosis decision policy_id now s =
      let target = target_of policy_id in
      evaluate_found (lookup target s.policies) event_id case diagnosis decision target now s
