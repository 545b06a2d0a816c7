-- ===== src/Governance/Policy/Verdict.antt =====
-- When a policy allows a decision, and in which order it weighs its rules.
use ai_revenue_recovery.Prelude.{
  ℕ, ◌≤◌, String, Bool, true, false, Option, none, some, List, [], ◌∷◌, ◌≡◌, ◌⊎◌, ◌↔◌, inl, inr,
  refl, ap, arith, Bool-cases, if◌then◌else◌, All, map,
}
use mathlib.Core.List.{Perm}
use mathlib.Core.List.Perm
use ai_revenue_recovery.Prelude.Dict.{lookup}
use ai_revenue_recovery.Prelude.Sorting.{
  IsOrdered, sort, All-sort, All-of-sort, sort-Perm, sort-IsOrdered,
}
use ai_revenue_recovery.Foundation.Events.{RecoveryCase}
use ai_revenue_recovery.Foundation.Runtime.{Runtime}
use ai_revenue_recovery.Foundation.Audited.{log_event}
use ai_revenue_recovery.Recovery.Diagnosis.{DiagnosisResult}
use ai_revenue_recovery.AiDecision.Artifacts.{DecisionArtifact}
use ai_revenue_recovery.Governance.Policy.Model.{
  Policy, PolicyRule, RuleEvaluationResult, PolicyEvaluationResult, PolicyLifecycleState, approved,
  stage, production, tier_precedence,
}
use ai_revenue_recovery.Governance.Policy.Rules.{breaks, evaluate_rule}
use ai_revenue_recovery.Governance.Policy.{
  PolicyEngine, active, not_after, is_executable, is_empty, evaluate_rules, refused, decided,
  inactive, evaluated_payload, record_audit_event, evaluate_found, target_of, evaluate,
}

-- The lifecycle states that can authorize an execution.
abbrev pub IsExecutable : PolicyLifecycleState → Type 0
IsExecutable l = (l ≡ production) ⊎ ((l ≡ stage) ⊎ (l ≡ approved))

is_executable_iff : (l : PolicyLifecycleState) → (is_executable l ≡ true) ↔ IsExecutable l
is_executable_iff l = (λ h. ground arith, λ h. ground arith)

module _ (rt : Runtime) (case : RecoveryCase) (diagnosis : DiagnosisResult)
    (decision : DecisionArtifact) where
  -- An active rule holds.
  abbrev pub Holds : PolicyRule → Type 0
  Holds rule = rule.is_active ≡ true → breaks case diagnosis decision rule.rule_id ≡ false

  abbrev Kept : PolicyRule → Type 0
  Kept rule = breaks case diagnosis decision rule.rule_id ≡ false

  evaluate_rules_iff :
      (rules : List PolicyRule)
      → (is_empty (evaluate_rules rt case diagnosis decision rules).1 ≡ true) ↔ All Kept rules
  unfolding evaluate_rules evaluate_rule
  evaluate_rules_iff [] = (λ h. tt, λ h. refl)
  evaluate_rules_iff (rule ∷ rules) =
      (λ h. ground (arith, evaluate_rules_iff rules), λ h. ground (arith, evaluate_rules_iff rules))

  cons_if_iff :
      (b : Bool) (rule : PolicyRule) (rules : List PolicyRule)
      → All Kept (if b then rule ∷ rules else rules) ↔ ((b ≡ true → Kept rule) × All Kept rules)
  cons_if_iff true rule rules = (λ h. (λ e. h.0, h.1), λ h. (h.0 refl, h.1))
  cons_if_iff false rule rules = (λ h. (λ e. ground arith, h), λ h. h.1)

  active_iff : (rules : List PolicyRule) → All Kept (active rules) ↔ All Holds rules
  unfolding active
  active_iff [] = (λ h. tt, λ h. tt)
  active_iff (rule ∷ rules) =
      let kept = cons_if_iff rule.is_active rule (active rules) in
      (
        λ h. ((kept.0 h).0, (active_iff rules).0 (kept.0 h).1),
        λ h. kept.1 (h.0, (active_iff rules).1 h.1),
      )

  decided_iff :
      (p : Policy) (now : ℕ)
      → ((decided rt case diagnosis decision p now).is_allowed ≡ true) ↔ All Holds p.rules
  unfolding decided
  decided_iff p now =
      let rules = evaluate_rules_iff (sort not_after (active p.rules)) in
      let kept = active_iff p.rules in
      (
        λ h. kept.0 (All-of-sort not_after Kept (active p.rules) (rules.0 h)),
        λ h. rules.1 (All-sort not_after Kept (active p.rules) (kept.1 h)),
      )

  -- What is asked of the policy that a decision is held against, where one is registered.
  abbrev pub Permits : Option Policy → Type 0
  Permits none = ⊥
  Permits (some p) = IsExecutable p.lifecycle_state × All Holds p.rules

  module _ (event_id : String) (now : ℕ) (s : PolicyEngine) where
    abbrev found_run : Option Policy → String → PolicyEvaluationResult × PolicyEngine
    found_run found target = evaluate_found rt found event_id case diagnosis decision target now s

    found_iff :
        (found : Option Policy) (target : String)
        → ((found_run found target).0.is_allowed ≡ true) ↔ Permits found
    unfolding refused inactive
    found_iff none target = (λ h. ground arith, λ h. absurd h)
    found_iff (some p) target = elim (Bool-cases (is_executable p.lifecycle_state)) [
      | inl e ↦ rw e (
          (
            λ h. ((is_executable_iff p.lifecycle_state).0 e, (decided_iff p now).0 h),
            λ h. (decided_iff p now).1 h.1,
          ))
      | inr e ↦
          rw e ((λ h. ground arith, λ h. ground (arith, is_executable_iff p.lifecycle_state, h.0)))
    ]

    -- Every result of a registered policy is logged, and nothing else changes.
    abbrev pub Logs : Option Policy → PolicyEvaluationResult × PolicyEngine → Type 0
    Logs none (r, after) = after ≡ s
    Logs (some p) (r, after) = after ≡ record s {
      audit = log_event rt "POLICY_EVALUATED" (evaluated_payload rt event_id r now) now s.audit;
    }

    found-Logs : (found : Option Policy) (target : String) → Logs found (found_run found target)
    unfolding record_audit_event
    found-Logs none target = refl
    found-Logs (some p) target = elim (Bool-cases (is_executable p.lifecycle_state)) [
      | inl e ↦ rw e refl
      | inr e ↦ rw e refl
    ]

    -- A decision is allowed exactly if the policy asked for, or the default one, is registered, is
    -- in PRODUCTION, STAGE or APPROVED, and none of its active rules is broken. The evaluation of a
    -- registered policy is logged with its result; of an unknown one it is not.
    pub evaluate-Permits :
        (policy_id : Option String)
        → (((evaluate rt event_id case diagnosis decision policy_id now s).0.is_allowed ≡ true)
            ↔ Permits (lookup (target_of rt policy_id) s.policies))
          × Logs
              (lookup (target_of rt policy_id) s.policies)
              (evaluate rt event_id case diagnosis decision policy_id now s)
    unfolding evaluate
    evaluate-Permits policy_id = (found_iff _ _, found-Logs _ _)

  abbrev pub ids_of : List PolicyRule → List String
  ids_of = map (λ r. r.rule_id)

  abbrev pub result_ids : List RuleEvaluationResult → List String
  result_ids = map (λ r. r.rule_id)

  abbrev pub TierOrdered : List RuleEvaluationResult → Type 0
  TierOrdered = IsOrdered (λ a b. tier_precedence a.rule_tier ≤ tier_precedence b.rule_tier)

  evaluate_rules-ids :
      (rules : List PolicyRule)
      → result_ids (evaluate_rules rt case diagnosis decision rules).0 ≡ ids_of rules
  unfolding evaluate_rules evaluate_rule
  evaluate_rules-ids [] = refl
  evaluate_rules-ids (rule ∷ rules) = ap (rule.rule_id ∷◌) (evaluate_rules-ids rules)

  below_all :
      (n : ℕ) (rules : List PolicyRule)
      → All (λ r. n ≤ tier_precedence r.tier) rules
      → All
          (λ r. n ≤ tier_precedence r.rule_tier)
          (evaluate_rules rt case diagnosis decision rules).0
  unfolding evaluate_rules evaluate_rule
  below_all n [] h = tt
  below_all n (rule ∷ rules) h = (h.0, below_all n rules h.1)

  evaluate_rules-TierOrdered :
      (rules : List PolicyRule)
      → IsOrdered (λ a b. tier_precedence a.tier ≤ tier_precedence b.tier) rules
      → TierOrdered (evaluate_rules rt case diagnosis decision rules).0
  unfolding evaluate_rules evaluate_rule
  evaluate_rules-TierOrdered [] h = tt
  evaluate_rules-TierOrdered (rule ∷ rules) h =
      (below_all (tier_precedence rule.tier) rules h.0, evaluate_rules-TierOrdered rules h.1)

  -- The results of a policy come in the order of the tiers, one for each active rule.
  pub decided-TierOrdered :
      (p : Policy) (now : ℕ)
      → TierOrdered (decided rt case diagnosis decision p now).rule_results
        × Perm
            (result_ids (decided rt case diagnosis decision p now).rule_results)
            (ids_of (active p.rules))
  unfolding decided
  decided-TierOrdered p now = (
    evaluate_rules-TierOrdered (sort not_after (active p.rules)) (
        sort-IsOrdered not_after (λ a b. tier_precedence a.tier ≤ tier_precedence b.tier)
          (λ a b c h k. omega arith) (λ a b h. ground arith) (λ a b h. ground arith)
          (active p.rules)),
    rw (evaluate_rules-ids (sort not_after (active p.rules)))
        (Perm.map (λ r. r.rule_id) (sort-Perm not_after (active p.rules))),
  )
