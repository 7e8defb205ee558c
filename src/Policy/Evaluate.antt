-- ===== src/Policy/Evaluate.antt =====
-- packages/policy-engine/src/evaluate.ts. The digest of node:crypto is a parameter.
use desired_state_protocol.Common.{
  ℕ, Bool, true, false, List, [], ◌∷◌, ◌++◌, filter, map, length, ltb, take, Option, none, some,
  JsString, js, decimal, StringMap, insert, values, includes, compare_units, sort_by, get_or, ◌==◌,
  if◌then◌else◌,
}
use desired_state_protocol.Protocol.Risk.{RiskLevel, max_risk}
use desired_state_protocol.Protocol.Plan.{
  PlanChange, PolicyEffect, allow, deny, warn, require_approval, PolicyDecision,
  ApprovalRequirement, PolicyEvaluationResult,
}
use desired_state_protocol.Plan.Risk.{PlanRisk}
use desired_state_protocol.Policy.Match.{
  PolicyRule, PolicyRuleConstraints, PolicyDocument, PolicyEvaluationContext,
  condition_matches_context, condition_matches_change, effective_changes,
}

pub record EvaluateInput : Type 0 where
  pub changes : List PlanChange
  pub risk : PlanRisk
  pub context : PolicyEvaluationContext

abbrev quoted_rule : PolicyRule → JsString
quoted_rule rule = js "Rule \"" ++ (rule.id ++ js "\"")

-- `limit !== undefined && count > limit`
unfoldable pub exceeds : Option ℕ → ℕ → Bool
exceeds none count = false
exceeds (some limit) count = ltb limit count

unfoldable pub constraint_violation :
    PolicyRule → PolicyRuleConstraints → List PlanChange → List PlanChange → Option JsString
unfolding exceeds decimal
constraint_violation rule constraints matched candidates =
    if exceeds constraints.max_changes (length matched)
    then some (
        quoted_rule rule
        ++ (js " allows at most "
            ++ (decimal (get_or constraints.max_changes 0)
                ++ (js " matching change(s), plan has " ++ decimal (length matched)))))
    else if exceeds constraints.max_total_changes (length candidates)
    then some (
        quoted_rule rule
        ++ (js " allows at most "
            ++ (decimal (get_or constraints.max_total_changes 0)
                ++ (js " change(s) in a plan, plan has " ++ decimal (length candidates)))))
    else none

unfoldable pub default_message : PolicyRule → ℕ → JsString
unfolding decimal
default_message rule matched_count = quoted_rule rule ++ (verb rule.effect ++ js " change(s)")
  where
    verb : PolicyEffect → JsString
    verb deny = js " denies " ++ decimal matched_count
    verb require_approval = js " requires approval for " ++ decimal matched_count
    verb warn = js " flagged " ++ decimal matched_count
    verb allow = js " explicitly allows " ++ decimal matched_count

unfoldable pub decision_of :
    PolicyDocument → PolicyRule → List PlanChange → JsString → PolicyDecision
decision_of policy rule matched message = record {
  policy_id = policy.name;
  rule_id = rule.id;
  effect = rule.effect;
  change_ids = map (λ c. c.id) matched;
  message = get_or rule.message message;
}

-- The decision on a violated constraint, if one is
unfoldable pub violation_decision :
    PolicyDocument → PolicyRule → List PlanChange → Option JsString → Option PolicyDecision
unfolding decision_of
violation_decision policy rule matched none = none
violation_decision policy rule matched (some violation) =
    some (decision_of policy rule matched violation)

-- The part of `evaluateRule` behind the context's test, by the rule's constraints
unfoldable pub evaluate_matched :
    PolicyDocument
    → PolicyRule
    → List PlanChange
    → List PlanChange
    → Option PolicyRuleConstraints
    → Option PolicyDecision
unfolding constraint_violation default_message decision_of violation_decision
evaluate_matched policy rule matched candidates (some constraints) =
    violation_decision policy rule matched
      (constraint_violation rule constraints matched candidates)
evaluate_matched policy rule matched candidates none =
    if length matched == 0
    then none
    else some (decision_of policy rule matched (default_message rule (length matched)))

unfoldable pub evaluate_rule :
    PolicyDocument → PolicyRule → List PlanChange → EvaluateInput → Option PolicyDecision
unfolding condition_matches_context condition_matches_change evaluate_matched
evaluate_rule policy rule candidates input =
    if condition_matches_context rule.when input.context
    then evaluate_matched policy rule (filter (condition_matches_change rule.when) candidates)
        candidates rule.constraints
    else none

unfoldable pub sorted_policies : List PolicyDocument → List PolicyDocument
unfolding sort_by compare_units
sorted_policies policies = sort_by (λ a b. compare_units a.name b.name) policies

-- `risk` of an approval: the highest of the matched changes, or that of the plan if none matched
unfoldable pub approval_risk : List PlanChange → RiskLevel → RiskLevel
unfolding max_risk
approval_risk [] plan_level = plan_level
approval_risk (c ∷ cs) plan_level = max_risk (map (λ x. x.estimated_risk) (c ∷ cs))

-- The state of the loops of `evaluatePolicies`
pub record Tally : Type 0 where
  pub decisions : List PolicyDecision
  pub approvals : StringMap ApprovalRequirement
  pub allowed : Bool

module _ (sha256_hex : JsString → JsString) where
  -- packages/protocol/src/ids.ts
  unfoldable pub approval_requirement_id : JsString → JsString
  approval_requirement_id scope = js "apr_" ++ take 16 (sha256_hex scope)

  unfoldable pub to_approval_requirement :
      PolicyDocument
      → PolicyRule
      → PolicyDecision
      → List PlanChange
      → EvaluateInput
      → ApprovalRequirement
  unfolding approval_requirement_id approval_risk includes
  to_approval_requirement policy rule decision candidates input = record {
    id = approval_requirement_id (policy.name ++ (js "/" ++ rule.id));
    reason = decision.message;
    policy_id = some policy.name;
    rule_id = some rule.id;
    min_approvals = get_or rule.min_approvals 1;
    risk =
        approval_risk (filter (λ c. includes decision.change_ids c.id) candidates) input.risk.level;
  }

  -- What a decision adds to the tally, by its effect
  unfoldable pub tally_decision :
      PolicyDocument
      → PolicyRule
      → List PlanChange
      → EvaluateInput
      → Tally
      → PolicyDecision
      → PolicyEffect
      → Tally
  unfolding to_approval_requirement insert
  tally_decision policy rule candidates input tally decision deny = record tally {
    decisions = tally.decisions ++ decision ∷ [];
    allowed = false;
  }
  tally_decision policy rule candidates input tally decision require_approval =
      let requirement = to_approval_requirement policy rule decision candidates input in
      record tally {
        decisions = tally.decisions ++ decision ∷ [];
        approvals = insert requirement.id requirement tally.approvals;
      }
  tally_decision policy rule candidates input tally decision _ = record tally {
    decisions = tally.decisions ++ decision ∷ [];
  }

  -- A round of the inner loop
  unfoldable pub tally_rule :
      PolicyDocument → List PlanChange → EvaluateInput → Tally → PolicyRule → Tally
  unfolding evaluate_rule tally_decision
  tally_rule policy candidates input tally rule =
      elim (evaluate_rule policy rule candidates input) [
        | none ↦ tally
        | some decision ↦ tally_decision policy rule candidates input tally decision decision.effect
      ]

  unfoldable pub tally_rules :
      PolicyDocument → List PlanChange → EvaluateInput → Tally → List PolicyRule → Tally
  unfolding tally_rule
  tally_rules policy candidates input tally [] = tally
  tally_rules policy candidates input tally (rule ∷ rules) =
      tally_rules policy candidates input (tally_rule policy candidates input tally rule) rules

  unfoldable pub tally_policies :
      List PlanChange → EvaluateInput → Tally → List PolicyDocument → Tally
  unfolding tally_rules
  tally_policies candidates input tally [] = tally
  tally_policies candidates input tally (policy ∷ policies) =
      tally_policies candidates input (tally_rules policy candidates input tally policy.rules)
        policies

  unfoldable pub evaluate_policies : List PolicyDocument → EvaluateInput → PolicyEvaluationResult
  unfolding tally_policies sorted_policies effective_changes sort_by compare_units
  evaluate_policies bundle input =
      let start : Tally = record { decisions = []; approvals = []; allowed = true } in
      let tally =
        tally_policies (effective_changes input.changes) input start (sorted_policies bundle) in
      record {
        allowed = tally.allowed;
        decisions = tally.decisions;
        required_approvals = sort_by (λ a b. compare_units a.id b.id) (values tally.approvals);
      }
