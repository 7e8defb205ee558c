-- ===== src/Plan/Encode.antt =====
-- The part of a plan that its hash covers, as the object that is hashed: PlanHashInput of
-- packages/protocol/src/types/plan.ts. A member that is absent is left out.
use desired_state_protocol.Common.{Bool, List, [], ◌∷◌, Option, none, some, JsString, js}
use desired_state_protocol.Protocol.Risk.{RiskLevel, low, medium, high, critical}
use desired_state_protocol.Protocol.Value.{
  Value, null, bool, text, array, object, Items, nil, cons, Entries, end, entry, integer,
}
use desired_state_protocol.Protocol.Plan.{
  FieldDiff, PlanChange, PlanSummary, PlanApprovals, ApprovalRequirement, PolicyDecision,
  PolicyEvaluationResult, PolicyEffect, allow, deny, warn, require_approval, ContractCheck,
  PredicateResult, PlanOwnership, OwnershipClaim, ResourceConflict, FieldConflict,
}
use desired_state_protocol.Plan.Diff.{intent_text}

unfoldable items_of : {A : Type 0} → (A → Value) → List A → Items
items_of f [] = nil
items_of f (x ∷ xs) = cons (f x) (items_of f xs)

abbrev list_value : {A : Type 0} → (A → Value) → List A → Value
list_value f xs = array (items_of f xs)

abbrev or_null_of : {A : Type 0} → (A → Value) → Option A → Value
or_null_of f none = null
or_null_of f (some a) = f a

-- A member that may be absent
abbrev if_present : {A : Type 0} → JsString → (A → Value) → Option A → Entries → Entries
if_present key f none rest = rest
if_present key f (some a) rest = entry key (f a) rest

abbrev texts : List JsString → Value
texts = list_value text

unfoldable risk_text : RiskLevel → Value
risk_text low = text (js "low")
risk_text medium = text (js "medium")
risk_text high = text (js "high")
risk_text critical = text (js "critical")

unfoldable effect_text : PolicyEffect → Value
effect_text allow = text (js "allow")
effect_text deny = text (js "deny")
effect_text warn = text (js "warn")
effect_text require_approval = text (js "require_approval")

unfoldable field_value : FieldDiff → Value
field_value field = object (
    entry (js "path") (text field.path) (
      entry (js "before") field.before
        (entry (js "after") field.after (entry (js "immutable") (bool field.immutable) end))))

abbrev same_value : Value → Value
same_value v = v

unfoldable change_value : PlanChange → Value
unfolding intent_text items_of field_value risk_text
change_value change =
    let advice = if_present (js "before") same_value change.before (
      if_present (js "after") same_value change.after (
        if_present (js "path") text change.path
          (if_present (js "blockedBy") text change.blocked_by end))) in
    let effects = entry (js "reversible") (bool change.reversible) (
      entry (js "destructive") (bool change.destructive) (
        entry (js "dependencies") (texts change.dependencies)
          (entry (js "estimatedRisk") (risk_text change.estimated_risk) advice))) in
    object (
      entry (js "id") (text change.id) (
        entry (js "resourceType") (text change.resource_type) (
          entry (js "resourceKey") (text change.resource_key) (
            entry (js "action") (text (intent_text change.action)) (
              entry (js "fields") (list_value field_value change.fields)
                (entry (js "reason") (text change.reason) effects))))))

unfoldable summary_value : PlanSummary → Value
unfolding integer risk_text
summary_value summary = object (
    entry (js "create") (integer summary.create) (
      entry (js "update") (integer summary.update) (
        entry (js "delete") (integer summary.delete) (
          entry (js "replace") (integer summary.replace) (
            entry (js "noop") (integer summary.noop) (
              entry (js "blocked") (integer summary.blocked) (
                entry (js "risk") (risk_text summary.risk)
                  (entry (js "riskScore") (integer summary.risk_score) end))))))))

unfoldable requirement_value : ApprovalRequirement → Value
unfolding integer risk_text
requirement_value requirement = object (
    entry (js "id") (text requirement.id) (
      entry (js "reason") (text requirement.reason) (
        if_present (js "policyId") text requirement.policy_id (
          if_present (js "ruleId") text requirement.rule_id (
            entry (js "minApprovals") (integer requirement.min_approvals)
              (entry (js "risk") (risk_text requirement.risk) end))))))

unfoldable approvals_value : PlanApprovals → Value
unfolding items_of requirement_value
approvals_value approvals = object (
    entry (js "required") (bool approvals.required)
      (entry (js "requirements") (list_value requirement_value approvals.requirements) end))

unfoldable decision_value : PolicyDecision → Value
unfolding effect_text items_of
decision_value decision = object (
    entry (js "policyId") (text decision.policy_id) (
      entry (js "ruleId") (text decision.rule_id) (
        entry (js "effect") (effect_text decision.effect) (
          entry (js "changeIds") (texts decision.change_ids)
            (entry (js "message") (text decision.message) end)))))

unfoldable evaluation_value : PolicyEvaluationResult → Value
unfolding decision_value requirement_value items_of
evaluation_value evaluation = object (
    entry (js "allowed") (bool evaluation.allowed) (
      entry (js "decisions") (list_value decision_value evaluation.decisions) (
        entry (js "requiredApprovals") (list_value requirement_value evaluation.required_approvals)
          end)))

unfoldable predicate_value : PredicateResult → Value
predicate_value predicate = object (
    entry (js "id") (text predicate.id) (
      entry (js "expression") (text predicate.expression) (
        entry (js "satisfied") (bool predicate.satisfied) (
          entry (js "message") (or_null_of text predicate.message)
            (entry (js "error") (or_null_of text predicate.error) end)))))

unfoldable contract_value : ContractCheck → Value
unfolding predicate_value items_of
contract_value contract = object (
    entry (js "goal") (or_null_of text contract.goal) (
      entry (js "predicates") (list_value predicate_value contract.predicates)
        (entry (js "satisfied") (bool contract.satisfied) end)))

unfoldable claim_value : OwnershipClaim → Value
unfolding items_of
claim_value claim = object (
    entry (js "scope") (text claim.scope) (
      entry (js "resourceKey") (text claim.resource_key)
        (entry (js "paths") (texts claim.paths) (entry (js "owner") (text claim.owner) end))))

unfoldable field_conflict_value : FieldConflict → Value
field_conflict_value conflict =
    object (entry (js "path") (text conflict.path) (entry (js "owner") (text conflict.owner) end))

unfoldable conflict_value : ResourceConflict → Value
unfolding field_conflict_value items_of
conflict_value conflict = object (
    entry (js "scope") (text conflict.scope) (
      entry (js "resourceKey") (text conflict.resource_key)
        (entry (js "conflicts") (list_value field_conflict_value conflict.conflicts) end)))

unfoldable ownership_value : PlanOwnership → Value
unfolding claim_value conflict_value items_of
ownership_value ownership = object (
    entry (js "owner") (text ownership.owner) (
      entry (js "claims") (list_value claim_value ownership.claims) (
        entry (js "releases") (list_value claim_value ownership.releases)
          (entry (js "conflicts") (list_value conflict_value ownership.conflicts) end))))

pub record PlanHashInput : Type 0 where
  pub desired_state_hash : JsString
  pub current_state_hash : JsString
  pub policy_bundle_hash : JsString
  pub summary : PlanSummary
  pub changes : List PlanChange
  pub approvals : PlanApprovals
  pub policy_evaluation : PolicyEvaluationResult
  pub contract : Option ContractCheck
  pub ownership : Option PlanOwnership
  pub executable : Bool

abbrev pub dsp_api_version : JsString
dsp_api_version = js "dsp.dev/v1alpha1"

unfoldable pub hash_input_value : PlanHashInput → Value
unfolding summary_value change_value approvals_value evaluation_value contract_value ownership_value
    items_of
hash_input_value input =
    let results = entry (js "policyEvaluation") (evaluation_value input.policy_evaluation) (
      entry (js "contract") (or_null_of contract_value input.contract) (
        entry (js "ownership") (or_null_of ownership_value input.ownership)
          (entry (js "executable") (bool input.executable) end))) in
    object (
      entry (js "apiVersion") (text dsp_api_version) (
        entry (js "kind") (text (js "Plan")) (
          entry (js "desiredStateHash") (text input.desired_state_hash) (
            entry (js "currentStateHash") (text input.current_state_hash) (
              entry (js "policyBundleHash") (text input.policy_bundle_hash) (
                entry (js "summary") (summary_value input.summary) (
                  entry (js "changes") (list_value change_value input.changes)
                    (entry (js "approvals") (approvals_value input.approvals) results))))))))
