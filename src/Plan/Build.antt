-- ===== src/Plan/Build.antt =====
-- packages/plan-engine/src/build-plan.ts: the plan of a document and its hash. The ids that findCycle appends to a cycle's message are left out.
pub mod Sealed
pub mod Refined
mod Examples
use desired_state_protocol.Common.{
  ℕ, ◌+◌, ◌*◌, ◌-◌, Bool, true, false, not, ◌&&◌, List, [], ◌∷◌, ◌++◌, map, filter, length, compare,
  Ordering, Option, none, some, JsString, js, str_eq, compare_units, StringMap, lookup,
  from_entries, get_or, ◌==◌, if◌then◌else◌, decimal, is_some,
}
use desired_state_protocol.Protocol.Errors.{
  Result, return, throw, Thrown, dsp, dsp_error, dependency_cycle_detected, provider_error,
}
use desired_state_protocol.Protocol.Results.{◌>>=◌, ◌>>◌, throw_if}
use desired_state_protocol.Protocol.Value.{
  Value, text, array, object, Items, nil, cons, Entries, end, entry, or_null,
}
use desired_state_protocol.Protocol.Plan.{
  ChangeAction, create, update, delete, replace, noop, blocked, action_eq, PlanChange, PlanSummary,
  PlanMetadata, PlanApprovals, DspPlan, PolicyEvaluationResult, ApprovalRequirement, ContractCheck,
  PlanOwnership, ResourceConflict, FieldConflict, ResourceTypeDefinition,
}
use desired_state_protocol.Protocol.Document.{DesiredStateDocument, document_namespace}
use desired_state_protocol.Protocol.Hashes.{plan_id_from_hash}
use desired_state_protocol.Protocol.Canonical.{hash_canonical, canonical_equals}
use desired_state_protocol.Plan.Risk.{PlanRisk, RiskContext, score_plan, with_change_risk}
use desired_state_protocol.Plan.Normalize.{
  ResourceInstance, normalize_projection, compare_strings, texts_value,
}
use desired_state_protocol.Plan.Graph.{Order, ordered, cyclic, topological_order}
use desired_state_protocol.Plan.Diff.{DiffInput, DiffOptions, joined}
use desired_state_protocol.Plan.Changes.{compute_changes, assert_change_limit}
use desired_state_protocol.Plan.Summary.{compare_changes, block_conflicted, summarize}
use desired_state_protocol.Plan.Refinement.{refine_with}
use desired_state_protocol.Plan.Encode.{PlanHashInput, hash_input_value}

pub record ProtocolLimits : Type 0 where
  pub max_document_bytes : ℕ
  pub max_document_depth : ℕ
  pub max_resources : ℕ
  pub max_changes : ℕ
  pub plan_ttl_seconds : ℕ
  pub provider_call_timeout_ms : ℕ

pub record BuildPlanInput : Type 0 where
  pub desired : DesiredStateDocument
  pub desired_projection : List ResourceInstance
  pub current_projection : List ResourceInstance
  pub current_revision : Option JsString
  pub resource_types : StringMap ResourceTypeDefinition
  pub provider : JsString
  pub environment : JsString
  pub policy_bundle_hash : JsString
  pub evaluate_policies : List PlanChange → PlanRisk → PolicyEvaluationResult
  pub contract : Option ContractCheck
  pub ownership : Option PlanOwnership
  pub refine_changes : Option (List PlanChange → Result (List PlanChange))
  pub limits : ProtocolLimits
  pub now : ℕ
  pub options : DiffOptions

unfoldable pub contract_holds : Option ContractCheck → Bool
contract_holds none = true
contract_holds (some contract) = contract.satisfied

abbrev if_text : JsString → Option JsString → Entries → Entries
if_text key none rest = rest
if_text key (some t) rest = entry key (text t) rest

abbrev if_object : JsString → Option Entries → Entries → Entries
if_object key none rest = rest
if_object key (some members) rest = entry key (object members) rest

-- The document as desiredStateHash covers it: without the id of the request
unfoldable pub document_value : DesiredStateDocument → Value
document_value document =
    let metadata = entry (js "name") (text document.metadata.name) (
      if_text (js "namespace") document.metadata.namespace (
        if_object (js "labels") document.metadata.labels
          (if_object (js "annotations") document.metadata.annotations end))) in
    object (
      entry (js "apiVersion") (text document.api_version) (
        entry (js "kind") (text document.kind)
          (entry (js "metadata") (object metadata) (entry (js "spec") document.spec end))))

unfoldable pub in_order : List PlanChange → Result (List PlanChange)
unfolding topological_order compare_changes
in_order changes =
    elim (topological_order (λ c. c.id) (λ c. c.dependencies) compare_changes changes) [
      | ordered sorted ↦ return sorted
      | cyclic ↦
          throw
            (dsp (dsp_error dependency_cycle_detected (js "Resource dependencies form a cycle: ")))
    ]

unfoldable pub is_plan_expired : DspPlan → ℕ → Bool
is_plan_expired plan now = elim (compare plan.metadata.expires_at now) [
  | Ordering.gt ↦ false
  | _ ↦ true
]

unfoldable pub hash_input_of : DspPlan → PlanHashInput
hash_input_of plan = record {
  desired_state_hash = plan.metadata.desired_state_hash;
  current_state_hash = plan.metadata.current_state_hash;
  policy_bundle_hash = plan.metadata.policy_bundle_hash;
  summary = plan.summary;
  changes = plan.changes;
  approvals = plan.approvals;
  policy_evaluation = plan.policy_evaluation;
  contract = plan.contract;
  ownership = plan.ownership;
  executable = plan.executable;
}

unfoldable pub approvals_of : PolicyEvaluationResult → PlanApprovals
approvals_of evaluation = record {
  required = elim evaluation.required_approvals [ [] ↦ false | _ ↦ true ];
  requirements = evaluation.required_approvals;
}

-- What a plan says of its ordered, scored and possibly blocked changes, before it has a hash
unfoldable pub hash_input :
    BuildPlanInput → (desired_hash current_hash : JsString) → List PlanChange → PlanHashInput
unfolding score_plan summarize contract_holds approvals_of
hash_input input desired_hash current_hash changes =
    let context : RiskContext = record {
      environment = input.environment;
      resource_types = input.resource_types;
    } in
    let risk = score_plan changes context in
    let evaluation = input.evaluate_policies changes risk in
    record {
      desired_state_hash = desired_hash;
      current_state_hash = current_hash;
      policy_bundle_hash = input.policy_bundle_hash;
      summary = summarize changes risk;
      changes = changes;
      approvals = approvals_of evaluation;
      policy_evaluation = evaluation;
      contract = input.contract;
      ownership = input.ownership;
      executable = evaluation.allowed && contract_holds input.contract;
    }

unfoldable pub seal : BuildPlanInput → PlanHashInput → JsString → DspPlan
unfolding plan_id_from_hash document_namespace
seal input hashed plan_hash = record {
  metadata = record {
    id = plan_id_from_hash plan_hash;
    created_at = input.now;
    expires_at = input.now + input.limits.plan_ttl_seconds * 1000;
    desired_state_hash = hashed.desired_state_hash;
    current_state_hash = hashed.current_state_hash;
    policy_bundle_hash = hashed.policy_bundle_hash;
    plan_hash = plan_hash;
    kind = input.desired.kind;
    namespace = document_namespace input.desired;
    resource_name = input.desired.metadata.name;
    provider = input.provider;
    current_revision = input.current_revision;
  };
  summary = hashed.summary;
  changes = hashed.changes;
  approvals = hashed.approvals;
  policy_evaluation = hashed.policy_evaluation;
  contract = hashed.contract;
  ownership = hashed.ownership;
  executable = hashed.executable;
}

module _ (number_text : ℕ → JsString) (sha256_hex : JsString → JsString) where
  unfoldable pub compute_plan_hash : DspPlan → Result JsString
  unfolding hash_input_of hash_input_value hash_canonical
  compute_plan_hash plan =
      hash_canonical number_text sha256_hex (hash_input_value (hash_input_of plan))

  unfoldable pub desired_state_hash : DesiredStateDocument → Result JsString
  unfolding document_value hash_canonical
  desired_state_hash document = hash_canonical number_text sha256_hex (document_value document)

  -- The plan's contents, before they are hashed
  unfoldable pub draft : BuildPlanInput → Result PlanHashInput
  unfolding normalize_projection compute_changes assert_change_limit in_order refine_with
      with_change_risk block_conflicted hash_input desired_state_hash
  draft input = do
    desired ← normalize_projection number_text sha256_hex input.desired_projection
    current ← normalize_projection number_text sha256_hex input.current_projection
    changes ← compute_changes number_text sha256_hex (record {
      desired = desired.resources;
      current = current.resources;
      resource_types = input.resource_types;
      options = input.options;
    })
    assert_change_limit changes input.limits.max_changes
    sorted ← in_order changes
    refined ← refine_with number_text input.refine_changes sorted
    let context : RiskContext = record {
      environment = input.environment;
      resource_types = input.resource_types;
    }
    let owned = block_conflicted (with_change_risk refined context) input.ownership
    desired_hash ← desired_state_hash input.desired
    return (hash_input input desired_hash current.hash owned)

  unfoldable pub build_plan : BuildPlanInput → Result DspPlan
  unfolding draft seal hash_canonical hash_input_value
  build_plan input = do
    hashed ← draft input
    plan_hash ← hash_canonical number_text sha256_hex (hash_input_value hashed)
    return (seal input hashed plan_hash)
