-- ===== src/Runtime/Planning.antt =====
-- packages/core/src/runtime.ts: the planning of a document. The check of the document that stands
-- before it and the redaction of the plan that is returned are parameters.
pub mod Filed
use desired_state_protocol.Common.{
  ℕ, Bool, true, false, not, ◌&&◌, List, [], ◌∷◌, ◌++◌, map, length, max, ltb, Option, none, some,
  JsString, js, str_eq, unique, sort_by, compare_units, get_or, decimal, if◌then◌else◌,
}
use desired_state_protocol.Protocol.Errors.{Result, return, throw, DspErrorCode}
use desired_state_protocol.Protocol.Risk.{Actor}
use desired_state_protocol.Protocol.Document.{
  DesiredStateDocument, DesiredStateContract, document_namespace, document_identity,
}
use desired_state_protocol.Protocol.Plan.{
  DspPlan, OwnershipClaim, PlanChange, ContractCheck, ownership_scope, field_owner_for,
}
use desired_state_protocol.Audit.Chain.{AuditAction, AuditOutcome}
use desired_state_protocol.Plan.Normalize.{
  ResourceInstance, NormalizedResource, normalize_projection,
}
use desired_state_protocol.Plan.Ownership.{ResolveOwnershipInput, resolve_ownership}
use desired_state_protocol.Plan.Build.{BuildPlanInput, build_plan}
use desired_state_protocol.Policy.Evaluate.{evaluate_policies}
use desired_state_protocol.Store.Rows.{PlanRecord, PlanOptions, get_plan, save_plan, ownership_for}
use desired_state_protocol.Runtime.State.{
  Runtime, Run, Provider, CurrentState, Recorded, ◌>>=◌, ◌>>◌, pure, call, read_store, write_store,
  ask, audit, fail,
}
use desired_state_protocol.Runtime.Gates.{check, read_now, policy_context}
use desired_state_protocol.Runtime.Parts.{preserve_validity_window}

pub record PlanInput : Type 0 where
  pub actor : Actor
  pub request_id : Option JsString
  pub options : PlanOptions

-- `flag === true`, `flag === false`
abbrev is_true : Option Bool → Bool
is_true flag = get_or flag false

abbrev is_false : Option Bool → Bool
is_false flag = not (get_or flag true)

unfoldable pub resource_keys_in_play : (desired current : List ResourceInstance) → List JsString
unfolding unique sort_by compare_units
resource_keys_in_play desired current =
    sort_by compare_units (unique str_eq (map (λ r. r.key) desired ++ map (λ r. r.key) current))

unfoldable pub plan_event : PlanInput → DesiredStateDocument → DspPlan → Recorded
unfolding document_identity
plan_event input document plan = record {
  actor = input.actor;
  action = AuditAction.plan_create;
  outcome = if plan.executable then AuditOutcome.success else AuditOutcome.blocked;
  resource_type = some document.kind;
  resource_key = some (document_identity document);
  plan_id = some plan.metadata.id;
  operation_id = none;
  request_id = input.request_id;
}

-- The provider's refinement of a plan, where it has one
unfoldable pub refinement_of :
    Provider
    → DesiredStateDocument
    → CurrentState
    → Option (List PlanChange → Result (List PlanChange))
refinement_of provider document current = elim provider.refine [
  | none ↦ none
  | some refine ↦ some (refine document current)
]

module _ (runtime : Runtime) where
  unfoldable pub assert_options : PlanOptions → Run (Unit {0})
  assert_options options = do
    call (
        check (not (is_false options.refresh_current_state)) DspErrorCode.not_implemented (
          js "This runtime has no current-state cache; refreshCurrentState:false is not supported"))
    call (
        check (not (is_true options.allow_delete && not runtime.config.allow_destructive))
          DspErrorCode.destructive_action_blocked
          (js
            "This runtime is configured to refuse deletions; allowDelete cannot be enabled per request"))

  unfoldable pub assert_resource_limits :
      (desired current : List ResourceInstance) → Result (Unit {0})
  unfolding decimal
  assert_resource_limits desired current =
      let total = max (length desired) (length current) in
      let limit = runtime.config.limits.max_resources in
      check (not (ltb limit total)) DspErrorCode.too_many_resources (
        js "Projection contains "
        ++ (decimal total ++ (js " resources, limit is " ++ decimal limit)))

  unfoldable pub declared_contract :
      Option DesiredStateContract → List ResourceInstance → Result (Option ContractCheck)
  declared_contract none projection = return none
  declared_contract (some contract) projection =
      elim (runtime.evaluate_predicates contract.goal contract.constraints projection) [
        | return verdict ↦ return (some verdict)
        | throw e ↦ throw e
      ]

  unfoldable pub build_input :
      PlanInput
      → DesiredStateDocument
      → Provider
      → CurrentState
      → (desired_projection current_projection : List ResourceInstance) → List NormalizedResource
      → List OwnershipClaim
      → Option ContractCheck
      → ℕ
      → BuildPlanInput
  unfolding field_owner_for ownership_scope resolve_ownership evaluate_policies policy_context
      refinement_of document_namespace
  build_input input document provider current desired_projection current_projection desired snapshot
        contract time =
      let owner =
        field_owner_for document.kind (document_namespace document) document.metadata.name in
      record {
        desired = document;
        desired_projection = desired_projection;
        current_projection = current_projection;
        current_revision = current.revision;
        resource_types = runtime.resource_types;
        provider = provider.name;
        environment = runtime.config.environment;
        policy_bundle_hash = runtime.policy_bundle_hash;
        evaluate_policies = λ changes risk.
            evaluate_policies runtime.sha256_hex runtime.policy_bundle (record {
              changes = changes;
              risk = risk;
              context = policy_context runtime document;
            });
        contract = contract;
        ownership = some (
            resolve_ownership (record {
              owner = owner;
              scope = ownership_scope provider.name current.resource_id;
              desired = desired;
              snapshot = snapshot;
            }));
        refine_changes = refinement_of provider document current;
        limits = runtime.config.limits;
        now = time;
        options = record {
          allow_delete = is_true input.options.allow_delete && runtime.config.allow_destructive;
          allow_replace = is_true input.options.allow_replace && runtime.config.allow_destructive;
        };
      }

  -- The plan of a document, before its validity window is settled
  unfoldable pub make_plan : PlanInput → DesiredStateDocument → Provider → Run DspPlan
  unfolding assert_resource_limits ownership_scope resource_keys_in_play normalize_projection
      ownership_for declared_contract build_input build_plan read_now
  make_plan input document provider = do
    current ← ask (λ tick. provider.inspect tick document)
    desired_projection ← call (provider.normalize_desired document)
    current_projection ← call (provider.normalize_current current)
    call (assert_resource_limits desired_projection current_projection)
    let scope = ownership_scope provider.name current.resource_id
    desired ← call (normalize_projection runtime.number_text runtime.sha256_hex desired_projection)
    found ← call (normalize_projection runtime.number_text runtime.sha256_hex current_projection)
    snapshot ← read_store (
        ownership_for runtime.collate scope
          (resource_keys_in_play desired_projection current_projection))
    contract ← call (declared_contract document.contract desired_projection)
    time ← read_now runtime
    call (
        build_plan runtime.number_text runtime.sha256_hex (
          build_input input document provider current desired_projection current_projection
            desired.resources snapshot contract time))

  -- `#preserveValidityWindow`, by the plan of that id that is stored
  unfoldable pub settle_window : Option PlanRecord → DspPlan → Run DspPlan
  unfolding preserve_validity_window read_now
  settle_window none plan = pure (preserve_validity_window plan none 0)
  settle_window (some stored) plan = do
    time ← read_now runtime
    pure (preserve_validity_window plan (some stored) time)

  unfoldable pub file_plan : PlanInput → DesiredStateDocument → DspPlan → Run PlanRecord
  unfolding get_plan settle_window save_plan plan_event
  file_plan input document plan = do
    stored ← read_store (get_plan plan.metadata.id)
    settled ← settle_window stored plan
    let kept : PlanRecord = record {
      plan = settled;
      desired_state = document;
      options = input.options;
      environment = runtime.config.environment;
    }
    write_store (save_plan kept)
    audit (plan_event input document plan)
    pure kept

  unfoldable pub plan_document :
      Run (DesiredStateDocument × Provider) → (DspPlan → DspPlan) → PlanInput → Run DspPlan
  unfolding assert_options make_plan file_plan
  plan_document prepare redact input = do
    assert_options input.options
    (document, provider) ← prepare
    plan ← make_plan input document provider
    kept ← file_plan input document plan
    pure (redact kept.plan)
