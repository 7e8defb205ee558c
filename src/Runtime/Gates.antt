-- ===== src/Runtime/Gates.antt =====
-- packages/core/src/runtime.ts: what is asked of a stored plan before it is applied.
use desired_state_protocol.Common.{
  ℕ, Bool, true, false, not, ◌&&◌, List, [], ◌∷◌, ◌++◌, any, filter, map, length, leb, ltb, Option,
  none, some, JsString, js, str_eq, StringMap, lookup, insert, unique, if◌then◌else◌,
}
use desired_state_protocol.Protocol.Errors.{Result, return, DspErrorCode}
use desired_state_protocol.Protocol.Risk.{Actor, ActorType}
use desired_state_protocol.Protocol.Plan.{
  DspPlan, ApprovalRequirement, ApprovalRecord, PlanOwnership, OwnershipClaim,
  PolicyEvaluationResult,
}
use desired_state_protocol.Protocol.Document.{DesiredStateDocument, document_namespace}
use desired_state_protocol.Protocol.Hashes.{hash_equals}
use desired_state_protocol.Audit.Chain.{AuditAction, AuditOutcome}
use desired_state_protocol.Plan.Build.{is_plan_expired, compute_plan_hash}
use desired_state_protocol.Policy.Evaluate.{evaluate_policies}
use desired_state_protocol.Policy.Match.{PolicyEvaluationContext}
use desired_state_protocol.Store.Rows.{PlanRecord, get_plan, list_approvals, ownership_for}
use desired_state_protocol.Runtime.State.{
  Runtime, Run, ◌>>=◌, ◌>>◌, pure, call, read_store, ask, audit, fail, CurrentState,
}

abbrev pub system_actor : Actor
system_actor = record { type = ActorType.system; id = js "runtime" }

abbrev pub check : Bool → DspErrorCode → JsString → Result (Unit {0})
check true code message = return tt
check false code message = fail code message

unfoldable pub found_plan : JsString → Option PlanRecord → Run PlanRecord
found_plan plan_id none =
    call (fail DspErrorCode.plan_not_found (js "Plan \"" ++ (plan_id ++ js "\" does not exist")))
found_plan plan_id (some stored) = pure stored

unfoldable pub require_plan : JsString → Run PlanRecord
unfolding get_plan found_plan
require_plan plan_id = read_store (get_plan plan_id) >>= found_plan plan_id

-- `approvals.length < requirement.minApprovals`, for some requirement
unfoldable pub lacks : ℕ → List ApprovalRequirement → Bool
lacks approvals requirements = any (λ r. ltb approvals r.min_approvals) requirements

-- The approvals that count: of the plan's hash, and from within its validity window
unfoldable pub counted : DspPlan → List ApprovalRecord → List ApprovalRecord
unfolding hash_equals
counted plan approvals =
    filter
      (λ a.
        hash_equals a.plan_hash plan.metadata.plan_hash
        && leb plan.metadata.created_at a.approved_at)
      approvals

unfoldable pub approved_if : (required : Bool) → DspPlan → Run (Unit {0})
unfolding lacks counted list_approvals
approved_if false plan = pure tt
approved_if true plan = do
  approvals ← read_store (list_approvals plan.metadata.id)
  call (
      check (not (lacks (length (counted plan approvals)) plan.approvals.requirements))
        DspErrorCode.approval_required (js "This plan requires approval before it can be applied"))

unfoldable pub assert_approved : DspPlan → Run (Unit {0})
unfolding approved_if
assert_approved plan = approved_if plan.approvals.required plan

unfoldable pub same_revision : Option JsString → Option JsString → Bool
unfolding str_eq
same_revision none none = true
same_revision (some a) (some b) = str_eq a b
same_revision _ _ = false

-- An If-Match of the caller that the observed revision does not meet
unfoldable pub unmatched : Option JsString → Option JsString → Bool
unfolding str_eq
unmatched (some wanted) (some actual) = not (str_eq wanted actual)
unmatched _ _ = false

unfoldable pub assert_no_drift : DspPlan → CurrentState → Option JsString → Result (Unit {0})
unfolding same_revision unmatched
assert_no_drift plan observed if_match =
    if unmatched if_match observed.revision
    then fail DspErrorCode.state_drift_detected
        (js "The If-Match revision does not match the current state")
    else check (same_revision plan.metadata.current_revision observed.revision)
        DspErrorCode.state_drift_detected (js "Current state changed after the plan was created")

unfoldable pub first_scope : PlanOwnership → Option JsString
first_scope ownership = elim ownership.claims [
  | claim ∷ _ ↦ some claim.scope
  | [] ↦ elim ownership.conflicts [ [] ↦ none | conflict ∷ _ ↦ some conflict.scope ]
]

unfoldable pub owned_keys : PlanOwnership → List JsString
unfolding unique
owned_keys ownership =
    unique str_eq
      (map (λ c. c.resource_key) ownership.claims ++ map (λ c. c.resource_key) ownership.conflicts)

-- The key of a resource and a path, with a space between them
unfoldable pub field_name : JsString → JsString → JsString
field_name resource_key path = resource_key ++ 32 ∷ path

unfoldable pub hold_claim :
    JsString → JsString → List JsString → StringMap JsString → StringMap JsString
unfolding field_name insert
hold_claim resource_key owner [] held = held
hold_claim resource_key owner (path ∷ paths) held =
    hold_claim resource_key owner paths (insert (field_name resource_key path) owner held)

unfoldable pub hold_claims : List OwnershipClaim → StringMap JsString → StringMap JsString
unfolding hold_claim
hold_claims [] held = held
hold_claims (claim ∷ claims) held =
    hold_claims claims (hold_claim claim.resource_key claim.owner claim.paths held)

-- A path that another document holds
unfoldable pub taken_path : StringMap JsString → JsString → JsString → JsString → Bool
unfolding lookup field_name str_eq
taken_path held owner resource_key path = elim (lookup (field_name resource_key path) held) [
  | none ↦ false
  | some holder ↦ not (str_eq holder owner)
]

unfoldable pub taken_claims : StringMap JsString → JsString → List OwnershipClaim → Bool
unfolding taken_path
taken_claims held owner claims =
    any (λ claim. any (λ path. taken_path held owner claim.resource_key path) claim.paths) claims

module _ (runtime : Runtime) where
  unfoldable pub read_now : Run ℕ
  read_now = ask (λ tick. return (runtime.clock tick))

  unfoldable pub still_held_within : PlanOwnership → Option JsString → Run (Unit {0})
  unfolding owned_keys taken_claims ownership_for hold_claims
  still_held_within ownership none = pure tt
  still_held_within ownership (some scope) = do
    claims ← read_store (ownership_for runtime.collate scope (owned_keys ownership))
    call (
        check (not (taken_claims (hold_claims claims []) ownership.owner ownership.claims))
          DspErrorCode.field_ownership_conflict
          (js
            "Another document took ownership of a field this plan claims; a new plan is required"))

  unfoldable pub still_held : Option PlanOwnership → Run (Unit {0})
  unfolding first_scope still_held_within
  still_held none = pure tt
  still_held (some ownership) = still_held_within ownership (first_scope ownership)

  unfoldable pub assert_ownership_still_held : DspPlan → Run (Unit {0})
  unfolding still_held
  assert_ownership_still_held plan = still_held plan.ownership

  unfoldable pub policy_context : DesiredStateDocument → PolicyEvaluationContext
  unfolding document_namespace
  policy_context document = record {
    environment = runtime.config.environment;
    kind = document.kind;
    namespace = document_namespace document;
    resource_name = document.metadata.name;
  }

  unfoldable pub reevaluated : DspPlan → DesiredStateDocument → PolicyEvaluationResult
  unfolding evaluate_policies policy_context
  reevaluated plan document = evaluate_policies runtime.sha256_hex runtime.policy_bundle (record {
    changes = plan.changes;
    risk = record { score = plan.summary.risk_score; level = plan.summary.risk };
    context = policy_context document;
  })

  unfoldable pub deny_policy : DspPlan → Run (Unit {0})
  deny_policy plan = do
    audit (record {
      actor = system_actor;
      action = AuditAction.policy_deny;
      outcome = AuditOutcome.blocked;
      resource_type = none;
      resource_key = none;
      plan_id = some plan.metadata.id;
      operation_id = none;
      request_id = none;
    })
    call (fail DspErrorCode.policy_denied (js "Policy evaluation denied this plan"))

  unfoldable pub unless_denied : (allowed : Bool) → DspPlan → Run (Unit {0})
  unfolding deny_policy
  unless_denied true plan = pure tt
  unless_denied false plan = deny_policy plan

  unfoldable pub assert_policy_still_allows : DspPlan → PlanRecord → Run (Unit {0})
  unfolding hash_equals reevaluated unless_denied
  assert_policy_still_allows plan stored = do
    call (
        check (hash_equals runtime.policy_bundle_hash plan.metadata.policy_bundle_hash)
          DspErrorCode.policy_denied
          (js "The policy bundle changed after this plan was created; create a new plan"))
    unless_denied (reevaluated plan stored.desired_state).allowed plan

  unfoldable pub assert_plan_integrity : DspPlan → Run (Unit {0})
  unfolding compute_plan_hash hash_equals is_plan_expired read_now
  assert_plan_integrity plan = do
    recomputed ← call (compute_plan_hash runtime.number_text runtime.sha256_hex plan)
    call (
        check (hash_equals recomputed plan.metadata.plan_hash) DspErrorCode.plan_hash_mismatch
          (js "The stored plan does not match its own hash"))
    time ← read_now
    call (
        check (not (is_plan_expired plan time)) DspErrorCode.plan_expired
          (js "The plan has expired; create a new plan"))
    call (
        check plan.executable DspErrorCode.plan_not_executable
          (js "The plan was not executable when it was created"))
