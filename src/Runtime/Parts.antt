-- ===== src/Runtime/Parts.antt =====
-- packages/core/src/runtime.ts: the inputs of its calls, and what they make of plans and operations.
use desired_state_protocol.Common.{
  ℕ, Bool, true, false, not, ◌&&◌, ◌||◌, List, [], ◌∷◌, ◌++◌, any, filter, map, includes, Option,
  none, some, JsString, js, leb, ◌==◌, if◌then◌else◌,
}
use desired_state_protocol.Protocol.Errors.{DspErrorCode}
use desired_state_protocol.Protocol.Risk.{Actor}
use desired_state_protocol.Protocol.Plan.{
  DspPlan, ApprovalRecord, OperationRecord, OperationStatus, ChangeStatus, ChangeAction,
  ChangeExecutionRecord, VerificationResult, VerificationStatus, ContractCheck, status_eq,
  action_eq,
}
use desired_state_protocol.Audit.Chain.{AuditAction, AuditOutcome}
use desired_state_protocol.Plan.Build.{is_plan_expired}
use desired_state_protocol.Execution.Effects.{Trace, saved}
use desired_state_protocol.Store.Rows.{Store, PlanRecord, get_operation, save_operation}
use desired_state_protocol.Runtime.State.{
  Run, ◌>>=◌, ◌>>◌, pure, call, read_store, audit, fail, Recorded,
}

pub record ApproveInput : Type 0 where
  pub actor : Actor
  pub request_id : Option JsString
  pub plan_id : JsString
  pub approved_by : JsString
  pub reason : JsString
  pub plan_hash : JsString

pub record ApplyInput : Type 0 where
  pub actor : Actor
  pub request_id : Option JsString
  pub plan_id : JsString
  pub idempotency_key : JsString
  pub if_match : Option JsString

-- What String.prototype.trim strips
unfoldable pub is_space : ℕ → Bool
is_space c =
    leb 9 c && leb c 13
    || leb 8192 c && leb c 8202
    || any (λ d. c == d) (32 ∷ 160 ∷ 5760 ∷ 8232 ∷ 8233 ∷ 8239 ∷ 8287 ∷ 12288 ∷ 65279 ∷ [])

-- `s.trim().length === 0`
unfoldable pub is_blank : JsString → Bool
unfolding is_space
is_blank s = not (any (λ c. not (is_space c)) s)

unfoldable pub preserve_validity_window : DspPlan → Option PlanRecord → ℕ → DspPlan
unfolding is_plan_expired
preserve_validity_window plan none time = plan
preserve_validity_window plan (some stored) time =
    if is_plan_expired stored.plan time then plan else record plan {
      metadata = record (plan.metadata) {
        created_at = stored.plan.metadata.created_at;
        expires_at = stored.plan.metadata.expires_at;
      };
    }

unfoldable pub approval_for : DspPlan → ApproveInput → ℕ → ApprovalRecord
approval_for plan input time = record {
  plan_id = plan.metadata.id;
  plan_hash = plan.metadata.plan_hash;
  approved_by = input.approved_by;
  approved_at = time;
  reason = input.reason;
  requirement_ids = map (λ r. r.id) plan.approvals.requirements;
}

unfoldable pub approval_event : DspPlan → ApproveInput → Recorded
approval_event plan input = record {
  actor = input.actor;
  action = AuditAction.plan_approve;
  outcome = AuditOutcome.success;
  resource_type = none;
  resource_key = none;
  plan_id = some plan.metadata.id;
  operation_id = none;
  request_id = input.request_id;
}

unfoldable pub change_outcome : ChangeStatus → AuditOutcome
change_outcome ChangeStatus.succeeded = AuditOutcome.success
change_outcome ChangeStatus.blocked = AuditOutcome.blocked
change_outcome ChangeStatus.failed = AuditOutcome.failure
change_outcome _ = AuditOutcome.success

unfoldable pub change_event :
    ApplyInput → DspPlan → OperationRecord → ChangeExecutionRecord → Recorded
unfolding change_outcome
change_event input plan operation change = record {
  actor = input.actor;
  action = AuditAction.change_apply;
  outcome = change_outcome change.status;
  resource_type = some change.resource_type;
  resource_key = some change.resource_key;
  plan_id = some plan.metadata.id;
  operation_id = some operation.id;
  request_id = none;
}

unfoldable pub audit_all : List Recorded → Run (Unit {0})
audit_all [] = pure tt
audit_all (event ∷ events) = audit event >> audit_all events

-- The saves of an execution, whose trace has the newest event first
unfoldable pub save_trace : Trace → Store → Store
unfolding save_operation
save_trace [] store = store
save_trace (saved operation ∷ trace) store = save_operation operation (save_trace trace store)
save_trace (_ ∷ trace) store = save_trace trace store

-- The keys of the changes that did not land
unfoldable pub skipped_keys : DspPlan → OperationRecord → List JsString
unfolding includes status_eq action_eq
skipped_keys plan operation =
    let landed =
      map (λ c. c.resource_key)
        (filter
          (λ c. status_eq c.status ChangeStatus.succeeded || action_eq c.action ChangeAction.noop)
          operation.changes) in
    filter (λ key. not (includes landed key)) (map (λ c. c.resource_key) plan.changes)

unfoldable pub contract_fails : Option ContractCheck → Bool
contract_fails none = false
contract_fails (some contract) = not contract.satisfied

unfoldable pub is_satisfied : VerificationStatus → Bool
is_satisfied VerificationStatus.satisfied = true
is_satisfied _ = false

unfoldable pub verified_status : OperationStatus → VerificationResult → OperationStatus
unfolding contract_fails is_satisfied
verified_status OperationStatus.completed verification =
    if not (is_satisfied verification.status)
    then OperationStatus.verification_failed
    else if contract_fails verification.contract
    then OperationStatus.goal_not_satisfied
    else OperationStatus.completed
verified_status status verification = status

unfoldable pub operation_status_text : OperationStatus → JsString
operation_status_text OperationStatus.created = js "created"
operation_status_text OperationStatus.running = js "running"
operation_status_text OperationStatus.partially_completed = js "partially_completed"
operation_status_text OperationStatus.completed = js "completed"
operation_status_text OperationStatus.failed = js "failed"
operation_status_text OperationStatus.verification_failed = js "verification_failed"
operation_status_text OperationStatus.goal_not_satisfied = js "goal_not_satisfied"
operation_status_text OperationStatus.cancelled = js "cancelled"

-- `['completed', 'failed', 'cancelled', 'verification_failed'].includes(status)`
unfoldable pub refuses_cancel : OperationStatus → Bool
refuses_cancel OperationStatus.completed = true
refuses_cancel OperationStatus.failed = true
refuses_cancel OperationStatus.cancelled = true
refuses_cancel OperationStatus.verification_failed = true
refuses_cancel _ = false

unfoldable pub cancelled_status : OperationStatus → OperationStatus
cancelled_status OperationStatus.created = OperationStatus.cancelled
cancelled_status status = status

unfoldable pub found_operation : JsString → Option OperationRecord → Run OperationRecord
found_operation operation_id none = call (
    fail DspErrorCode.operation_not_found
      (js "Operation \"" ++ (operation_id ++ js "\" does not exist")))
found_operation operation_id (some operation) = pure operation

unfoldable pub require_operation : JsString → Run OperationRecord
unfolding get_operation found_operation
require_operation operation_id =
    read_store (get_operation operation_id) >>= found_operation operation_id
