-- ===== src/Runtime/Apply.antt =====
-- packages/core/src/runtime.ts: the approval and the application of a plan. The execution of the
-- changes is that of Execution/ExecutePlan: what it saves is written to the store when it ends, and
-- what other calls write meanwhile is not part of the state.
pub mod Checks
pub mod Demands
pub mod Preserved
pub mod Found
pub mod Idempotent
pub mod Admitted
pub mod Taken
pub mod Owned
pub mod Verified
pub mod Completed
use desired_state_protocol.Common.{
  ℕ, Bool, true, false, not, ◌&&◌, ◌||◌, List, [], ◌∷◌, ◌++◌, any, filter, map, includes, Option,
  none, some, JsString, js, leb, ◌==◌, if◌then◌else◌, is_some,
}
use desired_state_protocol.Protocol.Errors.{Result, return, throw, Thrown, dsp, DspErrorCode}
use desired_state_protocol.Protocol.Risk.{Actor}
use desired_state_protocol.Protocol.Plan.{
  ownership_scope, DspPlan, ApprovalRecord, OperationRecord, OperationStatus, ChangeStatus,
  ChangeAction, ChangeExecutionRecord, PlanOwnership, VerificationResult, VerificationStatus,
  ContractCheck, status_eq, action_eq,
}
use desired_state_protocol.Protocol.Hashes.{hash_equals}
use desired_state_protocol.Audit.Chain.{AuditAction, AuditOutcome}
use desired_state_protocol.Plan.Build.{is_plan_expired}
use desired_state_protocol.Plan.Normalize.{normalize_projection}
use desired_state_protocol.Plan.Ownership.{claims_to_record}
use desired_state_protocol.Execution.Effects.{World, Trace, Event, saved}
use desired_state_protocol.Execution.ExecutePlan.{execute_plan}
use desired_state_protocol.Verification.{
  VerifyInput, verify_desired_state, verification_failed_result,
}
use desired_state_protocol.Store.Rows.{
  Store, PlanRecord, IdempotencyReservation, get_plan, save_approval, get_operation, save_operation,
  find_operation_by_idempotency, reserve_idempotency, request_cancellation, record_ownership,
}
use desired_state_protocol.Runtime.State.{
  Runtime, RuntimeState, Run, ◌>>=◌, ◌>>◌, pure, call, read_store, write_store, ask, audit, fail,
  CurrentState, Provider, Recorded, provider_for_kind,
}
use desired_state_protocol.Runtime.Gates.{
  check, require_plan, read_now, assert_approved, assert_no_drift, assert_ownership_still_held,
  assert_policy_still_allows, assert_plan_integrity,
}
use desired_state_protocol.Runtime.Parts.{
  ApproveInput, ApplyInput, is_blank, preserve_validity_window, approval_for, approval_event,
  change_event, audit_all, save_trace, skipped_keys, is_satisfied, verified_status,
  operation_status_text, refuses_cancel, cancelled_status, require_operation,
}
use desired_state_protocol.Runtime.Verify.{run_verification, apply_verification}

module _ (runtime : Runtime) where
  unfoldable pub approve : ApproveInput → Run ApprovalRecord
  unfolding require_plan hash_equals is_plan_expired read_now approval_for approval_event
      save_approval
  approve input = do
    stored ← require_plan input.plan_id
    call (
        check (hash_equals input.plan_hash stored.plan.metadata.plan_hash)
          DspErrorCode.approval_invalid
          (js
            "The approved plan hash does not match the stored plan; review the current plan again"))
    time ← read_now runtime
    call (
        check (not (is_plan_expired stored.plan time)) DspErrorCode.plan_expired
          (js "The plan has expired and can no longer be approved"))
    approved_at ← read_now runtime
    write_store (save_approval (approval_for stored.plan input approved_at))
    audit (approval_event stored.plan input)
    pure (approval_for stored.plan input approved_at)

  -- The checks that stand before anything is observed
  unfoldable pub admit : PlanRecord → Run (Unit {0})
  unfolding assert_plan_integrity assert_policy_still_allows assert_ownership_still_held
      assert_approved
  admit stored = do
    assert_plan_integrity runtime stored.plan
    assert_policy_still_allows runtime stored.plan stored
    assert_ownership_still_held runtime stored.plan
    assert_approved stored.plan

  unfoldable pub record_owned :
      Option PlanOwnership → DspPlan → OperationRecord → PlanRecord → Provider → Run (Unit {0})
  unfolding skipped_keys claims_to_record ownership_scope record_ownership normalize_projection
  record_owned none plan operation stored provider = pure tt
  record_owned (some ownership) plan operation stored provider = do
    observed ← ask (λ tick. provider.inspect tick stored.desired_state)
    projection ← call (provider.normalize_desired stored.desired_state)
    desired ← call (normalize_projection runtime.number_text runtime.sha256_hex projection)
    write_store (
        record_ownership
          (claims_to_record ownership.owner (ownership_scope provider.name observed.resource_id)
            desired.resources (skipped_keys plan operation))
          ownership.releases)

  unfoldable pub record_applied : DspPlan → OperationRecord → PlanRecord → Provider → Run (Unit {0})
  unfolding record_owned
  record_applied plan operation stored provider =
      record_owned plan.ownership plan operation stored provider

  unfoldable pub created_operation :
      ApplyInput → DspPlan → JsString → (created_at updated_at : ℕ) → OperationRecord
  created_operation input plan operation_id created_at updated_at = record {
    id = operation_id;
    tenant = runtime.config.tenant;
    plan_id = plan.metadata.id;
    plan_hash = plan.metadata.plan_hash;
    idempotency_key = input.idempotency_key;
    status = OperationStatus.created;
    actor = input.actor;
    created_at = created_at;
    updated_at = updated_at;
    changes = [];
    verification = none;
    cancellation_requested = false;
    error = none;
  }

  unfoldable pub applied_event : ApplyInput → DspPlan → JsString → Recorded
  applied_event input plan operation_id = record {
    actor = input.actor;
    action = AuditAction.plan_apply;
    outcome = AuditOutcome.success;
    resource_type = none;
    resource_key = none;
    plan_id = some plan.metadata.id;
    operation_id = some operation_id;
    request_id = input.request_id;
  }

  unfoldable pub reserve : ApplyInput → DspPlan → JsString → Run IdempotencyReservation
  unfolding reserve_idempotency
  reserve input plan operation_id s =
      let (reservation, store) =
        reserve_idempotency (runtime.config.tenant, plan.metadata.id, input.idempotency_key)
          operation_id s.store in
      (return reservation, record s { store = store })

  -- An operation that another call with the key has stored, when the key is not this call's
  unfoldable pub winner : IdempotencyReservation → Run (Option OperationRecord)
  unfolding get_operation
  winner reservation s = (
    return (if reservation.reserved then none else get_operation reservation.operation_id s.store),
    s,
  )

  -- `return existing`, or what stands behind it
  unfoldable pub unless_found : Option OperationRecord → Run OperationRecord → Run OperationRecord
  unless_found (some operation) rest = pure operation
  unless_found none rest = rest

  -- What executePlan asks of the outside world depends on the store behind it.
  module _ (world_of : Store → World) where
    unfoldable pub run_execution : DspPlan → OperationRecord → Run OperationRecord
    unfolding execute_plan save_trace
    run_execution plan operation s =
        let (result, trace) =
          execute_plan (world_of s.store) runtime.config.retry
            runtime.config.limits.provider_call_timeout_ms plan.changes operation [] in
        (result, record s { store = save_trace trace s.store })

    -- The part of `apply` behind the reservation
    unfoldable pub carry_out : ApplyInput → PlanRecord → Provider → JsString → Run OperationRecord
    unfolding read_now created_operation applied_event save_operation run_execution audit_all
        change_event record_applied run_verification apply_verification
    carry_out input stored provider operation_id = do
      created_at ← read_now runtime
      updated_at ← read_now runtime
      let operation = created_operation input stored.plan operation_id created_at updated_at
      write_store (save_operation operation)
      audit (applied_event input stored.plan operation_id)
      executed ← run_execution stored.plan operation
      audit_all (map (change_event input stored.plan executed) executed.changes)
      record_applied stored.plan executed stored provider
      verification ← run_verification runtime executed stored provider input.actor
      apply_verification runtime executed verification

    -- The part of `apply` behind the look-up of its key
    unfoldable pub apply_fresh : ApplyInput → PlanRecord → Provider → Run OperationRecord
    unfolding admit assert_no_drift reserve winner unless_found carry_out
    apply_fresh input stored provider = do
      admit stored
      observed ← ask (λ tick. provider.inspect tick stored.desired_state)
      call (assert_no_drift stored.plan observed input.if_match)
      operation_id ← ask (λ tick. return (runtime.new_operation_id tick))
      reservation ← reserve input stored.plan operation_id
      existing ← winner reservation
      unless_found existing (carry_out input stored provider reservation.operation_id)

    unfoldable pub apply : ApplyInput → Run OperationRecord
    unfolding is_blank require_plan provider_for_kind find_operation_by_idempotency unless_found
        apply_fresh
    apply input = do
      call (
          check (not (is_blank input.idempotency_key)) DspErrorCode.idempotency_key_required
            (js "Apply requires a non-empty Idempotency-Key"))
      stored ← require_plan input.plan_id
      provider ← call (provider_for_kind runtime stored.desired_state.kind)
      replayed ← read_store (
          find_operation_by_idempotency
            (runtime.config.tenant, input.plan_id, input.idempotency_key))
      unless_found replayed (apply_fresh input stored provider)
