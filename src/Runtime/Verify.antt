-- ===== src/Runtime/Verify.antt =====
-- packages/core/src/runtime.ts: the verification and the cancellation of an operation.
use desired_state_protocol.Common.{
  ℕ, true, not, List, ◌++◌, Option, none, some, JsString, js, if◌then◌else◌,
}
use desired_state_protocol.Protocol.Errors.{
  Result, return, throw, Thrown, dsp, unsettled, DspErrorCode,
}
use desired_state_protocol.Protocol.Risk.{Actor}
use desired_state_protocol.Protocol.Plan.{OperationRecord, VerificationResult, ContractCheck}
use desired_state_protocol.Audit.Chain.{AuditAction, AuditOutcome}
use desired_state_protocol.Plan.Normalize.{ResourceInstance}
use desired_state_protocol.Verification.{verify_desired_state, verification_failed_result}
use desired_state_protocol.Protocol.Document.{DesiredStateDocument, DesiredStateContract}
use desired_state_protocol.Store.Rows.{PlanRecord, save_operation, request_cancellation}
use desired_state_protocol.Runtime.State.{
  Runtime, Run, ◌>>=◌, ◌>>◌, pure, call, write_store, ask, audit, Provider, Recorded,
  provider_for_kind,
}
use desired_state_protocol.Runtime.Gates.{check, require_plan, read_now}
use desired_state_protocol.Runtime.Parts.{
  is_satisfied, verified_status, operation_status_text, refuses_cancel, cancelled_status,
  require_operation,
}

module _ (runtime : Runtime) where
  -- The contract of a document against what the provider reports
  unfoldable pub check_contract :
      Option DesiredStateContract → List ResourceInstance → Run (Option ContractCheck)
  check_contract none projection = pure none
  check_contract (some contract) projection = do
    verdict ← call (runtime.evaluate_predicates contract.goal contract.success projection)
    pure (some verdict)

  -- The verification that the runtime does itself
  unfoldable pub verify_observed : OperationRecord → PlanRecord → Provider → Run VerificationResult
  unfolding verify_desired_state read_now check_contract
  verify_observed operation stored provider = do
    observed ← ask (λ tick. provider.inspect tick stored.desired_state)
    projection ← call (provider.normalize_current observed)
    desired ← call (provider.normalize_desired stored.desired_state)
    time ← read_now runtime
    contract ← check_contract stored.desired_state.contract projection
    call (
        verify_desired_state runtime.number_text runtime.sha256_hex (record {
          operation_id = operation.id;
          desired = desired;
          observed = projection;
          resource_types = runtime.resource_types;
          now = time;
          contract = contract;
        }))

  -- `provider.verify`, where a provider has it
  unfoldable pub verify_through :
      Option (ℕ → DesiredStateDocument → OperationRecord → Result VerificationResult)
      → OperationRecord
      → PlanRecord
      → Provider
      → Run VerificationResult
  unfolding verify_observed
  verify_through none operation stored provider = verify_observed operation stored provider
  verify_through (some verify) operation stored provider =
      ask (λ tick. verify tick stored.desired_state operation)

  unfoldable pub verification_of : OperationRecord → PlanRecord → Provider → Run VerificationResult
  unfolding verify_through
  verification_of operation stored provider =
      verify_through provider.verify operation stored provider

  unfoldable pub verification_event : OperationRecord → Actor → VerificationResult → Recorded
  unfolding is_satisfied
  verification_event operation actor verification = record {
    actor = actor;
    action = AuditAction.operation_verify;
    outcome =
        if is_satisfied verification.status then AuditOutcome.success else AuditOutcome.failure;
    resource_type = none;
    resource_key = none;
    plan_id = some operation.plan_id;
    operation_id = some operation.id;
    request_id = none;
  }

  unfoldable pub failure_reason : Thrown → JsString
  failure_reason (dsp error) = error.message
  failure_reason _ = js "Verification could not be completed"

  -- The `try` and the `catch` of a verification, by what it came to
  unfoldable pub settle_verification :
      OperationRecord → Actor → Result VerificationResult → Run VerificationResult
  unfolding verification_event failure_reason verification_failed_result read_now
  settle_verification operation actor (return verification) = do
    audit (verification_event operation actor verification)
    pure verification
  settle_verification operation actor (throw unsettled) = call (throw unsettled)
  settle_verification operation actor (throw error) = do
    time ← read_now runtime
    pure (verification_failed_result operation.id (failure_reason error) time none)

  unfoldable pub run_verification :
      OperationRecord → PlanRecord → Provider → Actor → Run VerificationResult
  unfolding verification_of settle_verification
  run_verification operation stored provider actor s =
      let (result, after) = verification_of operation stored provider s in
      settle_verification operation actor result after

  unfoldable pub apply_verification : OperationRecord → VerificationResult → Run OperationRecord
  unfolding verified_status read_now save_operation
  apply_verification operation verification = do
    time ← read_now runtime
    let updated : OperationRecord = record operation {
      verification = some verification;
      status = verified_status operation.status verification;
      updated_at = time;
    }
    write_store (save_operation updated)
    pure updated

  unfoldable pub verify_operation : JsString → Actor → Run VerificationResult
  unfolding require_operation require_plan provider_for_kind run_verification apply_verification
  verify_operation operation_id actor = do
    operation ← require_operation operation_id
    stored ← require_plan operation.plan_id
    provider ← call (provider_for_kind runtime stored.desired_state.kind)
    verification ← run_verification operation stored provider actor
    apply_verification operation verification >>= λ _. pure verification

  unfoldable pub cancel : JsString → Actor → Run OperationRecord
  unfolding require_operation operation_status_text refuses_cancel cancelled_status
      request_cancellation save_operation read_now
  cancel operation_id actor = do
    operation ← require_operation operation_id
    call (
        check (not (refuses_cancel operation.status)) DspErrorCode.cancelled (
          js "Operation \""
          ++ (operation_id
              ++ (js "\" is already in a terminal state ("
                  ++ (operation_status_text operation.status ++ js ")")))))
    requested_at ← read_now runtime
    write_store (λ store. (request_cancellation operation_id requested_at store).1)
    time ← read_now runtime
    let updated : OperationRecord = record operation {
      cancellation_requested = true;
      status = cancelled_status operation.status;
      updated_at = time;
    }
    write_store (save_operation updated)
    audit (record {
      actor = actor;
      action = AuditAction.operation_cancel;
      outcome = AuditOutcome.success;
      resource_type = none;
      resource_key = none;
      plan_id = some operation.plan_id;
      operation_id = some operation_id;
      request_id = none;
    })
    pure updated
