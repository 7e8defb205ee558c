-- ===== src/Runtime/Apply/Preserved.antt =====
-- packages/core/src/runtime.ts: what an application keeps of the store.
use desired_state_protocol.Common.{ℕ, List, [], ◌∷◌, Option, none, some, JsString}
use desired_state_protocol.Protocol.Errors.{Result, return, throw, dsp, other, unsettled}
use desired_state_protocol.Protocol.Risk.{Actor}
use desired_state_protocol.Protocol.Plan.{
  ownership_scope, DspPlan, OperationRecord, PlanOwnership, OwnershipClaim, VerificationResult,
}
use desired_state_protocol.Protocol.Document.{DesiredStateDocument, DesiredStateContract}
use desired_state_protocol.Plan.Ownership.{claims_to_record}
use desired_state_protocol.Plan.Normalize.{ResourceInstance}
use desired_state_protocol.Execution.Effects.{World, Trace, Event}
use desired_state_protocol.Execution.ExecutePlan.{execute_plan}
use desired_state_protocol.Store.Rows.{Store, PlanRecord, save_operation, record_ownership}
use desired_state_protocol.Runtime.State.{Runtime, Recorded, Provider}
use desired_state_protocol.Runtime.Runs.{
  Preserves, bind-Preserves, call-Preserves, pure-Preserves, ask-Preserves, audit-Preserves,
  write_store-Preserves,
}
use desired_state_protocol.Runtime.Parts.{ApplyInput, audit_all, save_trace, skipped_keys}
use desired_state_protocol.Runtime.Verify.{
  check_contract, verify_observed, verify_through, verification_of, settle_verification,
  run_verification, apply_verification,
}
use desired_state_protocol.Runtime.Apply.{
  record_owned, record_applied, created_operation, run_execution, carry_out,
}
use desired_state_protocol.Runtime.Apply.Checks.{now-Preserves}

module _ (Inv : Store → Type 0)
    (saved_keeps : (op : OperationRecord) (store : Store)
      → Inv store
      → Inv (save_operation op store))
    (owned_keeps : (claims releases : List OwnershipClaim) (store : Store)
      → Inv store
      → Inv (record_ownership claims releases store))
    (runtime : Runtime) where
  audit_all-Preserves : (events : List Recorded) → Preserves Inv (audit_all events)
  unfolding audit_all
  audit_all-Preserves [] = pure-Preserves tt
  audit_all-Preserves (event ∷ events) =
      bind-Preserves (audit-Preserves event) (λ _. audit_all-Preserves events)

  save_trace-keeps : (trace : Trace) (store : Store) → Inv store → Inv (save_trace trace store)
  unfolding save_trace
  save_trace-keeps [] store inv = inv
  save_trace-keeps (Event.saved op ∷ trace) store inv =
      saved_keeps op (save_trace trace store) (save_trace-keeps trace store inv)
  save_trace-keeps (Event.attempted _ _ ∷ trace) store inv = save_trace-keeps trace store inv
  save_trace-keeps (Event.slept _ ∷ trace) store inv = save_trace-keeps trace store inv
  save_trace-keeps (Event.asked_cancellation ∷ trace) store inv = save_trace-keeps trace store inv
  save_trace-keeps (Event.read_clock ∷ trace) store inv = save_trace-keeps trace store inv

  execution-Preserves :
      (world_of : Store → World) (plan : DspPlan) (op : OperationRecord)
      → Preserves Inv (run_execution runtime world_of plan op)
  unfolding run_execution
  execution-Preserves world_of plan op = record {
    keeps = λ s inv.
        let config = runtime.config in
        save_trace-keeps
          (execute_plan (world_of s.store) config.retry config.limits.provider_call_timeout_ms
            plan.changes op []).1
          s.store inv;
  }

  record_owned-Preserves :
      (o : Option PlanOwnership) (plan : DspPlan) (op : OperationRecord) (stored : PlanRecord)
      (provider : Provider)
      → Preserves Inv (record_owned runtime o plan op stored provider)
  unfolding record_owned
  record_owned-Preserves none plan op stored provider = pure-Preserves tt
  record_owned-Preserves (some ownership) plan op stored provider =
      bind-Preserves (ask-Preserves _) λ observed. bind-Preserves (call-Preserves _) λ projection.
        bind-Preserves (call-Preserves _) λ desired. write_store-Preserves _ (
          owned_keeps
            (claims_to_record ownership.owner (ownership_scope provider.name observed.resource_id)
              desired.resources (skipped_keys plan op))
            ownership.releases)

  contract-Preserves :
      (c : Option DesiredStateContract) (projection : List ResourceInstance)
      → Preserves Inv (check_contract runtime c projection)
  unfolding check_contract
  contract-Preserves none projection = pure-Preserves none
  contract-Preserves (some contract) projection =
      bind-Preserves (call-Preserves _) λ verdict. pure-Preserves (some verdict)

  through-Preserves :
      (v : Option (ℕ → DesiredStateDocument → OperationRecord → Result VerificationResult))
      (op : OperationRecord) (stored : PlanRecord) (provider : Provider)
      → Preserves Inv (verify_through runtime v op stored provider)
  unfolding verify_through verify_observed
  through-Preserves none op stored provider = bind-Preserves (ask-Preserves _) λ observed.
      bind-Preserves (call-Preserves _) λ projection. bind-Preserves (call-Preserves _) λ desired.
        bind-Preserves (now-Preserves Inv runtime) λ time.
          bind-Preserves (contract-Preserves stored.desired_state.contract projection)
            λ contract. call-Preserves _
  through-Preserves (some verify) op stored provider = ask-Preserves _

  settle-Preserves :
      (op : OperationRecord) (actor : Actor) (r : Result VerificationResult)
      → Preserves Inv (settle_verification runtime op actor r)
  unfolding settle_verification
  settle-Preserves op actor (return v) = bind-Preserves (audit-Preserves _) λ _. pure-Preserves v
  settle-Preserves op actor (throw unsettled) = call-Preserves _
  settle-Preserves op actor (throw (dsp e)) =
      bind-Preserves (now-Preserves Inv runtime) λ time. pure-Preserves _
  settle-Preserves op actor (throw other) =
      bind-Preserves (now-Preserves Inv runtime) λ time. pure-Preserves _

  verification-Preserves :
      (op : OperationRecord) (stored : PlanRecord) (provider : Provider) (actor : Actor)
      → Preserves Inv (run_verification runtime op stored provider actor)
  unfolding run_verification verification_of
  verification-Preserves op stored provider actor = record {
    keeps = λ s inv.
        let run = verify_through runtime provider.verify op stored provider s in
        (settle-Preserves op actor run.0).keeps run.1
          ((through-Preserves provider.verify op stored provider).keeps s inv);
  }

  status-Preserves :
      (op : OperationRecord) (v : VerificationResult)
      → Preserves Inv (apply_verification runtime op v)
  unfolding apply_verification
  status-Preserves op v = bind-Preserves (now-Preserves Inv runtime) λ time.
      bind-Preserves (write_store-Preserves _ (λ store inv. saved_keeps _ store inv))
        λ _. pure-Preserves _

  pub carry_out-Preserves :
      (world_of : Store → World) (input : ApplyInput) (stored : PlanRecord) (provider : Provider)
      (operation_id : JsString)
      → Preserves Inv (carry_out runtime world_of input stored provider operation_id)
  unfolding carry_out record_applied
  carry_out-Preserves world_of input stored provider operation_id =
      bind-Preserves (now-Preserves Inv runtime) λ created_at.
        bind-Preserves (now-Preserves Inv runtime) λ updated_at.
          bind-Preserves (write_store-Preserves _ (λ store inv. saved_keeps _ store inv)) λ _.
            bind-Preserves (audit-Preserves _) λ _.
              bind-Preserves
                (execution-Preserves world_of stored.plan
                  (created_operation runtime input stored.plan operation_id created_at updated_at))
                λ executed. bind-Preserves (audit_all-Preserves _) λ _.
                  bind-Preserves
                    (record_owned-Preserves stored.plan.ownership stored.plan executed stored
                      provider)
                    λ _.
                      bind-Preserves (verification-Preserves executed stored provider input.actor)
                        λ verification. status-Preserves executed verification
