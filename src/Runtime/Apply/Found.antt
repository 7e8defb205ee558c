-- ===== src/Runtime/Apply/Found.antt =====
-- packages/core/src/runtime.ts: an application leaves its operation under its key.
use desired_state_protocol.Common.{
  Bool, true, false, [], Option, none, some, JsString, ◌≡◌, refl, ap, ◌∙◌, str_eq, str_eq_iff,
  str_eq_refl, if◌then◌else◌,
}
use desired_state_protocol.Protocol.Errors.{Result, return, throw}
use desired_state_protocol.Protocol.Plan.{DspPlan, OperationRecord, VerificationResult}
use desired_state_protocol.Execution.Effects.{World, Trace}
use desired_state_protocol.Execution.ExecutePlan.{execute_plan}
use desired_state_protocol.Execution.Identity.{ReturnsSame, execute_plan-IsSameOperation}
use desired_state_protocol.Store.Table.{select, upsert, select-upsert, merged}
use desired_state_protocol.Store.Fields.{triple_eq}
use desired_state_protocol.Store.Rows.{
  Store, PlanRecord, IdempotencyKey, IdempotencyReservation, OperationRow, record_column_of,
  get_operation, save_operation, record_ownership, reserve_idempotency, operation_of,
  find_operation_by_idempotency,
}
use desired_state_protocol.Store.Reserved.{reserve_row-holds}
use desired_state_protocol.Runtime.State.{
  Runtime, RuntimeState, Provider, ◌>>=◌, and_then, pure, write_store, ask,
}
use desired_state_protocol.Runtime.Runs.{
  Given, Gives, bind-Gives, after-Gives, both-Gives, weaken-Gives,
}
use desired_state_protocol.Runtime.Gates.{read_now}
use desired_state_protocol.Runtime.Parts.{ApplyInput, verified_status}
use desired_state_protocol.Runtime.Verify.{apply_verification}
use desired_state_protocol.Runtime.Apply.{
  run_execution, carry_out, created_operation, reserve, winner, unless_found, apply_fresh,
}
use desired_state_protocol.Runtime.Apply.Preserved.{carry_out-Preserves}

saved_column :
    (op : OperationRecord) (old : Option OperationRow)
    → record_column_of (
        some (
          merged
            (λ row. record row { record_column = op })
            (record { plan_id = op.plan_id; created_at = op.created_at; record_column = op })
            old))
      ≡ some op
saved_column op none = refl
saved_column op (some row) = refl

-- What is saved is what is found.
get-save :
    (op : OperationRecord) (store : Store) → get_operation op.id (save_operation op store) ≡ some op
unfolding get_operation save_operation
get-save op store =
    let row : OperationRow = record {
      plan_id = op.plan_id;
      created_at = op.created_at;
      record_column = op;
    } in
    let update : OperationRow → OperationRow = λ row. record row { record_column = op } in
    let at = select-upsert str_eq str_eq_iff update op.id row store.operations op.id in
    let found : select str_eq op.id (upsert str_eq update op.id row store.operations)
        ≡ some (merged update row (select str_eq op.id store.operations)) =
      rw (str_eq_refl op.id) at at in
    ap record_column_of found ∙ saved_column op (select str_eq op.id store.operations)

same_id :
    (r : Result OperationRecord) (op : OperationRecord) (tr : Trace) (s : RuntimeState)
    → ReturnsSame op r tr
    → Given (λ result _. result.id ≡ op.id) r s
same_id (return result) op tr s same = same.0
same_id (throw e) op tr s same = tt

module _ (runtime : Runtime) (world_of : Store → World) where
  abbrev IsStored : JsString → OperationRecord → RuntimeState → Type 0
  IsStored id op s = (op.id ≡ id) × (get_operation id s.store ≡ some op)

  execution-id :
      (plan : DspPlan) (op : OperationRecord) (s : RuntimeState)
      → Gives (λ result _. result.id ≡ op.id) (run_execution runtime world_of plan op) s
  unfolding run_execution
  execution-id plan op s =
      let config = runtime.config in
      let run =
        execute_plan (world_of s.store) config.retry config.limits.provider_call_timeout_ms
          plan.changes op [] in
      record {
        given = same_id run.0 op run.1 _ (
            execute_plan-IsSameOperation (world_of s.store) config.retry
              config.limits.provider_call_timeout_ms plan.changes op []);
      }

  status-IsStored :
      (op : OperationRecord) (v : VerificationResult) (id : JsString) {s : RuntimeState}
      → op.id ≡ id
      → Gives (IsStored id) (apply_verification runtime op v) s
  unfolding apply_verification ◌>>=◌ and_then read_now ask write_store pure
  status-IsStored op v id {s} same =
      let updated : OperationRecord = record op {
        verification = some v;
        status = verified_status op.status v;
        updated_at = runtime.clock s.tick;
      } in
      record { given = (same, rw (← same) (get-save updated s.store)) }

  carry_out-IsStored :
      (input : ApplyInput) (stored : PlanRecord) (provider : Provider) (id : JsString)
      (s : RuntimeState)
      → Gives (IsStored id) (carry_out runtime world_of input stored provider id) s
  unfolding carry_out
  carry_out-IsStored input stored provider id s = bind-Gives _ λ created_at.
      bind-Gives _ λ updated_at. bind-Gives _ λ _. bind-Gives _ λ _.
        after-Gives
          (execution-id stored.plan
            (created_operation runtime input stored.plan id created_at updated_at) _)
          λ executed same. bind-Gives _ λ _.
            bind-Gives _
              λ _. bind-Gives _ λ verification. status-IsStored executed verification id same

  abbrev pub key_of : JsString → ApplyInput → IdempotencyKey
  key_of plan_id input = (runtime.config.tenant, plan_id, input.idempotency_key)

  abbrev IsHeld : IdempotencyKey → JsString → Store → Type 0
  IsHeld key id store = select triple_eq key store.idempotency ≡ some id

  -- The call is answered with this operation
  abbrev pub IsFound : IdempotencyKey → OperationRecord → RuntimeState → Type 0
  IsFound key op s = find_operation_by_idempotency key s.store ≡ some op

  found_by :
      (key : IdempotencyKey) (id : JsString) (op : OperationRecord) (store : Store)
      → IsHeld key id store
      → get_operation id store ≡ some op
      → find_operation_by_idempotency key store ≡ some op
  unfolding find_operation_by_idempotency operation_of
  found_by key id op store held stored = rw held stored

  reserve-Gives :
      (input : ApplyInput) (plan : DspPlan) (id : JsString) (s : RuntimeState)
      → Gives
          (λ reservation s'.
            IsHeld (key_of plan.metadata.id input) reservation.operation_id s'.store)
          (reserve runtime input plan id)
          s
  unfolding reserve reserve_idempotency
  reserve-Gives input plan id s =
      let key = key_of plan.metadata.id input in
      record {
        given = reserve_row-holds (select triple_eq key s.store.idempotency) key id s.store refl;
      }

  winner-Gives :
      (key : IdempotencyKey) (reservation : IdempotencyReservation) (s : RuntimeState)
      → IsHeld key reservation.operation_id s.store
      → Gives
          (λ existing s'.
            IsHeld key reservation.operation_id s'.store
            × ((if reservation.reserved
                  then none
                  else get_operation reservation.operation_id s'.store)
                ≡ existing))
          (winner runtime reservation)
          s
  unfolding winner
  winner-Gives key reservation s held = record { given = (held, refl) }

  not_own :
      (own : Bool) (o : Option OperationRecord) {op : OperationRecord}
      → (if own then none else o) ≡ some op
      → o ≡ some op
  not_own true o e = cc
  not_own false o e = e

  carry_out-IsFound :
      (input : ApplyInput) (stored : PlanRecord) (provider : Provider) (key : IdempotencyKey)
      (id : JsString) (s : RuntimeState)
      → IsHeld key id s.store
      → Gives (IsFound key) (carry_out runtime world_of input stored provider id) s
  unfolding save_operation record_ownership
  carry_out-IsFound input stored provider key id s held =
      weaken-Gives
        (both-Gives
          (carry_out-Preserves (IsHeld key id) (λ op store h. h) (λ claims releases store h. h)
            runtime world_of input stored provider id)
          held (carry_out-IsStored input stored provider id s))
        (λ op s' h. found_by key id op s'.store h.1 h.0.1)

  -- What stands behind the reservation
  taken-IsFound :
      (input : ApplyInput) (stored : PlanRecord) (provider : Provider) (key : IdempotencyKey)
      (reservation : IdempotencyReservation) (existing : Option OperationRecord) (s : RuntimeState)
      → IsHeld key reservation.operation_id s.store
      → (if reservation.reserved then none else get_operation reservation.operation_id s.store)
        ≡ existing
      → Gives
          (IsFound key)
          (unless_found runtime existing
            (carry_out runtime world_of input stored provider reservation.operation_id))
          s
  unfolding unless_found pure
  taken-IsFound input stored provider key reservation none s held e =
      carry_out-IsFound input stored provider key reservation.operation_id s held
  taken-IsFound input stored provider key reservation (some op) s held e = record {
    given =
        found_by key reservation.operation_id op s.store held (not_own reservation.reserved _ e);
  }

  pub fresh-IsFound :
      (input : ApplyInput) (stored : PlanRecord) (provider : Provider) (s : RuntimeState)
      → Gives
          (IsFound (key_of stored.plan.metadata.id input))
          (apply_fresh runtime world_of input stored provider)
          s
  unfolding apply_fresh
  fresh-IsFound input stored provider s =
      let key = key_of stored.plan.metadata.id input in
      bind-Gives _ λ _. bind-Gives _ λ observed. bind-Gives _ λ _. bind-Gives _ λ id.
        after-Gives (reserve-Gives input stored.plan id _) λ reservation held.
          after-Gives (winner-Gives key reservation _ held)
            λ existing w. taken-IsFound input stored provider key reservation existing _ w.0 w.1
