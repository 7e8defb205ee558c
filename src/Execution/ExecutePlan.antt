-- ===== src/Execution/ExecutePlan.antt =====
-- packages/execution-engine/src/execute.ts: the loop over the changes of a plan.
use desired_state_protocol.Common.{
  Bool, true, false, List, [], ◌∷◌, map, Option, none, some, lookup, insert, from_entries, ℕ,
}
use desired_state_protocol.Protocol.Plan.{
  PlanChange, ChangeStatus, ChangeExecutionRecord, OperationStatus, OperationRecord, status_eq,
}
use desired_state_protocol.Execution.Effects.{
  World, Action, pure, ◌>>=◌, ◌>>◌, on_progress, is_cancellation_requested, now,
}
use desired_state_protocol.Execution.Retry.{RetryOptions}
use desired_state_protocol.Execution.Records.{Records, commit, order_records}
use desired_state_protocol.Execution.RunChange.{run_change}

-- `existing?.status === 'succeeded'`
unfoldable pub already_succeeded : Option ChangeExecutionRecord → Bool
already_succeeded none = false
already_succeeded (some r) = status_eq r.status ChangeStatus.succeeded

-- `new Map(operation.changes.map((record) => [record.changeId, record]))`
unfoldable pub initial_records : OperationRecord → Records
unfolding from_entries
initial_records operation = from_entries (map (λ r. (r.change_id, r)) operation.changes) []

module _ (world : World) (retry : RetryOptions) (timeout_ms : ℕ) where
  -- The commit that ends a run, and its last progress report
  unfoldable pub finish : OperationRecord → Records → Bool → Action OperationRecord
  unfolding commit
  finish operation records cancelled = do
    time ← now world
    let committed = commit operation records time cancelled
    on_progress world committed
    pure committed

  -- The progress report behind a change that was run
  unfoldable pub report :
      List PlanChange → OperationRecord → Records → Action (OperationRecord × Records)
  unfolding order_records
  report plan operation records = do
    time ← now world
    let operation' = record operation { changes = order_records plan records; updated_at = time }
    on_progress world operation'
    pure (operation', records)

  -- What one round does with a change that has not succeeded: the new operation and records.
  unfoldable pub visit :
      List PlanChange → PlanChange → OperationRecord → Records → Action (OperationRecord × Records)
  unfolding run_change report
  visit plan change operation records = do
    r ← run_change world retry timeout_ms change records
    report plan operation (insert change.id r records)

  -- The rest of a round, by the answer to the question whether to cancel. `next` is the next round.
  unfoldable pub after_asking :
      List PlanChange
      → PlanChange
      → OperationRecord
      → Records
      → (OperationRecord → Records → Action OperationRecord)
      → Bool
      → Action OperationRecord
  unfolding finish visit
  after_asking plan change operation records next true = finish operation records true
  after_asking plan change operation records next false = do
    (operation', records') ← visit plan change operation records
    next operation' records'

  -- The `for` loop, over the changes that are left
  unfoldable pub run_changes :
      List PlanChange → List PlanChange → OperationRecord → Records → Action OperationRecord
  unfolding finish after_asking already_succeeded
  run_changes plan [] operation records = finish operation records false
  run_changes plan (change ∷ rest) operation records =
      elim (already_succeeded (lookup change.id records)) [
        | true ↦ run_changes plan rest operation records
        | false ↦ do
          cancelled ← is_cancellation_requested world
          after_asking plan change operation records (run_changes plan rest) cancelled
      ]

  unfoldable pub execute_plan : List PlanChange → OperationRecord → Action OperationRecord
  unfolding run_changes initial_records
  execute_plan plan operation = do
    let records = initial_records operation
    time ← now world
    let running = record operation { status = OperationStatus.running; updated_at = time }
    on_progress world running
    run_changes plan plan running records
