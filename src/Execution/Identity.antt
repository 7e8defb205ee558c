-- ===== src/Execution/Identity.antt =====
-- packages/execution-engine/src/execute.ts: what a run leaves of the operation that it is given.
use desired_state_protocol.Common.{ℕ, List, ◌≡◌, refl, ◌∙◌, insert}
use desired_state_protocol.Protocol.Plan.{PlanChange, OperationRecord}
use desired_state_protocol.Execution.Effects.{World, Trace, Result, return, throw}
use desired_state_protocol.Execution.Retry.{RetryOptions}
use desired_state_protocol.Execution.Records.{Records, commit}
use desired_state_protocol.Execution.Attempts.{Ensures}
use desired_state_protocol.Execution.ExecutePlan.{execute_plan}
use desired_state_protocol.Execution.Rule.{Rule, progress, progress-keeps, execute_plan-Ensures}

-- The operations are one, with the same answer to whether it is to be cancelled
abbrev pub IsSameOperation : OperationRecord → OperationRecord → Type 0
IsSameOperation a b =
    (a.id ≡ b.id)
    × (a.plan_id ≡ b.plan_id)
    × (a.idempotency_key ≡ b.idempotency_key)
    × (a.cancellation_requested ≡ b.cancellation_requested)

abbrev pub ReturnsSame : OperationRecord → Result OperationRecord → Trace → Type 0
ReturnsSame operation (return result) tr = IsSameOperation result operation
ReturnsSame operation (throw e) tr = Unit

module _ (world : World) (retry : RetryOptions) (timeout_ms : ℕ) (plan : List PlanChange)
    (operation : OperationRecord) where
  abbrev Inv : List PlanChange → OperationRecord → Records → Trace → Type 0
  Inv rest op records tr = IsSameOperation op operation

  progressed :
      (rest : List PlanChange) (op : OperationRecord) (records : Records) (time : ℕ)
      → IsSameOperation op operation
      → IsSameOperation (progress plan op records time) operation
  progressed rest op records time (i, p, k, f) =
      let (i', p', k', f') = progress-keeps plan op records time in (i' ∙ i, p' ∙ p, k' ∙ k, f' ∙ f)

  rule : Rule world retry timeout_ms plan Inv (ReturnsSame operation)
  unfolding commit
  rule = record {
    ends = λ rest op records tr time cancelled inv _. inv;
    ends_throwing = λ rest op op' records tr e _ _. tt;
    asks = λ rest op records tr inv. inv;
    ask_throws = λ rest op records tr e _ _. tt;
    skips = λ c rest op records tr old inv. inv;
    runs = λ c rest op records tr r time fresh inv q.
        progressed rest op (insert c.id r records) time inv;
    report_throws = λ c rest op records tr op' e fresh _ _. tt;
    run_throws = λ c rest op records tr e fresh _ _. tt;
  }

  -- A run that returns returns the operation that it was given, as far as its id, its plan, its key
  -- and its request for cancellation go, whatever the answers to the question whether to cancel were.
  pub execute_plan-IsSameOperation :
      (tr : Trace)
      → Ensures (ReturnsSame operation) (execute_plan world retry timeout_ms plan operation tr)
  execute_plan-IsSameOperation tr =
      execute_plan-Ensures rule operation tr (refl, refl, refl, refl) (λ e _. tt)
