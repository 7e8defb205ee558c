-- ===== src/Execution/Completed.antt =====
-- packages/execution-engine/src/execute.ts: what a completed run has recorded.
use desired_state_protocol.Common.{
  ℕ, Bool, true, false, List, [], ◌∷◌, ◌≡◌, All, All-mem, All-of_mem, values, mem_of_sort_by,
}
use desired_state_protocol.Protocol.Plan.{
  PlanChange, OperationRecord, OperationStatus, ChangeExecutionRecord,
}
use desired_state_protocol.Execution.Effects.{World, Trace, Result, return, throw}
use desired_state_protocol.Execution.Retry.{RetryOptions}
use desired_state_protocol.Execution.Records.{Records, commit, committed_changes, reorder}
use desired_state_protocol.Execution.Status.{IsClean, final_status_cases}
use desired_state_protocol.Execution.Attempts.{Ensures}
use desired_state_protocol.Execution.ExecutePlan.{execute_plan}
use desired_state_protocol.Execution.Rule.{Rule, execute_plan-Ensures}

-- No record of a completed operation is failed, blocked or skipped with an error
abbrev pub IsCompleted : Result OperationRecord → Trace → Type 0
IsCompleted (return op) tr = op.status ≡ OperationStatus.completed → All IsClean op.changes
IsCompleted (throw e) tr = Unit

committed-IsClean :
    (recorded : List ChangeExecutionRecord) (op : OperationRecord) (rs : List ChangeExecutionRecord)
    → All IsClean rs
    → All IsClean (committed_changes recorded op rs)
unfolding committed_changes reorder
committed-IsClean [] op rs clean = clean
committed-IsClean (_ ∷ _) op rs clean =
    All-of_mem IsClean _ (λ r m. All-mem IsClean rs clean (mem_of_sort_by _ rs m))

commit-IsCompleted :
    (op : OperationRecord) (records : Records) (time : ℕ) (cancelled : Bool) (tr : Trace)
    → IsCompleted (return (commit op records time cancelled)) tr
unfolding commit
commit-IsCompleted op records time true tr h = cc
commit-IsCompleted op records time false tr h =
    committed-IsClean op.changes op (values records) ((final_status_cases (values records)).0.0 h)

module _ (world : World) (retry : RetryOptions) (timeout_ms : ℕ) (plan : List PlanChange) where
  rule : Rule world retry timeout_ms plan (λ _ _ _ _. Unit {0}) IsCompleted
  rule = record {
    ends = λ rest op records tr time cancelled _ _. commit-IsCompleted op records time cancelled tr;
    ends_throwing = λ rest op op' records tr e _ _. tt;
    asks = λ rest op records tr _. tt;
    ask_throws = λ rest op records tr e _ _. tt;
    skips = λ c rest op records tr old _. tt;
    runs = λ c rest op records tr r time fresh _ q. tt;
    report_throws = λ c rest op records tr op' e fresh _ _. tt;
    run_throws = λ c rest op records tr e fresh _ _. tt;
  }

  pub execute_plan-IsCompleted :
      (operation : OperationRecord) (tr : Trace)
      → Ensures IsCompleted (execute_plan world retry timeout_ms plan operation tr)
  execute_plan-IsCompleted operation tr = execute_plan-Ensures rule operation tr tt (λ e _. tt)
