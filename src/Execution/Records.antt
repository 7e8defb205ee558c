-- ===== src/Execution/Records.antt =====
-- packages/execution-engine/src/execute.ts: the records of the changes, and the status of an
-- operation that they give.
use desired_state_protocol.Common.{
  ℕ, suc, ◌-◌, ◌^◌, Bool, true, false, not, ◌&&◌, ◌||◌, List, [], ◌∷◌, Option, none, some, JsString,
  StringMap, lookup, from_entries, values, any, filter, filter_map, length, compare, sort_by,
  if◌then◌else◌, ◌==◌, is_some, get_or,
}
use desired_state_protocol.Protocol.Plan.{
  ChangeAction, PlanChange, ChangeStatus, ChangeExecutionRecord, OperationStatus, OperationRecord,
  status_eq, action_eq,
}

abbrev pub Records : Type 0
Records = StringMap ChangeExecutionRecord

-- `has(status)`, for the statuses of a list of records
unfoldable pub has_status : ChangeStatus → List ChangeExecutionRecord → Bool
has_status status changes = any (λ r. status_eq r.status status) changes

unfoldable pub skipped_with_error : ChangeExecutionRecord → Bool
skipped_with_error r = status_eq r.status ChangeStatus.skipped && is_some r.error

unfoldable pub final_status : List ChangeExecutionRecord → OperationStatus
unfolding has_status skipped_with_error
final_status changes =
    let succeeded = length (filter (λ r. status_eq r.status ChangeStatus.succeeded) changes) in
    let incomplete =
      has_status ChangeStatus.failed changes
      || has_status ChangeStatus.blocked changes
      || any skipped_with_error changes in
    if not incomplete
    then OperationStatus.completed
    else if succeeded == 0 && has_status ChangeStatus.failed changes
    then OperationStatus.failed
    else OperationStatus.partially_completed

unfoldable pub dependency_satisfied : Option ChangeExecutionRecord → Bool
dependency_satisfied none = false
dependency_satisfied (some r) =
    if status_eq r.status ChangeStatus.succeeded
    then true
    else action_eq r.action ChangeAction.noop && status_eq r.status ChangeStatus.skipped

unfoldable pub order_records : List PlanChange → Records → List ChangeExecutionRecord
unfolding filter_map
order_records changes records = filter_map (λ c. lookup c.id records) changes

-- `new Map(changes.map((record, index) => [record.changeId, index]))`: entries from index `i` on.
unfoldable pub index_entries : ℕ → List ChangeExecutionRecord → List (JsString × ℕ)
index_entries i [] = []
index_entries i (r ∷ rs) = (r.change_id, i) ∷ index_entries (suc i) rs

-- `Number.MAX_SAFE_INTEGER`
abbrev max_safe_integer : ℕ
max_safe_integer = 2 ^ 53 - 1

unfoldable pub place : StringMap ℕ → ChangeExecutionRecord → ℕ
place order r = get_or (lookup r.change_id order) max_safe_integer

-- A comparator `place(a) - place(b)`
unfoldable pub reorder : OperationRecord → List ChangeExecutionRecord → List ChangeExecutionRecord
unfolding index_entries from_entries place sort_by
reorder operation changes =
    let order = from_entries (index_entries 0 operation.changes) [] in
    sort_by (λ a b. compare (place order a) (place order b)) changes

-- `operation.changes.length > 0 ? reorder(operation, changes) : changes`
unfoldable pub committed_changes :
    List ChangeExecutionRecord
    → OperationRecord
    → List ChangeExecutionRecord
    → List ChangeExecutionRecord
unfolding reorder
committed_changes [] operation changes = changes
committed_changes (_ ∷ _) operation changes = reorder operation changes

-- `commit`, at the time `now`
unfoldable pub commit : OperationRecord → Records → ℕ → Bool → OperationRecord
unfolding committed_changes final_status
commit operation records now cancelled =
    let changes = values records in
    record operation {
      changes = committed_changes operation.changes operation changes;
      status = if cancelled then OperationStatus.cancelled else final_status changes;
      updated_at = now;
    }
