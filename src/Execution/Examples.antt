-- ===== src/Execution/Examples.antt =====
-- A plan of three changes run against a provider that times out once, and the theorems there.
use desired_state_protocol.Common.{
  true, false, List, [], ◌∷◌, ◌≡◌, refl, JsString, js, none, some, map, ◌==◌, All, ◌≢◌, length, ◌↔◌,
  String, str_eq, lookup, ℕ, Bool-cases, inl, inr, arith,
}
use desired_state_protocol.Protocol.Errors.{other}
use desired_state_protocol.Protocol.Risk.{low, agent}
use desired_state_protocol.Protocol.Plan.{
  ChangeAction, PlanChange, ChangeStatus, OperationStatus, OperationRecord, status_eq, action_eq,
  ChangeExecutionRecord,
}
use desired_state_protocol.Execution.Effects.{
  World, applied, rejected, unanswered, Trace, timed_out, return,
}
use desired_state_protocol.Execution.Retry.{default_retry}
use desired_state_protocol.Execution.Attempts.{Ensures, provider_calls}
use desired_state_protocol.Execution.RunChange.{run_change, base_record}
use desired_state_protocol.Execution.ExecutePlan.{execute_plan}
use desired_state_protocol.Execution.Recorded.{RunPost, run_change-RunPost}
use desired_state_protocol.Execution.Justified.{IsJustified, execute_plan-IsJustified}
use desired_state_protocol.Execution.Outcome.{
  IsStored, IsReliable, execute_plan-IsStored, execute_plan-returns,
}
use desired_state_protocol.Execution.Records.{final_status, dependency_satisfied}
use desired_state_protocol.Execution.Status.{IsClean, Some, final_status_cases}
use desired_state_protocol.Execution.Identity.{ReturnsSame, execute_plan-IsSameOperation}
use desired_state_protocol.Execution.Dependencies.{
  HasDistinctIds, AllBacked, execute_plan-AllBacked,
}

abbrev change : String → ChangeAction → List JsString → PlanChange
change id action dependencies = record {
  id = js id;
  resource_type = js "mock.table";
  resource_key = js id;
  action = action;
  path = none;
  before = none;
  after = none;
  fields = [];
  reason = js "differs";
  reversible = true;
  destructive = false;
  dependencies = dependencies;
  estimated_risk = low;
  blocked_by = none;
}

-- The parent exists already, the child depends on it, and a deletion is blocked.
abbrev plan : List PlanChange
plan =
    change "parent" ChangeAction.noop []
    ∷ change "child" ChangeAction.create (js "parent" ∷ [])
    ∷ change "gone" ChangeAction.blocked []
    ∷ []

abbrev operation : OperationRecord
operation = record {
  id = js "op_1";
  tenant = js "default";
  plan_id = js "plan_1";
  plan_hash = js "sha256:0";
  idempotency_key = js "k";
  status = OperationStatus.created;
  actor = record { type = agent; id = js "a" };
  created_at = 0;
  updated_at = 0;
  changes = [];
  verification = none;
  cancellation_requested = false;
  error = none;
}

-- The first attempt times out, the second is answered. Nothing cancels.
abbrev world : World
world = record {
  apply_change = λ tr c n. elim (n == 1) [
    | true ↦ rejected other timed_out
    | false ↦ applied (some (js "ext")) none
  ];
  on_progress = λ tr op. return tt;
  is_cancellation_requested = λ tr. return false;
  now = λ tr. length tr;
  sleep = λ tr ms. return tt;
}

answered :
    (tr : Trace) (change : PlanChange) (attempt : ℕ)
    → world.apply_change tr change attempt ≢ unanswered
answered tr change attempt e = elim (Bool-cases (attempt == 1)) [
  | inl first ↦ ground arith
  | inr later ↦ ground arith
]

world-IsReliable : IsReliable world
world-IsReliable = record {
  saves = λ tr op. refl;
  answers = λ tr e h. cc;
  waits = λ tr ms. refl;
  settles = answered;
}

calls_made : provider_calls (execute_plan world default_retry 1000 plan operation []).1 ≡ 2
unfolding execute_plan status_eq action_eq lookup str_eq dependency_satisfied
calls_made = refl

abbrev statuses : List ChangeExecutionRecord → List ChangeStatus
statuses rs = map (λ r. r.status) rs

run_change-RunPost_example :
    Ensures
      (RunPost 3 (change "child" ChangeAction.create []) [] [])
      (run_change world default_retry 1000 (change "child" ChangeAction.create []) [] [])
run_change-RunPost_example =
    run_change-RunPost world default_retry 1000 (change "child" ChangeAction.create []) [] []

execute_plan-IsJustified_example :
    All (IsJustified plan operation) (execute_plan world default_retry 1000 plan operation []).1
execute_plan-IsJustified_example = execute_plan-IsJustified world default_retry 1000 plan operation

execute_plan-IsStored_example :
    Ensures IsStored (execute_plan world default_retry 1000 plan operation [])
execute_plan-IsStored_example = execute_plan-IsStored world default_retry 1000 plan operation []

execute_plan-returns_example :
    (op : OperationRecord) × ((execute_plan world default_retry 1000 plan operation []).0
      ≡ return op)
execute_plan-returns_example =
    execute_plan-returns world default_retry 1000 plan operation [] world-IsReliable

plan-HasDistinctIds : HasDistinctIds plan
unfolding str_eq
plan-HasDistinctIds = ((refl, (refl, tt)), ((refl, tt), (tt, tt)))

execute_plan-AllBacked_example :
    Ensures (AllBacked plan) (execute_plan world default_retry 1000 plan operation [])
execute_plan-AllBacked_example =
    execute_plan-AllBacked world default_retry 1000 plan operation [] plan-HasDistinctIds refl

abbrev failed_record : ChangeExecutionRecord
unfolding base_record
failed_record =
    let base = base_record (change "child" ChangeAction.create []) in
    record base { status = ChangeStatus.failed; attempts = 3 }

abbrev records : List ChangeExecutionRecord
records = failed_record ∷ []

final_status_cases_example :
    ((final_status records ≡ OperationStatus.completed) ↔ All IsClean records)
    × ((final_status records ≡ OperationStatus.failed)
        ↔ (Some ChangeStatus.failed records × ¬ Some ChangeStatus.succeeded records))
    × (final_status records ≢ OperationStatus.completed
        → final_status records ≢ OperationStatus.failed
        → final_status records ≡ OperationStatus.partially_completed)
final_status_cases_example = final_status_cases records

execute_plan-IsSameOperation_example :
    Ensures (ReturnsSame operation) (execute_plan world default_retry 1000 plan operation [])
execute_plan-IsSameOperation_example =
    execute_plan-IsSameOperation world default_retry 1000 plan operation []
