-- ===== src/Execution/Status.antt =====
-- The status that an operation's records give.
use desired_state_protocol.Common.{
  ℕ, true, false, ◌||◌, List, [], ◌∷◌, ◌≡◌, arith, ◌↔◌, ◌≢◌, any, filter, length, All, none, ◌⊎◌,
}
use desired_state_protocol.Protocol.Plan.{
  ChangeStatus, ChangeExecutionRecord, OperationStatus, status_eq, status_eq_iff,
}
use desired_state_protocol.Execution.Records.{has_status, skipped_with_error, final_status}

-- Some record has the status.
abbrev pub Some : ChangeStatus → List ChangeExecutionRecord → Type 0
Some status [] = ⊥
Some status (r ∷ rs) = (r.status ≡ status) ⊎ Some status rs

-- A record that leaves its operation complete.
abbrev pub IsClean : ChangeExecutionRecord → Type 0
IsClean r =
    (r.status ≢ ChangeStatus.failed)
    × (r.status ≢ ChangeStatus.blocked)
    × (r.status ≡ ChangeStatus.skipped → r.error ≡ none)

has_status-Some :
    (status : ChangeStatus) (rs : List ChangeExecutionRecord)
    → (has_status status rs ≡ true) ↔ Some status rs
unfolding has_status
has_status-Some status [] = ground arith
has_status-Some status (r ∷ rs) =
    ground (arith, status_eq_iff r.status status, has_status-Some status rs)

abbrev count_succeeded : List ChangeExecutionRecord → ℕ
count_succeeded rs = length (filter (λ r. status_eq r.status ChangeStatus.succeeded) rs)

count_succeeded-eq-zero :
    (rs : List ChangeExecutionRecord)
    → (count_succeeded rs ≡ 0) ↔ (¬ Some ChangeStatus.succeeded rs)
count_succeeded-eq-zero [] = ground arith
count_succeeded-eq-zero (r ∷ rs) =
    ground (arith, status_eq_iff r.status ChangeStatus.succeeded, count_succeeded-eq-zero rs)

skipped_with_error_iff :
    (r : ChangeExecutionRecord)
    → (skipped_with_error r ≡ false) ↔ (r.status ≡ ChangeStatus.skipped → r.error ≡ none)
unfolding skipped_with_error
skipped_with_error_iff r = ground (arith, status_eq_iff r.status ChangeStatus.skipped)

-- The three tests of `incomplete` fail together exactly on clean records.
incomplete_iff :
    (rs : List ChangeExecutionRecord)
    → ((has_status ChangeStatus.failed rs
          || has_status ChangeStatus.blocked rs
          || any skipped_with_error rs)
        ≡ false)
      ↔ All IsClean rs
unfolding has_status
incomplete_iff [] = ground arith
incomplete_iff (r ∷ rs) = ground (
  arith,
  incomplete_iff rs,
  skipped_with_error_iff r,
  status_eq_iff r.status ChangeStatus.failed,
  status_eq_iff r.status ChangeStatus.blocked,
)

-- The status of the records of a run: completed exactly if no record is failed, blocked or skipped
-- with an error; failed exactly if some record failed and none succeeded; and partially completed
-- in the cases that are left.
pub final_status_cases :
    (rs : List ChangeExecutionRecord)
    → ((final_status rs ≡ OperationStatus.completed) ↔ All IsClean rs)
      × ((final_status rs ≡ OperationStatus.failed)
          ↔ (Some ChangeStatus.failed rs × ¬ Some ChangeStatus.succeeded rs))
      × (final_status rs ≢ OperationStatus.completed
          → final_status rs ≢ OperationStatus.failed
          → final_status rs ≡ OperationStatus.partially_completed)
unfolding final_status
final_status_cases rs = (
  ground (arith, incomplete_iff rs),
  ground (arith, has_status-Some ChangeStatus.failed rs, count_succeeded-eq-zero rs),
  ground arith,
)
