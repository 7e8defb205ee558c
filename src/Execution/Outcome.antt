-- ===== src/Execution/Outcome.antt =====
-- What a run of a plan returns: that it returns at all, that the result is stored, and its status.
use desired_state_protocol.Common.{
  ℕ, suc, List, [], ◌∷◌, ◌≡◌, refl, ◌≢◌, subst, JsString, ◌+◌, zero,
}
use desired_state_protocol.Protocol.Errors.{Thrown, other}
use desired_state_protocol.Protocol.Plan.{ChangeAction, PlanChange, OperationRecord}
use desired_state_protocol.Execution.Effects.{
  World, unanswered, attempted, slept, read_clock, now, pure, ◌>>=◌, saved, Trace, Result, return,
  throw,
}
use desired_state_protocol.Execution.Retry.{RetryOptions}
use desired_state_protocol.Execution.Records.{Records}
use desired_state_protocol.Execution.RunChange.{
  run_change, run_action, run_effective, apply_with_retry, settled, attempt_loop, loop_record,
}
use desired_state_protocol.Execution.Attempts.{Ensures, seq-Ensures, after_response-Ensures}
use desired_state_protocol.Execution.ExecutePlan.{execute_plan}
use desired_state_protocol.Execution.Rule.{Rule, execute_plan-Ensures}

-- The result of the run is what its last progress report saved.
abbrev pub IsStored : Result OperationRecord → Trace → Type 0
IsStored (return op) tr = (before : Trace) × (tr ≡ saved op ∷ before)
IsStored (throw e) tr = Unit

module _ (world : World) (retry : RetryOptions) (timeout_ms : ℕ) (plan : List PlanChange) where
  IsStored-rule : Rule world retry timeout_ms plan (λ _ _ _ _. Unit {0}) IsStored
  IsStored-rule = record {
    ends = λ rest op records tr time cancelled _ _. (_, refl);
    ends_throwing = λ rest op op' records tr e _ _. tt;
    asks = λ rest op records tr _. tt;
    ask_throws = λ rest op records tr e _ _. tt;
    skips = λ c rest op records tr old _. tt;
    runs = λ c rest op records tr r time fresh _ q. tt;
    report_throws = λ c rest op records tr op' e fresh _ _. tt;
    run_throws = λ c rest op records tr e fresh _ _. tt;
  }

-- When a run returns an operation, the last event of its trace is the progress report that saved
-- exactly that operation.
pub execute_plan-IsStored :
    (world : World) (retry : RetryOptions) (timeout_ms : ℕ) (plan : List PlanChange)
    (operation : OperationRecord) (tr : Trace)
    → Ensures IsStored (execute_plan world retry timeout_ms plan operation tr)
execute_plan-IsStored world retry timeout_ms plan operation tr =
    execute_plan-Ensures (IsStored-rule world retry timeout_ms plan) operation tr tt (λ e _. tt)

-- The store, the cancellation query and the timer answer, and each call of the provider settles: it
-- may fail in every other way.
pub record IsReliable (world : World) : Type 0 where
  pub saves : (tr : Trace) (op : OperationRecord) → world.on_progress tr op ≡ return tt
  pub answers : (tr : Trace) (e : Thrown) → world.is_cancellation_requested tr ≢ throw e
  pub waits : (tr : Trace) (ms : ℕ) → world.sleep tr ms ≡ return tt
  pub settles :
      (tr : Trace) (change : PlanChange) (attempt : ℕ)
      → world.apply_change tr change attempt ≢ unanswered

abbrev Returns : {A : Type 0} → Result A → Trace → Type 0
Returns {A} (return a) tr = Unit
Returns (throw e) tr = ⊥

module _ (world : World) (retry : RetryOptions) (timeout_ms : ℕ) (reliable : IsReliable world) where
  attempt_loop-Returns :
      (change : PlanChange) (left attempts : ℕ) (last_error : Thrown) (tr : Trace)
      → Ensures Returns (attempt_loop world retry timeout_ms change left attempts last_error tr)
  unfolding attempt_loop
  attempt_loop-Returns change zero attempts last_error tr = tt
  attempt_loop-Returns change (suc left) attempts last_error tr =
      let tr' : Trace = attempted change.id (attempts + 1) ∷ tr in
      after_response-Ensures world retry timeout_ms Returns
        (world.apply_change tr change (attempts + 1)) (attempts + 1)
        (attempt_loop world retry timeout_ms change left (attempts + 1)) tr' (λ a b. tt) (λ e _. tt)
        (λ ms e q. let waits = reliable.waits tr' ms in absurd (cc))
        (λ ms e _ _. attempt_loop-Returns change left (attempts + 1) e (slept ms ∷ tr'))
        (reliable.settles tr change (attempts + 1))

  run_effective-Returns :
      (change : PlanChange) (unmet : List JsString) (tr : Trace)
      → Ensures Returns (run_effective world retry timeout_ms change unmet tr)
  unfolding run_effective apply_with_retry settled
  run_effective-Returns change [] tr =
      let tr' : Trace = read_clock ∷ tr in
      let run = attempt_loop world retry timeout_ms change retry.max_attempts 0 other tr' in
      seq-Ensures Returns Returns run.0
        (λ e.
          now world >>= λ t. pure (loop_record world retry timeout_ms change (world.now tr) e t))
        run.1 (attempt_loop-Returns change retry.max_attempts 0 other tr') (λ e h. h) (λ a _. tt)
  run_effective-Returns change (d ∷ ds) tr = tt

  run_action-Returns :
      (action : ChangeAction) (change : PlanChange) (records : Records) (tr : Trace)
      → Ensures Returns (run_action world retry timeout_ms action change records tr)
  unfolding run_action settled
  run_action-Returns ChangeAction.blocked change records tr = tt
  run_action-Returns ChangeAction.noop change records tr = tt
  run_action-Returns _ change records tr = run_effective-Returns change _ tr

  run_change-ne-throw :
      (change : PlanChange) (records : Records) (tr : Trace) (e : Thrown)
      → (run_change world retry timeout_ms change records tr).0 ≢ throw e
  unfolding run_change
  run_change-ne-throw change records tr e h =
      let run = run_action world retry timeout_ms change.action change records tr in
      subst (λ r. Returns r run.1) h (run_action-Returns change.action change records tr)

  save_fails : (tr : Trace) (op : OperationRecord) (e : Thrown) → world.on_progress tr op ≢ throw e
  save_fails tr op e q = let fine = reliable.saves tr op in cc

  Returns-rule :
      (plan : List PlanChange) → Rule world retry timeout_ms plan (λ _ _ _ _. Unit {0}) Returns
  Returns-rule plan = record {
    ends = λ rest op records tr time cancelled _ _. tt;
    ends_throwing = λ rest op op' records tr e _ q. absurd (save_fails _ op' e q);
    asks = λ rest op records tr _. tt;
    ask_throws = λ rest op records tr e _ q. absurd (reliable.answers tr e q);
    skips = λ c rest op records tr old _. tt;
    runs = λ c rest op records tr r time fresh _ q. tt;
    report_throws = λ c rest op records tr op' e fresh _ q. absurd (save_fails _ op' e q);
    run_throws = λ c rest op records tr e fresh _ q. absurd (run_change-ne-throw c records tr e q);
  }

-- If the store, the cancellation query and the timer answer, and every call of the provider settles, a
-- run returns an operation: no failure of the provider escapes from the run.
pub execute_plan-returns :
    (world : World) (retry : RetryOptions) (timeout_ms : ℕ) (plan : List PlanChange)
    (operation : OperationRecord) (tr : Trace)
    → IsReliable world
    → (op : OperationRecord) × ((execute_plan world retry timeout_ms plan operation tr).0
        ≡ return op)
execute_plan-returns world retry timeout_ms plan operation tr reliable =
    let rule = Returns-rule world retry timeout_ms reliable plan in
    let run = execute_plan world retry timeout_ms plan operation tr in
    found run.0 run.1 (
      execute_plan-Ensures rule operation tr tt
        (λ e q. absurd (save_fails world retry timeout_ms reliable _ _ e q)))
  where
    found :
        (r : Result OperationRecord) (t : Trace)
        → Returns r t
        → (op : OperationRecord) × (r ≡ return op)
    found (return op) t h = (op, refl)
    found (throw e) t h = absurd h
