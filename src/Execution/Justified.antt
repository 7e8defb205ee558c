-- ===== src/Execution/Justified.antt =====
-- Which provider calls a run of a plan makes: what the trace may hold.
use mathlib.Core.List.{Memᴰ}
use desired_state_protocol.Common.{
  ℕ, zero, suc, ◌+◌, true, false, List, [], ◌∷◌, ◌≡◌, refl, JsString, ◌≢◌, All, lookup, insert,
  lookup-insert, str_eq, str_eq_sound, Bool-cases, inl, inr,
}
use desired_state_protocol.Protocol.Errors.{Thrown, other}
use desired_state_protocol.Protocol.Plan.{
  ChangeAction, PlanChange, ChangeExecutionRecord, OperationRecord,
}
use desired_state_protocol.Execution.Effects.{
  World, Event, attempted, slept, saved, asked_cancellation, read_clock, Trace, pure, now, ◌>>=◌,
}
use desired_state_protocol.Execution.Retry.{RetryOptions}
use desired_state_protocol.Execution.Records.{Records}
use desired_state_protocol.Execution.RunChange.{
  attempt_loop, loop_record, apply_with_retry, settled, run_effective, run_action, run_change,
}
use desired_state_protocol.Execution.Attempts.{and_then-Ensures, after_response-Ensures}
use desired_state_protocol.Execution.Rule.{Rule, execute_plan-Ensures}
use desired_state_protocol.Execution.ExecutePlan.{already_succeeded, initial_records, execute_plan}

-- A predicate on events that holds of everything but provider calls
pub record IsQuiet (P : Event → Type 0) : Type 0 where
  pub of_slept : (ms : ℕ) → P (slept ms)
  pub of_saved : (o : OperationRecord) → P (saved o)
  pub of_asked : P asked_cancellation
  pub of_clock : P read_clock

module _ (world : World) (retry : RetryOptions) (timeout_ms : ℕ) (P : Event → Type 0)
    (quiet : IsQuiet P) where
  attempt_loop-All :
      (change : PlanChange) (left attempts : ℕ) (last_error : Thrown) (tr : Trace)
      → ((n : ℕ) → P (attempted change.id n))
      → All P tr
      → All P (attempt_loop world retry timeout_ms change left attempts last_error tr).1
  unfolding attempt_loop
  attempt_loop-All change zero attempts last_error tr calls h = h
  attempt_loop-All change (suc left) attempts last_error tr calls h =
      let tr' : Trace = attempted change.id (attempts + 1) ∷ tr in
      let h' : All P tr' = (calls (attempts + 1), h) in
      after_response-Ensures world retry timeout_ms (λ _ t. All P t)
        (world.apply_change tr change (attempts + 1)) (attempts + 1)
        (attempt_loop world retry timeout_ms change left (attempts + 1)) tr' (λ a b. h') (λ e _. h')
        (λ ms e _. (quiet.of_slept ms, h'))
        (λ ms e _ _.
          attempt_loop-All change left (attempts + 1) e (slept ms ∷ tr') calls
            (quiet.of_slept ms, h'))
        (λ _. h')

  run_effective-All :
      (change : PlanChange) (unmet : List JsString) (tr : Trace)
      → ((n : ℕ) → P (attempted change.id n))
      → All P tr
      → All P (run_effective world retry timeout_ms change unmet tr).1
  unfolding run_effective apply_with_retry settled
  run_effective-All change [] tr calls h =
      let run =
        attempt_loop world retry timeout_ms change retry.max_attempts 0 other (read_clock ∷ tr) in
      let h' =
        attempt_loop-All change retry.max_attempts 0 other (read_clock ∷ tr) calls
          (quiet.of_clock, h) in
      and_then-Ensures (λ _ t. All P t) run.0
        (λ e.
          now world >>= λ t. pure (loop_record world retry timeout_ms change (world.now tr) e t))
        run.1 (λ _ _. h') (λ _ _. (quiet.of_clock, h'))
  run_effective-All change (d ∷ ds) tr calls h = (quiet.of_clock, h)

  pub run_action-All :
      (action : ChangeAction) (change : PlanChange) (records : Records) (tr : Trace)
      → (action ≢ ChangeAction.blocked
          → action ≢ ChangeAction.noop
          → (n : ℕ) → P (attempted change.id n))
      → All P tr
      → All P (run_action world retry timeout_ms action change records tr).1
  unfolding run_action settled
  run_action-All ChangeAction.blocked change records tr calls h = (quiet.of_clock, h)
  run_action-All ChangeAction.noop change records tr calls h = (quiet.of_clock, h)
  run_action-All _ change records tr calls h =
      run_effective-All change _ tr (calls (λ b. cc) (λ n. cc)) h

-- A provider call is for a change of the plan that is neither blocked nor a noop, and that had not
-- succeeded in the operation as it was given.
abbrev pub IsJustified : List PlanChange → OperationRecord → Event → Type 0
IsJustified plan operation (attempted id n) =
    (c : PlanChange) × Memᴰ c plan
    × (c.id ≡ id)
    × (c.action ≢ ChangeAction.blocked)
    × (c.action ≢ ChangeAction.noop)
    × (already_succeeded (lookup c.id (initial_records operation)) ≡ false)
IsJustified plan operation _ = Unit

-- What had succeeded at first still has.
abbrev Keeps : Records → Records → Type 0
Keeps initial records =
    (k : JsString)
    → already_succeeded (lookup k initial) ≡ true
    → already_succeeded (lookup k records) ≡ true

Keeps-insert :
    (initial records : Records) (k : JsString) (r : ChangeExecutionRecord)
    → Keeps initial records
    → already_succeeded (lookup k records) ≡ false
    → Keeps initial (insert k r records)
Keeps-insert initial records k r keeps fresh j h =
    let old = keeps j h in
    elim (Bool-cases (str_eq k j)) [
      | inl same ↦ let e = str_eq_sound k j same in absurd (cc)
      | inr other_key ↦ rw (lookup-insert k j r records, other_key) old
    ]

module _ (world : World) (retry : RetryOptions) (timeout_ms : ℕ) (plan : List PlanChange)
    (operation : OperationRecord) where
  abbrev J : Event → Type 0
  J = IsJustified plan operation

  quiet : IsQuiet J
  quiet = record { of_slept = λ _. tt; of_saved = λ _. tt; of_asked = tt; of_clock = tt }

  -- The invariant of the loop: the changes left are the plan's, and all calls so far are justified.
  record Inv (rest : List PlanChange) (op : OperationRecord) (records : Records) (tr : Trace)
      : Type 0 where
    listed : (c : PlanChange) → Memᴰ c rest → Memᴰ c plan
    keeps : Keeps (initial_records operation) records
    calls : All J tr

  run_change-All :
      (c : PlanChange) (rest : List PlanChange) (op : OperationRecord) (records : Records)
      (tr : Trace)
      → already_succeeded (lookup c.id records) ≡ false
      → Inv (c ∷ rest) op records tr
      → All J (run_change world retry timeout_ms c records tr).1
  unfolding run_change
  run_change-All c rest op records tr fresh inv =
      let not_yet : already_succeeded (lookup c.id (initial_records operation)) ≡ false =
        elim (Bool-cases (already_succeeded (lookup c.id (initial_records operation)))) [
          | inl old ↦ let now_old = inv.keeps c.id old in cc
          | inr new ↦ new
        ] in
      run_action-All world retry timeout_ms J quiet c.action c records tr
        (λ nb nn n. (c, inv.listed c (Memᴰ.head refl), refl, nb, nn, not_yet)) inv.calls

  rule : Rule world retry timeout_ms plan Inv (λ _ t. All J t)
  rule = record {
    ends = λ rest op records tr time cancelled inv _. (tt, (tt, inv.calls));
    ends_throwing = λ rest op op' records tr e inv _. (tt, (tt, inv.calls));
    asks = λ rest op records tr inv. record {
      listed = inv.listed;
      keeps = inv.keeps;
      calls = (tt, inv.calls);
    };
    ask_throws = λ rest op records tr e inv _. (tt, inv.calls);
    skips = λ c rest op records tr old inv. record {
      listed = λ d m. inv.listed d (Memᴰ.tail m);
      keeps = inv.keeps;
      calls = inv.calls;
    };
    runs = λ c rest op records tr r time fresh inv q. record {
      listed = λ d m. inv.listed d (Memᴰ.tail m);
      keeps = Keeps-insert (initial_records operation) records c.id r inv.keeps fresh;
      calls = (tt, (tt, run_change-All c rest op records tr fresh inv));
    };
    report_throws = λ c rest op records tr op' e fresh inv _.
        (tt, (tt, run_change-All c rest op records tr fresh inv));
    run_throws =
        λ c rest op records tr e fresh inv _. run_change-All c rest op records tr fresh inv;
  }

-- Whatever the provider, the store and the timer answer, and whether the run returns or throws:
-- every provider call in its trace is for a change of the plan that is neither blocked nor a noop,
-- and that had not succeeded in the operation which the run was given.
pub execute_plan-IsJustified :
    (world : World) (retry : RetryOptions) (timeout_ms : ℕ) (plan : List PlanChange)
    (operation : OperationRecord)
    → All (IsJustified plan operation) (execute_plan world retry timeout_ms plan operation []).1
execute_plan-IsJustified world retry timeout_ms plan operation =
    execute_plan-Ensures (rule world retry timeout_ms plan operation) operation []
      (record { listed = λ c m. m; keeps = λ k h. h; calls = (tt, (tt, tt)) })
      (λ e _. (tt, (tt, tt)))
