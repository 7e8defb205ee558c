-- ===== src/Execution/Rule.antt =====
-- A proof rule for the loop of `executePlan`: an invariant of the changes left, the operation, the
-- records and the trace, and a postcondition of the result and the trace.
use desired_state_protocol.Common.{
  ℕ, Bool, true, false, List, [], ◌∷◌, ◌≡◌, refl, lookup, insert, Bool-cases, inl, inr,
}
use desired_state_protocol.Protocol.Errors.{Thrown}
use desired_state_protocol.Protocol.Plan.{
  PlanChange, ChangeExecutionRecord, OperationRecord, OperationStatus,
}
use desired_state_protocol.Execution.Effects.{
  World, saved, asked_cancellation, read_clock, Trace, Result, return, throw, Action, pure,
}
use desired_state_protocol.Execution.Retry.{RetryOptions}
use desired_state_protocol.Execution.Records.{Records, commit, order_records}
use desired_state_protocol.Execution.RunChange.{run_change}
use desired_state_protocol.Execution.Attempts.{Ensures, and_then-Ensures, seq-Ensures}
use desired_state_protocol.Execution.ExecutePlan.{
  already_succeeded, finish, report, visit, after_asking, initial_records, run_changes,
  execute_plan,
}

-- The operation that a progress report saves
abbrev pub progress : List PlanChange → OperationRecord → Records → ℕ → OperationRecord
unfolding order_records
progress plan op records time = record op {
  changes = order_records plan records;
  updated_at = time;
}

-- A progress report changes none of these.
pub progress-keeps :
    (plan : List PlanChange) (op : OperationRecord) (records : Records) (time : ℕ)
    → let op' = progress plan op records time in
      (op'.id ≡ op.id)
      × (op'.plan_id ≡ op.plan_id)
      × (op'.idempotency_key ≡ op.idempotency_key)
      × (op'.cancellation_requested ≡ op.cancellation_requested)
unfolding progress
progress-keeps plan op records time = (refl, refl, refl, refl)

-- What to show of an invariant and a postcondition.
pub record Rule (world : World) (retry : RetryOptions) (timeout_ms : ℕ) (plan : List PlanChange)
    (Inv : List PlanChange → OperationRecord → Records → Trace → Type 0)
    (Q : Result OperationRecord → Trace → Type 0) : Type 0 where
  -- the commit, at the end or on a cancellation
  pub ends :
      (rest : List PlanChange) (op : OperationRecord) (records : Records) (tr : Trace) (time : ℕ)
      (cancelled : Bool)
      → Inv rest op records tr
      → (cancelled ≡ false → rest ≡ [])
      → Q
          (return (commit op records time cancelled))
          (saved (commit op records time cancelled) ∷ read_clock ∷ tr)
  pub ends_throwing :
      (rest : List PlanChange) (op saved_op : OperationRecord) (records : Records) (tr : Trace)
      (e : Thrown)
      → Inv rest op records tr
      → world.on_progress (read_clock ∷ tr) saved_op ≡ throw e
      → Q (throw e) (saved saved_op ∷ read_clock ∷ tr)
  -- the question whether to cancel
  pub asks :
      (rest : List PlanChange) (op : OperationRecord) (records : Records) (tr : Trace)
      → Inv rest op records tr
      → Inv rest op records (asked_cancellation ∷ tr)
  pub ask_throws :
      (rest : List PlanChange) (op : OperationRecord) (records : Records) (tr : Trace) (e : Thrown)
      → Inv rest op records tr
      → world.is_cancellation_requested tr ≡ throw e
      → Q (throw e) (asked_cancellation ∷ tr)
  pub skips :
      (c : PlanChange) (rest : List PlanChange) (op : OperationRecord) (records : Records)
      (tr : Trace)
      → already_succeeded (lookup c.id records) ≡ true
      → Inv (c ∷ rest) op records tr
      → Inv rest op records tr
  -- a change that runs, and its report
  pub runs :
      (c : PlanChange) (rest : List PlanChange) (op : OperationRecord) (records : Records)
      (tr : Trace) (r : ChangeExecutionRecord) (time : ℕ)
      → already_succeeded (lookup c.id records) ≡ false
      → Inv (c ∷ rest) op records tr
      → (run_change world retry timeout_ms c records tr).0 ≡ return r
      → let tr' = (run_change world retry timeout_ms c records tr).1 in
        let op' = progress plan op (insert c.id r records) time in
        Inv rest op' (insert c.id r records) (saved op' ∷ read_clock ∷ tr')
  pub report_throws :
      (c : PlanChange) (rest : List PlanChange) (op : OperationRecord) (records : Records)
      (tr : Trace) (saved_op : OperationRecord) (e : Thrown)
      → already_succeeded (lookup c.id records) ≡ false
      → Inv (c ∷ rest) op records tr
      → let tr' = (run_change world retry timeout_ms c records tr).1 in
        world.on_progress (read_clock ∷ tr') saved_op ≡ throw e
        → Q (throw e) (saved saved_op ∷ read_clock ∷ tr')
  pub run_throws :
      (c : PlanChange) (rest : List PlanChange) (op : OperationRecord) (records : Records)
      (tr : Trace) (e : Thrown)
      → already_succeeded (lookup c.id records) ≡ false
      → Inv (c ∷ rest) op records tr
      → (run_change world retry timeout_ms c records tr).0 ≡ throw e
      → Q (throw e) (run_change world retry timeout_ms c records tr).1

module _ {world : World} {retry : RetryOptions} {timeout_ms : ℕ} {plan : List PlanChange}
    {Inv : List PlanChange → OperationRecord → Records → Trace → Type 0}
    {Q : Result OperationRecord → Trace → Type 0}
    (rule : Rule world retry timeout_ms plan Inv Q) where
  finish-Ensures :
      (rest : List PlanChange) (op : OperationRecord) (records : Records) (tr : Trace)
      (cancelled : Bool)
      → Inv rest op records tr
      → (cancelled ≡ false → rest ≡ [])
      → Ensures Q (finish world retry timeout_ms op records cancelled tr)
  unfolding finish
  finish-Ensures rest op records tr cancelled inv all =
      let time = world.now tr in
      let committed = commit op records time cancelled in
      let tr' = saved committed ∷ read_clock ∷ tr in
      and_then-Ensures Q (world.on_progress (read_clock ∷ tr) committed) (λ _. pure committed) tr'
        (λ e q. rule.ends_throwing rest op committed records tr e inv q)
        (λ _ _. rule.ends rest op records tr time cancelled inv all)

  abbrev VisitPost : List PlanChange → Result (OperationRecord × Records) → Trace → Type 0
  VisitPost rest (return n) tr = Inv rest n.0 n.1 tr
  VisitPost rest (throw e) tr = Q (throw e) tr

  visit-Ensures :
      (c : PlanChange) (rest : List PlanChange) (op : OperationRecord) (records : Records)
      (tr : Trace)
      → already_succeeded (lookup c.id records) ≡ false
      → Inv (c ∷ rest) op records tr
      → Ensures (VisitPost rest) (visit world retry timeout_ms plan c op records tr)
  unfolding visit report
  visit-Ensures c rest op records tr fresh inv =
      let run = run_change world retry timeout_ms c records tr in
      and_then-Ensures (VisitPost rest) run.0
        (λ r. report world retry timeout_ms plan op (insert c.id r records)) run.1
        (λ e q. rule.run_throws c rest op records tr e fresh inv q)
        (λ r q.
          let time = world.now run.1 in
          let op' = progress plan op (insert c.id r records) time in
          let tr' : Trace = saved op' ∷ read_clock ∷ run.1 in
          and_then-Ensures (VisitPost rest) (world.on_progress (read_clock ∷ run.1) op')
            (λ _. pure (op', insert c.id r records)) tr'
            (λ e p. rule.report_throws c rest op records tr op' e fresh inv p)
            (λ _ _. rule.runs c rest op records tr r time fresh inv q))

  -- A round, for a postcondition that what follows ensures
  after_asking-Ensures :
      (c : PlanChange) (rest : List PlanChange) (op : OperationRecord) (records : Records)
      (tr : Trace) (next : OperationRecord → Records → Action OperationRecord) (cancelled : Bool)
      → already_succeeded (lookup c.id records) ≡ false
      → Inv (c ∷ rest) op records tr
      → ((op' : OperationRecord) (records' : Records) (tr' : Trace)
          → Inv rest op' records' tr'
          → Ensures Q (next op' records' tr'))
      → Ensures Q (after_asking world retry timeout_ms plan c op records next cancelled tr)
  unfolding after_asking
  after_asking-Ensures c rest op records tr next true fresh inv ih =
      finish-Ensures (c ∷ rest) op records tr true inv (λ e. cc)
  after_asking-Ensures c rest op records tr next false fresh inv ih =
      let first = visit world retry timeout_ms plan c op records tr in
      seq-Ensures (VisitPost rest) Q first.0 (λ x. next x.0 x.1) first.1
        (visit-Ensures c rest op records tr fresh inv) (λ e q. q)
        (λ n inv'. ih n.0 n.1 first.1 inv')

  run_changes-Ensures :
      (rest : List PlanChange) (op : OperationRecord) (records : Records) (tr : Trace)
      → Inv rest op records tr
      → Ensures Q (run_changes world retry timeout_ms plan rest op records tr)
  unfolding run_changes
  run_changes-Ensures [] op records tr inv = finish-Ensures [] op records tr false inv (λ _. refl)
  run_changes-Ensures (c ∷ rest) op records tr inv =
      let tr' : Trace = asked_cancellation ∷ tr in
      elim (Bool-cases (already_succeeded (lookup c.id records))) [
        | inl old ↦
            rw (old, run_changes)
              (run_changes-Ensures rest op records tr (rule.skips c rest op records tr old inv))
        | inr fresh ↦
            rw (fresh, run_changes)
              (and_then-Ensures Q (world.is_cancellation_requested tr)
                (after_asking world retry timeout_ms plan c op records
                  (run_changes world retry timeout_ms plan rest))
                tr' (λ e q. rule.ask_throws (c ∷ rest) op records tr e inv q)
                (λ b _.
                  after_asking-Ensures c rest op records tr'
                    (run_changes world retry timeout_ms plan rest) b fresh
                    (rule.asks (c ∷ rest) op records tr inv) (run_changes-Ensures rest)))
      ]

-- The rule for a whole run: the invariant is shown once the first progress report is out.
pub execute_plan-Ensures :
    {world : World} {retry : RetryOptions} {timeout_ms : ℕ} {plan : List PlanChange}
    {Inv : List PlanChange → OperationRecord → Records → Trace → Type 0}
    {Q : Result OperationRecord → Trace → Type 0}
    → Rule world retry timeout_ms plan Inv Q
    → (operation : OperationRecord) (tr : Trace)
    → let running = record operation {
      status = OperationStatus.running;
      updated_at = world.now tr;
    } in
      Inv plan running (initial_records operation) (saved running ∷ read_clock ∷ tr)
      → ((e : Thrown)
          → world.on_progress (read_clock ∷ tr) running ≡ throw e
          → Q (throw e) (saved running ∷ read_clock ∷ tr))
      → Ensures Q (execute_plan world retry timeout_ms plan operation tr)
unfolding execute_plan
execute_plan-Ensures {world} {retry} {timeout_ms} {plan} {Q} rule operation tr inv fails =
    let running = record operation {
      status = OperationStatus.running;
      updated_at = world.now tr;
    } in
    let tr' : Trace = saved running ∷ read_clock ∷ tr in
    and_then-Ensures Q (world.on_progress (read_clock ∷ tr) running)
      (λ _. run_changes world retry timeout_ms plan plan running (initial_records operation)) tr'
      fails (λ _ _. run_changes-Ensures rule plan running (initial_records operation) tr' inv)
