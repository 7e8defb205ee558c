-- ===== src/Execution/Recorded.antt =====
-- The record that a run of one change leaves, against the calls that it made.
use desired_state_protocol.Common.{
  ℕ, ◌+◌, ◌≤◌, ◌<◌, false, List, [], ◌∷◌, ◌≡◌, refl, arith, Option, none, some, JsString, ◌≢◌,
  subst,
}
use desired_state_protocol.Protocol.Errors.{
  Thrown, dsp, other, unsettled, to_error_payload, is_retryable, ErrorPayload,
}
use desired_state_protocol.Protocol.Plan.{
  ChangeAction, PlanChange, ChangeStatus, ChangeExecutionRecord,
}
use desired_state_protocol.Execution.Effects.{
  World, read_clock, Trace, Result, return, throw, now, pure, ◌>>=◌,
}
use desired_state_protocol.Execution.Retry.{RetryOptions}
use desired_state_protocol.Execution.Records.{Records}
use desired_state_protocol.Execution.RunChange.{
  LoopEnd, done, gave_up, attempt_loop, loop_record, apply_with_retry, settled, run_effective,
  unmet_dependencies, run_action, run_change, base_record,
}
use desired_state_protocol.Execution.Attempts.{
  provider_calls, Ensures, and_then-Ensures, LoopPost, attempt_loop-LoopPost, CanRun,
}

-- What the record of a change says of the run that gave it, from `tr` to `tr'`.
pub record IsRecorded (limit : ℕ) (change : PlanChange) (records : Records) (tr : Trace)
    (r : ChangeExecutionRecord) (tr' : Trace) : Type 0 where
  pub same_id : r.change_id ≡ change.id
  pub same_action : r.action ≡ change.action
  pub counted : provider_calls tr' ≡ provider_calls tr + r.attempts
  pub bounded : r.attempts ≤ limit
  pub guarded : 0 < r.attempts → CanRun change records
  pub earned : r.status ≡ ChangeStatus.succeeded → CanRun change records × (0 < r.attempts)
  pub early :
      r.status ≡ ChangeStatus.failed
      → r.attempts < limit
      → (p : ErrorPayload) × (r.error ≡ some p) × (p.retryable ≡ false)
  pub blocked_stays : change.action ≡ ChangeAction.blocked → r.status ≡ ChangeStatus.blocked
  pub noop_skips :
      change.action ≡ ChangeAction.noop → (r.status ≡ ChangeStatus.skipped) × (r.error ≡ none)
  pub unmet_skips :
      change.action ≢ ChangeAction.blocked
      → unmet_dependencies change records ≢ []
      → r.status ≡ ChangeStatus.skipped

-- Only the wait between two attempts throws, and only a call of the provider never settles; then the
-- change was free to run.
abbrev pub RunPost :
    ℕ → PlanChange → Records → Trace → Result ChangeExecutionRecord → Trace → Type 0
RunPost limit change records tr (return r) tr' = IsRecorded limit change records tr r tr'
RunPost limit change records tr (throw _) tr' =
    CanRun change records × (provider_calls tr' ≤ provider_calls tr + limit)

retryable-payload : (e : Thrown) → is_retryable e ≡ false → (to_error_payload e).retryable ≡ false
unfolding is_retryable to_error_payload
retryable-payload (dsp e) h = h
retryable-payload other h = refl
retryable-payload unsettled h = refl

module _ (world : World) (retry : RetryOptions) (timeout_ms : ℕ) where
  loop_record-IsRecorded :
      (change : PlanChange) (records : Records) (tr tr' : Trace) (started finished : ℕ)
      (e : LoopEnd)
      → CanRun change records
      → LoopPost retry.max_attempts 0 tr (return e) tr'
      → IsRecorded retry.max_attempts change records tr
          (loop_record world retry timeout_ms change started e finished)
          tr'
  unfolding loop_record base_record
  loop_record-IsRecorded change records tr tr' started finished (done n a b) free (c, l, p) =
      record {
        same_id = refl;
        same_action = refl;
        counted = omega arith;
        bounded = omega arith;
        guarded = λ _. free;
        earned = λ _. (free, p);
        early = λ e _. cc;
        blocked_stays = λ e. absurd (free.not_blocked e);
        noop_skips = λ e. absurd (free.not_noop e);
        unmet_skips = λ _ u. absurd (u free.no_unmet);
      }
  loop_record-IsRecorded change records tr tr' started finished (gave_up n e) free (c, l, p) =
      record {
        same_id = refl;
        same_action = refl;
        counted = omega arith;
        bounded = omega arith;
        guarded = λ _. free;
        earned = λ e. cc;
        early = λ _ few. (to_error_payload e, refl, retryable-payload e (p (omega arith)));
        blocked_stays = λ e. absurd (free.not_blocked e);
        noop_skips = λ e. absurd (free.not_noop e);
        unmet_skips = λ _ u. absurd (u free.no_unmet);
      }

  apply_with_retry-RunPost :
      (change : PlanChange) (records : Records) (tr : Trace)
      → CanRun change records
      → Ensures
          (RunPost retry.max_attempts change records tr)
          (apply_with_retry world retry timeout_ms change tr)
  unfolding apply_with_retry
  apply_with_retry-RunPost change records tr free =
      let limit = retry.max_attempts in
      let tr' : Trace = read_clock ∷ tr in
      let started = world.now tr in
      let run = attempt_loop world retry timeout_ms change limit 0 other tr' in
      let post =
        attempt_loop-LoopPost world retry timeout_ms change limit 0 other tr' (omega arith) in
      and_then-Ensures (RunPost limit change records tr) run.0
        (λ e. now world >>= λ t. pure (loop_record world retry timeout_ms change started e t)) run.1
        (λ t e. (free, subst (λ r. LoopPost limit 0 tr' r run.1) e post))
        (λ l e.
          loop_record-IsRecorded change records tr (read_clock ∷ run.1) started (world.now run.1) l
            free (subst (λ r. LoopPost limit 0 tr' r run.1) e post))

  settled-RunPost :
      (change : PlanChange) (records : Records) (tr : Trace) (status : ChangeStatus)
      (error : Option ErrorPayload)
      → status ≢ ChangeStatus.succeeded
      → status ≢ ChangeStatus.failed
      → (change.action ≡ ChangeAction.blocked → status ≡ ChangeStatus.blocked)
      → (change.action ≡ ChangeAction.noop → (status ≡ ChangeStatus.skipped) × (error ≡ none))
      → (change.action ≢ ChangeAction.blocked
          → unmet_dependencies change records ≢ []
          → status ≡ ChangeStatus.skipped)
      → Ensures
          (RunPost retry.max_attempts change records tr)
          (settled world retry timeout_ms change status error tr)
  unfolding settled base_record
  settled-RunPost change records tr status error ns nf hb hn hu = record {
    same_id = refl;
    same_action = refl;
    counted = omega arith;
    bounded = omega arith;
    guarded = λ h. absurd (omega arith);
    earned = λ e. absurd (ns e);
    early = λ e. absurd (nf e);
    blocked_stays = hb;
    noop_skips = hn;
    unmet_skips = hu;
  }

  run_effective-RunPost :
      (change : PlanChange) (records : Records) (tr : Trace) (unmet : List JsString)
      → unmet_dependencies change records ≡ unmet
      → change.action ≢ ChangeAction.blocked
      → change.action ≢ ChangeAction.noop
      → Ensures
          (RunPost retry.max_attempts change records tr)
          (run_effective world retry timeout_ms change unmet tr)
  unfolding run_effective
  run_effective-RunPost change records tr [] e nb nn =
      apply_with_retry-RunPost change records tr
        (record { not_blocked = nb; not_noop = nn; no_unmet = e })
  run_effective-RunPost change records tr (d ∷ ds) e nb nn =
      settled-RunPost change records tr ChangeStatus.skipped _ (λ s. cc) (λ s. cc)
        (λ b. absurd (nb b)) (λ n. absurd (nn n)) (λ _ _. refl)

  run_action-RunPost :
      (action : ChangeAction) (change : PlanChange) (records : Records) (tr : Trace)
      → change.action ≡ action
      → Ensures
          (RunPost retry.max_attempts change records tr)
          (run_action world retry timeout_ms action change records tr)
  unfolding run_action
  run_action-RunPost ChangeAction.blocked change records tr e =
      settled-RunPost change records tr ChangeStatus.blocked _ (λ s. cc) (λ s. cc) (λ _. refl)
        (λ n. cc) (λ nb _. absurd (nb e))
  run_action-RunPost ChangeAction.noop change records tr e =
      settled-RunPost change records tr ChangeStatus.skipped none (λ s. cc) (λ s. cc) (λ b. cc)
        (λ _. (refl, refl)) (λ _ _. refl)
  run_action-RunPost _ change records tr e =
      run_effective-RunPost change records tr _ refl (λ b. cc) (λ n. cc)

-- The run of one change, whatever the provider answers. A record that is returned carries the
-- change's id and action; its attempts are exactly the provider calls that were made, at most
-- `maxAttempts`; there is a call, or a success, only if the change is neither blocked nor a noop
-- and all its dependencies are satisfied; a success takes at least one call; a failure before the
-- limit carries an error that is not retryable; a blocked change is recorded as blocked, a noop as
-- skipped without error, and a change with unmet dependencies as skipped. If the run throws, the
-- change was free to run and at most `maxAttempts` calls were made.
pub run_change-RunPost :
    (world : World) (retry : RetryOptions) (timeout_ms : ℕ) (change : PlanChange)
    (records : Records) (tr : Trace)
    → Ensures
        (RunPost retry.max_attempts change records tr)
        (run_change world retry timeout_ms change records tr)
unfolding run_change
run_change-RunPost world retry timeout_ms change records tr =
    run_action-RunPost world retry timeout_ms change.action change records tr refl
