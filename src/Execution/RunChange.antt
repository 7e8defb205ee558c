-- ===== src/Execution/RunChange.antt =====
-- packages/execution-engine/src/execute.ts: one change, with its guards and its retry loop.
use desired_state_protocol.Common.{
  ℕ, zero, suc, ◌+◌, true, false, not, ◌||◌, List, [], ◌∷◌, ◌++◌, Option, none, some, JsString, js,
  decimal, filter, leb, lookup, if◌then◌else◌,
}
use desired_state_protocol.Protocol.Errors.{
  Thrown, dsp, other, dsp_error, provider_timeout, cancelled, ErrorPayload, to_error_payload,
  is_retryable, unsettled, destructive_action_blocked, provider_error,
}
use desired_state_protocol.Protocol.Plan.{
  ChangeAction, PlanChange, ChangeStatus, ChangeExecutionRecord,
}
use desired_state_protocol.Execution.Effects.{
  World, SignalState, live, timed_out, aborted, Response, applied, rejected, unanswered, throw,
  Action, pure, ◌>>=◌, ◌>>◌, apply_change, now, sleep,
}
use desired_state_protocol.Execution.Retry.{RetryOptions, backoff_delay}
use desired_state_protocol.Execution.Records.{Records, dependency_satisfied}

unfoldable pub normalize_error : Thrown → SignalState → ℕ → Thrown
normalize_error error live timeout_ms = error
normalize_error error timed_out timeout_ms = dsp (record {
  code = provider_timeout;
  message = js "Provider call exceeded " ++ decimal timeout_ms ++ js "ms";
  retryable = true;
})
normalize_error error aborted timeout_ms = dsp (dsp_error cancelled (js "Operation was cancelled"))

-- How the `while` loop ends, with the attempts made: by its `return`, or behind it.
pub data LoopEnd : Type 0 where
  done : (attempts : ℕ) (external_id provider_request_id : Option JsString) → LoopEnd
  gave_up : (attempts : ℕ) (last_error : Thrown) → LoopEnd

-- `xs.join(', ')`
unfoldable pub join_comma : List JsString → JsString
join_comma [] = []
join_comma (x ∷ []) = x
join_comma (x ∷ (y ∷ ys)) = x ++ js ", " ++ join_comma (y ∷ ys)

-- The record `base`
unfoldable pub base_record : PlanChange → ChangeExecutionRecord
base_record change = record {
  change_id = change.id;
  resource_type = change.resource_type;
  resource_key = change.resource_key;
  action = change.action;
  status = ChangeStatus.pending;
  attempts = 0;
  started_at = none;
  finished_at = none;
  external_id = none;
  provider_request_id = none;
  error = none;
}

unfoldable pub unmet_dependencies : PlanChange → Records → List JsString
unmet_dependencies change records =
    filter (λ d. not (dependency_satisfied (lookup d records))) change.dependencies

-- The `await` of a promise that never settles
abbrev never : Action LoopEnd
never tr = (throw unsettled, tr)

module _ (world : World) (retry : RetryOptions) (timeout_ms : ℕ) where
  -- What the loop does with the answer to its attempt number `attempts`. `again` is the next round.
  unfoldable pub after_response : Response → ℕ → (Thrown → Action LoopEnd) → Action LoopEnd
  unfolding normalize_error is_retryable backoff_delay
  after_response (applied external_id request_id) attempts again =
      pure (done attempts external_id request_id)
  after_response (rejected error signal) attempts again =
      let last_error = normalize_error error signal timeout_ms in
      if not (is_retryable last_error) || leb retry.max_attempts attempts
      then pure (gave_up attempts last_error)
      else (sleep world (backoff_delay attempts retry) >> again last_error)
  after_response unanswered attempts again = never

  -- The `while` loop with `left` more attempts before `maxAttempts`, after `attempts` of them.
  unfoldable pub attempt_loop : PlanChange → ℕ → ℕ → Thrown → Action LoopEnd
  unfolding after_response
  attempt_loop change zero attempts last_error = pure (gave_up attempts last_error)
  attempt_loop change (suc left) attempts last_error = do
    response ← apply_change world change (attempts + 1)
    after_response response (attempts + 1) (attempt_loop change left (attempts + 1))

  unfoldable pub loop_record : PlanChange → ℕ → LoopEnd → ℕ → ChangeExecutionRecord
  unfolding base_record to_error_payload
  loop_record change started (done attempts external_id request_id) finished =
      let base = base_record change in
      record base {
        status = ChangeStatus.succeeded;
        attempts = attempts;
        started_at = some started;
        finished_at = some finished;
        external_id = external_id;
        provider_request_id = request_id;
        error = none;
      }
  loop_record change started (gave_up attempts last_error) finished =
      let base = base_record change in
      record base {
        status = ChangeStatus.failed;
        attempts = attempts;
        started_at = some started;
        finished_at = some finished;
        error = some (to_error_payload last_error);
      }

  -- The part of `runChange` behind its guards
  unfoldable pub apply_with_retry : PlanChange → Action ChangeExecutionRecord
  unfolding attempt_loop loop_record
  apply_with_retry change = do
    started ← now world
    end ← attempt_loop change retry.max_attempts 0 other
    finished ← now world
    pure (loop_record change started end finished)

  -- A record without an attempt
  unfoldable pub settled :
      PlanChange → ChangeStatus → Option ErrorPayload → Action ChangeExecutionRecord
  unfolding base_record
  settled change status error = do
    finished ← now world
    let base = base_record change
    pure (record base { status = status; finished_at = some finished; error = error })

  abbrev blocked_error : PlanChange → ErrorPayload
  blocked_error change = record {
    code = destructive_action_blocked;
    message = change.reason;
    retryable = false;
  }

  abbrev unmet_error : List JsString → ErrorPayload
  unmet_error unmet = record {
    code = provider_error;
    message = js "Skipped because dependencies were not satisfied: " ++ join_comma unmet;
    retryable = false;
  }

  unfoldable pub run_effective : PlanChange → List JsString → Action ChangeExecutionRecord
  unfolding apply_with_retry settled
  run_effective change [] = apply_with_retry change
  run_effective change (d ∷ ds) = settled change ChangeStatus.skipped (some (unmet_error (d ∷ ds)))

  -- The guards of `runChange`, on the action of the change
  unfoldable pub run_action : ChangeAction → PlanChange → Records → Action ChangeExecutionRecord
  unfolding run_effective settled unmet_dependencies
  run_action ChangeAction.blocked change records =
      settled change ChangeStatus.blocked (some (blocked_error change))
  run_action ChangeAction.noop change records = settled change ChangeStatus.skipped none
  run_action _ change records = run_effective change (unmet_dependencies change records)

  unfoldable pub run_change : PlanChange → Records → Action ChangeExecutionRecord
  unfolding run_action
  run_change change records = run_action change.action change records
