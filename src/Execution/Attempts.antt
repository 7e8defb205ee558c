-- ===== src/Execution/Attempts.antt =====
-- The provider calls that one change makes, counted in the trace.
use desired_state_protocol.Common.{
  ℕ, zero, suc, ◌+◌, ◌≤◌, ◌<◌, true, false, [], ◌∷◌, ◌≡◌, refl, arith, not, Option, JsString, ◌||◌,
  leb, Bool-cases, inl, inr, ◌≢◌,
}
use desired_state_protocol.Protocol.Errors.{Thrown, unsettled, is_retryable}
use desired_state_protocol.Protocol.Plan.{ChangeAction, PlanChange}
use desired_state_protocol.Execution.Effects.{
  World, Response, Action, and_then, attempted, slept, Trace, applied, rejected, unanswered, Result,
  return, throw,
}
use desired_state_protocol.Execution.Retry.{RetryOptions, backoff_delay}
use desired_state_protocol.Execution.Records.{Records}
use desired_state_protocol.Execution.RunChange.{
  LoopEnd, done, gave_up, normalize_error, after_response, attempt_loop, unmet_dependencies,
}

-- The provider calls of a trace.
abbrev pub provider_calls : Trace → ℕ
provider_calls [] = 0
provider_calls (attempted _ _ ∷ tr) = suc (provider_calls tr)
provider_calls (_ ∷ tr) = provider_calls tr

abbrev pub attempts_made : LoopEnd → ℕ
attempts_made (done attempts _ _) = attempts
attempts_made (gave_up attempts _) = attempts

-- A statement about the result and the trace of a run
abbrev pub Ensures : {A : Type 0} → (Result A → Trace → Type 0) → Result A × Trace → Type 0
Ensures Q run = Q run.0 run.1

pub and_then-Ensures :
    {A B : Type 0} (Q : Result B → Trace → Type 0) (r : Result A) (f : A → Action B) (tr : Trace)
    → ((e : Thrown) → r ≡ throw e → Q (throw e) tr)
    → ((a : A) → r ≡ return a → Ensures Q (f a tr))
    → Ensures Q (and_then r f tr)
and_then-Ensures Q (return a) f tr fails goes = goes a refl
and_then-Ensures Q (throw e) f tr fails goes = fails e refl

-- A sequence, by a statement about its first part
pub seq-Ensures :
    {A B : Type 0} (P : Result A → Trace → Type 0) (Q : Result B → Trace → Type 0) (r : Result A)
    (f : A → Action B) (tr : Trace)
    → P r tr
    → ((e : Thrown) → P (throw e) tr → Q (throw e) tr)
    → ((a : A) → P (return a) tr → Ensures Q (f a tr))
    → Ensures Q (and_then r f tr)
seq-Ensures P Q (return a) f tr p fails goes = goes a p
seq-Ensures P Q (throw e) f tr p fails goes = fails e p

module _ (world : World) (retry : RetryOptions) (timeout_ms : ℕ) where
  -- The loop goes on only after a retryable error, with attempts left.
  pub after_response-Ensures :
      (Q : Result LoopEnd → Trace → Type 0) (response : Response) (attempts : ℕ)
      (again : Thrown → Action LoopEnd) (tr : Trace)
      → ((a b : Option JsString) → Q (return (done attempts a b)) tr)
      → ((e : Thrown)
          → (not (is_retryable e) || leb retry.max_attempts attempts) ≡ true
          → Q (return (gave_up attempts e)) tr)
      → ((ms : ℕ) (e : Thrown) → world.sleep tr ms ≡ throw e → Q (throw e) (slept ms ∷ tr))
      → ((ms : ℕ) (e : Thrown)
          → is_retryable e ≡ true
          → leb retry.max_attempts attempts ≡ false
          → Ensures Q (again e (slept ms ∷ tr)))
      → (response ≡ unanswered → Q (throw unsettled) tr)
      → Ensures Q (after_response world retry timeout_ms response attempts again tr)
  unfolding after_response
  after_response-Ensures Q (applied a b) attempts again tr ok stop fail next hangs = ok a b
  after_response-Ensures Q (rejected error signal) attempts again tr ok stop fail next hangs =
      let e = normalize_error error signal timeout_ms in
      let ms = backoff_delay attempts retry in
      elim (Bool-cases (not (is_retryable e) || leb retry.max_attempts attempts)) [
        | inl over ↦ rw over (stop e over)
        | inr goes ↦ rw goes (
            and_then-Ensures Q (world.sleep tr ms) (λ _. again e) (slept ms ∷ tr) (fail ms)
              (λ _ _. next ms e (ground arith) (ground arith)))
      ]
  after_response-Ensures Q unanswered attempts again tr ok stop fail next hangs = hangs refl

-- The loop ends by an answer, by an error that is not retryable, or at the limit.
abbrev pub EndsWell : ℕ → ℕ → LoopEnd → Type 0
EndsWell limit attempts (done n _ _) = attempts < n
EndsWell limit attempts (gave_up n e) = n < limit → is_retryable e ≡ false

-- A bound on the calls, whatever the result; on a return, the attempts are the calls.
abbrev pub LoopPost : ℕ → ℕ → Trace → Result LoopEnd → Trace → Type 0
LoopPost left attempts tr (return e) tr' =
    (provider_calls tr' + attempts ≡ provider_calls tr + attempts_made e)
    × (attempts_made e ≤ attempts + left)
    × EndsWell (attempts + left) attempts e
LoopPost left attempts tr (throw _) tr' = provider_calls tr' ≤ provider_calls tr + left

LoopPost-suc :
    (left attempts : ℕ) (id : JsString) (ms : ℕ) (tr : Trace) (r : Result LoopEnd) (tr' : Trace)
    → LoopPost left (attempts + 1) (slept ms ∷ attempted id (attempts + 1) ∷ tr) r tr'
    → LoopPost (suc left) attempts tr r tr'
LoopPost-suc left attempts id ms tr (return (done n a b)) tr' h = omega arith
LoopPost-suc left attempts id ms tr (return (gave_up n e)) tr' h =
    (omega arith, omega arith, λ early. h.2 (omega arith))
LoopPost-suc left attempts id ms tr (throw e) tr' h = omega arith

module _ (world : World) (retry : RetryOptions) (timeout_ms : ℕ) where
  pub attempt_loop-LoopPost :
      (change : PlanChange) (left attempts : ℕ) (last_error : Thrown) (tr : Trace)
      → attempts + left ≡ retry.max_attempts
      → Ensures
          (LoopPost left attempts tr)
          (attempt_loop world retry timeout_ms change left attempts last_error tr)
  unfolding attempt_loop
  attempt_loop-LoopPost change zero attempts last_error tr h =
      (omega arith, omega arith, λ early. absurd (omega arith))
  attempt_loop-LoopPost change (suc left) attempts last_error tr h =
      let tr' : Trace = attempted change.id (attempts + 1) ∷ tr in
      after_response-Ensures world retry timeout_ms (LoopPost (suc left) attempts tr)
        (world.apply_change tr change (attempts + 1)) (attempts + 1)
        (attempt_loop world retry timeout_ms change left (attempts + 1)) tr' (λ a b. omega arith)
        (λ e over. (omega arith, omega arith, λ early. ground arith)) (λ ms e _. omega arith)
        (λ ms e _ _.
          LoopPost-suc left attempts change.id ms tr _ _
            (attempt_loop-LoopPost change left (attempts + 1) e (slept ms ∷ tr') (omega arith)))
        (λ _. omega arith)

-- Nothing stands between the change and the provider: it is neither settled by its action nor held
-- back by a dependency.
pub record CanRun (change : PlanChange) (records : Records) : Type 0 where
  pub not_blocked : change.action ≢ ChangeAction.blocked
  pub not_noop : change.action ≢ ChangeAction.noop
  pub no_unmet : unmet_dependencies change records ≡ []
