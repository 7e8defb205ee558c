-- ===== src/Execution/Effects.antt =====
-- What `executePlan` does to the world outside it, as a trace of events (the newest first), and the
-- answers of that world, which may depend on all that happened before. Logging is left out.
use desired_state_protocol.Common.{ℕ, Bool, List, ◌∷◌, Option, JsString, ◌≡◌, refl}
use desired_state_protocol.Protocol.Errors.{Thrown}
pub use desired_state_protocol.Protocol.Errors.{Result, return, throw}
use desired_state_protocol.Protocol.Plan.{PlanChange, OperationRecord}

pub data Event : Type 0 where
  -- an attempt to apply a change through the provider
  attempted : (change_id : JsString) (attempt : ℕ) → Event
  slept : (ms : ℕ) → Event
  saved : OperationRecord → Event
  asked_cancellation : Event
  read_clock : Event

abbrev pub Trace : Type 0
Trace = List Event

-- The state of an attempt's abort signal when the attempt fails.
pub data SignalState : Type 0 where
  live timed_out aborted : SignalState

-- `createContext` and `provider.applyChange`, which stand in one `try`. The promise of the provider is
-- awaited whatever the abort signal does, so that a call that ignores the signal may go unanswered.
pub data Response : Type 0 where
  applied : (external_id provider_request_id : Option JsString) → Response
  rejected : Thrown → SignalState → Response
  unanswered : Response

-- The provider, the store, the clock and the timer.
pub record World : Type 0 where
  pub apply_change : Trace → PlanChange → ℕ → Response
  pub on_progress : Trace → OperationRecord → Result (Unit {0})
  pub is_cancellation_requested : Trace → Result Bool
  pub now : Trace → ℕ
  pub sleep : Trace → ℕ → Result (Unit {0})

abbrev pub Action : Type 0 → Type 0
Action A = Trace → Result A × Trace

abbrev pub pure : {A : Type 0} → A → Action A
pure a tr = (return a, tr)

abbrev pub and_then : {A B : Type 0} → Result A → (A → Action B) → Action B
and_then (return a) f tr = f a tr
and_then (throw e) f tr = (throw e, tr)

infixl 5 ◌>>=◌ ◌>>◌
abbrev pub ◌>>=◌ : {A B : Type 0} → Action A → (A → Action B) → Action B
◌>>=◌ m f tr = and_then (m tr).0 f (m tr).1

abbrev pub ◌>>◌ : {B : Type 0} → Action (Unit {0}) → Action B → Action B
m >> k = m >>= λ _. k

module _ (world : World) where
  abbrev pub apply_change : PlanChange → ℕ → Action Response
  apply_change change attempt tr =
      (return (world.apply_change tr change attempt), attempted change.id attempt ∷ tr)

  abbrev pub on_progress : OperationRecord → Action (Unit {0})
  on_progress operation tr = (world.on_progress tr operation, saved operation ∷ tr)

  abbrev pub is_cancellation_requested : Action Bool
  is_cancellation_requested tr = (world.is_cancellation_requested tr, asked_cancellation ∷ tr)

  abbrev pub now : Action ℕ
  now tr = (return (world.now tr), read_clock ∷ tr)

  abbrev pub sleep : ℕ → Action (Unit {0})
  sleep ms tr = (world.sleep tr ms, slept ms ∷ tr)

-- The inversion of a bind that returns.
pub and_then-eq-return :
    {A B : Type 0} (r : Result A) (f : A → Action B) (tr : Trace) {b : B}
    → (and_then r f tr).0 ≡ return b
    → (a : A) × (r ≡ return a) × ((f a tr).0 ≡ return b)
and_then-eq-return (return a) f tr e = (a, refl, e)
and_then-eq-return (throw t) f tr e = cc
