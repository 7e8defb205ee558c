-- ===== src/Execution/Retry.antt =====
-- packages/execution-engine/src/retry.ts. Delays, the factor and the attempts are natural numbers;
-- a delay that JavaScript rounds beyond 2^53 is cut at the maximum in both.
use desired_state_protocol.Common.{ℕ, ◌*◌, ◌-◌, ◌^◌, min, leb, if◌then◌else◌}

pub record RetryOptions : Type 0 where
  pub max_attempts : ℕ
  pub initial_delay_ms : ℕ
  pub max_delay_ms : ℕ
  pub factor : ℕ

abbrev pub default_retry : RetryOptions
default_retry = record { max_attempts = 3; initial_delay_ms = 200; max_delay_ms = 5000; factor = 2 }

abbrev pub no_retry : RetryOptions
no_retry = record { max_attempts = 1; initial_delay_ms = 0; max_delay_ms = 0; factor = 1 }

unfoldable pub backoff_delay : ℕ → RetryOptions → ℕ
backoff_delay attempt options =
    if leb attempt 1
    then options.initial_delay_ms
    else min (options.initial_delay_ms * options.factor ^ (attempt - 1)) options.max_delay_ms
