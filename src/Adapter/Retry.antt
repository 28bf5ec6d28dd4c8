-- ===== src/Adapter/Retry.antt =====
-- crates/pask-adapter/src/retry.rs. A `Duration` is a number of nanoseconds.
pub mod Delay
pub mod Attempts
pub mod Invariant
mod Tests
use pask_workspace.Prelude.{
  ℕ, zero, suc, ◌+◌, ◌-◌, ◌*◌, ◌%◌, ◌^◌, min, Option, none, some, Bool, true, false, ◌&&◌, ltb,
  ◌==◌, if◌then◌else◌, Result, ok, err,
}
use pask_workspace.Adapter.Error.{AdapterError, is_retryable}

-- `Duration::MAX`
abbrev pub max_duration : ℕ
max_duration = (2 ^ 64 - 1) * 1_000_000_000 + 999_999_999

pub record RetryPolicy : Type 0 where
  pub max_attempts : ℕ
  pub base_delay : ℕ
  pub max_delay : ℕ

abbrev pub default : RetryPolicy
default = record { max_attempts = 3; base_delay = 200_000_000; max_delay = 5_000_000_000 }

-- `self.base_delay.saturating_mul(1_u32 << (failed_attempt - 1).min(31)).min(self.max_delay)`
unfoldable pub delay_after : RetryPolicy → ℕ → ℕ
delay_after policy failed_attempt =
    min (min (policy.base_delay * 2 ^ min ((failed_attempt + 2 ^ 32 - 1) % 2 ^ 32) 31) max_duration)
      policy.max_delay

abbrev pub unwrap_or : Option AdapterError → AdapterError → AdapterError
unwrap_or none e = e
unwrap_or (some e) _ = e

-- The operation and the delay act on a state `S`.
module _ {T S : Type 0} (policy : RetryPolicy) (f : ℕ → S → Result AdapterError T × S)
    (sleep : ℕ → S → S) where
  -- `for attempt in 1..=max_attempts`, with `left` rounds to go.
  unfoldable pub retry_loop : ℕ → ℕ → Option AdapterError → S → Result AdapterError T × S
  retry_loop zero attempt last_retryable s =
      (err (unwrap_or last_retryable AdapterError.invalid_retry_policy), s)
  retry_loop (suc left) attempt last_retryable s =
      let (outcome, s') = f attempt s in
      elim outcome [
        | ok value ↦ (ok value, s')
        | err error ↦ elim (is_retryable error && ltb attempt policy.max_attempts) [
          | true ↦
              retry_loop left (attempt + 1) (some error) (sleep (delay_after policy attempt) s')
          | false ↦ (err error, s')
        ]
      ]

  unfoldable pub run_with_retry_and_sleep : S → Result AdapterError T × S
  run_with_retry_and_sleep s =
      if policy.max_attempts == 0
      then (err AdapterError.invalid_retry_policy, s)
      else retry_loop policy.max_attempts 1 none s
