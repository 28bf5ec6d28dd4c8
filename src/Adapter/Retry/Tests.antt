-- ===== src/Adapter/Retry/Tests.antt =====
-- Runs and instances of the retries.
use pask_workspace.Prelude.{
  ℕ, ◌+◌, ◌-◌, ◌*◌, ◌^◌, ◌≤◌, ◌≡◌, refl, arith, Result, ok, err, ltb, if◌then◌else◌,
}
use pask_workspace.Adapter.Error.{AdapterError, is_retryable}
use pask_workspace.Adapter.Retry.{
  default, delay_after, max_duration, retry_loop, run_with_retry_and_sleep,
}
use pask_workspace.Adapter.Retry.Delay.{delay_after_lem}
use pask_workspace.Adapter.Retry.Attempts.{Ran, run_with_retry-Ran}

-- How often the operation was called, how often it slept, and how often it still fails.
record Server : Type 0 where
  calls : ℕ
  sleeps : ℕ
  failures : ℕ

abbrev operation : ℕ → Server → Result AdapterError ℕ × Server
operation attempt s = (
  if ltb 0 s.failures then err AdapterError.rate_limited else ok attempt,
  record s { calls = s.calls + 1; failures = s.failures - 1 },
)

abbrev nap : ℕ → Server → Server
nap d s = record s { sleeps = s.sleeps + 1 }

abbrev flaky : ℕ → Server
flaky n = record { calls = 0; sleeps = 0; failures = n }

third_time :
    run_with_retry_and_sleep default operation nap (flaky 2)
    ≡ (ok 3, record { calls = 3; sleeps = 2; failures = 0 })
unfolding run_with_retry_and_sleep retry_loop is_retryable delay_after
third_time = refl

exhausted :
    run_with_retry_and_sleep default operation nap (flaky 9)
    ≡ (err AdapterError.rate_limited, record { calls = 3; sleeps = 2; failures = 6 })
unfolding run_with_retry_and_sleep retry_loop is_retryable delay_after
exhausted = refl

delay_after_lem_example :
    (delay_after default 2 ≤ 5_000_000_000)
    × (delay_after default 2 ≤ delay_after default 40)
    × (2 ≤ 32
        → 200_000_000 * 2 ^ (2 - 1) ≤ 5_000_000_000
        → 200_000_000 * 2 ^ (2 - 1) ≤ max_duration
        → delay_after default 2 ≡ 200_000_000 * 2 ^ (2 - 1))
delay_after_lem_example = delay_after_lem default 2 40 (omega arith) (omega arith) (omega arith)

run_with_retry-Ran_example :
    Ran default operation nap
      (λ s. s.calls)
      (λ s. s.sleeps)
      1
      (flaky 2)
      (run_with_retry_and_sleep default operation nap (flaky 2))
run_with_retry-Ran_example =
    run_with_retry-Ran default operation nap (λ s. s.calls) (λ s. s.sleeps) (λ k s. refl)
      (λ k s. refl) (λ d s. refl) (λ d s. refl) (flaky 2) (omega arith)
