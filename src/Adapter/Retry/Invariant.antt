-- ===== src/Adapter/Retry/Invariant.antt =====
-- The rule for a run with retries: an invariant of the rounds, and the last call of the operation.
use pask_workspace.Prelude.{
  ℕ, zero, suc, ◌+◌, ◌-◌, ◌<◌, ◌≡◌, arith, none, some, Option, Result, Bool-cases, Result-cases,
  inl, inr, ◌&&◌, ltb, sym,
}
use pask_workspace.Adapter.Error.{AdapterError, is_retryable}
use pask_workspace.Adapter.Retry.{RetryPolicy, run_with_retry_and_sleep}
use pask_workspace.Adapter.Retry.Attempts.{loop, loop-ok, loop-stop, loop-retry}

module _ {T S : Type 0} (policy : RetryPolicy) (f : ℕ → S → Result AdapterError T × S)
    (sleep : ℕ → S → S) (P : ℕ → S → Type 0)
    (keep : (j d : ℕ) (s : S) → P j s → P (j + 1) (sleep d (f (j + 1) s).1)) where
  -- The call of the operation that gave the result, after `round` calls that kept the invariant.
  pub record LastCall (result : Result AdapterError T × S) : Type 0 where
    pub round : ℕ
    pub before : S
    pub holds : P round before
    pub round_lt : round < policy.max_attempts
    pub final : f (round + 1) before ≡ result

  stopped :
      (j : ℕ) (s : S) (result : Result AdapterError T × S)
      → j < policy.max_attempts
      → P j s
      → result ≡ f (j + 1) s
      → LastCall result
  stopped j s result h p e = record {
    round = j;
    before = s;
    holds = p;
    round_lt = h;
    final = sym e;
  }

  round-LastCall :
      (left j : ℕ) (last : Option AdapterError) (s : S)
      → j + suc left ≡ policy.max_attempts
      → P j s
      → ((last' : Option AdapterError) (s' : S)
          → j + 1 < policy.max_attempts
          → P (j + 1) s'
          → LastCall (loop policy f sleep left (j + 1 + 1) last' s'))
      → LastCall (loop policy f sleep (suc left) (j + 1) last s)
  round-LastCall left j last s h p again = elim (Result-cases (f (j + 1) s).0) [
    | inl (v, e) ↦ stopped j s _ (omega arith) p (loop-ok policy f sleep left (j + 1) last s v e)
    | inr (x, e) ↦ elim (Bool-cases (is_retryable x && ltb (j + 1) policy.max_attempts)) [
      | inl b ↦
          rw (loop-retry policy f sleep left (j + 1) last s x e b)
            (again (some x) _ (ground arith) (keep j _ s p))
      | inr b ↦ stopped j s _ (omega arith) p (loop-stop policy f sleep left (j + 1) last s x e b)
    ]
  ]

  loop-LastCall :
      (left j : ℕ) (last : Option AdapterError) (s : S)
      → j + suc left ≡ policy.max_attempts
      → P j s
      → LastCall (loop policy f sleep (suc left) (j + 1) last s)
  loop-LastCall zero j last s h p =
      round-LastCall zero j last s h p (λ last' s' k q. absurd (omega arith))
  loop-LastCall (suc left) j last s h p =
      round-LastCall (suc left) j last s h p
        (λ last' s' k q. loop-LastCall left (j + 1) last' s' (omega arith) q)

  pub run_with_retry-LastCall :
      (s : S)
      → 0 < policy.max_attempts
      → P 0 s
      → LastCall (run_with_retry_and_sleep policy f sleep s)
  unfolding run_with_retry_and_sleep
  run_with_retry-LastCall s h p =
      let e : policy.max_attempts ≡ suc (policy.max_attempts - 1) = omega arith in
      let one : 0 + 1 ≡ 1 = omega arith in
      let last = loop-LastCall (policy.max_attempts - 1) 0 none s (omega arith) p in
      let same : run_with_retry_and_sleep policy f sleep s
          ≡ loop policy f sleep (suc (policy.max_attempts - 1)) 1 none s =
        ground (arith, e) in
      rw same last
