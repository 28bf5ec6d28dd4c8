-- ===== src/Adapter/Retry/Attempts.antt =====
-- How often the operation runs, and what is returned.
use pask_workspace.Prelude.{
  ℕ, zero, suc, ◌+◌, ◌-◌, ◌≤◌, ◌<◌, ◌≡◌, arith, none, some, Option, Result, ok, err, true, false,
  Bool-cases, Result-cases, inl, inr, ◌&&◌, ltb, refl, ap,
}
use pask_workspace.Adapter.Error.{AdapterError, is_retryable}
use pask_workspace.Adapter.Retry.{RetryPolicy, delay_after, retry_loop, run_with_retry_and_sleep}

module _ {T S : Type 0} (policy : RetryPolicy) (f : ℕ → S → Result AdapterError T × S)
    (sleep : ℕ → S → S) where
  abbrev pub loop : ℕ → ℕ → Option AdapterError → S → Result AdapterError T × S
  loop = retry_loop policy f sleep

  pub loop-ok :
      (left attempt : ℕ) (last : Option AdapterError) (s : S) (v : T)
      → (f attempt s).0 ≡ ok v
      → loop (suc left) attempt last s ≡ f attempt s
  unfolding retry_loop
  loop-ok left attempt last s v e = ground arith

  pub loop-stop :
      (left attempt : ℕ) (last : Option AdapterError) (s : S) (x : AdapterError)
      → (f attempt s).0 ≡ err x
      → (is_retryable x && ltb attempt policy.max_attempts) ≡ false
      → loop (suc left) attempt last s ≡ f attempt s
  unfolding retry_loop
  loop-stop left attempt last s x e b = ground arith

  pub loop-retry :
      (left attempt : ℕ) (last : Option AdapterError) (s : S) (x : AdapterError)
      → (f attempt s).0 ≡ err x
      → (is_retryable x && ltb attempt policy.max_attempts) ≡ true
      → loop (suc left) attempt last s
        ≡ loop left (attempt + 1) (some x) (sleep (delay_after policy attempt) (f attempt s).1)
  unfolding retry_loop
  loop-retry left attempt last s x e b = ground arith

  -- How a run from the attempt `first` and the state `s` ends: with the outcome of the operation at
  -- its `last` attempt, in the state that it leaves.
  pub record Ran (calls sleeps : S → ℕ) (first : ℕ) (s : S) (result : Result AdapterError T × S)
      : Type 0 where
    pub last : ℕ
    pub before : S
    pub first_le : first ≤ last
    pub last_le : last ≤ policy.max_attempts
    pub final : f last before ≡ result
    pub called : calls result.1 ≡ calls s + (last - first) + 1
    pub slept : sleeps result.1 ≡ sleeps s + (last - first)
    pub exhausted :
        (e : AdapterError) → result.0 ≡ err e → is_retryable e ≡ true → last ≡ policy.max_attempts

  module _ (calls sleeps : S → ℕ) (f_calls : (k : ℕ) (s : S) → calls (f k s).1 ≡ calls s + 1)
      (f_sleeps : (k : ℕ) (s : S) → sleeps (f k s).1 ≡ sleeps s)
      (sleep_calls : (d : ℕ) (s : S) → calls (sleep d s) ≡ calls s)
      (sleep_sleeps : (d : ℕ) (s : S) → sleeps (sleep d s) ≡ sleeps s + 1) where
    loop-stops :
        (attempt : ℕ) (s : S)
        → attempt ≤ policy.max_attempts
        → ((e : AdapterError)
            → (f attempt s).0 ≡ err e
            → is_retryable e ≡ true
            → attempt ≡ policy.max_attempts)
        → Ran calls sleeps attempt s (f attempt s)
    loop-stops attempt s h x = record {
      last = attempt;
      before = s;
      first_le = omega arith;
      last_le = h;
      final = refl;
      called = omega (arith, f_calls attempt s);
      slept = omega (arith, f_sleeps attempt s);
      exhausted = x;
    }

    Ran-earlier :
        (attempt : ℕ) (s : S) (d : ℕ) (r : Result AdapterError T × S)
        → Ran calls sleeps (attempt + 1) (sleep d (f attempt s).1) r
        → Ran calls sleeps attempt s r
    Ran-earlier attempt s d r ran = record {
      last = ran.last;
      before = ran.before;
      first_le = omega (arith, ran.first_le);
      last_le = ran.last_le;
      final = ran.final;
      called =
          omega (arith, ran.called, ran.first_le, sleep_calls d (f attempt s).1, f_calls attempt s);
      slept =
          omega
            (arith, ran.slept, ran.first_le, sleep_sleeps d (f attempt s).1, f_sleeps attempt s);
      exhausted = ran.exhausted;
    }

    loop-cases :
        (left attempt : ℕ) (last : Option AdapterError) (s : S)
        → attempt ≤ policy.max_attempts
        → ((x : AdapterError)
            → attempt < policy.max_attempts
            → Ran calls sleeps (attempt + 1) (sleep (delay_after policy attempt) (f attempt s).1) (
                loop left
                  (attempt + 1)
                  (some x)
                  (sleep (delay_after policy attempt) (f attempt s).1)))
        → Ran calls sleeps attempt s (loop (suc left) attempt last s)
    loop-cases left attempt last s h again = elim (Result-cases (f attempt s).0) [
      | inl (v, e) ↦ rw (loop-ok left attempt last s v e) (loop-stops attempt s h (λ x e'. cc))
      | inr (x, e) ↦ elim (Bool-cases (is_retryable x && ltb attempt policy.max_attempts)) [
        | inl b ↦
            rw (loop-retry left attempt last s x e b)
              (Ran-earlier attempt s (delay_after policy attempt) _ (again x (ground arith)))
        | inr b ↦ rw (loop-stop left attempt last s x e b) (
            loop-stops attempt s h
              (λ y e' r. let same : x ≡ y = cc in ground (arith, ap is_retryable same)))
      ]
    ]

    loop-Ran :
        (left attempt : ℕ) (last : Option AdapterError) (s : S)
        → attempt + left ≡ policy.max_attempts
        → Ran calls sleeps attempt s (loop (suc left) attempt last s)
    loop-Ran zero attempt last s h =
        loop-cases zero attempt last s (omega arith) (λ x k. absurd (omega arith))
    loop-Ran (suc left) attempt last s h =
        loop-cases (suc left) attempt last s (omega arith)
          (λ x k. loop-Ran left (attempt + 1) (some x) _ (omega arith))

    -- With a policy of one attempt at least, the operation runs at most `max_attempts` times with one
    -- delay between two runs, the result is that of the last run, and a retryable failure is returned
    -- only after the last attempt. `calls` and `sleeps` count the runs and the delays.
    pub run_with_retry-Ran :
        (s : S)
        → 0 < policy.max_attempts
        → Ran calls sleeps 1 s (run_with_retry_and_sleep policy f sleep s)
    unfolding run_with_retry_and_sleep
    run_with_retry-Ran s h =
        let e : policy.max_attempts ≡ suc (policy.max_attempts - 1) = omega arith in
        let ran = loop-Ran (policy.max_attempts - 1) 1 none s (omega arith) in
        let same : run_with_retry_and_sleep policy f sleep s
            ≡ loop (suc (policy.max_attempts - 1)) 1 none s =
          ground (arith, e) in
        rw same ran

  pub run_with_retry-zero :
      (s : S)
      → policy.max_attempts ≡ 0
      → run_with_retry_and_sleep policy f sleep s ≡ (err AdapterError.invalid_retry_policy, s)
  unfolding run_with_retry_and_sleep
  run_with_retry-zero s h = ground arith
