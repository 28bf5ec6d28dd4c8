-- ===== src/Adapter/Retry/Delay.antt =====
-- The exponential back-off.
use pask_workspace.Prelude.{
  ℕ, zero, suc, ◌+◌, ◌-◌, ◌*◌, ◌%◌, ◌^◌, ◌≤◌, ◌<◌, ◌≡◌, arith, min, pow-suc,
}
use pask_workspace.Adapter.Retry.{RetryPolicy, delay_after, max_duration}

pow_mono : (a b : ℕ) → a ≤ b → 2 ^ a ≤ 2 ^ b
pow_mono zero zero h = omega arith
pow_mono zero (suc b) h = rw pow-suc (omega (arith, pow_mono zero b (omega arith)))
pow_mono (suc a) zero h = absurd (omega arith)
pow_mono (suc a) (suc b) h =
    rw (pow-suc 2 a, pow-suc 2 b) (omega (arith, pow_mono a b (omega arith)))

mul_mono : (c a b : ℕ) → a ≤ b → c * a ≤ c * b
mul_mono c a b h = grind arith

-- The delays never pass the maximum and never get shorter from one failure to a later one, and up to
-- the 32nd failure a delay below both limits is the base delay doubled for each earlier failure.
pub delay_after_lem :
    (policy : RetryPolicy) (a b : ℕ)
    → 1 ≤ a
    → a ≤ b
    → b < 2 ^ 32
    → (delay_after policy a ≤ policy.max_delay)
      × (delay_after policy a ≤ delay_after policy b)
      × (a ≤ 32
          → policy.base_delay * 2 ^ (a - 1) ≤ policy.max_delay
          → policy.base_delay * 2 ^ (a - 1) ≤ max_duration
          → delay_after policy a ≡ policy.base_delay * 2 ^ (a - 1))
unfolding delay_after
delay_after_lem policy a b ha hab hb =
    let ea : min ((a + 2 ^ 32 - 1) % 2 ^ 32) 31 ≡ min (a - 1) 31 = omega arith in
    let eb : min ((b + 2 ^ 32 - 1) % 2 ^ 32) 31 ≡ min (b - 1) 31 = omega arith in
    let grow : policy.base_delay * 2 ^ min (a - 1) 31 ≤ policy.base_delay * 2 ^ min (b - 1) 31 =
      mul_mono policy.base_delay _ _ (pow_mono _ _ (omega arith)) in
    rw (ea, eb)
      (
        omega arith,
        omega arith,
        λ few p q. let e : min (a - 1) 31 ≡ a - 1 = omega arith in rw e (omega arith),
      )
