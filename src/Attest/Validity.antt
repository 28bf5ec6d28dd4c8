-- ===== src/Attest/Validity.antt =====
-- crates/pask-attest/src/validity.rs. Instants are counted in nanoseconds (Attest/Error.antt); the
-- time crate's parser is a parameter that gives the `i128` of `unix_timestamp_nanos`.
use pask_workspace.Prelude.{
  ℕ, ℤ, suc, ◌+◌, ◌-◌, ◌*◌, ◌/◌, ◌%◌, ◌≤◌, ◌<◌, ◌≡◌, ◌↔◌, arith, Bool, false, Option, none, some,
  Text, ascii, ◌++◌, ltb, leb, if◌then◌else◌, Result, ok, err, ◌>>=◌, >>=-eq-ok,
}
use pask_workspace.Attest.Error.{SystemTime, AttestationError}

abbrev pub nanos_per_second : ℕ
nanos_per_second = 1000000000

-- 2^63 seconds
abbrev pub unix_epoch : SystemTime
unix_epoch = 9223372036854775808000000000

-- The first count that is no `SystemTime`: 2^64 seconds.
abbrev pub system_time_end : SystemTime
system_time_end = 18446744073709551616000000000

-- 60 seconds
abbrev pub max_clock_skew : ℕ
max_clock_skew = 60000000000

unfoldable pub checked_add : SystemTime → ℕ → Option SystemTime
checked_add t d = if ltb (t + d) system_time_end then some (t + d) else none

unfoldable pub checked_sub : SystemTime → ℕ → Option SystemTime
checked_sub t d = if leb d t then some (t - d) else none

-- `later.duration_since(earlier).ok()`
unfoldable pub duration_since : SystemTime → SystemTime → Option ℕ
duration_since later earlier = if leb earlier later then some (later - earlier) else none

-- Seconds in 64 bits and nanoseconds in 32, as one duration.
unfoldable pub duration : ℕ → Option ℕ
duration magnitude =
    if ltb (magnitude / nanos_per_second) 18446744073709551616
    then if ltb (magnitude % nanos_per_second) 4294967296
      then some (magnitude / nanos_per_second * nanos_per_second + magnitude % nanos_per_second)
      else none
    else none

-- `checked_abs` of a negative 128-bit integer
unfoldable pub checked_abs : ℕ → Option ℕ
checked_abs n = if ltb (suc n) 170141183460469231731687303715884105728 then some (suc n) else none

abbrev pub and_then : {A B : Type 0} → Option A → (A → Option B) → Option B
and_then none f = none
and_then (some a) f = f a

unfoldable pub system_time_from_unix_nanos : ℤ → Option SystemTime
system_time_from_unix_nanos (ℤ.pos n) = and_then (duration n) (checked_add unix_epoch)
system_time_from_unix_nanos (ℤ.negsuc n) =
    and_then (checked_abs n) (λ magnitude. and_then (duration magnitude) (checked_sub unix_epoch))

-- `t` is `unix_nanos` from the epoch.
abbrev pub IsInstant : ℤ → SystemTime → Type 0
IsInstant (ℤ.pos n) t = (t ≡ unix_epoch + n) × (t < system_time_end)
IsInstant (ℤ.negsuc n) t = t + suc n ≡ unix_epoch

-- The conversion gives an instant exactly if the integer is the signed distance of that instant
-- from the Unix epoch and the instant is in the range of `SystemTime`.
pub system_time_from_unix_nanos_iff :
    (v : ℤ) (t : SystemTime) → (system_time_from_unix_nanos v ≡ some t) ↔ IsInstant v t
unfolding system_time_from_unix_nanos checked_add checked_sub duration checked_abs
system_time_from_unix_nanos_iff (ℤ.pos n) t = (λ e. ground arith, λ e. ground arith)
system_time_from_unix_nanos_iff (ℤ.negsuc n) t = (λ e. ground arith, λ e. ground arith)

pub record ValidityWindow : Type 0 where
  pub not_before : SystemTime
  pub not_after : SystemTime

unfoldable pub contains : ValidityWindow → SystemTime → Bool
contains w instant = if leb w.not_before instant then leb instant w.not_after else false

abbrev check_late : ValidityWindow → SystemTime → Option ℕ → Result AttestationError (Unit {0})
check_late w now none = ok tt
check_late w now (some late_by) =
    if ltb max_clock_skew late_by
    then err (AttestationError.expired_evidence w.not_after now)
    else ok tt

abbrev check_early : ValidityWindow → SystemTime → Option ℕ → Result AttestationError (Unit {0})
check_early w now none = check_late w now (duration_since now w.not_after)
check_early w now (some early_by) =
    if ltb max_clock_skew early_by
    then err (AttestationError.clock_skew w.not_before now)
    else check_late w now (duration_since now w.not_after)

unfoldable pub check_clock : ValidityWindow → SystemTime → Result AttestationError (Unit {0})
check_clock w now = check_early w now (duration_since w.not_before now)

-- The clock is accepted exactly if it is within 60 seconds of the window; a clock more than 60
-- seconds before the window is a skew, and else one more than 60 seconds after it is an expiry.
pub check_clock_lem :
    (w : ValidityWindow) (now : SystemTime)
    → ((check_clock w now ≡ ok tt)
        ↔ ((w.not_before ≤ now + max_clock_skew) × (now ≤ w.not_after + max_clock_skew)))
      × ((check_clock w now ≡ err (AttestationError.clock_skew w.not_before now))
          ↔ (now + max_clock_skew < w.not_before))
      × ((check_clock w now ≡ err (AttestationError.expired_evidence w.not_after now))
          ↔ ((w.not_before ≤ now + max_clock_skew) × (w.not_after + max_clock_skew < now)))
unfolding check_clock duration_since
check_clock_lem w now = (
  (λ e. ground arith, λ e. ground arith),
  (λ e. ground arith, λ e. ground arith),
  (λ e. ground arith, λ e. ground arith),
)

module _ (parse : Text → Result Text ℤ) where
  abbrev in_range : Text → Option SystemTime → Result AttestationError SystemTime
  in_range field none =
      err (
        AttestationError.malformed_quote (field ++ ascii ": timestamp is outside SystemTime range"))
  in_range field (some t) = ok t

  abbrev parsed_instant : Text → Result Text ℤ → Result AttestationError SystemTime
  parsed_instant field (ok nanos) = in_range field (system_time_from_unix_nanos nanos)
  parsed_instant field (err error) =
      err (AttestationError.malformed_quote (field ++ (ascii ": " ++ error)))

  unfoldable pub parse_rfc3339 : Text → Text → Result AttestationError SystemTime
  parse_rfc3339 value field = parsed_instant field (parse value)

  unfoldable pub ordered_window : SystemTime → SystemTime → Result AttestationError ValidityWindow
  ordered_window start end =
      if leb end start
      then err (
          AttestationError.malformed_quote
            (ascii "validity.notAfter must be later than validity.notBefore"))
      else ok (record { not_before = start; not_after = end })

  unfoldable pub from_rfc3339 : Text → Text → Result AttestationError ValidityWindow
  from_rfc3339 not_before not_after = do
    start ← parse_rfc3339 not_before (ascii "validity.notBefore")
    end ← parse_rfc3339 not_after (ascii "validity.notAfter")
    ordered_window start end

  ordered_window-ok :
      (s e : SystemTime) (w : ValidityWindow)
      → ordered_window s e ≡ ok w
      → w.not_before < w.not_after
  unfolding ordered_window
  ordered_window-ok s e w h = ground arith

  -- A window that was read is not empty.
  pub from_rfc3339-ok :
      (a b : Text) (w : ValidityWindow) → from_rfc3339 a b ≡ ok w → w.not_before < w.not_after
  unfolding from_rfc3339
  from_rfc3339-ok a b w h =
      let (s, _, h1) = >>=-eq-ok (parse_rfc3339 a (ascii "validity.notBefore")) _ h in
      let (e, _, h2) = >>=-eq-ok (parse_rfc3339 b (ascii "validity.notAfter")) _ h1 in
      ordered_window-ok s e w h2
