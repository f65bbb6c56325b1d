-- ===== src/Prelude/Time.antt =====
-- Go's time.Time and time.Duration. A time is the nanoseconds since the zero time, 1 January of
-- year 1, UTC, so `0` is the zero time; times before it are left out. A duration is an int64 of
-- nanoseconds. What a location makes of a time is an argument, `Calendar`.
use sion_backup.Prelude.Tests.{leb, ◌==◌, if◌then◌else◌}
use sion_backup.Prelude.Int.{ℤ, pos, negsuc, ◌≤ℤ◌}
use sion_backup.Prelude.Text.{Text, max_int}
use Prim.Native.Nat.{ℕ, suc, ◌+◌, ◌-◌, ◌*◌, ◌%◌, ◌≤◌, min, bit_xor}
use mathlib.Core.Bool.{Bool}
use mathlib.Core.List.{[], ◌∷◌}
use native.Mathlib.Omega.{arith}

abbrev pub Time : Type 0
Time = ℕ

abbrev pub Duration : Type 0
Duration = ℤ

abbrev pub is_zero : Time → Bool
is_zero t = t == 0

abbrev pub second : ℕ
second = 1000000000

abbrev pub minute : ℕ
minute = 60000000000

abbrev pub hour : ℕ
hour = 3600000000000

abbrev pub day : ℕ
day = 86400000000000

-- Time.Sub, which stops at the largest and the smallest duration.
unfoldable pub sub_time : Time → Time → Duration
sub_time a b = if leb b a then pos (min (a - b) max_int) else negsuc (min (b - a - 1) max_int)

-- Time.Add.
unfoldable pub add_time : Time → Duration → Time
add_time t (pos n) = t + n
add_time t (negsuc n) = t - suc n

-- An int64 from its bits.
unfoldable pub to_int64 : ℕ → ℤ
to_int64 n =
    let r = n % 18446744073709551616 in
    if leb r max_int then pos r else negsuc (18446744073709551615 - r)

-- hash/fnv: New64a over the bytes of an ASCII text.
unfoldable pub fnv_from : ℕ → Text → ℕ
fnv_from h [] = h
fnv_from h (c ∷ s) = fnv_from (bit_xor h c * 1099511628211 % 18446744073709551616) s

unfoldable pub fnv64a : Text → ℕ
unfolding fnv_from
fnv64a = fnv_from 14695981039346656037

-- Package time in a location: time.Date for the calendar day of a time at an hour and a minute,
-- AddDate by days, and the text of a time as 2006-01-02T15:04.
pub record Calendar : Type 0 where
  pub date : Time → ℕ → ℕ → Time
  pub add_days : Time → ℤ → Time
  pub label : Time → Text

-- A later time is no less far from a third.
pub sub_time_mono : (a b c : Time) → a ≤ b → sub_time a c ≤ℤ sub_time b c
unfolding sub_time
sub_time_mono a b c h = ground arith
