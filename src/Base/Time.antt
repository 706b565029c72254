-- ===== src/Base/Time.antt =====
-- What the code uses of Go's package `time`. A `time.Time` is its distance from the Unix epoch in
-- nanoseconds (an integer), a `time.Duration` an `int64` of nanoseconds.
use Prim.Native.Nat.{ℕ, ◌+◌, ◌-◌}
use mathlib.Core.Path.{◌≡◌}
use native.Mathlib.Omega.{arith}
use deqin_actor.Base.Tests.{if◌then◌else◌}
use deqin_actor.Base.Int.{ℤ, pos, negsuc, ◌-ℤ◌, leb_ℤ, two63, to_int64}

abbrev pub microsecond : ℕ
microsecond = 1000

abbrev pub millisecond : ℕ
millisecond = 1000000

abbrev pub second : ℕ
second = 1000000000

-- `Time.Sub`: the difference, or the nearest duration where it does not fit an `int64`.
abbrev saturate : ℤ → ℤ
saturate d =
    if leb_ℤ (pos two63) d
    then pos (two63 - 1)
    else if leb_ℤ d (negsuc (two63 - 1))
    then negsuc (two63 - 1)
    else d

unfoldable pub sub_time : ℤ → ℤ → ℤ
sub_time a b = saturate (a -ℤ b)

-- `Time.UnixNano`.
abbrev pub unix_nano : ℤ → ℤ
unix_nano t = to_int64 t

-- A time after `t` by `n` nanoseconds is `n` later, or the longest duration later.
sub_time-nat :
    (t n : ℕ)
    → sub_time (pos (t + n)) (pos t) ≡ pos (if leb_ℤ (pos two63) (pos n) then two63 - 1 else n)
unfolding sub_time ◌-ℤ◌
sub_time-nat t n = ground arith
