-- ===== src/Base/Int.antt =====
-- Signed integers over the native numbers, and Go's `int64`: its wrap-around, its order and its
-- division, which truncates towards zero.
use Prim.Native.Nat.{ℕ, suc, ◌+◌, ◌-◌, ◌*◌, ◌/◌, ◌%◌, ◌^◌, ◌≤◌, ◌<◌}
use mathlib.Core.Path.{◌≡◌, refl}
use mathlib.Core.Bool.{Bool, false}
use native.Mathlib.Omega.{arith}
use deqin_actor.Base.Tests.{ltb, leb, if◌then◌else◌}

-- `negsuc n` is -(n + 1).
pub data ℤ : Type 0 where
  pos : ℕ → ℤ
  negsuc : ℕ → ℤ

abbrev pub pos_part : ℤ → ℕ
pos_part (pos n) = n
pos_part (negsuc n) = 0

abbrev neg_part : ℤ → ℕ
neg_part (pos n) = 0
neg_part (negsuc n) = suc n

-- a - b, as an integer.
abbrev sub_ℕ : ℕ → ℕ → ℤ
sub_ℕ a b = if leb b a then pos (a - b) else negsuc (b - a - 1)

infixl 65 ◌+ℤ◌ ◌-ℤ◌
infixl 70 ◌*ℤ◌
infix 50 ◌≤ℤ◌ ◌<ℤ◌
unfoldable pub ◌+ℤ◌ : ℤ → ℤ → ℤ
a +ℤ b = sub_ℕ (pos_part a + pos_part b) (neg_part a + neg_part b)

unfoldable pub ◌-ℤ◌ : ℤ → ℤ → ℤ
a -ℤ b = sub_ℕ (pos_part a + neg_part b) (neg_part a + pos_part b)

unfoldable pub ◌*ℤ◌ : ℤ → ℤ → ℤ
a *ℤ b =
    sub_ℕ (pos_part a * pos_part b + neg_part a * neg_part b)
      (pos_part a * neg_part b + neg_part a * pos_part b)

-- Division by a positive number, truncating towards zero.
unfoldable pub quot : ℤ → ℕ → ℤ
quot (pos n) d = pos (n / d)
quot (negsuc n) d = sub_ℕ 0 (suc n / d)

abbrev pub ◌≤ℤ◌ : ℤ → ℤ → Type 0
a ≤ℤ b = pos_part a + neg_part b ≤ pos_part b + neg_part a

abbrev pub ◌<ℤ◌ : ℤ → ℤ → Type 0
a <ℤ b = pos_part a + neg_part b < pos_part b + neg_part a

abbrev pub ltb_ℤ : ℤ → ℤ → Bool
ltb_ℤ a b = ltb (pos_part a + neg_part b) (pos_part b + neg_part a)

abbrev pub leb_ℤ : ℤ → ℤ → Bool
leb_ℤ a b = leb (pos_part a + neg_part b) (pos_part b + neg_part a)

-- The bound of `int64`: the values are those from -(2 ^ 63) up to 2 ^ 63 - 1.
abbrev pub two63 : ℕ
two63 = 2 ^ 63

abbrev pub two64 : ℕ
two64 = 2 ^ 64

abbrev pub IsInt64 : ℤ → Type 0
IsInt64 a = (pos_part a < two63) × (neg_part a ≤ two63)

-- What is left of an integer in 64 bits, read as a signed number.
abbrev pub wrap_pos : ℕ → ℤ
wrap_pos w = if ltb w two63 then pos w else negsuc (two64 - w - 1)

abbrev wrap_neg : ℕ → ℤ
wrap_neg w = if ltb w two63 then negsuc w else pos (two64 - w - 1)

unfoldable pub to_int64 : ℤ → ℤ
to_int64 (pos n) = wrap_pos (n % two64)
to_int64 (negsuc n) = wrap_neg (n % two64)

-- The operations of `int64`.
unfoldable pub add64 : ℤ → ℤ → ℤ
add64 a b = to_int64 (a +ℤ b)

unfoldable pub sub64 : ℤ → ℤ → ℤ
sub64 a b = to_int64 (a -ℤ b)

unfoldable pub mul64 : ℤ → ℤ → ℤ
mul64 a b = to_int64 (a *ℤ b)

to_int64-IsInt64 : (a : ℤ) → IsInt64 (to_int64 a)
unfolding to_int64
to_int64-IsInt64 (pos n) = ground arith
to_int64-IsInt64 (negsuc n) = ground arith

-- A value that fits is kept.
pub to_int64-eq_self : (a : ℤ) → IsInt64 a → to_int64 a ≡ a
unfolding to_int64
to_int64-eq_self (pos n) h = ground arith
to_int64-eq_self (negsuc n) h = ground arith

pub wraps : (to_int64 (pos (2 ^ 63)) ≡ negsuc (2 ^ 63 - 1)) × (to_int64 (pos (2 ^ 64 + 5)) ≡ pos 5)
unfolding to_int64
wraps = (refl, refl)

abbrev pub is_zero : ℤ → Bool
is_zero a = if ltb (pos_part a) 1 then ltb (neg_part a) 1 else false

-- A counter of `int64` goes up and down with the number that it counts.
pub count_up : (n : ℕ) → add64 (to_int64 (pos n)) (pos 1) ≡ to_int64 (pos (n + 1))
unfolding add64 to_int64 ◌+ℤ◌
count_up n = ground arith

pub count_down : (n : ℕ) → add64 (to_int64 (pos (n + 1))) (negsuc 0) ≡ to_int64 (pos n)
unfolding add64 to_int64 ◌+ℤ◌
count_down n = ground arith
