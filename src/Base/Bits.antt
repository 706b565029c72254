-- ===== src/Base/Bits.antt =====
-- `x & mask` for a mask of ones is the remainder by a power of two.
use Prim.Native.Nat.{
  ℕ, zero, suc, ◌+◌, ◌-◌, ◌*◌, ◌/◌, ◌%◌, ◌^◌, ◌≤◌, ◌<◌, min, bit_and, digits, bit_and-bitwise,
}
use mathlib.Core.Path.{sym, ◌≡◌, ap, ◌∙◌}
use native.Mathlib.Nat.{
  pow-suc, pow-le-pow_right, mod-lt, mod-eq_of_lt, div-add-mod, mul-add-mod_self_left,
}
use native.Mathlib.Omega.{arith}

pub two-pow_pos : (k : ℕ) → 0 < 2 ^ k
two-pow_pos zero = omega arith
two-pow_pos (suc k) = omega (arith, pow-suc 2 k, two-pow_pos k)

-- The remainder by an even number, from its half and the lowest bit.
mod-double : (m a : ℕ) → 0 < m → a % (m * 2) ≡ a / 2 % m * 2 + a % 2
mod-double m a h =
    ap (λ (t : ℕ). t % (m * 2)) split
    ∙ mul-add-mod_self_left (m * 2) (a / 2 / m) (a / 2 % m * 2 + a % 2)
    ∙ mod-eq_of_lt (omega (arith, mod-lt (a / 2) h))
  where
    split : a ≡ m * 2 * (a / 2 / m) + (a / 2 % m * 2 + a % 2)
    split = omega (arith, div-add-mod (a / 2) m)

-- Halving a mask of ones takes one of them away; the lowest bit of a mask that is not 0 is 1.
mask_half : (k : ℕ) → (2 ^ suc k - 1) / 2 ≡ 2 ^ k - 1
mask_half k = omega (arith, pow-suc 2 k, two-pow_pos k)

mask_odd : (k : ℕ) → (2 ^ suc k - 1) % 2 ≡ 1
mask_odd k = omega (arith, pow-suc 2 k, two-pow_pos k)

-- The digits that the native operation stands for, at a mask of `k` ones.
masked_digits :
    (rounds k a : ℕ) → a ≤ rounds → digits (λ _. zero) min rounds a (2 ^ k - 1) ≡ a % 2 ^ k
masked_digits zero k zero h = sym (mod-eq_of_lt (two-pow_pos k))
masked_digits (suc rounds) k zero h = sym (mod-eq_of_lt (two-pow_pos k))
masked_digits zero k (suc a) h = absurd (omega arith)
masked_digits (suc rounds) zero (suc a) h =
    omega (arith, masked_digits rounds zero (suc a / 2) (omega arith))
masked_digits (suc rounds) (suc k) (suc a) h = omega (
  arith,
  masked_digits rounds k (suc a / 2) (omega arith),
  ap (λ b. digits (λ _. zero) min rounds (suc a / 2) b) (mask_half k),
  mask_odd k,
  mod-double (2 ^ k) (suc a) (two-pow_pos k),
  ap (λ (t : ℕ). suc a % t) (pow-suc 2 k),
)

pub bit_and-mask : (k a : ℕ) → bit_and a (2 ^ k - 1) ≡ a % 2 ^ k
bit_and-mask k a = bit_and-bitwise a (2 ^ k - 1) ∙ masked_digits a k a (omega arith)

pub two-pow-le : (k : ℕ) → k ≤ 63 → 2 ^ k ≤ 2 ^ 63
two-pow-le k h = pow-le-pow_right {n = 2} (omega arith) {i = k} {j = 63} h

pub two-le-pow : (k : ℕ) → 1 ≤ k → 2 ≤ 2 ^ k
two-le-pow k h = pow-le-pow_right {n = 2} (omega arith) {i = 1} {j = k} h
