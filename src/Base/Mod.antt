-- ===== src/Base/Mod.antt =====
-- Remainders: by a power of two of a number that has wrapped at 64 bits, and of indices that go
-- round a buffer.
use Prim.Native.Nat.{ℕ, zero, suc, ◌+◌, ◌-◌, ◌*◌, ◌%◌, ◌^◌, ◌≤◌, ◌<◌, ◌∣◌}
use mathlib.Core.Path.{subst, ◌≡◌, ap, sym, ◌∙◌}
use mathlib.Core.Logic.{◌≢◌}
use native.Mathlib.Nat.{
  mod-mod_of_dvd, dvd-mul_right, pow-suc, mod-lt, mod-eq_of_lt, mod-eq-sub-mod, mod-add-mod,
}
use native.Mathlib.Omega.{arith}
use native.Mathlib.Decide.{dec_lt}
use deqin_actor.Base.Tests.{ltb, if◌then◌else◌}
use deqin_actor.Base.Int.{two64}

-- A smaller power of two divides a larger one.
pow-split : (k d : ℕ) → 2 ^ (d + k) ≡ 2 ^ k * 2 ^ d
pow-split k zero = omega (arith, ap (λ (t : ℕ). 2 ^ t) (add-zero-left k))
  where
    add-zero-left : (n : ℕ) → 0 + n ≡ n
    add-zero-left n = omega arith
pow-split k (suc d) = omega (
  arith,
  ap (λ (t : ℕ). 2 ^ t) (shift d k),
  pow-suc 2 (d + k),
  ap (λ (t : ℕ). 2 ^ k * t) (pow-suc 2 d),
  pow-split k d,
)
  where
    shift : (d k : ℕ) → suc d + k ≡ suc (d + k)
    shift d k = omega arith

-- A number that has wrapped at 64 bits keeps its remainder by a smaller power of two.
pub mod-wrapped : (k n : ℕ) → k ≤ 64 → n % two64 % 2 ^ k ≡ n % 2 ^ k
mod-wrapped k n h = mod-mod_of_dvd (2 ^ k) n (
    subst (λ (t : ℕ). 2 ^ k ∣ t) (sym (pow-split k (64 - k)) ∙ ap (λ (t : ℕ). 2 ^ t) whole)
      (dvd-mul_right (2 ^ k) (2 ^ (64 - k))))
  where
    whole : 64 - k + k ≡ 64
    whole = omega arith

-- One round of a buffer of `c` cells.
pub mod-add_window :
    (c h i : ℕ) → h < c → i ≤ c → (h + i) % c ≡ (if ltb (h + i) c then h + i else h + i - c)
mod-add_window c h i hh hi = elim (dec_lt (h + i) c) [
  | yes below ↦ ground (arith, mod-eq_of_lt below)
  | no past ↦ ground (
    arith,
    mod-eq-sub-mod {n = h + i} {m = c} (omega arith),
    mod-eq_of_lt {n = h + i - c} {m = c} (omega arith),
  )
]

pub mod_ne : (c h i j : ℕ) → i < j → j < c → (h + i) % c ≢ (h + j) % c
mod_ne c h i j hij hj e =
    ground (
      arith,
      e,
      mod-add-mod h c i,
      mod-add-mod h c j,
      window i (omega arith),
      window j (omega arith),
    )
  where
    window :
        (n : ℕ) → n ≤ c → (h % c + n) % c ≡ (if ltb (h % c + n) c then h % c + n else h % c + n - c)
    window n = mod-add_window c (h % c) n (mod-lt h (omega arith))
