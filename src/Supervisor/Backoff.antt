-- ===== src/Supervisor/Backoff.antt =====
-- The delays of the back-off of actor/supervisor.go.
use deqin_actor.Base.{
  ℕ, zero, suc, ◌*◌, ◌^◌, ◌≤◌, ◌<◌, min, ◌≡◌, sym, ap, ◌∙◌, arith, true, false, dec_le,
}
use deqin_actor.Base.Int.{pos, leb_ℤ, mul64, ◌*ℤ◌, to_int64-eq_self, to_int64, two63}
use deqin_actor.Base.Bits.{two-pow_pos}
use deqin_actor.Supervisor.{backoff_loop, exponential_backoff}

mul64-two : (d : ℕ) → 2 * d < two63 → mul64 (pos d) (pos 2) ≡ pos (2 * d)
unfolding mul64 ◌*ℤ◌
mul64-two d h = ap to_int64 product ∙ to_int64-eq_self (pos (2 * d)) (h, omega arith)
  where
    product : (pos d) *ℤ (pos 2) ≡ pos (2 * d)
    product = ground arith

grows : (d p : ℕ) → 1 ≤ p → d ≤ d * p
grows d p h = grind arith

min_of_le : (x m : ℕ) → m ≤ x → min x m ≡ m
min_of_le x m h = omega arith

backoff_loop_lem :
    (most d n : ℕ)
    → d ≤ most
    → most < 2 ^ 62
    → backoff_loop (pos most) (pos d) n ≡ pos (min (d * 2 ^ n) most)
unfolding backoff_loop
backoff_loop_lem most d zero h small = ap pos (omega arith)
backoff_loop_lem most d (suc n) h small =
    rw (mul64-two d (omega arith)) (elim (dec_le most (2 * d)) [
      | yes far ↦
          let e : leb_ℤ (pos most) (pos (2 * d)) ≡ true = ground arith in
          rw e (
            ap pos (
              sym (
                min_of_le (d * 2 ^ suc n) most
                  (omega (arith, grows (2 * d) (2 ^ n) (two-pow_pos n), doubled d n)))))
      | no near ↦
          let e : leb_ℤ (pos most) (pos (2 * d)) ≡ false = ground arith in
          rw e (
            backoff_loop_lem most (2 * d) n (omega arith) small
            ∙ ap (λ x. pos (min x most)) (sym (doubled d n)))
    ])
  where
    doubled : (d n : ℕ) → d * 2 ^ suc n ≡ 2 * d * 2 ^ n
    doubled d n = grind arith

-- For a base that is positive and no more than the bound, and a bound below 2^62 ns (146 years), the
-- delay before a retry is the base doubled for each retry before it, or the bound where that is
-- less.
pub exponential_backoff_lem :
    (base most retry : ℕ)
    → 1 ≤ base
    → base ≤ most
    → most < 2 ^ 62
    → exponential_backoff (pos base) (pos most) retry ≡ pos (min (base * 2 ^ retry) most)
unfolding exponential_backoff
exponential_backoff_lem base most retry positive le small =
    let e : leb_ℤ (pos base) (pos 0) ≡ false = ground arith in
    let e' : leb_ℤ (pos most) (pos 0) ≡ false = ground arith in
    rw (e, e') (backoff_loop_lem most base retry le small)
