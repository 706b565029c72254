-- ===== src/RateLimit/Refill.antt =====
-- What one refill of the bucket of actor/ratelimit.go adds.
use deqin_actor.Base.{
  ℕ, ◌+◌, ◌-◌, ◌*◌, ◌/◌, ◌%◌, ◌^◌, ◌≤◌, ◌<◌, min, ◌≡◌, ap, arith, if◌then◌else◌, leb, ltb, dec_lt,
}
use deqin_actor.Base.Int.{
  pos, quot, ◌-ℤ◌, ◌+ℤ◌, ◌*ℤ◌, add64, sub64, mul64, to_int64, wrap_pos, two63, two64,
}
use deqin_actor.Base.Time.{second}
use deqin_actor.RateLimit.{TokenBucket, tokens_due, refill}

-- A bucket whose numbers are not negative, with a positive rate.
abbrev pub bucket : ℕ → ℕ → ℕ → ℕ → TokenBucket
bucket r b k l = record { rate = pos r; burst = pos b; tokens = pos k; last_ns = pos l }

elapsed_lem : (t l : ℕ) → l < t → t < two63 → sub64 (pos t) (pos l) ≡ pos (t - l)
unfolding sub64 ◌-ℤ◌ to_int64
elapsed_lem t l h fits = ground arith

product_lem : (a b : ℕ) → mul64 (pos a) (pos b) ≡ wrap_pos (a * b % two64)
unfolding mul64 ◌*ℤ◌ to_int64
product_lem a b = ground arith

-- The product of the elapsed time and the rate, reduced to 64 bits, decides what is due.
due_lem :
    (r b k l t : ℕ)
    → l < t
    → t < two63
    → tokens_due (bucket r b k l) (pos t) ≡ quot (wrap_pos ((t - l) * r % two64)) second
unfolding tokens_due
due_lem r b k l t h fits = rw (elapsed_lem t l h fits, product_lem (t - l) r)

-- The tokens that a product of 64 bits stands for; a product whose sign bit is set gives none.
abbrev due_of : ℕ → ℕ
due_of w = if ltb w two63 then w / second else 0

capped_sum : (b k a : ℕ) → b ≤ 2 ^ 62 → k ≤ b → a < 2 ^ 62 → add64 (pos k) (pos a) ≡ pos (k + a)
unfolding add64 ◌+ℤ◌ to_int64
capped_sum b k a hb hk ha = ground arith

refill_late :
    (r b k l t w : ℕ)
    → 0 < r
    → b ≤ 2 ^ 62
    → k ≤ b
    → l < t
    → tokens_due (bucket r b k l) (pos t) ≡ quot (wrap_pos w) second
    → refill (bucket r b k l) (pos t)
      ≡ (if leb (due_of w) 0 then bucket r b k l else bucket r b (min b (k + due_of w)) t)
unfolding refill quot
refill_late r b k l t w hr hb hk h e = ground (arith, capped_sum b k (w / second))

pub added : ℕ → ℕ → ℕ → ℕ
added r l t = if ltb l t then due_of ((t - l) * r % two64) else 0

-- A refill at time `t` adds `added` tokens up to the burst and moves the clock to `t`, or, with
-- nothing to add, changes nothing.
pub refill_lem :
    (r b k l t : ℕ)
    → 0 < r
    → b ≤ 2 ^ 62
    → k ≤ b
    → t < two63
    → refill (bucket r b k l) (pos t)
      ≡ (if leb (added r l t) 0 then bucket r b k l else bucket r b (min b (k + added r l t)) t)
unfolding refill added
refill_lem r b k l t hr hb hk fits = elim (dec_lt l t) [
  | no early ↦ ground arith
  | yes late ↦ ground (
    arith,
    refill_late r b k l t ((t - l) * r % two64) hr hb hk late (due_lem r b k l t late fits),
  )
]

-- Never more than the rate allows.
pub added-le : (r l t : ℕ) → added r l t * second ≤ (t - l) * r
unfolding added
added-le r l t = ground arith

-- Exactly the whole tokens, where the product of the elapsed time and the rate fits an `int64`.
pub added_exact : (r l t : ℕ) → (t - l) * r < two63 → added r l t ≡ (t - l) * r / second
unfolding added
added_exact r l t fits = ground (arith, ap (λ (s : ℕ). s * r) (not_after l t))
  where
    not_after : (l t : ℕ) → t - l ≡ (if ltb l t then t - l else 0)
    not_after l t = ground arith

pub added_late : (r l t : ℕ) → 0 < added r l t → l < t
unfolding added
added_late r l t h = ground arith

-- A product with its sign bit set gives nothing.
pub added_overflow : (r l t : ℕ) → two63 ≤ (t - l) * r → (t - l) * r < two64 → added r l t ≡ 0
unfolding added
added_overflow r l t big small = ground arith
