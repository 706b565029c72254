-- ===== src/RateLimit/Rate.antt =====
-- The rate that the bucket of actor/ratelimit.go keeps to.
use deqin_actor.Base.{
  ℕ, ◌+◌, ◌-◌, ◌*◌, ◌^◌, ◌≤◌, ◌<◌, min, max, ◌≡◌, ◌⊎◌, inl, inr, refl, Bool, true, false, arith,
  if◌then◌else◌, ltb, dec_lt, List, [], ◌∷◌, Bool-cases, ap,
}
use deqin_actor.Base.Int.{ℤ, pos, negsuc, pos_part, leb_ℤ, ◌-ℤ◌, sub64, to_int64, two63}
use deqin_actor.Base.Time.{second}
use deqin_actor.RateLimit.{TokenBucket, new_token_bucket, take_tokens, refill, allow, granted}
use deqin_actor.RateLimit.Refill.{bucket, added, refill_lem, added-le, added_late}
use native.Mathlib.Nat

-- What a call at time `t` may leave of a bucket when it takes `taken` tokens.
pub record Spent (r b k l t taken : ℕ) (out : TokenBucket) : Type 0 where
  pub tokens : ℕ
  pub last : ℕ
  pub left : out ≡ bucket r b tokens last
  pub within : tokens ≤ b
  onward : l ≤ last
  by_then : last ≤ max l t
  paid : (taken + tokens) * second + l * r ≤ k * second + last * r

module _ (r b k l t : ℕ) (hr : 0 < r) (hb : b ≤ 2 ^ 62) (hk : k ≤ b) (fits : t < two63) where
  time_paid : l ≤ t → (t - l) * r + l * r ≡ t * r
  time_paid h = omega (arith, ap (λ (s : ℕ). s * r) (Nat.sub-add_cancel h))

  refill-Spent : Spent r b k l t 0 (refill (bucket r b k l) (pos t))
  refill-Spent = elim (dec_lt 0 (added r l t)) [
    | no none_due ↦ record {
      tokens = k;
      last = l;
      left = ground (arith, refill_lem r b k l t hr hb hk fits);
      within = hk;
      onward = omega arith;
      by_then = omega arith;
      paid = omega arith;
    }
    | yes due ↦ record {
      tokens = min b (k + added r l t);
      last = t;
      left = ground (arith, refill_lem r b k l t hr hb hk fits);
      within = omega arith;
      onward = omega (arith, added_late r l t due);
      by_then = omega arith;
      paid = omega (arith, added-le r l t, time_paid (omega (arith, added_late r l t due)));
    }
  ]

-- The tokens that a call takes.
abbrev pub taken : ℤ → Bool → ℕ
taken n passed = if passed then pos_part n else 0

abbrev CallSpent : ℕ → ℕ → ℕ → ℕ → ℕ → ℤ → TokenBucket × Bool → Type 0
CallSpent r b k l t n out = Spent r b k l t (taken n out.1) out.0

abbrev pub taken_from : ℕ → ℕ → ℕ → ℕ → ℕ → TokenBucket × Bool
taken_from r b k l m = if ltb k m then (bucket r b k l, false) else (bucket r b (k - m) l, true)

pub take_lem :
    (r b k l m : ℕ) → k ≤ 2 ^ 62 → take_tokens (bucket r b k l) (pos m) ≡ taken_from r b k l m
unfolding sub64 ◌-ℤ◌ to_int64
take_lem r b k l m hk = ground arith

take-Spent :
    (r b k l t : ℕ) (n : ℤ) (tb : TokenBucket)
    → b ≤ 2 ^ 62
    → leb_ℤ n (pos 0) ≡ false
    → Spent r b k l t 0 tb
    → CallSpent r b k l t n (take_tokens tb n)
take-Spent r b k l t (negsuc m) tb hb positive s = absurd (ground arith)
take-Spent r b k l t (pos m) tb hb positive s =
    rw (s.left, take_lem r b s.tokens s.last m (omega (arith, s.within)))
      (spent (Bool-cases (ltb s.tokens m)))
  where
    spent :
        (ltb s.tokens m ≡ true) ⊎ (ltb s.tokens m ≡ false)
        → CallSpent r b k l t (pos m) (taken_from r b s.tokens s.last m)
    spent (inl few) = rw few (record {
      tokens = s.tokens;
      last = s.last;
      left = refl;
      within = s.within;
      onward = s.onward;
      by_then = s.by_then;
      paid = s.paid;
    })
    spent (inr enough) = rw enough (record {
      tokens = s.tokens - m;
      last = s.last;
      left = refl;
      within = omega arith;
      onward = s.onward;
      by_then = s.by_then;
      paid = ground arith;
    })

free_call :
    (r b k l t : ℕ) (n : ℤ)
    → k ≤ b
    → leb_ℤ n (pos 0) ≡ true
    → Spent r b k l t (pos_part n) (bucket r b k l)
free_call r b k l t n hk free = record {
  tokens = k;
  last = l;
  left = refl;
  within = hk;
  onward = omega arith;
  by_then = omega arith;
  paid = ground arith;
}

allow-Spent :
    (r b k l t : ℕ) (n : ℤ)
    → 0 < r
    → b ≤ 2 ^ 62
    → k ≤ b
    → t < two63
    → CallSpent r b k l t n (allow (bucket r b k l) n (pos t))
unfolding allow
allow-Spent r b k l t n hr hb hk fits = elim (Bool-cases (leb_ℤ n (pos 0))) [
  | inl free ↦ rw free (free_call r b k l t n hk free)
  | inr positive ↦
      rw positive (take-Spent r b k l t n _ hb positive (refill-Spent r b k l t hr hb hk fits))
]

-- Calls of `Allow(n)` at times given in nanoseconds, none of them after `finish`.
pub at_times : List (ℤ × ℕ) → List (ℤ × ℤ)
at_times [] = []
at_times ((n, t) ∷ calls) = (n, pos t) ∷ at_times calls

abbrev AllBy : ℕ → List (ℤ × ℕ) → Type 0
AllBy finish [] = Unit
AllBy finish ((n, t) ∷ calls) = (t ≤ finish) × AllBy finish calls

granted_from :
    (r b k l finish : ℕ) (calls : List (ℤ × ℕ))
    → 0 < r
    → b ≤ 2 ^ 62
    → k ≤ b
    → l ≤ finish
    → finish < two63
    → AllBy finish calls
    → (granted (bucket r b k l) (at_times calls)).1 * second + l * r ≤ k * second + finish * r
unfolding granted at_times
granted_from r b k l finish [] hr hb hk hl fits by = grind arith
granted_from r b k l finish ((n, t) ∷ calls) hr hb hk hl fits by = ground (
  arith,
  s.paid,
  ap (λ tb. (granted tb (at_times calls)).1) s.left,
  granted_from r b s.tokens s.last finish calls hr hb s.within last_by fits by.1,
)
  where
    s : CallSpent r b k l t n (allow (bucket r b k l) n (pos t))
    s = allow-Spent r b k l t n hr hb hk (omega arith)

    last_by : s.last ≤ finish
    last_by = omega (arith, s.by_then)

-- A new bucket with positive rate `r` and burst `b` (at most 2^62), made at `start`: whatever calls
-- of `Allow` come up to the time `finish`, the tokens they are given are at most the burst and what
-- the rate makes of the time between. Times are nanoseconds that fit an `int64`; the product of the
-- elapsed time and the rate may overflow.
pub granted_bound :
    (r b start finish : ℕ) (calls : List (ℤ × ℕ))
    → 0 < r
    → 0 < b
    → b ≤ 2 ^ 62
    → start ≤ finish
    → finish < two63
    → AllBy finish calls
    → (granted (new_token_bucket (pos r) (pos b) (pos start)) (at_times calls)).1 * second
      ≤ b * second + (finish - start) * r
unfolding new_token_bucket
granted_bound r b start finish calls hr hb small order fits by = omega (
  arith,
  granted_from r b b start finish calls hr small (omega arith) order fits by,
  made,
  ap (λ (s : ℕ). s * r) (Nat.sub-add_cancel order),
)
  where
    made :
        (granted (new_token_bucket (pos r) (pos b) (pos start)) (at_times calls)).1
        ≡ (granted (bucket r b b start) (at_times calls)).1
    made = ap (λ tb. (granted tb (at_times calls)).1) (ground arith)
