-- ===== src/RateLimit/Waiting.antt =====
-- Which requests the bucket of actor/ratelimit.go grants, and when `Wait` returns.
use deqin_actor.Base.{
  ℕ, zero, suc, zero, ◌+◌, ◌-◌, ◌*◌, ◌^◌, ◌≤◌, ◌<◌, min, ◌≡◌, refl, true, false, arith,
  if◌then◌else◌, leb, dec_lt, List, [], ◌∷◌, ap,
}
use deqin_actor.Base.Int.{ℤ, pos, leb_ℤ, ◌≤ℤ◌, ◌<ℤ◌, two63, two64}
use deqin_actor.Base.Time.{second}
use deqin_actor.RateLimit.{TokenBucket, refill, allow, wait_loop, wait}
use deqin_actor.RateLimit.Refill.{
  bucket, added, refill_lem, added_exact, added_overflow, added_late,
}
use deqin_actor.RateLimit.Rate.{taken_from, take_lem}

-- The bucket holds no more than its burst.
abbrev IsWithin : TokenBucket → Type 0
IsWithin tb = tb.tokens ≤ℤ tb.burst

refill-IsWithin : (tb : TokenBucket) (now : ℤ) → IsWithin tb → (refill tb now).tokens ≤ℤ tb.burst
unfolding refill
refill-IsWithin tb now h = ground arith

burst-refill : (tb : TokenBucket) (now : ℤ) → (refill tb now).burst ≡ tb.burst
unfolding refill
burst-refill tb now = ground arith

refused :
    (tb : TokenBucket) (n now : ℤ)
    → IsWithin tb
    → pos 0 ≤ℤ tb.burst
    → tb.burst <ℤ n
    → allow tb n now ≡ (refill tb now, false)
unfolding allow
refused tb n now h hb more = ground (arith, refill-IsWithin tb now h)

wait_refused :
    (tb : TokenBucket) (n : ℤ) (times : List ℤ)
    → IsWithin tb
    → pos 0 ≤ℤ tb.burst
    → tb.burst <ℤ n
    → (wait_loop tb n times).1 ≡ false
unfolding wait_loop
wait_refused tb n [] h hb more = refl
wait_refused tb n (now ∷ later) h hb more = rw (refused tb n now h hb more) (
    wait_refused (refill tb now) n later
      (ground (arith, refill-IsWithin tb now h, burst-refill tb now))
      (ground (arith, burst-refill tb now)) (ground (arith, burst-refill tb now)))

-- `Wait` for more tokens than the burst does not return, however often it tries and at whatever
-- times.
wait_over_burst :
    (tb : TokenBucket) (n : ℤ) (times : List ℤ)
    → IsWithin tb
    → pos 0 ≤ℤ tb.burst
    → tb.burst <ℤ n
    → (wait tb n times).1 ≡ false
unfolding wait
wait_over_burst tb n times h hb more = ground (arith, wait_refused tb n times h hb more)

-- With a rate of zero or less, a request for `n` tokens is granted exactly when `n` is at most the
-- burst, every time.
disabled_grants :
    (tb : TokenBucket) (n now : ℤ)
    → tb.rate ≤ℤ pos 0
    → pos 1 ≤ℤ n
    → ((allow tb n now).1 ≡ leb_ℤ n tb.burst)
      × ((allow tb n now).0.rate ≡ tb.rate)
      × ((allow tb n now).0.burst ≡ tb.burst)
unfolding allow refill
disabled_grants tb n now off positive = ground arith

-- Times in nanoseconds, none after `finish`.
abbrev NotAfter : ℕ → List ℕ → Type 0
NotAfter finish [] = Unit
NotAfter finish (t ∷ ts) = (t ≤ finish) × NotAfter finish ts

-- The calls of `Allow` in the loop: at `ts`, then at `finish`.
abbrev pub tries : List ℕ → ℕ → List ℤ
tries [] finish = pos finish ∷ []
tries (t ∷ ts) finish = pos t ∷ tries ts finish

-- One try.
try_lem :
    (r b k l t m : ℕ)
    → 0 < r
    → b ≤ 2 ^ 62
    → k ≤ b
    → t < two63
    → allow (bucket r b k l) (pos (suc m)) (pos t) ≡ (
        if leb (added r l t) 0
        then taken_from r b k l (suc m)
        else taken_from r b (min b (k + added r l t)) t (suc m))
unfolding allow
try_lem r b k l t m hr hb hk fits = ground (
  arith,
  refill_lem r b k l t hr hb hk fits,
  take_lem r b k l (suc m),
  take_lem r b (min b (k + added r l t)) t (suc m),
)

module _ (r b m finish : ℕ) (hr : 0 < r) (hb : b ≤ 2 ^ 62) (hn : suc m ≤ b)
    (fits : finish < two63) where
  mono : (a c : ℕ) → a ≤ c → a * r ≤ c * r
  mono a c h = grind arith

  split_time : (l t : ℕ) → l ≤ t → t ≤ finish → (finish - l) * r ≡ (t - l) * r + (finish - t) * r
  split_time l t h h' = omega (arith, ap (λ (s : ℕ). s * r) (apart l t h h'))
    where
      apart : (l t : ℕ) → l ≤ t → t ≤ finish → finish - l ≡ t - l + (finish - t)
      apart l t h h' = omega arith

  enough_by :
      (k l : ℕ) (ts : List ℕ)
      → k ≤ b
      → (finish - l) * r < two63
      → NotAfter finish ts
      → 2 * suc m * second ≤ 2 * k * second + (finish - l) * r
      → (wait_loop (bucket r b k l) (pos (suc m)) (tries ts finish)).1 ≡ true
  unfolding wait_loop
  enough_by k l [] hk room by due =
      ground (arith, try_lem r b k l finish m hr hb hk fits, added_exact r l finish room)
  enough_by k l (t ∷ ts) hk room by due = elim (dec_lt 0 (added r l t)) [
    | no none_due ↦
        ground
          (arith, try_lem r b k l t m hr hb hk (omega arith), enough_by k l ts hk room by.1 due)
    | yes some_due ↦
        let late : l < t = added_late r l t some_due in
        let parts : (finish - l) * r ≡ (t - l) * r + (finish - t) * r =
          split_time l t (omega arith) by.0 in
        ground (
          arith,
          try_lem r b k l t m hr hb hk (omega arith),
          added_exact r l t (omega arith),
          enough_by (min b (k + added r l t)) t ts (omega arith) (omega arith) by.1,
        )
  ]

-- `Wait(n)` on a bucket with positive rate and `k` tokens, `n` at most the burst: with any tries up
-- to `finish` and one at `finish`, it has returned, if the tokens missing come to at most half of
-- what the rate makes of the time since the last refill. (A refill drops the fraction of a token
-- that it has no whole token for.) The product of that time and the rate fits an `int64`.
pub wait_returns :
    (r b k l n finish : ℕ) (ts : List ℕ)
    → 0 < r
    → b ≤ 2 ^ 62
    → 0 < n
    → n ≤ b
    → k ≤ b
    → finish < two63
    → (finish - l) * r < two63
    → NotAfter finish ts
    → 2 * n * second ≤ 2 * k * second + (finish - l) * r
    → (wait (bucket r b k l) (pos n) (tries ts finish)).1 ≡ true
unfolding wait
wait_returns r b k l zero finish ts hr hb hn hnb hk fits room by due = refl
wait_returns r b k l (suc m) finish ts hr hb hn hnb hk fits room by due =
    ground (arith, enough_by r b m finish hr hb hnb fits k l ts hk room by due)

-- Where the product of the elapsed time and the rate passes the top of `int64`, and is below 2^64,
-- the refill adds nothing: an empty bucket refuses a request however long it has been idle.
pub overflow_starves :
    (r b l t n : ℕ)
    → 0 < r
    → b ≤ 2 ^ 62
    → 0 < n
    → t < two63
    → two63 ≤ (t - l) * r
    → (t - l) * r < two64
    → allow (bucket r b 0 l) (pos n) (pos t) ≡ (bucket r b 0 l, false)
overflow_starves r b l t zero hr hb hn fits big small = absurd (omega arith)
overflow_starves r b l t (suc m) hr hb hn fits big small =
    ground (arith, try_lem r b 0 l t m hr hb (omega arith) fits, added_overflow r l t big small)
