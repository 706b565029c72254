-- ===== src/RateLimit/Tests.antt =====
-- Runs of the token bucket, and its theorems at inputs that meet their conditions.
use deqin_actor.Base.{◌+◌, ◌-◌, ◌*◌, ◌≤◌, ◌≡◌, refl, arith, true, false, [], ◌∷◌}
use deqin_actor.Base.Int.{pos, to_int64, ◌-ℤ◌, ◌*ℤ◌, ◌+ℤ◌, sub64, mul64, add64, quot}
use deqin_actor.Base.Time.{second}
use deqin_actor.RateLimit.{
  TokenBucket, new_token_bucket, tokens_due, refill, set_qps, allow, wait, granted,
}
use deqin_actor.RateLimit.Refill.{bucket}
use deqin_actor.RateLimit.Rate.{at_times, granted_bound}
use deqin_actor.RateLimit.Waiting.{wait_returns, tries, overflow_starves}

-- Ten tokens a second, at most five; the last refill left one, at time 0.
abbrev one_left : TokenBucket
one_left = bucket 10 5 1 0

refill_half_second : refill one_left (pos 250000000) ≡ bucket 10 5 3 250000000
unfolding refill tokens_due sub64 mul64 add64 quot to_int64 ◌-ℤ◌ ◌*ℤ◌ ◌+ℤ◌
refill_half_second = refl

set_qps_off : (set_qps one_left (pos 0) (pos 0)).tokens ≡ pos 5
unfolding set_qps
set_qps_off = refl

granted_bound_example :
    (granted
        (new_token_bucket (pos 10) (pos 5) (pos 0))
        (at_times ((pos 5, 1) ∷ (pos 3, 250000000) ∷ (pos 1, 300000000) ∷ []))).1
      * second
    ≤ 5 * second + (300000000 - 0) * 10
granted_bound_example =
    granted_bound 10 5 0 300000000 ((pos 5, 1) ∷ (pos 3, 250000000) ∷ (pos 1, 300000000) ∷ [])
      (omega arith) (omega arith) (omega arith) (omega arith) (omega arith) (omega arith)

wait_returns_example : (wait one_left (pos 4) (tries (200000 ∷ 400000 ∷ []) 600000000)).1 ≡ true
wait_returns_example =
    wait_returns 10 5 1 0 4 600000000 (200000 ∷ 400000 ∷ []) (omega arith) (omega arith)
      (omega arith) (omega arith) (omega arith) (omega arith) (omega arith) (omega arith)
      (omega arith)

-- 200000 tokens a second, idle for thirteen hours.
overflow_starves_example :
    allow (bucket 200000 200000 0 0) (pos 1) (pos 46800000000000)
    ≡ (bucket 200000 200000 0 0, false)
overflow_starves_example =
    overflow_starves 200000 200000 0 46800000000000 1 (omega arith) (omega arith) (omega arith)
      (omega arith) (omega arith) (omega arith)
