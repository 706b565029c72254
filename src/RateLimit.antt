-- ===== src/RateLimit.antt =====
-- actor/ratelimit.go: the token bucket. The time that the code reads from `time.Now` is an argument.
-- A call runs with no other goroutine in between, so that its compare-and-swaps succeed.
mod Tests
pub mod Refill
pub mod Rate
pub mod Waiting
use deqin_actor.Base.{ℕ, ◌+◌, Bool, true, false, List, [], ◌∷◌, if◌then◌else◌}
use deqin_actor.Base.Int.{ℤ, pos, pos_part, quot, leb_ℤ, ltb_ℤ, add64, sub64, mul64}
use deqin_actor.Base.Time.{second}

pub record TokenBucket : Type 0 where
  pub rate : ℤ
  pub burst : ℤ
  pub tokens : ℤ
  pub last_ns : ℤ

-- The burst that the bucket is made with: the one asked for, else the rate, else 1.
abbrev default_burst : ℤ → ℤ → ℤ
default_burst qps burst =
    if leb_ℤ burst (pos 0) then (if leb_ℤ qps (pos 0) then pos 1 else qps) else burst

unfoldable pub new_token_bucket : ℤ → ℤ → ℤ → TokenBucket
new_token_bucket qps burst now = record {
  rate = qps;
  burst = default_burst qps burst;
  tokens = default_burst qps burst;
  last_ns = now;
}

-- `(elapsed * r) / int64(time.Second)`
unfoldable pub tokens_due : TokenBucket → ℤ → ℤ
tokens_due tb now = quot (mul64 (sub64 now tb.last_ns) tb.rate) second

abbrev capped : ℤ → ℤ → ℤ
capped burst next = if ltb_ℤ burst next then burst else next

unfoldable pub refill : TokenBucket → ℤ → TokenBucket
refill tb now =
    if leb_ℤ tb.rate (pos 0)
    then record tb { last_ns = now; tokens = tb.burst }
    else if leb_ℤ now tb.last_ns
    then tb
    else let due = tokens_due tb now in
      if leb_ℤ due (pos 0)
      then tb
      else record tb { last_ns = now; tokens = capped tb.burst (add64 tb.tokens due) }

unfoldable pub set_qps : TokenBucket → ℤ → ℤ → TokenBucket
unfolding refill
set_qps tb qps now =
    let refilled = record (refill tb now) { rate = qps } in
    if leb_ℤ qps (pos 0) then record refilled { tokens = refilled.burst } else refilled

-- `Allow` from `refill` on, which it calls for a positive `n`.
abbrev take_tokens : TokenBucket → ℤ → TokenBucket × Bool
take_tokens tb n =
    if ltb_ℤ tb.tokens n then (tb, false) else (record tb { tokens = sub64 tb.tokens n }, true)

unfoldable pub allow : TokenBucket → ℤ → ℤ → TokenBucket × Bool
allow tb n now = if leb_ℤ n (pos 0) then (tb, true) else take_tokens (refill tb now) n

-- The loop of `Wait`, over the times at which it calls `Allow`: whether one of the calls passed.
unfoldable pub wait_loop : TokenBucket → ℤ → List ℤ → TokenBucket × Bool
wait_loop tb n [] = (tb, false)
wait_loop tb n (now ∷ later) =
    let (tb', passed) = allow tb n now in
    let rest = wait_loop tb' n later in if passed then (tb', true) else rest

unfoldable pub wait : TokenBucket → ℤ → List ℤ → TokenBucket × Bool
unfolding wait_loop
wait tb n times = if leb_ℤ n (pos 0) then (tb, true) else wait_loop tb n times

-- Calls of `Allow`, each with its `n` and its time, and the tokens that the calls that pass take.
unfoldable pub granted : TokenBucket → List (ℤ × ℤ) → TokenBucket × ℕ
granted tb [] = (tb, 0)
granted tb ((n, now) ∷ calls) =
    let (tb', passed) = allow tb n now in
    let (tb'', total) = granted tb' calls in (tb'', if passed then pos_part n + total else total)
