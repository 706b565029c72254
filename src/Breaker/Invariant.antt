-- ===== src/Breaker/Invariant.antt =====
-- The breaker of actor/breaker.go over whole histories of calls.
use deqin_actor.Base.{
  ℕ, suc, ◌+◌, ◌≤◌, ◌<◌, ◌≡◌, Bool, true, false, List, [], ◌∷◌, length, arith, if◌then◌else◌, ◌==◌,
}
use deqin_actor.Base.Int.{ℤ, two64}
use deqin_actor.Breaker.{
  State, breaker_closed, breaker_open, breaker_half_open, CircuitBreaker, Call, allows, succeeds,
  fails, new_circuit_breaker, allow, on_failure, step, run,
}

-- What each state says of the counter and of the probe flag.
abbrev Counted : State → CircuitBreaker → Type 0
Counted breaker_closed b = (b.failures < b.threshold) × (b.half_open_probe ≡ false)
Counted breaker_open b = (b.threshold ≤ b.failures) × (b.half_open_probe ≡ false)
Counted breaker_half_open b = (b.threshold ≤ b.failures) × (b.half_open_probe ≡ b.half_open_probe)

pub record IsValid (b : CircuitBreaker) : Type 0 where
  some_threshold : 0 < b.threshold
  pub counted : Counted b.state b

new-IsValid : (threshold : ℕ) (open_for : ℤ) → IsValid (new_circuit_breaker threshold open_for)
unfolding new_circuit_breaker
new-IsValid threshold open_for = ground arith

-- One call keeps the invariant, unless the counter of failures wraps.
step-IsValid :
    (b : CircuitBreaker) (c : Call) → b.failures + 1 < two64 → IsValid b → IsValid (step b c)
unfolding step
step-IsValid b (allows now) room v = ground arith
step-IsValid b succeeds room v = ground arith
step-IsValid b (fails now) room v = ground arith

failures-step : (b : CircuitBreaker) (c : Call) → (step b c).failures ≤ b.failures + 1
unfolding step
failures-step b (allows now) = ground arith
failures-step b succeeds = ground arith
failures-step b (fails now) = ground arith

run_from-IsValid :
    (b : CircuitBreaker) (cs : List Call)
    → b.failures + length cs < two64
    → IsValid b
    → IsValid (run b cs)
unfolding run
run_from-IsValid b [] room v = v
run_from-IsValid b (c ∷ cs) room v =
    run_from-IsValid (step b c) cs (omega (arith, failures-step b c))
      (step-IsValid b c (omega arith) v)

-- After any history of fewer than 2^64 calls on a new breaker: it is closed with fewer failures
-- counted than the threshold, or open or half open with at least as many, and only a half-open
-- breaker has a probe out.
pub run-IsValid :
    (threshold : ℕ) (open_for : ℤ) (cs : List Call)
    → length cs < two64
    → IsValid (run (new_circuit_breaker threshold open_for) cs)
unfolding new_circuit_breaker
run-IsValid threshold open_for cs room =
    run_from-IsValid (new_circuit_breaker threshold open_for) cs (ground arith)
      (new-IsValid threshold open_for)

-- The failures in a history, and whether it has no success.
unfoldable pub count_fails : List Call → ℕ
count_fails [] = 0
count_fails (fails now ∷ cs) = suc (count_fails cs)
count_fails (c ∷ cs) = count_fails cs

unfoldable pub no_success : List Call → Bool
no_success [] = true
no_success (succeeds ∷ cs) = false
no_success (c ∷ cs) = no_success cs

stays_closed_from :
    (b : CircuitBreaker) (cs : List Call)
    → b.state ≡ breaker_closed
    → b.threshold < two64
    → no_success cs ≡ true
    → b.failures + count_fails cs < b.threshold
    → ((run b cs).state ≡ breaker_closed)
      × ((run b cs).failures ≡ b.failures + count_fails cs)
      × ((run b cs).threshold ≡ b.threshold)
unfolding run step count_fails no_success
stays_closed_from b [] e small quiet few = ground arith
stays_closed_from b (allows now ∷ cs) e small quiet few =
    ground (arith, stays_closed_from (allow b now).0 cs)
stays_closed_from b (succeeds ∷ cs) e small quiet few = cc
stays_closed_from b (fails now ∷ cs) e small quiet few =
    ground (arith, stays_closed_from (on_failure b now) cs)

-- A closed breaker with no failures counted goes through any history without a success and with
-- fewer failures than the threshold: it is still closed, has counted each failure and lets every
-- request pass. The next failure opens it exactly when it makes the count reach the threshold.
pub trips_at_threshold :
    (b : CircuitBreaker) (cs : List Call) (now : ℤ)
    → b.state ≡ breaker_closed
    → b.failures ≡ 0
    → b.threshold < two64
    → no_success cs ≡ true
    → count_fails cs < b.threshold
    → ((run b cs).state ≡ breaker_closed)
      × ((run b cs).failures ≡ count_fails cs)
      × ((allow (run b cs) now).1 ≡ true)
      × ((on_failure (run b cs) now).state
          ≡ (if count_fails cs + 1 == b.threshold then breaker_open else breaker_closed))
unfolding allow on_failure
trips_at_threshold b cs now e none_yet small quiet few =
    ground (arith, stays_closed_from b cs e small quiet)
