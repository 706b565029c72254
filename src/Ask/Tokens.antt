-- ===== src/Ask/Tokens.antt =====
-- The wait tokens of actor/system.go, as the requests of actor/ask.go take and release them.
use deqin_actor.Base.{
  ℕ, zero, suc, ◌+◌, ◌≤◌, ◌≡◌, refl, arith, if◌then◌else◌, ltb, ◌==◌, lt→ltb, le→ltb, Bool, true,
  false, Option, List, [], ◌∷◌, dec_lt,
}
use deqin_actor.Base.Int.{ℤ}
use deqin_actor.Breaker.{CircuitBreaker}
use deqin_actor.Ask.{
  Asking, Begun, circuit_open, degraded_to_async, blocks, awaits, Answer, max_waits, try_acquire,
  release, with_token, when_allowed, allowed, ask_begin, ask_resume, ask_end,
}

-- A step of some goroutine: it begins a request, goes on with one that blocks, or ends one that
-- waits.
pub data Step : Type 0 where
  begins : Bool → ℤ → Step
  resumes : Step
  ends : Answer → ℤ → Step

-- The state, and how many requests wait for their responses.
abbrev count_begun : ℕ → Asking × Begun → Asking × ℕ
count_begun n (s, awaits) = (s, n + 1)
count_begun n (s, circuit_open) = (s, n)
count_begun n (s, degraded_to_async) = (s, n)
count_begun n (s, blocks) = (s, n)

-- A request can end only if one waits.
abbrev step : Asking → ℕ → Step → Asking × ℕ
step s n (begins allow_degrade now) = count_begun n (ask_begin s allow_degrade now)
step s n resumes = count_begun n (ask_resume s)
step s zero (ends reply now) = (s, zero)
step s (suc n) (ends reply now) = ((ask_end s reply now).0, n)

unfoldable pub run : Asking → ℕ → List Step → Asking × ℕ
run s n [] = (s, n)
run s n (t ∷ ts) = run (step s n t).0 (step s n t).1 ts

abbrev IsBalanced : Asking × ℕ → Type 0
IsBalanced p = (p.0.wait_tokens ≡ p.1) × (p.1 ≤ max_waits)

acquired-IsBalanced :
    (s : Asking) (n : ℕ) (allow_degrade : Bool)
    → IsBalanced (s, n)
    → IsBalanced (count_begun n (with_token allow_degrade (try_acquire s)))
unfolding try_acquire
acquired-IsBalanced s n allow_degrade h = elim (dec_lt s.wait_tokens max_waits) [
  | yes free ↦ rw (lt→ltb _ _ free) (omega arith, omega arith)
  | no full ↦ by_degrade allow_degrade (le→ltb _ _ (omega arith))
]
  where
    by_degrade :
        (d : Bool)
        → ltb s.wait_tokens max_waits ≡ false
        → IsBalanced (
            count_begun n (
              with_token d (
                if ltb s.wait_tokens max_waits
                then (record s { wait_tokens = s.wait_tokens + 1 }, true)
                else (s, false))))
    by_degrade true e = rw e h
    by_degrade false e = rw e h

begun-IsBalanced :
    (s : Asking) (n : ℕ) (allow_degrade : Bool) (found : Option CircuitBreaker × Bool)
    → IsBalanced (s, n)
    → IsBalanced (count_begun n (when_allowed s allow_degrade found))
begun-IsBalanced s n allow_degrade (b, false) h = h
begun-IsBalanced s n allow_degrade (b, true) h =
    acquired-IsBalanced (record s { breaker = b }) n allow_degrade h

step-IsBalanced : (s : Asking) (n : ℕ) (t : Step) → IsBalanced (s, n) → IsBalanced (step s n t)
unfolding ask_begin ask_resume ask_end release
step-IsBalanced s n (begins allow_degrade now) h =
    begun-IsBalanced s n allow_degrade (allowed s.breaker now) h
step-IsBalanced s n resumes h = acquired-IsBalanced s n false h
step-IsBalanced s zero (ends reply now) h = h
step-IsBalanced s (suc n) (ends reply now) h =
    let some_taken : (s.wait_tokens == 0) ≡ false = ground (arith, h.0) in
    rw some_taken (omega (arith, h.0), omega (arith, h.1))

run-IsBalanced : (s : Asking) (n : ℕ) (ts : List Step) → IsBalanced (s, n) → IsBalanced (run s n ts)
unfolding run
run-IsBalanced s n [] h = h
run-IsBalanced s n (t ∷ ts) h =
    run-IsBalanced (step s n t).0 (step s n t).1 ts (step-IsBalanced s n t h)

-- However the requests of many goroutines to one target begin, block, degrade, are refused and end, the tokens
-- taken are at any time exactly as many as there are requests that wait for a response, and these
-- are at most 4096: no path of `Ask` loses a token or releases one twice.
pub tokens_balanced :
    (b : Option CircuitBreaker) (ts : List Step)
    → let s = run (record { breaker = b; wait_tokens = 0 }) 0 ts in
      (s.0.wait_tokens ≡ s.1) × (s.1 ≤ max_waits)
tokens_balanced b ts =
    run-IsBalanced (record { breaker = b; wait_tokens = 0 }) 0 ts (refl, omega arith)
