-- ===== src/Ask/Reported.antt =====
-- What a request of actor/ask.go does to the breaker of its target.
use deqin_actor.Base.{
  ◌≡◌, inl, inr, refl, ◌∙◌, ltb, ◌==◌, Bool-cases, Bool, true, false, Option, some,
}
use deqin_actor.Base.Int.{ℤ}
use deqin_actor.Breaker.{CircuitBreaker, Call, succeeds, fails, step}
use deqin_actor.Ask.{
  Asking, Answer, no_answer, failed, answered, allowed, when_allowed, with_token, try_acquire,
  reported, ask_begin, ask_end, release,
}

-- The token and the token's return leave the breaker alone.
try_acquire-breaker : (a : Asking) → (try_acquire a).0.breaker ≡ a.breaker
unfolding try_acquire
try_acquire-breaker a = elim (Bool-cases (ltb a.wait_tokens 4096)) [
  | inl e ↦ rw e refl
  | inr e ↦ rw e refl
]

release-breaker : (a : Asking) → (release a).breaker ≡ a.breaker
unfolding release
release-breaker a = elim (Bool-cases (a.wait_tokens == 0)) [ inl e ↦ rw e refl | inr e ↦ rw e refl ]

with_token-breaker : (d : Bool) (p : Asking × Bool) → (with_token d p).0.breaker ≡ p.0.breaker
with_token-breaker d (a, true) = refl
with_token-breaker true (a, false) = refl
with_token-breaker false (a, false) = refl

when_allowed-breaker :
    (a : Asking) (d : Bool) (p : Option CircuitBreaker × Bool)
    → (when_allowed a d p).0.breaker ≡ p.0
when_allowed-breaker a d (b, false) = refl
when_allowed-breaker a d (b, true) =
    with_token-breaker d (try_acquire (record a { breaker = b }))
    ∙ try_acquire-breaker (record a { breaker = b })

pub ask_begin-breaker :
    (a : Asking) (d : Bool) (now : ℤ) → (ask_begin a d now).0.breaker ≡ (allowed a.breaker now).0
unfolding ask_begin
ask_begin-breaker a d now = when_allowed-breaker a d (allowed a.breaker now)

pub ask_end-breaker :
    (a : Asking) (r : Answer) (now : ℤ) → (ask_end a r now).0.breaker ≡ reported r now a.breaker
unfolding ask_end
ask_end-breaker a r now = release-breaker (record a { breaker = reported r now a.breaker })

-- The calls of the breaker that an answer makes.
abbrev pub call_of : Answer → ℤ → Call
call_of no_answer now = fails now
call_of failed now = fails now
call_of answered now = succeeds

pub reported-step :
    (r : Answer) (now : ℤ) (b : CircuitBreaker)
    → reported r now (some b) ≡ some (step b (call_of r now))
unfolding step
reported-step no_answer now b = refl
reported-step failed now b = refl
reported-step answered now b = refl
