-- ===== src/Ask/Degraded.antt =====
-- A request of actor/ask.go that degrades while it holds the probe of the breaker.
use deqin_actor.Base.{ℕ, ◌≡◌, refl, sym, ap, Bool, true, false, some, List, [], ◌∷◌}
use mathlib.Core.Path.{subst}
use deqin_actor.Base.Int.{ℤ}
use deqin_actor.Breaker
use deqin_actor.Breaker.{CircuitBreaker, breaker_open, breaker_half_open, open_elapsed, try_probe}
use deqin_actor.Breaker.Behaviour.{open_refuses_then_probes}
use deqin_actor.Ask.{
  Asking, circuit_open, degraded_to_async, max_waits, try_acquire, when_allowed, ask_begin,
}

-- All of these requests, which begin one after the other, are refused by the breaker.
abbrev pub AllRefused : Asking → List (Bool × ℤ) → Type 0
AllRefused s [] = Unit {0}
AllRefused s ((allow_degrade, now) ∷ later) =
    ((ask_begin s allow_degrade now).1 ≡ circuit_open)
    × AllRefused (ask_begin s allow_degrade now).0 later

-- The breaker with its probe out.
abbrev probing : CircuitBreaker → CircuitBreaker
probing b = record b { state = breaker_half_open; half_open_probe = true }

probing-refuses :
    (b : CircuitBreaker) (now : ℤ) → Breaker.allow (probing b) now ≡ (probing b, false)
unfolding Breaker.allow try_probe
probing-refuses b now = refl

ask_begin-probing :
    (b : CircuitBreaker) (n : ℕ) (d : Bool) (now : ℤ)
    → ask_begin (record { breaker = some (probing b); wait_tokens = n }) d now
      ≡ (record { breaker = some (probing b); wait_tokens = n }, circuit_open)
unfolding ask_begin
ask_begin-probing b n d now =
    ap
      (λ p. when_allowed (record { breaker = some (probing b); wait_tokens = n }) d (some p.0, p.1))
      (probing-refuses b now)

probing-AllRefused :
    (b : CircuitBreaker) (n : ℕ) (later : List (Bool × ℤ))
    → AllRefused (record { breaker = some (probing b); wait_tokens = n }) later
probing-AllRefused b n [] = tt
probing-AllRefused b n ((d, now) ∷ later) = (
  ap (λ p. p.1) (ask_begin-probing b n d now),
  subst (λ s. AllRefused s later) (sym (ap (λ p. p.0) (ask_begin-probing b n d now)))
      (probing-AllRefused b n later),
)

ask_begin-degraded :
    (b : CircuitBreaker) (now : ℤ)
    → b.state ≡ breaker_open
    → open_elapsed b now ≡ true
    → ask_begin (record { breaker = some b; wait_tokens = max_waits }) true now
      ≡ (record { breaker = some (probing b); wait_tokens = max_waits }, degraded_to_async)
unfolding ask_begin try_acquire
ask_begin-degraded b now e late =
    ap
      (λ p.
        when_allowed (record { breaker = some b; wait_tokens = max_waits }) true (some p.0, p.1))
      (open_refuses_then_probes b [] now e tt late).1

-- All wait tokens are taken, and the time that the breaker of the target is open has elapsed. A
-- request that may degrade then takes the breaker's probe and degrades; and as long as no request
-- that was waiting before reports to the breaker, every later request to the target is refused, at
-- any time.
pub degraded_probe_lost :
    (b : CircuitBreaker) (now : ℤ) (later : List (Bool × ℤ))
    → b.state ≡ breaker_open
    → open_elapsed b now ≡ true
    → let begun = ask_begin (record { breaker = some b; wait_tokens = max_waits }) true now in
      (begun.1 ≡ degraded_to_async) × AllRefused begun.0 later
degraded_probe_lost b now later e late = (
  ap (λ p. p.1) (ask_begin-degraded b now e late),
  subst (λ s. AllRefused s later) (sym (ap (λ p. p.0) (ask_begin-degraded b now e late)))
      (probing-AllRefused b max_waits later),
)
