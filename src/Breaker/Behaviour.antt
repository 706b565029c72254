-- ===== src/Breaker/Behaviour.antt =====
-- Which requests the breaker of actor/breaker.go lets pass once it has opened.
use deqin_actor.Base.{◌≤◌, ◌≡◌, ◌≢◌, refl, ap, true, false, List, [], ◌∷◌, arith}
use deqin_actor.Base.Int.{ℤ, IsInt64, leb_ℤ, to_int64-eq_self}
use deqin_actor.Base.Time.{sub_time}
use deqin_actor.Breaker.{
  breaker_closed, breaker_open, breaker_half_open, CircuitBreaker, open_elapsed, allow, on_success,
  on_failure, admit,
}

-- None of these times is `open_for` after `opened`.
abbrev TooEarly : ℤ → ℤ → List ℤ → Type 0
TooEarly open_for opened [] = Unit
TooEarly open_for opened (now ∷ later) =
    (leb_ℤ open_for (sub_time now opened) ≡ false) × TooEarly open_for opened later

pub allow_too_early :
    (b : CircuitBreaker) (now : ℤ)
    → b.state ≡ breaker_open
    → open_elapsed b now ≡ false
    → allow b now ≡ (b, false)
unfolding allow
allow_too_early b now e early = rw (e, early)

admit-TooEarly :
    (b : CircuitBreaker) (early : List ℤ)
    → b.state ≡ breaker_open
    → TooEarly b.open_for b.opened_at_unix early
    → admit b early ≡ (b, 0)
unfolding admit
admit-TooEarly b [] e h = refl
admit-TooEarly b (t ∷ early) e h =
    ground (arith, allow_too_early b t e h.0, admit-TooEarly b early e h.1)

-- An open breaker refuses every request until `openFor` has elapsed, and refusals change nothing;
-- the first request after that passes, and leaves the breaker half open with the probe taken.
pub open_refuses_then_probes :
    (b : CircuitBreaker) (early : List ℤ) (now : ℤ)
    → b.state ≡ breaker_open
    → TooEarly b.open_for b.opened_at_unix early
    → open_elapsed b now ≡ true
    → (admit b early ≡ (b, 0))
      × (allow b now ≡ (record b { state = breaker_half_open; half_open_probe = true }, true))
unfolding allow
open_refuses_then_probes b early now e h late = (admit-TooEarly b early e h, rw (e, late))

-- While a probe is out, every request is refused at any time, and nothing changes.
probe_out_refuses :
    (b : CircuitBreaker) (times : List ℤ)
    → b.state ≡ breaker_half_open
    → b.half_open_probe ≡ true
    → admit b times ≡ (b, 0)
unfolding admit allow
probe_out_refuses b [] e p = refl
probe_out_refuses b (t ∷ times) e p = ground (arith, probe_out_refuses b times e p)

-- Until a success or a failure is reported, a breaker that is not closed lets at most one of any
-- sequence of requests pass.
pub single_probe :
    (b : CircuitBreaker) (times : List ℤ) → b.state ≢ breaker_closed → (admit b times).1 ≤ 1
unfolding admit allow
single_probe b [] e = ground arith
single_probe b (t ∷ times) e =
    ground (arith, single_probe (allow b t).0 times, probe_out_refuses (allow b t).0 times)

abbrev reopen : CircuitBreaker → ℤ → CircuitBreaker
reopen b now = record b { opened_at_unix = now; state = breaker_open; half_open_probe = false }

reopened :
    (b : CircuitBreaker) (now : ℤ)
    → b.state ≡ breaker_half_open
    → IsInt64 now
    → on_failure b now ≡ reopen b now
unfolding on_failure
reopened b now e fits = rw (e, to_int64-eq_self now fits)

-- A probe that fails opens the breaker again, from the time of the failure on: every request is
-- refused at a time less than `openFor` later. A probe that succeeds closes it with no failures
-- counted. (The time fits the `int64` that stores it.)
probe_outcome :
    (b : CircuitBreaker) (now : ℤ) (times : List ℤ)
    → b.state ≡ breaker_half_open
    → IsInt64 now
    → TooEarly b.open_for now times
    → ((on_failure b now).state ≡ breaker_open)
      × ((on_failure b now).opened_at_unix ≡ now)
      × ((admit (on_failure b now) times).1 ≡ 0)
      × ((on_success b).state ≡ breaker_closed)
      × ((on_success b).failures ≡ 0)
unfolding on_success
probe_outcome b now times e fits h =
    rw (reopened b now e fits)
      (refl, refl, ap (λ r. r.1) (admit-TooEarly (reopen b now) times refl h), refl, refl)
