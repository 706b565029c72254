-- ===== src/Breaker/Atomic.antt =====
-- The atomic steps of `Allow` (actor/breaker.go), for goroutines that call it at once.
use mathlib.Core.Path.{subst₂}
use deqin_actor.Base.{
  sym, ℕ, zero, suc, ◌≡◌, refl, Bool, true, false, List, [], ◌∷◌, arith, if◌then◌else◌,
}
use deqin_actor.Base.Int.{ℤ}
use deqin_actor.Breaker.{
  State, breaker_closed, breaker_open, breaker_half_open, CircuitBreaker, open_elapsed, allow,
}

-- Where a goroutine stands: before `state.Load`, before `openedAtUnix.Load`, before the
-- compare-and-swap of `state`, before `halfOpenProbe.Store(false)`, before the compare-and-swap of
-- `halfOpenProbe`, or returned.
pub data Pc : Type 0 where
  load_state load_opened cas_state reset_probe cas_probe : Pc
  returned : Bool → Pc

abbrev pub after_load : State → Pc
after_load breaker_closed = returned true
after_load breaker_open = load_opened
after_load breaker_half_open = cas_probe

abbrev pub swap_state : State → CircuitBreaker → CircuitBreaker × Pc
swap_state breaker_open b = (record b { state = breaker_half_open }, reset_probe)
swap_state _ b = (b, cas_probe)

-- One atomic step of a call of `Allow(now)`.
unfoldable pub allow_step : ℤ → CircuitBreaker → Pc → CircuitBreaker × Pc
allow_step now b load_state = (b, after_load b.state)
allow_step now b load_opened = (b, if open_elapsed b now then cas_state else returned false)
allow_step now b cas_state = swap_state b.state b
allow_step now b reset_probe = (record b { half_open_probe = false }, cas_probe)
allow_step now b cas_probe =
    if b.half_open_probe
    then (b, returned false)
    else (record b { half_open_probe = true }, returned true)
allow_step now b (returned r) = (b, returned r)

unfoldable pub alone : ℕ → ℤ → CircuitBreaker → Pc → CircuitBreaker × Pc
unfolding allow_step
alone zero now b pc = (b, pc)
alone (suc n) now b pc = let (b', pc') = allow_step now b pc in alone n now b' pc'

-- A call that runs alone returns within five atomic steps, with the result and the breaker of
-- `allow`.
pub alone-allow :
    (b : CircuitBreaker) (now : ℤ)
    → let (b', passed) = allow b now in alone 5 now b load_state ≡ (b', returned passed)
unfolding alone allow
alone-allow b now = ground arith

-- Two goroutines call `Allow(now)` and `Allow(now')`; the schedule says who makes the next step.
pub data Who : Type 0 where
  first second : Who

pub record Race : Type 0 where
  pub breaker : CircuitBreaker
  pub pc : Pc
  pub pc' : Pc

abbrev race_step : ℤ → ℤ → Who → Race → Race
race_step now now' first r =
    let (b, p) = allow_step now r.breaker r.pc in record r { breaker = b; pc = p }
race_step now now' second r =
    let (b, p) = allow_step now' r.breaker r.pc' in record r { breaker = b; pc' = p }

unfoldable pub race : ℤ → ℤ → List Who → Race → Race
unfolding allow_step
race now now' [] r = r
race now now' (w ∷ ws) r = race now now' ws (race_step now now' w r)

-- The first goroutine makes the breaker half open, the second takes the probe, and the first then
-- resets the flag and takes it again.
abbrev pub late_reset : List Who
late_reset = first ∷ first ∷ first ∷ second ∷ second ∷ first ∷ first ∷ []

abbrev pub start : CircuitBreaker → Race
start b = record { breaker = b; pc = load_state; pc' = load_state }

abbrev BothPass : ℤ → ℤ → CircuitBreaker → Type 0
BothPass now now' b =
    let r = race now now' late_reset (start b) in
    (r.pc ≡ returned true) × (r.pc' ≡ returned true) × (r.breaker.state ≡ breaker_half_open)

both_pass :
    (b : CircuitBreaker) (now now' : ℤ)
    → open_elapsed b now ≡ true
    → BothPass now now' (record b { state = breaker_open; half_open_probe = false })
unfolding race
both_pass b now now' late = rw late (refl, refl, refl)

-- Whenever the time of an open breaker, with no probe out, has run for a call, there is an interleaving of that call with
-- any other one in which both pass: the half-open breaker lets two probes through.
pub two_probes :
    (b : CircuitBreaker) (now now' : ℤ)
    → b.state ≡ breaker_open
    → b.half_open_probe ≡ false
    → open_elapsed b now ≡ true
    → let r = race now now' late_reset (start b) in
      (r.pc ≡ returned true) × (r.pc' ≡ returned true) × (r.breaker.state ≡ breaker_half_open)
two_probes b now now' e p late =
    subst₂ (λ s q. BothPass now now' (record b { state = s; half_open_probe = q })) (sym e) (sym p)
      (both_pass b now now' late)
