-- ===== src/Breaker.antt =====
-- actor/breaker.go: the circuit breaker. Here a call of `Allow`, `OnSuccess` or `OnFailure` runs with
-- no other goroutine in between; `Breaker.Atomic` has the atomic steps of `Allow`.
mod Tests
pub mod Invariant
pub mod Behaviour
pub mod Callers
pub mod Opened
pub mod Atomic
use deqin_actor.Base.{ℕ, ◌+◌, ◌*◌, ◌%◌, Bool, true, false, List, [], ◌∷◌, if◌then◌else◌, ◌==◌, leb}
use deqin_actor.Base.Int.{ℤ, pos, leb_ℤ, is_zero, two64}
use deqin_actor.Base.Time.{second, sub_time, unix_nano}

-- `breakerState`.
pub data State : Type 0 where
  breaker_closed breaker_open breaker_half_open : State

-- `openedAtUnix` is in nanoseconds; `failures` is a `uint64` that wraps.
pub record CircuitBreaker : Type 0 where
  pub failures : ℕ
  pub state : State
  pub opened_at_unix : ℤ
  pub half_open_probe : Bool
  pub threshold : ℕ
  pub open_for : ℤ

unfoldable pub new_circuit_breaker : ℕ → ℤ → CircuitBreaker
new_circuit_breaker threshold open_for = record {
  failures = 0;
  state = breaker_closed;
  opened_at_unix = pos 0;
  half_open_probe = false;
  threshold = if threshold == 0 then 50 else threshold;
  open_for = if is_zero open_for then pos (30 * second) else open_for;
}

-- `open`
unfoldable open_at : CircuitBreaker → ℤ → CircuitBreaker
open_at b now = record b {
  opened_at_unix = unix_nano now;
  state = breaker_open;
  half_open_probe = false;
}

-- The case `breakerHalfOpen` of `Allow`: the compare-and-swap of `halfOpenProbe`.
unfoldable pub try_probe : CircuitBreaker → CircuitBreaker × Bool
try_probe b = if b.half_open_probe then (b, false) else (record b { half_open_probe = true }, true)

-- `now.Sub(opened) >= b.openFor`
abbrev pub open_elapsed : CircuitBreaker → ℤ → Bool
open_elapsed b now = leb_ℤ b.open_for (sub_time now b.opened_at_unix)

abbrev allow_in : State → CircuitBreaker → ℤ → CircuitBreaker × Bool
allow_in breaker_closed b now = (b, true)
allow_in breaker_open b now =
    if open_elapsed b now
    then try_probe (record b { state = breaker_half_open; half_open_probe = false })
    else (b, false)
allow_in breaker_half_open b now = try_probe b

unfoldable pub allow : CircuitBreaker → ℤ → CircuitBreaker × Bool
unfolding try_probe
allow b now = allow_in b.state b now

unfoldable pub on_success : CircuitBreaker → CircuitBreaker
on_success b = record b { failures = 0; state = breaker_closed; half_open_probe = false }

-- What `OnFailure` does unless the breaker is half open.
abbrev count_failure : CircuitBreaker → ℤ → CircuitBreaker
unfolding open_at
count_failure b now =
    let counted = record b { failures = (b.failures + 1) % two64 } in
    if leb b.threshold counted.failures then open_at counted now else counted

abbrev on_failure_in : State → CircuitBreaker → ℤ → CircuitBreaker
unfolding open_at
on_failure_in breaker_half_open b now = open_at b now
on_failure_in breaker_open b now = count_failure b now
on_failure_in breaker_closed b now = count_failure b now

unfoldable pub on_failure : CircuitBreaker → ℤ → CircuitBreaker
unfolding open_at
on_failure b now = on_failure_in b.state b now

-- A history of calls, and the breaker that it leaves.
pub data Call : Type 0 where
  allows : ℤ → Call
  succeeds : Call
  fails : ℤ → Call

unfoldable pub step : CircuitBreaker → Call → CircuitBreaker
unfolding allow on_success on_failure
step b (allows now) = (allow b now).0
step b succeeds = on_success b
step b (fails now) = on_failure b now

unfoldable pub run : CircuitBreaker → List Call → CircuitBreaker
run b [] = b
run b (c ∷ cs) = run (step b c) cs

-- Calls of `Allow` at the given times, one after the other: the breaker, and how many pass.
unfoldable pub admit : CircuitBreaker → List ℤ → CircuitBreaker × ℕ
admit b [] = (b, 0)
admit b (now ∷ later) =
    let (b', passed) = allow b now in
    let (b'', n) = admit b' later in (b'', if passed then n + 1 else n)
