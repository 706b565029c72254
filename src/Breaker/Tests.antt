-- ===== src/Breaker/Tests.antt =====
-- Runs of the circuit breaker, and its theorems at inputs that meet their conditions.
use deqin_actor.Base.{ℕ, ◌*◌, ◌≤◌, ◌≡◌, refl, arith, true, false, List, [], ◌∷◌}
use deqin_actor.Base.Int.{pos, to_int64, ◌-ℤ◌}
use deqin_actor.Base.Time.{second, sub_time}
use deqin_actor.Breaker.{
  breaker_closed, breaker_open, breaker_half_open, CircuitBreaker, Call, allows, fails,
  new_circuit_breaker, allow, step, run, admit,
}
use deqin_actor.Breaker.Invariant.{IsValid, run-IsValid}
use deqin_actor.Breaker.Behaviour.{single_probe}
use deqin_actor.Breaker.Callers.{calling, schedule, passed, few_probes}
use deqin_actor.Breaker.Atomic.{returned, allow_step, race, late_reset, start, two_probes}

-- Three failures open it for 1000 nanoseconds.
abbrev fresh : CircuitBreaker
fresh = record {
  failures = 0;
  state = breaker_closed;
  opened_at_unix = pos 0;
  half_open_probe = false;
  threshold = 3;
  open_for = pos 1000;
}

abbrev opened : CircuitBreaker
opened = record fresh { failures = 3; state = breaker_open; opened_at_unix = pos 500 }

abbrev probing : CircuitBreaker
probing = record opened { state = breaker_half_open; half_open_probe = true }

abbrev two_failures : List Call
two_failures = fails (pos 10) ∷ allows (pos 11) ∷ fails (pos 20) ∷ []

new_defaults :
    new_circuit_breaker 0 (pos 0) ≡ record fresh { threshold = 50; open_for = pos (30 * second) }
unfolding new_circuit_breaker
new_defaults = refl

third_failure : run fresh (fails (pos 10) ∷ fails (pos 20) ∷ fails (pos 500) ∷ []) ≡ opened
unfolding run step to_int64
third_failure = refl

probe_passes : (allow opened (pos 1500)).1 ≡ true
unfolding allow sub_time ◌-ℤ◌
probe_passes = refl

run-IsValid_example : IsValid (run (new_circuit_breaker 3 (pos 1000)) two_failures)
run-IsValid_example = run-IsValid 3 (pos 1000) two_failures (omega arith)

single_probe_example : (admit opened (pos 600 ∷ pos 1600 ∷ pos 1700 ∷ [])).1 ≤ 1
single_probe_example = single_probe opened (pos 600 ∷ pos 1600 ∷ pos 1700 ∷ []) (λ e. cc)

-- The third goroutine comes after two of them have passed.
abbrev late_reset_of_three : List ℕ
late_reset_of_three = 0 ∷ 0 ∷ 0 ∷ 1 ∷ 1 ∷ 0 ∷ 0 ∷ 2 ∷ 2 ∷ []

two_of_three :
    passed (schedule opened (calling (pos 1500 ∷ pos 1501 ∷ pos 1502 ∷ [])) late_reset_of_three).1
    ≡ 2
unfolding schedule allow_step sub_time ◌-ℤ◌
two_of_three = refl

few_probes_example :
    passed (schedule opened (calling (pos 1500 ∷ pos 1501 ∷ pos 1502 ∷ [])) late_reset_of_three).1
    ≤ 2
few_probes_example =
    few_probes opened (pos 1500 ∷ pos 1501 ∷ pos 1502 ∷ []) late_reset_of_three (λ e. cc)

two_probes_example :
    let r = race (pos 1500) (pos 1501) late_reset (start opened) in
    (r.pc ≡ returned true) × (r.pc' ≡ returned true) × (r.breaker.state ≡ breaker_half_open)
unfolding sub_time ◌-ℤ◌
two_probes_example = two_probes opened (pos 1500) (pos 1501) refl refl refl
