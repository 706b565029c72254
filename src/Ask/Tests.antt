-- ===== src/Ask/Tests.antt =====
-- Runs of actor/ask.go.
use deqin_actor.Base.{◌≤◌, ◌≡◌, refl, Bool, true, false, none, some, List, [], ◌∷◌}
use deqin_actor.Base.Int.{ℤ, pos, ◌-ℤ◌}
use deqin_actor.Base.Time.{sub_time}
use deqin_actor.Breaker.{CircuitBreaker, breaker_open}
use deqin_actor.Ask.{ask_begin, answered, failed, degraded_to_async, max_waits}
use deqin_actor.Ask.Tokens.{Step, begins, resumes, ends, run, tokens_balanced}
use deqin_actor.Ask.Degraded.{AllRefused, degraded_probe_lost}

abbrev tripped : CircuitBreaker
tripped = record {
  failures = 50;
  state = breaker_open;
  opened_at_unix = pos 10;
  half_open_probe = false;
  threshold = 50;
  open_for = pos 30;
}

abbrev steps : List Step
steps =
    begins true (pos 1)
    ∷ begins false (pos 2)
    ∷ ends failed (pos 3)
    ∷ resumes
    ∷ ends answered (pos 4)
    ∷ []

tokens_balanced_example :
    let s = run (record { breaker = none; wait_tokens = 0 }) 0 steps in
    (s.0.wait_tokens ≡ s.1) × (s.1 ≤ max_waits)
tokens_balanced_example = tokens_balanced none steps

abbrev later : List (Bool × ℤ)
later = (false, pos 60) ∷ (true, pos 900) ∷ []

degraded_probe_lost_example :
    let begun =
      ask_begin (record { breaker = some tripped; wait_tokens = max_waits }) true (pos 50) in
    (begun.1 ≡ degraded_to_async) × AllRefused begun.0 later
unfolding sub_time ◌-ℤ◌
degraded_probe_lost_example = degraded_probe_lost tripped (pos 50) later refl refl
