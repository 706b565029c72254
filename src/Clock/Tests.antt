-- ===== src/Clock/Tests.antt =====
-- Runs of testkit/clock.go.
use deqin_actor.Base.{◌≡◌, refl, List, [], ◌∷◌}
use deqin_actor.Base.Int.{ℤ, pos, ◌+ℤ◌}
use deqin_actor.Clock.{FakeClock, after}
use deqin_actor.Clock.Fires.{run, only, first_reached, sent, timer_fires_once}

abbrev clock : FakeClock
clock = record { now = pos 100; tmrs = [] }

abbrev durations : List ℤ
durations = pos 20 ∷ pos 20 ∷ pos 20 ∷ pos 20 ∷ []

timer_fires_once_example :
    only 1 (run (after clock (pos 50) 1) durations)
    ≡ sent 1 (first_reached ((pos 100) +ℤ (pos 50)) (pos 100) durations)
timer_fires_once_example = timer_fires_once clock (pos 50) 1 durations refl
