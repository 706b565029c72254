-- ===== src/System/Sync/Tests.antt =====
-- Requests of actor/ask.go at concrete inputs.
use deqin_actor.Base.{ℕ, zero, suc, ◌≡◌, refl, arith, true, false, none, some, List, [], ◌∷◌}
use deqin_actor.Base.Int.{pos, ◌-ℤ◌, to_int64}
use deqin_actor.Base.Time.{sub_time}
use deqin_actor.Types.{base_actor, actor_ref, user, SendOptions}
use deqin_actor.Breaker
use deqin_actor.Breaker.{allows, fails}
use deqin_actor.Breaker.Invariant.{no_success, count_fails}
use deqin_actor.Ask.{circuit_open}
use deqin_actor.System.{System, default_breaker, new_system}
use deqin_actor.System.Sync.{ask, end_ask}
use deqin_actor.System.Sync.Breakers.{AskEvent, begins, ends, run_asks, breaker_per_target}
use deqin_actor.System.Sync.Circuit.{circuit_opens}
use deqin_actor.System.Tests.{host, two_actors}

-- Every id has a new breaker.
abbrev guarded : System ℕ
guarded = record two_actors { breakers = λ k. some default_breaker }

-- A request to the second actor times out, while one to another actor is answered.
abbrev asks : List (AskEvent ℕ)
asks =
    begins (some (base_actor 1)) false (pos 5)
    ∷ begins (some (actor_ref (7 ∷ []))) false (pos 6)
    ∷ ends (some (actor_ref (7 ∷ []))) (some (user 8, none)) (pos 7) (pos 1)
    ∷ ends (some (base_actor 1)) none (pos 9) (pos 4)
    ∷ []

breaker_per_target_example :
    (run_asks guarded asks).breakers (2 ∷ [])
    ≡ some (Breaker.run default_breaker (allows (pos 5) ∷ fails (pos 9) ∷ []))
unfolding new_system
breaker_per_target_example = breaker_per_target guarded asks (2 ∷ []) default_breaker refl refl

-- The requests above, `n` times.
abbrev asks_again : ℕ → List (AskEvent ℕ)
asks_again zero = []
asks_again (suc n) =
    begins (some (base_actor 1)) false (pos 5)
    ∷ begins (some (actor_ref (7 ∷ []))) false (pos 6)
    ∷ ends (some (actor_ref (7 ∷ []))) (some (user 8, none)) (pos 7) (pos 1)
    ∷ ends (some (base_actor 1)) none (pos 9) (pos 4)
    ∷ asks_again n

abbrev options : SendOptions
options = record {
  timeout = pos 0;
  persist = false;
  on_complete = none;
  priority = 0;
  allow_degrade = true;
}

-- After the breaker has opened, a request that was waiting times out too, and one is refused.
abbrev waiting : List (AskEvent ℕ)
waiting =
    ends (some (base_actor 1)) none (pos 25) (pos 20)
    ∷ begins (some (base_actor 1)) false (pos 26)
    ∷ ends (some (actor_ref (7 ∷ []))) (some (user 8, none)) (pos 27) (pos 1)
    ∷ []

-- The target has the default breaker, and 49 requests to it have timed out.
circuit_opens_example :
    let s =
      run_asks
        (end_ask (run_asks guarded (asks_again 49)) (some (base_actor 1)) none (pos 20) (pos 3)).0
        waiting in
    ((ask host s (pos 30 ∷ []) (4 ∷ []) 0 0 (some (base_actor 1)) (user 7) options (pos 30)).1
      ≡ circuit_open)
    × ((ask host s (pos 30 ∷ []) (4 ∷ []) 0 0 (some (base_actor 1)) (user 7) options (pos 30)).2
        ≡ none)
unfolding new_system count_fails no_success sub_time ◌-ℤ◌ default_breaker to_int64
circuit_opens_example =
    circuit_opens host guarded (asks_again 49) waiting (base_actor 1) (2 ∷ []) default_breaker none
      (pos 20) (pos 3) (pos 30) (pos 30 ∷ []) (4 ∷ []) 0 0 (user 7) options refl refl refl refl refl
      refl refl refl (omega arith) (refl, refl)
