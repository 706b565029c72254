-- ===== src/Ids/Tests.antt =====
-- Identifiers of actor/id.go at concrete inputs.
use deqin_actor.Base.{◌+◌, ◌%◌, ◌≡◌, refl, arith, [], ◌∷◌}
use deqin_actor.Base.Int.{two64}
use deqin_actor.Ids.{new_actor_id}
use deqin_actor.Ids.Unique.{new_actor_id_injective}

-- The same time and the same value of the counter, written in two ways.
new_actor_id_injective_example : (6 ≡ 2 + 4) × (10 % two64 ≡ (10 + two64) % two64)
unfolding new_actor_id
new_actor_id_injective_example =
    new_actor_id_injective (97 ∷ []) 6 (2 + 4) 10 (10 + two64) (omega arith) (omega arith) refl
