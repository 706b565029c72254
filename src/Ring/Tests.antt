-- ===== src/Ring/Tests.antt =====
-- Runs of the ring, and its theorems at inputs that meet their conditions.
use deqin_actor.Base.{ℕ, ◌≡◌, refl, arith, true, false, none, some, List, [], ◌∷◌}
use deqin_actor.Ring.{round_up, new_ring}
use deqin_actor.Ring.Capacity.{Rounded, round_up_lem}
use deqin_actor.Ring.Refine.{Op, put, get, put_done, got, run, run_queue, ring_refines_queue}

abbrev script : List (Op ℕ)
script = put 7 ∷ put 8 ∷ put 9 ∷ get ∷ put 9 ∷ get ∷ get ∷ get ∷ []

round_up_sizes : (round_up 0 ≡ 2) × (round_up 3 ≡ 4) × (round_up 65536 ≡ 65536)
unfolding round_up
round_up_sizes = (refl, refl, refl)

run_queue_replies :
    run_queue 2 [] script
    ≡ put_done true
      ∷ put_done true
      ∷ put_done false
      ∷ got (some 7) true
      ∷ put_done true
      ∷ got (some 8) true
      ∷ got (some 9) true
      ∷ got none false
      ∷ []
unfolding run_queue
run_queue_replies = refl

ring_refines_queue_example : run (new_ring 2) script ≡ some (run_queue (round_up 2) [] script)
ring_refines_queue_example = ring_refines_queue ℕ 2 script (omega arith)

round_up_lem_example : Rounded 5 (round_up 5)
round_up_lem_example = round_up_lem 5 (omega arith)
