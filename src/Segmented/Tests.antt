-- ===== src/Segmented/Tests.antt =====
-- Runs of the queue of mailbox/segmented.go.
use deqin_actor.Base.{
  ℕ, ◌≡◌, refl, arith, if◌then◌else◌, ◌==◌, true, false, none, some, List, [], ◌∷◌,
}
use deqin_actor.Base.Int.{sub64, to_int64, ◌-ℤ◌}
use deqin_actor.Ring
use deqin_actor.Segmented
use deqin_actor.Ring.{round_up, new_ring}
use deqin_actor.Ring.Refine.{Op, put, get, Reply, put_done, got}
use deqin_actor.Segmented.{SegmentedQueue, new_segmented_queue, capacity}
use deqin_actor.Segmented.Fifo.{IsFifo, run, segmented-IsFifo}

abbrev two_segments : SegmentedQueue ℕ
two_segments = new_segmented_queue 2 2

abbrev history : List (Op ℕ)
history = put 1 ∷ put 2 ∷ put 3 ∷ get ∷ put 4 ∷ put 5 ∷ get ∷ get ∷ get ∷ get ∷ []

-- A third segment comes only when the first one is used up.
run-history :
    run two_segments history
    ≡ some (
        put_done true
        ∷ put_done true
        ∷ put_done true
        ∷ got (some 1) true
        ∷ put_done true
        ∷ put_done false
        ∷ got (some 2) true
        ∷ got (some 3) true
        ∷ got (some 4) true
        ∷ got none false
        ∷ [])
unfolding run new_segmented_queue Segmented.enqueue Segmented.enqueue_round Ring.enqueue new_ring
    Ring.dif sub64 to_int64 ◌-ℤ◌ Segmented.dequeue Ring.dequeue
run-history = refl

segmented-IsFifo_example :
    (replies : List (Reply ℕ)) × (run (new_segmented_queue 2 2) history ≡ some replies)
    × IsFifo (round_up 2) (if 2 == 0 then 1 else 2) [] history replies
segmented-IsFifo_example = segmented-IsFifo ℕ 2 2 history (omega arith) (omega arith)
