-- ===== src/BaseActor/Tests.antt =====
-- Runs of the loop of actor/base_actor.go.
use deqin_actor.Base.{ℕ, ◌≡◌, refl, arith, true, false, Option, none, some, List, [], ◌∷◌}
use deqin_actor.Base.Int.{sub64, add64, to_int64, ◌-ℤ◌, ◌+ℤ◌}
use deqin_actor.Ring
use deqin_actor.Ring.{new_ring, double_until, init_cells, round_up}
use deqin_actor.Segmented
use deqin_actor.Segmented.{new_segmented_queue}
use deqin_actor.Mailbox.{
  Envelope, Mailbox, Options, new_mailbox, pop, push, offer, persisted, push_block, wait, close,
}
use deqin_actor.BaseActor.{Running, loop_step}
use deqin_actor.BaseActor.Events.{Event, arrives, turns, run}
use deqin_actor.BaseActor.Wakeup.{start, two_turns, no_lost_wakeup}

abbrev letter : ℕ → Envelope ℕ ℕ
letter payload = record { priority = 0; payload = payload; data_of = 0; persist = false }

abbrev small : Options ℕ
small = record {
  capacity = 2;
  urgent_capacity = 2;
  max_segments = 1;
  policy = 0;
  has_persist = false;
  encode = none;
}

-- The letter comes after the loop has found the mailbox empty.
abbrev events : List (Event ℕ ℕ)
events = turns true ∷ arrives (letter 7) ∷ []

abbrev state_of : Option (Running ℕ ℕ) → Running ℕ ℕ
state_of none = start (new_mailbox small)
state_of (some r) = r

abbrev popped_of : Option (Mailbox ℕ ℕ × Option (Envelope ℕ ℕ)) → Mailbox ℕ ℕ
popped_of none = new_mailbox small
popped_of (some (m, e)) = m

abbrev after_events : Running ℕ ℕ
after_events = state_of (run (start (new_mailbox small)) events)

no_lost_wakeup_example : two_turns true after_events ≡ some (letter 7 ∷ [])
unfolding run loop_step pop new_mailbox push offer persisted push_block wait close Segmented.dequeue
    Segmented.enqueue Segmented.enqueue_round new_segmented_queue Ring.dequeue Ring.enqueue new_ring
    Ring.dif double_until init_cells round_up sub64 add64 to_int64 ◌-ℤ◌ ◌+ℤ◌
no_lost_wakeup_example =
    no_lost_wakeup ℕ ℕ small events after_events (popped_of (pop after_events.mailbox)) (letter 7)
      true (omega arith) (omega arith) (omega arith) (omega arith) refl refl refl refl
