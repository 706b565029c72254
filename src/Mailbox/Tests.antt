-- ===== src/Mailbox/Tests.antt =====
-- Runs of mailbox/mailbox.go.
use deqin_actor.Base.{ℕ, ◌^◌, ◌≡◌, refl, arith, Bool, false, Option, none, some, List, [], ◌∷◌}
use deqin_actor.Base.Int.{sub64, add64, to_int64, ◌-ℤ◌, ◌+ℤ◌}
use deqin_actor.Ring
use deqin_actor.Ring.{new_ring, double_until, init_cells, round_up}
use deqin_actor.Ring.Refine.{Sized}
use deqin_actor.Segmented
use deqin_actor.Segmented.{new_segmented_queue}
use deqin_actor.Mailbox.{
  Envelope, Mailbox, Options, new_mailbox, or_default, offer, push, mailbox_closed,
}
use deqin_actor.Mailbox.Order.{Sizes, Mail}
use deqin_actor.Mailbox.Start.{new_mailbox-Mail}
use deqin_actor.Mailbox.Blocking.{closed_after, blocked_until_closed, offer-Mail}
use deqin_actor.Mailbox.Spec.{MailOp, pushes, pops, measures, closes, MailReply, IsMail}
use deqin_actor.Mailbox.History.{run, mailbox_delivers}

abbrev letter : ℕ → ℕ → Envelope ℕ ℕ
letter priority payload = record {
  priority = priority;
  payload = payload;
  data_of = 0;
  persist = false;
}

abbrev small : Options ℕ
small = record {
  capacity = 2;
  urgent_capacity = 2;
  max_segments = 1;
  policy = 0;
  has_persist = false;
  encode = none;
}

abbrev history : List (MailOp ℕ ℕ)
history =
    pushes (letter 0 10)
    ∷ pushes (letter 0 11)
    ∷ pushes (letter 0 12)
    ∷ pushes (letter 1 20)
    ∷ measures
    ∷ pops
    ∷ pops
    ∷ closes
    ∷ pushes (letter 0 13)
    ∷ pops
    ∷ pops
    ∷ []

mailbox_delivers_example :
    (sizes : Sizes) × (round_up (or_default 2 1024) ≡ 2 ^ sizes.urgent_bits)
    × (round_up (or_default 2 65536) ≡ 2 ^ sizes.normal_bits)
    × (sizes.limit ≡ or_default 1 8)
    × (rs : List (MailReply ℕ ℕ)) × (run (new_mailbox small) history ≡ some rs)
    × IsMail sizes (new_mailbox {M = ℕ} small).policy [] [] history rs false
mailbox_delivers_example =
    mailbox_delivers ℕ ℕ small history (omega arith) (omega arith) (omega arith) (omega arith)

-- A mailbox of one segment of two cells, which blocks, and two letters that fill it.
abbrev tight : Options ℕ
tight = record {
  capacity = 2;
  urgent_capacity = 2;
  max_segments = 1;
  policy = 1;
  has_persist = false;
  encode = none;
}

abbrev tight_sizes : Sizes
tight_sizes = record { urgent_bits = 1; normal_bits = 1; limit = 1 }

two-Sized : Sized 2 1
unfolding round_up double_until
two-Sized = record { size = refl; two_cells = omega arith; small = omega arith }

abbrev mailbox_of : Option (Mailbox ℕ ℕ × Bool) → Mailbox ℕ ℕ
mailbox_of none = new_mailbox tight
mailbox_of (some (m, accepted)) = m

abbrev one_letter : Mailbox ℕ ℕ
one_letter = mailbox_of (offer (new_mailbox tight) (letter 0 1))

abbrev two_letters : Mailbox ℕ ℕ
two_letters = mailbox_of (offer one_letter (letter 0 2))

two_letters-Mail : Mail tight_sizes [] (letter 0 1 ∷ letter 0 2 ∷ []) two_letters
unfolding offer new_mailbox Segmented.enqueue Segmented.enqueue_round new_segmented_queue
    Ring.enqueue new_ring Ring.dif double_until init_cells round_up sub64 add64 to_int64 ◌-ℤ◌ ◌+ℤ◌
two_letters-Mail =
    offer-Mail tight_sizes [] (letter 0 1 ∷ []) one_letter two_letters (letter 0 2)
      (offer-Mail tight_sizes [] [] (new_mailbox tight) one_letter (letter 0 1)
        (new_mailbox-Mail tight 1 1 two-Sized two-Sized (omega arith)) refl)
      refl

blocked_until_closed_example :
    (m : Mailbox ℕ ℕ) × ((push (closed_after 3) two_letters (letter 0 3)).0
      ≡ some (m, mailbox_closed))
    × Mail tight_sizes [] (letter 0 1 ∷ letter 0 2 ∷ []) m
unfolding offer new_mailbox Segmented.enqueue Segmented.enqueue_round new_segmented_queue
    Ring.enqueue new_ring Ring.dif double_until init_cells round_up sub64 add64 to_int64 ◌-ℤ◌ ◌+ℤ◌
blocked_until_closed_example =
    blocked_until_closed 3 tight_sizes [] (letter 0 1 ∷ letter 0 2 ∷ []) two_letters (letter 0 3)
      two_letters-Mail refl refl (omega arith)
