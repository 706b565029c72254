-- ===== src/Mailbox/Start.antt =====
-- A new mailbox of mailbox/mailbox.go holds nothing.
use deqin_actor.Base.{ℕ, ◌<◌, refl, arith, []}
use deqin_actor.Base.Int.{to_int64, two64}
use deqin_actor.Ring.Refine.{Sized}
use deqin_actor.Segmented.{new_segmented_queue}
use deqin_actor.Segmented.Fifo.{new_segmented_queue-Rep}
use deqin_actor.Mailbox.{Options, new_mailbox, or_default}
use deqin_actor.Mailbox.Order.{Mail}

module _ {P M : Type 0} where
  pub new_mailbox-Mail :
      (opts : Options P) (ub nb : ℕ)
      → Sized (or_default opts.urgent_capacity 1024) ub
      → Sized (or_default opts.capacity 65536) nb
      → opts.max_segments < two64
      → Mail
          (record { urgent_bits = ub; normal_bits = nb; limit = (or_default opts.max_segments 8) })
          []
          []
          (new_mailbox {M = M} opts)
  unfolding new_mailbox new_segmented_queue to_int64
  new_mailbox-Mail opts ub nb us ns word = record {
    urgent_lane = record {
      first = [];
      others = [];
      rep =
          new_segmented_queue-Rep ub (or_default opts.urgent_capacity 1024)
            (or_default opts.max_segments 8) us (ground arith);
      same = refl;
      limit_is = ground arith;
    };
    normal_lane = record {
      first = [];
      others = [];
      rep =
          new_segmented_queue-Rep nb (or_default opts.capacity 65536)
            (or_default opts.max_segments 8) ns (ground arith);
      same = refl;
      limit_is = ground arith;
    };
    counted = refl;
  }
