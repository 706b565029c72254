-- ===== src/Mailbox/Lane.antt =====
-- A queue of mailbox/segmented.go as a list of its items, for the lanes of the mailbox.
use deqin_actor.Base.{
  ℕ, ◌*◌, ◌^◌, ◌≤◌, ◌<◌, ◌≡◌, refl, ap, ◌∙◌, arith, Bool, true, false, Option, some, List, [], ◌∷◌,
  ◌++◌, length,
}
use mathlib.Core.Path.{subst}
use deqin_actor.Ring.Dequeue.{oldest, rest}
use deqin_actor.Segmented.{SegmentedQueue, enqueue, dequeue}
use deqin_actor.Segmented.Rep.{Rep, contents, length-last_part-le}
use deqin_actor.Segmented.Enqueue.{has_room, Enqueued, enqueue-Enqueued}
use deqin_actor.Segmented.Dequeue.{Dequeued, dequeue-Dequeued}
use deqin_actor.Segmented.Fifo.{refused-full, accepted-room}

-- The queue holds `items`, in segments of 2 ^ `bits` cells, and has `limit` segments at most.
pub record Lane {A : Type 0} (bits limit : ℕ) (items : List A) (q : SegmentedQueue A) : Type 0 where
  pub first : List A
  pub others : List (List A)
  pub rep : Rep bits first others q
  pub same : contents first others ≡ items
  pub limit_is : q.max_seg ≡ limit

abbrev pub put_if {ℓ} : {A : Type ℓ} → Bool → List A → A → List A
put_if true xs v = xs ++ v ∷ []
put_if false xs v = xs

-- What a call of `Enqueue` comes to.
pub record LanePut {A : Type 0} (bits limit : ℕ) (items : List A) (v : A) (accepted : Bool)
    (out : Option (SegmentedQueue A × Bool)) : Type 0 where
  pub after : SegmentedQueue A
  pub replied : out ≡ some (after, accepted)
  pub lane : Lane bits limit (put_if accepted items v) after
  pub room : accepted ≡ true → length items < limit * 2 ^ bits
  pub full : accepted ≡ false → 2 ^ bits ≤ length items

-- What a call of `Dequeue` comes to.
pub record LaneGot {A : Type 0} (bits limit : ℕ) (items : List A)
    (out : Option (SegmentedQueue A × Option A × Bool)) : Type 0 where
  pub after : SegmentedQueue A
  pub replied : out ≡ some (after, (oldest items).0, (oldest items).1)
  pub lane : Lane bits limit (rest items) after

module _ {A : Type 0} (bits limit : ℕ) (items : List A) (q : SegmentedQueue A) where
  put_by_room :
      (v : A) (h : Lane bits limit items q) (b : Bool)
      → has_room bits q.max_seg h.first h.others ≡ b
      → Enqueued bits h.first h.others q v b (enqueue 2 q v)
      → LanePut bits limit items v b (enqueue 2 q v)
  put_by_room v h true r e = record {
    after = e.after;
    replied = e.replied;
    lane = record {
      first = e.first;
      others = e.others;
      rep = e.rep;
      same = e.kept ∙ ap (λ t. t ++ v ∷ []) h.same;
      limit_is = e.same_limit ∙ h.limit_is;
    };
    room = λ _.
        subst (λ t. length t < limit * 2 ^ bits) h.same
          (subst (λ l. length (contents h.first h.others) < l * 2 ^ bits) h.limit_is
            (accepted-room bits h.first h.others q h.rep r));
    full = λ f. absurd (ground arith);
  }
  put_by_room v h false r e = record {
    after = e.after;
    replied = e.replied;
    lane = record {
      first = e.first;
      others = e.others;
      rep = e.rep;
      same = e.kept ∙ h.same;
      limit_is = e.same_limit ∙ h.limit_is;
    };
    room = λ f. absurd (ground arith);
    full = λ _.
        subst (λ t. 2 ^ bits ≤ length t) h.same
          (omega (
            arith,
            refused-full bits h.first h.others q.max_seg r,
            length-last_part-le h.first h.others,
          ));
  }

  pub enqueue-LanePut :
      (v : A)
      → Lane bits limit items q
      → (accepted : Bool) × LanePut bits limit items v accepted (enqueue 2 q v)
  enqueue-LanePut v h =
      let b = has_room bits q.max_seg h.first h.others in
      (b, put_by_room v h b refl (enqueue-Enqueued bits 0 h.first h.others q v h.rep))

  pub dequeue-LaneGot : Lane bits limit items q → LaneGot bits limit items (dequeue q.max_seg q)
  dequeue-LaneGot h =
      subst (λ t. LaneGot bits limit t (dequeue q.max_seg q)) h.same
        (record {
          after = d.after;
          replied = d.replied;
          lane = record {
            first = d.first;
            others = d.others;
            rep = d.rep;
            same = d.kept;
            limit_is = d.same_limit ∙ h.limit_is;
          };
        })
    where
      d : Dequeued bits (contents h.first h.others) q (dequeue q.max_seg q)
      d =
          dequeue-Dequeued bits q.max_seg h.first h.others q h.rep
            (omega (arith, h.rep.counted, h.rep.limit))
