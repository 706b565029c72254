-- ===== src/Mailbox/Order.antt =====
-- One call of mailbox/mailbox.go on a mailbox that holds given envelopes.
use deqin_actor.Base.{
  ℕ, ◌+◌, ◌*◌, ◌^◌, ◌≤◌, ◌<◌, ◌≡◌, refl, ap, ◌∙◌, arith, Bool, true, false, not, ◌&&◌, ◌||◌, Option,
  none, some, List, [], ◌∷◌, ◌++◌, length, length-append,
}
use deqin_actor.Base.Int.{pos, negsuc, add64, to_int64, count_up, count_down}
use deqin_actor.Ring.Dequeue.{rest}
use deqin_actor.Segmented
use deqin_actor.Segmented.{SegmentedQueue}
use deqin_actor.Mailbox.{
  Envelope, Mailbox, offer, offered, is_urgent, lane, pop, from_urgent, from_normal,
}
use deqin_actor.Mailbox.Lane.{Lane, put_if, LanePut, enqueue-LanePut, dequeue-LaneGot}

-- The sizes of the two queues: 2 ^ `urgent_bits` and 2 ^ `normal_bits` cells in a segment, and
-- `limit` segments at most.
pub record Sizes : Type 0 where
  pub urgent_bits : ℕ
  pub normal_bits : ℕ
  pub limit : ℕ

abbrev pub bits_of : Bool → Sizes → ℕ
bits_of true z = z.urgent_bits
bits_of false z = z.normal_bits

module _ {P M : Type 0} where
  -- The mailbox holds the urgent envelopes `us` and the normal ones `ns`, and its counter says so.
  pub record Mail (z : Sizes) (us ns : List (Envelope P M)) (m : Mailbox P M) : Type 0 where
    pub urgent_lane : Lane z.urgent_bits z.limit us m.urgent
    pub normal_lane : Lane z.normal_bits z.limit ns m.normal
    pub counted : m.size ≡ to_int64 (pos (length us + length ns))

  abbrev pub lane_of : Bool → List (Envelope P M) → List (Envelope P M) → List (Envelope P M)
  lane_of true us ns = us
  lane_of false us ns = ns

  -- What `Push` comes to before the policy decides: the envelope is accepted or refused.
  pub record Offered (z : Sizes) (us ns : List (Envelope P M)) (m : Mailbox P M) (u : Bool)
      (env : Envelope P M) (accepted : Bool) (out : Option (Mailbox P M × Bool)) : Type 0 where
    pub after : Mailbox P M
    pub replied : out ≡ some (after, accepted)
    pub mail : Mail z (put_if (accepted && u) us env) (put_if (accepted && not u) ns env) after
    pub same_policy : after.policy ≡ m.policy
    pub same_closed : after.is_closed ≡ m.is_closed
    pub notified : after.notify ≡ (accepted || m.notify)
    pub room : accepted ≡ true → length (lane_of u us ns) < z.limit * 2 ^ bits_of u z
    pub full : accepted ≡ false → 2 ^ bits_of u z ≤ length (lane_of u us ns)

  length-put : (xs : List (Envelope P M)) (v : Envelope P M) → length (xs ++ v ∷ []) ≡ length xs + 1
  length-put xs v = omega (arith, length-append xs (v ∷ []))

  lane-Lane :
      (z : Sizes) (us ns : List (Envelope P M)) (m : Mailbox P M) (u : Bool)
      → Mail z us ns m
      → Lane (bits_of u z) z.limit (lane_of u us ns) (lane m u)
  lane-Lane z us ns m true h = h.urgent_lane
  lane-Lane z us ns m false h = h.normal_lane

  one_more :
      (m : Mailbox P M) (n n' : ℕ)
      → m.size ≡ to_int64 (pos n)
      → n + 1 ≡ n'
      → add64 m.size (pos 1) ≡ to_int64 (pos n')
  one_more m n n' h e = ap (λ s. add64 s (pos 1)) h ∙ count_up n ∙ ap (λ k. to_int64 (pos k)) e

  one_less :
      (m : Mailbox P M) (n n' : ℕ)
      → m.size ≡ to_int64 (pos n')
      → n' ≡ n + 1
      → add64 m.size (negsuc 0) ≡ to_int64 (pos n)
  one_less m n n' h e =
      ap (λ s. add64 s (negsuc 0)) (h ∙ ap (λ k. to_int64 (pos k)) e) ∙ count_down n

  offered-at :
      (z : Sizes) (us ns : List (Envelope P M)) (m : Mailbox P M) (env : Envelope P M)
      (u accepted : Bool)
      → Mail z us ns m
      → LanePut
          (bits_of u z)
          z.limit
          (lane_of u us ns)
          env
          accepted
          (Segmented.enqueue 2 (lane m u) env)
      → Offered z us ns m u env accepted (offered m u (Segmented.enqueue 2 (lane m u) env))
  offered-at z us ns m env true true h p = record {
    after = record m { urgent = p.after; size = add64 m.size (pos 1); notify = true };
    replied = ap (offered m true) p.replied;
    mail = record {
      urgent_lane = p.lane;
      normal_lane = h.normal_lane;
      counted = one_more m _ _ h.counted (omega (arith, length-put us env));
    };
    same_policy = refl;
    same_closed = refl;
    notified = refl;
    room = p.room;
    full = p.full;
  }
  offered-at z us ns m env false true h p = record {
    after = record m { normal = p.after; size = add64 m.size (pos 1); notify = true };
    replied = ap (offered m false) p.replied;
    mail = record {
      urgent_lane = h.urgent_lane;
      normal_lane = p.lane;
      counted = one_more m _ _ h.counted (omega (arith, length-put ns env));
    };
    same_policy = refl;
    same_closed = refl;
    notified = refl;
    room = p.room;
    full = p.full;
  }
  offered-at z us ns m env true false h p = record {
    after = record m { urgent = p.after };
    replied = ap (offered m true) p.replied;
    mail = record { urgent_lane = p.lane; normal_lane = h.normal_lane; counted = h.counted };
    same_policy = refl;
    same_closed = refl;
    notified = refl;
    room = p.room;
    full = p.full;
  }
  offered-at z us ns m env false false h p = record {
    after = record m { normal = p.after };
    replied = ap (offered m false) p.replied;
    mail = record { urgent_lane = h.urgent_lane; normal_lane = p.lane; counted = h.counted };
    same_policy = refl;
    same_closed = refl;
    notified = refl;
    room = p.room;
    full = p.full;
  }

  pub offer-Offered :
      (z : Sizes) (us ns : List (Envelope P M)) (m : Mailbox P M) (env : Envelope P M)
      → Mail z us ns m
      → (accepted : Bool) × Offered z us ns m (is_urgent env) env accepted (offer m env)
  unfolding offer
  offer-Offered z us ns m env h =
      let u = is_urgent env in
      let (accepted, p) =
        enqueue-LanePut (bits_of u z) z.limit (lane_of u us ns) (lane m u) env
          (lane-Lane z us ns m u h) in
      (accepted, offered-at z us ns m env u accepted h p)

  -- Urgent envelopes come first.
  abbrev pub next_mail : List (Envelope P M) → List (Envelope P M) → Option (Envelope P M)
  next_mail (e ∷ us) ns = some e
  next_mail [] (e ∷ ns) = some e
  next_mail [] [] = none

  abbrev pub normal_left : List (Envelope P M) → List (Envelope P M) → List (Envelope P M)
  normal_left (e ∷ us) ns = ns
  normal_left [] ns = rest ns

  -- What a call of `Pop` comes to.
  pub record Popped (z : Sizes) (us ns : List (Envelope P M)) (m : Mailbox P M)
      (out : Option (Mailbox P M × Option (Envelope P M))) : Type 0 where
    pub after : Mailbox P M
    pub replied : out ≡ some (after, next_mail us ns)
    pub mail : Mail z (rest us) (normal_left us ns) after
    pub same_policy : after.policy ≡ m.policy
    pub same_closed : after.is_closed ≡ m.is_closed
    pub same_notify : after.notify ≡ m.notify

  pub pop-Popped :
      (z : Sizes) (us ns : List (Envelope P M)) (m : Mailbox P M)
      → Mail z us ns m
      → Popped z us ns m (pop m)
  unfolding pop
  pop-Popped z (e ∷ us) ns m h =
      let g = dequeue-LaneGot z.urgent_bits z.limit (e ∷ us) m.urgent h.urgent_lane in
      record {
        after = record m { urgent = g.after; size = add64 m.size (negsuc 0) };
        replied = ap (from_urgent m) g.replied;
        mail = record {
          urgent_lane = g.lane;
          normal_lane = h.normal_lane;
          counted = one_less m _ _ h.counted (omega arith);
        };
        same_policy = refl;
        same_closed = refl;
        same_notify = refl;
      }
  pop-Popped z [] (e ∷ ns) m h =
      let g = dequeue-LaneGot z.urgent_bits z.limit [] m.urgent h.urgent_lane in
      let g' = dequeue-LaneGot z.normal_bits z.limit (e ∷ ns) m.normal h.normal_lane in
      record {
        after = record m { urgent = g.after; normal = g'.after; size = add64 m.size (negsuc 0) };
        replied =
            ap (from_urgent m) g.replied
            ∙ ap (from_normal (record m { urgent = g.after })) g'.replied;
        mail = record {
          urgent_lane = g.lane;
          normal_lane = g'.lane;
          counted = one_less m _ _ h.counted (omega arith);
        };
        same_policy = refl;
        same_closed = refl;
        same_notify = refl;
      }
  pop-Popped z [] [] m h =
      let g = dequeue-LaneGot z.urgent_bits z.limit [] m.urgent h.urgent_lane in
      let g' = dequeue-LaneGot z.normal_bits z.limit [] m.normal h.normal_lane in
      record {
        after = record m { urgent = g.after; normal = g'.after };
        replied =
            ap (from_urgent m) g.replied
            ∙ ap (from_normal (record m { urgent = g.after })) g'.replied;
        mail = record { urgent_lane = g.lane; normal_lane = g'.lane; counted = h.counted };
        same_policy = refl;
        same_closed = refl;
        same_notify = refl;
      }
