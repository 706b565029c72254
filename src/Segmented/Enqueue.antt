-- ===== src/Segmented/Enqueue.antt =====
-- `Enqueue` of mailbox/segmented.go on a queue that holds given items.
use deqin_actor.Base.{
  ℕ, suc, ◌+◌, ◌^◌, ◌≤◌, ◌<◌, ◌≡◌, refl, ap, ◌∙◌, arith, if◌then◌else◌, ltb, lt→ltb, le→ltb, Bool,
  true, false, ◌||◌, Option, some, List, [], ◌∷◌, ◌++◌, length, dec_lt,
}
use deqin_actor.Segmented.{SegmentedQueue, put_ring, returns, again, enqueue_round, enqueue}
use deqin_actor.Segmented.Rep.{
  Chain-frame, Rep, contents, last_part, push_first, push_rest, contents-push, contents-link,
  last_part-link,
}
use deqin_actor.Base.Bits.{two-pow_pos}
use deqin_actor.Segmented.OneRound.{
  same_store, grown, grown-Rep, round_room, round_full, round_grows,
}

-- `Enqueue` says yes if the last segment has a free cell or there may be one more segment.
abbrev pub has_room {ℓ} : {A : Type ℓ} → ℕ → ℕ → List A → List (List A) → Bool
has_room bits max_seg p ps = ltb (length (last_part p ps)) (2 ^ bits) || ltb (length ps + 1) max_seg

-- What a call of `Enqueue` comes to.
pub record Enqueued {ℓ} {A : Type ℓ} (bits : ℕ) (p : List A) (ps : List (List A))
    (q : SegmentedQueue A) (v : A) (room : Bool) (out : Option (SegmentedQueue A × Bool))
    : Type ℓ where
  pub first : List A
  pub others : List (List A)
  pub after : SegmentedQueue A
  pub replied : out ≡ some (after, room)
  pub rep : Rep bits first others after
  pub kept : contents first others ≡ (if room then contents p ps ++ v ∷ [] else contents p ps)
  pub same_limit : after.max_seg ≡ q.max_seg

module _ {ℓ} {A : Type ℓ} where
  enqueue_returns :
      (rounds : ℕ) (q q' : SegmentedQueue A) (v : A) (done : Bool)
      → enqueue_round q v ≡ some (returns q' done)
      → enqueue (suc rounds) q v ≡ some (q', done)
  unfolding enqueue
  enqueue_returns rounds q q' v done e = rw (e, enqueue)

  enqueue_again :
      (rounds : ℕ) (q q' : SegmentedQueue A) (v : A)
      → enqueue_round q v ≡ some (again q')
      → enqueue (suc rounds) q v ≡ enqueue rounds q' v
  unfolding enqueue
  enqueue_again rounds q q' v e = rw (e, enqueue)

  put_same-Rep :
      (bits : ℕ) (p : List A) (ps : List (List A)) (q : SegmentedQueue A) (v : A)
      → Rep bits p ps q
      → Rep bits p ps (put_ring q q.tail (q.store q.tail).q)
  put_same-Rep bits p ps q v h = record {
    chain = Chain-frame bits q.store _ q.head p ps (λ b _ _. same_store h v b) h.chain;
    tail_at = h.tail_at;
    fresh = h.fresh;
    sized = h.sized;
    counted = h.counted;
    limit = h.limit;
    word = h.word;
  }

  -- The last segment has a free cell.
  enqueue_at_once :
      (bits rounds : ℕ) (p : List A) (ps : List (List A)) (q : SegmentedQueue A) (v : A)
      → Rep bits p ps q
      → length (last_part p ps) < 2 ^ bits
      → Enqueued bits p ps q v true (enqueue (suc rounds) q v)
  enqueue_at_once bits rounds p ps q v h room =
      let (r, e, rep) = round_room h v room in
      record {
        first = push_first p ps v;
        others = push_rest p ps v;
        after = put_ring q q.tail r;
        replied = enqueue_returns rounds q (put_ring q q.tail r) v true e;
        rep = rep;
        kept = contents-push p ps v;
        same_limit = refl;
      }

  -- The last segment is full, and there may be one more.
  enqueue_grows :
      (bits rounds : ℕ) (p : List A) (ps : List (List A)) (q : SegmentedQueue A) (v : A)
      → Rep bits p ps q
      → 2 ^ bits ≤ length (last_part p ps)
      → length ps + 1 < q.max_seg
      → Enqueued bits p ps q v true (enqueue (suc (suc rounds)) q v)
  enqueue_grows bits rounds p ps q v h full few = record {
    first = e.first;
    others = e.others;
    after = e.after;
    replied = enqueue_again (suc rounds) q (grown h v) v (round_grows h v full few) ∙ e.replied;
    rep = e.rep;
    kept = e.kept ∙ ap (λ t. t ++ v ∷ []) (contents-link p ps);
    same_limit = e.same_limit;
  }
    where
      e : Enqueued bits p (ps ++ [] ∷ []) (grown h v) v true (enqueue (suc rounds) (grown h v) v)
      e =
          enqueue_at_once bits rounds p (ps ++ [] ∷ []) (grown h v) v (grown-Rep h v few)
            (rw (last_part-link p ps) (two-pow_pos bits))

  -- A call of `Enqueue` returns within two rounds of its loop: it appends the value to the items, if
  -- there is room for it, and otherwise leaves them.
  pub enqueue-Enqueued :
      (bits rounds : ℕ) (p : List A) (ps : List (List A)) (q : SegmentedQueue A) (v : A)
      → Rep bits p ps q
      → Enqueued bits p ps q v (has_room bits q.max_seg p ps) (enqueue (suc (suc rounds)) q v)
  enqueue-Enqueued bits rounds p ps q v h = elim (dec_lt (length (last_part p ps)) (2 ^ bits)) [
    | yes room ↦ rw (lt→ltb _ _ room) (enqueue_at_once bits (suc rounds) p ps q v h room)
    | no full ↦ elim (dec_lt (length ps + 1) q.max_seg) [
      | yes few ↦
          let full' : 2 ^ bits ≤ length (last_part p ps) = omega arith in
          rw (le→ltb _ _ full', lt→ltb _ _ few) (enqueue_grows bits rounds p ps q v h full' few)
      | no many ↦
          let full' : 2 ^ bits ≤ length (last_part p ps) = omega arith in
          let many' : q.max_seg ≤ length ps + 1 = omega arith in
          rw (le→ltb _ _ full', le→ltb _ _ many')
            (record {
              first = p;
              others = ps;
              after = put_ring q q.tail (q.store q.tail).q;
              replied = enqueue_returns (suc rounds) q _ v false (round_full h v full' many');
              rep = put_same-Rep bits p ps q v h;
              kept = refl;
              same_limit = refl;
            })
    ]
  ]
