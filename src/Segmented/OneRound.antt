-- ===== src/Segmented/OneRound.antt =====
-- One round of the loop of `Enqueue` of mailbox/segmented.go.
use deqin_actor.Base.{
  ℕ, ◌+◌, ◌^◌, ◌≤◌, ◌<◌, ◌≡◌, refl, ap, ◌∙◌, arith, le→leb, lt→leb, true, false, none, some, List,
  [], ◌∷◌, ◌++◌, length, length-append, ℕ_discrete,
}
use mathlib.Core.Path.{subst}
use deqin_actor.Ring
use deqin_actor.Ring.{Ring, new_ring}
use deqin_actor.Ring.Enqueue.{with_tail, enqueue_free, enqueue_full, with_tail-Holds}
use deqin_actor.Ring.Refine.{new_ring-Holds}
use deqin_actor.Segmented.{
  SegmentedQueue, put_ring, returns, again, link_segment, grow_at, after_enqueue, enqueue_round,
}
use deqin_actor.Segmented.Rep.{
  HoldsPart, Chain-last, Chain-frame, Rep, last_part, push_first, push_rest, length-push_rest,
  update-ne, update_self,
}
use deqin_actor.Segmented.Chains.{Chain-push, Chain-link}

module _ {ℓ} {A : Type ℓ} {bits : ℕ} {p : List A} {ps : List (List A)} {q : SegmentedQueue A}
    (h : Rep bits p ps q) (v : A) where
  tail_ring : Ring A
  tail_ring = (q.store q.tail).q

  tail_part : HoldsPart bits (last_part p ps) (q.store q.tail).q
  tail_part = (Chain-last bits q.store q.head q.tail p ps h.tail_at h.chain).0

  tail_next : (q.store q.tail).next ≡ none
  tail_next = (Chain-last bits q.store q.head q.tail p ps h.tail_at h.chain).1

  -- What the ring of the tail answers.
  ring_room :
      length (last_part p ps) < 2 ^ bits
      → (r : Ring A) × (Ring.enqueue (q.store q.tail).q v ≡ some (r, true))
        × HoldsPart bits (last_part p ps ++ v ∷ []) r
  ring_room room =
      let (base, holds) = tail_part in
      (
        with_tail h.sized.small holds v,
        enqueue_free h.sized.small holds v room,
        (base, with_tail-Holds h.sized.small holds v room),
      )

  ring_full :
      2 ^ bits ≤ length (last_part p ps)
      → Ring.enqueue (q.store q.tail).q v ≡ some ((q.store q.tail).q, false)
  ring_full full =
      let (base, holds) = tail_part in
      enqueue_full h.sized.small holds v h.sized.two_cells (omega (arith, holds.fits))

  -- The queue with another ring for its tail.
  put_ring-Rep :
      (r : Ring A)
      → HoldsPart bits (last_part p ps ++ v ∷ []) r
      → Rep bits (push_first p ps v) (push_rest p ps v) (put_ring q q.tail r)
  put_ring-Rep r part = record {
    chain = Chain-push bits q.store q.head q.tail p ps v r h.tail_at part h.chain;
    tail_at = omega (arith, h.tail_at, length-push_rest p ps v);
    fresh = h.fresh;
    sized = h.sized;
    counted = omega (arith, h.counted, length-push_rest p ps v);
    limit = h.limit;
    word = h.word;
  }

  -- A ring that refuses is left as it is.
  pub same_store : (b : ℕ) → (put_ring q q.tail (q.store q.tail).q).store b ≡ q.store b
  same_store b = elim (ℕ_discrete q.tail b) [
    | yes e ↦
        subst (λ c. (put_ring q q.tail (q.store q.tail).q).store c ≡ q.store c) e
          (update_self q.store q.tail _)
    | no other ↦ update-ne q.store q.tail b _ other
  ]

  -- The queue with a new segment.
  abbrev pub grown : SegmentedQueue A
  grown = link_segment (put_ring q q.tail (q.store q.tail).q)

  pub grown-Rep : length ps + 1 < q.max_seg → Rep bits p (ps ++ [] ∷ []) grown
  grown-Rep few = record {
    chain =
        Chain-link bits _ q.head q.tail q.allocated p ps (new_ring q.seg_cap) h.tail_at h.fresh
          (0, new_ring-Holds q.seg_cap bits h.sized)
          (Chain-frame bits q.store _ q.head p ps (λ b _ _. same_store b) h.chain);
    tail_at = omega (arith, h.tail_at, h.fresh, length-append ps ([] ∷ []));
    fresh = omega (arith, h.fresh);
    sized = h.sized;
    counted = omega (arith, h.counted, h.word, length-append ps ([] ∷ []));
    limit = omega (arith, h.counted, h.word);
    word = h.word;
  }

  still_last : ((put_ring q q.tail (q.store q.tail).q).store q.tail).next ≡ none
  still_last = ap (λ s. s.next) (same_store q.tail) ∙ tail_next

  -- One round of the loop.
  pub round_room :
      length (last_part p ps) < 2 ^ bits
      → (r : Ring A) × (enqueue_round q v ≡ some (returns (put_ring q q.tail r) true))
        × Rep bits (push_first p ps v) (push_rest p ps v) (put_ring q q.tail r)
  unfolding enqueue_round
  round_room room =
      let (r, e, part) = ring_room room in (r, ap (after_enqueue q) e, put_ring-Rep r part)

  pub round_full :
      2 ^ bits ≤ length (last_part p ps)
      → q.max_seg ≤ length ps + 1
      → enqueue_round q v ≡ some (returns (put_ring q q.tail (q.store q.tail).q) false)
  unfolding enqueue_round
  round_full full many =
      ap (after_enqueue q) (ring_full full)
      ∙ ap some (rw (le→leb q.max_seg q.segs (omega (arith, h.counted))) refl)

  pub round_grows :
      2 ^ bits ≤ length (last_part p ps)
      → length ps + 1 < q.max_seg
      → enqueue_round q v ≡ some (again grown)
  unfolding enqueue_round
  round_grows full few =
      ap (after_enqueue q) (ring_full full)
      ∙ ap some (
          rw (lt→leb q.max_seg q.segs (omega (arith, h.counted)))
            (ap (λ n. grow_at n (put_ring q q.tail (q.store q.tail).q)) still_last))
