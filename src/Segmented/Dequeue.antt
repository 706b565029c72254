-- ===== src/Segmented/Dequeue.antt =====
-- `Dequeue` of mailbox/segmented.go on a queue that holds given items.
use deqin_actor.Base.{
  ℕ, zero, suc, ◌<◌, ◌≡◌, refl, sym, ap, ◌∙◌, arith, Bool, true, false, Option, none, some, List,
  [], ◌∷◌, length,
}
use mathlib.Core.Path.{subst}
use deqin_actor.Ring
use deqin_actor.Ring.{Ring}
use deqin_actor.Ring.Dequeue.{oldest, rest, dequeue_refines}
use deqin_actor.Segmented.{SegmentedQueue, put_ring, next_segment, on_empty, on_dequeue, dequeue}
use deqin_actor.Segmented.Rep.{HoldsPart, Rep, contents}
use deqin_actor.Segmented.Chains.{Chain-first}

-- What a call of `Dequeue` comes to: it takes the oldest item, or there is none.
pub record Dequeued {ℓ} {A : Type ℓ} (bits : ℕ) (items : List A) (q : SegmentedQueue A)
    (out : Option (SegmentedQueue A × Option A × Bool)) : Type ℓ where
  pub first : List A
  pub others : List (List A)
  pub after : SegmentedQueue A
  pub replied : out ≡ some (after, (oldest items).0, (oldest items).1)
  pub rep : Rep bits first others after
  pub kept : contents first others ≡ rest items
  pub same_limit : after.max_seg ≡ q.max_seg

module _ {ℓ} {A : Type ℓ} where
  head_part :
      (bits : ℕ) (p : List A) (ps : List (List A)) (q : SegmentedQueue A)
      → Rep bits p ps q
      → HoldsPart bits p (q.store q.head).q
  head_part bits p [] q h = h.chain.0
  head_part bits p (p' ∷ ps) q h = h.chain.0

  put_first-Rep :
      (bits : ℕ) (p p₂ : List A) (ps : List (List A)) (q : SegmentedQueue A) (r : Ring A)
      → Rep bits p ps q
      → HoldsPart bits p₂ r
      → Rep bits p₂ ps (put_ring q q.head r)
  put_first-Rep bits p p₂ ps q r h part = record {
    chain = Chain-first bits q.store q.head p p₂ ps r part h.chain;
    tail_at = h.tail_at;
    fresh = h.fresh;
    sized = h.sized;
    counted = h.counted;
    limit = h.limit;
    word = h.word;
  }

  -- One call, by what the ring of the head segment answers.
  module _ (calls : ℕ) (q : SegmentedQueue A) (r : Ring A) (v : Option A) where
    dequeue_found :
        Ring.dequeue (q.store q.head).q ≡ some (r, v, true)
        → dequeue (suc calls) q ≡ some (put_ring q q.head r, v, true)
    unfolding dequeue
    dequeue_found e = ap (on_dequeue (dequeue calls) q) e

    dequeue_last :
        Ring.dequeue (q.store q.head).q ≡ some (r, v, false)
        → (q.store q.head).next ≡ none
        → dequeue (suc calls) q ≡ some (put_ring q q.head r, none, false)
    unfolding dequeue
    dequeue_last e n =
        ap (on_dequeue (dequeue calls) q) e ∙ ap (on_empty (dequeue calls) (put_ring q q.head r)) n

    dequeue_moves_on :
        (a : ℕ)
        → Ring.dequeue (q.store q.head).q ≡ some (r, v, false)
        → (q.store q.head).next ≡ some a
        → dequeue (suc calls) q ≡ dequeue calls (next_segment (put_ring q q.head r) a)
    unfolding dequeue
    dequeue_moves_on a e n =
        ap (on_dequeue (dequeue calls) q) e ∙ ap (on_empty (dequeue calls) (put_ring q q.head r)) n

  next_segment-Rep :
      (bits : ℕ) (p' : List A) (ps : List (List A)) (q : SegmentedQueue A)
      → Rep bits [] (p' ∷ ps) q
      → Rep bits p' ps (next_segment q (suc q.head))
  next_segment-Rep bits p' ps q h = record {
    chain = h.chain.2;
    tail_at = omega (arith, h.tail_at);
    fresh = h.fresh;
    sized = h.sized;
    counted = omega (arith, h.counted, h.limit, h.word);
    limit = omega (arith, h.counted, h.limit, h.word);
    word = h.word;
  }

  contents-cons :
      (x : A) (p : List A) (ps : List (List A)) → contents (x ∷ p) ps ≡ x ∷ contents p ps
  contents-cons x p [] = refl
  contents-cons x p (p' ∷ ps) = refl

  -- The head segment has an item.
  dequeue_here :
      (bits calls : ℕ) (x : A) (p : List A) (ps : List (List A)) (q : SegmentedQueue A)
      → Rep bits (x ∷ p) ps q
      → Dequeued bits (x ∷ contents p ps) q (dequeue (suc calls) q)
  dequeue_here bits calls x p ps q h =
      let (base, holds) = head_part bits (x ∷ p) ps q h in
      let (r, base', e, holds') = dequeue_refines (x ∷ p) h.sized.small holds in
      record {
        first = p;
        others = ps;
        after = put_ring q q.head r;
        replied = dequeue_found calls q r (some x) e;
        rep = put_first-Rep bits (x ∷ p) p ps q r h (base', holds');
        kept = refl;
        same_limit = refl;
      }

  -- Whatever the number of segments, the recursion of `Dequeue` ends: a segment is passed over at
  -- each call. It takes the oldest item, and fails exactly when there is none.
  pub dequeue-Dequeued :
      (bits calls : ℕ) (p : List A) (ps : List (List A)) (q : SegmentedQueue A)
      → Rep bits p ps q
      → length ps < calls
      → Dequeued bits (contents p ps) q (dequeue calls q)
  dequeue-Dequeued bits zero p ps q h enough = absurd (omega arith)
  dequeue-Dequeued bits (suc calls) (x ∷ p) ps q h enough =
      subst (λ items. Dequeued bits items q (dequeue (suc calls) q)) (sym (contents-cons x p ps))
        (dequeue_here bits calls x p ps q h)
  dequeue-Dequeued bits (suc calls) [] [] q h enough =
      let (base, holds) = head_part bits [] [] q h in
      let (r, base', e, holds') = dequeue_refines [] h.sized.small holds in
      record {
        first = [];
        others = [];
        after = put_ring q q.head r;
        replied = dequeue_last calls q r none e h.chain.1;
        rep = put_first-Rep bits [] [] [] q r h (base', holds');
        kept = refl;
        same_limit = refl;
      }
  dequeue-Dequeued bits (suc calls) [] (p' ∷ ps) q h enough =
      let (base, holds) = head_part bits [] (p' ∷ ps) q h in
      let (r, base', e, holds') = dequeue_refines [] h.sized.small holds in
      let rep : Rep bits [] (p' ∷ ps) (put_ring q q.head r) =
        put_first-Rep bits [] [] (p' ∷ ps) q r h (base', holds') in
      let d : Dequeued bits (contents p' ps) (next_segment (put_ring q q.head r) (suc q.head))
          (dequeue calls (next_segment (put_ring q q.head r) (suc q.head))) =
        dequeue-Dequeued bits calls p' ps (next_segment (put_ring q q.head r) (suc q.head))
          (next_segment-Rep bits p' ps (put_ring q q.head r) rep) (omega arith) in
      record {
        first = d.first;
        others = d.others;
        after = d.after;
        replied = dequeue_moves_on calls q r none (suc q.head) e h.chain.1 ∙ d.replied;
        rep = d.rep;
        kept = d.kept;
        same_limit = d.same_limit;
      }
