-- ===== src/Segmented/Fifo.antt =====
-- A queue of mailbox/segmented.go is first-in first-out over any history of calls.
use deqin_actor.Base.{
  ℕ, suc, ◌+◌, ◌-◌, ◌*◌, ◌^◌, ◌≤◌, ◌<◌, ◌≡◌, refl, sym, ◌∙◌, arith, if◌then◌else◌, ◌==◌, Bool, true,
  false, Option, none, some, List, [], ◌∷◌, ◌++◌, length, length-append,
}
use mathlib.Core.Option
use mathlib.Core.Path.{subst}
use deqin_actor.Base.Int.{two63, two64}
use deqin_actor.Base.Bits.{two-pow_pos}
use deqin_actor.Ring.{round_up}
use deqin_actor.Ring.Dequeue.{oldest, rest}
use deqin_actor.Ring.Refine.{
  Sized, round_up-Sized, new_ring-Holds, Op, put, get, Reply, put_done, got,
}
use deqin_actor.Segmented.{SegmentedQueue, Segment, new_segmented_queue, enqueue, dequeue}
use deqin_actor.Segmented.Rep.{Chain, Rep, contents, last_part, length-last_part-le}
use deqin_actor.Segmented.Enqueue.{has_room, Enqueued, enqueue-Enqueued}
use deqin_actor.Segmented.Dequeue.{Dequeued, dequeue-Dequeued}

-- The replies to a history of calls on a first-in first-out queue of `items`: a value is accepted
-- only while there are fewer than `limit` times `size` items, and refused only while there are at
-- least `size`.
abbrev pub IsFifo : {A : Type 0} → ℕ → ℕ → List A → List (Op A) → List (Reply A) → Type 0
IsFifo size limit items [] [] = Unit {0}
IsFifo size limit items [] (r ∷ rs) = ⊥
IsFifo size limit items (o ∷ ops) [] = ⊥
IsFifo size limit items (put v ∷ ops) (put_done true ∷ rs) =
    (length items < limit * size) × IsFifo size limit (items ++ v ∷ []) ops rs
IsFifo size limit items (put v ∷ ops) (put_done false ∷ rs) =
    (size ≤ length items) × IsFifo size limit items ops rs
IsFifo size limit items (put v ∷ ops) (got w b ∷ rs) = ⊥
IsFifo size limit items (get ∷ ops) (put_done b ∷ rs) = ⊥
IsFifo size limit items (get ∷ ops) (got w b ∷ rs) =
    (w ≡ (oldest items).0) × (b ≡ (oldest items).1) × IsFifo size limit (rest items) ops rs

times-le : (c m n : ℕ) → m ≤ n → m * c ≤ n * c
times-le c m n h = grind arith

module _ {A : Type 0} where
  -- A history of calls with their replies. `Enqueue` gets two rounds, and `Dequeue` a call for each
  -- segment that there may be.
  unfoldable pub run : SegmentedQueue A → List (Op A) → Option (List (Reply A))
  run q [] = some []
  run q (put v ∷ ops) = elim (enqueue 2 q v) [
    | none ↦ none
    | some (q', done) ↦ Option.map (λ replies. put_done done ∷ replies) (run q' ops)
  ]
  run q (get ∷ ops) = elim (dequeue q.max_seg q) [
    | none ↦ none
    | some (q', item, found) ↦ Option.map (λ replies. got item found ∷ replies) (run q' ops)
  ]

  run-put :
      (q q' : SegmentedQueue A) (v : A) (ops : List (Op A)) (done : Bool) (rs : List (Reply A))
      → enqueue 2 q v ≡ some (q', done)
      → run q' ops ≡ some rs
      → run q (put v ∷ ops) ≡ some (put_done done ∷ rs)
  unfolding run
  run-put q q' v ops done rs e f = rw (e, run, f) refl

  run-get :
      (q q' : SegmentedQueue A) (w : Option A) (b : Bool) (ops : List (Op A)) (rs : List (Reply A))
      → dequeue q.max_seg q ≡ some (q', w, b)
      → run q' ops ≡ some rs
      → run q (get ∷ ops) ≡ some (got w b ∷ rs)
  unfolding run
  run-get q q' w b ops rs e f = rw (e, run, f) refl

  -- The items fit in the cells of the segments, with those left free in the last one.
  fits :
      (bits : ℕ) (store : ℕ → Segment A) (a : ℕ) (p : List A) (ps : List (List A))
      → Chain bits store a p ps
      → length (contents p ps) + (2 ^ bits - length (last_part p ps)) ≤ (length ps + 1) * 2 ^ bits
  fits bits store a p [] c = omega (arith, c.0.1.fits)
  fits bits store a p (p' ∷ ps) c =
      omega (arith, c.0.1.fits, length-append p (contents p' ps), fits bits store (suc a) p' ps c.2)

  pub refused-full :
      (bits : ℕ) (p : List A) (ps : List (List A)) (limit : ℕ)
      → has_room bits limit p ps ≡ false
      → 2 ^ bits ≤ length (last_part p ps)
  refused-full bits p ps limit e = ground arith

  pub accepted-room :
      (bits : ℕ) (p : List A) (ps : List (List A)) (q : SegmentedQueue A)
      → Rep bits p ps q
      → has_room bits q.max_seg p ps ≡ true
      → length (contents p ps) < q.max_seg * 2 ^ bits
  accepted-room bits p ps q h e = ground (
    arith,
    fits bits q.store q.head p ps h.chain,
    times-le (2 ^ bits) (length ps + 1) q.max_seg (omega (arith, h.counted, h.limit)),
    times-le (2 ^ bits) (length ps + 2) q.max_seg,
    two-pow_pos bits,
  )

  -- Every call of the history returns, with the replies of a first-in first-out queue.
  abbrev Answers : ℕ → ℕ → List A → SegmentedQueue A → List (Op A) → Type 0
  Answers bits limit items q ops =
      (replies : List (Reply A)) × (run q ops ≡ some replies)
      × IsFifo (2 ^ bits) limit items ops replies

  put_step :
      (bits limit : ℕ) (p : List A) (ps : List (List A)) (q : SegmentedQueue A) (v : A)
      (ops : List (Op A))
      → q.max_seg ≡ limit
      → Rep bits p ps q
      → ((p' : List A) (ps' : List (List A)) (q' : SegmentedQueue A)
          → q'.max_seg ≡ limit
          → Rep bits p' ps' q'
          → Answers bits limit (contents p' ps') q' ops)
      → (b : Bool) → has_room bits q.max_seg p ps ≡ b
      → Enqueued bits p ps q v b (enqueue 2 q v)
      → Answers bits limit (contents p ps) q (put v ∷ ops)
  put_step bits limit p ps q v ops m h ih true room e =
      let (rs, eq, f) = ih e.first e.others e.after (e.same_limit ∙ m) e.rep in
      (
        put_done true ∷ rs,
        run-put q e.after v ops true rs e.replied eq,
        (
          subst (λ l. length (contents p ps) < l * 2 ^ bits) m (accepted-room bits p ps q h room),
          subst (λ items. IsFifo (2 ^ bits) limit items ops rs) e.kept f,
        ),
      )
  put_step bits limit p ps q v ops m h ih false full e =
      let (rs, eq, f) = ih e.first e.others e.after (e.same_limit ∙ m) e.rep in
      (
        put_done false ∷ rs,
        run-put q e.after v ops false rs e.replied eq,
        (
          omega (arith, refused-full bits p ps q.max_seg full, length-last_part-le p ps),
          subst (λ items. IsFifo (2 ^ bits) limit items ops rs) e.kept f,
        ),
      )

  get_step :
      (bits limit : ℕ) (items : List A) (q : SegmentedQueue A) (ops : List (Op A))
      → q.max_seg ≡ limit
      → ((p' : List A) (ps' : List (List A)) (q' : SegmentedQueue A)
          → q'.max_seg ≡ limit
          → Rep bits p' ps' q'
          → Answers bits limit (contents p' ps') q' ops)
      → Dequeued bits items q (dequeue q.max_seg q)
      → Answers bits limit items q (get ∷ ops)
  get_step bits limit items q ops m ih d =
      let (rs, eq, f) = ih d.first d.others d.after (d.same_limit ∙ m) d.rep in
      (
        got (oldest items).0 (oldest items).1 ∷ rs,
        run-get q d.after (oldest items).0 (oldest items).1 ops rs d.replied eq,
        (refl, refl, subst (λ items'. IsFifo (2 ^ bits) limit items' ops rs) d.kept f),
      )

  -- From any queue that holds `contents p ps`.
  run-IsFifo :
      (bits limit : ℕ) (p : List A) (ps : List (List A)) (q : SegmentedQueue A) (ops : List (Op A))
      → q.max_seg ≡ limit
      → Rep bits p ps q
      → Answers bits limit (contents p ps) q ops
  unfolding run
  run-IsFifo bits limit p ps q [] m h = ([], refl, tt)
  run-IsFifo bits limit p ps q (put v ∷ ops) m h =
      put_step bits limit p ps q v ops m h
        (λ p' ps' q' m' h'. run-IsFifo bits limit p' ps' q' ops m' h')
        (has_room bits q.max_seg p ps) refl (enqueue-Enqueued bits 0 p ps q v h)
  run-IsFifo bits limit p ps q (get ∷ ops) m h =
      get_step bits limit (contents p ps) q ops m
        (λ p' ps' q' m' h'. run-IsFifo bits limit p' ps' q' ops m' h')
        (dequeue-Dequeued bits q.max_seg p ps q h (omega (arith, h.counted, h.limit)))

  pub new_segmented_queue-Rep :
      (bits segment_capacity max_segments : ℕ)
      → Sized segment_capacity bits
      → max_segments < two64
      → Rep {A = A} bits [] [] (new_segmented_queue segment_capacity max_segments)
  unfolding new_segmented_queue
  new_segmented_queue-Rep bits segment_capacity max_segments sized word = record {
    chain = ((0, new_ring-Holds segment_capacity bits sized), refl);
    tail_at = refl;
    fresh = refl;
    sized = sized;
    counted = refl;
    limit = ground arith;
    word = ground arith;
  }

-- A segmented queue of segments of at most 2^63 asked cells, with any word as its number of
-- segments, is first-in first-out over any history of calls: every `Dequeue` returns the oldest
-- item, and says there is none exactly when there is none; an `Enqueue` is refused only if there are
-- as many items as one segment has cells, and accepted only if there are fewer than all the
-- segments allowed have. Every call returns: `Enqueue` after at most two rounds of its loop.
pub segmented-IsFifo :
    (A : Type 0) (segment_capacity max_segments : ℕ) (ops : List (Op A))
    → segment_capacity ≤ two63
    → max_segments < two64
    → (replies : List (Reply A)) × (run (new_segmented_queue segment_capacity max_segments) ops
        ≡ some replies)
      × IsFifo
          (round_up segment_capacity)
          (if max_segments == 0 then 1 else max_segments)
          []
          ops
          replies
unfolding new_segmented_queue
segmented-IsFifo A segment_capacity max_segments ops small word =
    let (bits, sized) = round_up-Sized segment_capacity small in
    let q : SegmentedQueue A = new_segmented_queue segment_capacity max_segments in
    let (rs, eq, f) =
      run-IsFifo bits q.max_seg [] [] q ops refl
        (new_segmented_queue-Rep bits segment_capacity max_segments sized word) in
    (rs, eq, subst (λ n. IsFifo n q.max_seg [] ops rs) (sym sized.size) f)
