-- ===== src/Segmented.antt =====
-- mailbox/segmented.go: the queue of linked ring segments. Segments live at addresses of a store,
-- and `next`, `head` and `tail` are addresses. A call runs with no other goroutine in between.
mod Tests
pub mod Rep
mod Chains
mod OneRound
pub mod Enqueue
pub mod Dequeue
pub mod Fifo
use deqin_actor.Base.{
  ℕ, zero, suc, ◌+◌, ◌-◌, ◌*◌, ◌/◌, ◌%◌, ◌^◌, ◌≤◌, ◌<◌, min, max, ◌≡◌, ◌≢◌, ◌↔◌, ◌⊎◌, inl, inr,
  refl, sym, ap, ap₂, ◌∙◌, arith, tests, if◌then◌else◌, ltb, leb, ◌==◌, ltb→lt, lt→ltb, le→ltb,
  leb→le, ==_iff, Bool-cases, Option-cases, Bool, true, false, not, ◌&&◌, ◌||◌, Option, none, some,
  List, [], ◌∷◌, ◌++◌, map, append-nil, append_assoc, length, get_elem?, set, take, drop,
  length-append, length-set, get_elem?-set_self, get_elem?-set_ne, get_elem?-eq_some,
  get_elem?-append_left, get_elem?-append_end, dec_lt, dec_le, ℕ_discrete,
}
use deqin_actor.Base.Int.{two64}
use deqin_actor.Ring
use deqin_actor.Ring.{Ring, new_ring}

pub record Segment {ℓ} (A : Type ℓ) : Type ℓ where
  pub q : Ring A
  pub next : Option ℕ

-- `store a` is the segment at the address `a`, for `a` below `allocated`.
pub record SegmentedQueue {ℓ} (A : Type ℓ) : Type ℓ where
  pub store : ℕ → Segment A
  pub allocated : ℕ
  pub head : ℕ
  pub tail : ℕ
  pub seg_cap : ℕ
  pub segs : ℕ
  pub max_seg : ℕ

module _ {ℓ} {A : Type ℓ} where
  abbrev pub update : (ℕ → Segment A) → ℕ → Segment A → ℕ → Segment A
  update store a s b = if a == b then s else store b

  unfoldable pub new_segmented_queue : ℕ → ℕ → SegmentedQueue A
  new_segmented_queue segment_capacity max_segments = record {
    store = λ a. record { q = new_ring segment_capacity; next = none };
    allocated = 1;
    head = 0;
    tail = 0;
    seg_cap = segment_capacity;
    segs = 1;
    max_seg = if max_segments == 0 then 1 else max_segments;
  }

  -- `Capacity`, a product of `uint64`.
  unfoldable pub capacity : SegmentedQueue A → ℕ
  capacity q = q.seg_cap * q.max_seg % two64

  unfoldable len_segments : SegmentedQueue A → ℕ
  len_segments q = q.segs

  -- The segment at `a` with its ring as a call has left it.
  abbrev pub put_ring : SegmentedQueue A → ℕ → Ring A → SegmentedQueue A
  put_ring q a r = record q { store = update q.store a (record { q = r; next = (q.store a).next }) }

-- One round of the loop of `Enqueue` returns, or the loop goes on.
pub data Round {ℓ} (A : Type ℓ) : Type ℓ where
  returns : SegmentedQueue A → Bool → Round A
  again : SegmentedQueue A → Round A

module _ {ℓ} {A : Type ℓ} where
  -- A new segment at a fresh address, linked behind the tail.
  abbrev pub link_segment : SegmentedQueue A → SegmentedQueue A
  link_segment q = record q {
    store =
        update (update q.store q.tail (record { q = (q.store q.tail).q; next = some q.allocated }))
          q.allocated (record { q = new_ring q.seg_cap; next = none });
    allocated = q.allocated + 1;
    tail = q.allocated;
    segs = (q.segs + 1) % two64;
  }

  abbrev pub grow_at : Option ℕ → SegmentedQueue A → Round A
  grow_at none q = again (link_segment q)
  grow_at (some n) q = again (record q { tail = n })

  abbrev after_full : SegmentedQueue A → Round A
  after_full q = if leb q.max_seg q.segs then returns q false else grow_at (q.store q.tail).next q

  abbrev pub after_enqueue : SegmentedQueue A → Option (Ring A × Bool) → Option (Round A)
  after_enqueue q none = none
  after_enqueue q (some (r, true)) = some (returns (put_ring q q.tail r) true)
  after_enqueue q (some (r, false)) = some (after_full (put_ring q q.tail r))

  unfoldable pub enqueue_round : SegmentedQueue A → A → Option (Round A)
  enqueue_round q v = after_enqueue q (Ring.enqueue (q.store q.tail).q v)

  -- The loop, for at most so many rounds; `none` if it has not returned.
  unfoldable pub enqueue : ℕ → SegmentedQueue A → A → Option (SegmentedQueue A × Bool)
  enqueue zero q v = none
  enqueue (suc rounds) q v = elim (enqueue_round q v) [
    | none ↦ none
    | some (returns q' done) ↦ some (q', done)
    | some (again q') ↦ enqueue rounds q' v
  ]

  -- `Dequeue` moves on to the next segment when its own is empty.
  abbrev pub next_segment : SegmentedQueue A → ℕ → SegmentedQueue A
  next_segment q n = record q { head = n; segs = (q.segs + two64 - 1) % two64 }

  -- What `Dequeue` does with the answer of the head's ring; `call` is the recursive call.
  abbrev pub on_empty :
      (SegmentedQueue A → Option (SegmentedQueue A × Option A × Bool))
      → SegmentedQueue A
      → Option ℕ
      → Option (SegmentedQueue A × Option A × Bool)
  on_empty call q none = some (q, none, false)
  on_empty call q (some n) = call (next_segment q n)

  abbrev pub on_dequeue :
      (SegmentedQueue A → Option (SegmentedQueue A × Option A × Bool))
      → SegmentedQueue A
      → Option (Ring A × Option A × Bool)
      → Option (SegmentedQueue A × Option A × Bool)
  on_dequeue call q none = none
  on_dequeue call q (some (r, v, true)) = some (put_ring q q.head r, v, true)
  on_dequeue call q (some (r, v, false)) = on_empty call (put_ring q q.head r) (q.store q.head).next

  -- The recursion of `Dequeue`, for at most so many calls; `none` if it has not returned.
  unfoldable pub dequeue : ℕ → SegmentedQueue A → Option (SegmentedQueue A × Option A × Bool)
  dequeue zero q = none
  dequeue (suc calls) q = on_dequeue (dequeue calls) q (Ring.dequeue (q.store q.head).q)
