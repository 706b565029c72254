-- ===== src/Ring/Refine.antt =====
-- A ring of mailbox/ring.go behaves as a bounded first-in first-out queue.
use deqin_actor.Base.{
  ℕ, zero, suc, ◌+◌, ◌-◌, ◌%◌, ◌^◌, ◌≤◌, ◌<◌, ◌≡◌, refl, ap, ◌∙◌, arith, if◌then◌else◌, ltb, Bool,
  Option, none, some, List, [], ◌∷◌, ◌++◌, length,
}
use mathlib.Core.Option
use native.Mathlib.Nat.{mod-eq_of_lt}
use deqin_actor.Base.Bits.{two-pow-le}
use deqin_actor.Base.Int.{two63, two64}
use deqin_actor.Ring.{Ring, enqueue, dequeue, new_ring, round_up, at_least_two}
use deqin_actor.Ring.Capacity.{round_up_lem, length-init_cells, get_elem?-init_cells}
use deqin_actor.Ring.Rep.{Holds}
use deqin_actor.Ring.Enqueue.{enqueue_refines}
use deqin_actor.Ring.Dequeue.{oldest, rest, dequeue_refines}

-- The size of the buffer is 2^bits for some `bits` from 1 to 63.
pub record Sized (n bits : ℕ) : Type 0 where
  pub size : round_up n ≡ 2 ^ bits
  pub two_cells : 1 ≤ bits
  pub small : bits ≤ 63

one-le_of_pow : (k : ℕ) → 2 ≤ 2 ^ k → 1 ≤ k
one-le_of_pow zero h = absurd (omega arith)
one-le_of_pow (suc k) h = omega arith

at_least_two-ge : (n : ℕ) → 2 ≤ at_least_two n
at_least_two-ge n = ground arith

pub round_up-Sized : (n : ℕ) → n ≤ two63 → (bits : ℕ) × Sized n bits
round_up-Sized n h =
    let s = round_up_lem n h in
    (
      s.bits,
      record {
        size = s.power;
        two_cells = one-le_of_pow s.bits (omega (arith, s.power, s.enough, at_least_two-ge n));
        small = s.small;
      },
    )

pub new_ring-Holds {ℓ} :
    {A : Type ℓ} (n bits : ℕ) → Sized n bits → Holds {A = A} bits 0 [] (new_ring n)
unfolding new_ring
new_ring-Holds {A} n bits s = record {
  masks = ap (λ (t : ℕ). t - 1) s.size;
  cells = length-init_cells A (round_up n) 0 ∙ s.size;
  head_at = refl;
  tail_at = refl;
  fits = omega arith;
  full_cell = λ k hk. elim hk [ ];
  free_cell = λ k hk hb.
      rw
        (
          mod-eq_of_lt (start k hb),
          s.size,
          get_elem?-init_cells A (2 ^ bits) 0 (0 + k) (start k hb),
        )
        (ap (λ (t : ℕ). some (record { seq = t; val = none })) (wrapped k hb));
}
  where
    start : (k : ℕ) → k < 2 ^ bits → 0 + k < 2 ^ bits
    start k hb = omega arith

    wrapped : (k : ℕ) → k < 2 ^ bits → 0 + (0 + k) ≡ (0 + k) % two64
    wrapped k hb = omega (arith, two-pow-le bits s.small)

-- What a client asks of a ring, and what it is told.
pub data Op {ℓ} (A : Type ℓ) : Type ℓ where
  put : A → Op A
  get : Op A

pub data Reply {ℓ} (A : Type ℓ) : Type ℓ where
  put_done : Bool → Reply A
  got : Option A → Bool → Reply A

module _ {ℓ} {A : Type ℓ} where
  -- A history of calls, with what each returns; `none` if one of them does not return.
  unfoldable pub run : Ring A → List (Op A) → Option (List (Reply A))
  run r [] = some []
  run r (put v ∷ ops) = elim (enqueue r v) [
    | none ↦ none
    | some (r', done) ↦ Option.map (λ replies. put_done done ∷ replies) (run r' ops)
  ]
  run r (get ∷ ops) = elim (dequeue r) [
    | none ↦ none
    | some (r', item, found) ↦ Option.map (λ replies. got item found ∷ replies) (run r' ops)
  ]

  -- The same history on a queue of at most `size` items, the oldest first.
  unfoldable pub run_queue : ℕ → List A → List (Op A) → List (Reply A)
  run_queue size items [] = []
  run_queue size items (put v ∷ ops) =
      let room = ltb (length items) size in
      put_done room ∷ run_queue size (if room then items ++ v ∷ [] else items) ops
  run_queue size items (get ∷ ops) =
      got (oldest items).0 (oldest items).1 ∷ run_queue size (rest items) ops

  run-run_queue :
      (bits base : ℕ) (items : List A) (r : Ring A) (ops : List (Op A))
      → 1 ≤ bits
      → bits ≤ 63
      → Holds bits base items r
      → run r ops ≡ some (run_queue (2 ^ bits) items ops)
  unfolding run run_queue
  run-run_queue bits base items r [] two_cells small h = refl
  run-run_queue bits base items r (put v ∷ ops) two_cells small h =
      let (r', done, h') = enqueue_refines small h two_cells v in
      rw (done, run, run-run_queue bits base _ r' ops two_cells small h')
  run-run_queue bits base items r (get ∷ ops) two_cells small h =
      let (r', base', found, h') = dequeue_refines items small h in
      rw (found, run, run-run_queue bits base' _ r' ops two_cells small h')

-- A ring made by `NewRing(n)`, `n` up to 2^63: in any history of calls of `Enqueue` and `Dequeue`
-- every call returns, with the replies of a first-in first-out queue that is bounded by the size of
-- the buffer.
pub ring_refines_queue {ℓ} :
    (A : Type ℓ) (n : ℕ) (ops : List (Op A))
    → n ≤ two63
    → run (new_ring n) ops ≡ some (run_queue (round_up n) [] ops)
ring_refines_queue A n ops h =
    let (bits, s) = round_up-Sized n h in
    rw (s.size)
      (run-run_queue bits 0 [] (new_ring n) ops s.two_cells s.small (new_ring-Holds n bits s))
