-- ===== src/Ring/Dequeue.antt =====
-- `Dequeue` of mailbox/ring.go on a ring that holds given items.
use deqin_actor.Base.{
  ℕ, suc, ◌+◌, ◌%◌, ◌^◌, ◌≤◌, ◌<◌, ◌≡◌, refl, sym, ap, ◌∙◌, arith, Bool, true, false, Option, none,
  some, List, [], ◌∷◌, length, get_elem?, set, length-set, dec_lt,
}
use Prim.Native.Nat.{bit_and}
use native.Mathlib.Nat.{add-mod_right}
use native.Mathlib.Nat.{add-mod_right}
use deqin_actor.Base.Int.{two64}
use deqin_actor.Base.Bits.{two-pow_pos}
use deqin_actor.Ring.{RingCell, Ring, swaps, gives_up, dequeue, dequeue-turn}
use deqin_actor.Ring.Rep.{Holds, index_lem, turn_even, turn_behind, get-set_here, get-set_above}

module _ {ℓ} {A : Type ℓ} {bits base : ℕ} {items : List A} {r : Ring A} (small : bits ≤ 63)
    (h : Holds bits base items r) where
  head_index : bit_and r.head r.mask ≡ (base + 0) % 2 ^ bits
  head_index =
      rw (h.head_at, h.masks)
        (index_lem bits base small ∙ ap (λ (t : ℕ). t % 2 ^ bits) (from_start base))
    where
      from_start : (n : ℕ) → n ≡ n + 0
      from_start n = omega arith

  next_head : (r.head + 1) % two64 ≡ (base + 0 + 1) % two64
  next_head = omega (arith, h.head_at)

  -- The ring after a successful `Dequeue`.
  abbrev with_head : Ring A
  with_head = record r {
    head = (r.head + 1) % two64;
    buf =
        set r.buf (bit_and r.head r.mask)
          (record { seq = (r.head + r.mask + 1) % two64; val = none });
  }

  dequeue-some : 0 < length items → dequeue r ≡ some (with_head, get_elem? items 0, true)
  dequeue-some some_item =
      dequeue-turn r _ swaps (ap (get_elem? r.buf) head_index ∙ h.full_cell 0 some_item)
        (rw next_head (turn_even (base + 0 + 1)))

  dequeue-none : length items ≡ 0 → dequeue r ≡ some (r, none, false)
  dequeue-none e =
      dequeue-turn r _ gives_up
        (ap (get_elem? r.buf) head_index ∙ h.free_cell 0 (omega arith) (two-pow_pos bits))
        (rw next_head (turn_behind (base + 0) 1 (omega arith) (omega arith)))

-- Taking the oldest item makes its cell free for the next round.
module _ {ℓ} {A : Type ℓ} {bits base : ℕ} {x : A} {items : List A} {r : Ring A} (small : bits ≤ 63)
    (h : Holds bits base (x ∷ items) r) where
  abbrev freed : RingCell A
  freed = record { seq = (r.head + r.mask + 1) % two64; val = none }

  moved : (n : ℕ) → base + 1 + n ≡ base + suc n
  moved n = omega arith

  kept_cell :
      (n : ℕ)
      → suc n < 2 ^ bits
      → get_elem? (with_head small h).buf ((base + 1 + n) % 2 ^ bits)
        ≡ get_elem? r.buf ((base + suc n) % 2 ^ bits)
  kept_cell n hn =
      rw (moved n, head_index small h)
        (get-set_above bits base r.buf h.cells freed 0 (suc n) (omega arith) hn)

  full_cells :
      (n : ℕ)
      → n < length items
      → get_elem? (with_head small h).buf ((base + 1 + n) % 2 ^ bits)
        ≡ some (record { seq = (base + 1 + n + 1) % two64; val = get_elem? items n })
  full_cells n hn =
      kept_cell n (omega (arith, h.fits)) ∙ h.full_cell (suc n) (omega arith) ∙ rw (moved n)

  at_end : (n : ℕ) → ¬ (suc n < 2 ^ bits) → n < 2 ^ bits → suc n ≡ 2 ^ bits
  at_end n last hb = omega arith

  round : (n : ℕ) → suc n ≡ 2 ^ bits → (base + 1 + n) % 2 ^ bits ≡ (base + 0) % 2 ^ bits
  round n e =
      ap (λ (t : ℕ). t % 2 ^ bits) (omega arith ∙ ap (λ (t : ℕ). base + t) e)
      ∙ add-mod_right base (2 ^ bits)
      ∙ ap (λ (t : ℕ). t % 2 ^ bits) (from_start base)
    where
      from_start : (n : ℕ) → n ≡ n + 0
      from_start n = omega arith

  next_round : (n : ℕ) → suc n ≡ 2 ^ bits → (r.head + r.mask + 1) % two64 ≡ (base + 1 + n) % two64
  next_round n e = omega (arith, h.head_at, h.masks)

  free_cells :
      (n : ℕ)
      → length items ≤ n
      → n < 2 ^ bits
      → get_elem? (with_head small h).buf ((base + 1 + n) % 2 ^ bits)
        ≡ some (record { seq = (base + 1 + n) % two64; val = none })
  free_cells n hn hb = elim (dec_lt (suc n) (2 ^ bits)) [
    | yes inside ↦ kept_cell n inside ∙ h.free_cell (suc n) (omega arith) inside ∙ rw (moved n)
    | no last ↦ rw (
      round n (at_end n last hb),
      head_index small h,
      get-set_here bits base r.buf h.cells freed 0,
      next_round n (at_end n last hb),
    )
  ]

  with_head-Holds : Holds bits (base + 1) items (with_head small h)
  with_head-Holds = record {
    masks = h.masks;
    cells = length-set r.buf _ _ ∙ h.cells;
    head_at = omega (arith, h.head_at);
    tail_at = h.tail_at ∙ ap (λ (t : ℕ). t % two64) (sym (moved (length items)));
    fits = omega (arith, h.fits);
    full_cell = full_cells;
    free_cell = free_cells;
  }

-- What `Dequeue` returns, and the items that are left.
abbrev pub oldest {ℓ} : {A : Type ℓ} → List A → Option A × Bool
oldest [] = (none, false)
oldest (x ∷ items) = (some x, true)

abbrev pub rest {ℓ} : {A : Type ℓ} → List A → List A
rest [] = []
rest (x ∷ items) = items

-- `Dequeue` on a ring that holds `items` returns the oldest of them and takes it away; it fails
-- exactly when there are none, and then leaves the ring.
pub dequeue_refines {ℓ} :
    {A : Type ℓ} {bits base : ℕ} (items : List A) {r : Ring A}
    → bits ≤ 63
    → Holds bits base items r
    → (r' : Ring A) × (base' : ℕ) × (dequeue r ≡ some (r', (oldest items).0, (oldest items).1))
      × Holds bits base' (rest items) r'
dequeue_refines {base} [] {r} small h = (r, base, dequeue-none small h refl, h)
dequeue_refines {base} (x ∷ items) small h =
    (with_head small h, base + 1, dequeue-some small h (omega arith), with_head-Holds small h)
