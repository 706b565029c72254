-- ===== src/Ring/Enqueue.antt =====
-- `Enqueue` of mailbox/ring.go on a ring that holds given items.
use Prim.Native.Nat.{bit_and}
use native.Mathlib.Nat.{add-mod_right}
use deqin_actor.Base.{
  get_elem?-append_left, get_elem?-append_end, ℕ, ◌+◌, ◌-◌, ◌%◌, ◌^◌, ◌≤◌, ◌<◌, ◌≡◌, ap, ◌∙◌, arith,
  if◌then◌else◌, ltb, length, List, [], ◌∷◌, ◌++◌, get_elem?, set, length-set, length-append, some,
  none, true, false, lt→ltb, le→ltb, dec_lt,
}
use deqin_actor.Base.Int.{two64}
use deqin_actor.Base.Bits.{two-pow_pos, two-pow-le, two-le-pow}
use deqin_actor.Ring.{Ring, swaps, gives_up, enqueue, enqueue-turn}
use deqin_actor.Ring.Rep.{
  Holds, index_lem, turn_even, turn_behind, get-set_here, get-set_below, get-set_above,
}

module _ {ℓ} {A : Type ℓ} {bits base : ℕ} {items : List A} {r : Ring A} (small : bits ≤ 63)
    (h : Holds bits base items r) where
  tail_index : bit_and r.tail r.mask ≡ (base + length items) % 2 ^ bits
  tail_index = rw (h.tail_at, h.masks) (index_lem bits (base + length items) small)

  -- The ring after a successful `Enqueue`.
  abbrev pub with_tail : A → Ring A
  with_tail v = record r {
    tail = (r.tail + 1) % two64;
    buf = set r.buf (bit_and r.tail r.mask) (record { seq = (r.tail + 1) % two64; val = some v });
  }

  pub enqueue_free : (v : A) → length items < 2 ^ bits → enqueue r v ≡ some (with_tail v, true)
  enqueue_free v room =
      enqueue-turn r v _ swaps
        (ap (get_elem? r.buf) tail_index ∙ h.free_cell (length items) (omega arith) room)
        (rw h.tail_at (turn_even (base + length items)))

  -- The cell of a full ring that `Enqueue` comes to is the oldest one.
  oldest : length items ≡ 2 ^ bits → (base + length items) % 2 ^ bits ≡ (base + 0) % 2 ^ bits
  oldest e =
      ap (λ (t : ℕ). (base + t) % 2 ^ bits) e
      ∙ add-mod_right base (2 ^ bits)
      ∙ ap (λ (t : ℕ). t % 2 ^ bits) (from_start base)
    where
      from_start : (n : ℕ) → n ≡ n + 0
      from_start n = omega arith

  newest : length items ≡ 2 ^ bits → base + 0 + 1 + (2 ^ bits - 1) ≡ base + length items
  newest e = omega (arith, two-pow_pos bits)

  pub enqueue_full : (v : A) → 1 ≤ bits → length items ≡ 2 ^ bits → enqueue r v ≡ some (r, false)
  enqueue_full v two_cells e =
      enqueue-turn r v _ gives_up
        (ap (get_elem? r.buf) (tail_index ∙ oldest e)
          ∙ h.full_cell 0 (omega (arith, two-pow_pos bits)))
        (rw (h.tail_at, ← newest e)
          (turn_behind (base + 0 + 1) (2 ^ bits - 1) (omega (arith, two-le-pow bits two_cells))
            (omega (arith, two-pow-le bits small))))

  next_tail : (r.tail + 1) % two64 ≡ (base + length items + 1) % two64
  next_tail = omega (arith, h.tail_at)

  full_cells :
      (v : A)
      → length items < 2 ^ bits
      → (n : ℕ) → n < length (items ++ v ∷ [])
      → get_elem? (with_tail v).buf ((base + n) % 2 ^ bits)
        ≡ some (record { seq = (base + n + 1) % two64; val = get_elem? (items ++ v ∷ []) n })
  full_cells v room n hn = elim (dec_lt n (length items)) [
    | yes old ↦ rw (
      tail_index,
      get-set_below bits base r.buf h.cells _ (length items) n old room,
      h.full_cell n old,
      get_elem?-append_left items (v ∷ []) n old,
    )
    | no new ↦ rw (
      last new,
      tail_index,
      get-set_here bits base r.buf h.cells _ (length items),
      next_tail,
      get_elem?-append_end items v,
    )
  ]
    where
      last : ¬ (n < length items) → n ≡ length items
      last new = omega (arith, length-append items (v ∷ []))

  free_cells :
      (v : A)
      → length items < 2 ^ bits
      → (n : ℕ) → length (items ++ v ∷ []) ≤ n
      → n < 2 ^ bits
      → get_elem? (with_tail v).buf ((base + n) % 2 ^ bits)
        ≡ some (record { seq = (base + n) % two64; val = none })
  free_cells v room n hn hb =
      let past : length items < n = omega (arith, length-append items (v ∷ [])) in
      rw (
        tail_index,
        get-set_above bits base r.buf h.cells _ (length items) n past hb,
        h.free_cell n (omega arith) hb,
      )

  pub with_tail-Holds :
      (v : A) → length items < 2 ^ bits → Holds bits base (items ++ v ∷ []) (with_tail v)
  with_tail-Holds v room = record {
    masks = h.masks;
    cells = length-set r.buf _ _ ∙ h.cells;
    head_at = h.head_at;
    tail_at = omega (arith, length-append items (v ∷ []), h.tail_at);
    fits = omega (arith, length-append items (v ∷ []));
    full_cell = full_cells v room;
    free_cell = free_cells v room;
  }

  -- `Enqueue` on a ring that holds `items` returns; it appends the value and says so exactly when
  -- there are fewer items than cells, and otherwise leaves the ring.
  pub enqueue_refines :
      1 ≤ bits
      → (v : A)
      → let room = ltb (length items) (2 ^ bits) in
        (r' : Ring A) × (enqueue r v ≡ some (r', room))
        × Holds bits base (if room then items ++ v ∷ [] else items) r'
  enqueue_refines two_cells v = elim (dec_lt (length items) (2 ^ bits)) [
    | yes room ↦ rw (lt→ltb _ _ room) (with_tail v, enqueue_free v room, with_tail-Holds v room)
    | no full ↦
        rw (le→ltb _ _ (no_room full)) (r, enqueue_full v two_cells (omega (arith, h.fits)), h)
  ]
    where
      no_room : ¬ (length items < 2 ^ bits) → 2 ^ bits ≤ length items
      no_room full = omega arith
