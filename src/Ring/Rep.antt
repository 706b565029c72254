-- ===== src/Ring/Rep.antt =====
-- What a ring of mailbox/ring.go holds, and what the sequence numbers tell a call.
use Prim.Native.Nat.{bit_and}
use native.Mathlib.Nat.{mod-lt}
use deqin_actor.Base.{
  ℕ, ◌+◌, ◌-◌, ◌%◌, ◌^◌, ◌≤◌, ◌<◌, ◌≡◌, sym, ◌∙◌, arith, length, List, get_elem?, set,
  get_elem?-set_self, get_elem?-set_ne, some, none,
}
use deqin_actor.Base.Bits.{bit_and-mask, two-pow_pos}
use deqin_actor.Base.Mod.{mod-wrapped, mod_ne}
use deqin_actor.Base.Int.{sub64, to_int64, ◌-ℤ◌, two63, two64}
use deqin_actor.Ring.{RingCell, Ring, swaps, gives_up, turn, dif}

-- The differences of the numbers that a call meets, on wrapped counters.
pub turn_even : (n : ℕ) → turn (dif (n % two64) (n % two64)) ≡ swaps
unfolding dif sub64 to_int64 ◌-ℤ◌
turn_even n = ground (arith, mod-lt n {m = two64} (omega arith))

pub turn_behind :
    (n d : ℕ) → 0 < d → d < two63 → turn (dif (n % two64) ((n + d) % two64)) ≡ gives_up
unfolding dif sub64 to_int64 ◌-ℤ◌
turn_behind n d some_way h = ground arith

-- `r` has 2^bits cells and holds `items`, the oldest first; `base` calls of `Dequeue` have
-- succeeded, counted without wrap.
pub record Holds {ℓ} {A : Type ℓ} (bits base : ℕ) (items : List A) (r : Ring A) : Type ℓ where
  pub masks : r.mask ≡ 2 ^ bits - 1
  pub cells : length r.buf ≡ 2 ^ bits
  pub head_at : r.head ≡ base % two64
  pub tail_at : r.tail ≡ (base + length items) % two64
  pub fits : length items ≤ 2 ^ bits
  pub full_cell :
      (n : ℕ)
      → n < length items
      → get_elem? r.buf ((base + n) % 2 ^ bits)
        ≡ some (record { seq = (base + n + 1) % two64; val = get_elem? items n })
  pub free_cell :
      (n : ℕ)
      → length items ≤ n
      → n < 2 ^ bits
      → get_elem? r.buf ((base + n) % 2 ^ bits)
        ≡ some (record { seq = (base + n) % two64; val = none })

-- The index of a counter, `at & mask`.
pub index_lem : (bits n : ℕ) → bits ≤ 63 → bit_and (n % two64) (2 ^ bits - 1) ≡ n % 2 ^ bits
index_lem bits n h = bit_and-mask bits (n % two64) ∙ mod-wrapped bits n (omega arith)

-- A write to the cell of one number leaves the cells of the others of its round.
module _ {ℓ} {A : Type ℓ} (bits base : ℕ) (buf : List (RingCell A)) (cells : length buf ≡ 2 ^ bits)
    (cell : RingCell A) where
  pub get-set_here :
      (n : ℕ) → get_elem? (set buf ((base + n) % 2 ^ bits) cell) ((base + n) % 2 ^ bits) ≡ some cell
  get-set_here n =
      get_elem?-set_self buf ((base + n) % 2 ^ bits) cell
        (omega (arith, mod-lt (base + n) (two-pow_pos bits)))

  pub get-set_below :
      (n m : ℕ)
      → m < n
      → n < 2 ^ bits
      → get_elem? (set buf ((base + n) % 2 ^ bits) cell) ((base + m) % 2 ^ bits)
        ≡ get_elem? buf ((base + m) % 2 ^ bits)
  get-set_below n m h hn =
      get_elem?-set_ne buf _ _ cell (λ e. mod_ne (2 ^ bits) base m n h hn (sym e))

  pub get-set_above :
      (n m : ℕ)
      → n < m
      → m < 2 ^ bits
      → get_elem? (set buf ((base + n) % 2 ^ bits) cell) ((base + m) % 2 ^ bits)
        ≡ get_elem? buf ((base + m) % 2 ^ bits)
  get-set_above n m h hm = get_elem?-set_ne buf _ _ cell (λ e. mod_ne (2 ^ bits) base n m h hm e)
