-- ===== src/Ring.antt =====
-- mailbox/ring.go: the bounded ring of cells with sequence numbers. A call runs with no other
-- goroutine in between, so that its compare-and-swaps succeed; counters are `uint64` and wrap.
mod Tests
pub mod Capacity
pub mod Rep
pub mod Enqueue
pub mod Dequeue
pub mod Refine
use Prim.Native.Nat.{bit_and}
use deqin_actor.Base.{
  ◌≡◌, ap, ◌∙◌, ℕ, zero, suc, ◌+◌, ◌-◌, ◌*◌, ◌%◌, Bool, true, false, Option, none, some, List, [],
  ◌∷◌, if◌then◌else◌, ltb, length, get_elem?, set,
}
use deqin_actor.Base.Int.{ℤ, pos, negsuc, sub64, to_int64, two64}

-- `ringCell`; `none` is the null pointer.
pub record RingCell {ℓ} (A : Type ℓ) : Type ℓ where
  pub seq : ℕ
  pub val : Option A

pub record Ring {ℓ} (A : Type ℓ) : Type ℓ where
  pub mask : ℕ
  pub buf : List (RingCell A)
  pub head : ℕ
  pub tail : ℕ

-- `for c < capacity { c <<= 1 }`, for at most so many rounds.
unfoldable pub double_until : ℕ → ℕ → ℕ → ℕ
double_until zero capacity c = c
double_until (suc rounds) capacity c =
    let more = double_until rounds capacity (c * 2 % two64) in if ltb c capacity then more else c

abbrev pub at_least_two : ℕ → ℕ
at_least_two capacity = if ltb capacity 2 then 2 else capacity

-- The size of the buffer that `NewRing` makes.
unfoldable pub round_up : ℕ → ℕ
unfolding double_until
round_up capacity = double_until 64 (at_least_two capacity) 1

module _ {ℓ} {A : Type ℓ} where
  -- `n` cells, the first with the number `i`.
  unfoldable pub init_cells : ℕ → ℕ → List (RingCell A)
  init_cells zero i = []
  init_cells (suc n) i = record { seq = i; val = none } ∷ init_cells n (i + 1)

  unfoldable pub new_ring : ℕ → Ring A
  unfolding round_up init_cells
  new_ring capacity = record {
    mask = round_up capacity - 1;
    buf = init_cells (round_up capacity) 0;
    head = 0;
    tail = 0;
  }

  unfoldable pub capacity : Ring A → ℕ
  capacity r = length r.buf

-- `int64(seq) - int64(at)`
unfoldable pub dif : ℕ → ℕ → ℤ
dif seq at = sub64 (to_int64 (pos seq)) (to_int64 (pos at))

-- What the difference tells the loop: swap the counter, give up, or read again.
pub data Turn : Type 0 where
  swaps gives_up retries : Turn

abbrev pub turn : ℤ → Turn
turn (pos zero) = swaps
turn (pos (suc n)) = retries
turn (negsuc n) = gives_up

module _ {ℓ} {A : Type ℓ} where
  -- `none`: the call does not return. It reads outside the buffer, or, alone, reads the same
  -- numbers for ever.
  abbrev enqueue_turn : Turn → Ring A → A → Option (Ring A × Bool)
  enqueue_turn swaps r v = some (
    record r {
      tail = (r.tail + 1) % two64;
      buf = set r.buf (bit_and r.tail r.mask) (record { seq = (r.tail + 1) % two64; val = some v });
    },
    true,
  )
  enqueue_turn gives_up r v = some (r, false)
  enqueue_turn retries r v = none

  abbrev enqueue_at : Option (RingCell A) → Ring A → A → Option (Ring A × Bool)
  enqueue_at none r v = none
  enqueue_at (some cell) r v = enqueue_turn (turn (dif cell.seq r.tail)) r v

  unfoldable pub enqueue : Ring A → A → Option (Ring A × Bool)
  enqueue r v = enqueue_at (get_elem? r.buf (bit_and r.tail r.mask)) r v

  -- The result is the pointer and the flag that `Dequeue` returns.
  abbrev dequeue_turn : Turn → RingCell A → Ring A → Option (Ring A × Option A × Bool)
  dequeue_turn swaps cell r = some (
    record r {
      head = (r.head + 1) % two64;
      buf =
          set r.buf (bit_and r.head r.mask)
            (record { seq = (r.head + r.mask + 1) % two64; val = none });
    },
    cell.val,
    true,
  )
  dequeue_turn gives_up cell r = some (r, none, false)
  dequeue_turn retries cell r = none

  abbrev dequeue_at : Option (RingCell A) → Ring A → Option (Ring A × Option A × Bool)
  dequeue_at none r = none
  dequeue_at (some cell) r = dequeue_turn (turn (dif cell.seq ((r.head + 1) % two64))) cell r

  unfoldable pub dequeue : Ring A → Option (Ring A × Option A × Bool)
  dequeue r = dequeue_at (get_elem? r.buf (bit_and r.head r.mask)) r

  pub enqueue-turn :
      (r : Ring A) (v : A) (cell : RingCell A) (t : Turn)
      → get_elem? r.buf (bit_and r.tail r.mask) ≡ some cell
      → turn (dif cell.seq r.tail) ≡ t
      → enqueue r v ≡ enqueue_turn t r v
  unfolding enqueue
  enqueue-turn r v cell t e d = ap (λ c. enqueue_at c r v) e ∙ ap (λ t. enqueue_turn t r v) d

  pub dequeue-turn :
      (r : Ring A) (cell : RingCell A) (t : Turn)
      → get_elem? r.buf (bit_and r.head r.mask) ≡ some cell
      → turn (dif cell.seq ((r.head + 1) % two64)) ≡ t
      → dequeue r ≡ dequeue_turn t cell r
  unfolding dequeue
  dequeue-turn r cell t e d = ap (λ c. dequeue_at c r) e ∙ ap (λ t. dequeue_turn t cell r) d
