-- ===== src/Ring/Capacity.antt =====
-- The size that `NewRing` of mailbox/ring.go gives the buffer.
use native.Mathlib.Nat.{pow-suc}
use deqin_actor.Base.{
  ℕ, zero, suc, ◌+◌, ◌*◌, ◌%◌, ◌^◌, ◌≤◌, ◌<◌, ◌≡◌, refl, arith, lt→ltb, le→ltb, ℕ_discrete, length,
  ap, ◌∙◌, dec_lt, get_elem?, some, none,
}
use deqin_actor.Base.Bits.{two-pow-le}
use deqin_actor.Base.Int.{two63, two64}
use deqin_actor.Ring.{double_until, at_least_two, round_up, init_cells, capacity, new_ring}

-- The size is a power of two: the least one that is enough.
pub record Rounded (needed size : ℕ) : Type 0 where
  pub bits : ℕ
  pub power : size ≡ 2 ^ bits
  pub small : bits ≤ 63
  pub enough : needed ≤ size
  tight : size < needed * 2

doubled :
    (rounds k needed : ℕ)
    → k + rounds ≡ 64
    → k ≤ 63
    → 2 ^ k < needed * 2
    → needed ≤ two63
    → Rounded needed (double_until rounds needed (2 ^ k))
unfolding double_until
doubled zero k needed e small start fits = absurd (omega arith)
doubled (suc rounds) k needed e small start fits = elim (dec_lt (2 ^ k) needed) [
  | yes more ↦
      rw (lt→ltb (2 ^ k) needed more, doubles more)
        (doubled rounds (suc k) needed (omega arith) (below more) (omega (arith, pow-suc 2 k)) fits)
  | no done ↦
      rw (le→ltb (2 ^ k) needed (omega arith))
        (record { bits = k; power = refl; small = small; enough = omega arith; tight = start })
]
  where
    below : 2 ^ k < needed → suc k ≤ 63
    below more = elim (ℕ_discrete k 63) [
      | yes top ↦ absurd (omega (arith, ap (λ (t : ℕ). 2 ^ t) top))
      | no lower ↦ omega arith
    ]

    doubles : 2 ^ k < needed → 2 ^ k * 2 % two64 ≡ 2 ^ suc k
    doubles more = omega (arith, pow-suc 2 k)

at_least_two_lem : (n : ℕ) → n ≤ two63 → (2 ≤ at_least_two n) × (at_least_two n ≤ two63)
at_least_two_lem n h = ground arith

-- `NewRing(n)` for `n` up to 2^63: its loop ends, with the least power of two that is at least `n`
-- and at least 2.
pub round_up_lem : (n : ℕ) → n ≤ two63 → Rounded (at_least_two n) (round_up n)
unfolding round_up
round_up_lem n h =
    doubled 64 0 (at_least_two n) refl (omega arith) (omega (arith, (at_least_two_lem n h).0))
      (at_least_two_lem n h).1

never_rounded :
    (n rounds k : ℕ)
    → two63 < n
    → k ≤ 63
    → (double_until rounds n (2 ^ k) < n) × (double_until rounds n 0 < n)
unfolding double_until
never_rounded n zero k big small = (omega (arith, two-pow-le k small), omega arith)
never_rounded n (suc rounds) k big small = elim (dec_lt k 63) [
  | yes lower ↦
      rw
        (
          lt→ltb (2 ^ k) n (omega (arith, two-pow-le k small)),
          lt→ltb 0 n (omega arith),
          doubles lower,
        )
        (never_rounded n rounds (suc k) big lower)
  | no top ↦
      rw
        (
          lt→ltb (2 ^ k) n (omega (arith, two-pow-le k small)),
          lt→ltb 0 n (omega arith),
          overflows top,
        )
        (
          (never_rounded n rounds 0 big (omega arith)).1,
          (never_rounded n rounds 0 big (omega arith)).1,
        )
]
  where
    doubles : k < 63 → 2 ^ k * 2 % two64 ≡ 2 ^ suc k
    doubles lower = omega (arith, pow-suc 2 k, two-pow-le (suc k) lower)

    overflows : ¬ (k < 63) → 2 ^ k * 2 % two64 ≡ 0
    overflows top = ap (λ (t : ℕ). 2 ^ t * 2 % two64) (at_top k small top)
      where
        at_top : (k : ℕ) → k ≤ 63 → ¬ (k < 63) → k ≡ 63
        at_top k h t = omega arith

-- The loop of `NewRing(n)` for a `uint64` `n` above 2^63: whatever the number of rounds, its test
-- still holds, so it never ends.
double_until_diverges :
    (n rounds : ℕ) → two63 < n → double_until rounds (at_least_two n) 1 < at_least_two n
double_until_diverges n rounds big =
    (never_rounded (at_least_two n) rounds 0 (ground arith) (omega arith)).0

module _ {ℓ} (A : Type ℓ) where
  pub length-init_cells : (n i : ℕ) → length (init_cells {A = A} n i) ≡ n
  unfolding init_cells
  length-init_cells zero i = refl
  length-init_cells (suc n) i = ap suc (length-init_cells n (i + 1))

  -- A new buffer: cell `j` has the number `j` and no value.
  pub get_elem?-init_cells :
      (n i j : ℕ)
      → j < n
      → get_elem? (init_cells {A = A} n i) j ≡ some (record { seq = i + j; val = none })
  unfolding init_cells
  get_elem?-init_cells zero i j h = elim h [ ]
  get_elem?-init_cells (suc n) i zero h =
      ap (λ (t : ℕ). some (record { seq = t; val = none })) (omega arith)
  get_elem?-init_cells (suc n) i (suc j) h =
      get_elem?-init_cells n (i + 1) j (omega arith)
      ∙ ap (λ (t : ℕ). some (record { seq = t; val = none })) (omega arith)

  capacity-new_ring : (n : ℕ) → capacity (new_ring {A = A} n) ≡ round_up n
  unfolding capacity new_ring
  capacity-new_ring n = length-init_cells (round_up n) 0
