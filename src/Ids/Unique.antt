-- ===== src/Ids/Unique.antt =====
-- Identifiers of actor/id.go differ.
use deqin_actor.Base.{
  ℕ, zero, suc, ◌+◌, ◌/◌, ◌%◌, ◌^◌, ◌<◌, ◌≡◌, refl, ap, ap₂, arith, List, [], ◌∷◌, ◌++◌, length,
}
use deqin_actor.Base.Int.{two64}
use deqin_actor.Base.Str.{Str}
use deqin_actor.Ids.{big_endian, hex_digit, encode_hex, new_actor_id}

-- All bytes.
abbrev AllBytes : List ℕ → Type 0
AllBytes [] = Unit {0}
AllBytes (b ∷ bs) = (b < 256) × AllBytes bs

hex_digit_injective : (d e : ℕ) → d < 16 → e < 16 → hex_digit d ≡ hex_digit e → d ≡ e
hex_digit_injective d e h h' p = ground (arith, h, h', p)

from_halves : (a b : ℕ) → a / 16 ≡ b / 16 → a % 16 ≡ b % 16 → a ≡ b
from_halves a b p q = omega (arith, p, q)

from_bytes : (a b : ℕ) → a / 256 ≡ b / 256 → a % 256 ≡ b % 256 → a ≡ b
from_bytes a b p q = omega (arith, p, q)

head_eq : (x y : ℕ) (s t : List ℕ) → ◌≡◌ {A = List ℕ} (x ∷ s) (y ∷ t) → x ≡ y
head_eq x y s t e = ground (arith, e)

tail_eq : (x y : ℕ) (s t : List ℕ) → ◌≡◌ {A = List ℕ} (x ∷ s) (y ∷ t) → s ≡ t
tail_eq x y s t e = ground (arith, e)

-- What comes before a common rest is read back.
encode_hex_injective :
    (bs cs : List ℕ) (s : Str)
    → AllBytes bs
    → AllBytes cs
    → length bs ≡ length cs
    → encode_hex bs ++ s ≡ encode_hex cs ++ s
    → bs ≡ cs
encode_hex_injective [] [] s h h' l e = refl
encode_hex_injective [] (c ∷ cs) s h h' l e = absurd (omega (arith, l))
encode_hex_injective (b ∷ bs) [] s h h' l e = absurd (omega (arith, l))
encode_hex_injective (b ∷ bs) (c ∷ cs) s (small, h) (small', h') l e =
    let high = head_eq _ _ _ _ e in
    let rest = tail_eq _ _ _ _ e in
    let low = head_eq _ _ _ _ rest in
    let first : b ≡ c =
      from_halves b c
        (hex_digit_injective (b / 16) (c / 16) (omega (arith, small)) (omega (arith, small')) high)
        (hex_digit_injective (b % 16) (c % 16) (omega arith) (omega arith) low) in
    ap₂ (λ x xs. x ∷ xs) first
      (encode_hex_injective bs cs s h h' (omega (arith, l)) (tail_eq _ _ _ _ rest))

-- The bytes of a number, as one after the other.
abbrev SameBytes : ℕ → ℕ → Type 0
SameBytes n m =
    (n / 2 ^ 56 % 256 ≡ m / 2 ^ 56 % 256)
    × (n / 2 ^ 48 % 256 ≡ m / 2 ^ 48 % 256)
    × (n / 2 ^ 40 % 256 ≡ m / 2 ^ 40 % 256)
    × (n / 2 ^ 32 % 256 ≡ m / 2 ^ 32 % 256)
    × (n / 2 ^ 24 % 256 ≡ m / 2 ^ 24 % 256)
    × (n / 2 ^ 16 % 256 ≡ m / 2 ^ 16 % 256)
    × (n / 2 ^ 8 % 256 ≡ m / 2 ^ 8 % 256)
    × (n % 256 ≡ m % 256)

same_number : (n m : ℕ) → n < two64 → m < two64 → SameBytes n m → n ≡ m
same_number n m h h' (a, b, c, d, e, f, g, i) =
    let p7 : n / 2 ^ 56 ≡ m / 2 ^ 56 = omega (arith, h, h', a) in
    let p6 : n / 2 ^ 48 ≡ m / 2 ^ 48 = omega (arith, p7, b) in
    let p5 : n / 2 ^ 40 ≡ m / 2 ^ 40 = omega (arith, p6, c) in
    let p4 : n / 2 ^ 32 ≡ m / 2 ^ 32 = omega (arith, p5, d) in
    let p3 : n / 2 ^ 24 ≡ m / 2 ^ 24 = omega (arith, p4, e) in
    let p2 : n / 2 ^ 16 ≡ m / 2 ^ 16 = omega (arith, p3, f) in
    let p1 : n / 2 ^ 8 ≡ m / 2 ^ 8 = omega (arith, p2, g) in from_bytes n m (omega (arith, p1)) i

abbrev nth : ℕ → List ℕ → ℕ
nth i [] = 0
nth zero (x ∷ xs) = x
nth (suc i) (x ∷ xs) = nth i xs

append-AllBytes : (bs cs : List ℕ) → AllBytes bs → AllBytes cs → AllBytes (bs ++ cs)
append-AllBytes [] cs h h' = h'
append-AllBytes (b ∷ bs) cs (small, h) h' = (small, append-AllBytes bs cs h h')

big_endian-AllBytes : (n : ℕ) → AllBytes (big_endian n)
big_endian-AllBytes n = (
  omega arith,
  (
    omega arith,
    (omega arith, (omega arith, (omega arith, (omega arith, (omega arith, (omega arith, tt)))))),
  ),
)

both_numbers :
    (t n t' n' : ℕ)
    → big_endian t ++ big_endian n ≡ big_endian t' ++ big_endian n'
    → SameBytes t t' × SameBytes n n'
both_numbers t n t' n' e = (
  (
    ap (nth 0) e,
    ap (nth 1) e,
    ap (nth 2) e,
    ap (nth 3) e,
    ap (nth 4) e,
    ap (nth 5) e,
    ap (nth 6) e,
    ap (nth 7) e,
  ),
  (
    ap (nth 8) e,
    ap (nth 9) e,
    ap (nth 10) e,
    ap (nth 11) e,
    ap (nth 12) e,
    ap (nth 13) e,
    ap (nth 14) e,
    ap (nth 15) e,
  ),
)

-- On one node, two identifiers are the same only if they are made with the same value of the counter
-- and at times that are the same modulo 2^64: each of the first 2^64 calls of `NewActorID` returns
-- another identifier.
pub new_actor_id_injective :
    (node_id : Str) (counter counter' now now' : ℕ)
    → counter < two64
    → counter' < two64
    → (new_actor_id node_id counter now).1 ≡ (new_actor_id node_id counter' now').1
    → (counter ≡ counter') × (now % two64 ≡ now' % two64)
unfolding new_actor_id
new_actor_id_injective node_id counter counter' now now' h h' e =
    let n = (counter + 1) % two64 in
    let n' = (counter' + 1) % two64 in
    let (t_same, n_same) = both_numbers (now % two64) n (now' % two64) n' (
      encode_hex_injective (big_endian (now % two64) ++ big_endian n)
        (big_endian (now' % two64) ++ big_endian n') node_id
        (append-AllBytes (big_endian (now % two64)) (big_endian n)
          (big_endian-AllBytes (now % two64)) (big_endian-AllBytes n))
        (append-AllBytes (big_endian (now' % two64)) (big_endian n')
          (big_endian-AllBytes (now' % two64)) (big_endian-AllBytes n'))
        refl e) in
    (
      omega (arith, same_number n n' (omega arith) (omega arith) n_same, h, h'),
      same_number (now % two64) (now' % two64) (omega arith) (omega arith) t_same,
    )
