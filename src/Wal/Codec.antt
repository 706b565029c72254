-- ===== src/Wal/Codec.antt =====
-- One record of persistence/wal.go, written and read.
use deqin_actor.Base.{
  ℕ, zero, suc, ◌+◌, ◌^◌, ◌≤◌, ◌<◌, ◌≡◌, refl, ap, ap₂, ◌∙◌, arith, if◌then◌else◌, ◌==◌, false,
  some, List, [], ◌∷◌, ◌++◌, length, take, drop, length-append,
}
use deqin_actor.Wal.{
  put_uint32, uint32, framed, full, short, read_full, on_payload, on_length, on_header, replay_loop,
  records, fails, eof, unexpected_eof,
}

uint32-put_uint32 : (n : ℕ) → n < 2 ^ 32 → uint32 (put_uint32 n) ≡ n
uint32-put_uint32 n h = omega arith

module _ {ℓ} {A : Type ℓ} where
  take-append : (xs ys : List A) → take (length xs) (xs ++ ys) ≡ xs
  take-append [] ys = refl
  take-append (x ∷ xs) ys = ap (λ t. x ∷ t) (take-append xs ys)

  drop-append : (xs ys : List A) → drop (length xs) (xs ++ ys) ≡ ys
  drop-append [] ys = refl
  drop-append (x ∷ xs) ys = drop-append xs ys

  pub length-drop : (n : ℕ) (xs : List A) → n ≤ length xs → length (drop n xs) + n ≡ length xs
  length-drop zero xs h = omega arith
  length-drop (suc n) [] h = omega arith
  length-drop (suc n) (x ∷ xs) h = omega (arith, length-drop n xs (omega arith))

pub read_full-enough :
    (n : ℕ) (bs : List ℕ) → n ≤ length bs → read_full n bs ≡ full (take n bs) (drop n bs)
read_full-enough n bs h = ground arith

read_full-append : (b tail : List ℕ) → read_full (length b) (b ++ tail) ≡ full b tail
read_full-append b tail =
    read_full-enough (length b) (b ++ tail) (omega (arith, length-append b tail))
    ∙ ap₂ full (take-append b tail) (drop-append b tail)

-- Too few bytes give one of the two errors of the end of a file.
pub read_full-short :
    (n : ℕ) (bs : List ℕ)
    → length bs < n
    → read_full n bs ≡ short (if length bs == 0 then eof else unexpected_eof)
read_full-short n bs h = ground arith

-- The header of a record.
read_header :
    (b tail : List ℕ) → read_full 4 (framed b ++ tail) ≡ full (put_uint32 (length b)) (b ++ tail)
read_header b tail = read_full-append (put_uint32 (length b)) (b ++ tail)

-- The loop after a header that is not 0.
after_header :
    (rounds n : ℕ) (tail : List ℕ) (out : List (List ℕ))
    → 1 ≤ n
    → n < 2 ^ 32
    → on_header (replay_loop rounds) out (full (put_uint32 n) tail)
      ≡ on_payload (replay_loop rounds) out (read_full n tail)
after_header rounds n tail out some_bytes small =
    ap (λ m. on_length (replay_loop rounds) out tail m (m == 0)) (uint32-put_uint32 n small)
    ∙ ap (on_length (replay_loop rounds) out tail n) not_zero
  where
    not_zero : (n == 0) ≡ false
    not_zero = ground arith

pub replay_loop-framed :
    (rounds : ℕ) (b tail : List ℕ) (out : List (List ℕ))
    → 1 ≤ length b
    → length b < 2 ^ 32
    → replay_loop (suc rounds) (framed b ++ tail) out ≡ replay_loop rounds tail (out ++ b ∷ [])
unfolding replay_loop
replay_loop-framed rounds b tail out some_bytes small =
    ap (on_header (replay_loop rounds) out) (read_header b tail)
    ∙ after_header rounds (length b) (b ++ tail) out some_bytes small
    ∙ ap (on_payload (replay_loop rounds) out) (read_full-append b tail)

-- A header with too few bytes behind it.
pub replay_loop-cut :
    (rounds n : ℕ) (rest : List ℕ) (out : List (List ℕ))
    → length rest < n
    → n < 2 ^ 32
    → replay_loop (suc rounds) (put_uint32 n ++ rest) out
      ≡ some (fails (if length rest == 0 then eof else unexpected_eof))
unfolding replay_loop
replay_loop-cut rounds n rest out cut small =
    ap (on_header (replay_loop rounds) out) (read_full-append (put_uint32 n) rest)
    ∙ after_header rounds n rest out (omega arith) small
    ∙ ap (on_payload (replay_loop rounds) out) (read_full-short n rest cut)

-- The end of the log, or a header that is cut.
pub replay_loop-end :
    (rounds : ℕ) (rest : List ℕ) (out : List (List ℕ))
    → length rest < 4
    → replay_loop (suc rounds) rest out ≡ some (records out)
unfolding replay_loop
replay_loop-end rounds rest out few =
    ap (on_header (replay_loop rounds) out) (read_full-short 4 rest few)
