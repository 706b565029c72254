-- ===== src/Wal/RoundTrip.antt =====
-- What `Replay` of persistence/wal.go finds of the records that `Append` wrote.
use deqin_actor.Base.{
  ℕ, zero, suc, ◌+◌, ◌-◌, ◌*◌, ◌/◌, ◌%◌, ◌^◌, ◌≤◌, ◌<◌, ◌≡◌, inl, inr, sym, ap, ap₂, ◌∙◌, arith,
  if◌then◌else◌, ◌==◌, Bool-cases, false, some, List, [], ◌∷◌, ◌++◌, append-nil, append_assoc,
  length, take, length-append,
}
use deqin_actor.Wal.{
  Wal, open_file, put_uint32, framed, append, replay, replay_loop, records, fails, eof,
  unexpected_eof,
}
use deqin_actor.Wal.Codec.{replay_loop-framed, replay_loop-cut, replay_loop-end}

-- A record that is empty is not written.
abbrev pub kept : List (List ℕ) → List (List ℕ)
kept [] = []
kept (b ∷ bs) = if length b == 0 then kept bs else b ∷ kept bs

-- The length of every record fits the four bytes of the header.
abbrev pub AllShort : List (List ℕ) → Type 0
AllShort [] = Unit {0}
AllShort (b ∷ bs) = (length b < 2 ^ 32) × AllShort bs

abbrev AllFramed : List (List ℕ) → Type 0
AllFramed [] = Unit {0}
AllFramed (b ∷ bs) = (1 ≤ length b) × (length b < 2 ^ 32) × AllFramed bs

abbrev log : List (List ℕ) → List ℕ
log [] = []
log (b ∷ bs) = framed b ++ log bs

-- The log after a series of calls of `Append`.
unfoldable pub append_all : Wal → List (List ℕ) → Wal
append_all w [] = w
append_all w (b ∷ bs) = append_all (append w b).0 bs

kept-AllFramed : (bs : List (List ℕ)) → AllShort bs → AllFramed (kept bs)
kept-AllFramed [] h = tt
kept-AllFramed (b ∷ bs) h = elim (Bool-cases (length b == 0)) [
  | inl e ↦ rw e (kept-AllFramed bs h.1)
  | inr e ↦ rw e (ground arith, h.0, kept-AllFramed bs h.1)
]

append_all_lem :
    (bs : List (List ℕ)) (content : List ℕ)
    → append_all (open_file content) bs ≡ open_file (content ++ log (kept bs))
unfolding append_all append
append_all_lem [] content = ap open_file (sym (append-nil content))
append_all_lem (b ∷ bs) content = elim (Bool-cases (length b == 0)) [
  | inl e ↦ rw e (append_all_lem bs content)
  | inr e ↦ rw e (
      append_all_lem bs (content ++ framed b)
      ∙ ap open_file (append_assoc content (framed b) (log (kept bs))))
]

-- The loop goes through the records of a log, and on with what follows them.
replay_loop-log :
    (rs : List (List ℕ)) (rounds : ℕ) (tail : List ℕ) (out : List (List ℕ))
    → AllFramed rs
    → replay_loop (length rs + rounds) (log rs ++ tail) out ≡ replay_loop rounds tail (out ++ rs)
replay_loop-log [] rounds tail out h =
    ap₂ (λ n o. replay_loop n tail o) (omega arith) (sym (append-nil out))
replay_loop-log (b ∷ rs) rounds tail out h =
    ap₂ (λ n t. replay_loop n t out) (omega arith) (append_assoc (framed b) (log rs) tail)
    ∙ replay_loop-framed (length rs + rounds) b (log rs ++ tail) out h.0 h.1
    ∙ replay_loop-log rs rounds tail (out ++ b ∷ []) h.2
    ∙ ap (replay_loop rounds tail) (append_assoc out (b ∷ []) rs)

length-log : (rs : List (List ℕ)) → length rs ≤ length (log rs)
length-log [] = omega arith
length-log (b ∷ rs) = omega (arith, length-log rs, length-append (framed b) (log rs))

replay-log :
    (rs : List (List ℕ)) (tail : List ℕ)
    → AllFramed rs
    → (rounds : ℕ) × (replay (open_file (log rs ++ tail)) ≡ replay_loop (suc rounds) tail rs)
unfolding replay
replay-log rs tail h =
    let total = length (log rs ++ tail) in
    (
      total - length rs,
      ap (λ n. replay_loop n (log rs ++ tail) [])
            (omega (arith, length-log rs, length-append (log rs) tail))
          ∙ replay_loop-log rs (suc (total - length rs)) tail [] h,
    )

-- What a file holds after calls of `Append` and then other bytes.
written :
    (bs : List (List ℕ)) (tail : List ℕ)
    → (append_all (open_file []) bs).bytes ++ tail ≡ log (kept bs) ++ tail
written bs tail = ap (λ w. w.bytes ++ tail) (append_all_lem bs [])

-- Any records of fewer than 2^32 bytes that `Append` writes to an empty log come back from
-- `Replay`, in order and without the empty ones, also if a crash left up to three bytes of the next
-- header behind them.
pub wal_round_trip :
    (bs : List (List ℕ)) (torn : List ℕ)
    → AllShort bs
    → length torn < 4
    → replay (open_file ((append_all (open_file []) bs).bytes ++ torn)) ≡ some (records (kept bs))
wal_round_trip bs torn h few =
    let (rounds, e) = replay-log (kept bs) torn (kept-AllFramed bs h) in
    ap (λ c. replay (open_file c)) (written bs torn) ∙ e ∙ replay_loop-end rounds torn (kept bs) few

length-take-lt : (k : ℕ) (b : List ℕ) → k < length b → length (take k b) < length b
length-take-lt k [] h = omega arith
length-take-lt zero (x ∷ b) h = omega arith
length-take-lt (suc k) (x ∷ b) h = omega (arith, length-take-lt k b (omega arith))

-- If a crash cuts the payload of a last record of fewer than 2^32 bytes, `Replay` returns no record
-- at all: it fails with the error of the end of the file, whatever records come first.
pub wal_torn_payload :
    (bs : List (List ℕ)) (b : List ℕ) (k : ℕ)
    → AllShort bs
    → length b < 2 ^ 32
    → k < length b
    → replay
        (open_file ((append_all (open_file []) bs).bytes ++ (put_uint32 (length b) ++ take k b)))
      ≡ some (fails (if length (take k b) == 0 then eof else unexpected_eof))
wal_torn_payload bs b k h small cut =
    let tail = put_uint32 (length b) ++ take k b in
    let (rounds, e) = replay-log (kept bs) tail (kept-AllFramed bs h) in
    ap (λ c. replay (open_file c)) (written bs tail)
    ∙ e
    ∙ replay_loop-cut rounds (length b) (take k b) (kept bs) (length-take-lt k b cut) small

-- One byte of a torn header, and a record behind it, read as a header and what follows.
misread :
    (t : ℕ) (b : List ℕ)
    → t < 256
    → length b < 2 ^ 23
    → t ∷ framed b ≡ put_uint32 (t + 256 * length b) ++ (length b % 2 ^ 32 / 16777216 ∷ b)
misread t b byte small =
    ap₂ (λ x y. x ∷ y) (omega arith)
      (ap₂ (λ x y. x ∷ y) (omega arith)
        (ap₂ (λ x y. x ∷ y) (omega arith)
          (ap (λ x. x ∷ length b % 2 ^ 32 / 16777216 ∷ b) (omega arith))))

-- A log goes on after a crash that left one byte of a header behind its records. Once a record of
-- fewer than 2^23 bytes that is not empty is appended to it, `Replay` fails for the whole log.
pub torn_log_unreadable :
    (bs : List (List ℕ)) (t : ℕ) (b : List ℕ)
    → AllShort bs
    → t < 256
    → 1 ≤ length b
    → length b < 2 ^ 23
    → replay (append (open_file ((append_all (open_file []) bs).bytes ++ t ∷ [])) b).0
      ≡ some (fails unexpected_eof)
unfolding append
torn_log_unreadable bs t b h byte some_bytes small =
    let n = t + 256 * length b in
    let rest = length b % 2 ^ 32 / 16777216 ∷ b in
    let old = (append_all (open_file []) bs).bytes in
    let (rounds, e) = replay-log (kept bs) (put_uint32 n ++ rest) (kept-AllFramed bs h) in
    let not_empty : (length b == 0) ≡ false = ground arith in
    let one_byte : (length rest == 0) ≡ false = ground arith in
    rw not_empty (
      ap (λ c. replay (open_file c))
        (append_assoc old (t ∷ []) (framed b)
          ∙ ap (λ c. old ++ c) (misread t b byte small)
          ∙ written bs (put_uint32 n ++ rest))
      ∙ e
      ∙ replay_loop-cut rounds n rest (kept bs) (omega arith) (omega arith)
      ∙ ap (λ c. some (fails (if c then eof else unexpected_eof))) one_byte)
