-- ===== src/Wal.antt =====
-- persistence/wal.go: the write-ahead log. The file is the list of its bytes, which the operating
-- system keeps as they were written; a crash may leave any prefix of them.
mod Tests
pub mod Codec
pub mod RoundTrip
pub mod Always
use deqin_actor.Base.{
  ℕ, zero, suc, ◌+◌, ◌-◌, ◌*◌, ◌/◌, ◌%◌, ◌^◌, ◌≤◌, ◌<◌, min, max, ◌≡◌, ◌≢◌, ◌↔◌, ◌⊎◌, inl, inr,
  refl, sym, ap, ap₂, ◌∙◌, arith, tests, if◌then◌else◌, ltb, leb, ◌==◌, ltb→lt, lt→ltb, le→ltb,
  leb→le, le→leb, lt→leb, ==_iff, Bool-cases, Option-cases, Bool, true, false, not, ◌&&◌, ◌||◌,
  Option, none, some, List, [], ◌∷◌, ◌++◌, map, append-nil, append_assoc, length, get_elem?, set,
  take, drop, length-append, length-set, get_elem?-set_self, get_elem?-set_ne, get_elem?-eq_some,
  get_elem?-append_left, get_elem?-append_end, dec_lt, dec_le, ℕ_discrete,
}
use mathlib.Core.Option

-- `is_open` is false once `Close` has set the file to nil.
pub record Wal : Type 0 where
  pub is_open : Bool
  pub bytes : List ℕ

-- `os.ErrClosed`, `io.EOF` and `io.ErrUnexpectedEOF`.
pub data WalError : Type 0 where
  closed : WalError
  eof : WalError
  unexpected_eof : WalError

pub data Replayed : Type 0 where
  records : List (List ℕ) → Replayed
  fails : WalError → Replayed

-- `Open` of a file with these bytes.
abbrev pub open_file : List ℕ → Wal
open_file content = record { is_open = true; bytes = content }

unfoldable pub close : Wal → Wal
close w = record w { is_open = false }

-- The little-endian form of `uint32(n)`.
abbrev pub put_uint32 : ℕ → List ℕ
put_uint32 n =
    n % 256 ∷ n % 2 ^ 32 / 256 % 256 ∷ n % 2 ^ 32 / 65536 % 256 ∷ n % 2 ^ 32 / 16777216 ∷ []

abbrev pub uint32 : List ℕ → ℕ
uint32 (a ∷ b ∷ c ∷ d ∷ rest) = a + b * 256 + c * 65536 + d * 16777216
uint32 other = 0

-- What `Append` writes.
abbrev pub framed : List ℕ → List ℕ
framed b = put_uint32 (length b) ++ b

unfoldable pub append : Wal → List ℕ → Wal × Option WalError
append w b =
    if length b == 0
    then (w, none)
    else if w.is_open
    then (record w { bytes = w.bytes ++ framed b }, none)
    else (w, some closed)

pub data Read : Type 0 where
  full : List ℕ → List ℕ → Read
  short : WalError → Read

-- `io.ReadFull` of `n` bytes at the start of `bs`: the bytes and those after them.
abbrev pub read_full : ℕ → List ℕ → Read
read_full n bs =
    if leb n (length bs)
    then full (take n bs) (drop n bs)
    else if length bs == 0
    then short eof
    else short unexpected_eof

-- The body of the loop of `Replay`; `again` is the rest of the loop.
abbrev pub on_payload :
    (List ℕ → List (List ℕ) → Option Replayed) → List (List ℕ) → Read → Option Replayed
on_payload again out (short e) = some (fails e)
on_payload again out (full buf rest) = again rest (out ++ buf ∷ [])

abbrev pub on_length :
    (List ℕ → List (List ℕ) → Option Replayed) → List (List ℕ) → List ℕ → ℕ → Bool → Option Replayed
on_length again out rest n true = again rest out
on_length again out rest n false = on_payload again out (read_full n rest)

abbrev pub on_header :
    (List ℕ → List (List ℕ) → Option Replayed) → List (List ℕ) → Read → Option Replayed
on_header again out (short e) = some (records out)
on_header again out (full head rest) = on_length again out rest (uint32 head) (uint32 head == 0)

-- The loop, for at most so many rounds; `none` if it has not ended.
unfoldable pub replay_loop : ℕ → List ℕ → List (List ℕ) → Option Replayed
replay_loop zero bs out = none
replay_loop (suc rounds) bs out = on_header (replay_loop rounds) out (read_full 4 bs)

-- Every round reads four bytes at least, so that there are no more rounds than bytes, and one.
unfoldable pub replay : Wal → Option Replayed
replay w = if w.is_open then replay_loop (suc (length w.bytes)) w.bytes [] else some (fails closed)
