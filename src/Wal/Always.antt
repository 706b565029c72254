-- ===== src/Wal/Always.antt =====
-- What holds of the log of persistence/wal.go for every file.
use deqin_actor.Base.{
  ℕ, zero, suc, ◌≤◌, ◌<◌, ◌≡◌, inl, inr, refl, arith, if◌then◌else◌, ◌==◌, Bool-cases, Bool, true,
  false, Option, none, some, List, [], ◌∷◌, ◌++◌, length, take, drop, dec_le,
}
use deqin_actor.Wal.{
  Wal, closed, close, append, replay, replay_loop, Replayed, records, fails, read_full, on_payload,
  on_length, uint32,
}
use deqin_actor.Wal.Codec.{length-drop, read_full-enough, read_full-short, replay_loop-end}

payload-returns :
    (again : List ℕ → List (List ℕ) → Option Replayed) (out : List (List ℕ)) (n : ℕ) (tail : List ℕ)
    → ((rest : List ℕ) (out' : List (List ℕ))
        → length rest ≤ length tail
        → (r : Replayed) × (again rest out' ≡ some r))
    → (r : Replayed) × (on_payload again out (read_full n tail) ≡ some r)
payload-returns again out n tail ih = elim (dec_le n (length tail)) [
  | yes h ↦
      rw (read_full-enough n tail h)
        (ih (drop n tail) (out ++ take n tail ∷ []) (omega (arith, length-drop n tail h)))
  | no h ↦ rw (read_full-short n tail (omega arith)) (fails _, refl)
]

length-returns :
    (again : List ℕ → List (List ℕ) → Option Replayed) (out : List (List ℕ)) (n : ℕ) (tail : List ℕ)
    (b : Bool)
    → ((rest : List ℕ) (out' : List (List ℕ))
        → length rest ≤ length tail
        → (r : Replayed) × (again rest out' ≡ some r))
    → (r : Replayed) × (on_length again out tail n b ≡ some r)
length-returns again out n tail true ih = ih tail out (omega arith)
length-returns again out n tail false ih = payload-returns again out n tail ih

replay_loop-returns :
    (rounds : ℕ) (bs : List ℕ) (out : List (List ℕ))
    → length bs < rounds
    → (r : Replayed) × (replay_loop rounds bs out ≡ some r)
unfolding replay_loop
replay_loop-returns zero bs out h = absurd (omega arith)
replay_loop-returns (suc rounds) bs out h = elim (dec_le 4 (length bs)) [
  | yes four ↦ rw (read_full-enough 4 bs four) (
      length-returns (replay_loop rounds) out (uint32 (take 4 bs)) (drop 4 bs)
        (uint32 (take 4 bs) == 0)
        (λ rest out' le.
          replay_loop-returns rounds rest out' (omega (arith, length-drop 4 bs four))))
  | no few ↦ (records out, replay_loop-end rounds bs out (omega arith))
]

-- `Replay` returns on every file, well formed or not: each round of its loop takes four bytes.
pub wal_replay_returns : (w : Wal) → (r : Replayed) × (replay w ≡ some r)
unfolding replay
wal_replay_returns w = elim (Bool-cases w.is_open) [
  | inl e ↦ rw e (replay_loop-returns (suc (length w.bytes)) w.bytes [] (omega arith))
  | inr e ↦ rw e (fails closed, refl)
]

-- After `Close`, a log refuses every record that is not empty and every `Replay`, and keeps its
-- file; an empty record is still reported as written.
wal_closed :
    (w : Wal) (b : List ℕ)
    → (append (close w) b ≡ (close w, if length b == 0 then none else some closed))
      × (replay (close w) ≡ some (fails closed))
      × ((close w).bytes ≡ w.bytes)
unfolding append replay close
wal_closed w b = elim (Bool-cases (length b == 0)) [
  | inl e ↦ rw e (refl, refl, refl)
  | inr e ↦ rw e (refl, refl, refl)
]
