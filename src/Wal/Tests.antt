-- ===== src/Wal/Tests.antt =====
-- Runs of the log of persistence/wal.go.
use deqin_actor.Base.{ℕ, ◌≡◌, arith, if◌then◌else◌, ◌==◌, some, List, [], ◌∷◌, ◌++◌, length, take}
use deqin_actor.Wal.{
  open_file, put_uint32, append, replay, Replayed, records, fails, eof, unexpected_eof,
}
use deqin_actor.Wal.RoundTrip.{
  AllShort, append_all, wal_round_trip, wal_torn_payload, torn_log_unreadable,
}
use deqin_actor.Wal.Always.{wal_replay_returns}

abbrev two_records : List (List ℕ)
two_records = (1 ∷ 2 ∷ []) ∷ [] ∷ (7 ∷ []) ∷ []

two_records-AllShort : AllShort two_records
two_records-AllShort = (omega arith, (omega arith, (omega arith, tt)))

abbrev torn_record : List ℕ
torn_record = 8 ∷ 9 ∷ []

wal_round_trip_example :
    replay (open_file ((append_all (open_file []) two_records).bytes ++ (5 ∷ 0 ∷ [])))
    ≡ some (records ((1 ∷ 2 ∷ []) ∷ (7 ∷ []) ∷ []))
wal_round_trip_example = wal_round_trip two_records (5 ∷ 0 ∷ []) two_records-AllShort (omega arith)

wal_torn_payload_example :
    replay (
      open_file
        ((append_all (open_file []) two_records).bytes ++ (put_uint32 2 ++ take 1 torn_record)))
    ≡ some (fails (if length (take 1 torn_record) == 0 then eof else unexpected_eof))
wal_torn_payload_example =
    wal_torn_payload two_records torn_record 1 two_records-AllShort (omega arith) (omega arith)

torn_log_unreadable_example :
    replay (append (open_file ((append_all (open_file []) two_records).bytes ++ 5 ∷ [])) (3 ∷ [])).0
    ≡ some (fails unexpected_eof)
torn_log_unreadable_example =
    torn_log_unreadable two_records 5 (3 ∷ []) two_records-AllShort (omega arith) (omega arith)
      (omega arith)

wal_replay_returns_example :
    (r : Replayed) × (replay (open_file (1 ∷ 0 ∷ 0 ∷ 0 ∷ 9 ∷ 4 ∷ [])) ≡ some r)
wal_replay_returns_example = wal_replay_returns (open_file (1 ∷ 0 ∷ 0 ∷ 0 ∷ 9 ∷ 4 ∷ []))
