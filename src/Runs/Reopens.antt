-- ===== src/Runs/Reopens.antt =====
-- Runs of OpenStore on files that hold batches.
use distributed_message_brok.Prelude.{
  ℕ, zero, suc, ◌≡◌, ◌+◌, Bool, not, ◌&&◌, take, drop, [], ◌∷◌, ◌++◌, true, refl, arith, length, ok,
  some,
}
use distributed_message_brok.Bytes.{Bytes, lt_i64, sub_i64, eq_bytes, put_u32, put_u64}
use distributed_message_brok.Format.{
  magic_bytes, frame, checked_part, encode_records, encode_record, encode_headers, encode_slice,
  total_size, records_payload_size, record_payload_size, encode_header, max_timestamp,
}
use distributed_message_brok.Storage.{Store}
use distributed_message_brok.Storage.Recover.{
  continuous, SegmentFiles, sort_files, insert_files, open_store,
}
use distributed_message_brok.Storage.Batches.{content, records_of, batch_bytes, batch_size_ge}
use distributed_message_brok.Storage.Grow.{Logs}
use distributed_message_brok.Storage.Validate.{MagicAtBatches}
use distributed_message_brok.Storage.Restart.{FileHolds, CutOff, disk_records, open_store-Logs}
use distributed_message_brok.Runs.Logs.{a_batch, a_batch-FitsLog}
use distributed_message_brok.Runs.Appends.{no_checksum}
use distributed_message_brok.Runs.Histories.{settings}

abbrev a_tail : Bytes
a_tail = take 30 (batch_bytes no_checksum a_batch)

-- One segment with a batch of two records, 30 bytes of another one, and an index entry.
abbrev a_pair : SegmentFiles
a_pair = record {
  base = 0;
  log = content no_checksum (a_batch ∷ []) ++ a_tail;
  index = put_u32 0 ++ put_u64 0;
  io = record { opens = true; truncate = true; rebuild = true };
}

abbrev two_offsets : ℕ
two_offsets = 0 + length (records_of (a_batch ∷ []))

two : two_offsets ≡ 2
unfolding records_of
two = refl

-- Whether the magic bytes stand nowhere in some bytes.
no_magic : Bytes → Bool
no_magic [] = true
no_magic (b ∷ bs) = not (eq_bytes (take 4 (b ∷ bs)) magic_bytes) && no_magic bs

no_magic_lem :
    (bs : Bytes) (p : ℕ) → no_magic bs ≡ true → eq_bytes (take 4 (drop p bs)) magic_bytes ≡ true → ⊥
unfolding no_magic eq_bytes
no_magic_lem [] zero h e = cc
no_magic_lem [] (suc p) h e = cc
no_magic_lem (b ∷ bs) zero h e = ground arith
no_magic_lem (b ∷ bs) (suc p) h e = no_magic_lem bs p (ground arith) e

only_first :
    (bs : Bytes) (p : ℕ)
    → no_magic (drop 1 bs) ≡ true
    → eq_bytes (take 4 (drop p bs)) magic_bytes ≡ true
    → p ≡ 0
unfolding no_magic eq_bytes
only_first bs zero h e = refl
only_first [] (suc p) h e = cc
only_first (b ∷ bs) (suc p) h e = absurd (no_magic_lem bs p h e)

magic_once : no_magic (drop 1 (content no_checksum (a_batch ∷ []))) ≡ true
unfolding no_magic eq_bytes content frame checked_part encode_records encode_record encode_headers
    encode_slice put_u32 put_u64 total_size records_payload_size record_payload_size encode_header
    max_timestamp lt_i64 sub_i64
magic_once = refl

magic_at_batches : MagicAtBatches no_checksum (a_batch ∷ [])
unfolding content
magic_at_batches p room e = record {
  before = [];
  here = a_batch;
  after = [];
  split = refl;
  place = only_first (content no_checksum (a_batch ∷ [])) p magic_once e;
}

pair_holds : FileHolds no_checksum 500 0 a_pair (a_batch ∷ []) a_tail
unfolding records_of continuous
pair_holds = record {
  base = refl;
  log = refl;
  chain = (a_batch-FitsLog, refl, refl);
  room = omega arith;
  near = omega arith;
  magic = magic_at_batches;
  works = record { opens = refl; truncates = refl; rebuilds = refl };
}

one_file : sort_files (a_pair ∷ []) ≡ a_pair ∷ []
unfolding sort_files insert_files
one_file = refl

front_of_batch : CutOff no_checksum 500 a_tail
front_of_batch = record {
  batch = a_batch;
  kept = 30;
  fits = a_batch-FitsLog;
  shorter = omega (arith, batch_size_ge a_batch);
  front = refl;
}

open_store-Logs_example :
    (s : Store) × (open_store no_checksum settings (some []) (a_pair ∷ []) ≡ ok s)
    × Logs no_checksum s (disk_records [] (a_batch ∷ []))
open_store-Logs_example =
    open_store-Logs no_checksum settings (some []) (a_pair ∷ []) 0 a_pair [] [] (a_batch ∷ [])
      a_tail one_file (pair_holds, front_of_batch)
