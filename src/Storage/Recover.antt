-- ===== src/Storage/Recover.antt =====
-- OpenStore and recoverSegment of internal/storage/store.go.
use distributed_message_brok.Prelude.{
  ℕ, zero, suc, ◌+◌, ◌%◌, ◌^◌, List, [], ◌∷◌, ◌++◌, Option, none, some, Bool, true, false, not,
  ◌&&◌, ◌||◌, length, take, drop, ltb, leb, ◌==◌, if◌then◌else◌, Result, ok, err, panic, ◌>>=◌,
  ◌>>◌, ensure,
}
use distributed_message_brok.Bytes.{Bytes, Checksum, get_be, eq_bytes, lt_i64}
use distributed_message_brok.Model.{StoredRecord}
use distributed_message_brok.Format.{
  FormatError, corrupt_batch, unsupported_version, malformed_magic, magic_bytes,
  minimum_batch_remainder,
}
use distributed_message_brok.Format.Decode.{slice, decode_batch}
use distributed_message_brok.Storage.{
  StoreError, format, batch_too_large, empty_record_batch, offset_discontinuity, truncated_batch,
  io_error, IndexEntry, Segment, Store,
}
use distributed_message_brok.Storage.SegmentFile.{new_segment}
use distributed_message_brok.Storage.Index.{
  read_index_entries, validate_index_entries, rebuild_index,
}

unfoldable pub decoded :
    Result FormatError (List StoredRecord) → Result StoreError (List StoredRecord)
decoded (ok rs) = ok rs
decoded (err e) = err (format e)
decoded panic = panic

-- What stands at a position of a log file: the file ends inside a batch, or a whole batch.
pub data Found : Type 0 where
  torn : Found
  batch : ℕ → List StoredRecord → Found

unfoldable pub not_empty : List StoredRecord → Bool
not_empty [] = false
not_empty (r ∷ rs) = true

unfoldable pub read_batch : Checksum → ℕ → Bytes → Result StoreError Found
unfolding decoded not_empty
read_batch crc max_batch_bytes rest = if ltb (length rest) 9 then ok torn else do
  ensure (eq_bytes (slice 0 4 rest) magic_bytes) (format malformed_magic)
  ensure (get_be (slice 4 5 rest) == 1) (format unsupported_version)
  let batch_length = get_be (slice 5 9 rest)
  ensure (leb minimum_batch_remainder batch_length) (format corrupt_batch)
  let total = 9 + batch_length
  ensure (leb total max_batch_bytes) batch_too_large
  if ltb (length rest) total then ok torn else do
    recs ← decoded (decode_batch crc (take total rest))
    ensure (not_empty recs) empty_record_batch
    ok (batch total recs)

-- The records of a batch carry consecutive offsets from `expected` on.
unfoldable pub continuous : ℕ → List StoredRecord → Bool
continuous expected [] = true
continuous expected (r ∷ rs) = r.offset == expected && continuous ((expected + 1) % 2 ^ 64) rs

unfoldable pub later_timestamp : ℕ → List StoredRecord → ℕ
later_timestamp acc [] = acc
later_timestamp acc (r ∷ rs) =
    later_timestamp (if lt_i64 acc r.timestamp then r.timestamp else acc) rs

-- What the loop of recoverSegment finds.
pub record Scan : Type 0 where
  pub valid_size : ℕ
  pub next_offset : ℕ
  pub max_timestamp : ℕ
  pub is_torn : Bool

-- The loop, on the bytes of the file from `pos` on. A torn tail ends it in the active segment and
-- is an error in any other. Every round takes 33 bytes or more, so the number of bytes is enough
-- fuel.
unfoldable pub scan : Checksum → ℕ → Bool → ℕ → Bytes → ℕ → ℕ → ℕ → Result StoreError Scan
scan crc max_batch active fuel [] pos expected max_ts =
    ok
      (record { valid_size = pos; next_offset = expected; max_timestamp = max_ts; is_torn = false })
scan crc max_batch active zero (b ∷ bs) pos expected max_ts = panic
scan crc max_batch active (suc fuel) (b ∷ bs) pos expected max_ts = do
  found ← read_batch crc max_batch (b ∷ bs)
  elim found [
    | torn ↦
        if active
        then ok (record {
          valid_size = pos;
          next_offset = expected;
          max_timestamp = max_ts;
          is_torn = true;
        })
        else err truncated_batch
    | batch n recs ↦ do
      ensure (continuous expected recs) offset_discontinuity
      scan crc max_batch active fuel (drop n (b ∷ bs)) (pos + n) ((expected + length recs) % 2 ^ 64)
          (later_timestamp max_ts recs)
  ]

-- What the file operations of a recovery come to: opening the two files, truncating the log, and
-- writing a new index.
pub record RecoverIo : Type 0 where
  pub opens : Bool
  pub truncate : Bool
  pub rebuild : Bool

-- The position of the last entry, if there is one.
unfoldable pub last_position : Option ℕ → List IndexEntry → Option ℕ
last_position last [] = last
last_position last (e ∷ es) = last_position (some e.position) es

-- The index of a recovered log: the one on disk, or a new one.
unfoldable pub recover_index : ℕ → RecoverIo → Segment → ℕ → Result StoreError Segment
recover_index interval io s valid_size =
    let rebuilt = rebuild_index interval io.rebuild s valid_size in
    elim (read_index_entries s) [
      | none ↦ rebuilt
      | some es ↦
          if validate_index_entries s valid_size es
          then ok (record s {
            index_entries = es;
            last_indexed_position = last_position s.last_indexed_position es;
          })
          else rebuilt
    ]

-- recoverSegment, and the assignment of nextOffset behind its call.
unfoldable pub recover_segment : Checksum → ℕ → ℕ → RecoverIo → Segment → Result StoreError Segment
recover_segment crc max_batch interval io s = do
  found ← scan crc max_batch s.active (length s.file) s.file 0 s.base_offset s.max_timestamp
  ensure (not found.is_torn || io.truncate) io_error
  s' ←
      recover_index interval io
        (record s {
          file = if found.is_torn then take found.valid_size s.file else s.file;
          size = if found.is_torn then found.valid_size else s.size;
          max_timestamp = found.max_timestamp;
        })
        found.valid_size
  ok (record s' { next_offset = found.next_offset })

-- The pair of files of a segment in the directory, by the base offset in their names.
pub record SegmentFiles : Type 0 where
  pub base : ℕ
  pub log : Bytes
  pub index : Bytes
  pub io : RecoverIo

-- sort.Slice on the base offsets
unfoldable pub insert_files : SegmentFiles → List SegmentFiles → List SegmentFiles
insert_files f [] = f ∷ []
insert_files f (g ∷ gs) = if leb f.base g.base then f ∷ (g ∷ gs) else g ∷ insert_files f gs

unfoldable pub sort_files : List SegmentFiles → List SegmentFiles
sort_files [] = []
sort_files (f ∷ fs) = insert_files f (sort_files fs)

unfoldable pub is_last : List SegmentFiles → Bool
is_last [] = true
is_last (f ∷ fs) = false

-- The loop over the segments, in order of their base offsets; the last one is active. The closed
-- segments come back with the active one.
unfoldable pub open_segments :
    Checksum
    → ℕ
    → ℕ
    → List Segment
    → ℕ
    → SegmentFiles
    → List SegmentFiles
    → Result StoreError (List Segment × Segment)
unfolding is_last
open_segments crc max_batch interval before expected f [] = do
  ensure (f.base == expected) offset_discontinuity
  ensure f.io.opens io_error
  s ← recover_segment crc max_batch interval f.io (new_segment f.base true f.log f.index)
  ok (before, s)
open_segments crc max_batch interval before expected f (g ∷ gs) = do
  ensure (f.base == expected) offset_discontinuity
  ensure f.io.opens io_error
  s ← recover_segment crc max_batch interval f.io (new_segment f.base false f.log f.index)
  open_segments crc max_batch interval (before ++ (s ∷ [])) s.next_offset g gs

-- The settings that OpenStore takes.
pub record Settings : Type 0 where
  pub segment_max_bytes : ℕ
  pub max_batch_bytes : ℕ
  pub index_interval_bytes : ℕ
  pub sync_flush : Bool

unfoldable pub store_of : Settings → List Segment → Segment → ℕ → ℕ → Store
store_of cfg closed active earliest end = record {
  segment_max_bytes = cfg.segment_max_bytes;
  max_batch_bytes = cfg.max_batch_bytes;
  index_interval_bytes = cfg.index_interval_bytes;
  sync_flush = cfg.sync_flush;
  closed = false;
  write_failed = false;
  closed_segments = closed;
  active_segment = active;
  log_end_offset = end;
  earliest_offset = earliest;
}

-- OpenStore on the segment files of the directory. `first` is for a directory without a log file: what
-- the index file of the first segment holds, nothing unless one was left over, or `none` if NewSegment
-- fails.
unfoldable pub open_sorted :
    Checksum → Settings → Option Bytes → List SegmentFiles → Result StoreError Store
unfolding store_of
open_sorted crc cfg first [] = elim first [
  | none ↦ err io_error
  | some index ↦ ok (store_of cfg [] (new_segment 0 true [] index) 0 0)
]
open_sorted crc cfg first (f ∷ fs) = do
  (closed, active) ← open_segments crc cfg.max_batch_bytes cfg.index_interval_bytes [] f.base f fs
  ok (store_of cfg closed active f.base active.next_offset)

unfoldable pub open_store :
    Checksum → Settings → Option Bytes → List SegmentFiles → Result StoreError Store
open_store crc cfg first fs = open_sorted crc cfg first (sort_files fs)
