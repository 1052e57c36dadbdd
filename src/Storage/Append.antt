-- ===== src/Storage/Append.antt =====
-- Append and Close of internal/storage/store.go.
use distributed_message_brok.Prelude.{
  ℕ, ◌+◌, ◌-◌, ◌%◌, ◌^◌, List, [], ◌∷◌, ◌++◌, Option, none, some, Bool, true, false, not, ◌&&◌,
  length, ltb, leb, if◌then◌else◌, Result, ok, err, panic,
}
use distributed_message_brok.Bytes.{Bytes, Checksum, lt_i64}
use distributed_message_brok.File.{Write}
use distributed_message_brok.Model.{Record, StoredRecord}
use distributed_message_brok.Format.{encode_batch}
use distributed_message_brok.Storage.{
  StoreError, store_closed, store_corrupt, batch_too_large, index_offset_overflow, empty_append,
  io_error, format, IndexEntry, Segment, Store,
}
use distributed_message_brok.Storage.SegmentFile.{
  new_segment, append_data, append_index_entry, FlushIo, flush, close,
}
use distributed_message_brok.Storage.Index.{should_index}

-- What the environment gives to one Append: the clock in milliseconds (an int64), and what the file
-- operations come to, in the order of the calls. `new_files` are the contents of the two files that
-- NewSegment opens, or `none` if it fails.
pub record AppendIo : Type 0 where
  pub now : ℕ
  pub roll_flush : FlushIo
  pub new_files : Option (Bytes × Bytes)
  pub write : Write
  pub index_write : Write
  pub flush : FlushIo

-- The offsets are uint64s.
unfoldable pub stored_records : ℕ → ℕ → List Record → List StoredRecord
stored_records offset now [] = []
stored_records offset now (r ∷ rs) =
    record { offset = offset; timestamp = now; key = r.key; value = r.value; headers = r.headers }
    ∷ stored_records ((offset + 1) % 2 ^ 64) now rs

-- The new segment of a rollover.
unfoldable pub roll_to : Option (Bytes × Bytes) → Store → Store × Bool
roll_to none s = (record s { write_failed = true }, false)
roll_to (some (log, index)) s = (
  record s {
    closed_segments = s.closed_segments ++ (s.active_segment ∷ []);
    active_segment = new_segment s.log_end_offset true log index;
  },
  true,
)

-- Step 3: the rollover; false is an error, after which writeFailed is set.
unfoldable pub roll : AppendIo → ℕ → Store → Store × Bool
roll io batch_size s =
    if ltb 0 s.active_segment.size && ltb s.segment_max_bytes (s.active_segment.size + batch_size)
    then (let (a, flushed) = flush io.roll_flush s.active_segment in
        if flushed
        then roll_to io.new_files (record s { active_segment = record a { active = false } })
        else (record s { active_segment = a; write_failed = true }, false))
    else (s, true)

-- Step 6: the flush policy.
unfoldable pub flush_policy : AppendIo → ℕ × ℕ → Store → Store × Result StoreError (ℕ × ℕ)
flush_policy io offsets s =
    let (a, flushed) = flush io.flush s.active_segment in
    if s.sync_flush
    then (if flushed
        then (record s { active_segment = a }, ok offsets)
        else (record s { active_segment = a; write_failed = true }, err io_error))
    else (s, ok offsets)

-- Behind the write to the log: timestamps, offsets, and step 5, the index entry.
unfoldable pub advance : AppendIo → ℕ → ℕ → ℕ → Segment → Store → Store
advance io relative pos next a s =
    let a1 = record a {
      max_timestamp = if lt_i64 a.max_timestamp io.now then io.now else a.max_timestamp;
      next_offset = next;
    } in
    let entry : IndexEntry = record { relative_offset = relative % 2 ^ 32; position = pos } in
    record s {
      active_segment =
          if should_index a.index_entries a.last_indexed_position pos s.index_interval_bytes
          then append_index_entry io.index_write entry a1
          else a1;
      log_end_offset = next;
    }

-- From the check of the relative offset on, in the active segment after the rollover.
unfoldable pub append_active : AppendIo → ℕ → Bytes → Store → Store × Result StoreError (ℕ × ℕ)
append_active io count encoded s =
    let base = s.log_end_offset in
    let pos = s.active_segment.size in
    let relative = (base + 2 ^ 64 - s.active_segment.base_offset) % 2 ^ 64 in
    let last = (base + count + 2 ^ 64 - 1) % 2 ^ 64 in
    let (a, done) = append_data io.write encoded s.active_segment in
    if leb (2 ^ 32) relative
    then (record s { write_failed = true }, err index_offset_overflow)
    else if not done
    then (record s { active_segment = a; write_failed = true }, err io_error)
    else flush_policy io (base, last) (advance io relative pos ((last + 1) % 2 ^ 64) a s)

unfoldable pub append_encoded : AppendIo → ℕ → Bytes → Store → Store × Result StoreError (ℕ × ℕ)
append_encoded io count encoded s =
    let (s', rolled) = roll io (length encoded) s in
    if ltb s.max_batch_bytes (length encoded)
    then (s, err batch_too_large)
    else if rolled
    then append_active io count encoded s'
    else (s', err io_error)

-- Append
unfoldable pub append :
    Checksum → AppendIo → List Record → Store → Store × Result StoreError (ℕ × ℕ)
append crc io [] s = (s, err empty_append)
append crc io (r ∷ rs) s =
    if s.closed
    then (s, err store_closed)
    else if s.write_failed
    then (s, err store_corrupt)
    else elim (encode_batch crc (stored_records s.log_end_offset io.now (r ∷ rs))) [
      | ok encoded ↦ append_encoded io (length (r ∷ rs)) encoded s
      | err e ↦ (s, err (format e))
      | panic ↦ (s, panic)
    ]

-- The Close of each segment; true if none failed.
unfoldable pub close_all : (Segment → Bool) → List Segment → List Segment × Bool
close_all closes [] = ([], true)
close_all closes (s ∷ ss) =
    let (s', done) = close (closes s) s in
    let (ss', rest) = close_all closes ss in (s' ∷ ss', done && rest)

-- Close
unfoldable pub close_store :
    FlushIo → (Segment → Bool) → Store → Store × Result StoreError (Unit {0})
unfolding close_all
close_store io closes s =
    let (a, flushed) = flush io s.active_segment in
    let (ss, done) = close_all closes s.closed_segments in
    let (a', last) = close (closes s.active_segment) a in
    if s.closed then (s, ok tt) else (
      record s { closed = true; closed_segments = ss; active_segment = a' },
      if flushed && (done && last) then ok tt else err io_error,
    )
