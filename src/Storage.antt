-- ===== src/Storage.antt =====
-- The segmented log of a partition, internal/storage: what its parts share.
pub mod SegmentFile
pub mod Index
pub mod Recover
pub mod Append
pub mod Read
pub mod Retention
pub mod Assign
pub mod Expiry
pub mod Batches
pub mod Recovery
pub mod Search
pub mod Select
pub mod Scanning
pub mod Fetch
pub mod Log
pub mod Refine
pub mod Stored
pub mod Consistent
pub mod Extend
pub mod Grow
pub mod Keep
pub mod Trim
pub mod History
pub mod Succeed
pub mod Sound
pub mod Rebuild
pub mod Validate
pub mod Reopen
pub mod Restart
use distributed_message_brok.Prelude.{ℕ, Bool, Option, List}
use distributed_message_brok.Bytes.{Bytes}
use distributed_message_brok.Format.{FormatError}

-- The sentinel errors of store.go and the errors without a name. `format` is a decoding error that
-- is passed on, and `io_error` stands for what a file operation returned.
pub data StoreError : Type 0 where
  store_closed offset_out_of_range batch_too_large store_corrupt index_offset_overflow : StoreError
  format : FormatError → StoreError
  empty_append bad_max_bytes truncated_batch empty_record_batch offset_discontinuity io_error :
      StoreError

pub record IndexEntry : Type 0 where
  pub relative_offset : ℕ
  pub position : ℕ

-- A segment with the contents of its two files. `last_indexed_position` is `none` for -1;
-- `max_timestamp` is an int64 pattern.
pub record Segment : Type 0 where
  pub base_offset : ℕ
  pub next_offset : ℕ
  pub size : ℕ
  pub file : Bytes
  pub index_file : Bytes
  pub index_entries : List IndexEntry
  pub last_indexed_position : Option ℕ
  pub index_size : ℕ
  pub index_dirty : Bool
  pub active : Bool
  pub max_timestamp : ℕ
  pub handles_closed : Bool

-- s.segments is `closed_segments` and behind them the active segment, which the code keeps as the
-- last one.
pub record Store : Type 0 where
  pub segment_max_bytes : ℕ
  pub max_batch_bytes : ℕ
  pub index_interval_bytes : ℕ
  pub sync_flush : Bool
  pub closed : Bool
  pub write_failed : Bool
  pub closed_segments : List Segment
  pub active_segment : Segment
  pub log_end_offset : ℕ
  pub earliest_offset : ℕ
