-- ===== src/Runs/Logs.antt =====
-- Runs of the segmented log: reading, recovery and retention.
use distributed_message_brok.Prelude.{
  ◌+◌, ◌*◌, ◌^◌, ◌≡◌, ◌∙◌, sym, ap, [], ◌∷◌, ◌++◌, append-nil, true, false, some, refl, arith, take,
  take-append, length, ok,
}
use distributed_message_brok.Bytes.{Bytes, crc32, lt_i64}
use distributed_message_brok.Format.{
  total_size, records_payload_size, record_payload_size, headers_size,
}
use distributed_message_brok.Storage.{Segment, Store}
use distributed_message_brok.Storage.SegmentFile.{log_bytes}
use distributed_message_brok.Storage.Batches.{
  Batch, batch_bytes, batch_size_ge, FitsLog, content, records_of,
}
use distributed_message_brok.Storage.Recover.{continuous, scan, later_timestamp}
use distributed_message_brok.Storage.Recovery.{scan-cut, ended}
use distributed_message_brok.Storage.Read.{Progress, take_records, scan_segment, read, segments}
use distributed_message_brok.Storage.Select.{select, finish, take_records-select}
use distributed_message_brok.Storage.Scanning.{scan_segment-content}
use distributed_message_brok.Storage.Fetch.{Held, Holds}
use distributed_message_brok.Storage.Log.{log_records}
use distributed_message_brok.Storage.Refine.{StoreHolds, read-select}
use distributed_message_brok.Storage.Retention.{
  RetentionIo, expire, shrink, apply_retention, delete_oldest, first_base, total_bytes, cutoff_of,
}
use distributed_message_brok.Storage.Expiry.{
  Shortened, NotExpired, WithinLimit, apply_retention-Shortened, expire-NotExpired,
  apply_retention-WithinLimit,
}
use distributed_message_brok.Runs.{first_record, second_record, both_fit}

abbrev pub a_batch : Batch
a_batch = record { first = first_record; rest = second_record ∷ [] }

abbrev a_file : Bytes
a_file = content crc32 (a_batch ∷ [])

abbrev a_segment : Segment
a_segment = record {
  base_offset = 0;
  next_offset = 2;
  size = length a_file;
  file = a_file;
  index_file = [];
  index_entries = (record { relative_offset = 0; position = 0 }) ∷ [];
  last_indexed_position = some 0;
  index_size = 12;
  index_dirty = false;
  active = true;
  max_timestamp = 1001;
  handles_closed = false;
}

abbrev pub held : Held
held = record { segment = a_segment; batches = a_batch ∷ [] }

abbrev pub a_store : Store
a_store = record {
  segment_max_bytes = 1000;
  max_batch_bytes = 500;
  index_interval_bytes = 100;
  sync_flush = true;
  closed = false;
  write_failed = false;
  closed_segments = [];
  active_segment = a_segment;
  log_end_offset = 2;
  earliest_offset = 0;
}

a_segment-Holds : Holds crc32 held
unfolding log_bytes records_of
a_segment-Holds = record {
  log = ap (take (length a_file)) (sym (append-nil a_file)) ∙ take-append a_file [];
  fits = (both_fit, tt);
  index = (
    record {
      before = [];
      after = a_batch ∷ [];
      split = refl;
      place = unfold content in refl;
      behind = tt;
    },
    tt,
  );
}

pub a_store-Holds : StoreHolds crc32 a_store (held ∷ [])
unfolding segments records_of
a_store-Holds = record {
  parts = refl;
  log = (
    a_segment-Holds,
    omega arith,
    (omega arith, omega arith, (omega arith, omega arith, tt)),
    (omega arith, (omega arith, tt)),
    refl,
  );
  is_open = refl;
  working = refl;
}

read-select_example : read crc32 1 100 a_store ≡ ok (select 100 1 (log_records (held ∷ [])))
read-select_example =
    read-select crc32 a_store (held ∷ []) 1 100 a_store-Holds (omega arith) (omega arith)
      (omega arith)

abbrev from_one : Progress
from_one = record { result = []; bytes = 0; current = 1 }

scan_segment-content_example :
    scan_segment crc32 100 (length a_file) a_file from_one
    ≡ ok (take_records 100 (records_of (a_batch ∷ [])) from_one)
scan_segment-content_example =
    scan_segment-content crc32 100 (a_batch ∷ []) (length a_file) from_one (both_fit, tt)
      (omega arith)

take_records-select_example :
    finish (take_records 100 (first_record ∷ second_record ∷ []) from_one)
    ≡ select 100 1 (first_record ∷ second_record ∷ [])
take_records-select_example =
    take_records-select 100 1 0 (first_record ∷ second_record ∷ [])
      (omega arith, omega arith, (omega arith, omega arith, tt))

pub a_batch-FitsLog : FitsLog 500 a_batch
unfolding total_size records_payload_size record_payload_size headers_size
a_batch-FitsLog = record { format = both_fit; small = omega arith }

-- The front of a batch, 30 bytes of it.
abbrev cut_off : Bytes
cut_off = take 30 (batch_bytes crc32 a_batch)

scan-cut_example :
    scan crc32 500 true (length (a_file ++ cut_off)) (a_file ++ cut_off) 0 0 0
    ≡ ended crc32 500 true
        (0 + length a_file)
        2
        (later_timestamp 0 (records_of (a_batch ∷ [])))
        cut_off
scan-cut_example =
    scan-cut crc32 500 true (a_batch ∷ []) a_batch 30 0 0 2 0
      (a_batch-FitsLog, unfold continuous in refl, refl) a_batch-FitsLog
      (omega (arith, batch_size_ge a_batch))

abbrev deletes : RetentionIo
deletes = record {
  by_age =
      λ s. record { remove_log = true; remove_index = true; close = true; sync_directory = true };
  by_size =
      λ s. record { remove_log = true; remove_index = true; close = true; sync_directory = true };
  stat = λ ss. true;
}

-- A store with a closed segment of the time 1001 ms.
abbrev two_segments : Store
two_segments = record a_store {
  closed_segments = a_segment ∷ [];
  active_segment = record a_segment {
    base_offset = 2;
    next_offset = 2;
    size = 0;
    file = [];
    index_entries = [];
  };
}

apply_retention-Shortened_example :
    Shortened two_segments
      (apply_retention deletes (5000 * 10 ^ 6) (1000 * 10 ^ 6) 0 two_segments).0
apply_retention-Shortened_example =
    apply_retention-Shortened deletes (5000 * 10 ^ 6) (1000 * 10 ^ 6) 0 two_segments
      (unfold first_base in refl)

expires : (expire deletes 4000 (a_segment ∷ []) two_segments).1 ≡ true
unfolding expire delete_oldest lt_i64
expires = refl

expire-NotExpired_example :
    NotExpired 4000 (expire deletes 4000 (a_segment ∷ []) two_segments).0.closed_segments
expire-NotExpired_example =
    expire-NotExpired deletes 4000 (a_segment ∷ []) two_segments refl expires

applies : (apply_retention deletes (5000 * 10 ^ 6) (1000 * 10 ^ 6) 50 two_segments).1 ≡ true
unfolding apply_retention expire shrink delete_oldest lt_i64 cutoff_of total_bytes
applies = refl

apply_retention-WithinLimit_example :
    WithinLimit 50
      (apply_retention deletes (5000 * 10 ^ 6) (1000 * 10 ^ 6) 50 two_segments).0.active_segment
      (apply_retention deletes (5000 * 10 ^ 6) (1000 * 10 ^ 6) 50 two_segments).0.closed_segments
apply_retention-WithinLimit_example =
    apply_retention-WithinLimit deletes (5000 * 10 ^ 6) (1000 * 10 ^ 6) 50 two_segments refl refl
      applies
