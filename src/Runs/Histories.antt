-- ===== src/Runs/Histories.antt =====
-- Runs of the segmented log over several operations.
use distributed_message_brok.Prelude.{
  ◌^◌, ◌+◌, ◌≡◌, ◌<◌, [], ◌∷◌, true, refl, arith, ok, length, List, some,
}
use distributed_message_brok.Bytes.{put_u32, put_u64}
use distributed_message_brok.File.{is_complete}
use distributed_message_brok.Model.{Record, StoredRecord}
use distributed_message_brok.Format.{
  encode_batch, frame, checked_part, encode_records, encode_record, encode_headers, encode_slice,
  total_size, records_payload_size, record_payload_size, headers_size,
}
use distributed_message_brok.Storage.{Store}
use distributed_message_brok.Storage.SegmentFile.{
  new_segment, append_data, append_index_entry, flush, flush_index,
}
use distributed_message_brok.Storage.Index.{should_index}
use distributed_message_brok.Storage.Recover.{
  Settings, store_of, open_store, open_sorted, sort_files,
}
use distributed_message_brok.Storage.Append.{
  stored_records, roll, flush_policy, advance, append_active, append_encoded, append,
}
use distributed_message_brok.Storage.Read.{read}
use distributed_message_brok.Storage.Select.{select}
use distributed_message_brok.Storage.Retention.{RetentionIo, apply_retention}
use distributed_message_brok.Storage.Trim.{Kept}
use distributed_message_brok.Storage.History.{
  History, created, appended, trimmed, History-Kept, History-read,
}
use distributed_message_brok.Storage.Succeed.{Works, append-succeeds}
use distributed_message_brok.Runs.Appends.{no_checksum, a_record, all_well, all_well-Fresh}

abbrev pub settings : Settings
settings = record {
  segment_max_bytes = 1000;
  max_batch_bytes = 500;
  index_interval_bytes = 100;
  sync_flush = true;
}

abbrev empty_store : Store
empty_store = store_of settings [] (new_segment 0 true [] []) 0 0

abbrev two_records : List Record
two_records = a_record ∷ a_record ∷ []

abbrev grown_store : Store
grown_store = (append no_checksum all_well two_records empty_store).0

opens_empty : open_store no_checksum settings (some []) [] ≡ ok empty_store
unfolding open_store open_sorted sort_files
opens_empty = refl

grows : (append no_checksum all_well two_records empty_store).1 ≡ ok (0, 1)
unfolding append stored_records encode_batch append_encoded roll append_active append_data
    is_complete frame checked_part encode_records encode_record encode_headers encode_slice put_u32
    put_u64 flush_policy flush flush_index advance append_index_entry should_index store_of
    new_segment
grows = refl

abbrev two_stored : List StoredRecord
two_stored = stored_records 0 1000 two_records

empty_limit : empty_store.max_batch_bytes < 2 ^ 31
unfolding store_of
empty_limit = omega arith

empty_room : empty_store.log_end_offset + length two_records < 2 ^ 64
unfolding store_of
empty_room = omega arith

-- Two records appended to an empty store, and a retention that keeps them.
two_appended : History no_checksum grown_store two_stored
unfolding store_of
two_appended =
    appended all_well two_records empty_store [] (0, 1) empty_limit (omega arith) empty_room
      all_well-Fresh grows (created settings [] empty_store opens_empty)

abbrev pub deletes : RetentionIo
deletes = record {
  by_age =
      λ s. record { remove_log = true; remove_index = true; close = true; sync_directory = true };
  by_size =
      λ s. record { remove_log = true; remove_index = true; close = true; sync_directory = true };
  stat = λ ss. true;
}

two_left : History no_checksum (apply_retention deletes 5000 1000 10 grown_store).0 two_stored
two_left = trimmed deletes 5000 1000 10 grown_store two_stored two_appended

History-Kept_example :
    Kept no_checksum 0 (apply_retention deletes 5000 1000 10 grown_store).0 two_stored
History-Kept_example =
    History-Kept no_checksum (apply_retention deletes 5000 1000 10 grown_store).0 two_stored
      two_left

grown_end : grown_store.log_end_offset ≡ 2
unfolding append stored_records encode_batch append_encoded roll append_active append_data
    is_complete frame checked_part encode_records encode_record encode_headers encode_slice put_u32
    put_u64 flush_policy flush flush_index advance append_index_entry should_index store_of
    new_segment
grown_end = refl

grown_start : grown_store.earliest_offset ≡ 0
unfolding append stored_records encode_batch append_encoded roll append_active append_data
    is_complete frame checked_part encode_records encode_record encode_headers encode_slice put_u32
    put_u64 flush_policy flush flush_index advance append_index_entry should_index store_of
    new_segment
grown_start = refl

History-read_example : read no_checksum 1 100 grown_store ≡ ok (select 100 1 two_stored)
History-read_example =
    History-read no_checksum grown_store two_stored 1 100 two_appended (omega arith)
      (omega (arith, grown_start)) (omega (arith, grown_end))

all_succeed : Works all_well
all_succeed = record {
  files = ([], []);
  creates = refl;
  writes = refl;
  roll_log = refl;
  roll_index = refl;
  log = refl;
  index = refl;
}

append-succeeds_example :
    (append no_checksum all_well (a_record ∷ a_record ∷ []) empty_store).1 ≡ ok (0, 1)
unfolding store_of new_segment total_size records_payload_size record_payload_size headers_size
    stored_records
append-succeeds_example =
    append-succeeds no_checksum all_well a_record (a_record ∷ []) empty_store all_succeed refl refl
      (omega arith) (omega arith) (omega arith) (omega arith)
