-- ===== src/Runs/Appends.antt =====
-- Runs of Append on the segmented log.
use distributed_message_brok.Prelude.{
  ◌≡◌, ◌⊎◌, [], ◌∷◌, true, false, none, some, refl, arith, ok, err,
}
use distributed_message_brok.Bytes.{Checksum, put_u32, put_u64}
use distributed_message_brok.File.{complete, failed, is_complete}
use distributed_message_brok.Model.{Record}
use distributed_message_brok.Format.{
  encode_batch, frame, checked_part, encode_records, encode_record, encode_headers, encode_slice,
}
use distributed_message_brok.Storage.{Store, io_error, store_corrupt}
use distributed_message_brok.Storage.SegmentFile.{
  append_data, append_index_entry, flush, flush_index,
}
use distributed_message_brok.Storage.Index.{should_index}
use distributed_message_brok.Storage.Append.{
  AppendIo, stored_records, roll, flush_policy, advance, append_active, append_encoded, append,
}
use distributed_message_brok.Storage.Read.{read}
use distributed_message_brok.Storage.Grow.{Fresh}
use distributed_message_brok.Storage.Assign.{
  Assigned, append-Assigned, append-failed, append-unavailable,
}

-- A checksum that is fast to evaluate.
abbrev pub no_checksum : Checksum
no_checksum = record { ieee = λ bs. 0; ieee_lt = λ bs. omega arith }

abbrev pub a_record : Record
a_record = record { key = none; value = some (1 ∷ []); headers = []; timestamp = 7 }

abbrev pub all_well : AppendIo
all_well = record {
  now = 1000;
  roll_flush = record { log = true; index = true };
  new_files = some ([], []);
  write = complete;
  index_write = complete;
  flush = record { log = true; index = true };
}

pub all_well-Fresh : Fresh all_well.new_files
all_well-Fresh files e = cc

abbrev disk_full : AppendIo
disk_full = record all_well { write = failed 10 }

abbrev pub new_store : Store
new_store = record {
  segment_max_bytes = 1000;
  max_batch_bytes = 500;
  index_interval_bytes = 100;
  sync_flush = true;
  closed = false;
  write_failed = false;
  closed_segments = [];
  active_segment = record {
    base_offset = 0;
    next_offset = 0;
    size = 0;
    file = [];
    index_file = [];
    index_entries = [];
    last_indexed_position = none;
    index_size = 0;
    index_dirty = false;
    active = true;
    max_timestamp = 0;
    handles_closed = false;
  };
  log_end_offset = 0;
  earliest_offset = 0;
}

pub appends : (append no_checksum all_well (a_record ∷ a_record ∷ []) new_store).1 ≡ ok (0, 1)
unfolding append stored_records encode_batch append_encoded roll append_active append_data
    is_complete frame checked_part encode_records encode_record encode_headers encode_slice put_u32
    put_u64 flush_policy flush flush_index advance append_index_entry should_index
appends = refl

write_fails : (append no_checksum disk_full (a_record ∷ []) new_store).1 ≡ err io_error
unfolding append stored_records encode_batch append_encoded roll append_active append_data
    is_complete frame checked_part encode_records encode_record encode_headers encode_slice put_u32
    put_u64
write_fails = refl

append-Assigned_example :
    Assigned new_store (append no_checksum all_well (a_record ∷ a_record ∷ []) new_store).0 2 (0, 1)
append-Assigned_example =
    append-Assigned no_checksum all_well (a_record ∷ a_record ∷ []) new_store (0, 1) appends

append-failed_example :
    ((append no_checksum disk_full (a_record ∷ []) new_store).0 ≡ new_store)
    ⊎ ((append no_checksum disk_full (a_record ∷ []) new_store).0.write_failed ≡ true)
append-failed_example =
    append-failed no_checksum disk_full (a_record ∷ []) new_store io_error write_fails

append-unavailable_example :
    let s = (append no_checksum disk_full (a_record ∷ []) new_store).0 in
    (append no_checksum all_well (a_record ∷ []) s ≡ (s, err store_corrupt))
    × (read no_checksum 0 100 s ≡ err store_corrupt)
append-unavailable_example =
    append-unavailable no_checksum disk_full all_well (a_record ∷ []) a_record [] 0 100 new_store
      write_fails (omega arith)
