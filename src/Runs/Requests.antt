-- ===== src/Runs/Requests.antt =====
-- Runs of the handlers.
use distributed_message_brok.Prelude.{◌≡◌, ◌≤◌, [], ◌∷◌, true, false, none, some, refl, arith, ok}
use distributed_message_brok.Bytes.{crc32, eq_bytes, valid_string, put_u32, put_u64}
use distributed_message_brok.File.{complete, is_complete}
use distributed_message_brok.Format.{
  encode_batch, frame, checked_part, encode_records, encode_record, encode_headers, encode_slice,
}
use distributed_message_brok.Storage.{Store}
use distributed_message_brok.Storage.SegmentFile.{
  append_data, append_index_entry, flush, flush_index,
}
use distributed_message_brok.Storage.Index.{should_index}
use distributed_message_brok.Storage.Append.{
  stored_records, roll, flush_policy, advance, append_active, append_encoded, append,
}
use distributed_message_brok.Storage.Read.{headers_bytes}
use distributed_message_brok.Storage.Select.{select}
use distributed_message_brok.Storage.Log.{log_records}
use distributed_message_brok.Offsets.{CommitIo, commit, valid_name, append_entry}
use distributed_message_brok.Topics.{find_topic, partition}
use distributed_message_brok.Topics.Manager.{get_topic, get_partition}
use distributed_message_brok.Handlers.{
  BrokerServer, ProduceRequest, ProduceResponse, FetchRequest, CommitOffsetRequest, is_nil,
  resolved, request_size, sizes_fit, produced, check_produce, produce, fetch, committed,
  check_commit, commit_offset, fetch_committed_offset,
}
use distributed_message_brok.Handlers.Producers.{Acknowledged, produce-Acknowledged}
use distributed_message_brok.Handlers.Consumers.{
  fetch-select, commit_offset-InRange, fetch_committed_offset-commit_offset,
}
use distributed_message_brok.Runs.Logs.{a_store, a_store-Holds, held}
use distributed_message_brok.Runs.Appends.{no_checksum, all_well, a_record, new_store}
use distributed_message_brok.Runs.Topics.{name, settings}

abbrev with_store : Store → BrokerServer
with_store s = record {
  manager = record {
    topics =
        (record {
          name = name;
          partitions = s ∷ [];
          retention = record { max_age_seconds = 0; max_bytes = 0 };
        })
        ∷ [];
    settings = settings;
    default_max_age_seconds = 0;
    default_max_bytes = 0;
    metadata = none;
  };
  offsets = record { file = []; offsets = []; size = 0; closed = false; write_failed = false };
  max_record_bytes = 100;
}

resolves : get_partition name 0 (with_store a_store).manager ≡ ok a_store
unfolding get_partition get_topic find_topic partition eq_bytes
resolves = refl

abbrev a_fetch : FetchRequest
a_fetch = record { topic = name; partition = 0; offset = 1; max_bytes = 100 }

fetch-select_example :
    fetch crc32 a_fetch (with_store a_store)
    ≡ ok (record {
      records = select 100 1 (log_records (held ∷ []));
      earliest_offset = 0;
      log_end_offset = 2;
    })
fetch-select_example =
    fetch-select crc32 a_fetch (with_store a_store) a_store (held ∷ []) resolves a_store-Holds
      (omega arith) (omega arith) (omega arith)

abbrev a_commit : CommitOffsetRequest
a_commit = record { consumer_group = 0x67 ∷ []; topic = name; partition = 0; next_offset = 2 }

abbrev synced : CommitIo
synced = record { write = complete; sync = true }

commits : (commit_offset no_checksum synced 1000 a_commit (with_store a_store)).1 ≡ ok tt
unfolding commit_offset check_commit is_nil resolved get_partition get_topic find_topic partition
    eq_bytes commit valid_name valid_string append_entry is_complete committed
commits = refl

commit_offset-InRange_example :
    (s : Store) × (get_partition name 0 (with_store a_store).manager ≡ ok s)
    × (s.earliest_offset ≤ 2)
    × (2 ≤ s.log_end_offset)
commit_offset-InRange_example =
    commit_offset-InRange no_checksum synced 1000 a_commit (with_store a_store) commits

fetch_committed_offset-commit_offset_example :
    fetch_committed_offset
      (0x67 ∷ [])
      name
      0
      (commit_offset no_checksum synced 1000 a_commit (with_store a_store)).0
    ≡ ok (some 2)
fetch_committed_offset-commit_offset_example =
    fetch_committed_offset-commit_offset no_checksum synced 1000 a_commit (with_store a_store)
      commits

abbrev a_produce : ProduceRequest
a_produce = record { topic = name; partition = 0; records = a_record ∷ a_record ∷ [] }

abbrev a_response : ProduceResponse
a_response = record { base_offset = 0; last_offset = 1; record_count = 2 }

produces : (produce no_checksum all_well a_produce (with_store new_store)).1 ≡ ok a_response
unfolding produce check_produce sizes_fit request_size headers_bytes resolved get_partition
    get_topic find_topic partition eq_bytes produced append stored_records encode_batch
    append_encoded roll append_active append_data is_complete frame checked_part encode_records
    encode_record encode_headers encode_slice put_u32 put_u64 flush_policy flush flush_index advance
    append_index_entry should_index
produces = refl

produce-Acknowledged_example :
    Acknowledged no_checksum all_well a_produce
      (with_store new_store)
      (produce no_checksum all_well a_produce (with_store new_store)).0
      a_response
produce-Acknowledged_example =
    produce-Acknowledged no_checksum all_well a_produce (with_store new_store) a_response produces
