-- ===== src/Runs.antt =====
-- Runs of the code on concrete inputs, which the children share.
pub mod Batches
pub mod Commits
pub mod Logs
pub mod Appends
pub mod Topics
pub mod Metadata
pub mod Requests
pub mod Histories
pub mod Lifecycles
pub mod Configs
pub mod Brokers
pub mod Reopens
use distributed_message_brok.Prelude.{
  List, [], ◌∷◌, Option, none, some, arith, refl, ◌%◌, ◌^◌, ◌+◌, ◌-◌,
}
use distributed_message_brok.Bytes.{Bytes, sub_i64, lt_i64}
use distributed_message_brok.Model.{Header, Record, StoredRecord}
use distributed_message_brok.Format.{
  max_timestamp, total_size, records_payload_size, record_payload_size, headers_size,
}
use distributed_message_brok.Format.RoundTrip.{FitsBatch}

-- A record with a key, a value and a header.
abbrev pub first_record : StoredRecord
first_record = record {
  offset = 0;
  timestamp = 1000;
  key = some (0x6B ∷ []);
  value = some (1 ∷ 2 ∷ []);
  headers = (record { key = 0x68 ∷ []; value = 7 ∷ [] }) ∷ [];
}

-- A record with neither.
abbrev pub second_record : StoredRecord
second_record = record {
  offset = 1;
  timestamp = 1001;
  key = none;
  value = some (3 ∷ []);
  headers = [];
}

pub both_fit : FitsBatch first_record (second_record ∷ [])
unfolding max_timestamp total_size records_payload_size record_payload_size headers_size sub_i64
    lt_i64
both_fit = record {
  length_lt = omega arith;
  max_lt = omega arith;
  base_lt = omega arith;
  records = (
    record {
      above = omega arith;
      near = omega arith;
      offset_lt = omega arith;
      timestamp_lt = omega arith;
      delta_lt = omega arith;
      key_fits = omega arith;
      value_fits = omega arith;
    },
    (
      record {
        above = omega arith;
        near = omega arith;
        offset_lt = omega arith;
        timestamp_lt = omega arith;
        delta_lt = omega arith;
        key_fits = omega arith;
        value_fits = omega arith;
      },
      tt,
    ),
  );
}
