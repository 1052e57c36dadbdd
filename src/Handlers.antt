-- ===== src/Handlers.antt =====
-- The handlers of internal/grpcserver/broker_handler.go, over the topic manager and the offset store.
pub mod Consumers
pub mod Producers
pub mod Admin
pub mod Listing
pub mod Soundness
pub mod Life
use distributed_message_brok.Prelude.{
  ℕ, suc, zero, ◌+◌, ◌%◌, ◌^◌, List, [], ◌∷◌, Option, none, some, Bool, true, false, not, ◌&&◌,
  ◌||◌, length, leb, ltb, ◌==◌, if◌then◌else◌, Result, ok, err, panic, ◌>>=◌, ◌>>◌, ensure,
}
use distributed_message_brok.Bytes.{Bytes, Checksum, eq_bytes}
use distributed_message_brok.Model.{Record, StoredRecord}
use distributed_message_brok.Format.{len}
use distributed_message_brok.Storage.{StoreError, offset_out_of_range, batch_too_large, Store}
use distributed_message_brok.Storage.Append.{AppendIo, append}
use distributed_message_brok.Storage.Read.{read, headers_bytes}
use distributed_message_brok.Offsets.{
  OffsetError, OffsetStore, Key, Commit, CommitIo, commit, get, store_unavailable, store_closed,
  invalid_argument,
}
use distributed_message_brok.Topics.{TopicError, topic_not_found, partition_not_found, Topic}
use distributed_message_brok.Topics.Manager.{Manager, get_partition}

-- The codes of google.golang.org/grpc/codes that the handlers return.
pub data Code : Type 0 where
  invalid_request not_found out_of_range resource_exhausted unavailable internal : Code

-- The server: its manager, its offset store, and storageCfg.MaxRecordBytes.
pub record BrokerServer : Type 0 where
  pub manager : Manager
  pub offsets : OffsetStore
  pub max_record_bytes : ℕ

unfoldable pub resolve_code : TopicError → Code
resolve_code topic_not_found = not_found
resolve_code partition_not_found = not_found
resolve_code e = internal

unfoldable pub resolved : Result TopicError Store → Result Code Store
unfolding resolve_code
resolved (ok s) = ok s
resolved (err e) = err (resolve_code e)
resolved panic = panic

unfoldable pub is_nil : Bytes → Bool
is_nil [] = true
is_nil (b ∷ bs) = false

-- recordPayloadSize
unfoldable pub request_size : Record → ℕ
request_size r = len r.key + len r.value + headers_bytes r.headers

-- The size check of the loop of Produce; the rest of the loop copies each record.
unfoldable pub sizes_fit : ℕ → List Record → Bool
unfolding request_size
sizes_fit limit [] = true
sizes_fit limit (r ∷ rs) = leb (request_size r) limit && sizes_fit limit rs

-- The store of a partition changes in place.
unfoldable pub set_store : ℕ → Store → List Store → List Store
set_store i s [] = []
set_store zero s (x ∷ xs) = s ∷ xs
set_store (suc i) s (x ∷ xs) = x ∷ set_store i s xs

unfoldable pub set_partition : Bytes → ℕ → Store → List Topic → List Topic
unfolding set_store
set_partition name id s [] = []
set_partition name id s (t ∷ ts) =
    if eq_bytes t.name name
    then (record t { partitions = set_store id s t.partitions }) ∷ ts
    else t ∷ set_partition name id s ts

pub record ProduceRequest : Type 0 where
  pub topic : Bytes
  pub partition : ℕ
  pub records : List Record

pub record ProduceResponse : Type 0 where
  pub base_offset : ℕ
  pub last_offset : ℕ
  pub record_count : ℕ

unfoldable pub append_code : StoreError → Code
append_code batch_too_large = resource_exhausted
append_code e = internal

unfoldable pub produced : ℕ → Result StoreError (ℕ × ℕ) → Result Code ProduceResponse
unfolding append_code
produced n (ok (base, last)) =
    ok (record { base_offset = base; last_offset = last; record_count = n % 2 ^ 32 })
produced n (err e) = err (append_code e)
produced n panic = panic

-- The checks of Produce in front of the append: the store it appends to.
unfoldable pub check_produce : ProduceRequest → BrokerServer → Result Code Store
check_produce req b = do
  ensure (not (length req.records == 0)) invalid_request
  s ← resolved (get_partition req.topic req.partition b.manager)
  ensure (sizes_fit b.max_record_bytes req.records) resource_exhausted
  ok s

-- Produce
unfoldable pub produce :
    Checksum → AppendIo → ProduceRequest → BrokerServer → BrokerServer × Result Code ProduceResponse
produce crc io req b = elim (check_produce req b) [
  | ok s ↦
      let (s', answer) = append crc io req.records s in
      (
        record b {
          manager = record b.manager {
            topics = set_partition req.topic req.partition s' b.manager.topics;
          };
        },
        produced (length req.records) answer,
      )
  | err e ↦ (b, err e)
  | panic ↦ (b, panic)
]

pub record FetchRequest : Type 0 where
  pub topic : Bytes
  pub partition : ℕ
  pub offset : ℕ
  pub max_bytes : ℕ

pub record FetchResponse : Type 0 where
  pub records : List StoredRecord
  pub earliest_offset : ℕ
  pub log_end_offset : ℕ

unfoldable pub fetch_code : StoreError → Code
fetch_code offset_out_of_range = out_of_range
fetch_code e = internal

unfoldable pub fetched : Result StoreError (List StoredRecord) → Result Code (List StoredRecord)
unfolding fetch_code
fetched (ok rs) = ok rs
fetched (err e) = err (fetch_code e)
fetched panic = panic

-- Fetch
unfoldable pub fetch : Checksum → FetchRequest → BrokerServer → Result Code FetchResponse
fetch crc req b = do
  ensure (not (req.max_bytes == 0)) invalid_request
  s ← resolved (get_partition req.topic req.partition b.manager)
  rs ← fetched (read crc req.offset req.max_bytes s)
  ok (record {
    records = rs;
    earliest_offset = s.earliest_offset;
    log_end_offset = s.log_end_offset;
  })

pub record CommitOffsetRequest : Type 0 where
  pub consumer_group : Bytes
  pub topic : Bytes
  pub partition : ℕ
  pub next_offset : ℕ

unfoldable pub commit_code : OffsetError → Code
commit_code store_unavailable = unavailable
commit_code store_closed = unavailable
commit_code invalid_argument = invalid_request
commit_code e = internal

unfoldable pub committed : Result OffsetError (Unit {0}) → Result Code (Unit {0})
unfolding commit_code
committed (ok u) = ok u
committed (err e) = err (commit_code e)
committed panic = panic

-- The checks of CommitOffset in front of the commit.
unfoldable pub check_commit : CommitOffsetRequest → BrokerServer → Result Code (Unit {0})
check_commit req b = do
  ensure (not (is_nil req.consumer_group)) invalid_request
  s ← resolved (get_partition req.topic req.partition b.manager)
  ensure (not (ltb req.next_offset s.earliest_offset || ltb s.log_end_offset req.next_offset))
      out_of_range
  ok tt

unfoldable pub key_of : CommitOffsetRequest → Key
key_of req = record { group = req.consumer_group; topic = req.topic; partition = req.partition }

-- CommitOffset, at a time of the clock.
unfoldable pub commit_offset :
    Checksum
    → CommitIo
    → ℕ
    → CommitOffsetRequest
    → BrokerServer
    → BrokerServer × Result Code (Unit {0})
unfolding key_of
commit_offset crc io now req b = elim (check_commit req b) [
  | ok u ↦
      let (o, answer) =
        commit crc io (record { key = key_of req; next_offset = req.next_offset; now = now })
          b.offsets in
      (record b { offsets = o }, committed answer)
  | err e ↦ (b, err e)
  | panic ↦ (b, panic)
]

unfoldable pub got : Result OffsetError (Option ℕ) → Result Code (Option ℕ)
got (ok v) = ok v
got (err store_unavailable) = err unavailable
got (err store_closed) = err unavailable
got (err e) = err internal
got panic = panic

-- FetchCommittedOffset; `none` is a response with Found false.
unfoldable pub fetch_committed_offset :
    (group topic : Bytes) → ℕ → BrokerServer → Result Code (Option ℕ)
unfolding got
fetch_committed_offset group topic partition b = do
  ensure (not (is_nil group)) invalid_request
  s ← resolved (get_partition topic partition b.manager)
  got (get (record { group = group; topic = topic; partition = partition }) b.offsets)
