-- ===== src/Topics/Manager.antt =====
-- The Manager of internal/topic/manager.go.
use distributed_message_brok.Prelude.{
  ℕ, suc, zero, ◌+◌, List, [], ◌∷◌, ◌++◌, Option, none, some, Bool, true, false, ◌&&◌, leb, ltb,
  ◌==◌, if◌then◌else◌, Result, ok, err, panic, ◌>>=◌, ◌>>◌, ensure,
}
use distributed_message_brok.Bytes.{Bytes, Checksum, eq_bytes}
use distributed_message_brok.File.{Write, is_complete}
use distributed_message_brok.Storage.{Store}
use distributed_message_brok.Storage.Recover.{Settings}
use distributed_message_brok.Topics.{
  TopicError, topic_exists, topic_not_found, invalid_topic_name, too_many_partitions,
  bad_partition_count, metadata_error, missing_directory, RetentionPolicy, Topic, DiskTopic,
  TopicsMetadata, PartitionIo, partition, find_topic, insert_topic, valid_topic_name, new_log,
  new_logs, max_partitions_per_topic,
}

-- encoding/json on the metadata. Unmarshal decodes into a value that is there already, which keeps
-- what the bytes do not name.
pub record Json : Type 0 where
  pub marshal : TopicsMetadata → Bytes
  pub unmarshal : TopicsMetadata → Bytes → Option TopicsMetadata

-- The registry, with the bytes of metadata/topics.json if there is one.
pub record Manager : Type 0 where
  pub topics : List Topic
  pub settings : Settings
  pub default_max_age_seconds : ℕ
  pub default_max_bytes : ℕ
  pub metadata : Option Bytes

-- SetRetentionDefaults
unfoldable pub set_retention_defaults : ℕ → ℕ → Manager → Manager
set_retention_defaults age bytes m = record m {
  default_max_age_seconds = age;
  default_max_bytes = bytes;
}

-- What the file operations of saveMetadata come to, up to the rename. The sync of the directory
-- behind it changes nothing that CreateTopic answers.
pub record SaveIo : Type 0 where
  pub makes_directory : Bool
  pub stats : Bool
  pub opens : Bool
  pub write : Write
  pub sync : Bool
  pub close : Bool
  pub rename : Bool

-- The map of the file to merge with; assigning to a nil map panics.
unfoldable pub read_metadata : Json → Option Bytes → Result TopicError (List (Bytes × DiskTopic))
read_metadata json none = ok []
read_metadata json (some bytes) = elim (json.unmarshal (record { topics = some [] }) bytes) [
  | none ↦ err metadata_error
  | some meta ↦ elim meta.topics [ none ↦ panic | some m ↦ ok m ]
]

-- saveMetadata: the new file once the rename is done.
unfoldable pub save_metadata :
    Json → SaveIo → Bytes → DiskTopic → Option Bytes → Result TopicError Bytes
save_metadata json io name t file = do
  ensure io.makes_directory metadata_error
  ensure io.stats metadata_error
  m ← read_metadata json file
  let bytes = json.marshal (record { topics = some (insert_topic name t m) })
  ensure io.opens metadata_error
  ensure (is_complete io.write bytes) metadata_error
  ensure io.sync metadata_error
  ensure io.close metadata_error
  ensure io.rename metadata_error
  ok bytes

-- The limits that are zero take the defaults.
unfoldable pub with_defaults : Manager → RetentionPolicy → RetentionPolicy
with_defaults m r = record {
  max_age_seconds = if r.max_age_seconds == 0 then m.default_max_age_seconds else r.max_age_seconds;
  max_bytes = if r.max_bytes == 0 then m.default_max_bytes else r.max_bytes;
}

unfoldable pub topic_is_new : Bytes → List Topic → Bool
topic_is_new name ts = elim (find_topic name ts) [ none ↦ true | some t ↦ false ]

-- The checks, the stores and the metadata of CreateTopic: the topic and the file, or an error that
-- is rolled back.
unfoldable pub prepare_topic :
    Checksum
    → Json
    → (ℕ → PartitionIo)
    → SaveIo
    → Bytes
    → ℕ
    → RetentionPolicy
    → Manager
    → Result TopicError (Topic × Bytes)
prepare_topic crc json io save name count retention m = do
  ensure (valid_topic_name name) invalid_topic_name
  ensure (ltb 0 count) bad_partition_count
  ensure (leb count max_partitions_per_topic) too_many_partitions
  ensure (topic_is_new name m.topics) topic_exists
  let policy = with_defaults m retention
  stores ← new_logs crc m.settings io 0 count
  bytes ←
      save_metadata json save name
        (record { name = name; partition_count = count; retention = policy }) m.metadata
  ok ((record { name = name; partitions = stores; retention = policy }), bytes)

-- CreateTopic
unfoldable pub create_topic :
    Checksum
    → Json
    → (ℕ → PartitionIo)
    → SaveIo
    → Bytes
    → ℕ
    → RetentionPolicy
    → Manager
    → Manager × Result TopicError Topic
create_topic crc json io save name count retention m =
    elim (prepare_topic crc json io save name count retention m) [
      | ok p ↦ (record m { topics = m.topics ++ (p.0 ∷ []); metadata = some p.1 }, ok p.0)
      | err e ↦ (m, err e)
      | panic ↦ (m, panic)
    ]

-- GetTopic
unfoldable pub get_topic : Bytes → Manager → Result TopicError Topic
get_topic name m = elim (find_topic name m.topics) [ none ↦ err topic_not_found | some t ↦ ok t ]

-- GetPartition
unfoldable pub get_partition : Bytes → ℕ → Manager → Result TopicError Store
get_partition name id m = do t ← get_topic name m; partition id t

-- The loop of NewManager over the partitions of a topic, from `i` on.
unfoldable pub reopen_logs :
    Checksum → Settings → (ℕ → PartitionIo) → ℕ → ℕ → Result TopicError (List Store)
reopen_logs crc cfg io i zero = ok []
reopen_logs crc cfg io i (suc n) = do
  ensure (io i).exists missing_directory
  s ← new_log crc cfg (io i)
  rest ← reopen_logs crc cfg io (i + 1) n
  ok (s ∷ rest)

unfoldable pub valid_entry : Bytes → DiskTopic → Bool
valid_entry name t =
    eq_bytes name t.name
    && (valid_topic_name t.name
        && (leb 1 t.partition_count && leb t.partition_count max_partitions_per_topic))

-- The loop of NewManager over the topics of the file.
unfoldable pub load_topics :
    Checksum
    → Settings
    → (Bytes → ℕ → PartitionIo)
    → List (Bytes × DiskTopic)
    → Result TopicError (List Topic)
unfolding reopen_logs valid_entry
load_topics crc cfg io [] = ok []
load_topics crc cfg io ((name, t) ∷ m) = do
  ensure (valid_entry name t) metadata_error
  stores ← reopen_logs crc cfg (io name) 0 t.partition_count
  rest ← load_topics crc cfg io m
  ok ((record { name = t.name; partitions = stores; retention = t.retention }) ∷ rest)

-- The map that NewManager ranges over; a nil map is empty.
unfoldable pub metadata_topics : Json → Option Bytes → Result TopicError (List (Bytes × DiskTopic))
metadata_topics json none = ok []
metadata_topics json (some bytes) = elim (json.unmarshal (record { topics = none }) bytes) [
  | none ↦ err metadata_error
  | some meta ↦ elim meta.topics [ none ↦ ok [] | some m ↦ ok m ]
]

-- NewManager
unfoldable pub new_manager :
    Checksum
    → Json
    → Settings
    → (Bytes → ℕ → PartitionIo)
    → Option Bytes
    → Result TopicError Manager
new_manager crc json cfg io file = do
  m ← metadata_topics json file
  topics ← load_topics crc cfg io m
  ok (record {
    topics = topics;
    settings = cfg;
    default_max_age_seconds = 0;
    default_max_bytes = 0;
    metadata = file;
  })
