-- ===== src/Topics.antt =====
-- internal/topic/manager.go: topics, the registry, CreateTopic and its metadata file; and
-- internal/partition/log.go, whose Log is the Store it wraps.
pub mod Manager
pub mod Creation
pub mod Loading
pub mod Upkeep
use distributed_message_brok.Prelude.{
  ℕ, suc, zero, ◌+◌, ◌%◌, ◌^◌, List, [], ◌∷◌, Option, none, some, Bool, true, false, ◌&&◌, ◌||◌,
  length, get_elem?, leb, ◌==◌, if◌then◌else◌, Result, ok, err, panic, ◌>>=◌,
}
use distributed_message_brok.Bytes.{Bytes, Checksum, eq_bytes}
use distributed_message_brok.Storage.{StoreError, Store}
use distributed_message_brok.Storage.Recover.{SegmentFiles, Settings, open_store}

abbrev pub max_partitions_per_topic : ℕ
max_partitions_per_topic = 1024

-- The sentinel errors; `bad_partition_count` and `metadata_error` are the errors without a name.
pub data TopicError : Type 0 where
  topic_exists topic_not_found partition_not_found invalid_topic_name too_many_partitions :
      TopicError
  bad_partition_count metadata_error missing_directory : TopicError
  open_failed : StoreError → TopicError

between : ℕ → ℕ → ℕ → Bool
between lo hi c = leb lo c && leb c hi

-- [a-zA-Z0-9] and [a-zA-Z0-9._-], on the bytes of a name
unfoldable pub is_alphanumeric : ℕ → Bool
unfolding between
is_alphanumeric c = between 0x61 0x7A c || (between 0x41 0x5A c || between 0x30 0x39 c)

unfoldable pub is_name_byte : ℕ → Bool
unfolding is_alphanumeric
is_name_byte c = is_alphanumeric c || (c == 0x2E || (c == 0x5F || c == 0x2D))

unfoldable pub all_bytes : (ℕ → Bool) → Bytes → Bool
all_bytes p [] = true
all_bytes p (b ∷ bs) = p b && all_bytes p bs

-- topicNameRegex
unfoldable pub valid_topic_name : Bytes → Bool
unfolding is_alphanumeric is_name_byte all_bytes
valid_topic_name [] = false
valid_topic_name (b ∷ bs) = is_alphanumeric b && (all_bytes is_name_byte bs && leb (length bs) 254)

pub record RetentionPolicy : Type 0 where
  pub max_age_seconds : ℕ
  pub max_bytes : ℕ

pub record Topic : Type 0 where
  pub name : Bytes
  pub partitions : List Store
  pub retention : RetentionPolicy

-- Partition: the index past the end panics.
unfoldable pub partition : ℕ → Topic → Result TopicError Store
partition id t =
    if leb (length t.partitions % 2 ^ 32) id
    then err partition_not_found
    else elim (get_elem? t.partitions id) [ none ↦ panic | some s ↦ ok s ]

pub record DiskTopic : Type 0 where
  pub name : Bytes
  pub partition_count : ℕ
  pub retention : RetentionPolicy

-- The decoded metadata file; its map may be nil.
pub record TopicsMetadata : Type 0 where
  pub topics : Option (List (Bytes × DiskTopic))

-- m.topics[name], and m.topics[name] = t, for the two maps.
unfoldable pub find_topic : Bytes → List Topic → Option Topic
find_topic name [] = none
find_topic name (t ∷ ts) = if eq_bytes t.name name then some t else find_topic name ts

unfoldable pub insert_topic :
    Bytes → DiskTopic → List (Bytes × DiskTopic) → List (Bytes × DiskTopic)
insert_topic name t [] = (name, t) ∷ []
insert_topic name t ((n, u) ∷ m) =
    if eq_bytes n name then (name, t) ∷ m else (n, u) ∷ insert_topic name t m

-- What a partition directory gives to NewLog: whether it exists, what OpenStore takes for a first
-- segment in it, and the segment files that stand in it.
pub record PartitionIo : Type 0 where
  pub exists : Bool
  pub first : Option Bytes
  pub files : List SegmentFiles

unfoldable pub opened_log : Result StoreError Store → Result TopicError Store
opened_log (ok s) = ok s
opened_log (err e) = err (open_failed e)
opened_log panic = panic

-- NewLog
unfoldable pub new_log : Checksum → Settings → PartitionIo → Result TopicError Store
unfolding opened_log
new_log crc cfg io = opened_log (open_store crc cfg io.first io.files)

-- The loop of CreateTopic over the partitions, from `i` on.
unfoldable pub new_logs :
    Checksum → Settings → (ℕ → PartitionIo) → ℕ → ℕ → Result TopicError (List Store)
new_logs crc cfg io i zero = ok []
new_logs crc cfg io i (suc n) = do
  s ← new_log crc cfg (io i)
  rest ← new_logs crc cfg io (i + 1) n
  ok (s ∷ rest)
