-- ===== src/Handlers/Admin.antt =====
-- The handlers of internal/grpcserver/admin.go over the topic manager.
use distributed_message_brok.Prelude.{
  ℕ, ◌+◌, ◌%◌, ◌^◌, List, [], ◌∷◌, map, Option, none, some, ◌==◌, length, if◌then◌else◌, Result, ok,
  err, panic,
}
use distributed_message_brok.Bytes.{Bytes, Checksum}
use distributed_message_brok.Storage.{Store}
use distributed_message_brok.Topics.{
  TopicError, topic_exists, invalid_topic_name, too_many_partitions, topic_not_found,
  RetentionPolicy, Topic, PartitionIo,
}
use distributed_message_brok.Topics.Manager.{Json, Manager, SaveIo, create_topic, get_topic}
use distributed_message_brok.Topics.Upkeep.{list_topics}
use distributed_message_brok.Handlers.{is_nil}

-- The codes of google.golang.org/grpc/codes that these handlers return.
pub data AdminCode : Type 0 where
  invalid_argument already_exists no_topic internal_error : AdminCode

pub record PartitionMetadata : Type 0 where
  pub partition_id : ℕ
  pub earliest_offset : ℕ
  pub log_end_offset : ℕ

pub record TopicMetadata : Type 0 where
  pub name : Bytes
  pub partition_count : ℕ
  pub partitions : List PartitionMetadata
  pub retention : RetentionPolicy

-- The loop of convertToProtoMetadata, from index `i` on: Partition with an index in range gives the
-- store there.
unfoldable pub convert_partitions : ℕ → List Store → List PartitionMetadata
convert_partitions i [] = []
convert_partitions i (s ∷ ss) =
    record {
      partition_id = i % 2 ^ 32;
      earliest_offset = s.earliest_offset;
      log_end_offset = s.log_end_offset;
    }
    ∷ convert_partitions (i + 1) ss

-- convertToProtoMetadata
unfoldable pub convert_topic : Topic → TopicMetadata
unfolding convert_partitions
convert_topic t = record {
  name = t.name;
  partition_count = length t.partitions % 2 ^ 32;
  partitions = convert_partitions 0 t.partitions;
  retention = t.retention;
}

-- The retention of a request may be left out.
pub record CreateTopicRequest : Type 0 where
  pub name : Bytes
  pub partition_count : ℕ
  pub retention : Option RetentionPolicy

unfoldable pub requested : Option RetentionPolicy → RetentionPolicy
requested none = record { max_age_seconds = 0; max_bytes = 0 }
requested (some r) = r

unfoldable pub create_code : TopicError → AdminCode
create_code topic_exists = already_exists
create_code invalid_topic_name = invalid_argument
create_code too_many_partitions = invalid_argument
create_code e = internal_error

unfoldable pub create_answer : Result TopicError Topic → Result AdminCode TopicMetadata
unfolding create_code convert_topic
create_answer (ok t) = ok (convert_topic t)
create_answer (err e) = err (create_code e)
create_answer panic = panic

-- CreateTopic
unfoldable pub admin_create_topic :
    Checksum
    → Json
    → (ℕ → PartitionIo)
    → SaveIo
    → CreateTopicRequest
    → Manager
    → Manager × Result AdminCode TopicMetadata
unfolding requested create_answer
admin_create_topic crc json io save req m =
    let (m', t) =
      create_topic crc json io save req.name req.partition_count (requested req.retention) m in
    if is_nil req.name
    then (m, err invalid_argument)
    else if req.partition_count == 0
    then (m, err invalid_argument)
    else (m', create_answer t)

-- ListTopics
unfoldable pub admin_list_topics : Manager → List TopicMetadata
admin_list_topics m = map convert_topic (list_topics m)

unfoldable pub describe_code : TopicError → AdminCode
describe_code topic_not_found = no_topic
describe_code e = internal_error

unfoldable pub describe_answer : Result TopicError Topic → Result AdminCode TopicMetadata
unfolding describe_code convert_topic
describe_answer (ok t) = ok (convert_topic t)
describe_answer (err e) = err (describe_code e)
describe_answer panic = panic

-- DescribeTopic
unfoldable pub admin_describe_topic : Bytes → Manager → Result AdminCode TopicMetadata
unfolding describe_answer
admin_describe_topic name m =
    if is_nil name then err invalid_argument else describe_answer (get_topic name m)
