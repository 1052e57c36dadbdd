-- ===== src/Runs/Topics.antt =====
-- Runs of the topic manager.
use distributed_message_brok.Prelude.{◌≡◌, [], ◌∷◌, true, none, some, refl, ok, if◌then◌else◌}
use distributed_message_brok.Bytes.{Bytes, eq_bytes}
use distributed_message_brok.File.{complete, is_complete}
use distributed_message_brok.Storage.SegmentFile.{new_segment}
use distributed_message_brok.Storage.Recover.{
  Settings, open_store, open_sorted, sort_files, store_of,
}
use distributed_message_brok.Topics.{
  RetentionPolicy, Topic, TopicsMetadata, PartitionIo, find_topic, insert_topic, valid_topic_name,
  new_log, new_logs,
}
use distributed_message_brok.Topics.Manager.{
  Json, Manager, SaveIo, read_metadata, save_metadata, with_defaults, topic_is_new, prepare_topic,
  create_topic, get_topic,
}
use distributed_message_brok.Topics.Creation.{
  Prepared, create_topic-Prepared, get_topic-create_topic,
}
use distributed_message_brok.Runs.Appends.{no_checksum, new_store}

abbrev pub name : Bytes
name = 0x74 ∷ 0x31 ∷ []

abbrev pub settings : Settings
settings = record {
  segment_max_bytes = 1000;
  max_batch_bytes = 500;
  index_interval_bytes = 100;
  sync_flush = true;
}

abbrev pub empty_directory : PartitionIo
empty_directory = record { exists = true; first = some []; files = [] }

abbrev pub saves : SaveIo
saves = record {
  makes_directory = true;
  stats = true;
  opens = true;
  write = complete;
  sync = true;
  close = true;
  rename = true;
}

abbrev pub one_day : RetentionPolicy
one_day = record { max_age_seconds = 86400; max_bytes = 0 }

-- The policy with the default limit of the manager.
abbrev pub with_limit : RetentionPolicy
with_limit = record { max_age_seconds = 86400; max_bytes = 4096 }

abbrev pub no_topics : Manager
no_topics = record {
  topics = [];
  settings = settings;
  default_max_age_seconds = 3600;
  default_max_bytes = 4096;
  metadata = none;
}

abbrev the_entry : TopicsMetadata
the_entry = record {
  topics = some ((name, record { name = name; partition_count = 2; retention = with_limit }) ∷ []);
}

-- An encoding for these runs, which know one map.
abbrev pub small_json : Json
small_json = record { marshal = λ meta. []; unmarshal = λ meta bytes. some the_entry }

abbrev pub the_topic : Topic
the_topic = record { name = name; partitions = new_store ∷ new_store ∷ []; retention = with_limit }

creates_topic :
    (create_topic no_checksum small_json (λ i. empty_directory) saves name 2 one_day no_topics).1
    ≡ ok the_topic
unfolding create_topic prepare_topic valid_topic_name topic_is_new find_topic with_defaults new_logs
    new_log open_store open_sorted sort_files store_of new_segment save_metadata read_metadata
    is_complete insert_topic
creates_topic = refl

get_topic-create_topic_example :
    get_topic name
      (create_topic no_checksum small_json (λ i. empty_directory) saves name 2 one_day no_topics).0
    ≡ (if eq_bytes name name then ok the_topic else get_topic name no_topics)
get_topic-create_topic_example =
    get_topic-create_topic no_checksum small_json (λ i. empty_directory) saves name 2 one_day
      no_topics the_topic name creates_topic

create_topic-Prepared_example :
    (bytes : Bytes) × ((create_topic no_checksum small_json
        (λ i. empty_directory)
        saves
        name
        2
        one_day
        no_topics).0
      ≡ record no_topics { topics = the_topic ∷ []; metadata = some bytes })
    × Prepared small_json no_topics name 2 one_day the_topic bytes
create_topic-Prepared_example =
    create_topic-Prepared no_checksum small_json (λ i. empty_directory) saves name 2 one_day
      no_topics the_topic creates_topic
