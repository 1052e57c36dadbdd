-- ===== src/Runs/Brokers.antt =====
-- Runs of a broker over several requests.
use distributed_message_brok.Prelude.{
  ℕ, ◌+◌, ◌^◌, ◌<◌, ◌≡◌, [], ◌∷◌, true, false, none, refl, sym, ◌∙◌, arith, length, ok,
  ok-injective, All,
}
use distributed_message_brok.Bytes.{eq_bytes}
use distributed_message_brok.File.{is_complete}
use distributed_message_brok.Storage.{Store}
use distributed_message_brok.Storage.SegmentFile.{new_segment}
use distributed_message_brok.Storage.Recover.{open_store, open_sorted, sort_files, store_of}
use distributed_message_brok.Storage.Read.{headers_bytes}
use distributed_message_brok.Topics.{
  find_topic, insert_topic, valid_topic_name, new_log, new_logs, opened_log, partition,
}
use distributed_message_brok.Topics.Manager.{
  Manager, read_metadata, save_metadata, with_defaults, topic_is_new, prepare_topic, create_topic,
  get_topic, get_partition,
}
use distributed_message_brok.Topics.Upkeep.{RoundIo, retain_manager}
use distributed_message_brok.Handlers.{
  is_nil, BrokerServer, Code, ProduceRequest, resolved, request_size, sizes_fit, check_produce,
  produce,
}
use distributed_message_brok.Handlers.Admin.{
  CreateTopicRequest, admin_create_topic, admin_list_topics, admin_describe_topic, requested,
}
use distributed_message_brok.Handlers.Listing.{Rising, admin_list_topics-describe}
use distributed_message_brok.Handlers.Soundness.{SoundTopics}
use distributed_message_brok.Handlers.Life.{Life, begun, created, produced, retained, Life-Sound}
use distributed_message_brok.Runs.Appends.{no_checksum, all_well, all_well-Fresh, a_record}
use distributed_message_brok.Runs.Topics.{
  name, settings, no_topics, small_json, saves, empty_directory, the_topic,
}
use distributed_message_brok.Runs.Histories.{deletes}

abbrev first_broker : BrokerServer
first_broker = record {
  manager = no_topics;
  offsets = record { file = []; offsets = []; size = 0; closed = false; write_failed = false };
  max_record_bytes = 100;
}

abbrev a_request : CreateTopicRequest
a_request = record { name = name; partition_count = 2; retention = none }

abbrev with_topic : BrokerServer
with_topic = record first_broker {
  manager =
      (admin_create_topic no_checksum small_json (λ i. empty_directory) saves a_request
        no_topics).0;
}

abbrev a_produce : ProduceRequest
a_produce = record { topic = name; partition = 1; records = a_record ∷ [] }

abbrev empty_partition : Store
empty_partition = store_of settings [] (new_segment 0 true [] []) 0 0

resolves : check_produce a_produce with_topic ≡ ok empty_partition
unfolding admin_create_topic create_topic prepare_topic valid_topic_name topic_is_new find_topic
    with_defaults new_logs new_log opened_log open_store open_sorted sort_files save_metadata
    read_metadata is_complete insert_topic is_nil requested check_produce resolved get_partition
    get_topic partition eq_bytes sizes_fit request_size headers_bytes
resolves = refl

in_range :
    (s : Store)
    → check_produce a_produce with_topic ≡ ok s
    → (s.max_batch_bytes < 2 ^ 31) × (s.log_end_offset + length a_produce.records < 2 ^ 64)
unfolding store_of
in_range s h =
    let same : empty_partition ≡ s = ok-injective Code (sym resolves ∙ h) in
    rw (sym same) (omega arith, omega arith)

abbrev after_produce : BrokerServer
after_produce = (produce no_checksum all_well a_produce with_topic).0

abbrev rounds : ℕ → RoundIo
rounds k = record {
  cancelled_before = false;
  cancelled_after = false;
  now = 5000;
  retention = deletes;
}

-- A topic with two partitions, a Produce to one of them, and a retention.
served :
    Life no_checksum
      (record after_produce { manager = retain_manager rounds after_produce.manager })
served = retained rounds after_produce (
    produced all_well a_produce with_topic (omega arith) all_well-Fresh in_range (
      created small_json (λ i. empty_directory) saves a_request first_broker (λ j. refl)
        (begun first_broker refl)))

Life-Sound_example : SoundTopics no_checksum (retain_manager rounds after_produce.manager).topics
Life-Sound_example =
    Life-Sound no_checksum
      (record after_produce { manager = retain_manager rounds after_produce.manager }) served

abbrev one_topic : Manager
one_topic = record no_topics { topics = the_topic ∷ [] }

named : All (λ t. is_nil t.name ≡ false) one_topic.topics
unfolding is_nil
named = (refl, tt)

admin_list_topics-describe_example :
    (length (admin_list_topics one_topic) ≡ length one_topic.topics)
    × Rising (admin_list_topics one_topic)
    × All (λ x. admin_describe_topic x.name one_topic ≡ ok x) (admin_list_topics one_topic)
admin_list_topics-describe_example = admin_list_topics-describe one_topic (tt, tt) named
