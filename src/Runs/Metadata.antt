-- ===== src/Runs/Metadata.antt =====
-- A run of NewManager behind CreateTopic, with a JSON that writes the topics by rising names.
use mathlib.Core.Path.{subst}
use distributed_message_brok.Prelude.{
  ℕ, zero, suc, ◌+◌, ◌≡◌, List, [], ◌∷◌, ◌++◌, none, some, refl, arith, inl, inr, Bool-cases,
  length, take, drop, ok, if◌then◌else◌,
}
use distributed_message_brok.Bytes.{Bytes, eq_bytes, eq_bytes_sound}
use distributed_message_brok.File.{is_complete}
use distributed_message_brok.Storage.SegmentFile.{new_segment}
use distributed_message_brok.Storage.Recover.{open_store, open_sorted, sort_files, store_of}
use distributed_message_brok.Topics.{
  Topic, DiskTopic, find_topic, insert_topic, valid_topic_name, new_log, new_logs,
}
use distributed_message_brok.Topics.Manager.{
  Json, Manager, read_metadata, save_metadata, with_defaults, topic_is_new, prepare_topic,
  create_topic, get_topic, new_manager, valid_entry,
}
use distributed_message_brok.Topics.Upkeep.{lt_bytes}
use distributed_message_brok.Topics.Loading.{
  Loadable, Opens, ReadsBack, lookup, new_manager-create_topic,
}
use distributed_message_brok.Runs.Appends.{no_checksum, new_store}
use distributed_message_brok.Runs.Topics.{
  name, settings, empty_directory, saves, no_topics, the_topic, with_limit, one_day,
}

insert_sorted : Bytes × DiskTopic → List (Bytes × DiskTopic) → List (Bytes × DiskTopic)
insert_sorted e [] = e ∷ []
insert_sorted e (f ∷ fs) = if lt_bytes e.0 f.0 then e ∷ (f ∷ fs) else f ∷ insert_sorted e fs

sorted : List (Bytes × DiskTopic) → List (Bytes × DiskTopic)
sorted [] = []
sorted (e ∷ es) = insert_sorted e (sorted es)

-- The key, the name and the numbers of an entry, each string behind its length.
encoded_topics : List (Bytes × DiskTopic) → Bytes
encoded_topics [] = []
encoded_topics ((n, t) ∷ es) =
    (length n ∷ n)
    ++ ((length t.name ∷ t.name)
        ++ (t.partition_count
            ∷ (t.retention.max_age_seconds ∷ (t.retention.max_bytes ∷ encoded_topics es))))

first : Bytes → ℕ
first [] = 0
first (b ∷ bs) = b

decoded_topics : ℕ → Bytes → List (Bytes × DiskTopic)
decoded_topics zero bs = []
decoded_topics (suc fuel) [] = []
decoded_topics (suc fuel) (l ∷ bs) =
    let named = drop l bs in
    let numbers = drop (1 + first named) named in
    let t : DiskTopic = record {
      name = take (first named) (drop 1 named);
      partition_count = first numbers;
      retention = record {
        max_age_seconds = first (drop 1 numbers);
        max_bytes = first (drop 2 numbers);
      };
    } in
    (take l bs, t) ∷ decoded_topics fuel (drop 3 numbers)

abbrev sorting_json : Json
sorting_json = record {
  marshal = λ meta. elim meta.topics [ none ↦ [] | some m ↦ encoded_topics (sorted m) ];
  unmarshal = λ meta bytes. some (record { topics = some (decoded_topics (length bytes) bytes) });
}

abbrev old_entry : DiskTopic
old_entry = record { name = name; partition_count = 2; retention = with_limit }

-- The broker has the topic "t1"; the name of the new one, "a", is in front of it.
abbrev one_topic : Manager
one_topic = record no_topics {
  topics = the_topic ∷ [];
  metadata = some (sorting_json.marshal (record { topics = some ((name, old_entry) ∷ []) }));
}

abbrev new_name : Bytes
new_name = 0x61 ∷ []

abbrev new_topic : Topic
new_topic = record { name = new_name; partitions = new_store ∷ []; retention = with_limit }

abbrev new_entry : DiskTopic
new_entry = record { name = new_name; partition_count = 1; retention = with_limit }

creates_new_topic :
    (create_topic no_checksum sorting_json
      (λ i. empty_directory)
      saves
      new_name
      1
      one_day
      one_topic).1
    ≡ ok new_topic
unfolding create_topic prepare_topic valid_topic_name topic_is_new find_topic with_defaults new_logs
    new_log open_store open_sorted sort_files store_of new_segment save_metadata read_metadata
    is_complete insert_topic eq_bytes encoded_topics sorted insert_sorted decoded_topics first
    lt_bytes
creates_new_topic = refl

old_file : Loadable sorting_json one_topic.metadata
unfolding read_metadata valid_entry valid_topic_name eq_bytes encoded_topics sorted insert_sorted
    decoded_topics first
old_file = record { entries = (name, old_entry) ∷ []; reads = refl; valid = (refl, tt) }

opens : Opens no_checksum settings empty_directory
unfolding new_log open_store open_sorted sort_files store_of new_segment
opens = record { exists = refl; store = new_store; opens = refl }

-- The new topic comes back in front of the old one.
abbrev merged : List (Bytes × DiskTopic)
merged = (name, old_entry) ∷ ((new_name, new_entry) ∷ [])

abbrev back : List (Bytes × DiskTopic)
back = (new_name, new_entry) ∷ ((name, old_entry) ∷ [])

lookup-back : (k : Bytes) (t : DiskTopic) → lookup k merged ≡ some t → lookup k back ≡ some t
unfolding lookup eq_bytes
lookup-back k t h = elim (Bool-cases (eq_bytes name k)) [
  | inl e ↦
      subst (λ n. lookup n merged ≡ some t → lookup n back ≡ some t) (eq_bytes_sound name k e)
        (λ at. at) h
  | inr e ↦ ground arith
]

reads_back : ReadsBack sorting_json merged
unfolding lookup eq_bytes encoded_topics sorted insert_sorted decoded_topics first lt_bytes
reads_back = record {
  entries = back;
  decoded = refl;
  sound = (refl, (refl, tt));
  full = λ k t h. lookup-back k t h;
}

new_manager-create_topic_example :
    (m' : Manager) × (new_manager no_checksum sorting_json settings
        (λ n i. empty_directory)
        (create_topic no_checksum sorting_json
          (λ i. empty_directory)
          saves
          new_name
          1
          one_day
          one_topic).0.metadata
      ≡ ok m')
    × (t' : Topic) × (get_topic new_name m' ≡ ok t')
    × (t'.retention ≡ with_limit)
    × (length t'.partitions ≡ 1)
unfolding old_file insert_topic with_defaults eq_bytes
new_manager-create_topic_example =
    new_manager-create_topic no_checksum sorting_json (λ i. empty_directory) saves new_name 1
      one_day one_topic new_topic settings (λ n i. empty_directory) old_file reads_back
      (λ n i. opens) creates_new_topic
