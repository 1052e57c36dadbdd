-- ===== src/Topics/Creation.antt =====
-- What CreateTopic leaves in the registry and in the metadata file.
use distributed_message_brok.Prelude.{
  ℕ, suc, zero, ◌+◌, ◌≡◌, ◌≤◌, refl, ap, ◌∙◌, List, [], ◌∷◌, ◌++◌, Option, none, some, Bool, true,
  false, arith, length, leb, ltb, ltb→lt, if◌then◌else◌, Result, ok, err, panic, >>=-eq-ok,
  ensure-eq-ok,
}
use distributed_message_brok.Bytes.{Bytes, Checksum, eq_bytes, eq_bytes_sound, eq_bytes_refl}
use distributed_message_brok.File.{is_complete}
use distributed_message_brok.Storage.{Store}
use distributed_message_brok.Storage.Recover.{Settings}
use distributed_message_brok.Topics.{
  TopicError, topic_not_found, invalid_topic_name, bad_partition_count, too_many_partitions,
  topic_exists, metadata_error, RetentionPolicy, Topic, DiskTopic, PartitionIo, find_topic,
  insert_topic, valid_topic_name, new_log, new_logs,
}
use distributed_message_brok.Topics.Manager.{
  Json, Manager, SaveIo, read_metadata, save_metadata, with_defaults, topic_is_new, prepare_topic,
  create_topic, get_topic,
}

length-new_logs :
    (crc : Checksum) (cfg : Settings) (io : ℕ → PartitionIo) (i n : ℕ) {ss : List Store}
    → new_logs crc cfg io i n ≡ ok ss
    → length ss ≡ n
unfolding new_logs
length-new_logs crc cfg io i zero h = ground arith
length-new_logs crc cfg io i (suc n) h =
    let (s, e1, h1) = >>=-eq-ok (new_log crc cfg (io i)) _ h in
    let (rest, e2, h2) = >>=-eq-ok (new_logs crc cfg io (i + 1) n) _ h1 in
    ground (arith, length-new_logs crc cfg io (i + 1) n e2)

-- What CreateTopic has checked and made when it goes through.
pub record Prepared (json : Json) (m : Manager) (name : Bytes) (count : ℕ)
    (policy : RetentionPolicy) (t : Topic) (bytes : Bytes) : Type 0 where
  pub valid : valid_topic_name name ≡ true
  pub positive : 1 ≤ count
  pub bounded : count ≤ 1024
  pub fresh : find_topic name m.topics ≡ none
  pub name_eq : t.name ≡ name
  pub partition_count : length t.partitions ≡ count
  pub retention_eq : t.retention ≡ with_defaults m policy
  pub saved :
      (entries : List (Bytes × DiskTopic)) × (read_metadata json m.metadata ≡ ok entries)
      × (bytes
          ≡ json.marshal (record {
            topics = some (
                insert_topic name
                  (record {
                    name = name;
                    partition_count = count;
                    retention = with_defaults m policy;
                  })
                  entries);
          }))

save_metadata-saved :
    (json : Json) (io : SaveIo) (name : Bytes) (t : DiskTopic) (file : Option Bytes) {bytes : Bytes}
    → save_metadata json io name t file ≡ ok bytes
    → (entries : List (Bytes × DiskTopic)) × (read_metadata json file ≡ ok entries)
      × (bytes ≡ json.marshal (record { topics = some (insert_topic name t entries) }))
unfolding save_metadata
save_metadata-saved json io name t file h =
    let (_, h1) = ensure-eq-ok io.makes_directory metadata_error _ h in
    let (_, h2) = ensure-eq-ok io.stats metadata_error _ h1 in
    let (entries, e, h3) = >>=-eq-ok (read_metadata json file) _ h2 in
    let bytes' = json.marshal (record { topics = some (insert_topic name t entries) }) in
    let (_, h4) = ensure-eq-ok io.opens metadata_error _ h3 in
    let (_, h5) = ensure-eq-ok (is_complete io.write bytes') metadata_error _ h4 in
    let (_, h6) = ensure-eq-ok io.sync metadata_error _ h5 in
    let (_, h7) = ensure-eq-ok io.close metadata_error _ h6 in
    let (_, h8) = ensure-eq-ok io.rename metadata_error _ h7 in (entries, e, ground arith)

prepare_topic-Prepared :
    (crc : Checksum) (json : Json) (io : ℕ → PartitionIo) (save : SaveIo) (name : Bytes) (count : ℕ)
    (policy : RetentionPolicy) (m : Manager) {t : Topic} {bytes : Bytes}
    → prepare_topic crc json io save name count policy m ≡ ok (t, bytes)
    → Prepared json m name count policy t bytes
unfolding prepare_topic topic_is_new
prepare_topic-Prepared crc json io save name count policy m h =
    let (valid, h1) = ensure-eq-ok (valid_topic_name name) invalid_topic_name _ h in
    let (positive, h2) = ensure-eq-ok (ltb 0 count) bad_partition_count _ h1 in
    let (bounded, h3) = ensure-eq-ok (leb count 1024) too_many_partitions _ h2 in
    let (fresh, h4) = ensure-eq-ok (topic_is_new name m.topics) topic_exists _ h3 in
    let (ss, e5, h5) = >>=-eq-ok (new_logs crc m.settings io 0 count) _ h4 in
    let entry : DiskTopic = record {
      name = name;
      partition_count = count;
      retention = with_defaults m policy;
    } in
    let (bs, e6, h6) = >>=-eq-ok (save_metadata json save name entry m.metadata) _ h5 in
    let (entries, e7, e8) = save_metadata-saved json save name entry m.metadata e6 in
    record {
      valid = valid;
      positive = ltb→lt 0 count positive;
      bounded = ground arith;
      fresh = ground arith;
      name_eq = ground arith;
      partition_count = ground (arith, length-new_logs crc m.settings io 0 count e5);
      retention_eq = ground arith;
      saved = (entries, e7, ground arith);
    }

find_topic-append :
    (k : Bytes) (ts : List Topic) (t : Topic)
    → find_topic t.name ts ≡ none
    → find_topic k (ts ++ t ∷ []) ≡ (if eq_bytes t.name k then some t else find_topic k ts)
unfolding find_topic
find_topic-append k [] t h = refl
find_topic-append k (u ∷ ts) t h = ground (
  arith,
  find_topic-append k ts t,
  eq_bytes_sound u.name k,
  eq_bytes_sound t.name k,
  eq_bytes_refl k,
)

-- A CreateTopic that returns a topic had a valid and unused name and 1 to 1024 partitions, the
-- topic has that name, as many partitions, and the retention with the defaults for its zeros, and
-- the metadata file is the old map with the entry of the topic.
pub create_topic-Prepared :
    (crc : Checksum) (json : Json) (io : ℕ → PartitionIo) (save : SaveIo) (name : Bytes) (count : ℕ)
    (policy : RetentionPolicy) (m : Manager) (t : Topic)
    → (create_topic crc json io save name count policy m).1 ≡ ok t
    → (bytes : Bytes) × ((create_topic crc json io save name count policy m).0
        ≡ record m { topics = m.topics ++ (t ∷ []); metadata = some bytes })
      × Prepared json m name count policy t bytes
unfolding create_topic
create_topic-Prepared crc json io save name count policy m t h =
    go (prepare_topic crc json io save name count policy m)
      (λ u bytes e. prepare_topic-Prepared crc json io save name count policy m e) h
  where
    go :
        (r : Result TopicError (Topic × Bytes))
        → ((u : Topic) (bytes : Bytes)
            → r ≡ ok (u, bytes)
            → Prepared json m name count policy u bytes)
        → (elim r as (λ x. Manager × Result TopicError Topic) [
          | ok p ↦ (record m { topics = m.topics ++ (p.0 ∷ []); metadata = some p.1 }, ok p.0)
          | err e ↦ (m, err e)
          | panic ↦ (m, panic)
        ]).1
          ≡ ok t
        → (bytes : Bytes) × ((elim r as (λ x. Manager × Result TopicError Topic) [
          | ok p ↦ (record m { topics = m.topics ++ (p.0 ∷ []); metadata = some p.1 }, ok p.0)
          | err e ↦ (m, err e)
          | panic ↦ (m, panic)
        ]).0
            ≡ record m { topics = m.topics ++ (t ∷ []); metadata = some bytes })
          × Prepared json m name count policy t bytes
    go (ok (u, bytes)) f e =
        let same : u ≡ t = cc in (bytes, rw same refl, f t bytes (rw same refl))
    go (err e') f e = cc
    go panic f e = cc

-- After a CreateTopic that returned a topic, GetTopic of its name returns it, and GetTopic of any
-- other name returns what it returned before.
pub get_topic-create_topic :
    (crc : Checksum) (json : Json) (io : ℕ → PartitionIo) (save : SaveIo) (name : Bytes) (count : ℕ)
    (policy : RetentionPolicy) (m : Manager) (t : Topic) (k : Bytes)
    → (create_topic crc json io save name count policy m).1 ≡ ok t
    → get_topic k (create_topic crc json io save name count policy m).0
      ≡ (if eq_bytes name k then ok t else get_topic k m)
unfolding get_topic
get_topic-create_topic crc json io save name count policy m t k h =
    let (bytes, e, p) = create_topic-Prepared crc json io save name count policy m t h in
    let fresh : find_topic t.name m.topics ≡ none = rw p.name_eq p.fresh in
    let found : find_topic k (m.topics ++ t ∷ [])
        ≡ (if eq_bytes name k then some t else find_topic k m.topics) =
      find_topic-append k m.topics t fresh
      ∙ ap (λ (n : Bytes). if eq_bytes n k then some t else find_topic k m.topics) p.name_eq in
    rw e (ap result_of found ∙ go (eq_bytes name k))
  where
    result_of : Option Topic → Result TopicError Topic
    result_of o = elim o [ none ↦ err topic_not_found | some u ↦ ok u ]

    go :
        (b : Bool)
        → result_of (if b then some t else find_topic k m.topics)
          ≡ (if b then ok t else result_of (find_topic k m.topics))
    go true = refl
    go false = refl
