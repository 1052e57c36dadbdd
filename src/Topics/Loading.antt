-- ===== src/Topics/Loading.antt =====
-- What NewManager loads after a CreateTopic.
use distributed_message_brok.Prelude.{
  ℕ, suc, zero, ◌+◌, ◌≡◌, refl, ap, sym, ◌∙◌, List, [], ◌∷◌, Option, some, none, true, false, arith,
  length, All, All-map, if◌then◌else◌, le→leb, ok, ok-injective, Bool-cases, inl, inr,
}
use distributed_message_brok.Bytes.{Bytes, Checksum, eq_bytes, eq_bytes_sound, eq_bytes_refl}
use distributed_message_brok.Storage.{Store}
use distributed_message_brok.Storage.Recover.{Settings}
use distributed_message_brok.Topics.{
  TopicError, RetentionPolicy, Topic, DiskTopic, TopicsMetadata, PartitionIo, find_topic,
  insert_topic, new_log,
}
use distributed_message_brok.Topics.Manager.{
  Json, Manager, SaveIo, read_metadata, metadata_topics, with_defaults, create_topic, get_topic,
  valid_entry, reopen_logs, load_topics, new_manager,
}
use distributed_message_brok.Topics.Creation.{create_topic-Prepared}

-- The entries of the metadata file pass the checks of NewManager.
pub record Loadable (json : Json) (file : Option Bytes) : Type 0 where
  pub entries : List (Bytes × DiskTopic)
  pub reads : read_metadata json file ≡ ok entries
  pub valid : All (λ e. valid_entry e.0 e.1 ≡ true) entries

-- Every partition directory exists, and its store opens.
pub record Opens (crc : Checksum) (cfg : Settings) (io : PartitionIo) : Type 0 where
  pub exists : io.exists ≡ true
  pub store : Store
  pub opens : new_log crc cfg io ≡ ok store

-- The entry of a name, as in a Go map.
unfoldable pub lookup : Bytes → List (Bytes × DiskTopic) → Option DiskTopic
lookup name [] = none
lookup name ((n, t) ∷ m) = if eq_bytes n name then some t else lookup name m

-- What json.Unmarshal makes of the bytes that json.Marshal made of a map: the same map, its entries
-- in any order.
pub record ReadsBack (json : Json) (m : List (Bytes × DiskTopic)) : Type 0 where
  pub entries : List (Bytes × DiskTopic)
  pub decoded :
      json.unmarshal (record { topics = none }) (json.marshal (record { topics = some m }))
      ≡ some (record { topics = some entries })
  pub sound : All (λ e. lookup e.0 m ≡ some e.1) entries
  pub full : (name : Bytes) (t : DiskTopic) → lookup name m ≡ some t → lookup name entries ≡ some t

lookup-insert_topic :
    (name : Bytes) (t : DiskTopic) (m : List (Bytes × DiskTopic))
    → lookup name (insert_topic name t m) ≡ some t
unfolding insert_topic lookup
lookup-insert_topic name t [] = rw (eq_bytes_refl name) refl
lookup-insert_topic name t ((n, u) ∷ m) = elim (Bool-cases (eq_bytes n name)) [
  | inl e ↦ rw (e, eq_bytes_refl name) refl
  | inr e ↦ rw (e, e) (lookup-insert_topic name t m)
]

lookup-valid :
    (name : Bytes) (t : DiskTopic) (m : List (Bytes × DiskTopic))
    → lookup name m ≡ some t
    → All (λ e. valid_entry e.0 e.1 ≡ true) m
    → valid_entry name t ≡ true
unfolding lookup
lookup-valid name t [] h v = cc
lookup-valid name t ((n, u) ∷ m) h (v, vs) = elim (Bool-cases (eq_bytes n name)) [
  | inl e ↦
      let same : u ≡ t = ground arith in
      let key : n ≡ name = eq_bytes_sound n name e in rw (sym key, sym same) v
  | inr e ↦ lookup-valid name t m (ground arith) vs
]

insert_topic-valid :
    (name : Bytes) (t : DiskTopic) (m : List (Bytes × DiskTopic))
    → valid_entry name t ≡ true
    → All (λ e. valid_entry e.0 e.1 ≡ true) m
    → All (λ e. valid_entry e.0 e.1 ≡ true) (insert_topic name t m)
unfolding insert_topic
insert_topic-valid name t [] v h = (v, tt)
insert_topic-valid name t ((n, u) ∷ m) v (h, hs) = elim (Bool-cases (eq_bytes n name)) [
  | inl e ↦ rw e (v, hs)
  | inr e ↦ rw e (h, insert_topic-valid name t m v hs)
]

valid_entry-name : (name : Bytes) (t : DiskTopic) → valid_entry name t ≡ true → t.name ≡ name
unfolding valid_entry
valid_entry-name name t v = sym (eq_bytes_sound name t.name (ground arith))

metadata_topics-read :
    (json : Json) (bytes : Bytes) {m : List (Bytes × DiskTopic)}
    → json.unmarshal (record { topics = none }) bytes ≡ some (record { topics = some m })
    → metadata_topics json (some bytes) ≡ ok m
unfolding metadata_topics
metadata_topics-read json bytes h = rw (metadata_topics, h) refl

get_topic-found :
    (name : Bytes) (m : Manager) {t : Topic}
    → find_topic name m.topics ≡ some t
    → get_topic name m ≡ ok t
unfolding get_topic
get_topic-found name m h = rw (get_topic, h) refl

module _ (crc : Checksum) (cfg : Settings) where
  reopen_logs-Opens :
      (io : ℕ → PartitionIo) (i n : ℕ)
      → ((j : ℕ) → Opens crc cfg (io j))
      → (ss : List Store) × (reopen_logs crc cfg io i n ≡ ok ss) × (length ss ≡ n)
  unfolding reopen_logs
  reopen_logs-Opens io i zero o = ([], refl, refl)
  reopen_logs-Opens io i (suc n) o =
      let (ss, e, l) = reopen_logs-Opens io (i + 1) n o in
      ((o i).store ∷ ss, rw ((o i).opens, (o i).exists, e) refl, ap suc l)

  -- What the loop makes of the entry of a name.
  record Loaded (name : Bytes) (t : DiskTopic) (ts : List Topic) : Type 0 where
    topic : Topic
    found : find_topic name ts ≡ some topic
    retention_eq : topic.retention ≡ t.retention
    count_eq : length topic.partitions ≡ t.partition_count

  load_topics-ok :
      (io : Bytes → ℕ → PartitionIo) (m : List (Bytes × DiskTopic))
      → ((name : Bytes) (j : ℕ) → Opens crc cfg (io name j))
      → All (λ e. valid_entry e.0 e.1 ≡ true) m
      → (ts : List Topic) × (load_topics crc cfg io m ≡ ok ts)
  unfolding load_topics
  load_topics-ok io [] o h = ([], refl)
  load_topics-ok io ((name, t) ∷ m) o (h, hs) =
      let (ss, e, l) = reopen_logs-Opens (io name) 0 t.partition_count (o name) in
      let (ts, e') = load_topics-ok io m o hs in
      (
        (record { name = t.name; partitions = ss; retention = t.retention }) ∷ ts,
        rw (h, e, e') refl,
      )

  load_topics-head :
      (io : Bytes → ℕ → PartitionIo) (name : Bytes) (t : DiskTopic) (m : List (Bytes × DiskTopic))
      (ts : List Topic)
      → ((name' : Bytes) (j : ℕ) → Opens crc cfg (io name' j))
      → valid_entry name t ≡ true
      → load_topics crc cfg io m ≡ ok ts
      → (ts' : List Topic) × (load_topics crc cfg io ((name, t) ∷ m) ≡ ok ts') × Loaded name t ts'
  unfolding load_topics find_topic
  load_topics-head io name t m ts o v e' =
      let (ss, e, l) = reopen_logs-Opens (io name) 0 t.partition_count (o name) in
      let new : Topic = record { name = t.name; partitions = ss; retention = t.retention } in
      (
        new ∷ ts,
        rw (v, e, e') refl,
        record {
          topic = new;
          found = rw (valid_entry-name name t v, eq_bytes_refl name) refl;
          retention_eq = refl;
          count_eq = l;
        },
      )

  -- The entry of another name in front changes nothing.
  load_topics-skip :
      (io : Bytes → ℕ → PartitionIo) (n : Bytes) (u : DiskTopic) (m : List (Bytes × DiskTopic))
      (name : Bytes) (t : DiskTopic)
      → ((name' : Bytes) (j : ℕ) → Opens crc cfg (io name' j))
      → valid_entry n u ≡ true
      → eq_bytes n name ≡ false
      → (ts : List Topic) × (load_topics crc cfg io m ≡ ok ts) × Loaded name t ts
      → (ts : List Topic) × (load_topics crc cfg io ((n, u) ∷ m) ≡ ok ts) × Loaded name t ts
  unfolding load_topics find_topic
  load_topics-skip io n u m name t o v ne (ts, e', l) =
      let (ss, e, len) = reopen_logs-Opens (io n) 0 u.partition_count (o n) in
      let other : Topic = record { name = u.name; partitions = ss; retention = u.retention } in
      (
        other ∷ ts,
        rw (v, e, e') refl,
        record {
          topic = l.topic;
          found = rw (valid_entry-name n u v, ne) l.found;
          retention_eq = l.retention_eq;
          count_eq = l.count_eq;
        },
      )

  load_topics-lookup :
      (io : Bytes → ℕ → PartitionIo) (name : Bytes) (t : DiskTopic) (m : List (Bytes × DiskTopic))
      → ((name' : Bytes) (j : ℕ) → Opens crc cfg (io name' j))
      → All (λ e. valid_entry e.0 e.1 ≡ true) m
      → lookup name m ≡ some t
      → (ts : List Topic) × (load_topics crc cfg io m ≡ ok ts) × Loaded name t ts
  unfolding lookup
  load_topics-lookup io name t [] o h e = cc
  load_topics-lookup io name t ((n, u) ∷ m) o (v, vs) h = elim (Bool-cases (eq_bytes n name)) [
    | inl e ↦
        let same : u ≡ t = ground arith in
        let key : n ≡ name = eq_bytes_sound n name e in
        let (ts, e') = load_topics-ok io m o vs in
        rw (sym key, sym same) (load_topics-head io n u m ts o v e')
    | inr e ↦
        load_topics-skip io n u m name t o v e (load_topics-lookup io name t m o vs (ground arith))
  ]

-- The entry that CreateTopic writes.
abbrev disk_topic : Bytes → ℕ → RetentionPolicy → Manager → DiskTopic
disk_topic name count policy m = record {
  name = name;
  partition_count = count;
  retention = with_defaults m policy;
}

-- A CreateTopic that returned a topic has left a metadata file that NewManager loads: the loaded manager
-- has the topic, with the same retention and as many partitions. The conditions: the file before could
-- be loaded, JSON reads the map with the new topic back as the same map, in any order, and all partition
-- directories exist and open.
pub new_manager-create_topic :
    (crc : Checksum) (json : Json) (io : ℕ → PartitionIo) (save : SaveIo) (name : Bytes) (count : ℕ)
    (policy : RetentionPolicy) (m : Manager) (t : Topic) (cfg : Settings)
    (io' : Bytes → ℕ → PartitionIo)
    → (old : Loadable json m.metadata)
    → ReadsBack json (insert_topic name (disk_topic name count policy m) old.entries)
    → ((name' : Bytes) (j : ℕ) → Opens crc cfg (io' name' j))
    → (create_topic crc json io save name count policy m).1 ≡ ok t
    → (m' : Manager) × (new_manager crc json cfg io'
          (create_topic crc json io save name count policy m).0.metadata
        ≡ ok m')
      × (t' : Topic) × (get_topic name m' ≡ ok t')
      × (t'.retention ≡ t.retention)
      × (length t'.partitions ≡ length t.partitions)
unfolding new_manager
new_manager-create_topic crc json io save name count policy m t cfg io' old back o h =
    let (bytes, e, p) = create_topic-Prepared crc json io save name count policy m t h in
    let (entries, reads, bytes_eq) = p.saved in
    let t_disk : DiskTopic = disk_topic name count policy m in
    let same : entries ≡ old.entries = ok-injective TopicError (sym reads ∙ old.reads) in
    let v : valid_entry name t_disk ≡ true =
      unfold valid_entry in
      rw (eq_bytes_refl name, p.valid, le→leb 1 count p.positive, le→leb count 1024 p.bounded)
        refl in
    let merged = insert_topic name t_disk old.entries in
    let merged_valid = insert_topic-valid name t_disk old.entries v old.valid in
    let (ts, loads, l) =
      load_topics-lookup crc cfg io' name t_disk back.entries o
        (All-map (λ e at. lookup-valid e.0 e.1 merged at merged_valid) back.entries back.sound)
        (back.full name t_disk (lookup-insert_topic name t_disk old.entries)) in
    let written : (List (Bytes × DiskTopic)) → TopicsMetadata =
      λ es. record { topics = some (insert_topic name t_disk es) } in
    let bytes_old : bytes ≡ json.marshal (written old.entries) =
      bytes_eq ∙ ap (λ es. json.marshal (written es)) same in
    let m' : Manager = record {
      topics = ts;
      settings = cfg;
      default_max_age_seconds = 0;
      default_max_bytes = 0;
      metadata = some bytes;
    } in
    let found : metadata_topics json (some bytes) ≡ ok back.entries =
      metadata_topics-read json bytes
        (ap (json.unmarshal (record { topics = none })) bytes_old ∙ back.decoded) in
    (
      m',
      rw (e, found, loads) refl,
      l.topic,
      get_topic-found name m' l.found,
      l.retention_eq ∙ sym p.retention_eq,
      l.count_eq ∙ sym p.partition_count,
    )
