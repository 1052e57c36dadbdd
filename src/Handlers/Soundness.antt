-- ===== src/Handlers/Soundness.antt =====
-- Every partition of a broker through requests and retention.
use distributed_message_brok.Prelude.{
  ℕ, suc, zero, ◌+◌, ◌^◌, ◌<◌, ◌≡◌, inl, inr, refl, sym, arith, List, [], ◌∷◌, ◌++◌, Option, none,
  some, true, Bool-cases, All, All-append, length, get_elem?, leb, Result, ok, err, panic,
  >>=-eq-ok, ensure-eq-ok, ltb,
}
use distributed_message_brok.Bytes.{Bytes, Checksum, eq_bytes}
use distributed_message_brok.Storage.{Store}
use distributed_message_brok.Storage.Append.{AppendIo, append}
use distributed_message_brok.Storage.Grow.{Fresh}
use distributed_message_brok.Storage.Recover.{
  Settings, open_store, open_sorted, sort_files, store_of,
}
use distributed_message_brok.Storage.SegmentFile.{new_segment}
use distributed_message_brok.Storage.History.{created-Logs}
use distributed_message_brok.Storage.Sound.{Sound, append-Sound, apply_retention-Sound}
use distributed_message_brok.Topics.{
  TopicError, RetentionPolicy, Topic, PartitionIo, partition, find_topic, opened_log, new_log,
  new_logs, valid_topic_name, invalid_topic_name, bad_partition_count, too_many_partitions,
  topic_exists, DiskTopic,
}
use distributed_message_brok.Topics.Manager.{
  Json, Manager, SaveIo, prepare_topic, create_topic, topic_is_new, with_defaults, save_metadata,
  get_topic, get_partition,
}
use distributed_message_brok.Topics.Upkeep.{RoundIo, duration_of, retain_stores, retain_topics}
use distributed_message_brok.Handlers.{
  BrokerServer, ProduceRequest, set_store, set_partition, check_produce, Code, ProduceResponse,
  produced, produce,
}
use distributed_message_brok.Handlers.Producers.{check_produce-ok}

abbrev pub SoundTopics : Checksum → List Topic → Type 0
SoundTopics crc ts = All (λ t. All (Sound crc) t.partitions) ts

module _ (crc : Checksum) where
  get_elem?-Sound :
      (i : ℕ) (ss : List Store) {s : Store}
      → All (Sound crc) ss
      → get_elem? ss i ≡ some s
      → Sound crc s
  get_elem?-Sound i [] h e = cc
  get_elem?-Sound zero (x ∷ ss) {s} (h, hs) e = let same : x ≡ s = cc in rw (sym same) h
  get_elem?-Sound (suc i) (x ∷ ss) (h, hs) e = get_elem?-Sound i ss hs e

  find_topic-Sound :
      (name : Bytes) (ts : List Topic) {t : Topic}
      → SoundTopics crc ts
      → find_topic name ts ≡ some t
      → All (Sound crc) t.partitions
  unfolding find_topic
  find_topic-Sound name [] h e = cc
  find_topic-Sound name (u ∷ ts) {t} (h, hs) e = elim (Bool-cases (eq_bytes u.name name)) [
    | inl found ↦ let same : u ≡ t = ground arith in rw (sym same) h
    | inr other ↦ find_topic-Sound name ts {t = t} hs (ground arith)
  ]

  get_partition-Sound :
      (name : Bytes) (id : ℕ) (m : Manager) {s : Store}
      → SoundTopics crc m.topics
      → get_partition name id m ≡ ok s
      → Sound crc s
  unfolding get_partition get_topic partition
  get_partition-Sound name id m {s} h e =
      let (t, e1, e2) = >>=-eq-ok (get_topic name m) _ e in
      let found : find_topic name m.topics ≡ some t = ground arith in
      let at : get_elem? t.partitions id ≡ some s = ground arith in
      get_elem?-Sound id t.partitions (find_topic-Sound name m.topics {t = t} h found) at

  set_store-Sound :
      (i : ℕ) (s : Store) (ss : List Store)
      → Sound crc s
      → All (Sound crc) ss
      → All (Sound crc) (set_store i s ss)
  unfolding set_store
  set_store-Sound i s [] h hs = tt
  set_store-Sound zero s (x ∷ ss) h (k, ks) = (h, ks)
  set_store-Sound (suc i) s (x ∷ ss) h (k, ks) = (k, set_store-Sound i s ss h ks)

  set_partition-Sound :
      (name : Bytes) (id : ℕ) (s : Store) (ts : List Topic)
      → Sound crc s
      → SoundTopics crc ts
      → SoundTopics crc (set_partition name id s ts)
  unfolding set_partition
  set_partition-Sound name id s [] h hs = tt
  set_partition-Sound name id s (t ∷ ts) h (k, ks) = elim (Bool-cases (eq_bytes t.name name)) [
    | inl found ↦ rw found (set_store-Sound id s t.partitions h k, ks)
    | inr other ↦ rw other (k, set_partition-Sound name id s ts h ks)
  ]

  new_log-Sound :
      (cfg : Settings) (p : PartitionIo) {s : Store}
      → p.files ≡ []
      → new_log crc cfg p ≡ ok s
      → Sound crc s
  unfolding new_log opened_log open_store open_sorted sort_files
  new_log-Sound cfg p {s} none_ e = by_index p.first (rw none_ at e)
    where
      by_index :
          (first : Option Bytes) → opened_log (open_store crc cfg first []) ≡ ok s → Sound crc s
      by_index none h = cc
      by_index (some index) h =
          let same : store_of cfg [] (new_segment 0 true [] index) 0 0 ≡ s = cc in
          rw (sym same) (inr ([], created-Logs crc cfg index))

  new_logs-Sound :
      (cfg : Settings) (io : ℕ → PartitionIo) (i n : ℕ) {ss : List Store}
      → ((j : ℕ) → (io j).files ≡ [])
      → new_logs crc cfg io i n ≡ ok ss
      → All (Sound crc) ss
  unfolding new_logs
  new_logs-Sound cfg io i zero {ss} fresh h = let same : [] ≡ ss = cc in rw (sym same) tt
  new_logs-Sound cfg io i (suc n) {ss} fresh h =
      let (s, e1, h1) = >>=-eq-ok (new_log crc cfg (io i)) _ h in
      let (rest, e2, h2) = >>=-eq-ok (new_logs crc cfg io (i + 1) n) _ h1 in
      let same : s ∷ rest ≡ ss = cc in
      rw (sym same)
        (new_log-Sound cfg (io i) {s = s} (fresh i) e1, new_logs-Sound cfg io (i + 1) n fresh e2)

  prepare_topic-Sound :
      (json : Json) (io : ℕ → PartitionIo) (save : SaveIo) (name : Bytes) (count : ℕ)
      (policy : RetentionPolicy) (m : Manager) {p : Topic × Bytes}
      → ((j : ℕ) → (io j).files ≡ [])
      → prepare_topic crc json io save name count policy m ≡ ok p
      → All (Sound crc) p.0.partitions
  unfolding prepare_topic
  prepare_topic-Sound json io save name count policy m {p} fresh h =
      let (a, h1) = ensure-eq-ok (valid_topic_name name) invalid_topic_name _ h in
      let (b, h2) = ensure-eq-ok (ltb 0 count) bad_partition_count _ h1 in
      let (c, h3) = ensure-eq-ok (leb count 1024) too_many_partitions _ h2 in
      let (d, h4) = ensure-eq-ok (topic_is_new name m.topics) topic_exists _ h3 in
      let (ss, e5, h5) = >>=-eq-ok (new_logs crc m.settings io 0 count) _ h4 in
      let entry : DiskTopic = record {
        name = name;
        partition_count = count;
        retention = with_defaults m policy;
      } in
      let (bs, e6, h6) = >>=-eq-ok (save_metadata json save name entry m.metadata) _ h5 in
      let same : ss ≡ p.0.partitions = ground arith in
      rw (sym same) (new_logs-Sound m.settings io 0 count {ss = ss} fresh e5)

  pub create_topic-Sound :
      (json : Json) (io : ℕ → PartitionIo) (save : SaveIo) (name : Bytes) (count : ℕ)
      (policy : RetentionPolicy) (m : Manager)
      → ((j : ℕ) → (io j).files ≡ [])
      → SoundTopics crc m.topics
      → SoundTopics crc (create_topic crc json io save name count policy m).0.topics
  unfolding create_topic
  create_topic-Sound json io save name count policy m fresh h =
      by_result (prepare_topic crc json io save name count policy m)
        (λ p e. prepare_topic-Sound json io save name count policy m {p = p} fresh e)
    where
      by_result :
          (r : Result TopicError (Topic × Bytes))
          → ((p : Topic × Bytes) → r ≡ ok p → All (Sound crc) p.0.partitions)
          → SoundTopics crc
              (elim r as (λ x. Manager × Result TopicError Topic) [
                | ok p ↦ (record m { topics = m.topics ++ (p.0 ∷ []); metadata = some p.1 }, ok p.0)
                | err e ↦ (m, err e)
                | panic ↦ (m, panic)
              ]).0.topics
      by_result (ok p) f =
          All-append (λ t. All (Sound crc) t.partitions) m.topics (p.0 ∷ []) h (f p refl, tt)
      by_result (err e) f = h
      by_result panic f = h

  retain_stores-Sound :
      (io : ℕ → RoundIo) (k : ℕ) (policy : RetentionPolicy) (ss : List Store)
      → All (Sound crc) ss
      → All (Sound crc) (retain_stores io k policy ss).0
  unfolding retain_stores
  retain_stores-Sound io k policy [] h = tt
  retain_stores-Sound io k policy (s ∷ ss) (h, hs) =
      let r = io k in
      let s' =
        apply_retention-Sound crc r.retention r.now (duration_of policy.max_age_seconds)
          policy.max_bytes s h in
      elim (Bool-cases r.cancelled_before) [
        | inl stop ↦ rw stop (h, hs)
        | inr goes ↦ elim (Bool-cases r.cancelled_after) [
          | inl stop ↦ rw (goes, stop) (s', hs)
          | inr on ↦ rw (goes, on) (s', retain_stores-Sound io (k + 1) policy ss hs)
        ]
      ]

  pub retain_topics-Sound :
      (io : ℕ → RoundIo) (k : Option ℕ) (ts : List Topic)
      → SoundTopics crc ts
      → SoundTopics crc (retain_topics io k ts)
  unfolding retain_topics
  retain_topics-Sound io none ts h = h
  retain_topics-Sound io (some k) [] h = tt
  retain_topics-Sound io (some k) (t ∷ ts) (h, hs) = (
    retain_stores-Sound io k t.retention t.partitions h,
    retain_topics-Sound io (retain_stores io k t.retention t.partitions).1 ts hs,
  )

  pub produce-Sound :
      (io : AppendIo) (req : ProduceRequest) (b : BrokerServer)
      → io.now < 2 ^ 63
      → Fresh io.new_files
      → ((s : Store)
          → check_produce req b ≡ ok s
          → (s.max_batch_bytes < 2 ^ 31) × (s.log_end_offset + length req.records < 2 ^ 64))
      → SoundTopics crc b.manager.topics
      → SoundTopics crc (produce crc io req b).0.manager.topics
  unfolding produce
  produce-Sound io req b time fresh room h =
      by_check (check_produce req b) (λ s e. room s e)
        (λ s e.
          get_partition-Sound req.topic req.partition b.manager h (check_produce-ok req b e).0)
    where
      by_check :
          (r : Result Code Store)
          → ((s : Store)
              → r ≡ ok s
              → (s.max_batch_bytes < 2 ^ 31) × (s.log_end_offset + length req.records < 2 ^ 64))
          → ((s : Store) → r ≡ ok s → Sound crc s)
          → SoundTopics crc
              (elim r as (λ x. BrokerServer × Result Code ProduceResponse) [
                | ok s ↦
                    let (s', answer) = append crc io req.records s in
                    (
                      record b {
                        manager = record b.manager {
                          topics = set_partition req.topic req.partition s' b.manager.topics;
                        };
                      },
                      produced (length req.records) answer,
                    )
                | err e ↦ (b, err e)
                | panic ↦ (b, panic)
              ]).0.manager.topics
      by_check (ok s) near sound =
          let (limit, low) = near s refl in
          set_partition-Sound req.topic req.partition (append crc io req.records s).0
            b.manager.topics (append-Sound crc io req.records s limit time low fresh (sound s refl))
            h
      by_check (err e) near sound = h
      by_check panic near sound = h
