-- ===== src/Handlers/Life.antt =====
-- A broker from its first start on: topics created, records produced, offsets committed, retention.
use distributed_message_brok.Prelude.{
  ℕ, arith, ◌+◌, ◌^◌, ◌<◌, ◌≡◌, [], some, Bool-cases, inl, inr, length, ok, ◌==◌,
}
use distributed_message_brok.Bytes.{Checksum}
use distributed_message_brok.Storage.{Store}
use distributed_message_brok.Storage.Append.{AppendIo}
use distributed_message_brok.Storage.Grow.{Fresh}
use distributed_message_brok.Offsets.{CommitIo}
use distributed_message_brok.Topics.{PartitionIo}
use distributed_message_brok.Topics.Manager.{Json, SaveIo}
use distributed_message_brok.Topics.Upkeep.{RoundIo, retain_manager}
use distributed_message_brok.Handlers.{
  is_nil, BrokerServer, ProduceRequest, check_produce, produce, CommitOffsetRequest, commit_offset,
}
use distributed_message_brok.Handlers.Admin.{CreateTopicRequest, admin_create_topic, requested}
use distributed_message_brok.Handlers.Soundness.{
  SoundTopics, create_topic-Sound, retain_topics-Sound, produce-Sound,
}

-- The states of a broker that starts without topics. New partitions have empty directories; a Produce
-- keeps the sizes, the clock and the offsets in range, and a rollover that opens its new segment finds
-- the files empty. Requests may fail in any way.
pub data Life (crc : Checksum) : BrokerServer → Type 0 where
  begun : (b : BrokerServer) → b.manager.topics ≡ [] → Life crc b
  created :
      (json : Json) (io : ℕ → PartitionIo) (save : SaveIo) (req : CreateTopicRequest)
      (b : BrokerServer)
      → ((j : ℕ) → (io j).files ≡ [])
      → Life crc b
      → Life crc (record b { manager = (admin_create_topic crc json io save req b.manager).0 })
  produced :
      (io : AppendIo) (req : ProduceRequest) (b : BrokerServer)
      → io.now < 2 ^ 63
      → Fresh io.new_files
      → ((s : Store)
          → check_produce req b ≡ ok s
          → (s.max_batch_bytes < 2 ^ 31) × (s.log_end_offset + length req.records < 2 ^ 64))
      → Life crc b
      → Life crc (produce crc io req b).0
  committed :
      (io : CommitIo) (now : ℕ) (req : CommitOffsetRequest) (b : BrokerServer)
      → Life crc b
      → Life crc (commit_offset crc io now req b).0
  retained :
      (io : ℕ → RoundIo) (b : BrokerServer)
      → Life crc b
      → Life crc (record b { manager = retain_manager io b.manager })

module _ (crc : Checksum) where
  admin_create_topic-Sound :
      (json : Json) (io : ℕ → PartitionIo) (save : SaveIo) (req : CreateTopicRequest)
      (b : BrokerServer)
      → ((j : ℕ) → (io j).files ≡ [])
      → SoundTopics crc b.manager.topics
      → SoundTopics crc (admin_create_topic crc json io save req b.manager).0.topics
  unfolding admin_create_topic
  admin_create_topic-Sound json io save req b fresh h = elim (Bool-cases (is_nil req.name)) [
    | inl empty ↦ rw empty h
    | inr named ↦ elim (Bool-cases (req.partition_count == 0)) [
      | inl no_partitions ↦ rw (named, no_partitions) h
      | inr some_partitions ↦
          rw (named, some_partitions)
            (create_topic-Sound crc json io save req.name req.partition_count
              (requested req.retention) b.manager fresh h)
    ]
  ]

  commit_offset-manager :
      (io : CommitIo) (now : ℕ) (req : CommitOffsetRequest) (b : BrokerServer)
      → (commit_offset crc io now req b).0.manager ≡ b.manager
  unfolding commit_offset
  commit_offset-manager io now req b = ground arith

  -- On a broker that starts without topics, whatever CreateTopic, Produce, CommitOffset and retention
  -- come to, failed ones included, each partition of each topic is at any time consistent, whole
  -- batches with consecutive offsets over all its segments, or it has failed and refuses to serve. The
  -- directory of a new partition is empty. A Produce has a clock below 2^63, a batch limit below 2^31
  -- and offsets that end below 2^64, and its rollover, unless opening the new segment fails, finds the
  -- new files empty.
  pub Life-Sound : (b : BrokerServer) → Life crc b → SoundTopics crc b.manager.topics
  unfolding retain_manager
  Life-Sound _ (begun b e) = rw e tt
  Life-Sound _ (created json io save req b0 fresh l) =
      admin_create_topic-Sound json io save req b0 fresh (Life-Sound b0 l)
  Life-Sound _ (produced io req b0 time fresh room l) =
      produce-Sound crc io req b0 time fresh room (Life-Sound b0 l)
  Life-Sound _ (committed io now req b0 l) =
      rw (commit_offset-manager io now req b0) (Life-Sound b0 l)
  Life-Sound _ (retained io b0 l) =
      retain_topics-Sound crc io (some 0) b0.manager.topics (Life-Sound b0 l)
