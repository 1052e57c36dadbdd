-- ===== src/Lib.antt =====
-- A verification library of the message broker: its storage core, the consumer offsets, the topics,
-- the request handlers over them, the settings, and the life of the process.
--
-- The program. A producer sends records to a partition of a topic. The broker handler resolves the
-- partition in the topic manager and appends the records, as one encoded batch, to the segmented
-- log of the partition. A consumer fetches records by offset from that log, and commits the offset
-- it has come to; the commits of all groups are entries of one append-only file. A retention policy
-- deletes old segments. Every file is read back when the broker starts. The process loads its
-- settings, binds and serves its HTTP and gRPC servers, runs the retention in the background, and on
-- a signal or a crash of a server shuts all down in order.
--
-- Where it is modelled.
--   Prelude, and its children: the names that all share, lists over the native numbers, the results
--     of code that can fail or panic.
--   Bytes: big-endian fields (encoding/binary), int64 patterns, CRC-32 (Bytes/Crc, hash/crc32),
--     UTF-8 (Bytes/Utf8, unicode/utf8).
--   Model: internal/model/record.go.
--   File: what a write to a file can come to.
--   Format: internal/storage/format.go. EncodeBatch is `encode_batch`, DecodeBatch is
--     `decode_batch` in Format/Decode. Encode, Fields, RoundTrip, Accept and Panics hold proofs.
--   Storage: internal/storage/segment.go (SegmentFile, and ReadIndexEntries in Index) and
--     internal/storage/store.go: OpenStore and recoverSegment in Recover, validateIndexEntries and
--     rebuildIndex in Index, Append and Close in Append, Read in Read, ApplyRetention in Retention.
--     Assign, Batches, Recovery, Search, Select, Scanning, Fetch, Log, Refine and Expiry hold proofs
--     about single operations. Stored, Consistent, Extend, Grow, Keep, Trim, Succeed and Sound build
--     on the invariant of Consistent, and History on sequences of operations. Rebuild, Validate, Reopen and
--     Restart are about OpenStore.
--   Offsets: internal/offsets/store.go: Commit, Get and Close, with OpenStore and recover in Recover.
--     Entries, Recovery, Durability and Total hold proofs.
--   Topics: internal/topic/manager.go: Topic and its names here, Manager with CreateTopic, GetTopic,
--     GetPartition, saveMetadata and NewManager in Topics/Manager; NewLog of
--     internal/partition/log.go is `new_log`. Topics/Upkeep: ListTopics, Close and ApplyRetention.
--     Creation and Loading hold proofs.
--   Handlers: internal/grpcserver/broker_handler.go: Produce, Fetch, CommitOffset and
--     FetchCommittedOffset with their status codes; internal/grpcserver/admin.go in Handlers/Admin.
--     Producers, Consumers, Listing, Soundness and Life hold proofs.
--   Broker: internal/broker/broker.go. Lifecycle has the steps of Start, Shutdown, the serve loops,
--     the worker and the monitor, Steps the relation between states, Servers the state of
--     internal/grpcserver/server.go and internal/httpserver/server.go. Invariant, Distance and Drain
--     hold proofs.
--   Config: internal/config/config.go: the settings and their defaults here, Load and validateAddr in
--     Config/Load. Checks and Valid hold proofs.
--   Runs: the code on concrete inputs.
--
-- How it is modelled. An operation takes the state and returns the new state with its answer; a Go
-- error is `err`, a panic is `panic`. What a file operation comes to (a short write, a failed sync,
-- a failed rename) is an argument, so a theorem over all such arguments covers every failure. The
-- bytes on disk are part of the state. A uint32 or uint64 is a natural number with its wrap-around
-- written out, an int64 is its uint64 pattern. A []byte that may be nil is an Option, a string is
-- its bytes, a map is an association list. Locks are not modelled: each operation holds its store's
-- lock from beginning to end, so operations of one store do not interleave. A handler calls several
-- operations, which the model takes as one step. The goroutines of the broker's life do interleave:
-- Broker/Steps has a step for each statement or critical section between which others can run, and
-- takes the Shutdown of a server as one step. `is_forced` says which steps a goroutine takes some time
-- on its own. Shutdown is called as the code does it, by cmd/broker/main.go behind a Start without
-- error, by Start, and by the monitor.
--
-- Parameters. The theorems hold for every checksum function that gives a uint32 (Checksum); the runs
-- use CRC-32, or a constant where that is slow to evaluate. The JSON coding of the topic metadata is a parameter (Json), of which a theorem asks
-- that it reads back the map that it wrote, in any order. Config takes the YAML decoder,
-- the environment and the parsers of numbers, Booleans, durations and addresses as parameters (Libraries, ConfigFile), of which a theorem
-- asks for 64-bit words. When the Serve of a server that
-- is not down returns, and whether a stop is graceful, is open.
--
-- Fuel. The scans of Storage/Recover, Storage/Read and Offsets/Recover take the number of bytes that
-- they scan as fuel; every round takes at least nine of them, so it is enough, and their theorems
-- hold at that fuel. sort.Search takes the length of its range, which every round shortens.
--
-- Not modelled. In OpenStore: the names of segment files, which are given by their base offsets, and
-- leftover index.tmp files. Failing reads (ReadAt, Stat) after a file was opened. The observers,
-- metrics and log lines. In the topic manager: the directories that a failed CreateTopic removes. In
-- the broker: the wiring of New, the errors that Shutdown joins, the addresses, the HTTP routes but
-- for the readiness, and the connection counter. The benchmarks and the commands.
pub mod Prelude
pub mod Bytes
pub mod Model
pub mod Format
pub mod File
pub mod Offsets
pub mod Storage
pub mod Topics
pub mod Handlers
pub mod Broker
pub mod Config
pub mod Runs
