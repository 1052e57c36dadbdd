-- ===== src/Handlers/Consumers.antt =====
-- Fetch, CommitOffset and FetchCommittedOffset: what a consumer is promised.
use distributed_message_brok.Prelude.{
  ℕ, ◌≤◌, ◌<◌, ◌≡◌, refl, ap, List, some, true, false, arith, not, ltb, ◌==◌, ◌||◌, ==_self, Result,
  ok, err, panic, >>=-eq-ok, ensure-eq-ok, ok-injective,
}
use distributed_message_brok.Bytes.{Checksum, eq_bytes_refl}
use distributed_message_brok.Storage.{Store}
use distributed_message_brok.Storage.Select.{select}
use distributed_message_brok.Storage.Log.{log_records}
use distributed_message_brok.Storage.Fetch.{Held}
use distributed_message_brok.Storage.Refine.{StoreHolds, read-select}
use distributed_message_brok.Offsets.{OffsetError, Commit, CommitIo, eq_key, commit}
use distributed_message_brok.Offsets.Durability.{get-commit}
use distributed_message_brok.Topics.{TopicError}
use distributed_message_brok.Topics.Manager.{get_partition}
use distributed_message_brok.Handlers.{
  Code, BrokerServer, FetchRequest, CommitOffsetRequest, is_nil, resolved, fetched, fetch,
  check_commit, commit_offset, committed, fetch_committed_offset, got, key_of, invalid_request,
  out_of_range,
}

-- Fetch of a partition whose store holds the batches of `hs`, with a positive limit and an offset
-- from the earliest to the end of the log, returns the selection from its records, and both
-- offsets of the log.
pub fetch-select :
    (crc : Checksum) (req : FetchRequest) (b : BrokerServer) (s : Store) (hs : List Held)
    → get_partition req.topic req.partition b.manager ≡ ok s
    → StoreHolds crc s hs
    → 0 < req.max_bytes
    → s.earliest_offset ≤ req.offset
    → req.offset ≤ s.log_end_offset
    → fetch crc req b
      ≡ ok (record {
        records = select req.max_bytes req.offset (log_records hs);
        earliest_offset = s.earliest_offset;
        log_end_offset = s.log_end_offset;
      })
unfolding fetch resolved fetched
fetch-select crc req b s hs resolves holds hmax lo hi =
    let positive : req.max_bytes == 0 ≡ false = ground arith in
    rw (positive, resolves, read-select crc s hs req.offset req.max_bytes holds hmax lo hi) refl

committed-ok : (r : Result OffsetError (Unit {0})) → committed r ≡ ok tt → r ≡ ok tt
unfolding committed
committed-ok (ok u) h = refl
committed-ok (err e) h = cc
committed-ok panic h = cc

resolved-ok : (r : Result TopicError Store) {s : Store} → resolved r ≡ ok s → r ≡ ok s
unfolding resolved
resolved-ok (ok s) h = ap ok (ok-injective Code h)
resolved-ok (err e) h = cc
resolved-ok panic h = cc

module _ (crc : Checksum) (io : CommitIo) (now : ℕ) (req : CommitOffsetRequest)
    (b : BrokerServer) where
  abbrev entry : Commit
  entry = record { key = key_of req; next_offset = req.next_offset; now = now }

  -- What a CommitOffset did that returned no error.
  commit_offset-ok :
      (commit_offset crc io now req b).1 ≡ ok tt
      → (check_commit req b ≡ ok tt)
        × ((commit crc io entry b.offsets).1 ≡ ok tt)
        × ((commit_offset crc io now req b).0
            ≡ record b { offsets = (commit crc io entry b.offsets).0 })
  unfolding commit_offset
  commit_offset-ok h = go (check_commit req b) h
    where
      go :
          (r : Result Code (Unit {0}))
          → (elim r as (λ x. BrokerServer × Result Code (Unit {0})) [
            | ok u ↦ (
              record b { offsets = (commit crc io entry b.offsets).0 },
              committed (commit crc io entry b.offsets).1,
            )
            | err e ↦ (b, err e)
            | panic ↦ (b, panic)
          ]).1
            ≡ ok tt
          → (r ≡ ok tt)
            × ((commit crc io entry b.offsets).1 ≡ ok tt)
            × ((elim r as (λ x. BrokerServer × Result Code (Unit {0})) [
              | ok u ↦ (
                record b { offsets = (commit crc io entry b.offsets).0 },
                committed (commit crc io entry b.offsets).1,
              )
              | err e ↦ (b, err e)
              | panic ↦ (b, panic)
            ]).0
                ≡ record b { offsets = (commit crc io entry b.offsets).0 })
      go (ok u) e = (refl, committed-ok (commit crc io entry b.offsets).1 e, refl)
      go (err e') e = cc
      go panic e = cc

  -- The checks that CommitOffset passed.
  check_commit-ok :
      check_commit req b ≡ ok tt
      → (is_nil req.consumer_group ≡ false)
        × (s : Store) × (get_partition req.topic req.partition b.manager ≡ ok s)
        × (s.earliest_offset ≤ req.next_offset)
        × (req.next_offset ≤ s.log_end_offset)
  unfolding check_commit
  check_commit-ok h =
      let (e1, h1) = ensure-eq-ok (not (is_nil req.consumer_group)) invalid_request _ h in
      let (s, e2, h2) =
        >>=-eq-ok (resolved (get_partition req.topic req.partition b.manager)) _ h1 in
      let (e3, h3) =
        ensure-eq-ok
          (not (ltb req.next_offset s.earliest_offset || ltb s.log_end_offset req.next_offset))
          out_of_range _ h2 in
      (ground arith, s, resolved-ok _ e2, ground arith, ground arith)

-- A CommitOffset that returned no error was for an existing partition and an offset between the
-- earliest and the end of its log.
pub commit_offset-InRange :
    (crc : Checksum) (io : CommitIo) (now : ℕ) (req : CommitOffsetRequest) (b : BrokerServer)
    → (commit_offset crc io now req b).1 ≡ ok tt
    → (s : Store) × (get_partition req.topic req.partition b.manager ≡ ok s)
      × (s.earliest_offset ≤ req.next_offset)
      × (req.next_offset ≤ s.log_end_offset)
commit_offset-InRange crc io now req b h =
    let (checks, done, state) = commit_offset-ok crc io now req b h in
    let (named, s, resolves, lo, hi) = check_commit-ok crc io now req b checks in
    (s, resolves, lo, hi)

-- After a CommitOffset that returned no error, FetchCommittedOffset of the same group, topic and
-- partition finds the committed offset.
pub fetch_committed_offset-commit_offset :
    (crc : Checksum) (io : CommitIo) (now : ℕ) (req : CommitOffsetRequest) (b : BrokerServer)
    → (commit_offset crc io now req b).1 ≡ ok tt
    → fetch_committed_offset req.consumer_group req.topic req.partition
        (commit_offset crc io now req b).0
      ≡ ok (some req.next_offset)
unfolding fetch_committed_offset resolved got key_of
fetch_committed_offset-commit_offset crc io now req b h =
    let (checks, done, state) = commit_offset-ok crc io now req b h in
    let (named, s, resolves, lo, hi) = check_commit-ok crc io now req b checks in
    let c : Commit = entry crc io now req b in
    let same : eq_key c.key c.key ≡ true =
      unfold eq_key in
      rw (==_self req.partition, eq_bytes_refl req.consumer_group, eq_bytes_refl req.topic) refl in
    rw (state, named, resolves, get-commit crc io c b.offsets c.key done, same) refl
