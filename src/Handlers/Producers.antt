-- ===== src/Handlers/Producers.antt =====
-- Produce: what a producer is promised.
use distributed_message_brok.Prelude.{
  ℕ, suc, zero, ◌%◌, ◌^◌, ◌≡◌, refl, ap, ◌∙◌, List, [], ◌∷◌, length, get_elem?, some, true, false,
  arith, not, leb, ◌==◌, Bool-cases, inl, inr, Result, ok, err, panic, ok-injective, >>=-eq-ok,
  ensure-eq-ok,
}
use distributed_message_brok.Bytes.{Bytes, Checksum, eq_bytes}
use distributed_message_brok.Storage.{StoreError, Store}
use distributed_message_brok.Storage.Append.{AppendIo, append}
use distributed_message_brok.Storage.Assign.{Assigned, append-Assigned}
use distributed_message_brok.Topics.{Topic, TopicError, find_topic, partition}
use distributed_message_brok.Topics.Manager.{Manager, get_topic, get_partition}
use distributed_message_brok.Handlers.{
  Code, BrokerServer, ProduceRequest, ProduceResponse, resolved, sizes_fit, set_store,
  set_partition, check_produce, produce, produced, invalid_request, resource_exhausted,
}

length-set_store : (i : ℕ) (s : Store) (xs : List Store) → length (set_store i s xs) ≡ length xs
unfolding set_store
length-set_store i s [] = refl
length-set_store zero s (x ∷ xs) = refl
length-set_store (suc i) s (x ∷ xs) = ap suc (length-set_store i s xs)

get_elem?-set_store :
    (i : ℕ) (s : Store) (xs : List Store) {x : Store}
    → get_elem? xs i ≡ some x
    → get_elem? (set_store i s xs) i ≡ some s
unfolding set_store
get_elem?-set_store i s [] h = cc
get_elem?-set_store zero s (y ∷ xs) h = refl
get_elem?-set_store (suc i) s (y ∷ xs) h = get_elem?-set_store i s xs h

-- What the code of Partition has found when it returns a store.
partition-ok :
    (id : ℕ) (t : Topic) {x : Store}
    → partition id t ≡ ok x
    → (leb (length t.partitions % 2 ^ 32) id ≡ false) × (get_elem? t.partitions id ≡ some x)
unfolding partition
partition-ok id t h = (ground arith, ground arith)

-- A topic whose partition was set has the new store there.
partition-set_store :
    (id : ℕ) (s : Store) (t : Topic) {x : Store}
    → partition id t ≡ ok x
    → partition id (record t { partitions = set_store id s t.partitions }) ≡ ok s
unfolding partition
partition-set_store id s t h =
    let (low, at) = partition-ok id t h in
    rw
      (partition, length-set_store id s t.partitions, low, get_elem?-set_store id s t.partitions at)

module _ (name : Bytes) (id : ℕ) (s : Store) where
  abbrev changed : Topic → Topic
  changed t = record t { partitions = set_store id s t.partitions }

  find_topic-set_partition :
      (ts : List Topic) {t : Topic}
      → find_topic name ts ≡ some t
      → find_topic name (set_partition name id s ts) ≡ some (changed t)
  unfolding find_topic set_partition
  find_topic-set_partition [] h = cc
  find_topic-set_partition (u ∷ ts) {t} h = elim (Bool-cases (eq_bytes u.name name)) [
    | inl e ↦ rw (e, e) (let same : u ≡ t = ground arith in ap (λ v. some (changed v)) same)
    | inr e ↦ rw (e, e) (find_topic-set_partition ts (ground arith))
  ]

  -- GetPartition after the store of the partition changed.
  get_partition-set_partition :
      (m : Manager) {x : Store}
      → get_partition name id m ≡ ok x
      → get_partition name id (record m { topics = set_partition name id s m.topics }) ≡ ok s
  unfolding get_partition get_topic
  get_partition-set_partition m h =
      let (t, e1, h1) = >>=-eq-ok (get_topic name m) _ h in
      let found : find_topic name m.topics ≡ some t = ground arith in
      rw (get_topic, find_topic-set_partition m.topics found) (partition-set_store id s t h1)

resolved-ok : (r : Result TopicError Store) {s : Store} → resolved r ≡ ok s → r ≡ ok s
unfolding resolved
resolved-ok (ok s) h = ap ok (ok-injective Code h)
resolved-ok (err e) h = cc
resolved-ok panic h = cc

-- The store that Produce appends to.
pub check_produce-ok :
    (req : ProduceRequest) (b : BrokerServer) {s : Store}
    → check_produce req b ≡ ok s
    → (get_partition req.topic req.partition b.manager ≡ ok s)
      × (sizes_fit b.max_record_bytes req.records ≡ true)
unfolding check_produce
check_produce-ok req b h =
    let (e1, h1) = ensure-eq-ok (not (length req.records == 0)) invalid_request _ h in
    let (s', e2, h2) =
      >>=-eq-ok (resolved (get_partition req.topic req.partition b.manager)) _ h1 in
    let (e3, h3) =
      ensure-eq-ok (sizes_fit b.max_record_bytes req.records) resource_exhausted _ h2 in
    (resolved-ok _ e2 ∙ ap ok (ok-injective Code h3), e3)

-- What an acknowledged Produce did to the partition.
pub record Acknowledged (crc : Checksum) (io : AppendIo) (req : ProduceRequest)
    (b b' : BrokerServer) (resp : ProduceResponse) : Type 0 where
  pub before : Store
  pub after : Store
  pub was : get_partition req.topic req.partition b.manager ≡ ok before
  pub is_now : get_partition req.topic req.partition b'.manager ≡ ok after
  pub appended : append crc io req.records before ≡ (after, ok (resp.base_offset, resp.last_offset))
  pub sizes : sizes_fit b.max_record_bytes req.records ≡ true
  pub assigned : Assigned before after (length req.records) (resp.base_offset, resp.last_offset)
  pub offsets_kept : b'.offsets ≡ b.offsets

produced-ok :
    (n : ℕ) (r : Result StoreError (ℕ × ℕ)) {resp : ProduceResponse}
    → produced n r ≡ ok resp
    → r ≡ ok (resp.base_offset, resp.last_offset)
unfolding produced
produced-ok n (ok (base, last)) h = cc
produced-ok n (err e) h = cc
produced-ok n panic h = cc

module _ (crc : Checksum) (io : AppendIo) (req : ProduceRequest) (b : BrokerServer) where
  -- What Produce returns past its checks.
  after_append : Store → BrokerServer × Result Code ProduceResponse
  after_append s = (
    record b {
      manager = record b.manager {
        topics =
            set_partition req.topic req.partition (append crc io req.records s).0 b.manager.topics;
      };
    },
    produced (length req.records) (append crc io req.records s).1,
  )

  after_append-Acknowledged :
      (s : Store) (resp : ProduceResponse)
      → check_produce req b ≡ ok s
      → (after_append s).1 ≡ ok resp
      → Acknowledged crc io req b (after_append s).0 resp
  unfolding after_append
  after_append-Acknowledged s resp checks h =
      let (was, sizes) = check_produce-ok req b checks in
      let s' : Store = (append crc io req.records s).0 in
      let returned : (append crc io req.records s).1 ≡ ok (resp.base_offset, resp.last_offset) =
        produced-ok (length req.records) (append crc io req.records s).1 h in
      record {
        before = s;
        after = s';
        was = was;
        appended = ap (λ r. (s', r)) returned;
        is_now = get_partition-set_partition req.topic req.partition s' b.manager was;
        sizes = sizes;
        assigned =
            append-Assigned crc io req.records s (resp.base_offset, resp.last_offset) returned;
        offsets_kept = refl;
      }

-- A Produce that returned a response was for an existing partition and records within the size
-- limit. Append of those records to the store of that partition returned the offsets that the
-- response has, GetPartition then gives the store that this Append left, and the committed offsets
-- are as before.
pub produce-Acknowledged :
    (crc : Checksum) (io : AppendIo) (req : ProduceRequest) (b : BrokerServer)
    (resp : ProduceResponse)
    → (produce crc io req b).1 ≡ ok resp
    → Acknowledged crc io req b (produce crc io req b).0 resp
unfolding produce after_append
produce-Acknowledged crc io req b resp h = go (check_produce req b) refl h
  where
    result_of : Result Code Store → BrokerServer × Result Code ProduceResponse
    result_of r = elim r [
      | ok s ↦ after_append crc io req b s
      | err e ↦ (b, err e)
      | panic ↦ (b, panic)
    ]

    go :
        (r : Result Code Store)
        → check_produce req b ≡ r
        → (result_of r).1 ≡ ok resp
        → Acknowledged crc io req b (result_of r).0 resp
    go (ok s) checks e = after_append-Acknowledged crc io req b s resp checks e
    go (err e') checks e = cc
    go panic checks e = cc
