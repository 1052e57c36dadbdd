-- ===== src/Topics/Upkeep.antt =====
-- ListTopics, Close and ApplyRetention of internal/topic/manager.go.
use distributed_message_brok.Prelude.{
  ℕ, ◌+◌, ◌*◌, ◌%◌, ◌^◌, List, [], ◌∷◌, Option, none, some, Bool, true, false, ◌&&◌, ◌||◌, ◌==◌,
  ltb, if◌then◌else◌, Result, ok, err, panic,
}
use distributed_message_brok.Bytes.{Bytes}
use distributed_message_brok.Storage.{Segment, Store, StoreError, io_error}
use distributed_message_brok.Storage.SegmentFile.{FlushIo}
use distributed_message_brok.Storage.Append.{close_store}
use distributed_message_brok.Storage.Retention.{RetentionIo, apply_retention}
use distributed_message_brok.Topics.{RetentionPolicy, Topic}
use distributed_message_brok.Topics.Manager.{Manager}

-- `<` on strings
unfoldable pub lt_bytes : Bytes → Bytes → Bool
lt_bytes [] [] = false
lt_bytes [] (y ∷ ys) = true
lt_bytes (x ∷ xs) [] = false
lt_bytes (x ∷ xs) (y ∷ ys) = ltb x y || (x == y && lt_bytes xs ys)

-- sort.Slice by name, on names that differ.
unfoldable pub insert_by_name : Topic → List Topic → List Topic
insert_by_name t [] = t ∷ []
insert_by_name t (u ∷ us) = if lt_bytes t.name u.name then t ∷ (u ∷ us) else u ∷ insert_by_name t us

unfoldable pub sort_by_name : List Topic → List Topic
unfolding insert_by_name
sort_by_name [] = []
sort_by_name (t ∷ ts) = insert_by_name t (sort_by_name ts)

-- ListTopics
unfoldable pub list_topics : Manager → List Topic
list_topics m = sort_by_name m.topics

-- What closing one partition comes to.
pub record CloseIo : Type 0 where
  pub flush : FlushIo
  pub closes : Segment → Bool

unfoldable pub is_ok : Result StoreError (Unit {0}) → Bool
is_ok (ok u) = true
is_ok (err e) = false
is_ok panic = false

-- The inner loop of Close: the stores, and whether there was no error.
unfoldable pub close_stores : (Store → CloseIo) → List Store → List Store × Bool
unfolding is_ok
close_stores io [] = ([], true)
close_stores io (s ∷ ss) =
    let (s', closed) = close_store (io s).flush (io s).closes s in
    let (ss', rest) = close_stores io ss in (s' ∷ ss', is_ok closed && rest)

unfoldable pub close_topics : (Store → CloseIo) → List Topic → List Topic × Bool
close_topics io [] = ([], true)
close_topics io (t ∷ ts) =
    let (ss, closed) = close_stores io t.partitions in
    let (ts', rest) = close_topics io ts in (record t { partitions = ss } ∷ ts', closed && rest)

-- Close
unfoldable pub close_manager : (Store → CloseIo) → Manager → Manager × Result StoreError (Unit {0})
close_manager io m =
    let (ts, done) = close_topics io m.topics in
    (record m { topics = ts }, if done then ok tt else err io_error)

-- One round of ApplyRetention: whether the context is cancelled in front of the partition and behind
-- it, the clock in nanoseconds, and the file operations.
pub record RoundIo : Type 0 where
  pub cancelled_before : Bool
  pub cancelled_after : Bool
  pub now : ℕ
  pub retention : RetentionIo

-- time.Duration(seconds) * time.Second, on int64 patterns.
unfoldable pub duration_of : ℕ → ℕ
duration_of seconds = seconds * 10 ^ 9 % 2 ^ 64

-- The rounds on the partitions of one topic, from round `k` on, and the next round, or `none` if the
-- context was cancelled. An error of a partition is logged.
unfoldable pub retain_stores :
    (ℕ → RoundIo) → ℕ → RetentionPolicy → List Store → List Store × Option ℕ
unfolding duration_of
retain_stores io k policy [] = ([], some k)
retain_stores io k policy (s ∷ ss) =
    let r = io k in
    let (s', logged) =
      apply_retention r.retention r.now (duration_of policy.max_age_seconds) policy.max_bytes s in
    let (ss', next) = retain_stores io (k + 1) policy ss in
    if r.cancelled_before
    then (s ∷ ss, none)
    else if r.cancelled_after
    then (s' ∷ ss, none)
    else (s' ∷ ss', next)

-- The rounds on the topics, in the order in which the map gives them.
unfoldable pub retain_topics : (ℕ → RoundIo) → Option ℕ → List Topic → List Topic
unfolding retain_stores
retain_topics io none ts = ts
retain_topics io (some k) [] = []
retain_topics io (some k) (t ∷ ts) =
    let (ss, next) = retain_stores io k t.retention t.partitions in
    record t { partitions = ss } ∷ retain_topics io next ts

-- ApplyRetention
unfoldable pub retain_manager : (ℕ → RoundIo) → Manager → Manager
retain_manager io m = record m { topics = retain_topics io (some 0) m.topics }
