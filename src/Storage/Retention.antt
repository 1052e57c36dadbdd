-- ===== src/Storage/Retention.antt =====
-- ApplyRetention of internal/storage/store.go, with calculateTotalBytes and deleteSegmentAtIndex.
use distributed_message_brok.Prelude.{
  ℕ, ◌+◌, ◌-◌, ◌/◌, ◌%◌, ◌^◌, List, [], ◌∷◌, ◌++◌, Bool, true, false, not, ◌&&◌, ◌||◌, length, leb,
  if◌then◌else◌,
}
use distributed_message_brok.Bytes.{lt_i64}
use distributed_message_brok.Storage.{Segment, Store}

-- What deleting one segment comes to: removing the log file and the index file (a missing index
-- file is no failure), closing the handles, syncing the directory.
pub record DeleteIo : Type 0 where
  pub remove_log : Bool
  pub remove_index : Bool
  pub close : Bool
  pub sync_directory : Bool

-- What each deletion comes to in the loop by age and in the loop by size, by its segment, and whether the
-- Stat calls of calculateTotalBytes succeed in a round, by the closed segments that are left.
pub record RetentionIo : Type 0 where
  pub by_age : Segment → DeleteIo
  pub by_size : Segment → DeleteIo
  pub stat : List Segment → Bool

-- s.segments[0].baseOffset
unfoldable pub first_base : List Segment → Segment → ℕ
first_base [] active = active.base_offset
first_base (s ∷ ss) active = s.base_offset

-- deleteSegmentAtIndex(0) with the oldest segment `o` and the closed segments behind it: the store,
-- and whether there was no error.
unfoldable pub delete_oldest : DeleteIo → Segment → List Segment → Store → Store × Bool
delete_oldest d o rest s =
    if d.remove_log
    then (
      record s { closed_segments = rest; earliest_offset = first_base rest s.active_segment },
      d.remove_index && ((o.handles_closed || d.close) && d.sync_directory),
    )
    else (s, false)

-- The loop by age, on the closed segments of the store.
unfoldable pub expire : RetentionIo → ℕ → List Segment → Store → Store × Bool
expire io cutoff [] s = (s, true)
expire io cutoff (o ∷ rest) s =
    let (s', done) = delete_oldest (io.by_age o) o rest s in
    let others = expire io cutoff rest s' in
    if lt_i64 cutoff o.max_timestamp then (s, true) else if done then others else (s', false)

unfoldable pub bytes_of : List Segment → ℕ
bytes_of [] = 0
bytes_of (s ∷ ss) = length s.file + length s.index_file + bytes_of ss

unfoldable pub total_bytes : List Segment → Segment → ℕ
unfolding bytes_of
total_bytes ss active = bytes_of (ss ++ (active ∷ [])) % 2 ^ 64

-- The loop by size, on the closed segments of the store.
unfoldable pub shrink : RetentionIo → ℕ → List Segment → Store → Store × Bool
shrink io limit [] s = (s, true)
shrink io limit (o ∷ rest) s =
    let (s', done) = delete_oldest (io.by_size o) o rest s in
    let others = shrink io limit rest s' in
    if not (io.stat (o ∷ rest))
    then (s, false)
    else if leb (total_bytes (o ∷ rest) s.active_segment) limit
    then (s, true)
    else if done
    then others
    else (s', false)

-- clock().Add(-maxAge).UnixMilli() as an int64, from nanoseconds. `max_age` is an int64 pattern: above
-- 2^63 it is negative, and the time moves ahead.
unfoldable pub cutoff_of : ℕ → ℕ → ℕ
cutoff_of now max_age =
    if not (leb max_age (2 ^ 63))
    then (now + (2 ^ 64 - max_age)) / 10 ^ 6 % 2 ^ 64
    else if leb max_age now
    then (now - max_age) / 10 ^ 6 % 2 ^ 64
    else (2 ^ 64 - (max_age - now + 10 ^ 6 - 1) / 10 ^ 6 % 2 ^ 64) % 2 ^ 64

-- ApplyRetention: the store, and whether there was no error.
unfoldable pub apply_retention : RetentionIo → ℕ → ℕ → ℕ → Store → Store × Bool
apply_retention io now max_age max_partition_bytes s =
    let (s1, aged) = expire io (cutoff_of now max_age) s.closed_segments s in
    let (s2, sized) = shrink io max_partition_bytes s1.closed_segments s1 in
    if s.closed || s.write_failed then (s, true) else (s2, aged && sized)
