-- ===== src/Storage/Trim.antt =====
-- Retention keeps the invariant of a store, and of its log all but the oldest records.
use distributed_message_brok.Prelude.{
  ℕ, ◌≤◌, ◌<◌, ◌≡◌, inl, inr, refl, sym, ap, ◌∙◌, List, [], ◌∷◌, ◌++◌, append_assoc, false, ◌||◌,
  arith, All, All-append, All-map, leb, Bool-cases,
}
use distributed_message_brok.Bytes.{Checksum, lt_i64}
use distributed_message_brok.Model.{StoredRecord}
use distributed_message_brok.Storage.{Segment, Store}
use distributed_message_brok.Storage.Batches.{records_of}
use distributed_message_brok.Storage.Fetch.{Held}
use distributed_message_brok.Storage.Log.{segments_of, log_records, LogHolds}
use distributed_message_brok.Storage.Retention.{
  DeleteIo, RetentionIo, first_base, delete_oldest, expire, total_bytes, shrink, cutoff_of,
  apply_retention,
}
use distributed_message_brok.Storage.Expiry.{delete_oldest-closed}
use distributed_message_brok.Storage.Consistent.{Linked, Consistent, Linked-LogHolds}
use distributed_message_brok.Storage.Grow.{Logs}

-- Behind some deletions: a consistent store with the records that are left, those that are gone in
-- front of its earliest offset, which is `lo` or above.
pub record Kept (crc : Checksum) (lo : ℕ) (s : Store) (recs : List StoredRecord) : Type 0 where
  pub dropped : List StoredRecord
  pub kept : List StoredRecord
  pub split : dropped ++ kept ≡ recs
  pub logs : Logs crc s kept
  pub behind : All (λ r. r.offset < s.earliest_offset) dropped
  pub rises : lo ≤ s.earliest_offset

first_base-Linked :
    (crc : Checksum) (max_batch lo hi : ℕ) (hs : List Held) (last : Held)
    → Linked crc max_batch lo (hs ++ last ∷ []) hi
    → first_base (segments_of hs) last.segment ≡ lo
unfolding first_base
first_base-Linked crc max_batch lo hi [] last (base, w, rest) = base
first_base-Linked crc max_batch lo hi (h ∷ hs) last (base, w, rest) = base

module _ (crc : Checksum) where
  pub Kept-refl :
      (s : Store) (recs : List StoredRecord) → Logs crc s recs → Kept crc s.earliest_offset s recs
  Kept-refl s recs l = record {
    dropped = [];
    kept = recs;
    split = refl;
    logs = l;
    behind = tt;
    rises = omega arith;
  }

  pub Kept-trans :
      {lo : ℕ} {s s' : Store} {recs : List StoredRecord} (k : Kept crc lo s recs)
      → Kept crc s.earliest_offset s' k.kept
      → Kept crc lo s' recs
  Kept-trans k m = record {
    dropped = k.dropped ++ m.dropped;
    kept = m.kept;
    split =
        append_assoc k.dropped m.dropped m.kept
        ∙ ap (λ (t : List StoredRecord). k.dropped ++ t) m.split
        ∙ k.split;
    logs = m.logs;
    behind =
        All-append _ k.dropped m.dropped
          (All-map (λ r lt. omega (arith, m.rises)) k.dropped k.behind) m.behind;
    rises = omega (arith, k.rises, m.rises);
  }

  drop_head :
      (s : Store) (h : Held) (hs : List Held) (last : Held) (recs : List StoredRecord)
      → Consistent crc s (h ∷ hs) last
      → log_records ((h ∷ hs) ++ last ∷ []) ≡ recs
      → Kept crc s.earliest_offset
          (record s {
            closed_segments = segments_of hs;
            earliest_offset = first_base (segments_of hs) s.active_segment;
          })
          recs
  unfolding log_records
  drop_head s h hs last recs c e =
      let (base, w, rest) = c.linked in
      let first : first_base (segments_of hs) s.active_segment ≡ h.segment.next_offset =
        ap (first_base (segments_of hs)) c.active_part
        ∙ first_base-Linked crc s.max_batch_bytes h.segment.next_offset s.log_end_offset hs last
            rest in
      let one : LogHolds crc s.earliest_offset (h ∷ []) h.segment.next_offset =
        Linked-LogHolds crc s.max_batch_bytes s.earliest_offset (h ∷ []) h.segment.next_offset
          (base, w, refl) in
      let (holds, le, asc, below, end) = one in
      record {
        dropped = records_of h.batches;
        kept = log_records (hs ++ last ∷ []);
        split = e;
        logs = record {
          front = hs;
          last = last;
          consistent = record {
            closed_part = refl;
            active_part = c.active_part;
            linked = rw first rest;
            is_open = c.is_open;
            working = c.working;
          };
          records = refl;
        };
        behind = rw first below;
        rises = omega (arith, first);
      }

  delete_oldest-Kept :
      (io : DeleteIo) (o : Segment) (rest : List Segment) (s : Store) (recs : List StoredRecord)
      → s.closed_segments ≡ o ∷ rest
      → Logs crc s recs
      → Kept crc s.earliest_offset (delete_oldest io o rest s).0 recs
  unfolding delete_oldest
  delete_oldest-Kept io o rest s recs e l = elim (Bool-cases io.remove_log) [
    | inr stays ↦ rw stays (Kept-refl s recs l)
    | inl gone ↦ rw gone (go l.front l.last l.consistent l.records)
  ]
    where
      go :
          (front : List Held) (last : Held)
          → Consistent crc s front last
          → log_records (front ++ last ∷ []) ≡ recs
          → Kept crc s.earliest_offset
              (record s {
                closed_segments = rest;
                earliest_offset = first_base rest s.active_segment;
              })
              recs
      go [] last c r = absurd (ground (arith, c.closed_part))
      go (h ∷ hs) last c r =
          let same : segments_of hs ≡ rest = cc in rw (sym same) (drop_head s h hs last recs c r)

  expire-Kept :
      (io : RetentionIo) (cutoff : ℕ) (ss : List Segment) (s : Store) (recs : List StoredRecord)
      → s.closed_segments ≡ ss
      → Logs crc s recs
      → Kept crc s.earliest_offset (expire io cutoff ss s).0 recs
  unfolding expire
  expire-Kept io cutoff [] s recs e l = Kept-refl s recs l
  expire-Kept io cutoff (o ∷ rest) s recs e l =
      let d = delete_oldest-Kept (io.by_age o) o rest s recs e l in
      elim (Bool-cases (lt_i64 cutoff o.max_timestamp)) [
        | inl young ↦ rw young (Kept-refl s recs l)
        | inr old ↦ elim (Bool-cases (delete_oldest (io.by_age o) o rest s).1) [
          | inr failed ↦ rw (old, failed) d
          | inl done ↦
              rw (old, done)
                (Kept-trans d (
                  expire-Kept io cutoff rest (delete_oldest (io.by_age o) o rest s).0 d.kept
                    (delete_oldest-closed (io.by_age o) o rest s done) d.logs))
        ]
      ]

  shrink-Kept :
      (io : RetentionIo) (limit : ℕ) (ss : List Segment) (s : Store) (recs : List StoredRecord)
      → s.closed_segments ≡ ss
      → Logs crc s recs
      → Kept crc s.earliest_offset (shrink io limit ss s).0 recs
  unfolding shrink
  shrink-Kept io limit [] s recs e l = Kept-refl s recs l
  shrink-Kept io limit (o ∷ rest) s recs e l =
      let d = delete_oldest-Kept (io.by_size o) o rest s recs e l in
      elim (Bool-cases (io.stat (o ∷ rest))) [
        | inr unknown ↦ simp unknown (Kept-refl s recs l)
        | inl stat ↦ elim (Bool-cases (leb (total_bytes (o ∷ rest) s.active_segment) limit)) [
          | inl fits ↦ simp (stat, fits) (Kept-refl s recs l)
          | inr big ↦ elim (Bool-cases (delete_oldest (io.by_size o) o rest s).1) [
            | inr failed ↦ simp (stat, big, failed) d
            | inl done ↦
                simp (stat, big, done)
                  (Kept-trans d (
                    shrink-Kept io limit rest (delete_oldest (io.by_size o) o rest s).0 d.kept
                      (delete_oldest-closed (io.by_size o) o rest s done) d.logs))
          ]
        ]
      ]

  -- Whatever the file operations come to, ApplyRetention keeps a store consistent: its log loses some
  -- of its oldest records, all of them in front of the new earliest offset, which does not fall.
  pub apply_retention-Kept :
      (io : RetentionIo) (now max_age limit : ℕ) (s : Store) (recs : List StoredRecord)
      → Logs crc s recs
      → Kept crc s.earliest_offset (apply_retention io now max_age limit s).0 recs
  unfolding apply_retention
  apply_retention-Kept io now max_age limit s recs l =
      let a = expire-Kept io (cutoff_of now max_age) s.closed_segments s recs refl l in
      let s1 = (expire io (cutoff_of now max_age) s.closed_segments s).0 in
      let b = shrink-Kept io limit s1.closed_segments s1 a.kept refl a.logs in
      let on : (s.closed || s.write_failed) ≡ false =
        ground (arith, l.consistent.is_open, l.consistent.working) in
      rw on (Kept-trans a b)
