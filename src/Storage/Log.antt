-- ===== src/Storage/Log.antt =====
-- The log as one list of records, and Read's loop over segments on it.
use distributed_message_brok.Prelude.{
  ℕ, zero, suc, ◌+◌, ◌≤◌, ◌<◌, ◌≡◌, refl, sym, ap, ◌∙◌, List, [], ◌∷◌, ◌++◌, false, arith, All,
  All-append, All-map, length, take, ok, Result,
}
use distributed_message_brok.Bytes.{Checksum}
use distributed_message_brok.Model.{StoredRecord}
use distributed_message_brok.Storage.{StoreError, Segment}
use distributed_message_brok.Storage.Batches.{records_of}
use distributed_message_brok.Storage.Read.{
  Progress, Step, stop, more, take_records, read_segments, segment_after,
}
use distributed_message_brok.Storage.Select.{Ascending, finish, then_take, take_records-append}
use distributed_message_brok.Storage.Fetch.{Held, Holds, scan_segment-Holds}

abbrev pub segments_of : List Held → List Segment
segments_of [] = []
segments_of (h ∷ hs) = h.segment ∷ segments_of hs

-- The records of the log, in the order of its segments.
unfoldable pub log_records : List Held → List StoredRecord
log_records [] = []
log_records (h ∷ hs) = records_of h.batches ++ log_records hs

-- Segments in the order of their offsets: the records of each lie between the end of the one before
-- and its own end.
abbrev pub LogHolds : Checksum → ℕ → List Held → ℕ → Type 0
LogHolds crc lo [] hi = lo ≡ hi
LogHolds crc lo (h ∷ hs) hi =
    Holds crc h
    × (lo ≤ h.segment.next_offset)
    × Ascending lo (records_of h.batches)
    × All (λ r. r.offset < h.segment.next_offset) (records_of h.batches)
    × LogHolds crc h.segment.next_offset hs hi

Ascending-weaken :
    (lo lo' : ℕ) (rs : List StoredRecord) → lo ≤ lo' → Ascending lo' rs → Ascending lo rs
Ascending-weaken lo lo' [] le asc = tt
Ascending-weaken lo lo' (r ∷ rs) le (low, top, asc) = (omega arith, top, asc)

Ascending-append :
    (lo mid : ℕ) (xs ys : List StoredRecord)
    → lo ≤ mid
    → Ascending lo xs
    → All (λ r. r.offset < mid) xs
    → Ascending mid ys
    → Ascending lo (xs ++ ys)
Ascending-append lo mid [] ys le asc lt asc' = Ascending-weaken lo mid ys le asc'
Ascending-append lo mid (x ∷ xs) ys le (low, top, asc) (lt, lts) asc' =
    (low, top, Ascending-append (x.offset + 1) mid xs ys (omega arith) asc lts asc')

module _ (crc : Checksum) where
  LogHolds-le : (lo hi : ℕ) (hs : List Held) → LogHolds crc lo hs hi → lo ≤ hi
  LogHolds-le lo hi [] e = omega arith
  LogHolds-le lo hi (h ∷ hs) (ok_, le, asc, lt, rest) =
      omega (arith, LogHolds-le h.segment.next_offset hi hs rest)

  pub log_records-Ascending :
      (lo hi : ℕ) (hs : List Held) → LogHolds crc lo hs hi → Ascending lo (log_records hs)
  unfolding log_records
  log_records-Ascending lo hi [] e = tt
  log_records-Ascending lo hi (h ∷ hs) (ok_, le, asc, lt, rest) =
      Ascending-append lo h.segment.next_offset (records_of h.batches) (log_records hs) le asc lt
        (log_records-Ascending h.segment.next_offset hi hs rest)

  pub log_records-below :
      (lo hi : ℕ) (hs : List Held)
      → LogHolds crc lo hs hi
      → All (λ r. r.offset < hi) (log_records hs)
  unfolding log_records
  log_records-below lo hi [] e = tt
  log_records-below lo hi (h ∷ hs) (ok_, le, asc, lt, rest) =
      let top = LogHolds-le h.segment.next_offset hi hs rest in
      All-append (λ r. r.offset < hi) (records_of h.batches) (log_records hs)
        (All-map (λ r l. omega arith) (records_of h.batches) lt)
        (log_records-below h.segment.next_offset hi hs rest)

  pub LogHolds-All : (lo hi : ℕ) (hs : List Held) → LogHolds crc lo hs hi → All (Holds crc) hs
  LogHolds-All lo hi [] e = tt
  LogHolds-All lo hi (h ∷ hs) (ok_, le, asc, lt, rest) =
      (ok_, LogHolds-All h.segment.next_offset hi hs rest)

  -- Where the search's test fails, the log ends behind the offset, and the segments up to there hold
  -- no record of the offset or above.
  pub record Behind (lo hi offset j : ℕ) (hs : List Held) : Type 0 where
    pub low : lo ≤ offset
    pub passed : All (λ r. r.offset < offset) (log_records (take (suc j) hs))
    pub last : suc j ≡ length hs → hi ≤ offset

  pub segment_after-Behind :
      (lo hi offset j : ℕ) (hs : List Held)
      → LogHolds crc lo hs hi
      → segment_after (segments_of hs) offset j ≡ false
      → Behind lo hi offset j hs
  unfolding segment_after log_records
  segment_after-Behind lo hi offset j [] holds found = absurd (ground arith)
  segment_after-Behind lo hi offset zero (h ∷ hs) (ok_, le, asc, lt, rest) found =
      let end : h.segment.next_offset ≤ offset = ground arith in
      record {
        low = omega arith;
        passed =
            All-append (λ r. r.offset < offset) (records_of h.batches) []
              (All-map (λ r l. omega arith) (records_of h.batches) lt) tt;
        last = λ e. one_left hs (omega arith) rest end;
      }
    where
      one_left :
          (hs' : List Held)
          → length hs' ≡ 0
          → LogHolds crc h.segment.next_offset hs' hi
          → h.segment.next_offset ≤ offset
          → hi ≤ offset
      one_left [] e eq end' = omega arith
      one_left (x ∷ xs) e eq end' = absurd (omega arith)
  segment_after-Behind lo hi offset (suc j) (h ∷ hs) (ok_, le, asc, lt, rest) found =
      let ih = segment_after-Behind h.segment.next_offset hi offset j hs rest found in
      let end = ih.low in
      record {
        low = omega arith;
        passed =
            All-append (λ r. r.offset < offset) (records_of h.batches)
              (log_records (take (suc j) hs))
              (All-map (λ r l. omega arith) (records_of h.batches) lt) ih.passed;
        last = λ e. ih.last (omega arith);
      }

  -- The loop over segments is the loop over all their records.
  pub read_segments-Holds :
      (max : ℕ) (hs : List Held) (p : Progress)
      → All (Holds crc) hs
      → read_segments crc max (segments_of hs) p ≡ ok (finish (take_records max (log_records hs) p))
  unfolding log_records read_segments
  read_segments-Holds max [] p holds = unfold take_records in refl
  read_segments-Holds max (h ∷ hs) p (ok_, oks) =
      rw (scan_segment-Holds crc max h p ok_)
        (go (λ q. read_segments-Holds max hs q oks) (take_records max (records_of h.batches) p))
      ∙ ap (λ (t : Step). ok (finish t))
          (sym (take_records-append max (records_of h.batches) (log_records hs) p))
    where
      go :
          ((q : Progress)
            → read_segments crc max (segments_of hs) q
              ≡ ok (finish (take_records max (log_records hs) q)))
          → (s : Step)
          → (elim s as (λ x. Result StoreError (List StoredRecord)) [
            | stop result ↦ ok result
            | more p' ↦ read_segments crc max (segments_of hs) p'
          ])
            ≡ ok (finish (then_take max (log_records hs) s))
      go again (stop rs) = refl
      go again (more q) = again q
