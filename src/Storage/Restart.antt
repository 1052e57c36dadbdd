-- ===== src/Storage/Restart.antt =====
-- OpenStore on the files of a directory: the store that it returns.
use distributed_message_brok.Prelude.{
  ℕ, ◌+◌, ◌^◌, ◌≤◌, ◌<◌, ◌≡◌, refl, sym, ap, ◌∙◌, List, [], ◌∷◌, ◌++◌, append-nil, append_assoc,
  Bool, true, false, ◌||◌, ◌==◌, ==_self, arith, length, take, ok, Result, Option,
}
use distributed_message_brok.Bytes.{Bytes, Checksum}
use distributed_message_brok.Model.{StoredRecord}
use distributed_message_brok.Storage.{StoreError, Segment, Store}
use distributed_message_brok.Storage.SegmentFile.{new_segment}
use distributed_message_brok.Storage.Validate.{MagicAtBatches}
use distributed_message_brok.Storage.Recover.{
  torn, read_batch, SegmentFiles, Settings, store_of, sort_files, recover_segment, open_segments,
  open_sorted, open_store,
}
use distributed_message_brok.Storage.Batches.{
  Batch, batch_size, batch_bytes, FitsLog, content, records_of, Chain, read_batch-short,
  read_batch-take,
}
use distributed_message_brok.Storage.Recovery.{is_empty}
use distributed_message_brok.Storage.Fetch.{Held}
use distributed_message_brok.Storage.Log.{segments_of, log_records}
use distributed_message_brok.Storage.Consistent.{Linked}
use distributed_message_brok.Storage.Grow.{Logs}
use distributed_message_brok.Storage.Reopen.{Recovers, Recovered, recover_segment-Recovered}

-- A pair of files with batches from `lo` on, and what follows them in the log file. The batches fit the
-- format and the limit, there are at most 2^32 records, and no payload looks like the header of a
-- batch. The index file holds anything.
pub record FileHolds (crc : Checksum) (max_batch lo : ℕ) (f : SegmentFiles) (bs : List Batch)
    (tail : Bytes) : Type 0 where
  pub base : f.base ≡ lo
  pub log : f.log ≡ content crc bs ++ tail
  pub chain : Chain max_batch lo bs (lo + length (records_of bs))
  pub room : lo + length (records_of bs) < 2 ^ 64
  pub near : length (records_of bs) ≤ 2 ^ 32
  pub magic : MagicAtBatches crc bs
  pub works : Recovers f.io

-- What an append that was cut off leaves: fewer bytes than a batch that fits has, perhaps none.
pub record CutOff (crc : Checksum) (max_batch : ℕ) (tail : Bytes) : Type 0 where
  pub batch : Batch
  pub kept : ℕ
  pub fits : FitsLog max_batch batch
  pub shorter : kept < batch_size batch
  pub front : tail ≡ take kept (batch_bytes crc batch)

CutOff-torn :
    (crc : Checksum) (max_batch : ℕ) (tail : Bytes)
    → CutOff crc max_batch tail
    → read_batch crc max_batch tail ≡ ok torn
CutOff-torn crc max_batch tail c =
    ap (read_batch crc max_batch) c.front
    ∙ read_batch-take crc max_batch c.batch c.fits c.kept c.shorter

-- The files of a directory in order, each beginning where the one before it ends: whole batches, and
-- in the last file a batch that is cut off, or nothing, behind them.
abbrev pub DiskHolds :
    Checksum
    → ℕ
    → ℕ
    → SegmentFiles
    → List SegmentFiles
    → List (List Batch)
    → List Batch
    → Bytes
    → Type 0
DiskHolds crc max_batch lo f [] [] bs tail =
    FileHolds crc max_batch lo f bs tail × CutOff crc max_batch tail
DiskHolds crc max_batch lo f [] (x ∷ xs) bs tail = ⊥
DiskHolds crc max_batch lo f (g ∷ gs) [] bs tail = ⊥
DiskHolds crc max_batch lo f (g ∷ gs) (x ∷ xs) bs tail =
    FileHolds crc max_batch lo f x []
    × DiskHolds crc max_batch (lo + length (records_of x)) g gs xs bs tail

abbrev pub disk_records : List (List Batch) → List Batch → List StoredRecord
disk_records [] bs = records_of bs
disk_records (x ∷ xs) bs = records_of x ++ disk_records xs bs

record Opened (crc : Checksum) (max_batch lo : ℕ) (before : List Segment) (recs : List StoredRecord)
    (r : Result StoreError (List Segment × Segment)) : Type 0 where
  front : List Held
  last : Held
  result : r ≡ ok (before ++ segments_of front, last.segment)
  linked : Linked crc max_batch lo (front ++ last ∷ []) last.segment.next_offset
  records : log_records (front ++ last ∷ []) ≡ recs

module _ (crc : Checksum) (max_batch interval : ℕ) where
  recovered :
      (lo : ℕ) (f : SegmentFiles) (active : Bool) (bs : List Batch) (tail : Bytes)
      → FileHolds crc max_batch lo f bs tail
      → read_batch crc max_batch tail ≡ ok torn
      → (active || is_empty tail) ≡ true
      → Recovered crc max_batch lo
          (lo + length (records_of bs))
          bs
          (recover_segment crc max_batch interval f.io (new_segment f.base active f.log f.index))
  unfolding new_segment
  recovered lo f active bs tail h cut may =
      rw (h.base, h.log)
        (recover_segment-Recovered crc max_batch interval f.io lo (lo + length (records_of bs))
          active bs tail f.index h.works h.magic h.chain h.room h.near cut may)

  open_last :
      (before : List Segment) (expected : ℕ) (f : SegmentFiles) (s : Segment)
      → (f.base == expected) ≡ true
      → f.io.opens ≡ true
      → recover_segment crc max_batch interval f.io (new_segment f.base true f.log f.index) ≡ ok s
      → open_segments crc max_batch interval before expected f [] ≡ ok (before, s)
  unfolding open_segments
  open_last before expected f s base opens e = simp (base, opens, e) refl

  open_next :
      (before : List Segment) (expected : ℕ) (f g : SegmentFiles) (gs : List SegmentFiles)
      (s : Segment)
      → (f.base == expected) ≡ true
      → f.io.opens ≡ true
      → recover_segment crc max_batch interval f.io (new_segment f.base false f.log f.index) ≡ ok s
      → open_segments crc max_batch interval before expected f (g ∷ gs)
        ≡ open_segments crc max_batch interval (before ++ s ∷ []) s.next_offset g gs
  unfolding open_segments
  open_next before expected f g gs s base opens e = simp (base, opens, e) refl

  open_segments-Opened :
      (before : List Segment) (lo : ℕ) (f : SegmentFiles) (gs : List SegmentFiles)
      (xs : List (List Batch)) (bs : List Batch) (tail : Bytes)
      → DiskHolds crc max_batch lo f gs xs bs tail
      → Opened crc max_batch lo before
          (disk_records xs bs)
          (open_segments crc max_batch interval before lo f gs)
  unfolding log_records is_empty
  open_segments-Opened before lo f [] [] bs tail (h, cut) =
      let x = recovered lo f true bs tail h (CutOff-torn crc max_batch tail cut) refl in
      let same : (f.base == lo) ≡ true = rw h.base (==_self lo) in
      record {
        front = [];
        last = record { segment = x.segment; batches = bs };
        result =
            open_last before lo f x.segment same h.works.opens x.result
            ∙ ap (λ (t : List Segment). ok (t, x.segment)) (sym (append-nil before));
        linked = (x.base_same, x.whole, refl);
        records = append-nil (records_of bs);
      }
  open_segments-Opened before lo f [] (x ∷ xs) bs tail h = absurd h
  open_segments-Opened before lo f (g ∷ gs) [] bs tail h = absurd h
  open_segments-Opened before lo f (g ∷ gs) (y ∷ ys) bs tail (h, rest) =
      let x = recovered lo f false y [] h (read_batch-short crc max_batch [] (omega arith)) refl in
      let same : (f.base == lo) ≡ true = rw h.base (==_self lo) in
      let ih =
        open_segments-Opened (before ++ x.segment ∷ []) (lo + length (records_of y)) g gs ys bs tail
          rest in
      record {
        front = record { segment = x.segment; batches = y } ∷ ih.front;
        last = ih.last;
        result =
            open_next before lo f g gs x.segment same h.works.opens x.result
            ∙ ap (λ (n : ℕ). open_segments crc max_batch interval (before ++ x.segment ∷ []) n g gs)
                x.next_same
            ∙ ih.result
            ∙ ap (λ (t : List Segment). ok (t, ih.last.segment))
                (append_assoc before (x.segment ∷ []) (segments_of ih.front));
        linked = (x.base_same, x.whole, rw x.next_same ih.linked);
        records = ap (λ (t : List StoredRecord). records_of y ++ t) ih.records;
      }

open_sorted_lem :
    (crc : Checksum) (cfg : Settings) (first : Option Bytes) (f : SegmentFiles)
    (gs : List SegmentFiles) (p : List Segment × Segment)
    → open_segments crc cfg.max_batch_bytes cfg.index_interval_bytes [] f.base f gs ≡ ok p
    → open_sorted crc cfg first (f ∷ gs) ≡ ok (store_of cfg p.0 p.1 f.base p.1.next_offset)
unfolding open_sorted
open_sorted_lem crc cfg first f gs p e = simp e refl

-- OpenStore on files that, in the order of their base offsets, hold whole batches one after the other,
-- and at the end perhaps the front of one more batch, returns a consistent store with the records of
-- the whole batches. The conditions: the file operations succeed, all batches, the cut-off one too, fit
-- the format and the configured limit, a segment has at most 2^32 records, offsets end below 2^64, and in
-- a log the magic bytes with room for a header stand only where a batch begins. The index files may hold
-- anything.
pub open_store-Logs :
    (crc : Checksum) (cfg : Settings) (first : Option Bytes) (fs : List SegmentFiles) (lo : ℕ)
    (f : SegmentFiles) (gs : List SegmentFiles) (xs : List (List Batch)) (bs : List Batch)
    (tail : Bytes)
    → sort_files fs ≡ f ∷ gs
    → DiskHolds crc cfg.max_batch_bytes lo f gs xs bs tail
    → (s : Store) × (open_store crc cfg first fs ≡ ok s) × Logs crc s (disk_records xs bs)
unfolding open_store store_of
open_store-Logs crc cfg first fs lo f gs xs bs tail sorted h =
    let x =
      open_segments-Opened crc cfg.max_batch_bytes cfg.index_interval_bytes [] lo f gs xs bs tail
        h in
    let base = first_base_of f gs xs h in
    (
      store_of cfg (segments_of x.front) x.last.segment lo x.last.segment.next_offset,
      ap (open_sorted crc cfg first) sorted
          ∙ open_sorted_lem crc cfg first f gs (segments_of x.front, x.last.segment)
              (ap
                  (λ (n : ℕ).
                    open_segments crc cfg.max_batch_bytes cfg.index_interval_bytes [] n f gs)
                  base
                ∙ x.result)
          ∙ ap
              (λ (n : ℕ).
                ok (store_of cfg (segments_of x.front) x.last.segment n x.last.segment.next_offset))
              base,
      record {
        front = x.front;
        last = x.last;
        consistent = record {
          closed_part = refl;
          active_part = refl;
          linked = x.linked;
          is_open = refl;
          working = refl;
        };
        records = x.records;
      },
    )
  where
    first_base_of :
        (f' : SegmentFiles) (gs' : List SegmentFiles) (xs' : List (List Batch))
        → DiskHolds crc cfg.max_batch_bytes lo f' gs' xs' bs tail
        → f'.base ≡ lo
    first_base_of f' [] [] (k, cut) = k.base
    first_base_of f' [] (y ∷ ys) k = absurd k
    first_base_of f' (g ∷ gs') [] k = absurd k
    first_base_of f' (g ∷ gs') (y ∷ ys) (k, rest) = k.base
