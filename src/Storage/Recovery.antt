-- ===== src/Storage/Recovery.antt =====
-- Recovery of a segment: the scan of its log.
use distributed_message_brok.Prelude.{
  ℕ, zero, suc, ◌+◌, ◌%◌, ◌^◌, ◌≤◌, ◌≡◌, refl, sym, ap, ◌∙◌, List, [], ◌∷◌, ◌++◌, append_assoc,
  Bool, true, false, not, arith, length, length-append, drop, drop-append, take, ◌<◌, ok, err,
  Result, if◌then◌else◌, ◌||◌,
}
use mathlib.Core.Path.{ap₂}
use distributed_message_brok.Bytes.{Bytes, Checksum, lt_i64}
use distributed_message_brok.Model.{StoredRecord}
use distributed_message_brok.Format.RoundTrip.{length-encoded}
use distributed_message_brok.Storage.{StoreError, truncated_batch}
use distributed_message_brok.Storage.Recover.{
  Scan, scan, torn, batch, read_batch, continuous, later_timestamp,
}
use distributed_message_brok.Storage.Batches.{
  Batch, batch_records, batch_size, batch_bytes, content, records_of, Chain, batch_size_ge,
  read_batch-batch_bytes, read_batch-take, FitsLog,
}

abbrev scanned : ℕ → ℕ → ℕ → Bool → Scan
scanned size next max_ts t = record {
  valid_size = size;
  next_offset = next;
  max_timestamp = max_ts;
  is_torn = t;
}

unfoldable pub is_empty : Bytes → Bool
is_empty [] = true
is_empty (b ∷ bs) = false

later_timestamp-append :
    (t : ℕ) (xs ys : List StoredRecord)
    → later_timestamp t (xs ++ ys) ≡ later_timestamp (later_timestamp t xs) ys
unfolding later_timestamp
later_timestamp-append t [] ys = refl
later_timestamp-append t (x ∷ xs) ys =
    later_timestamp-append (if lt_i64 t x.timestamp then x.timestamp else t) xs ys

module _ (crc : Checksum) (max_batch : ℕ) (active : Bool) where
  scan-batch :
      (fuel : ℕ) (bs : Bytes) (pos expected max_ts : ℕ) {n : ℕ} {recs : List StoredRecord}
      → read_batch crc max_batch bs ≡ ok (batch n recs)
      → continuous expected recs ≡ true
      → scan crc max_batch active (suc fuel) bs pos expected max_ts
        ≡ scan crc max_batch active fuel
            (drop n bs)
            (pos + n)
            ((expected + length recs) % 2 ^ 64)
            (later_timestamp max_ts recs)
  unfolding scan
  scan-batch fuel [] pos expected max_ts h c = unfold read_batch in cc
  scan-batch fuel (b ∷ bs) pos expected max_ts h c = rw (h, c)

  -- What the loop does at the end of the whole batches.
  abbrev pub ended : ℕ → ℕ → ℕ → Bytes → Result StoreError Scan
  ended pos next max_ts tail =
      if active || is_empty tail
      then ok (scanned pos next max_ts (not (is_empty tail)))
      else err truncated_batch

  scan-stop :
      (fuel : ℕ) (bs : Bytes) (pos expected max_ts : ℕ)
      → length bs ≤ fuel
      → read_batch crc max_batch bs ≡ ok torn
      → scan crc max_batch active fuel bs pos expected max_ts ≡ ended pos expected max_ts bs
  unfolding scan is_empty
  scan-stop fuel [] pos expected max_ts h e = ground arith
  scan-stop zero (b ∷ bs) pos expected max_ts h e = absurd (omega arith)
  scan-stop (suc fuel) (b ∷ bs) pos expected max_ts h e = rw e (ground arith)

  -- The scan goes over the whole batches of the log and ends at what follows them, nothing or a
  -- torn batch: it finds their size, the offset after them and their latest timestamp.
  pub scan-content :
      (bs : List Batch) (fuel : ℕ) (tail : Bytes) (pos expected next max_ts : ℕ)
      → Chain max_batch expected bs next
      → read_batch crc max_batch tail ≡ ok torn
      → length (content crc bs) + length tail ≤ fuel
      → scan crc max_batch active fuel (content crc bs ++ tail) pos expected max_ts
        ≡ ended (pos + length (content crc bs)) next (later_timestamp max_ts (records_of bs)) tail
  unfolding content records_of later_timestamp
  scan-content [] fuel tail pos expected next max_ts e h l =
      scan-stop fuel tail pos expected max_ts (omega arith) h
      ∙ ap₂ (λ (n x : ℕ). ended n x max_ts tail) (omega arith) e
  scan-content (b ∷ bs) zero tail pos expected next max_ts (f, c, ch) h l = absurd (
      omega (
        arith,
        length-append {0} (batch_bytes crc b) (content crc bs),
        length-encoded crc b.first b.rest,
        batch_size_ge b,
      ))
  scan-content (b ∷ bs) (suc fuel) tail pos expected next max_ts (f, c, ch) h l =
      let enc = batch_bytes crc b in
      let n = batch_size b in
      let size = length-append enc (content crc bs) in
      let enc_size = length-encoded crc b.first b.rest in
      let t' = later_timestamp max_ts (batch_records b) in
      let e' = (expected + length (batch_records b)) % 2 ^ 64 in
      let cut : drop n (enc ++ (content crc bs ++ tail)) ≡ content crc bs ++ tail =
        ap (λ (t : ℕ). drop t (enc ++ (content crc bs ++ tail))) (sym enc_size)
        ∙ drop-append enc (content crc bs ++ tail) in
      ap (λ (t : Bytes). scan crc max_batch active (suc fuel) t pos expected max_ts)
        (append_assoc enc (content crc bs) tail)
      ∙ scan-batch fuel (enc ++ (content crc bs ++ tail)) pos expected max_ts
          (read_batch-batch_bytes crc max_batch b f (content crc bs ++ tail)) c
      ∙ ap (λ (t : Bytes). scan crc max_batch active fuel t (pos + n) e' t') cut
      ∙ scan-content bs fuel tail (pos + n) e' next t' ch h
          (omega (arith, size, enc_size, batch_size_ge b))
      ∙ ap₂ (λ (m x : ℕ). ended m next x tail) (omega (arith, size, enc_size))
          (sym (later_timestamp-append max_ts (batch_records b) (records_of bs)))

  -- The recovery scan of a log that holds whole batches, which fit the format and the limit and carry
  -- consecutive offsets, and behind them the first `k` bytes of one more batch that fits, fewer than
  -- it has: it finds the size of the whole batches, the offset after them and their latest timestamp.
  -- With `k` above 0 the scan reports the cut-off batch in the active segment, which is then cut off
  -- at that size, and it is an error in a closed one.
  pub scan-cut :
      (bs : List Batch) (cut : Batch) (k pos expected next max_ts : ℕ)
      → Chain max_batch expected bs next
      → FitsLog max_batch cut
      → k < batch_size cut
      → let log = content crc bs ++ take k (batch_bytes crc cut) in
        scan crc max_batch active (length log) log pos expected max_ts
        ≡ ended
            (pos + length (content crc bs))
            next
            (later_timestamp max_ts (records_of bs))
            (take k (batch_bytes crc cut))
  scan-cut bs cut k pos expected next max_ts ch f lt =
      let tail = take k (batch_bytes crc cut) in
      scan-content bs (length (content crc bs ++ tail)) tail pos expected next max_ts ch
        (read_batch-take crc max_batch cut f k lt)
        (omega (arith, length-append (content crc bs) tail))
