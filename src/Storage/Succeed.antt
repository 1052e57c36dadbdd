-- ===== src/Storage/Succeed.antt =====
-- Append succeeds where the file operations do.
use distributed_message_brok.Prelude.{
  ℕ, ◌+◌, ◌-◌, ◌%◌, ◌^◌, ◌≤◌, ◌<◌, ◌≡◌, refl, ap, ◌∙◌, List, ◌∷◌, some, true, false, arith, length,
  ok, ◌⊎◌, le→ltb, leb,
}
use distributed_message_brok.Bytes.{Bytes, Checksum}
use distributed_message_brok.File.{complete, is_complete}
use distributed_message_brok.Model.{Record}
use distributed_message_brok.Format.RoundTrip.{length-encoded}
use distributed_message_brok.Storage.{Segment, Store}
use distributed_message_brok.Storage.SegmentFile.{flush, flush_index, append_data, new_segment}
use distributed_message_brok.Storage.Batches.{batch_size, batch_bytes}
use distributed_message_brok.Storage.Append.{
  AppendIo, roll, roll_to, flush_policy, advance, append_active, append_encoded, append,
}
use distributed_message_brok.Storage.Assign.{append-cons}
use distributed_message_brok.Storage.Stored.{new_batch}

-- File operations that all succeed.
pub record Works (io : AppendIo) : Type 0 where
  pub files : Bytes × Bytes
  pub creates : io.new_files ≡ some files
  pub writes : io.write ≡ complete
  pub roll_log : io.roll_flush.log ≡ true
  pub roll_index : io.roll_flush.index ≡ true
  pub log : io.flush.log ≡ true
  pub index : io.flush.index ≡ true

module _ (io : AppendIo) (w : Works io) where
  roll-succeeds :
      (n : ℕ) (s : Store)
      → ((roll io n s).1 ≡ true)
        × ((roll io n s).0.log_end_offset ≡ s.log_end_offset)
        × (((roll io n s).0.active_segment.base_offset ≡ s.log_end_offset)
            ⊎ ((roll io n s).0.active_segment.base_offset ≡ s.active_segment.base_offset))
  unfolding roll roll_to flush flush_index new_segment
  roll-succeeds n s =
      let a = w.creates in
      let b = w.roll_log in let c = w.roll_index in (ground arith, ground arith, ground arith)

  flush_policy-succeeds : (p : ℕ × ℕ) (s : Store) → (flush_policy io p s).1 ≡ ok p
  unfolding flush_policy flush flush_index
  flush_policy-succeeds p s = let b = w.log in let c = w.index in ground arith

  append_data-succeeds : (bs : Bytes) (a : Segment) → (append_data io.write bs a).1 ≡ true
  unfolding append_data is_complete
  append_data-succeeds bs a = rw w.writes refl

  append_active-succeeds :
      (count : ℕ) (bs : Bytes) (s : Store)
      → s.active_segment.base_offset ≤ s.log_end_offset
      → s.log_end_offset < s.active_segment.base_offset + 2 ^ 32
      → s.log_end_offset < 2 ^ 64
      → (append_active io count bs s).1
        ≡ ok (s.log_end_offset, (s.log_end_offset + count + 2 ^ 64 - 1) % 2 ^ 64)
  unfolding append_active
  append_active-succeeds count bs s low near lt =
      let base = s.log_end_offset in
      let relative = (base + 2 ^ 64 - s.active_segment.base_offset) % 2 ^ 64 in
      let last = (base + count + 2 ^ 64 - 1) % 2 ^ 64 in
      let small : relative < 2 ^ 32 = omega arith in
      let near' : leb (2 ^ 32) relative ≡ false = ground arith in
      simp (near', append_data-succeeds bs s.active_segment)
        (flush_policy-succeeds (base, last)
          (advance io relative s.active_segment.size ((last + 1) % 2 ^ 64)
            (append_data io.write bs s.active_segment).0 s))

  append_encoded-succeeds :
      (count : ℕ) (bs : Bytes) (s : Store)
      → length bs ≤ s.max_batch_bytes
      → s.active_segment.base_offset ≤ s.log_end_offset
      → s.log_end_offset < s.active_segment.base_offset + 2 ^ 32
      → s.log_end_offset < 2 ^ 64
      → (append_encoded io count bs s).1
        ≡ ok (s.log_end_offset, (s.log_end_offset + count + 2 ^ 64 - 1) % 2 ^ 64)
  unfolding append_encoded
  append_encoded-succeeds count bs s fits low near lt =
      let s' = (roll io (length bs) s).0 in
      let (done, end, base) = roll-succeeds (length bs) s in
      let low' : s'.active_segment.base_offset ≤ s'.log_end_offset = ground arith in
      let near' : s'.log_end_offset < s'.active_segment.base_offset + 2 ^ 32 = ground arith in
      let active = append_active-succeeds count bs s' low' near' (omega arith) in
      simp (le→ltb s.max_batch_bytes (length bs) fits, done) (rw end at active)

-- Append of records that fit the limit returns their offsets, if the store works, its active segment
-- began less than 2^32 offsets ago, and the file operations succeed.
pub append-succeeds :
    (crc : Checksum) (io : AppendIo) (r : Record) (rs : List Record) (s : Store)
    → Works io
    → s.closed ≡ false
    → s.write_failed ≡ false
    → batch_size (new_batch s.log_end_offset io.now r rs) ≤ s.max_batch_bytes
    → s.active_segment.base_offset ≤ s.log_end_offset
    → s.log_end_offset < s.active_segment.base_offset + 2 ^ 32
    → s.log_end_offset + length (r ∷ rs) < 2 ^ 64
    → (append crc io (r ∷ rs) s).1 ≡ ok (s.log_end_offset, s.log_end_offset + length rs)
append-succeeds crc io r rs s w is_open working fits low near room =
    let b = new_batch s.log_end_offset io.now r rs in
    let size = length-encoded crc b.first b.rest in
    let last : (s.log_end_offset + length (r ∷ rs) + 2 ^ 64 - 1) % 2 ^ 64
        ≡ s.log_end_offset + length rs =
      omega arith in
    let done =
      append_encoded-succeeds io w (length (r ∷ rs)) (batch_bytes crc b) s (omega (arith, size)) low
        near (omega arith) in
    let e : append crc io (r ∷ rs) s ≡ append_encoded io (length (r ∷ rs)) (batch_bytes crc b) s =
      append-cons crc io r rs s ∙ simp (is_open, working) refl in
    rw e (done ∙ ap (λ (n : ℕ). ok (s.log_end_offset, n)) last)
