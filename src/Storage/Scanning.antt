-- ===== src/Storage/Scanning.antt =====
-- The scan of a segment by Read, over a file that holds encoded batches.
use distributed_message_brok.Prelude.{
  ℕ, zero, suc, ◌+◌, ◌-◌, ◌%◌, ◌^◌, ◌≤◌, ◌≡◌, refl, sym, ap, ◌∙◌, List, [], ◌∷◌, ◌++◌, append-nil,
  arith, All, le→leb, length, length-append, take, drop, take-append, drop-append, ok, Result,
}
use distributed_message_brok.Bytes.{Bytes, Checksum, get_be, get_be-put_u32}
use distributed_message_brok.Model.{StoredRecord}
use distributed_message_brok.Format.Decode.{slice, decode_batch}
use distributed_message_brok.Format.RoundTrip.{
  FitsBatch, max_of, body_of, length_field, decode_batch-encoded, length-encoded,
}
use distributed_message_brok.Storage.{StoreError}
use distributed_message_brok.Storage.Recover.{decoded}
use distributed_message_brok.Storage.Batches.{
  Batch, batch_records, batch_size, batch_bytes, content, records_of, batch_size_ge,
}
use distributed_message_brok.Storage.Read.{Progress, Step, stop, more, take_records, scan_segment}
use distributed_message_brok.Storage.Select.{then_take, take_records-append}

abbrev pub Fits : Batch → Type 0
Fits b = FitsBatch b.first b.rest

-- How the scan goes on after a batch.
abbrev go_on : Checksum → ℕ → ℕ → Bytes → Step → Result StoreError Step
go_on crc max fuel rest (stop rs) = ok (stop rs)
go_on crc max fuel rest (more p) = scan_segment crc max fuel rest p

-- One round of the scan, from what the header and the decoder give.
scan_segment-step :
    (crc : Checksum) (max fuel : ℕ) (bs : Bytes) (p : Progress) {recs : List StoredRecord}
    → 9 ≤ length bs
    → 9 + get_be (slice 5 9 bs) ≤ length bs
    → decode_batch crc (take (9 + get_be (slice 5 9 bs)) bs) ≡ ok recs
    → scan_segment crc max (suc fuel) bs p
      ≡ go_on crc max fuel (drop (9 + get_be (slice 5 9 bs)) bs) (take_records max recs p)
unfolding scan_segment decoded
scan_segment-step crc max fuel [] p nine fit d = absurd (omega arith)
scan_segment-step crc max fuel (b ∷ bs) p {recs} nine fit d =
    rw
      (
        le→leb 9 (length (b ∷ bs)) nine,
        le→leb (9 + get_be (slice 5 9 (b ∷ bs))) (length (b ∷ bs)) fit,
        d,
      )
      (go (take_records max recs p))
  where
    go :
        (s : Step)
        → (elim s as (λ x. Result StoreError Step) [
          | stop result ↦ ok (stop result)
          | more p' ↦ scan_segment crc max fuel (drop (9 + get_be (slice 5 9 (b ∷ bs))) (b ∷ bs)) p'
        ])
          ≡ go_on crc max fuel (drop (9 + get_be (slice 5 9 (b ∷ bs))) (b ∷ bs)) s
    go (stop rs) = refl
    go (more q) = refl

module _ (crc : Checksum) (b : Batch) (f : Fits b) (more_ : Bytes) where
  length_of_batch : 9 + (batch_size b - 9) % 2 ^ 32 ≡ batch_size b
  length_of_batch = omega (arith, f.length_lt, batch_size_ge b)

  size_with : length (batch_bytes crc b ++ more_) ≡ batch_size b + length more_
  size_with =
      length-append (batch_bytes crc b) more_ ∙ omega (arith, length-encoded crc b.first b.rest)

  take_batch : take (batch_size b) (batch_bytes crc b ++ more_) ≡ batch_bytes crc b
  take_batch =
      ap (λ (t : ℕ). take t (batch_bytes crc b ++ more_)) (sym (length-encoded crc b.first b.rest))
      ∙ take-append (batch_bytes crc b) more_

  drop_batch : drop (batch_size b) (batch_bytes crc b ++ more_) ≡ more_
  drop_batch =
      ap (λ (t : ℕ). drop t (batch_bytes crc b ++ more_)) (sym (length-encoded crc b.first b.rest))
      ∙ drop-append (batch_bytes crc b) more_

  length_field_with : 9 + get_be (slice 5 9 (batch_bytes crc b ++ more_)) ≡ batch_size b
  length_field_with =
      ap (λ (t : Bytes). 9 + get_be t)
        (length_field ((batch_size b - 9) % 2 ^ 32) _ b.first.offset
          (length (batch_records b) % 2 ^ 32) (max_of crc b.first b.rest)
          (body_of crc b.first b.rest) more_)
      ∙ ap (λ (t : ℕ). 9 + t) (get_be-put_u32 ((batch_size b - 9) % 2 ^ 32) (omega arith))
      ∙ length_of_batch

  decode_taken :
      decode_batch crc (take (batch_size b) (batch_bytes crc b ++ more_)) ≡ ok (batch_records b)
  decode_taken =
      ap (decode_batch crc) (take_batch ∙ sym (append-nil (batch_bytes crc b)))
      ∙ decode_batch-encoded crc b.first b.rest f []

scan_segment-batch :
    (crc : Checksum) (max fuel : ℕ) (b : Batch) (more_ : Bytes) (p : Progress)
    → Fits b
    → scan_segment crc max (suc fuel) (batch_bytes crc b ++ more_) p
      ≡ go_on crc max fuel more_ (take_records max (batch_records b) p)
scan_segment-batch crc max fuel b more_ p f =
    let bs = batch_bytes crc b ++ more_ in
    let e = length_field_with crc b f more_ in
    scan_segment-step crc max fuel bs p (omega (arith, size_with crc b f more_, batch_size_ge b))
      (omega (arith, e, size_with crc b f more_))
      (ap (λ (t : ℕ). decode_batch crc (take t bs)) e ∙ decode_taken crc b f more_)
    ∙ ap (λ (t : ℕ). go_on crc max fuel (drop t bs) (take_records max (batch_records b) p)) e
    ∙ ap (λ (t : Bytes). go_on crc max fuel t (take_records max (batch_records b) p))
        (drop_batch crc b f more_)

-- The scan over encoded batches is the loop over all their records.
pub scan_segment-content :
    (crc : Checksum) (max : ℕ) (bs : List Batch) (fuel : ℕ) (p : Progress)
    → All Fits bs
    → length (content crc bs) ≤ fuel
    → scan_segment crc max fuel (content crc bs) p ≡ ok (take_records max (records_of bs) p)
unfolding content records_of
scan_segment-content crc max [] fuel p fs h = unfold scan_segment take_records in refl
scan_segment-content crc max (b ∷ bs) zero p (f, fs) h =
    absurd (omega (arith, size_with crc b f (content crc bs), batch_size_ge b))
scan_segment-content crc max (b ∷ bs) (suc fuel) p (f, fs) h =
    scan_segment-batch crc max fuel b (content crc bs) p f
    ∙ go
        (λ q.
          scan_segment-content crc max bs fuel q fs
            (omega (arith, size_with crc b f (content crc bs), batch_size_ge b)))
        (take_records max (batch_records b) p)
    ∙ ap ok (sym (take_records-append max (batch_records b) (records_of bs) p))
  where
    go :
        ((q : Progress)
          → scan_segment crc max fuel (content crc bs) q ≡ ok (take_records max (records_of bs) q))
        → (s : Step) → go_on crc max fuel (content crc bs) s ≡ ok (then_take max (records_of bs) s)
    go again (stop rs) = refl
    go again (more q) = again q
