-- ===== src/Storage/Validate.antt =====
-- Index entries that pass validateIndexEntries of internal/storage/store.go.
use distributed_message_brok.Prelude.{
  ℕ, ◌+◌, ◌%◌, ◌^◌, ◌≤◌, ◌<◌, ◌≡◌, refl, sym, ap, ◌∙◌, List, [], ◌∷◌, ◌++◌, Option, none, some,
  true, arith, All, All-map, length, length-append, take, drop, drop-append,
}
use distributed_message_brok.Bytes.{Bytes, Checksum, eq_bytes, get_be}
use distributed_message_brok.Format.{magic_bytes}
use distributed_message_brok.Format.Decode.{slice}
use distributed_message_brok.Model.{StoredRecord}
use distributed_message_brok.Storage.{IndexEntry, Segment}
use distributed_message_brok.Storage.Index.{points_to_batch, validate_from, validate_index_entries}
use distributed_message_brok.Storage.Batches.{
  Batch, batch_records, batch_bytes, content, records_of, Chain, FitsLog,
}
use distributed_message_brok.Storage.Fetch.{Boundary, content-append, records_of-append}
use distributed_message_brok.Storage.Consistent.{Chain-continuous}
use distributed_message_brok.Storage.Stored.{continuous-below}
use distributed_message_brok.Storage.Rebuild.{first_offset, header_offset}

-- A batch that begins at a position of the log.
pub record BatchAt (crc : Checksum) (bs : List Batch) (p : ℕ) : Type 0 where
  pub before : List Batch
  pub here : Batch
  pub after : List Batch
  pub split : before ++ here ∷ after ≡ bs
  pub place : p ≡ length (content crc before)

-- The magic bytes with room for a header behind them stand in the log only where a batch begins.
abbrev pub MagicAtBatches : Checksum → List Batch → Type 0
MagicAtBatches crc bs =
    (p : ℕ)
    → p + 33 ≤ length (content crc bs)
    → eq_bytes (take 4 (drop p (content crc bs))) magic_bytes ≡ true
    → BatchAt crc bs p

-- What a chain says of one of its batches and of those in front of it.
record Within (max_batch lo : ℕ) (before : List Batch) (b : Batch) : Type 0 where
  front : Chain max_batch lo before (lo + length (records_of before))
  fits : FitsLog max_batch b
  offset : b.first.offset ≡ lo + length (records_of before)

Chain-Within :
    (max_batch lo : ℕ) (before : List Batch) (b : Batch) (after : List Batch) (next : ℕ)
    → Chain max_batch lo (before ++ b ∷ after) next
    → lo + length (records_of before) < 2 ^ 64
    → Within max_batch lo before b
unfolding records_of
Chain-Within max_batch lo [] b after next (f, c, ch) room = record {
  front = omega arith;
  fits = f;
  offset = first_offset b lo c ∙ omega arith;
}
Chain-Within max_batch lo (x ∷ xs) b after next (f, c, ch) room =
    let lo' = lo + length (batch_records x) in
    let count = length-append (batch_records x) (records_of xs) in
    let wrap : lo' % 2 ^ 64 ≡ lo' = omega (arith, count) in
    let w = Chain-Within max_batch lo' xs b after next (rw wrap at ch) (omega (arith, count)) in
    let end : lo' + length (records_of xs) ≡ lo + length (batch_records x ++ records_of xs) =
      omega (arith, count) in
    record { front = (f, c, rw (wrap, sym end) w.front); fits = w.fits; offset = w.offset ∙ end }

drop-content :
    (crc : Checksum) (before : List Batch) (b : Batch) (after : List Batch)
    → drop (length (content crc before)) (content crc (before ++ b ∷ after))
      ≡ batch_bytes crc b ++ content crc after
drop-content crc before b after =
    ap (drop (length (content crc before))) (content-append crc before (b ∷ after))
    ∙ drop-append (content crc before) (content crc (b ∷ after))
    ∙ unfold content in refl

module _ (crc : Checksum) (max_batch : ℕ) where
  points_to_batch-Boundary :
      (s : Segment) (bs : List Batch) (next : ℕ) (e : IndexEntry)
      → s.file ≡ content crc bs
      → MagicAtBatches crc bs
      → Chain max_batch s.base_offset bs next
      → s.base_offset + length (records_of bs) < 2 ^ 64
      → points_to_batch s (length (content crc bs)) e ≡ true
      → Boundary crc s.base_offset bs e
  unfolding points_to_batch
  points_to_batch-Boundary s bs next e file magic ch room h =
      let room_for : e.position + 33 ≤ length (content crc bs) = ground arith in
      let marked : eq_bytes (take 4 (drop e.position s.file)) magic_bytes ≡ true = ground arith in
      let named : get_be (slice 13 21 (drop e.position s.file))
          ≡ (s.base_offset + e.relative_offset) % 2 ^ 64 =
        ground arith in
      let at = magic e.position room_for (rw file at marked) in
      let count : length (records_of bs)
          ≡ length (records_of at.before) + length (records_of (at.here ∷ at.after)) =
        ap (λ (t : List Batch). length (records_of t)) (sym at.split)
        ∙ ap (λ (t : List StoredRecord). length t)
            (records_of-append at.before (at.here ∷ at.after))
        ∙ length-append (records_of at.before) (records_of (at.here ∷ at.after)) in
      let low : s.base_offset + length (records_of at.before) < 2 ^ 64 = omega (arith, count) in
      let w =
        Chain-Within max_batch s.base_offset at.before at.here at.after next
          (rw (sym at.split) at ch) low in
      let there : drop e.position s.file ≡ batch_bytes crc at.here ++ content crc at.after =
        ap (drop e.position) (file ∙ ap (content crc) (sym at.split))
        ∙ ap (λ (n : ℕ). drop n (content crc (at.before ++ at.here ∷ at.after))) at.place
        ∙ drop-content crc at.before at.here at.after in
      let offset : at.here.first.offset ≡ (s.base_offset + e.relative_offset) % 2 ^ 64 =
        sym (header_offset crc at.here max_batch w.fits (content crc at.after))
        ∙ ap (λ (t : Bytes). get_be (slice 13 21 t)) (sym there)
        ∙ named in
      record {
        before = at.before;
        after = at.here ∷ at.after;
        split = at.split;
        place = at.place;
        behind =
            All-map (λ r lt. omega (arith, w.offset, offset)) (records_of at.before)
              (continuous-below s.base_offset (records_of at.before)
                (Chain-continuous max_batch s.base_offset at.before _ w.front low) low);
      }

  validate_from-All :
      (s : Segment) (size : ℕ) (prev : Option IndexEntry) (es : List IndexEntry)
      → validate_from s size prev es ≡ true
      → All (λ e. points_to_batch s size e ≡ true) es
  unfolding validate_from
  validate_from-All s size prev [] h = tt
  validate_from-All s size prev (e ∷ es) h =
      (ground arith, validate_from-All s size (some e) es (ground arith))

  -- Entries that pass the validation stand between batches, in a log whose magic bytes do.
  pub validate_index_entries-Boundary :
      (s : Segment) (bs : List Batch) (next : ℕ) (es : List IndexEntry)
      → s.file ≡ content crc bs
      → MagicAtBatches crc bs
      → Chain max_batch s.base_offset bs next
      → s.base_offset + length (records_of bs) < 2 ^ 64
      → validate_index_entries s (length (content crc bs)) es ≡ true
      → All (Boundary crc s.base_offset bs) es
  unfolding validate_index_entries
  validate_index_entries-Boundary s bs next [] file magic ch room h = tt
  validate_index_entries-Boundary s bs next (e ∷ es) file magic ch room h =
      All-map (λ x at. points_to_batch-Boundary s bs next x file magic ch room at) (e ∷ es)
        (validate_from-All s (length (content crc bs)) none (e ∷ es) h)
