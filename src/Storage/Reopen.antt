-- ===== src/Storage/Reopen.antt =====
-- OpenStore on the segment files that appends leave, with a batch cut off at the end of the last one.
use mathlib.Core.Path.{subst}
use distributed_message_brok.Prelude.{
  ℕ, ◌+◌, ◌*◌, ◌^◌, ◌≤◌, ◌<◌, ◌≡◌, inl, inr, refl, sym, ap, ◌∙◌, List, [], ◌∷◌, ◌++◌, append-nil,
  Option, none, some, Bool, true, false, not, ◌||◌, arith, All, length, length-append, take,
  take-append, ok, Result, Bool-cases, if◌then◌else◌,
}
use distributed_message_brok.Bytes.{Bytes, Checksum}
use distributed_message_brok.Storage.{StoreError, IndexEntry, Segment}
use distributed_message_brok.Storage.SegmentFile.{new_segment}
use distributed_message_brok.Storage.Index.{
  read_index_entries, validate_index_entries, encode_index, rebuild_index, Rebuilt,
}
use distributed_message_brok.Storage.Recover.{
  scan, torn, read_batch, later_timestamp, RecoverIo, recover_index, last_position, recover_segment,
}
use distributed_message_brok.Storage.Batches.{Batch, content, records_of, Chain}
use distributed_message_brok.Storage.Recovery.{is_empty, scan-content}
use distributed_message_brok.Storage.Fetch.{Boundary}
use distributed_message_brok.Storage.Consistent.{Whole}
use distributed_message_brok.Storage.Rebuild.{rebuild_loop-Entered}
use distributed_message_brok.Storage.Validate.{MagicAtBatches, validate_index_entries-Boundary}

-- File operations that all succeed.
pub record Recovers (io : RecoverIo) : Type 0 where
  pub opens : io.opens ≡ true
  pub truncates : io.truncate ≡ true
  pub rebuilds : io.rebuild ≡ true

record Indexed (crc : Checksum) (bs : List Batch) (s : Segment) (r : Result StoreError Segment)
    : Type 0 where
  end : Segment
  result : r ≡ ok end
  file : end.file ≡ s.file
  size : end.size ≡ s.size
  base : end.base_offset ≡ s.base_offset
  index : All (Boundary crc s.base_offset bs) end.index_entries

module _ (crc : Checksum) (max_batch interval : ℕ) where
  rebuild_index-Indexed :
      (s : Segment) (bs : List Batch) (next : ℕ)
      → s.file ≡ content crc bs
      → Chain max_batch s.base_offset bs next
      → s.base_offset + length (records_of bs) < 2 ^ 64
      → length (records_of bs) ≤ 2 ^ 32
      → Indexed crc bs s (rebuild_index interval true s (length (content crc bs)))
  unfolding rebuild_index records_of content
  rebuild_index-Indexed s bs next e ch room near =
      let start : Rebuilt = record { entries = []; last = none; max_timestamp = s.max_timestamp } in
      let zero_ : s.base_offset + 0 ≡ s.base_offset = omega arith in
      let bytes : take (length (content crc bs)) s.file ≡ content crc bs =
        ap (take (length (content crc bs))) (e ∙ sym (append-nil (content crc bs)))
        ∙ take-append (content crc bs) [] in
      let x =
        rebuild_loop-Entered crc max_batch s.base_offset interval bs [] (length (content crc bs))
          next start (rw zero_ ch) tt (omega arith) (omega arith) tt (omega arith) in
      record {
        end = record s {
          index_file = encode_index x.end.entries;
          index_entries = x.end.entries;
          last_indexed_position = x.end.last;
          index_dirty = false;
          index_size = length x.end.entries * 12;
          max_timestamp = x.end.max_timestamp;
        };
        result = rw (bytes, x.loop) refl;
        file = refl;
        size = refl;
        base = refl;
        index = x.index;
      }

  recover_index-Indexed :
      (io : RecoverIo) (s : Segment) (bs : List Batch) (next : ℕ)
      → io.rebuild ≡ true
      → MagicAtBatches crc bs
      → s.file ≡ content crc bs
      → Chain max_batch s.base_offset bs next
      → s.base_offset + length (records_of bs) < 2 ^ 64
      → length (records_of bs) ≤ 2 ^ 32
      → Indexed crc bs s (recover_index interval io s (length (content crc bs)))
  unfolding recover_index
  recover_index-Indexed io s bs next done magic e ch room near =
      let rebuilt : Indexed crc bs s
          (rebuild_index interval io.rebuild s (length (content crc bs))) =
        subst (λ d. Indexed crc bs s (rebuild_index interval d s (length (content crc bs))))
          (sym done) (rebuild_index-Indexed s bs next e ch room near) in
      by_entries (read_index_entries s) rebuilt
    where
      by_entries :
          (o : Option (List IndexEntry))
          → Indexed crc bs s (rebuild_index interval io.rebuild s (length (content crc bs)))
          → Indexed crc bs s (elim o as (λ x. Result StoreError Segment) [
            | none ↦ rebuild_index interval io.rebuild s (length (content crc bs))
            | some es ↦
                if validate_index_entries s (length (content crc bs)) es
                then ok (record s {
                  index_entries = es;
                  last_indexed_position = last_position s.last_indexed_position es;
                })
                else rebuild_index interval io.rebuild s (length (content crc bs))
          ])
      by_entries none rebuilt = rebuilt
      by_entries (some es) rebuilt =
          elim (Bool-cases (validate_index_entries s (length (content crc bs)) es)) [
            | inr bad ↦ rw bad rebuilt
            | inl valid ↦ rw valid (record {
              end = record s {
                index_entries = es;
                last_indexed_position = last_position s.last_indexed_position es;
              };
              result = refl;
              file = refl;
              size = refl;
              base = refl;
              index =
                  validate_index_entries-Boundary crc max_batch s bs next es e magic ch room valid;
            })
          ]

-- A recovered segment.
pub record Recovered (crc : Checksum) (max_batch : ℕ) (base next : ℕ) (bs : List Batch)
    (r : Result StoreError Segment) : Type 0 where
  pub segment : Segment
  pub result : r ≡ ok segment
  pub base_same : segment.base_offset ≡ base
  pub next_same : segment.next_offset ≡ next
  pub whole : Whole crc max_batch (record { segment = segment; batches = bs })

cut_tail :
    (xs tail : Bytes)
    → (if not (is_empty tail) then take (length xs) (xs ++ tail) else xs ++ tail) ≡ xs
unfolding is_empty
cut_tail xs [] = append-nil xs
cut_tail xs (b ∷ bs) = take-append xs (b ∷ bs)

cut_size :
    (xs tail : Bytes) → (if not (is_empty tail) then length xs else length (xs ++ tail)) ≡ length xs
unfolding is_empty
cut_size xs [] = ap (λ (t : Bytes). length t) (append-nil xs)
cut_size xs (b ∷ bs) = refl

module _ (crc : Checksum) (max_batch interval : ℕ) where
  pub recover_segment-Recovered :
      (io : RecoverIo) (base next : ℕ) (active : Bool) (bs : List Batch) (tail index : Bytes)
      → Recovers io
      → MagicAtBatches crc bs
      → Chain max_batch base bs next
      → base + length (records_of bs) < 2 ^ 64
      → length (records_of bs) ≤ 2 ^ 32
      → read_batch crc max_batch tail ≡ ok torn
      → (active || is_empty tail) ≡ true
      → Recovered crc max_batch base next bs (
          recover_segment crc max_batch interval io
            (new_segment base active (content crc bs ++ tail) index))
  unfolding recover_segment new_segment
  recover_segment-Recovered io base next active bs tail index done magic ch room near cut may =
      let log = content crc bs ++ tail in
      let size = length (content crc bs) in
      let t = later_timestamp 0 (records_of bs) in
      let zero_ : 0 + size ≡ size = omega arith in
      let found : scan crc max_batch active (length log) log 0 base 0
          ≡ ok (record {
            valid_size = size;
            next_offset = next;
            max_timestamp = t;
            is_torn = not (is_empty tail);
          }) =
        scan-content crc max_batch active bs (length log) tail 0 base next 0 ch cut
          (omega (arith, length-append (content crc bs) tail))
        ∙ rw (may, zero_) refl in
      let s : Segment = record (new_segment base active log index) {
        file = if not (is_empty tail) then take size log else log;
        size = if not (is_empty tail) then size else length log;
        max_timestamp = t;
      } in
      let x =
        recover_index-Indexed crc max_batch interval io s bs next done.rebuilds magic
          (cut_tail (content crc bs) tail) ch room near in
      let pass : (not (not (is_empty tail)) || io.truncate) ≡ true =
        ground (arith, done.truncates) in
      let file = x.file ∙ cut_tail (content crc bs) tail in
      record {
        segment = record x.end { next_offset = next };
        result = rw (found, pass, x.result) refl;
        base_same = x.base;
        next_same = refl;
        whole = record {
          file = file;
          size = x.size ∙ cut_size (content crc bs) tail ∙ ap (λ (u : Bytes). length u) (sym file);
          chain = rw x.base ch;
          room = omega (arith, x.base, room);
          index = rw x.base x.index;
        };
      }
