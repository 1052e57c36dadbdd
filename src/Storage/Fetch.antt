-- ===== src/Storage/Fetch.antt =====
-- Read against its description: over segments whose files hold encoded batches, and whose index
-- entries point to batches.
use mathlib.Core.Path.{subst}
use distributed_message_brok.Prelude.{
  ℕ, zero, suc, ◌+◌, ◌-◌, ◌%◌, ◌^◌, ◌≤◌, ◌<◌, ◌≡◌, inl, inr, refl, sym, ap, ◌∙◌, List, [], ◌∷◌,
  ◌++◌, append_assoc, Bool, true, false, arith, All, ltb, Bool-cases, length, length-append, drop,
  drop-append, All-append_right, All-map, get_elem?, some, none, ok,
}
use distributed_message_brok.Bytes.{Checksum}
use distributed_message_brok.Model.{StoredRecord}
use distributed_message_brok.Storage.{Segment, IndexEntry}
use distributed_message_brok.Storage.SegmentFile.{log_bytes}
use distributed_message_brok.Storage.Batches.{Batch, batch_records, content, records_of}
use distributed_message_brok.Storage.Read.{
  Progress, take_records, scan_segment, sort_search, entry_after, position_at, start_position,
}
use distributed_message_brok.Storage.Search.{sort_search-Found}
use distributed_message_brok.Storage.Select.{then_take, take_records-append, take_records-before}
use distributed_message_brok.Storage.Scanning.{Fits, scan_segment-content}

-- An index entry stands at the boundary of two batches, and the records in front of it are behind
-- its offset.
pub record Boundary (crc : Checksum) (base : ℕ) (bs : List Batch) (e : IndexEntry) : Type 0 where
  pub before : List Batch
  pub after : List Batch
  pub split : before ++ after ≡ bs
  pub place : e.position ≡ length (content crc before)
  pub behind : All (λ r. r.offset < (base + e.relative_offset) % 2 ^ 64) (records_of before)

-- A segment with the batches of its file.
pub record Held : Type 0 where
  pub segment : Segment
  pub batches : List Batch

pub record Holds (crc : Checksum) (h : Held) : Type 0 where
  pub log : log_bytes h.segment ≡ content crc h.batches
  pub fits : All Fits h.batches
  pub index : All (Boundary crc h.segment.base_offset h.batches) h.segment.index_entries

pub content-append :
    (crc : Checksum) (xs ys : List Batch)
    → content crc (xs ++ ys) ≡ content crc xs ++ content crc ys
unfolding content
content-append crc [] ys = refl
content-append crc (x ∷ xs) ys =
    rw (content-append crc xs ys) (sym (append_assoc _ (content crc xs) (content crc ys)))

pub records_of-append :
    (xs ys : List Batch) → records_of (xs ++ ys) ≡ records_of xs ++ records_of ys
unfolding records_of
records_of-append [] ys = refl
records_of-append (x ∷ xs) ys =
    rw (records_of-append xs ys)
      (sym (append_assoc (batch_records x) (records_of xs) (records_of ys)))

-- A place in the file from which a read of `current` may start.
record Place (crc : Checksum) (current : ℕ) (bs : List Batch) (position : ℕ) : Type 0 where
  before : List Batch
  after : List Batch
  split : before ++ after ≡ bs
  place : position ≡ length (content crc before)
  behind : All (λ r. r.offset < current) (records_of before)

position_at-Place :
    (crc : Checksum) (base current : ℕ) (bs : List Batch) (es : List IndexEntry) (j : ℕ)
    → All (Boundary crc base bs) es
    → (elim (get_elem? es j) as (λ x. Bool) [
      | none ↦ true
      | some e ↦ ltb current ((base + e.relative_offset) % 2 ^ 64)
    ])
      ≡ false
    → Place crc current bs (position_at es j)
unfolding position_at
position_at-Place crc base current bs [] j h found = absurd (ground arith)
position_at-Place crc base current bs (e ∷ es) zero (h, hs) found =
    let le : (base + e.relative_offset) % 2 ^ 64 ≤ current = ground arith in
    record {
      before = h.before;
      after = h.after;
      split = h.split;
      place = h.place;
      behind = All-map (λ r lt. omega arith) (records_of h.before) h.behind;
    }
position_at-Place crc base current bs (e ∷ es) (suc j) (h, hs) found =
    position_at-Place crc base current bs es j hs found

start_position-Place :
    (crc : Checksum) (h : Held) (current : ℕ)
    → Holds crc h
    → Place crc current h.batches (start_position h.segment current)
unfolding start_position entry_after records_of content
start_position-Place crc h current ok_ =
    let s = h.segment in
    let n = length s.index_entries in
    let idx = sort_search n (entry_after s current) in
    let found = sort_search-Found n (entry_after s current) in
    let start : Place crc current h.batches 0 = record {
      before = [];
      after = h.batches;
      split = refl;
      place = refl;
      behind = tt;
    } in
    elim (Bool-cases (ltb 0 idx)) [
      | inr first ↦ rw first start
      | inl later ↦ rw later (elim found.below [
        | inl e ↦ absurd (ground arith)
        | inr e ↦
            position_at-Place crc s.base_offset current h.batches s.index_entries (idx - 1)
              ok_.index e
      ])
    ]

-- The scan of a segment is the loop over all its records: what the index lets it pass by is behind
-- the offset.
pub scan_segment-Holds :
    (crc : Checksum) (max : ℕ) (h : Held) (p : Progress)
    → Holds crc h
    → scan_segment crc max
        (length (log_bytes h.segment))
        (drop (start_position h.segment p.current) (log_bytes h.segment))
        p
      ≡ ok (take_records max (records_of h.batches) p)
scan_segment-Holds crc max h p ok_ =
    let q = start_position-Place crc h p.current ok_ in
    let bytes : log_bytes h.segment ≡ content crc q.before ++ content crc q.after =
      ok_.log ∙ ap (content crc) (sym q.split) ∙ content-append crc q.before q.after in
    let fits : All Fits q.after =
      All-append_right Fits q.before q.after (subst (All Fits) (sym q.split) ok_.fits) in
    let recs : take_records max (records_of q.after) p ≡ take_records max (records_of h.batches) p =
      sym (
        ap (λ (t : List Batch). take_records max (records_of t) p) (sym q.split)
        ∙ ap (λ (t : List StoredRecord). take_records max t p) (records_of-append q.before q.after)
        ∙ take_records-append max (records_of q.before) (records_of q.after) p
        ∙ ap (then_take max (records_of q.after))
            (take_records-before max (records_of q.before) p q.behind)) in
    rw (bytes, q.place, drop-append (content crc q.before) (content crc q.after))
      (scan_segment-content crc max q.after _ p fits
        (omega (arith, length-append (content crc q.before) (content crc q.after))))
    ∙ ap ok recs
