-- ===== src/Storage/Refine.antt =====
-- Read on the log as one list of records.
use native.Mathlib.Decide.{dec_lt}
use distributed_message_brok.Prelude.{
  ℕ, zero, suc, ◌-◌, ◌≤◌, ◌<◌, ◌≡◌, ◌⊎◌, inl, inr, refl, sym, ap, ◌∙◌, List, [], ◌∷◌, ◌++◌,
  append_assoc, false, arith, All, All-map, All-drop, lt→ltb, le→leb, Bool-cases, length, take,
  drop, ok, ◌==◌,
}
use distributed_message_brok.Bytes.{Checksum}
use distributed_message_brok.Model.{StoredRecord}
use distributed_message_brok.Storage.{Segment, Store}
use distributed_message_brok.Storage.Batches.{records_of}
use distributed_message_brok.Storage.Read.{
  Progress, Step, take_records, sort_search, read_segments, segment_after, segments, read,
}
use distributed_message_brok.Storage.Search.{sort_search-Found}
use distributed_message_brok.Storage.Select.{
  select, select-behind, finish, then_take, take_records-append, take_records-before,
  take_records-select,
}
use distributed_message_brok.Storage.Fetch.{Held, Holds}
use distributed_message_brok.Storage.Log.{
  segments_of, log_records, LogHolds, log_records-Ascending, log_records-below, LogHolds-All,
  segment_after-Behind, read_segments-Holds,
}

length-segments_of : (hs : List Held) → length (segments_of hs) ≡ length hs
length-segments_of [] = refl
length-segments_of (h ∷ hs) = ap suc (length-segments_of hs)

drop-segments_of : (n : ℕ) (hs : List Held) → drop n (segments_of hs) ≡ segments_of (drop n hs)
drop-segments_of zero hs = refl
drop-segments_of (suc n) [] = refl
drop-segments_of (suc n) (h ∷ hs) = drop-segments_of n hs

log_records-take-drop :
    (n : ℕ) (hs : List Held) → log_records (take n hs) ++ log_records (drop n hs) ≡ log_records hs
unfolding log_records
log_records-take-drop zero hs = refl
log_records-take-drop (suc n) [] = refl
log_records-take-drop (suc n) (h ∷ hs) =
    append_assoc (records_of h.batches) (log_records (take n hs)) (log_records (drop n hs))
    ∙ ap (λ (t : List StoredRecord). records_of h.batches ++ t) (log_records-take-drop n hs)

-- A store that is open and has not failed, whose segments hold the batches of `hs`.
pub record StoreHolds (crc : Checksum) (s : Store) (hs : List Held) : Type 0 where
  pub parts : segments s ≡ segments_of hs
  pub log : LogHolds crc s.earliest_offset hs s.log_end_offset
  pub is_open : s.closed ≡ false
  pub working : s.write_failed ≡ false

module _ (crc : Checksum) (s : Store) (hs : List Held) (holds : StoreHolds crc s hs)
    (offset : ℕ) where
  -- What the search leaves in front of the place it finds.
  record BehindAt (i : ℕ) : Type 0 where
    passed : All (λ r. r.offset < offset) (log_records (take i hs))
    last : i ≡ length hs → s.log_end_offset ≤ offset

  front :
      s.earliest_offset ≤ offset
      → (i : ℕ) → (i ≡ 0) ⊎ (segment_after (segments_of hs) offset (i - 1) ≡ false)
      → BehindAt i
  unfolding log_records
  front lo zero h = record { passed = tt; last = λ e. none_left hs (omega arith) holds.log }
    where
      none_left :
          (hs' : List Held)
          → length hs' ≡ 0
          → LogHolds crc s.earliest_offset hs' s.log_end_offset
          → s.log_end_offset ≤ offset
      none_left [] e eq = omega arith
      none_left (x ∷ xs) e eq = absurd (omega arith)
  front lo (suc i) (inl e) = absurd (omega arith)
  front lo (suc i) (inr e) =
      let at_i : suc i - 1 ≡ i = omega arith in
      let b =
        segment_after-Behind crc s.earliest_offset s.log_end_offset offset i hs holds.log
          (ap (segment_after (segments_of hs) offset) (sym at_i) ∙ e) in
      record { passed = b.passed; last = b.last }

  abbrev found_at : ℕ
  found_at = sort_search (length hs) (segment_after (segments_of hs) offset)

  found : s.earliest_offset ≤ offset → BehindAt found_at
  found lo =
      let f = sort_search-Found (length hs) (segment_after (segments_of hs) offset) in
      front lo found_at f.below

  found_lt : s.earliest_offset ≤ offset → offset < s.log_end_offset → found_at < length hs
  found_lt lo lt =
      let f = sort_search-Found (length hs) (segment_after (segments_of hs) offset) in
      elim (dec_lt found_at (length hs)) [
        | yes y ↦ y
        | no n ↦ absurd (omega (arith, f.in_range, (found lo).last (omega (arith, f.in_range))))
      ]

  found_segments :
      (max : ℕ)
      → s.earliest_offset ≤ offset
      → read_segments crc max
          (drop found_at (segments_of hs))
          (record { result = []; bytes = 0; current = offset })
        ≡ ok (select max offset (log_records hs))
  found_segments max lo =
      let p : Progress = record { result = []; bytes = 0; current = offset } in
      let front = log_records (take found_at hs) in
      let back = log_records (drop found_at hs) in
      ap (λ (t : List Segment). read_segments crc max t p) (drop-segments_of found_at hs)
      ∙ read_segments-Holds crc max (drop found_at hs) p (
          All-drop (Holds crc) found_at hs
            (LogHolds-All crc s.earliest_offset s.log_end_offset hs holds.log))
      ∙ ap (λ (t : Step). ok (finish t))
          (sym (
            take_records-append max front back p
            ∙ ap (then_take max back) (take_records-before max front p (found lo).passed)))
      ∙ ap (λ (t : List StoredRecord). ok (finish (take_records max t p)))
          (log_records-take-drop found_at hs)
      ∙ ap ok (
          take_records-select max offset s.earliest_offset (log_records hs)
            (log_records-Ascending crc s.earliest_offset s.log_end_offset hs holds.log))

-- Read of an open store that has not failed, at an offset between the earliest and the end of the
-- log, with a limit above zero, returns the records from the offset on, in the order of the log:
-- the first of them whatever its size, and then as many as stay with it within the limit; at the
-- end of the log it returns none. The store's files hold encoded batches, its offsets rise, and its
-- index entries stand between batches and are not ahead of what they pass by.
pub read-select :
    (crc : Checksum) (s : Store) (hs : List Held) (offset max : ℕ)
    → StoreHolds crc s hs
    → 0 < max
    → s.earliest_offset ≤ offset
    → offset ≤ s.log_end_offset
    → read crc offset max s ≡ ok (select max offset (log_records hs))
unfolding read
read-select crc s hs offset max holds hmax lo hi =
    let at = found_at crc s hs holds offset in
    rw
      (
        holds.parts,
        length-segments_of hs,
        lt→ltb 0 max hmax,
        holds.is_open,
        holds.working,
        le→leb s.earliest_offset offset lo,
        le→leb offset s.log_end_offset hi,
      )
      (elim (Bool-cases (offset == s.log_end_offset)) [
        | inl e ↦ rw e (
            let same : offset ≡ s.log_end_offset = ground arith in
            ap ok (
              sym (
                select-behind max offset (log_records hs) (
                  All-map (λ r l. omega arith) (log_records hs)
                    (log_records-below crc s.earliest_offset s.log_end_offset hs holds.log)))))
        | inr e ↦
            rw (e, lt→ltb at (length hs) (found_lt crc s hs holds offset lo (ground arith)))
              (found_segments crc s hs holds offset max lo)
      ])
