-- ===== src/Storage/Consistent.antt =====
-- The invariant of an open store that has not failed: its files hold whole batches with consecutive
-- offsets, segment after segment, and its index entries stand between batches.
use distributed_message_brok.Prelude.{
  ℕ, ◌+◌, ◌%◌, ◌^◌, ◌<◌, ◌≡◌, refl, sym, ap, ◌∙◌, List, [], ◌∷◌, ◌++◌, append-nil, true, false,
  arith, All, length, length-append, take, take-append,
}
use distributed_message_brok.Bytes.{Bytes, Checksum}
use distributed_message_brok.Storage.{Segment, Store}
use distributed_message_brok.Storage.SegmentFile.{log_bytes}
use distributed_message_brok.Storage.Recover.{continuous}
use distributed_message_brok.Storage.Batches.{Batch, batch_records, content, records_of, Chain}
use distributed_message_brok.Storage.Read.{segments}
use distributed_message_brok.Storage.Scanning.{Fits}
use distributed_message_brok.Storage.Fetch.{Held, Holds, Boundary}
use distributed_message_brok.Storage.Log.{segments_of, LogHolds}
use distributed_message_brok.Storage.Refine.{StoreHolds}
use distributed_message_brok.Storage.Stored.{
  continuous-Ascending, continuous-below, continuous-append,
}

-- A segment whose log file is the batches of `h`, from its base offset to its next offset.
pub record Whole (crc : Checksum) (max_batch : ℕ) (h : Held) : Type 0 where
  pub file : h.segment.file ≡ content crc h.batches
  pub size : h.segment.size ≡ length h.segment.file
  pub chain : Chain max_batch h.segment.base_offset h.batches h.segment.next_offset
  pub room : h.segment.base_offset + length (records_of h.batches) < 2 ^ 64
  pub index : All (Boundary crc h.segment.base_offset h.batches) h.segment.index_entries

-- Each segment begins where the one before it ends.
abbrev pub Linked : Checksum → ℕ → ℕ → List Held → ℕ → Type 0
Linked crc max_batch lo [] hi = lo ≡ hi
Linked crc max_batch lo (h ∷ hs) hi =
    (h.segment.base_offset ≡ lo)
    × Whole crc max_batch h
    × Linked crc max_batch h.segment.next_offset hs hi

-- `hs` describes the closed segments, `last` the active one.
pub record Consistent (crc : Checksum) (s : Store) (hs : List Held) (last : Held) : Type 0 where
  pub closed_part : s.closed_segments ≡ segments_of hs
  pub active_part : s.active_segment ≡ last.segment
  pub linked : Linked crc s.max_batch_bytes s.earliest_offset (hs ++ last ∷ []) s.log_end_offset
  pub is_open : s.closed ≡ false
  pub working : s.write_failed ≡ false

module _ (max_batch : ℕ) where
  pub Chain-Fits : (lo : ℕ) (bs : List Batch) (hi : ℕ) → Chain max_batch lo bs hi → All Fits bs
  Chain-Fits lo [] hi e = tt
  Chain-Fits lo (b ∷ bs) hi (f, c, ch) =
      (f.format, Chain-Fits ((lo + length (batch_records b)) % 2 ^ 64) bs hi ch)

  pub Chain-next :
      (lo : ℕ) (bs : List Batch) (hi : ℕ)
      → Chain max_batch lo bs hi
      → lo + length (records_of bs) < 2 ^ 64
      → hi ≡ lo + length (records_of bs)
  unfolding records_of
  Chain-next lo [] hi e room = omega arith
  Chain-next lo (b ∷ bs) hi (f, c, ch) room =
      let l = length-append (batch_records b) (records_of bs) in
      let next : (lo + length (batch_records b)) % 2 ^ 64 ≡ lo + length (batch_records b) =
        omega arith in
      omega (arith, Chain-next (lo + length (batch_records b)) bs hi (rw next at ch) (omega arith))

  pub Chain-continuous :
      (lo : ℕ) (bs : List Batch) (hi : ℕ)
      → Chain max_batch lo bs hi
      → lo + length (records_of bs) < 2 ^ 64
      → continuous lo (records_of bs) ≡ true
  unfolding records_of
  Chain-continuous lo [] hi e room = unfold continuous in refl
  Chain-continuous lo (b ∷ bs) hi (f, c, ch) room =
      let l = length-append (batch_records b) (records_of bs) in
      let next : (lo + length (batch_records b)) % 2 ^ 64 ≡ lo + length (batch_records b) =
        omega arith in
      continuous-append lo (batch_records b) (records_of bs) (omega arith) c
        (Chain-continuous (lo + length (batch_records b)) bs hi (rw next at ch) (omega arith))

  pub Chain-append :
      (lo mid hi : ℕ) (xs ys : List Batch)
      → Chain max_batch lo xs mid
      → Chain max_batch mid ys hi
      → Chain max_batch lo (xs ++ ys) hi
  Chain-append lo mid hi [] ys e ch = rw e ch
  Chain-append lo mid hi (x ∷ xs) ys (f, c, chx) ch =
      (f, c, Chain-append ((lo + length (batch_records x)) % 2 ^ 64) mid hi xs ys chx ch)

pub Whole-Holds : (crc : Checksum) (max_batch : ℕ) (h : Held) → Whole crc max_batch h → Holds crc h
unfolding log_bytes
Whole-Holds crc max_batch h w = record {
  log =
      ap (λ (n : ℕ). take n h.segment.file) w.size
      ∙ ap (λ (t : Bytes). take (length h.segment.file) t) (sym (append-nil h.segment.file))
      ∙ take-append h.segment.file []
      ∙ w.file;
  fits = Chain-Fits max_batch h.segment.base_offset h.batches h.segment.next_offset w.chain;
  index = w.index;
}

pub Linked-LogHolds :
    (crc : Checksum) (max_batch lo : ℕ) (hs : List Held) (hi : ℕ)
    → Linked crc max_batch lo hs hi
    → LogHolds crc lo hs hi
Linked-LogHolds crc max_batch lo [] hi e = e
Linked-LogHolds crc max_batch lo (h ∷ hs) hi (base, w, rest) =
    let s = h.segment in
    let next = Chain-next max_batch s.base_offset h.batches s.next_offset w.chain w.room in
    let c = Chain-continuous max_batch s.base_offset h.batches s.next_offset w.chain w.room in
    (
      Whole-Holds crc max_batch h w,
      omega arith,
      rw base at (continuous-Ascending s.base_offset (records_of h.batches) c w.room),
      rw (← next) at (continuous-below s.base_offset (records_of h.batches) c w.room),
      Linked-LogHolds crc max_batch s.next_offset hs hi rest,
    )

pub segments_of-snoc :
    (hs : List Held) (h : Held) → segments_of (hs ++ h ∷ []) ≡ segments_of hs ++ h.segment ∷ []
segments_of-snoc [] h = refl
segments_of-snoc (x ∷ hs) h = ap (λ (t : List Segment). x.segment ∷ t) (segments_of-snoc hs h)

-- A consistent store is one that Read can rely on.
pub Consistent-StoreHolds :
    (crc : Checksum) (s : Store) (hs : List Held) (last : Held)
    → Consistent crc s hs last
    → StoreHolds crc s (hs ++ last ∷ [])
unfolding segments
Consistent-StoreHolds crc s hs last c = record {
  parts = rw (c.closed_part, c.active_part) (sym (segments_of-snoc hs last));
  log =
      Linked-LogHolds crc s.max_batch_bytes s.earliest_offset (hs ++ last ∷ []) s.log_end_offset
        c.linked;
  is_open = c.is_open;
  working = c.working;
}
