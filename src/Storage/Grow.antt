-- ===== src/Storage/Grow.antt =====
-- Append on a consistent store.
use distributed_message_brok.Prelude.{
  ℕ, ◌+◌, ◌^◌, ◌<◌, ◌≡◌, inl, inr, refl, sym, ap, ◌∙◌, List, [], ◌∷◌, ◌++◌, append-nil,
  append_assoc, true, false, ◌&&◌, arith, length, Option, none, some, ltb, Bool-cases,
}
use distributed_message_brok.Bytes.{Bytes, Checksum}
use distributed_message_brok.Model.{StoredRecord}
use distributed_message_brok.Storage.{Segment, Store}
use distributed_message_brok.Storage.SegmentFile.{FlushIo, flush, flush_index, new_segment}
use distributed_message_brok.Storage.Batches.{Batch, content, records_of}
use distributed_message_brok.Storage.Append.{AppendIo, roll_to, roll}
use distributed_message_brok.Storage.Fetch.{Held}
use distributed_message_brok.Storage.Log.{log_records}
use distributed_message_brok.Storage.Consistent.{Whole, Linked, Consistent, segments_of-snoc}

-- Flags, timestamps and the index file do not matter to a whole segment.
pub record SameLog (a b : Segment) : Type 0 where
  pub same_base : b.base_offset ≡ a.base_offset
  pub same_next : b.next_offset ≡ a.next_offset
  pub same_size : b.size ≡ a.size
  pub same_file : b.file ≡ a.file
  pub same_entries : b.index_entries ≡ a.index_entries

pub flush-SameLog : (io : FlushIo) (a : Segment) → SameLog a (flush io a).0
unfolding flush flush_index
flush-SameLog io a = record {
  same_base = ground arith;
  same_next = ground arith;
  same_size = ground arith;
  same_file = ground arith;
  same_entries = ground arith;
}

module _ (crc : Checksum) (max_batch : ℕ) where
  pub Linked-last :
      (lo : ℕ) (hs : List Held) (last : Held) (hi : ℕ)
      → Linked crc max_batch lo (hs ++ last ∷ []) hi
      → Whole crc max_batch last × (last.segment.next_offset ≡ hi)
  Linked-last lo [] last hi (base, w, e) = (w, e)
  Linked-last lo (h ∷ hs) last hi (base, w, rest) =
      Linked-last h.segment.next_offset hs last hi rest

  pub Linked-replace :
      (lo : ℕ) (hs : List Held) (last last' : Held) (hi : ℕ)
      → Linked crc max_batch lo (hs ++ last ∷ []) hi
      → Whole crc max_batch last'
      → last'.segment.base_offset ≡ last.segment.base_offset
      → Linked crc max_batch lo (hs ++ last' ∷ []) last'.segment.next_offset
  Linked-replace lo [] last last' hi (base, w, e) w' same = (same ∙ base, w', refl)
  Linked-replace lo (h ∷ hs) last last' hi (base, w, rest) w' same =
      (base, w, Linked-replace h.segment.next_offset hs last last' hi rest w' same)

  pub Linked-snoc :
      (lo : ℕ) (hs : List Held) (hi : ℕ) (new : Held)
      → Linked crc max_batch lo hs hi
      → Whole crc max_batch new
      → new.segment.base_offset ≡ hi
      → Linked crc max_batch lo (hs ++ new ∷ []) new.segment.next_offset
  Linked-snoc lo [] hi new e w base = (base ∙ sym e, w, refl)
  Linked-snoc lo (h ∷ hs) hi new (base, w, rest) w' base' =
      (base, w, Linked-snoc h.segment.next_offset hs hi new rest w' base')

  pub Whole-SameLog :
      (a b : Segment) (bs : List Batch)
      → SameLog a b
      → Whole crc max_batch (record { segment = a; batches = bs })
      → Whole crc max_batch (record { segment = b; batches = bs })
  Whole-SameLog a b bs e w = record {
    file = e.same_file ∙ w.file;
    size = e.same_size ∙ w.size ∙ ap (λ (t : Bytes). length t) (sym e.same_file);
    chain = rw (e.same_base, e.same_next) w.chain;
    room = omega (arith, w.room, e.same_base);
    index = rw (e.same_base, e.same_entries) w.index;
  }

-- A rollover that opens its new segment finds both of its files empty.
abbrev pub Fresh : Option (Bytes × Bytes) → Type 0
Fresh new = (files : Bytes × Bytes) → new ≡ some files → files ≡ ([], [])

-- A store that goes on from `s`, with the batches of `last`.
module _ (crc : Checksum) where
  roll_to-Consistent :
      (new : Option (Bytes × Bytes)) (s : Store) (hs : List Held) (last : Held)
      → Consistent crc s hs last
      → Fresh new
      → (roll_to new s).1 ≡ true
      → s.log_end_offset < 2 ^ 64
      → Consistent crc
          (roll_to new s).0
          (hs ++ last ∷ [])
          (record { segment = (roll_to new s).0.active_segment; batches = [] })
  unfolding roll_to new_segment content records_of
  roll_to-Consistent none s hs last c fresh done lt = absurd (ground arith)
  roll_to-Consistent (some files) s hs last c fresh done lt =
      let e = fresh files refl in
      let new : Held = record {
        segment = new_segment s.log_end_offset true files.0 files.1;
        batches = [];
      } in
      let whole : Whole crc s.max_batch_bytes new =
        rw e (record { file = refl; size = refl; chain = refl; room = omega arith; index = tt }) in
      record {
        closed_part = rw (c.closed_part, c.active_part) (sym (segments_of-snoc hs last));
        active_part = refl;
        linked =
            Linked-snoc crc s.max_batch_bytes s.earliest_offset (hs ++ last ∷ []) s.log_end_offset
              new c.linked whole refl;
        is_open = c.is_open;
        working = c.working;
      }

  -- The active segment replaced by one with the same log.
  with_active-Consistent :
      (a : Segment) (s : Store) (hs : List Held) (last : Held)
      → Consistent crc s hs last
      → SameLog s.active_segment a
      → Consistent crc
          (record s { active_segment = a })
          hs
          (record { segment = a; batches = last.batches })
  with_active-Consistent a s hs last c same =
      let (w, e) =
        Linked-last crc s.max_batch_bytes s.earliest_offset hs last s.log_end_offset c.linked in
      let same' : SameLog last.segment a = rw c.active_part at same in
      let new : Held = record { segment = a; batches = last.batches } in
      record {
        closed_part = c.closed_part;
        active_part = refl;
        linked =
            rw (sym e, sym same'.same_next)
              (Linked-replace crc s.max_batch_bytes s.earliest_offset hs last new s.log_end_offset
                c.linked (Whole-SameLog crc s.max_batch_bytes last.segment a last.batches same' w)
                same'.same_base);
        is_open = c.is_open;
        working = c.working;
      }

-- A consistent store, with the records of its log.
pub record Logs (crc : Checksum) (s : Store) (recs : List StoredRecord) : Type 0 where
  pub front : List Held
  pub last : Held
  pub consistent : Consistent crc s front last
  pub records : log_records (front ++ last ∷ []) ≡ recs

pub log_records-snoc :
    (hs : List Held) (h : Held)
    → log_records (hs ++ h ∷ []) ≡ log_records hs ++ records_of h.batches
unfolding log_records
log_records-snoc [] h = append-nil (records_of h.batches)
log_records-snoc (x ∷ hs) h =
    rw (log_records-snoc hs h)
      (sym (append_assoc (records_of x.batches) (log_records hs) (records_of h.batches)))

module _ (crc : Checksum) where
  pub with_active-Logs :
      (a : Segment) (s : Store) (recs : List StoredRecord)
      → Logs crc s recs
      → SameLog s.active_segment a
      → Logs crc (record s { active_segment = a }) recs
  with_active-Logs a s recs l same = record {
    front = l.front;
    last = record { segment = a; batches = l.last.batches };
    consistent = with_active-Consistent crc a s l.front l.last l.consistent same;
    records =
        log_records-snoc l.front (record { segment = a; batches = l.last.batches })
        ∙ sym (log_records-snoc l.front l.last)
        ∙ l.records;
  }

  roll_to-Logs :
      (new : Option (Bytes × Bytes)) (s : Store) (recs : List StoredRecord)
      → Logs crc s recs
      → Fresh new
      → (roll_to new s).1 ≡ true
      → s.log_end_offset < 2 ^ 64
      → Logs crc (roll_to new s).0 recs
  unfolding records_of
  roll_to-Logs new s recs l fresh done lt = record {
    front = l.front ++ l.last ∷ [];
    last = record { segment = (roll_to new s).0.active_segment; batches = [] };
    consistent = roll_to-Consistent crc new s l.front l.last l.consistent fresh done lt;
    records =
        log_records-snoc (l.front ++ l.last ∷ [])
          (record { segment = (roll_to new s).0.active_segment; batches = [] })
        ∙ append-nil (log_records (l.front ++ l.last ∷ []))
        ∙ l.records;
  }

  -- A rollover that succeeds keeps the log.
  pub roll-Logs :
      (io : AppendIo) (n : ℕ) (s : Store) (recs : List StoredRecord)
      → Logs crc s recs
      → Fresh io.new_files
      → s.log_end_offset < 2 ^ 64
      → (roll io n s).1 ≡ true
      → Logs crc (roll io n s).0 recs
  unfolding roll
  roll-Logs io n s recs l fresh lt done =
      let full =
        ltb 0 s.active_segment.size && ltb s.segment_max_bytes (s.active_segment.size + n) in
      let a = (flush io.roll_flush s.active_segment).0 in
      let same = flush-SameLog io.roll_flush s.active_segment in
      elim (Bool-cases full) [
        | inr stays ↦ rw (roll, stays) l
        | inl rolls ↦ elim (Bool-cases (flush io.roll_flush s.active_segment).1) [
          | inr lost ↦ absurd (ground arith)
          | inl flushed ↦
              let closed : SameLog s.active_segment (record a { active = false }) = record {
                same_base = same.same_base;
                same_next = same.same_next;
                same_size = same.same_size;
                same_file = same.same_file;
                same_entries = same.same_entries;
              } in
              rw (roll, rolls, flushed)
                (roll_to-Logs io.new_files
                  (record s { active_segment = record a { active = false } }) recs
                  (with_active-Logs (record a { active = false }) s recs l closed) fresh
                  (rw (roll, rolls, flushed) at done) lt)
        ]
      ]
