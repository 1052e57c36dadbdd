-- ===== src/Storage/Extend.antt =====
-- A segment that one more batch is written to: the log file, the offsets and the index entry behind
-- the write of Append.
use distributed_message_brok.Prelude.{
  ℕ, ◌+◌, ◌%◌, ◌^◌, ◌<◌, ◌≡◌, ◌⊎◌, inl, inr, refl, sym, ap, ◌∙◌, List, [], ◌∷◌, ◌++◌, append-nil,
  append_assoc, true, arith, All, All-append, All-map, length, length-append, Bool-cases,
}
use distributed_message_brok.Bytes.{Bytes, Checksum}
use distributed_message_brok.File.{Write, is_complete, written_cases, write_at_end}
use distributed_message_brok.Storage.{IndexEntry, Segment, Store}
use distributed_message_brok.Storage.SegmentFile.{append_data, append_index_entry}
use distributed_message_brok.Storage.Index.{should_index}
use distributed_message_brok.Storage.Recover.{continuous}
use distributed_message_brok.Storage.Batches.{
  Batch, batch_records, batch_bytes, content, records_of, FitsLog,
}
use distributed_message_brok.Storage.Append.{AppendIo, advance}
use distributed_message_brok.Storage.Fetch.{Boundary, content-append, records_of-append}
use distributed_message_brok.Storage.Stored.{continuous-below}
use distributed_message_brok.Storage.Consistent.{Whole, Chain-next, Chain-append, Chain-continuous}

module _ (crc : Checksum) (base : ℕ) (bs : List Batch) (b : Batch) where
  Boundary-grow : (e : IndexEntry) → Boundary crc base bs e → Boundary crc base (bs ++ b ∷ []) e
  Boundary-grow e h = record {
    before = h.before;
    after = h.after ++ b ∷ [];
    split =
        sym (append_assoc h.before h.after (b ∷ [])) ∙ ap (λ (t : List Batch). t ++ b ∷ []) h.split;
    place = h.place;
    behind = h.behind;
  }

  Boundary-end :
      (e : IndexEntry)
      → e.position ≡ length (content crc bs)
      → All (λ r. r.offset < (base + e.relative_offset) % 2 ^ 64) (records_of bs)
      → Boundary crc base (bs ++ b ∷ []) e
  Boundary-end e place behind = record {
    before = bs;
    after = b ∷ [];
    split = refl;
    place = place;
    behind = behind;
  }

  pub content-snoc : content crc (bs ++ b ∷ []) ≡ content crc bs ++ batch_bytes crc b
  unfolding content
  content-snoc =
      content-append crc bs (b ∷ [])
      ∙ ap (λ (t : Bytes). content crc bs ++ t) (append-nil (batch_bytes crc b))

  pub length-records_of-snoc :
      length (records_of (bs ++ b ∷ [])) ≡ length (records_of bs) + length (batch_records b)
  unfolding records_of
  length-records_of-snoc =
      ap (λ t. length t) (records_of-append bs (b ∷ []))
      ∙ length-append (records_of bs) (batch_records b ++ [])
      ∙ ap (λ t. length (records_of bs) + length t) (append-nil (batch_records b))

-- What the write of one batch `b` makes of a segment.
pub record Extended (crc : Checksum) (a a' : Segment) (b : Batch) : Type 0 where
  pub same_base : a'.base_offset ≡ a.base_offset
  pub file : a'.file ≡ a.file ++ batch_bytes crc b
  pub size : a'.size ≡ a.size + length (batch_bytes crc b)
  pub next : a'.next_offset ≡ a.next_offset + length (batch_records b)
  pub entries :
      (a'.index_entries ≡ a.index_entries)
      ⊎ ((e : IndexEntry) × (a'.index_entries ≡ a.index_entries ++ e ∷ [])
          × (e.position ≡ a.size)
          × ((a.base_offset + e.relative_offset) % 2 ^ 64 ≡ a.next_offset))

module _ (crc : Checksum) (max_batch : ℕ) where
  Extended-index :
      (a a' : Segment) (bs : List Batch) (b : Batch)
      → Whole crc max_batch (record { segment = a; batches = bs })
      → Extended crc a a' b
      → All (Boundary crc a.base_offset (bs ++ b ∷ [])) a'.index_entries
  Extended-index a a' bs b w x =
      let old = All-map (Boundary-grow crc a.base_offset bs b) a.index_entries w.index in
      elim x.entries [
        | inl e ↦ rw e old
        | inr (e, new, position, relative) ↦
            let below =
              continuous-below a.base_offset (records_of bs)
                (Chain-continuous max_batch a.base_offset bs a.next_offset w.chain w.room) w.room in
            let next = Chain-next max_batch a.base_offset bs a.next_offset w.chain w.room in
            rw new (
              All-append (Boundary crc a.base_offset (bs ++ b ∷ [])) a.index_entries (e ∷ []) old (
                Boundary-end crc a.base_offset bs b e
                    (position ∙ w.size ∙ ap (λ (t : Bytes). length t) w.file)
                    (rw (relative, next) below),
                tt,
              ))
      ]

  -- A whole segment is whole behind the write of a batch that goes on with its offsets.
  pub Extended-Whole :
      (a a' : Segment) (bs : List Batch) (b : Batch)
      → Whole crc max_batch (record { segment = a; batches = bs })
      → Extended crc a a' b
      → FitsLog max_batch b
      → continuous a.next_offset (batch_records b) ≡ true
      → a.next_offset + length (batch_records b) < 2 ^ 64
      → Whole crc max_batch (record { segment = a'; batches = bs ++ b ∷ [] })
  Extended-Whole a a' bs b w x f c room =
      let next = Chain-next max_batch a.base_offset bs a.next_offset w.chain w.room in
      let count = length-records_of-snoc crc a.base_offset bs b in
      let wrap : (a.next_offset + length (batch_records b)) % 2 ^ 64 ≡ a'.next_offset =
        omega (arith, x.next) in
      record {
        file =
            x.file
            ∙ ap (λ (t : Bytes). t ++ batch_bytes crc b) w.file
            ∙ sym (content-snoc crc a.base_offset bs b);
        size =
            x.size
            ∙ ap (λ (t : ℕ). t + length (batch_bytes crc b)) w.size
            ∙ sym (length-append a.file (batch_bytes crc b))
            ∙ ap (λ (t : Bytes). length t) (sym x.file);
        chain = rw x.same_base (
            Chain-append max_batch a.base_offset a.next_offset a'.next_offset bs (b ∷ []) w.chain
              (f, c, wrap));
        room = omega (arith, x.same_base, count, next);
        index = rw x.same_base (Extended-index a a' bs b w x);
      }

record Written (a a' : Segment) (bs : Bytes) : Type 0 where
  same_base : a'.base_offset ≡ a.base_offset
  same_entries : a'.index_entries ≡ a.index_entries
  same_position : a'.last_indexed_position ≡ a.last_indexed_position
  file : a'.file ≡ a.file ++ bs
  size : a'.size ≡ a.size + length bs

append_data-Written :
    (w : Write) (bs : Bytes) (a : Segment)
    → a.size ≡ length a.file
    → (append_data w bs a).1 ≡ true
    → Written a (append_data w bs a).0 bs
unfolding append_data
append_data-Written w bs a size done = elim (Bool-cases (is_complete w bs)) [
  | inr short ↦ absurd (ground arith)
  | inl all ↦ elim (written_cases w bs) [
    | inr (k, lt, e, cut) ↦ cc
    | inl e ↦ rw all (record {
      same_base = refl;
      same_entries = refl;
      same_position = refl;
      file = rw (e, size) (write_at_end a.file bs);
      size = refl;
    })
  ]
]

module _ (crc : Checksum) (io : AppendIo) (b : Batch) where
  pub advance-Extended :
      (relative next : ℕ) (s : Store)
      → (append_data io.write (batch_bytes crc b) s.active_segment).1 ≡ true
      → s.active_segment.size ≡ length s.active_segment.file
      → relative < 2 ^ 32
      → (s.active_segment.base_offset + relative) % 2 ^ 64 ≡ s.active_segment.next_offset
      → next ≡ s.active_segment.next_offset + length (batch_records b)
      → Extended crc s.active_segment
          (advance io relative s.active_segment.size next
            (append_data io.write (batch_bytes crc b) s.active_segment).0
            s).active_segment
          b
  unfolding advance append_index_entry
  advance-Extended relative next s done size small offset count =
      let a = s.active_segment in
      let w = append_data-Written io.write (batch_bytes crc b) a size done in
      let a1 = (append_data io.write (batch_bytes crc b) a).0 in
      let entry : IndexEntry = record { relative_offset = relative % 2 ^ 32; position = a.size } in
      let same : relative % 2 ^ 32 ≡ relative = omega arith in
      elim (Bool-cases
        (should_index a1.index_entries a1.last_indexed_position a.size s.index_interval_bytes)) [
          | inr skip ↦ rw skip (record {
            same_base = w.same_base;
            file = w.file;
            size = w.size;
            next = count;
            entries = inl w.same_entries;
          })
          | inl index ↦ rw index (record {
            same_base = ground (arith, w.same_base);
            file = ground (arith, w.file);
            size = ground (arith, w.size);
            next = ground arith;
            entries = inr (entry, ground (arith, w.same_entries), refl, rw same offset);
          })
        ]
