-- ===== src/Storage/Keep.antt =====
-- Append keeps the invariant of a store, and its log grows by the records of the call.
use distributed_message_brok.Prelude.{
  ℕ, suc, ◌+◌, ◌-◌, ◌%◌, ◌^◌, ◌≤◌, ◌<◌, ◌≡◌, inl, inr, refl, sym, ap, ◌∙◌, List, [], ◌∷◌, ◌++◌,
  append-nil, append_assoc, Bool, true, false, arith, length, ok, err, Result, ltb, leb, Bool-cases,
  if◌then◌else◌,
}
use distributed_message_brok.Bytes.{Checksum}
use distributed_message_brok.Model.{Record, StoredRecord}
use distributed_message_brok.Format.RoundTrip.{length-encoded}
use distributed_message_brok.Storage.{Store, StoreError, io_error}
use distributed_message_brok.Storage.SegmentFile.{flush, append_data}
use distributed_message_brok.Storage.Recover.{continuous}
use distributed_message_brok.Storage.Batches.{
  Batch, batch_records, batch_bytes, batch_size, records_of, FitsLog,
}
use distributed_message_brok.Storage.Append.{
  AppendIo, stored_records, roll, roll_to, flush_policy, advance, append_active, append_encoded,
  append,
}
use distributed_message_brok.Storage.Fetch.{Held, records_of-append}
use distributed_message_brok.Storage.Log.{log_records}
use distributed_message_brok.Storage.Assign.{append-cons}
use distributed_message_brok.Storage.Stored.{
  new_batch, length-stored_records, continuous-stored_records, new_batch-FitsLog,
}
use distributed_message_brok.Storage.Consistent.{Whole, Chain-next}
use distributed_message_brok.Storage.Extend.{Extended, Extended-Whole, advance-Extended}
use distributed_message_brok.Storage.Grow.{
  Fresh, Logs, Linked-last, Linked-replace, log_records-snoc, flush-SameLog, with_active-Logs,
  roll-Logs,
}

abbrev flush_result :
    Bool → Bool → Store → Store → Store → ℕ × ℕ → Store × Result StoreError (ℕ × ℕ)
flush_result sync flushed s1 s2 s p =
    if sync then (if flushed then (s1, ok p) else (s2, err io_error)) else (s, ok p)

-- The two ways in which the flush policy succeeds.
flush_result-ok :
    (P : Store → Type 0) (sync flushed : Bool) (s1 s2 s : Store) (p : ℕ × ℕ) {q : ℕ × ℕ}
    → P s1
    → P s
    → (flush_result sync flushed s1 s2 s p).1 ≡ ok q
    → P (flush_result sync flushed s1 s2 s p).0
flush_result-ok P true true s1 s2 s p a b h = a
flush_result-ok P true false s1 s2 s p a b h = cc
flush_result-ok P false flushed s1 s2 s p a b h = b

roll-same :
    (io : AppendIo) (n : ℕ) (s : Store)
    → (roll io n s).1 ≡ true
    → ((roll io n s).0.log_end_offset ≡ s.log_end_offset)
      × ((roll io n s).0.max_batch_bytes ≡ s.max_batch_bytes)
unfolding roll roll_to
roll-same io n s h = (ground arith, ground arith)

module _ (crc : Checksum) where
  -- The active segment replaced by one that a batch `b` is written to.
  extend-Logs :
      (s s' : Store) (recs : List StoredRecord) (b : Batch)
      → Logs crc s recs
      → s' ≡ record s { active_segment = s'.active_segment; log_end_offset = s'.log_end_offset }
      → Extended crc s.active_segment s'.active_segment b
      → s'.log_end_offset ≡ s.log_end_offset + length (batch_records b)
      → FitsLog s.max_batch_bytes b
      → continuous s.log_end_offset (batch_records b) ≡ true
      → s.log_end_offset + length (batch_records b) < 2 ^ 64
      → Logs crc s' (recs ++ batch_records b)
  unfolding records_of
  extend-Logs s s' recs b l same x end f c room =
      let k = l.consistent in
      let old = l.last in
      let (w, e) =
        Linked-last crc s.max_batch_bytes s.earliest_offset l.front old s.log_end_offset k.linked in
      let x' : Extended crc old.segment s'.active_segment b = rw k.active_part at x in
      let new : Held = record { segment = s'.active_segment; batches = old.batches ++ b ∷ [] } in
      let whole : Whole crc s.max_batch_bytes new =
        Extended-Whole crc s.max_batch_bytes old.segment s'.active_segment old.batches b w x' f
          (rw e c) (omega (arith, e)) in
      let top : s'.active_segment.next_offset ≡ s'.log_end_offset = omega (arith, x'.next, e) in
      rw same (record {
        front = l.front;
        last = new;
        consistent = record {
          closed_part = k.closed_part;
          active_part = refl;
          linked = rw (sym top) (
              Linked-replace crc s.max_batch_bytes s.earliest_offset l.front old new
                s.log_end_offset k.linked whole x'.same_base);
          is_open = k.is_open;
          working = k.working;
        };
        records =
            log_records-snoc l.front new
            ∙ ap (λ (t : List StoredRecord). log_records l.front ++ t)
                (records_of-append old.batches (b ∷ [])
                  ∙ ap (λ (t : List StoredRecord). records_of old.batches ++ t)
                      (append-nil (batch_records b)))
            ∙ sym (append_assoc (log_records l.front) (records_of old.batches) (batch_records b))
            ∙ ap (λ (t : List StoredRecord). t ++ batch_records b)
                (sym (log_records-snoc l.front old) ∙ l.records);
      })

  flush_policy-Logs :
      (io : AppendIo) (p : ℕ × ℕ) (s : Store) (recs : List StoredRecord) {q : ℕ × ℕ}
      → Logs crc s recs
      → (flush_policy io p s).1 ≡ ok q
      → Logs crc (flush_policy io p s).0 recs
  unfolding flush_policy
  flush_policy-Logs io p s recs {q} l h =
      let a = (flush io.flush s.active_segment).0 in
      flush_result-ok (λ t. Logs crc t recs) s.sync_flush (flush io.flush s.active_segment).1
        (record s { active_segment = a }) (record s { active_segment = a; write_failed = true }) s p
        {q = q} (with_active-Logs crc a s recs l (flush-SameLog io.flush s.active_segment)) l h

  append_active-Logs :
      (io : AppendIo) (b : Batch) (s : Store) (recs : List StoredRecord) {q : ℕ × ℕ}
      → Logs crc s recs
      → FitsLog s.max_batch_bytes b
      → continuous s.log_end_offset (batch_records b) ≡ true
      → s.log_end_offset + length (batch_records b) < 2 ^ 64
      → (append_active io (length (batch_records b)) (batch_bytes crc b) s).1 ≡ ok q
      → Logs crc
          (append_active io (length (batch_records b)) (batch_bytes crc b) s).0
          (recs ++ batch_records b)
  unfolding append_active
  append_active-Logs io b s recs {q} l f c room h =
      let a = s.active_segment in
      let n = length (batch_records b) in
      let base = s.log_end_offset in
      let relative = (base + 2 ^ 64 - a.base_offset) % 2 ^ 64 in
      let final = (base + n + 2 ^ 64 - 1) % 2 ^ 64 in
      let next = (final + 1) % 2 ^ 64 in
      let written = append_data io.write (batch_bytes crc b) a in
      let k = l.consistent in
      let (w, e) =
        Linked-last crc s.max_batch_bytes s.earliest_offset l.front l.last s.log_end_offset
          k.linked in
      let wa : Whole crc s.max_batch_bytes (record { segment = a; batches = l.last.batches }) =
        rw k.active_part w in
      let ea : a.next_offset ≡ base = rw k.active_part e in
      let low =
        Chain-next s.max_batch_bytes a.base_offset l.last.batches a.next_offset wa.chain wa.room in
      let end : next ≡ base + n = omega arith in
      let offset : (a.base_offset + relative) % 2 ^ 64 ≡ a.next_offset = omega arith in
      elim (Bool-cases (leb (2 ^ 32) relative)) [
        | inl far ↦ absurd (ground arith)
        | inr near ↦ elim (Bool-cases written.1) [
          | inr lost ↦ absurd (ground arith)
          | inl done ↦
              let s1 = advance io relative a.size next written.0 s in
              let small : relative < 2 ^ 32 = ground arith in
              let through : (flush_policy io (base, final) s1).1 ≡ ok q = simp (near, done) at h in
              let x =
                advance-Extended crc io b relative next s done wa.size small offset
                  (end ∙ ap (λ (t : ℕ). t + n) (sym ea)) in
              let grown =
                extend-Logs s s1 recs b l (unfold advance in refl) x (unfold advance in end) f c
                  room in
              simp (near, done)
                (flush_policy-Logs io (base, final) s1 (recs ++ batch_records b) {q = q} grown
                  through)
        ]
      ]

  append_encoded-Logs :
      (io : AppendIo) (b : Batch) (s : Store) (recs : List StoredRecord) {q : ℕ × ℕ}
      → Logs crc s recs
      → (batch_size b ≤ s.max_batch_bytes → FitsLog s.max_batch_bytes b)
      → Fresh io.new_files
      → continuous s.log_end_offset (batch_records b) ≡ true
      → s.log_end_offset + length (batch_records b) < 2 ^ 64
      → (append_encoded io (length (batch_records b)) (batch_bytes crc b) s).1 ≡ ok q
      → Logs crc
          (append_encoded io (length (batch_records b)) (batch_bytes crc b) s).0
          (recs ++ batch_records b)
  unfolding append_encoded
  append_encoded-Logs io b s recs {q} l f fresh c room h =
      let bytes = batch_bytes crc b in
      let size = length-encoded crc b.first b.rest in
      let (s', rolled) = roll io (length bytes) s in
      elim (Bool-cases (ltb s.max_batch_bytes (length bytes))) [
        | inl large ↦ absurd (ground arith)
        | inr small ↦ elim (Bool-cases rolled) [
          | inr lost ↦ absurd (ground arith)
          | inl done ↦
              let le : batch_size b ≤ s.max_batch_bytes = ground arith in
              let (leo, max) = roll-same io (length bytes) s done in
              let through : (append_active io (length (batch_records b)) bytes s').1 ≡ ok q =
                simp (small, done) at h in
              simp (small, done)
                (append_active-Logs io b s' recs {q = q}
                  (roll-Logs crc io (length bytes) s recs l fresh (omega arith) done)
                  (rw max (f le)) (rw leo c) (omega (arith, leo)) through)
        ]
      ]

-- Append keeps a store consistent, and its log grows by the stored records of the call. The conditions:
-- a limit of batches below 2^31, a clock below 2^63, offsets that end below 2^64, and a rollover that
-- finds the files of its new segment empty if it opens them.
pub append-Logs :
    (crc : Checksum) (io : AppendIo) (rs : List Record) (s : Store) (recs : List StoredRecord)
    (q : ℕ × ℕ)
    → Logs crc s recs
    → s.max_batch_bytes < 2 ^ 31
    → io.now < 2 ^ 63
    → s.log_end_offset + length rs < 2 ^ 64
    → Fresh io.new_files
    → (append crc io rs s).1 ≡ ok q
    → Logs crc (append crc io rs s).0 (recs ++ stored_records s.log_end_offset io.now rs)
unfolding stored_records
append-Logs crc io [] s recs q l limit time room fresh h = absurd (unfold append in cc)
append-Logs crc io (r ∷ rs) s recs q l limit time room fresh h =
    let base = s.log_end_offset in
    let b = new_batch base io.now r rs in
    let k = l.consistent in
    let count : length (batch_records b) ≡ length (r ∷ rs) =
      ap suc (length-stored_records ((base + 1) % 2 ^ 64) io.now rs) in
    let e : append crc io (r ∷ rs) s
        ≡ append_encoded io (length (batch_records b)) (batch_bytes crc b) s =
      append-cons crc io r rs s ∙ rw (k.is_open, k.working, count) refl in
    rw e (
      append_encoded-Logs crc io b s recs {q = q} l
        (new_batch-FitsLog s.max_batch_bytes base io.now r rs limit time room) fresh
        (continuous-stored_records base io.now (r ∷ rs)) (omega (arith, count)) (rw e at h))
