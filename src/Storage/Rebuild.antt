-- ===== src/Storage/Rebuild.antt =====
-- The index that rebuildIndex makes of a log of whole batches.
use mathlib.Core.Path.{subst}
use distributed_message_brok.Prelude.{
  ℕ, suc, zero, ◌+◌, ◌-◌, ◌%◌, ◌^◌, ◌≤◌, ◌<◌, ◌≡◌, inl, inr, refl, sym, ap, ◌∙◌, List, [], ◌∷◌,
  ◌++◌, append-nil, append_assoc, true, arith, All, All-append, All-map, length, length-append,
  drop, drop-append, ok, le→leb, lt→ltb, Bool-cases, some, ◌⊎◌, if◌then◌else◌,
}
use distributed_message_brok.Bytes.{
  Bytes, Checksum, lt_i64, get_be, put_u32, put_u64, get_be-put_u32, get_be-put_u64,
}
use distributed_message_brok.Model.{StoredRecord}
use distributed_message_brok.Format.{checked_part}
use distributed_message_brok.Format.Decode.{slice}
use distributed_message_brok.Format.RoundTrip.{
  max_of, body_of, length_field, base_field, length-encoded,
}
use distributed_message_brok.Storage.{IndexEntry}
use distributed_message_brok.Storage.Index.{should_index, Rebuilt, rebuild_loop}
use distributed_message_brok.Storage.Recover.{continuous}
use distributed_message_brok.Storage.Batches.{
  Batch, batch_records, batch_bytes, batch_size, batch_size_ge, content, records_of, Chain, FitsLog,
}
use distributed_message_brok.Storage.Fetch.{Boundary, records_of-append}
use distributed_message_brok.Storage.Stored.{continuous-below}
use distributed_message_brok.Storage.Extend.{content-snoc, length-records_of-snoc}

module _ (crc : Checksum) (b : Batch) (max_batch : ℕ) (f : FitsLog max_batch b) (more : Bytes) where
  abbrev l : ℕ
  l = (batch_size b - 9) % 2 ^ 32

  header_length : slice 5 9 (batch_bytes crc b ++ more) ≡ put_u32 l
  header_length =
      length_field l
        (crc.ieee (
          checked_part b.first.offset (length (batch_records b) % 2 ^ 32)
            (max_of crc b.first b.rest) (body_of crc b.first b.rest)))
        b.first.offset (length (batch_records b) % 2 ^ 32) (max_of crc b.first b.rest)
        (body_of crc b.first b.rest) more

  header_base : slice 13 21 (batch_bytes crc b ++ more) ≡ put_u64 b.first.offset
  header_base =
      base_field l
        (crc.ieee (
          checked_part b.first.offset (length (batch_records b) % 2 ^ 32)
            (max_of crc b.first b.rest) (body_of crc b.first b.rest)))
        b.first.offset (length (batch_records b) % 2 ^ 32) (max_of crc b.first b.rest)
        (body_of crc b.first b.rest) more

  header_total : 9 + get_be (slice 5 9 (batch_bytes crc b ++ more)) ≡ batch_size b
  header_total =
      ap (λ (t : Bytes). 9 + get_be t) header_length
      ∙ omega (arith, get_be-put_u32 l (omega arith), f.format.length_lt, batch_size_ge b)

  pub header_offset : get_be (slice 13 21 (batch_bytes crc b ++ more)) ≡ b.first.offset
  header_offset = ap get_be header_base ∙ get_be-put_u64 b.first.offset f.format.base_lt

  drop_batch : drop (batch_size b) (batch_bytes crc b ++ more) ≡ more
  drop_batch =
      ap (λ (t : ℕ). drop t (batch_bytes crc b ++ more)) (sym (length-encoded crc b.first b.rest))
      ∙ drop-append (batch_bytes crc b) more

-- One round: the loop goes on behind the batch, with an entry for it or without.
record Round (base interval fuel : ℕ) (bs : Bytes) (n pos relative : ℕ) (r : Rebuilt) : Type 0 where
  next : Rebuilt
  goes_on :
      rebuild_loop base interval (suc fuel) bs pos r
      ≡ rebuild_loop base interval fuel (drop n bs) (pos + n) next
  entries :
      (next.entries ≡ r.entries)
      ⊎ (next.entries ≡ r.entries ++ record { relative_offset = relative; position = pos } ∷ [])

rebuild_loop-Round :
    (base interval fuel : ℕ) (bs : Bytes) (offset n pos : ℕ) (r : Rebuilt)
    → 33 ≤ length bs
    → get_be (slice 13 21 bs) ≡ offset
    → 9 + get_be (slice 5 9 bs) ≡ n
    → (offset + 2 ^ 64 - base) % 2 ^ 64 < 2 ^ 32
    → Round base interval fuel bs n pos ((offset + 2 ^ 64 - base) % 2 ^ 64) r
unfolding rebuild_loop
rebuild_loop-Round base interval fuel [] offset n pos r long o e near = absurd (omega arith)
rebuild_loop-Round base interval fuel (x ∷ xs) offset n pos r long o e near =
    let bs = x ∷ xs in
    let relative = (offset + 2 ^ 64 - base) % 2 ^ 64 in
    let timestamp = get_be (slice 25 33 bs) in
    let max = if lt_i64 r.max_timestamp timestamp then timestamp else r.max_timestamp in
    let entry : IndexEntry = record { relative_offset = relative; position = pos } in
    elim (Bool-cases (should_index r.entries r.last pos interval)) [
      | inl index ↦ record {
        next = record { entries = r.entries ++ entry ∷ []; last = some pos; max_timestamp = max };
        goes_on = rw (le→leb 33 (length bs) long, o, lt→ltb relative (2 ^ 32) near, e, index) refl;
        entries = inr refl;
      }
      | inr skip ↦ record {
        next = record r { max_timestamp = max };
        goes_on = rw (le→leb 33 (length bs) long, o, lt→ltb relative (2 ^ 32) near, e, skip) refl;
        entries = inl refl;
      }
    ]

pub record Entered (crc : Checksum) (base interval fuel pos : ℕ) (r : Rebuilt)
    (before bs : List Batch) : Type 0 where
  pub end : Rebuilt
  pub loop : rebuild_loop base interval fuel (content crc bs) pos r ≡ ok end
  pub index : All (Boundary crc base (before ++ bs)) end.entries

pub first_offset : (b : Batch) (n : ℕ) → continuous n (batch_records b) ≡ true → b.first.offset ≡ n
unfolding continuous
first_offset b n h = ground arith

module _ (crc : Checksum) (max_batch base interval : ℕ) where
  -- The loop puts its entries in front of batches.
  pub rebuild_loop-Entered :
      (bs before : List Batch) (fuel next : ℕ) (r : Rebuilt)
      → Chain max_batch (base + length (records_of before)) bs next
      → All (λ x. x.offset < base + length (records_of before)) (records_of before)
      → base + length (records_of before) + length (records_of bs) < 2 ^ 64
      → length (records_of before) + length (records_of bs) ≤ 2 ^ 32
      → All (Boundary crc base (before ++ bs)) r.entries
      → length (content crc bs) ≤ fuel
      → Entered crc base interval fuel (length (content crc before)) r before bs
  unfolding content records_of rebuild_loop
  rebuild_loop-Entered [] before fuel next r ch below room near old enough = record {
    end = r;
    loop = refl;
    index = old;
  }
  rebuild_loop-Entered (b ∷ bs) before zero next r (f, c, ch) below room near old enough = absurd (
      omega (
        arith,
        length-append {0} (batch_bytes crc b) (content crc bs),
        length-encoded crc b.first b.rest,
        batch_size_ge b,
      ))
  rebuild_loop-Entered (b ∷ bs) before (suc fuel) next r (f, c, ch) below room near old enough =
      let lo = base + length (records_of before) in
      let pos = length (content crc before) in
      let enc = batch_bytes crc b in
      let more = content crc bs in
      let size = length-append enc more in
      let enc_size = length-encoded crc b.first b.rest in
      let count = length-append (batch_records b) (records_of bs) in
      let start = first_offset b lo c in
      let header = header_total crc b max_batch f more in
      let offset = header_offset crc b max_batch f more in
      let relative = (b.first.offset + 2 ^ 64 - base) % 2 ^ 64 in
      let round =
        rebuild_loop-Round base interval fuel (enc ++ more) b.first.offset (batch_size b) pos r
          (omega (arith, size, enc_size, batch_size_ge b)) offset header (omega arith) in
      let cut = drop_batch crc b max_batch f more in
      let moved : length (content crc (before ++ b ∷ [])) ≡ pos + batch_size b =
        ap (λ (t : Bytes). length t) (content-snoc crc base before b)
        ∙ length-append (content crc before) enc
        ∙ ap (λ (t : ℕ). pos + t) enc_size in
      let lo' : base + length (records_of (before ++ b ∷ [])) ≡ lo + length (batch_records b) =
        omega (arith, length-records_of-snoc crc base before b) in
      let same : (before ++ b ∷ []) ++ bs ≡ before ++ (b ∷ bs) = append_assoc before (b ∷ []) bs in
      let wrap : (lo + length (batch_records b)) % 2 ^ 64
          ≡ base + length (records_of (before ++ b ∷ [])) =
        omega arith in
      let placed : Boundary crc base (before ++ (b ∷ bs))
          (record { relative_offset = relative; position = pos }) =
        record {
          before = before;
          after = b ∷ bs;
          split = refl;
          place = refl;
          behind = All-map (λ x lt. omega arith) (records_of before) below;
        } in
      let index : All (Boundary crc base (before ++ (b ∷ bs))) round.next.entries =
        elim round.entries [
          | inl e ↦ rw e old
          | inr e ↦ rw e (
              All-append (Boundary crc base (before ++ (b ∷ bs))) r.entries (_ ∷ []) old
                (placed, tt))
        ] in
      let end = base + length (records_of (before ++ b ∷ [])) in
      let recs : records_of (before ++ b ∷ []) ≡ records_of before ++ batch_records b =
        records_of-append before (b ∷ [])
        ∙ ap (λ (t : List StoredRecord). records_of before ++ t) (append-nil (batch_records b)) in
      let below' : All (λ x. x.offset < end) (records_of before ++ batch_records b) =
        All-append (λ x. x.offset < end) (records_of before) (batch_records b)
          (All-map (λ x lt. omega arith) (records_of before) below)
          (All-map (λ x lt. omega arith) (batch_records b)
            (continuous-below lo (batch_records b) c (omega arith))) in
      let ih =
        rebuild_loop-Entered bs (before ++ b ∷ []) fuel next round.next (rw wrap at ch)
          (subst (λ t. All (λ x. x.offset < end) t) (sym recs) below') (omega arith) (omega arith)
          (subst (λ t. All (Boundary crc base t) round.next.entries) (sym same) index)
          (omega (arith, size, enc_size, batch_size_ge b)) in
      let after : rebuild_loop base interval fuel (drop (batch_size b) (enc ++ more))
            (pos + batch_size b) round.next
          ≡ ok ih.end =
        rw (cut, sym moved) ih.loop in
      record {
        end = ih.end;
        loop = round.goes_on ∙ after;
        index = subst (λ t. All (Boundary crc base t) ih.end.entries) same ih.index;
      }
