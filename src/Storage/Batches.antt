-- ===== src/Storage/Batches.antt =====
-- A log file as a sequence of encoded batches, and how the scans read one batch of it.
use native.Mathlib.Decide.{dec_lt}
use distributed_message_brok.Prelude.{
  ℕ, suc, ◌+◌, ◌-◌, ◌%◌, ◌^◌, ◌≤◌, ◌<◌, ◌≡◌, refl, sym, ap, ◌∙◌, List, [], ◌∷◌, ◌++◌, append-nil,
  true, arith, length, length-append, length-take, take, take-append, le→leb, le→ltb, lt→ltb, ok,
}
use distributed_message_brok.Bytes.{Bytes, Checksum, get_uint, put_u32, get_be-put_u32, eq_bytes}
use distributed_message_brok.Model.{StoredRecord}
use distributed_message_brok.Format.{frame, magic_bytes, checked_part, total_size}
use distributed_message_brok.Format.Decode.{slice}
use distributed_message_brok.Format.RoundTrip.{
  FitsBatch, encoded, max_of, body_of, magic_field, version_field, length_field,
  decode_batch-encoded, length-encoded, records_payload_size_ge,
}
use distributed_message_brok.Storage.Recover.{
  torn, batch, decoded, not_empty, read_batch, continuous,
}

-- The records of a batch that is not empty.
pub record Batch : Type 0 where
  pub first : StoredRecord
  pub rest : List StoredRecord

abbrev pub batch_records : Batch → List StoredRecord
batch_records b = b.first ∷ b.rest

abbrev pub batch_size : Batch → ℕ
batch_size b = total_size (batch_records b)

abbrev pub batch_bytes : Checksum → Batch → Bytes
batch_bytes crc b = encoded crc b.first b.rest

unfoldable pub content : Checksum → List Batch → Bytes
content crc [] = []
content crc (b ∷ bs) = batch_bytes crc b ++ content crc bs

unfoldable pub records_of : List Batch → List StoredRecord
records_of [] = []
records_of (b ∷ bs) = batch_records b ++ records_of bs

-- What a batch in a log needs: it fits the format and the limit of the store.
pub record FitsLog (max_batch : ℕ) (b : Batch) : Type 0 where
  pub format : FitsBatch b.first b.rest
  pub small : batch_size b ≤ max_batch

-- Batches whose records carry consecutive offsets from `expected` to before `next`.
abbrev pub Chain : ℕ → ℕ → List Batch → ℕ → Type 0
Chain max_batch expected [] next = expected ≡ next
Chain max_batch expected (b ∷ bs) next =
    FitsLog max_batch b
    × (continuous expected (batch_records b) ≡ true)
    × Chain max_batch ((expected + length (batch_records b)) % 2 ^ 64) bs next

pub batch_size_ge : (b : Batch) → 33 < batch_size b
unfolding total_size
batch_size_ge b = omega (arith, records_payload_size_ge (batch_records b))

-- The front of a frame, and what follows the batch length.
abbrev start : ℕ → Bytes → Bytes
start l tail = magic_bytes ++ (1 ∷ (put_u32 l ++ tail))

nine : (j : ℕ) → 9 + j ≡ suc (suc (suc (suc (suc (suc (suc (suc (suc j))))))))
nine j = omega arith

module _ (l : ℕ) (tail : Bytes) where
  take-start : (j : ℕ) → take (9 + j) (start l tail) ≡ start l (take j tail)
  unfolding put_u32
  take-start j = simp nine refl

  start_length_field : slice 5 9 (start l tail) ≡ put_u32 l
  unfolding put_u32
  start_length_field = refl

  length-start : length (start l tail) ≡ 9 + length tail
  unfolding put_u32
  length-start = omega arith

module _ (crc : Checksum) (max_batch : ℕ) where
  pub read_batch-short : (bs : Bytes) → length bs < 9 → read_batch crc max_batch bs ≡ ok torn
  unfolding read_batch
  read_batch-short bs h = rw (lt→ltb (length bs) 9 h)

  read_batch-torn :
      (l : ℕ) (tail : Bytes)
      → 24 ≤ l
      → l < 2 ^ 32
      → 9 + l ≤ max_batch
      → length tail < l
      → read_batch crc max_batch (start l tail) ≡ ok torn
  unfolding read_batch eq_bytes get_uint
  read_batch-torn l tail lo hi small h = rw (
    le→ltb (length (start l tail)) 9 (omega (arith, length-start l tail)),
    start_length_field l tail,
    get_be-put_u32 l hi,
    le→leb 24 l lo,
    le→leb (9 + l) max_batch small,
    lt→ltb (length (start l tail)) (9 + l) (omega (arith, length-start l tail)),
  )

module _ (crc : Checksum) (max_batch : ℕ) (b : Batch) (f : FitsLog max_batch b) where
  abbrev length_of : ℕ
  length_of = (batch_size b - 9) % 2 ^ 32

  length_of_eq : 9 + length_of ≡ batch_size b
  length_of_eq = omega (arith, f.format.length_lt, batch_size_ge b)

  abbrev tail_of : Bytes
  tail_of =
      let part =
        checked_part b.first.offset (length (batch_records b) % 2 ^ 32) (max_of crc b.first b.rest)
          (body_of crc b.first b.rest) in
      put_u32 (crc.ieee part) ++ part

  batch_bytes-start : batch_bytes crc b ≡ start length_of tail_of
  unfolding frame
  batch_bytes-start = refl

  -- A batch that the file ends inside of is torn, wherever it is cut.
  pub read_batch-take :
      (k : ℕ) → k < batch_size b → read_batch crc max_batch (take k (batch_bytes crc b)) ≡ ok torn
  read_batch-take k h = elim (dec_lt k 9) [
    | yes p ↦
        read_batch-short crc max_batch (take k (batch_bytes crc b))
          (omega (arith, length-take k (batch_bytes crc b)))
    | no p ↦
        let e : 9 + (k - 9) ≡ k = omega arith in
        ap (read_batch crc max_batch) (
          ap (λ (t : ℕ). take t (batch_bytes crc b)) (sym e)
          ∙ ap (take (9 + (k - 9))) batch_bytes-start
          ∙ take-start length_of tail_of (k - 9))
        ∙ read_batch-torn crc max_batch length_of (take (k - 9) tail_of)
            (omega (arith, length_of_eq, batch_size_ge b)) (omega arith)
            (omega (arith, length_of_eq, f.small))
            (omega (arith, length-take (k - 9) tail_of, length_of_eq))
  ]

  -- A whole batch is read back, whatever follows it.
  pub read_batch-batch_bytes :
      (more : Bytes)
      → read_batch crc max_batch (batch_bytes crc b ++ more)
        ≡ ok (batch (batch_size b) (batch_records b))
  unfolding read_batch eq_bytes get_uint decoded not_empty
  read_batch-batch_bytes more =
      let n = length (batch_records b) % 2 ^ 32 in
      let max = max_of crc b.first b.rest in
      let body = body_of crc b.first b.rest in
      let c = crc.ieee (checked_part b.first.offset n max body) in
      let size : length (batch_bytes crc b ++ more) ≡ batch_size b + length more =
        length-append (batch_bytes crc b) more ∙ omega (arith, length-encoded crc b.first b.rest) in
      let cut : take (batch_size b) (batch_bytes crc b ++ more) ≡ batch_bytes crc b =
        ap (λ (t : ℕ). take t (batch_bytes crc b ++ more)) (sym (length-encoded crc b.first b.rest))
        ∙ take-append (batch_bytes crc b) more in
      let back =
        rw (append-nil (batch_bytes crc b)) at
          (decode_batch-encoded crc b.first b.rest f.format []) in
      rw (
        le→ltb (length (batch_bytes crc b ++ more)) 9 (omega (arith, size, batch_size_ge b)),
        magic_field length_of c b.first.offset n max body more,
        version_field length_of c b.first.offset n max body more,
        length_field length_of c b.first.offset n max body more,
        get_be-put_u32 length_of (omega arith),
        le→leb 24 length_of (omega (arith, length_of_eq, batch_size_ge b)),
        length_of_eq,
        le→leb (batch_size b) max_batch f.small,
        le→ltb (length (batch_bytes crc b ++ more)) (batch_size b) (omega (arith, size)),
        cut,
        back,
      )
