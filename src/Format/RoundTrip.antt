-- ===== src/Format/RoundTrip.antt =====
-- EncodeBatch and DecodeBatch together.
use distributed_message_brok.Prelude.{
  ℕ, ◌+◌, ◌-◌, ◌*◌, ◌/◌, ◌%◌, ◌^◌, ◌≤◌, ◌<◌, ◌≡◌, refl, ◌∙◌, List, [], ◌∷◌, ◌++◌, append-nil, arith,
  length, length-append, take-append, drop, All, le→leb, ==_self, ok, ◌==◌, if◌then◌else◌, ◌>>=◌,
  ap,
}
use distributed_message_brok.Bytes.{
  Bytes, Checksum, get_uint, put_u32, put_u64, get_be-put_u32, get_be-put_u64, eq_bytes,
}
use distributed_message_brok.Model.{StoredRecord}
use distributed_message_brok.Format.{
  frame, checked_part, magic_bytes, total_size, max_timestamp, encode_records, encode_batch,
  records_payload_size, record_payload_size,
}
use distributed_message_brok.Format.Encode.{length-encode_records}
use distributed_message_brok.Format.Decode.{slice, decode_body, decode_batch}
use distributed_message_brok.Format.Fields.{FitsRecord, read_records-encode}

module _ (l c base n max : ℕ) (body more : Bytes) where
  -- A frame, and what follows it in the file.
  abbrev pub framed : Bytes
  framed = frame l c (checked_part base n max body) ++ more

  pub magic_field : slice 0 4 framed ≡ magic_bytes
  unfolding frame put_u32
  magic_field = refl

  pub version_field : slice 4 5 framed ≡ 1 ∷ []
  unfolding frame put_u32
  version_field = refl

  pub length_field : slice 5 9 framed ≡ put_u32 l
  unfolding frame put_u32
  length_field = refl

  checksum_field : slice 9 13 framed ≡ put_u32 c
  unfolding frame put_u32
  checksum_field = refl

  pub base_field : slice 13 21 framed ≡ put_u64 base
  unfolding frame checked_part put_u32 put_u64
  base_field = refl

  count_field : slice 21 25 framed ≡ put_u32 n
  unfolding frame checked_part put_u32 put_u64
  count_field = refl

  pub max_field : slice 25 33 framed ≡ put_u64 max
  unfolding frame checked_part put_u32 put_u64
  max_field = refl

  pub drop_header : drop 33 framed ≡ body ++ more
  unfolding frame checked_part put_u32 put_u64
  drop_header = refl

  pub length-framed : length framed ≡ 33 + length body + length more
  unfolding frame checked_part put_u32 put_u64
  length-framed = omega (arith, length-append {0} body more)

  length-checked_part : length (checked_part base n max body) ≡ 20 + length body
  unfolding checked_part put_u32 put_u64
  length-checked_part = omega arith

  checked_field : l ≡ 24 + length body → slice 13 (9 + l) framed ≡ checked_part base n max body
  unfolding frame put_u32
  checked_field h =
      let e : 9 + l - 13 ≡ length (checked_part base n max body) =
        omega (arith, length-checked_part) in
      rw e (take-append (checked_part base n max body) more)

-- The header of a frame whose lengths are right and whose checksum is that of its content passes
-- every check, whatever follows the frame.
pub decode_framed :
    (crc : Checksum) (l base n max : ℕ) (body more : Bytes)
    → l < 2 ^ 32
    → l ≡ 24 + length body
    → base < 2 ^ 64
    → max < 2 ^ 64
    → 24 * n ≤ length body
    → let whole = framed l (crc.ieee (checked_part base n max body)) base n max body more in
      decode_batch crc whole ≡ (if n == 0 then ok [] else decode_body (9 + l) base max n whole)
unfolding decode_batch eq_bytes get_uint
decode_framed crc l base n max body more hl e hb hm hn =
    let c = crc.ieee (checked_part base n max body) in
    rw (
      le→leb 33 (length (framed l c base n max body more))
          (omega (arith, length-framed l c base n max body more)),
      magic_field l c base n max body more,
      version_field l c base n max body more,
      length_field l c base n max body more,
      get_be-put_u32 l hl,
      le→leb 24 l (omega arith),
      le→leb (9 + l) (length (framed l c base n max body more))
          (omega (arith, length-framed l c base n max body more)),
      checksum_field l c base n max body more,
      get_be-put_u32 c (crc.ieee_lt _),
      checked_field l c base n max body more e,
      ==_self c,
      count_field l c base n max body more,
      get_be-put_u32 n (omega arith),
      le→leb n ((l - 20) / 24 % 2 ^ 32) (omega arith),
      base_field l c base n max body more,
      get_be-put_u64 base hb,
      max_field l c base n max body more,
      get_be-put_u64 max hm,
    )

pub records_payload_size_ge : (rs : List StoredRecord) → 24 * length rs ≤ records_payload_size rs
unfolding records_payload_size record_payload_size
records_payload_size_ge [] = omega arith
records_payload_size_ge (r ∷ rs) = omega (arith, records_payload_size_ge rs)

-- What a batch needs to be read back: a batch length below 2^32, and records that fit.
pub record FitsBatch (r : StoredRecord) (rs : List StoredRecord) : Type 0 where
  pub length_lt : total_size (r ∷ rs) < 2 ^ 32 + 9
  pub max_lt : max_timestamp 0 (r ∷ rs) < 2 ^ 64
  pub base_lt : r.offset < 2 ^ 64
  pub records : All (FitsRecord r.offset (max_timestamp 0 (r ∷ rs))) (r ∷ rs)

module _ (crc : Checksum) (r : StoredRecord) (rs : List StoredRecord) where
  abbrev pub max_of : ℕ
  max_of = max_timestamp 0 (r ∷ rs)

  abbrev pub body_of : Bytes
  body_of = encode_records r.offset max_of (r ∷ rs)

  -- What EncodeBatch returns for a batch that is not empty.
  abbrev pub encoded : Bytes
  encoded =
      let rest = checked_part r.offset (length (r ∷ rs) % 2 ^ 32) max_of body_of in
      frame ((total_size (r ∷ rs) - 9) % 2 ^ 32) (crc.ieee rest) rest

  pub encode_batch-encoded : encode_batch crc (r ∷ rs) ≡ ok encoded
  unfolding encode_batch
  encode_batch-encoded = refl

module _ (crc : Checksum) (r : StoredRecord) (rs : List StoredRecord) (f : FitsBatch r rs) where
  pub count_field_eq : length (r ∷ rs) % 2 ^ 32 ≡ length (r ∷ rs)
  unfolding total_size
  count_field_eq = omega (arith, f.length_lt, records_payload_size_ge (r ∷ rs))

  pub length_field_eq : (total_size (r ∷ rs) - 9) % 2 ^ 32 ≡ 24 + length (body_of crc r rs)
  unfolding total_size
  length_field_eq =
      omega (arith, f.length_lt, length-encode_records r.offset (max_of crc r rs) (r ∷ rs))

  total_lt : records_payload_size (r ∷ rs) + 33 < 2 ^ 32 + 9
  unfolding total_size
  total_lt = omega (arith, f.length_lt)

  decode_body-encoded :
      (l c n : ℕ) (more : Bytes)
      → l ≡ 24 + length (body_of crc r rs)
      → n ≡ length (r ∷ rs)
      → decode_body
          (9 + l)
          r.offset
          (max_of crc r rs)
          n
          (framed l c r.offset n (max_of crc r rs) (body_of crc r rs) more)
        ≡ ok (r ∷ rs)
  unfolding decode_body
  decode_body-encoded l c n more el en =
      let max = max_of crc r rs in
      let size = length-encode_records r.offset max (r ∷ rs) in
      let total_eq : 33 + records_payload_size (r ∷ rs) ≡ 9 + l = omega (arith, size) in
      rw (
        drop_header l c r.offset n max (body_of crc r rs) more,
        en,
        read_records-encode (9 + l) 33 r.offset max (r ∷ rs) more f.records f.max_lt
            (omega (arith, total_eq)) (omega (arith, total_eq, total_lt)) (omega arith),
        total_eq,
        ==_self (9 + l),
      )

  -- Whatever follows the encoded batch in the file, decoding gives the records back.
  pub decode_batch-encoded :
      (more : Bytes) → decode_batch crc (encoded crc r rs ++ more) ≡ ok (r ∷ rs)
  decode_batch-encoded more =
      decode_framed crc _ r.offset _ (max_of crc r rs) (body_of crc r rs) more (omega arith)
        length_field_eq f.base_lt f.max_lt
        (omega (
          arith,
          count_field_eq,
          records_payload_size_ge (r ∷ rs),
          length-encode_records r.offset (max_of crc r rs) (r ∷ rs),
        ))
      ∙ rw (decode_body-encoded _ _ _ more length_field_eq count_field_eq)
          (ground (arith, count_field_eq))

-- DecodeBatch after EncodeBatch gives the records back, whatever follows the batch in the data.
-- The batch is not empty and fits the format (FitsBatch).
pub decode_batch-encode_batch :
    (crc : Checksum) (r : StoredRecord) (rs : List StoredRecord) (more : Bytes)
    → FitsBatch r rs
    → (encode_batch crc (r ∷ rs) >>= λ bs. decode_batch crc (bs ++ more)) ≡ ok (r ∷ rs)
decode_batch-encode_batch crc r rs more f =
    rw (encode_batch-encoded crc r rs) (decode_batch-encoded crc r rs f more)

-- The size of the buffer that EncodeBatch allocates is the size of what it writes.
pub length-encoded :
    (crc : Checksum) (r : StoredRecord) (rs : List StoredRecord)
    → length (encoded crc r rs) ≡ total_size (r ∷ rs)
unfolding total_size
length-encoded crc r rs =
    let max = max_of crc r rs in
    let part = checked_part r.offset (length (r ∷ rs) % 2 ^ 32) max (body_of crc r rs) in
    let l = (total_size (r ∷ rs) - 9) % 2 ^ 32 in
    omega (
      arith,
      ap (length {A = ℕ}) (append-nil (frame l (crc.ieee part) part)),
      length-framed l (crc.ieee part) r.offset (length (r ∷ rs) % 2 ^ 32) max (body_of crc r rs) [],
      length-encode_records r.offset max (r ∷ rs),
    )
