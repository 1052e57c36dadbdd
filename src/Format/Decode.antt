-- ===== src/Format/Decode.antt =====
-- DecodeBatch of internal/storage/format.go.
use distributed_message_brok.Prelude.{
  ℕ, zero, suc, ◌+◌, ◌-◌, ◌/◌, ◌%◌, ◌^◌, List, [], ◌∷◌, Option, none, some, Bool, length, take,
  drop, ltb, leb, ◌==◌, if◌then◌else◌, Result, ok, err, panic, ◌>>=◌, ◌>>◌, ensure,
}
use distributed_message_brok.Bytes.{Bytes, Checksum, get_be, eq_bytes, sub_i64}
use distributed_message_brok.Model.{Header, StoredRecord}
use distributed_message_brok.Format.{
  FormatError, corrupt_batch, unsupported_version, malformed_magic, magic_bytes, format_version,
  batch_header_size, minimum_batch_remainder, minimum_record_size,
}

-- `offset`, and the bytes of `data` from there on.
pub record Cursor : Type 0 where
  pub offset : ℕ
  pub rest : Bytes

-- data[offset : offset+n], and offset += n. A slice past the end of the data panics.
unfoldable pub read : ℕ → Cursor → Result FormatError (Bytes × Cursor)
read n c =
    if leb n (length c.rest)
    then ok (take n c.rest, record { offset = c.offset + n; rest = drop n c.rest })
    else panic

unfoldable pub read_uint : ℕ → Cursor → Result FormatError (ℕ × Cursor)
read_uint n c = do (bs, c') ← read n c; ok (get_be bs, c')

-- The bounds checks against totalExpectedSize
abbrev pub fits : ℕ → ℕ → Cursor → Bool
fits total n c = leb (c.offset + n) total

-- A length field n read as an int32: positive, zero, -1 for nil, or another negative number.
unfoldable pub read_slice : ℕ → Cursor → Result FormatError (Option Bytes × Cursor)
read_slice total c = do
  (n, c1) ← read_uint 4 c
  if n == 0
      then ok (some [], c1)
      else if ltb n (2 ^ 31)
      then (do ensure (fits total n c1) corrupt_batch; (bs, c2) ← read n c1; ok (some bs, c2))
      else if n == 0xFFFFFFFF
      then ok (none, c1)
      else err corrupt_batch

unfoldable pub read_header : ℕ → Cursor → Result FormatError (Header × Cursor)
read_header total c = do
  ensure (fits total 8 c) corrupt_batch
  (key_len, c1) ← read_uint 4 c
  ensure (fits total key_len c1) corrupt_batch
  (key, c2) ← read key_len c1
  (value_len, c3) ← read_uint 4 c2
  ensure (fits total value_len c3) corrupt_batch
  (value, c4) ← read value_len c3
  ok (record { key = key; value = value }, c4)

unfoldable pub read_headers : ℕ → ℕ → Cursor → Result FormatError (List Header × Cursor)
read_headers total zero c = ok ([], c)
read_headers total (suc n) c = do
  (h, c1) ← read_header total c
  (hs, c2) ← read_headers total n c1
  ok (h ∷ hs, c2)

-- uint32(remainingRecordBytes/8), where an int64 division rounds towards zero and the conversion
-- wraps a negative quotient.
unfoldable pub header_limit : ℕ → ℕ → ℕ
header_limit total offset =
    if leb offset total
    then (total - offset) / 8 % 2 ^ 32
    else (2 ^ 32 - (offset - total) / 8 % 2 ^ 32) % 2 ^ 32

unfoldable pub read_record : ℕ → ℕ → ℕ → Cursor → Result FormatError (StoredRecord × Cursor)
read_record total base max c = do
  ensure (fits total minimum_record_size c) corrupt_batch
  (offset_delta, c1) ← read_uint 4 c
  (timestamp_delta, c2) ← read_uint 8 c1
  ensure (ltb timestamp_delta (2 ^ 63)) corrupt_batch
  (key, c3) ← read_slice total c2
  (value, c4) ← read_slice total c3
  (header_count, c5) ← read_uint 4 c4
  ensure (leb header_count (header_limit total c5.offset)) corrupt_batch
  (headers, c6) ← read_headers total header_count c5
  ok (
    record {
      offset = (base + offset_delta) % 2 ^ 64;
      timestamp = sub_i64 max timestamp_delta;
      key = key;
      value = value;
      headers = headers;
    },
    c6,
  )

unfoldable pub read_records :
    ℕ → ℕ → ℕ → ℕ → Cursor → Result FormatError (List StoredRecord × Cursor)
read_records total base max zero c = ok ([], c)
read_records total base max (suc n) c = do
  (r, c1) ← read_record total base max c
  (rs, c2) ← read_records total base max n c1
  ok (r ∷ rs, c2)

-- The bytes from `from` to `to`, where the code has checked that they are there.
abbrev pub slice : ℕ → ℕ → Bytes → Bytes
slice from to data_ = take (to - from) (drop from data_)

-- The record loop and the check for trailing bytes.
unfoldable pub decode_body : ℕ → ℕ → ℕ → ℕ → Bytes → Result FormatError (List StoredRecord)
decode_body total base max count data_ = do
  (rs, c) ←
      read_records total base max count
        (record { offset = batch_header_size; rest = drop batch_header_size data_ })
  ensure (c.offset == total) corrupt_batch
  ok rs

unfoldable pub decode_batch : Checksum → Bytes → Result FormatError (List StoredRecord)
decode_batch crc data_ = do
  ensure (leb batch_header_size (length data_)) corrupt_batch
  ensure (eq_bytes (slice 0 4 data_) magic_bytes) malformed_magic
  ensure (get_be (slice 4 5 data_) == format_version) unsupported_version
  let batch_length = get_be (slice 5 9 data_)
  ensure (leb minimum_batch_remainder batch_length) corrupt_batch
  let total = 9 + batch_length
  ensure (leb total (length data_)) corrupt_batch
  ensure (get_be (slice 9 13 data_) == crc.ieee (slice 13 total data_)) corrupt_batch
  let count = get_be (slice 21 25 data_)
  ensure (leb count ((batch_length - 20) / minimum_record_size % 2 ^ 32)) corrupt_batch
  let body = decode_body total (get_be (slice 13 21 data_)) (get_be (slice 25 33 data_)) count data_
  if count == 0 then ok [] else body
