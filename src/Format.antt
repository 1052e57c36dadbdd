-- ===== src/Format.antt =====
-- The durable batch format of internal/storage/format.go: its sizes, and EncodeBatch.
pub mod Decode
pub mod Encode
pub mod Fields
pub mod RoundTrip
pub mod Accept
pub mod Panics
use distributed_message_brok.Prelude.{
  ℕ, ◌+◌, ◌-◌, ◌%◌, ◌^◌, List, [], ◌∷◌, ◌++◌, Option, none, some, length, if◌then◌else◌, Result, ok,
  err,
}
use distributed_message_brok.Bytes.{Bytes, Checksum, put_u32, put_u64, lt_i64, sub_i64}
use distributed_message_brok.Model.{Header, StoredRecord}

-- The sentinel errors; the text around them is left out. `corrupt_batch` is ErrCorruptBatch, and
-- `empty_batch` the unnamed error of an empty argument.
pub data FormatError : Type 0 where
  empty_batch corrupt_batch unsupported_version malformed_magic : FormatError

abbrev pub batch_header_size : ℕ
batch_header_size = 33

abbrev pub minimum_batch_remainder : ℕ
minimum_batch_remainder = 24

abbrev pub minimum_record_size : ℕ
minimum_record_size = 24

abbrev pub magic_bytes : Bytes
magic_bytes = 0x50 ∷ 0x47 ∷ 0x4C ∷ 0x47 ∷ []

abbrev pub format_version : ℕ
format_version = 1

-- The loop for maxTimestamp, an int64.
unfoldable pub max_timestamp : ℕ → List StoredRecord → ℕ
max_timestamp acc [] = acc
max_timestamp acc (r ∷ rs) = max_timestamp (if lt_i64 acc r.timestamp then r.timestamp else acc) rs

-- len(b) of a slice that may be nil
abbrev pub len : Option Bytes → ℕ
len none = 0
len (some bs) = length bs

unfoldable pub headers_size : List Header → ℕ
headers_size [] = 0
headers_size (h ∷ hs) = 8 + length h.key + length h.value + headers_size hs

unfoldable pub record_payload_size : StoredRecord → ℕ
unfolding headers_size
record_payload_size r = minimum_record_size + len r.key + len r.value + headers_size r.headers

unfoldable pub records_payload_size : List StoredRecord → ℕ
records_payload_size [] = 0
records_payload_size (r ∷ rs) = record_payload_size r + records_payload_size rs

unfoldable pub total_size : List StoredRecord → ℕ
total_size rs = batch_header_size + records_payload_size rs

-- A nil slice has the length field -1.
unfoldable pub encode_slice : Option Bytes → Bytes
encode_slice none = put_u32 0xFFFFFFFF
encode_slice (some bs) = put_u32 (length bs % 2 ^ 32) ++ bs

unfoldable pub encode_header : Header → Bytes
encode_header h =
    put_u32 (length h.key % 2 ^ 32) ++ (h.key ++ (put_u32 (length h.value % 2 ^ 32) ++ h.value))

unfoldable pub encode_headers : List Header → Bytes
encode_headers [] = []
encode_headers (h ∷ hs) = encode_header h ++ encode_headers hs

unfoldable pub encode_record : ℕ → ℕ → StoredRecord → Bytes
encode_record base max r =
    put_u32 ((r.offset + 2 ^ 64 - base) % 2 ^ 32)
    ++ (put_u64 (sub_i64 max r.timestamp)
        ++ (encode_slice r.key
            ++ (encode_slice r.value
                ++ (put_u32 (length r.headers % 2 ^ 32) ++ encode_headers r.headers))))

unfoldable pub encode_records : ℕ → ℕ → List StoredRecord → Bytes
encode_records base max [] = []
encode_records base max (r ∷ rs) = encode_record base max r ++ encode_records base max rs

-- What the checksum covers: all from index 13 on.
unfoldable pub checked_part : ℕ → ℕ → ℕ → Bytes → Bytes
checked_part base count max body = put_u64 base ++ (put_u32 count ++ (put_u64 max ++ body))

-- Magic, version, batch length, checksum, and what the checksum covers.
unfoldable pub frame : ℕ → ℕ → Bytes → Bytes
frame batch_length checksum rest =
    magic_bytes ++ (format_version ∷ (put_u32 batch_length ++ (put_u32 checksum ++ rest)))

-- EncodeBatch. The buffer is written from front to back, so it is the concatenation of what is
-- written; `total_size` sizes the buffer and gives the batch length.
unfoldable pub encode_batch : Checksum → List StoredRecord → Result FormatError Bytes
encode_batch crc [] = err empty_batch
encode_batch crc (r ∷ rs) =
    let base = r.offset in
    let max = max_timestamp 0 (r ∷ rs) in
    let rest =
      checked_part base (length (r ∷ rs) % 2 ^ 32) max (encode_records base max (r ∷ rs)) in
    ok (frame ((total_size (r ∷ rs) - 9) % 2 ^ 32) (crc.ieee rest) rest)
