-- ===== src/Format/Fields.antt =====
-- The readers of DecodeBatch on what the writers of EncodeBatch wrote, field by field.
use distributed_message_brok.Prelude.{
  ℕ, ◌+◌, ◌-◌, ◌*◌, ◌%◌, ◌^◌, ◌≤◌, ◌<◌, ◌≡◌, ap, List, [], ◌∷◌, ◌++◌, append_assoc, Option, none,
  some, arith, length, length-append, take-append, drop-append, All, le→leb, lt→ltb, ok,
}
use distributed_message_brok.Bytes.{
  Bytes, put_u32, put_u64, get_be-put_u32, get_be-put_u64, length-put_u32, length-put_u64, sub_i64,
  sub_i64-sub_i64,
}
use distributed_message_brok.Model.{Header, StoredRecord}
use distributed_message_brok.Format.{
  len, encode_slice, encode_header, encode_headers, headers_size, encode_record,
  record_payload_size, encode_records, records_payload_size,
}
use distributed_message_brok.Format.Decode.{
  Cursor, read, read_uint, read_slice, read_header, read_headers, header_limit, read_record,
  read_records,
}

-- The cursor before `rest`.
abbrev pub at : ℕ → Bytes → Cursor
at offset rest = record { offset = offset; rest = rest }

pub read-append :
    (o : ℕ) (xs ys : Bytes) → read (length xs) (at o (xs ++ ys)) ≡ ok (xs, at (o + length xs) ys)
unfolding read
read-append o xs ys =
    rw (le→leb (length xs) (length (xs ++ ys)) (omega (arith, length-append {0} xs ys)))
      (rw (take-append, drop-append))

pub read_u32-put :
    (o n : ℕ) (ys : Bytes)
    → n < 2 ^ 32
    → read_uint 4 (at o (put_u32 n ++ ys)) ≡ ok (n, at (o + 4) ys)
unfolding read_uint
read_u32-put o n ys h =
    rw (rw (length-put_u32) at (read-append o (put_u32 n) ys)) (rw (get_be-put_u32 n h))

pub read_u64-put :
    (o n : ℕ) (ys : Bytes)
    → n < 2 ^ 64
    → read_uint 8 (at o (put_u64 n ++ ys)) ≡ ok (n, at (o + 8) ys)
unfolding read_uint
read_u64-put o n ys h =
    rw (rw (length-put_u64) at (read-append o (put_u64 n) ys)) (rw (get_be-put_u64 n h))

-- A length field.
pub read_length :
    (o : ℕ) (bs ys : Bytes)
    → length bs < 2 ^ 32
    → read_uint 4 (at o (put_u32 (length bs % 2 ^ 32) ++ ys)) ≡ ok (length bs, at (o + 4) ys)
read_length o bs ys h =
    let e : length bs % 2 ^ 32 ≡ length bs = omega arith in rw e (read_u32-put o (length bs) ys h)

-- A length that EncodeBatch can write and DecodeBatch reads back as an int32.
abbrev pub FitsSlice : Option Bytes → Type 0
FitsSlice o = len o < 2 ^ 31

pub read_slice-encode :
    (total o : ℕ) (s : Option Bytes) (ys : Bytes)
    → FitsSlice s
    → o + 4 + len s ≤ total
    → read_slice total (at o (encode_slice s ++ ys)) ≡ ok (s, at (o + 4 + len s) ys)
unfolding read_slice encode_slice
read_slice-encode total o none ys h fit =
    rw (read_u32-put o 0xFFFFFFFF ys (omega arith)) (ground arith)
read_slice-encode total o (some []) ys h fit =
    rw (append_assoc (put_u32 0) [] ys, read_u32-put o 0 ys (omega arith)) (ground arith)
read_slice-encode total o (some (b ∷ bs)) ys h fit =
    rw
      (
        append_assoc (put_u32 (length (b ∷ bs) % 2 ^ 32)) (b ∷ bs) ys,
        read_length o (b ∷ bs) ((b ∷ bs) ++ ys) (omega arith),
        lt→ltb (length (b ∷ bs)) (2 ^ 31) h,
        le→leb (o + 4 + length (b ∷ bs)) total fit,
        read-append (o + 4) (b ∷ bs) ys,
      )
      (ground arith)

read_header-encode :
    (total o : ℕ) (h : Header) (ys : Bytes)
    → o + (8 + length h.key + length h.value) ≤ total
    → total < 2 ^ 32 + 9
    → 9 ≤ o
    → read_header total (at o (encode_header h ++ ys))
      ≡ ok (h, at (o + (8 + length h.key + length h.value)) ys)
unfolding read_header encode_header
read_header-encode total o h ys fit small past = simp append_assoc (
    rw
      (
        le→leb (o + 8) total (omega arith),
        read_length o h.key _ (omega arith),
        le→leb (o + 4 + length h.key) total (omega arith),
        read-append (o + 4) h.key _,
        read_length (o + 4 + length h.key) h.value _ (omega arith),
        le→leb (o + 4 + length h.key + 4 + length h.value) total (omega arith),
        read-append (o + 4 + length h.key + 4) h.value ys,
      )
      (ap (λ (t : ℕ). ok (h, at t ys)) (omega arith)))

-- The header count passes its check, since a header takes 8 bytes at least.
headers_size_ge : (hs : List Header) → 8 * length hs ≤ headers_size hs
unfolding headers_size
headers_size_ge [] = omega arith
headers_size_ge (h ∷ hs) = omega (arith, headers_size_ge hs)

read_headers-encode :
    (total o : ℕ) (hs : List Header) (ys : Bytes)
    → o + headers_size hs ≤ total
    → total < 2 ^ 32 + 9
    → 9 ≤ o
    → read_headers total (length hs) (at o (encode_headers hs ++ ys))
      ≡ ok (hs, at (o + headers_size hs) ys)
unfolding read_headers encode_headers headers_size
read_headers-encode total o [] ys fit small past = ap (λ (t : ℕ). ok ([], at t ys)) (omega arith)
read_headers-encode total o (h ∷ hs) ys fit small past =
    rw
      (
        append_assoc (encode_header h) (encode_headers hs) ys,
        read_header-encode total o h _ (omega arith) small past,
        read_headers-encode total (o + (8 + length h.key + length h.value)) hs ys (omega arith)
            small (omega arith),
      )
      (ap (λ (t : ℕ). ok (h ∷ hs, at t ys)) (omega arith))

header_limit_ge :
    (total o n : ℕ) → o + 8 * n ≤ total → total < 2 ^ 32 + 9 → n ≤ header_limit total o
unfolding header_limit
header_limit_ge total o n h small = ground arith

-- What a record needs for its fields to be read back: the offset lies less than 2^32 above the
-- base, the timestamp delta is no negative int64, and key and value lengths fit an int32.
pub record FitsRecord (base max : ℕ) (r : StoredRecord) : Type 0 where
  pub above : base ≤ r.offset
  pub near : r.offset < base + 2 ^ 32
  pub offset_lt : r.offset < 2 ^ 64
  pub timestamp_lt : r.timestamp < 2 ^ 64
  pub delta_lt : sub_i64 max r.timestamp < 2 ^ 63
  pub key_fits : FitsSlice r.key
  pub value_fits : FitsSlice r.value

pub read_record-encode :
    (total o base max : ℕ) (r : StoredRecord) (ys : Bytes)
    → FitsRecord base max r
    → max < 2 ^ 64
    → o + record_payload_size r ≤ total
    → total < 2 ^ 32 + 9
    → 9 ≤ o
    → read_record total base max (at o (encode_record base max r ++ ys))
      ≡ ok (r, at (o + record_payload_size r) ys)
unfolding read_record encode_record record_payload_size
read_record-encode total o base max r ys f hm fit small past = simp append_assoc (
    rw
      (
        le→leb (o + 24) total (omega arith),
        read_u32-put o ((r.offset + 2 ^ 64 - base) % 2 ^ 32) _ (omega arith),
        read_u64-put (o + 4) (sub_i64 max r.timestamp) _ (omega (arith, f.delta_lt)),
        lt→ltb (sub_i64 max r.timestamp) (2 ^ 63) f.delta_lt,
        read_slice-encode total (o + 4 + 8) r.key _ f.key_fits (omega arith),
        read_slice-encode total (o + 4 + 8 + 4 + len r.key) r.value _ f.value_fits (omega arith),
        read_u32-put (o + 4 + 8 + 4 + len r.key + 4 + len r.value) (length r.headers % 2 ^ 32) _
            (omega arith),
        count_eq,
        le→leb _ _ (
            header_limit_ge total (o + 4 + 8 + 4 + len r.key + 4 + len r.value + 4)
              (length r.headers) (omega (arith, headers_size_ge r.headers)) small),
        read_headers-encode total (o + 4 + 8 + 4 + len r.key + 4 + len r.value + 4) r.headers ys
            (omega arith) small (omega arith),
        sub_i64-sub_i64 max r.timestamp hm f.timestamp_lt,
        offset_eq,
      )
      (ap (λ (t : ℕ). ok (r, at t ys)) (omega arith)))
  where
    count_eq : length r.headers % 2 ^ 32 ≡ length r.headers
    count_eq = omega (arith, headers_size_ge r.headers)

    offset_eq : (base + (r.offset + 2 ^ 64 - base) % 2 ^ 32) % 2 ^ 64 ≡ r.offset
    offset_eq = omega (arith, f.above, f.near, f.offset_lt)

pub read_records-encode :
    (total o base max : ℕ) (rs : List StoredRecord) (ys : Bytes)
    → All (FitsRecord base max) rs
    → max < 2 ^ 64
    → o + records_payload_size rs ≤ total
    → total < 2 ^ 32 + 9
    → 9 ≤ o
    → read_records total base max (length rs) (at o (encode_records base max rs ++ ys))
      ≡ ok (rs, at (o + records_payload_size rs) ys)
unfolding read_records encode_records records_payload_size
read_records-encode total o base max [] ys f hm fit small past =
    ap (λ (t : ℕ). ok ([], at t ys)) (omega arith)
read_records-encode total o base max (r ∷ rs) ys (f, fs) hm fit small past =
    rw
      (
        append_assoc (encode_record base max r) (encode_records base max rs) ys,
        read_record-encode total o base max r _ f hm (omega arith) small past,
        read_records-encode total (o + record_payload_size r) base max rs ys fs hm (omega arith)
            small (omega arith),
      )
      (ap (λ (t : ℕ). ok (r ∷ rs, at t ys)) (omega arith))
