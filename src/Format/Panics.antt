-- ===== src/Format/Panics.antt =====
-- A batch with a valid checksum on which DecodeBatch slices past its data.
use distributed_message_brok.Prelude.{
  ℕ, ◌+◌, ◌^◌, ◌≤◌, ◌<◌, ◌≡◌, [], ◌++◌, some, arith, length, length-append, append-nil, le→leb,
  panic,
}
use distributed_message_brok.Bytes.{
  Bytes, Checksum, put_u32, put_u64, length-put_u32, length-put_u64,
}
use distributed_message_brok.Format.{checked_part, frame, encode_slice}
use distributed_message_brok.Format.Decode.{
  read, read_uint, read_slice, read_record, read_records, decode_body, decode_batch,
}
use distributed_message_brok.Format.Fields.{at, read_u32-put, read_u64-put, read_slice-encode}
use distributed_message_brok.Format.RoundTrip.{framed, decode_framed, drop_header}

-- One record whose key fills the rest of the batch: there is no value length behind it.
abbrev pub key_fills : Bytes → Bytes
key_fills key = put_u32 0 ++ (put_u64 0 ++ encode_slice (some key))

length-key_fills : (key : Bytes) → length (key_fills key) ≡ 16 + length key
unfolding encode_slice
length-key_fills key = simp (length-append, length-put_u64, length-put_u32) (omega arith)

read_nothing : (o : ℕ) → read_uint 4 (at o []) ≡ panic
unfolding read_uint read
read_nothing o = ground arith

module _ (l base max : ℕ) (key : Bytes) (long : 8 ≤ length key) (small : length key < 2 ^ 31)
    (e : l ≡ 24 + length (key_fills key)) where
  read_slice_nothing : (o : ℕ) → read_slice (9 + l) (at o []) ≡ panic
  unfolding read_slice
  read_slice_nothing o = rw (read_nothing o)

  read_record_panics : read_record (9 + l) base max (at 33 (key_fills key)) ≡ panic
  unfolding read_record
  read_record_panics = rw (
    ← append-nil (encode_slice (some key)),
    le→leb (33 + 24) (9 + l) (omega (arith, length-key_fills key)),
    read_u32-put 33 0 _ (omega arith),
    read_u64-put (33 + 4) 0 _ (omega arith),
    read_slice-encode (9 + l) (33 + 4 + 8) (some key) [] small
        (omega (arith, length-key_fills key)),
    read_slice_nothing (33 + 4 + 8 + 4 + length key),
  )

  decode_body_panics :
      (c : ℕ) → decode_body (9 + l) base max 1 (framed l c base 1 max (key_fills key) []) ≡ panic
  unfolding decode_body read_records
  decode_body_panics c = rw (
    drop_header l c base 1 max (key_fills key) [],
    append-nil (key_fills key),
    read_record_panics,
  )

-- DecodeBatch panics, where it should report ErrCorruptBatch, on every frame with a valid checksum
-- whose only record has a key of 8 bytes or more (and less than 2^31) that ends with the frame: it
-- reads the value length behind the key with no check that four bytes are left.
pub decode_batch_panics :
    (crc : Checksum) (base max : ℕ) (key : Bytes)
    → 8 ≤ length key
    → length key < 2 ^ 31
    → base < 2 ^ 64
    → max < 2 ^ 64
    → let part = checked_part base 1 max (key_fills key) in
      decode_batch crc (frame (40 + length key) (crc.ieee part) part) ≡ panic
decode_batch_panics crc base max key long small hb hm =
    let l = 40 + length key in
    let part = checked_part base 1 max (key_fills key) in
    let e : l ≡ 24 + length (key_fills key) = omega (arith, length-key_fills key) in
    rw (
      ← append-nil (frame l (crc.ieee part) part),
      decode_framed crc l base 1 max (key_fills key) [] (omega arith) e hb hm
          (omega (arith, length-key_fills key)),
      decode_body_panics l base max key long small e (crc.ieee part),
    )
