-- ===== src/Format/Accept.antt =====
-- What DecodeBatch has checked when it returns records.
use distributed_message_brok.Prelude.{
  ℕ, zero, suc, ◌+◌, ◌≤◌, ◌≡◌, List, arith, length, ok, >>=-eq-ok,
}
use distributed_message_brok.Bytes.{Bytes, Checksum, get_be, eq_bytes_sound}
use distributed_message_brok.Model.{StoredRecord}
use distributed_message_brok.Format.{magic_bytes}
use distributed_message_brok.Format.Decode.{
  Cursor, slice, read_record, read_records, decode_body, decode_batch,
}

length-read_records :
    (total base max n : ℕ) (c : Cursor) {rs : List StoredRecord} {c' : Cursor}
    → read_records total base max n c ≡ ok (rs, c')
    → length rs ≡ n
unfolding read_records
length-read_records total base max zero c h = ground arith
length-read_records total base max (suc n) c h =
    let ((r, c1), e1, h1) = >>=-eq-ok (read_record total base max c) _ h in
    let ((rs, c2), e2, h2) = >>=-eq-ok (read_records total base max n c1) _ h1 in
    ground (arith, length-read_records total base max n c1 e2)

length-decode_body :
    (total base max n : ℕ) (d : Bytes) {rs : List StoredRecord}
    → decode_body total base max n d ≡ ok rs
    → length rs ≡ n
unfolding decode_body
length-decode_body total base max n d h =
    let ((rs, c), e, h1) = >>=-eq-ok (read_records total base max n _) _ h in
    ground (arith, length-read_records total base max n _ e)

pub record Accepted (crc : Checksum) (d : Bytes) (n : ℕ) : Type 0 where
  pub header : 33 ≤ length d
  pub magic : slice 0 4 d ≡ magic_bytes
  pub version : get_be (slice 4 5 d) ≡ 1
  pub whole : 9 + get_be (slice 5 9 d) ≤ length d
  pub checksum : get_be (slice 9 13 d) ≡ crc.ieee (slice 13 (9 + get_be (slice 5 9 d)) d)
  pub count : n ≡ get_be (slice 21 25 d)

-- If DecodeBatch returns records, then the data holds a whole frame with the magic bytes, the
-- version and the checksum of its content, and there are as many records as the frame counts.
pub decode_batch-Accepted :
    (crc : Checksum) (d : Bytes) (rs : List StoredRecord)
    → decode_batch crc d ≡ ok rs
    → Accepted crc d (length rs)
unfolding decode_batch
decode_batch-Accepted crc d rs h = record {
  header = ground arith;
  magic = ground (arith, eq_bytes_sound (slice 0 4 d) magic_bytes);
  version = ground arith;
  whole = ground arith;
  checksum = ground arith;
  count = ground (
    arith,
    length-decode_body (9 + get_be (slice 5 9 d)) (get_be (slice 13 21 d)) (get_be (slice 25 33 d))
        (get_be (slice 21 25 d)) d {rs = rs},
  );
}
