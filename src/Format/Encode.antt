-- ===== src/Format/Encode.antt =====
-- What EncodeBatch writes: its size.
use distributed_message_brok.Prelude.{
  ℕ, ◌+◌, ◌≡◌, refl, List, [], ◌∷◌, Option, none, some, arith, length, length-append,
}
use distributed_message_brok.Bytes.{length-put_u32, length-put_u64}
use distributed_message_brok.Model.{Header, StoredRecord}
use distributed_message_brok.Format.{
  encode_slice, encode_header, encode_headers, headers_size, encode_record, record_payload_size,
  records_payload_size, encode_records, len,
}

pub length-encode_slice : (o : Option (List ℕ)) → length (encode_slice o) ≡ 4 + len o
unfolding encode_slice
length-encode_slice none = rw length-put_u32
length-encode_slice (some bs) = simp (length-append, length-put_u32)

pub length-encode_header :
    (h : Header) → length (encode_header h) ≡ 8 + length h.key + length h.value
unfolding encode_header
length-encode_header h = simp (length-append, length-put_u32) (omega arith)

pub length-encode_headers : (hs : List Header) → length (encode_headers hs) ≡ headers_size hs
unfolding encode_headers headers_size
length-encode_headers [] = refl
length-encode_headers (h ∷ hs) =
    simp (length-append, length-encode_header, length-encode_headers hs)

pub length-encode_record :
    (base max : ℕ) (r : StoredRecord) → length (encode_record base max r) ≡ record_payload_size r
unfolding encode_record record_payload_size
length-encode_record base max r =
    simp (length-append, length-put_u32, length-put_u64, length-encode_slice, length-encode_headers)
      (omega arith)

pub length-encode_records :
    (base max : ℕ) (rs : List StoredRecord)
    → length (encode_records base max rs) ≡ records_payload_size rs
unfolding encode_records records_payload_size
length-encode_records base max [] = refl
length-encode_records base max (r ∷ rs) =
    simp (length-append, length-encode_record, length-encode_records base max rs)
