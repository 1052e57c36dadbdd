-- ===== src/Runs/Batches.antt =====
-- Runs of the batch format.
use distributed_message_brok.Prelude.{◌≡◌, [], ◌∷◌, ◌++◌, refl, arith, length, ok, panic, ◌>>=◌}
use distributed_message_brok.Bytes.{Bytes, crc32}
use distributed_message_brok.Format.{
  encode_batch, checked_part, frame, total_size, records_payload_size, record_payload_size,
  headers_size,
}
use distributed_message_brok.Format.Decode.{decode_batch}
use distributed_message_brok.Format.RoundTrip.{
  encoded, decode_batch-encode_batch, decode_batch-encoded, length-encoded,
}
use distributed_message_brok.Format.Accept.{Accepted, decode_batch-Accepted}
use distributed_message_brok.Format.Panics.{key_fills, decode_batch_panics}
use distributed_message_brok.Runs.{first_record, second_record, both_fit}

decode_batch-encode_batch_example :
    (encode_batch crc32 (first_record ∷ second_record ∷ []) >>= λ bs.
    decode_batch crc32 (bs ++ 9 ∷ []))
    ≡ ok (first_record ∷ second_record ∷ [])
decode_batch-encode_batch_example =
    decode_batch-encode_batch crc32 first_record (second_record ∷ []) (9 ∷ []) both_fit

length-encoded_example :
    length (encoded crc32 first_record (second_record ∷ []))
    ≡ total_size (first_record ∷ second_record ∷ [])
length-encoded_example = length-encoded crc32 first_record (second_record ∷ [])

total_size_run : total_size (first_record ∷ second_record ∷ []) ≡ 95
unfolding total_size records_payload_size record_payload_size headers_size
total_size_run = refl

decode_batch-Accepted_example :
    Accepted crc32 (encoded crc32 first_record (second_record ∷ []) ++ []) 2
decode_batch-Accepted_example =
    decode_batch-Accepted crc32 (encoded crc32 first_record (second_record ∷ []) ++ [])
      (first_record ∷ second_record ∷ [])
      (decode_batch-encoded crc32 first_record (second_record ∷ []) both_fit [])

abbrev eight : Bytes
eight = 1 ∷ 2 ∷ 3 ∷ 4 ∷ 5 ∷ 6 ∷ 7 ∷ 8 ∷ []

decode_batch_panics_example :
    decode_batch crc32 (
      frame 48
        (crc32.ieee (checked_part 0 1 0 (key_fills eight)))
        (checked_part 0 1 0 (key_fills eight)))
    ≡ panic
decode_batch_panics_example =
    decode_batch_panics crc32 0 0 eight (omega arith) (omega arith) (omega arith) (omega arith)
