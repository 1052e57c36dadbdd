-- ===== src/Offsets/Recover.antt =====
-- OpenStore and recover of internal/offsets/store.go.
use distributed_message_brok.Prelude.{
  ℕ, zero, suc, ◌+◌, ◌%◌, ◌^◌, List, [], ◌∷◌, Bool, true, false, not, ◌||◌, length, take, drop, ltb,
  leb, ◌==◌, if◌then◌else◌, Result, ok, panic, ◌>>=◌, ◌>>◌, ensure,
}
use distributed_message_brok.Bytes.{Bytes, Checksum, get_be, eq_bytes, valid_string}
use distributed_message_brok.Offsets.{
  OffsetError, corrupt_offset_log, io_error, Key, OffsetStore, insert, offset_magic,
  offset_prefix_size, offset_min_remainder, max_offset_entry_bytes, max_consumer_group_bytes,
  max_topic_name_bytes,
}

-- The slices `bs[:n]` and `bs[n:]`: Go panics where n is past the end.
unfoldable pub cut : ℕ → Bytes → Result OffsetError (Bytes × Bytes)
cut n bs = if leb n (length bs) then ok (take n bs, drop n bs) else panic

-- A name behind its length field; what is left of the payload, whose length is
-- `uint32(len(payload))-cursor`, comes back beside it.
unfoldable pub read_name : ℕ → Bytes → Result OffsetError (Bytes × Bytes)
read_name limit rest = do
  ensure (leb 4 (length rest)) corrupt_offset_log
  (field, rest') ← cut 4 rest
  let n = get_be field
  ensure (not (n == 0 || ltb limit n)) corrupt_offset_log
  ensure (leb n (length rest')) corrupt_offset_log
  (name, rest'') ← cut n rest'
  ensure (valid_string name) corrupt_offset_log
  ok (name, rest'')

unfoldable pub decode_payload : ℕ → Bytes → Result OffsetError (Key × ℕ)
decode_payload entry_length payload = do
  (group, rest) ← read_name max_consumer_group_bytes payload
  (topic, rest') ← read_name max_topic_name_bytes rest
  ensure (entry_length == (offset_min_remainder + length group + length topic) % 2 ^ 32)
      corrupt_offset_log
  ensure (length rest' == 20) corrupt_offset_log
  (partition, rest'') ← cut 4 rest'
  (next_offset, now) ← cut 8 rest''
  ok (record { group = group; topic = topic; partition = get_be partition }, get_be next_offset)

-- What stands at a position of the log: an entry that the file ends inside of, or a whole entry of
-- this size. A whole entry that is not as Commit writes it is an error.
pub data Entry : Type 0 where
  torn : Entry
  whole : ℕ → Key → ℕ → Entry

unfoldable pub read_entry : Checksum → Bytes → Result OffsetError Entry
read_entry crc rest = if ltb (length rest) offset_prefix_size then ok torn else do
  ensure (eq_bytes (take 4 rest) offset_magic) corrupt_offset_log
  ensure (get_be (take 1 (drop 4 rest)) == 1) corrupt_offset_log
  let entry_length = get_be (take 4 (drop 5 rest))
  ensure (leb offset_min_remainder entry_length) corrupt_offset_log
  ensure (leb entry_length max_offset_entry_bytes) corrupt_offset_log
  if ltb (length rest) (offset_prefix_size + entry_length) then ok torn else do
    let frame = take entry_length (drop offset_prefix_size rest)
    (sum, payload) ← cut 4 frame
    ensure (get_be sum == crc.ieee payload) corrupt_offset_log
    (key, next_offset) ← decode_payload entry_length payload
    ok (whole (offset_prefix_size + entry_length) key next_offset)

-- What the loop of recover finds: the entries' size, the map, and whether a torn entry follows.
pub record Scan : Type 0 where
  pub valid_size : ℕ
  pub offsets : List (Key × ℕ)
  pub is_torn : Bool

-- The loop, over the bytes from `pos` on. Every round takes 41 bytes or more, so the number of
-- bytes in the file is enough fuel: the clause without fuel is never met.
unfoldable pub scan : Checksum → ℕ → Bytes → ℕ → List (Key × ℕ) → Result OffsetError Scan
scan crc fuel [] pos offsets = ok (record { valid_size = pos; offsets = offsets; is_torn = false })
scan crc zero (b ∷ bs) pos offsets = panic
scan crc (suc fuel) (b ∷ bs) pos offsets = do
  entry ← read_entry crc (b ∷ bs)
  elim entry [
    | torn ↦ ok (record { valid_size = pos; offsets = offsets; is_torn = true })
    | whole n key next_offset ↦
        scan crc fuel (drop n (b ∷ bs)) (pos + n) (insert key next_offset offsets)
  ]

-- What Truncate and Sync come to.
pub record RecoverIo : Type 0 where
  pub truncate : Bool
  pub sync : Bool

-- The end of recover: truncateAndSync for a torn entry, and the state.
unfoldable pub settle : RecoverIo → Bytes → Scan → Result OffsetError OffsetStore
settle io file found = do
  ensure (not found.is_torn || io.truncate) io_error
  ensure (not found.is_torn || io.sync) io_error
  ok (record {
    file = if found.is_torn then take found.valid_size file else file;
    offsets = found.offsets;
    size = found.valid_size;
    closed = false;
    write_failed = false;
  })

-- OpenStore on a file that was opened.
unfoldable pub open_store : Checksum → RecoverIo → Bytes → Result OffsetError OffsetStore
open_store crc io file = do found ← scan crc (length file) file 0 []; settle io file found
