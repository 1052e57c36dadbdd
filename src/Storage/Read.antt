-- ===== src/Storage/Read.antt =====
-- Read of internal/storage/store.go.
use distributed_message_brok.Prelude.{
  ℕ, zero, suc, ◌+◌, ◌-◌, ◌/◌, ◌%◌, ◌^◌, List, [], ◌∷◌, ◌++◌, none, some, Bool, true, not, ◌&&◌,
  length, take, get_elem?, drop, ltb, leb, ◌==◌, if◌then◌else◌, Result, ok, panic, ◌>>=◌, ◌>>◌,
  ensure,
}
use distributed_message_brok.Bytes.{Bytes, Checksum, get_be}
use distributed_message_brok.Model.{Header, StoredRecord}
use distributed_message_brok.Format.{len}
use distributed_message_brok.Format.Decode.{slice, decode_batch}
use distributed_message_brok.Storage.{
  StoreError, store_closed, store_corrupt, offset_out_of_range, bad_max_bytes, truncated_batch,
  IndexEntry, Segment, Store,
}
use distributed_message_brok.Storage.SegmentFile.{log_bytes}
use distributed_message_brok.Storage.Recover.{decoded, not_empty}

-- sort.Search: the loop over [i, j), with fuel for its rounds.
unfoldable pub search_loop : ℕ → (ℕ → Bool) → ℕ → ℕ → ℕ
search_loop zero p i j = i
search_loop (suc fuel) p i j =
    let h = (i + j) / 2 in
    let rest = search_loop fuel p (if p h then i else h + 1) (if p h then h else j) in
    if ltb i j then rest else i

unfoldable pub sort_search : ℕ → (ℕ → Bool) → ℕ
sort_search n p = search_loop n p 0 n

unfoldable pub headers_bytes : List Header → ℕ
headers_bytes [] = 0
headers_bytes (h ∷ hs) = length h.key + length h.value + headers_bytes hs

unfoldable pub record_size : StoredRecord → ℕ
unfolding headers_bytes
record_size r = len r.key + len r.value + headers_bytes r.headers + 16

-- result, accumulatedBytes and currOffset
pub record Progress : Type 0 where
  pub result : List StoredRecord
  pub bytes : ℕ
  pub current : ℕ

-- `return result, nil` inside the loops, or the loops go on.
pub data Step : Type 0 where
  stop : List StoredRecord → Step
  more : Progress → Step

unfoldable pub add_record : StoredRecord → Progress → Progress
add_record r p = record {
  result = p.result ++ (r ∷ []);
  bytes = p.bytes + record_size r;
  current = (r.offset + 1) % 2 ^ 64;
}

-- The loop over the records of a batch.
unfoldable pub take_records : ℕ → List StoredRecord → Progress → Step
take_records max_bytes [] p = more p
take_records max_bytes (r ∷ rs) p =
    let skip = ltb r.offset p.current in
    let rest = take_records max_bytes rs (if skip then p else add_record r p) in
    if not skip && (not_empty p.result && ltb max_bytes (p.bytes + record_size r))
    then stop p.result
    else rest

-- The scan of a segment, on the bytes from startPos to the segment's size. Every round takes 9
-- bytes or more, so the number of bytes is enough fuel.
unfoldable pub scan_segment : Checksum → ℕ → ℕ → Bytes → Progress → Result StoreError Step
scan_segment crc max_bytes fuel [] p = ok (more p)
scan_segment crc max_bytes zero (b ∷ bs) p = panic
scan_segment crc max_bytes (suc fuel) (b ∷ bs) p = do
  let rest = b ∷ bs
  ensure (leb 9 (length rest)) truncated_batch
  let total = 9 + get_be (slice 5 9 rest)
  ensure (leb total (length rest)) truncated_batch
  recs ← decoded (decode_batch crc (take total rest))
  elim (take_records max_bytes recs p) [
    | stop result ↦ ok (stop result)
    | more p' ↦ scan_segment crc max_bytes fuel (drop total rest) p'
  ]

-- The test of the search in the index, true past the end.
unfoldable pub entry_after : Segment → ℕ → ℕ → Bool
entry_after s current j = elim (get_elem? s.index_entries j) [
  | none ↦ true
  | some e ↦ ltb current ((s.base_offset + e.relative_offset) % 2 ^ 64)
]

unfoldable pub position_at : List IndexEntry → ℕ → ℕ
position_at es i = elim (get_elem? es i) [ none ↦ 0 | some e ↦ e.position ]

-- startPos: the position of the last index entry that is not behind the offset.
unfoldable pub start_position : Segment → ℕ → ℕ
start_position s current =
    let idx = sort_search (length s.index_entries) (entry_after s current) in
    if ltb 0 idx then position_at s.index_entries (idx - 1) else 0

-- The loop over the segments.
unfoldable pub read_segments :
    Checksum → ℕ → List Segment → Progress → Result StoreError (List StoredRecord)
read_segments crc max_bytes [] p = ok p.result
read_segments crc max_bytes (s ∷ ss) p = do
  let bytes = log_bytes s
  step ← scan_segment crc max_bytes (length bytes) (drop (start_position s p.current) bytes) p
  elim step [ stop result ↦ ok result | more p' ↦ read_segments crc max_bytes ss p' ]

-- The test of the search for the segment, true past the end.
unfoldable pub segment_after : List Segment → ℕ → ℕ → Bool
segment_after ss offset i = elim (get_elem? ss i) [
  | none ↦ true
  | some s ↦ ltb offset s.next_offset
]

unfoldable pub segments : Store → List Segment
segments s = s.closed_segments ++ (s.active_segment ∷ [])

-- Read. A `maxBytes` of zero or less is 0.
unfoldable pub read : Checksum → ℕ → ℕ → Store → Result StoreError (List StoredRecord)
read crc offset max_bytes s = do
  ensure (ltb 0 max_bytes) bad_max_bytes
  ensure (not s.closed) store_closed
  ensure (not s.write_failed) store_corrupt
  ensure (leb s.earliest_offset offset && leb offset s.log_end_offset) offset_out_of_range
  let ss = segments s
  let idx = sort_search (length ss) (segment_after ss offset)
  let found = (do
    ensure (ltb idx (length ss)) offset_out_of_range
    read_segments crc max_bytes (drop idx ss) (record { result = []; bytes = 0; current = offset }))
  if offset == s.log_end_offset then ok [] else found
