-- ===== src/Storage/Index.antt =====
-- The sparse index of a segment: ReadIndexEntries of segment.go, validateIndexEntries and
-- rebuildIndex of store.go.
use distributed_message_brok.Prelude.{
  ℕ, zero, suc, ◌+◌, ◌-◌, ◌*◌, ◌/◌, ◌%◌, ◌^◌, List, [], ◌∷◌, ◌++◌, Option, none, some, Bool, true,
  false, not, ◌&&◌, length, take, drop, ltb, leb, ◌==◌, if◌then◌else◌, Result, ok, panic, ◌>>=◌,
  ◌>>◌, ensure,
}
use distributed_message_brok.Bytes.{Bytes, get_be, eq_bytes, lt_i64}
use distributed_message_brok.Format.{magic_bytes}
use distributed_message_brok.Format.Decode.{slice}
use distributed_message_brok.Storage.{
  StoreError, index_offset_overflow, io_error, IndexEntry, Segment,
}
use distributed_message_brok.Storage.SegmentFile.{encode_index_entry}

-- The ordering checks of an entry against the one before it, if there is one.
unfoldable pub follows : Option IndexEntry → IndexEntry → Bool
follows none e = e.relative_offset == 0 && e.position == 0
follows (some p) e = ltb p.relative_offset e.relative_offset && ltb p.position e.position

-- `none` is an error, whichever it is.
unfoldable pub parse_entries : ℕ → Option IndexEntry → Bytes → Option (List IndexEntry)
parse_entries zero prev bs = some []
parse_entries (suc n) prev bs =
    let e : IndexEntry = record {
      relative_offset = get_be (take 4 bs);
      position = get_be (take 8 (drop 4 bs));
    } in
    if follows prev e && ltb e.position (2 ^ 63)
    then elim (parse_entries n (some e) (drop 12 bs)) [ none ↦ none | some es ↦ some (e ∷ es) ]
    else none

unfoldable pub read_index_entries : Segment → Option (List IndexEntry)
read_index_entries s =
    if s.index_size == 0
    then some []
    else if not (s.index_size % 12 == 0)
    then none
    else if ltb (64 * 1024 * 1024) s.index_size
    then none
    else parse_entries (s.index_size / 12) none (take s.index_size s.index_file)

-- An entry's batch: the magic bytes at its position, a whole header in front of the end of the
-- valid log, and the entry's offset as the base offset.
unfoldable pub points_to_batch : Segment → ℕ → IndexEntry → Bool
points_to_batch s valid_size e =
    let at = drop e.position s.file in
    ltb e.position valid_size
    && (leb 9 (length at)
        && (eq_bytes (take 4 at) magic_bytes
            && (leb (e.position + 33) valid_size
                && get_be (slice 13 21 at) == (s.base_offset + e.relative_offset) % 2 ^ 64)))

unfoldable pub validate_from : Segment → ℕ → Option IndexEntry → List IndexEntry → Bool
validate_from s valid_size prev [] = true
validate_from s valid_size prev (e ∷ es) =
    follows prev e && (points_to_batch s valid_size e && validate_from s valid_size (some e) es)

unfoldable pub validate_index_entries : Segment → ℕ → List IndexEntry → Bool
validate_index_entries s valid_size [] = valid_size == 0
validate_index_entries s valid_size (e ∷ es) = validate_from s valid_size none (e ∷ es)

-- `len(indexEntries) == 0 || pos-lastIndexedPosition >= interval`
unfoldable pub should_index : List IndexEntry → Option ℕ → ℕ → ℕ → Bool
should_index [] last pos interval = true
should_index (e ∷ es) none pos interval = leb interval (pos + 1)
should_index (e ∷ es) (some last) pos interval = leb (last + interval) pos

-- What the loop of rebuildIndex builds.
pub record Rebuilt : Type 0 where
  pub entries : List IndexEntry
  pub last : Option ℕ
  pub max_timestamp : ℕ

-- The loop over the headers, on the bytes of the log from `pos` to the valid size. Every round
-- takes 9 bytes or more, so the number of bytes is enough fuel.
unfoldable pub rebuild_loop : ℕ → ℕ → ℕ → Bytes → ℕ → Rebuilt → Result StoreError Rebuilt
rebuild_loop base interval fuel [] pos r = ok r
rebuild_loop base interval zero (b ∷ bs) pos r = panic
rebuild_loop base interval (suc fuel) (b ∷ bs) pos r = do
  let header = b ∷ bs
  ensure (leb 33 (length header)) io_error
  let relative = (get_be (slice 13 21 header) + 2 ^ 64 - base) % 2 ^ 64
  let timestamp = get_be (slice 25 33 header)
  ensure (ltb relative (2 ^ 32)) index_offset_overflow
  let total = 9 + get_be (slice 5 9 header)
  let max = if lt_i64 r.max_timestamp timestamp then timestamp else r.max_timestamp
  let r' =
      if should_index r.entries r.last pos interval
      then (record {
        entries = r.entries ++ (record { relative_offset = relative; position = pos } ∷ []);
        last = some pos;
        max_timestamp = max;
      })
      else record r { max_timestamp = max }
  rebuild_loop base interval fuel (drop total header) (pos + total) r'

unfoldable pub encode_index : List IndexEntry → Bytes
encode_index [] = []
encode_index (e ∷ es) = encode_index_entry e ++ encode_index es

-- rebuildIndex. `done` says that every operation on the new file succeeded; if not, the error goes
-- up to OpenStore, which fails.
unfoldable pub rebuild_index : ℕ → Bool → Segment → ℕ → Result StoreError Segment
rebuild_index interval done s valid_size = do
  r ←
      rebuild_loop s.base_offset interval valid_size (take valid_size s.file) 0
        (record { entries = []; last = none; max_timestamp = s.max_timestamp })
  ensure done io_error
  ok (record s {
    index_file = encode_index r.entries;
    index_entries = r.entries;
    last_indexed_position = r.last;
    index_dirty = false;
    index_size = length r.entries * 12;
    max_timestamp = r.max_timestamp;
  })
