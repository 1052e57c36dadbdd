-- ===== src/Storage/SegmentFile.antt =====
-- internal/storage/segment.go
use distributed_message_brok.Prelude.{
  ℕ, ◌+◌, [], ◌∷◌, ◌++◌, none, some, Bool, true, false, length, take, if◌then◌else◌,
}
use distributed_message_brok.Bytes.{Bytes, put_u32, put_u64}
use distributed_message_brok.File.{Write, written, is_complete, write_at}
use distributed_message_brok.Storage.{IndexEntry, Segment}

-- NewSegment over files with these contents; both are empty if they were created.
unfoldable pub new_segment : ℕ → Bool → Bytes → Bytes → Segment
new_segment base active log index = record {
  base_offset = base;
  next_offset = base;
  size = length log;
  file = log;
  index_file = index;
  index_entries = [];
  last_indexed_position = none;
  index_size = length index;
  index_dirty = false;
  active = active;
  max_timestamp = 0;
  handles_closed = false;
}

-- Append: the segment, and whether there was no error.
unfoldable pub append_data : Write → Bytes → Segment → Segment × Bool
append_data w bs s =
    let s1 = record s { file = write_at s.file s.size (written w bs) } in
    if is_complete w bs then (record s1 { size = s.size + length bs }, true) else (s1, false)

unfoldable pub encode_index_entry : IndexEntry → Bytes
encode_index_entry e = put_u32 e.relative_offset ++ put_u64 e.position

-- AppendIndexEntry; its caller drops the error.
unfoldable pub append_index_entry : Write → IndexEntry → Segment → Segment
append_index_entry w e s =
    let bs = encode_index_entry e in
    let s1 = record s {
      index_entries = s.index_entries ++ (e ∷ []);
      last_indexed_position = some e.position;
      index_dirty = true;
      index_file = write_at s.index_file s.index_size (written w bs);
    } in
    if is_complete w bs then record s1 { index_size = s.index_size + 12 } else s1

-- What the two Sync calls of Flush come to.
pub record FlushIo : Type 0 where
  pub log : Bool
  pub index : Bool

unfoldable pub flush_index : Bool → Segment → Segment × Bool
flush_index done s =
    if s.index_dirty
    then (if done then (record s { index_dirty = false }, true) else (s, false))
    else (s, true)

unfoldable pub flush : FlushIo → Segment → Segment × Bool
unfolding flush_index
flush io s = if io.log then flush_index io.index s else (s, false)

-- Close: the segment, and whether there was no error.
unfoldable pub close : Bool → Segment → Segment × Bool
close done s = if s.handles_closed then (s, true) else (record s { handles_closed = true }, done)

-- The bytes of the log file up to the tracked size.
unfoldable pub log_bytes : Segment → Bytes
log_bytes s = take s.size s.file
