-- ===== src/Offsets.antt =====
-- The consumer offset log, internal/offsets/store.go: its state, entries, Commit, Get and Close.
pub mod Recover
pub mod Entries
pub mod Recovery
pub mod Durability
pub mod Total
use distributed_message_brok.Prelude.{
  ℕ, ◌+◌, ◌%◌, ◌^◌, List, [], ◌∷◌, ◌++◌, Option, none, some, Bool, true, false, not, ◌&&◌, ◌||◌,
  length, ltb, ◌==◌, if◌then◌else◌, Result, ok, err,
}
use distributed_message_brok.Bytes.{Bytes, Checksum, put_u32, put_u64, eq_bytes, valid_string}
use distributed_message_brok.File.{Write, written, is_complete, write_at}

-- The sentinel errors, and `io_error` for what a file operation returned.
pub data OffsetError : Type 0 where
  store_closed store_unavailable corrupt_offset_log invalid_argument io_error : OffsetError

pub record Key : Type 0 where
  pub group : Bytes
  pub topic : Bytes
  pub partition : ℕ

unfoldable pub eq_key : Key → Key → Bool
eq_key a b = a.partition == b.partition && (eq_bytes a.group b.group && eq_bytes a.topic b.topic)

-- The map of the store: s.offsets[key], and s.offsets[key] = v.
unfoldable pub lookup : Key → List (Key × ℕ) → Option ℕ
lookup k [] = none
lookup k ((j, v) ∷ m) = if eq_key j k then some v else lookup k m

unfoldable pub insert : Key → ℕ → List (Key × ℕ) → List (Key × ℕ)
insert k v [] = (k, v) ∷ []
insert k v ((j, w) ∷ m) = if eq_key j k then (k, v) ∷ m else (j, w) ∷ insert k v m

pub record OffsetStore : Type 0 where
  pub file : Bytes
  pub offsets : List (Key × ℕ)
  pub size : ℕ
  pub closed : Bool
  pub write_failed : Bool

abbrev pub max_consumer_group_bytes : ℕ
max_consumer_group_bytes = 255

abbrev pub max_topic_name_bytes : ℕ
max_topic_name_bytes = 255

abbrev pub offset_prefix_size : ℕ
offset_prefix_size = 9

abbrev pub offset_min_remainder : ℕ
offset_min_remainder = 32

abbrev pub max_offset_entry_bytes : ℕ
max_offset_entry_bytes = 1024

-- "OFFS"
abbrev pub offset_magic : Bytes
offset_magic = 0x4F ∷ 0x46 ∷ 0x46 ∷ 0x53 ∷ []

-- One commit: the key, the offset, and the milliseconds of the clock, an int64.
pub record Commit : Type 0 where
  pub key : Key
  pub next_offset : ℕ
  pub now : ℕ

unfoldable pub payload : Commit → Bytes
payload c =
    put_u32 (length c.key.group)
    ++ (c.key.group
        ++ (put_u32 (length c.key.topic)
            ++ (c.key.topic
                ++ (put_u32 c.key.partition ++ (put_u64 c.next_offset ++ put_u64 c.now)))))

-- The entry that Commit builds: magic, version, entry length, checksum, payload.
unfoldable pub encode_entry : Checksum → Commit → Bytes
encode_entry crc c =
    offset_magic
    ++ (1
        ∷ (put_u32 ((offset_min_remainder + length c.key.group + length c.key.topic) % 2 ^ 32)
            ++ (put_u32 (crc.ieee (payload c)) ++ payload c)))

-- `len(s) == 0 || len(s) > limit || !utf8.ValidString(s)` is refused.
unfoldable pub valid_name : ℕ → Bytes → Bool
valid_name limit s = not (length s == 0 || (ltb limit (length s) || not (valid_string s)))

-- What WriteAt and Sync come to.
pub record CommitIo : Type 0 where
  pub write : Write
  pub sync : Bool

-- The part of Commit under the lock, after the closed and writeFailed checks.
unfoldable pub append_entry :
    Checksum → CommitIo → Commit → OffsetStore → OffsetStore × Result OffsetError (Unit {0})
append_entry crc io c s =
    let encoded = encode_entry crc c in
    let s1 = record s { file = write_at s.file s.size (written io.write encoded) } in
    if not (is_complete io.write encoded)
    then (record s1 { write_failed = true }, err io_error)
    else if not io.sync
    then (record s1 { write_failed = true }, err io_error)
    else (
      record s1 { size = s.size + length encoded; offsets = insert c.key c.next_offset s.offsets },
      ok tt,
    )

-- Commit
unfoldable pub commit :
    Checksum → CommitIo → Commit → OffsetStore → OffsetStore × Result OffsetError (Unit {0})
commit crc io c s =
    if not (valid_name max_consumer_group_bytes c.key.group)
    then (s, err invalid_argument)
    else if not (valid_name max_topic_name_bytes c.key.topic)
    then (s, err invalid_argument)
    else if s.closed
    then (s, err store_closed)
    else if s.write_failed
    then (s, err store_unavailable)
    else append_entry crc io c s

-- Get: `none` is (0, false, nil).
unfoldable pub get : Key → OffsetStore → Result OffsetError (Option ℕ)
get k s =
    if s.closed
    then err store_closed
    else if s.write_failed
    then err store_unavailable
    else ok (lookup k s.offsets)

-- Close: the Sync, which a failed write leaves out, and the Close of the file.
unfoldable pub close :
    (sync close_file : Bool) → OffsetStore → OffsetStore × Result OffsetError (Unit {0})
close sync close_file s = if s.closed then (s, ok tt) else (
  record s { closed = true },
  if (sync || s.write_failed) && close_file then ok tt else err io_error,
)
