-- ===== src/Runs/Commits.antt =====
-- Runs of the consumer offset log.
use distributed_message_brok.Prelude.{
  ◌≡◌, ◌≢◌, ◌⊎◌, [], ◌∷◌, ◌++◌, true, false, some, refl, arith, take, ok, err, panic, if◌then◌else◌,
}
use distributed_message_brok.Bytes.{crc32, put_u32, put_u64, valid_string}
use distributed_message_brok.File.{complete, short, is_complete}
use distributed_message_brok.Offsets.{
  Key, OffsetStore, Commit, CommitIo, io_error, store_unavailable, payload, encode_entry,
  valid_name, append_entry, commit, get, eq_key,
}
use distributed_message_brok.Offsets.Recover.{open_store}
use distributed_message_brok.Offsets.Entries.{IsValid}
use distributed_message_brok.Offsets.Recovery.{entries, opened, io_ok, open_store-entries}
use distributed_message_brok.Offsets.Durability.{
  open_store-commit, get-commit, commit-failed, commit-unavailable,
}
use distributed_message_brok.Offsets.Total.{open_store-ne-panic}

abbrev a_key : Key
a_key = record { group = 0x67 ∷ 0x31 ∷ []; topic = 0x74 ∷ []; partition = 2 }

abbrev first_commit : Commit
first_commit = record { key = a_key; next_offset = 5; now = 1000 }

abbrev second_commit : Commit
second_commit = record { key = a_key; next_offset = 9; now = 1001 }

first-IsValid : IsValid first_commit
unfolding valid_name valid_string
first-IsValid = record {
  group_valid = refl;
  topic_valid = refl;
  partition_lt = omega arith;
  offset_lt = omega arith;
}

second-IsValid : IsValid second_commit
unfolding valid_name valid_string
second-IsValid = record {
  group_valid = refl;
  topic_valid = refl;
  partition_lt = omega arith;
  offset_lt = omega arith;
}

open_store-entries_example :
    open_store crc32 io_ok
      (entries crc32 (first_commit ∷ []) ++ take 20 (encode_entry crc32 second_commit))
    ≡ ok (opened crc32 (first_commit ∷ []))
open_store-entries_example =
    open_store-entries crc32 (first_commit ∷ []) second_commit 20 (first-IsValid, tt) second-IsValid
      (unfold encode_entry payload put_u32 put_u64 in omega arith)

open_store-commit_example :
    (open_store crc32 io_ok
        (commit crc32
          (record { write = short 30; sync = true })
          second_commit
          (opened crc32 (first_commit ∷ []))).0.file
      ≡ ok (opened crc32 (first_commit ∷ second_commit ∷ [])))
    ⊎ ((open_store crc32 io_ok
            (commit crc32
              (record { write = short 30; sync = true })
              second_commit
              (opened crc32 (first_commit ∷ []))).0.file
          ≡ ok (opened crc32 (first_commit ∷ [])))
        × ((commit crc32
              (record { write = short 30; sync = true })
              second_commit
              (opened crc32 (first_commit ∷ []))).1
            ≡ err io_error))
open_store-commit_example =
    open_store-commit crc32 (record { write = short 30; sync = true }) (first_commit ∷ [])
      second_commit (first-IsValid, tt) second-IsValid

abbrev whole_write : CommitIo
whole_write = record { write = complete; sync = true }

abbrev failed_sync : CommitIo
failed_sync = record { write = complete; sync = false }

abbrev empty : OffsetStore
empty = record { file = []; offsets = []; size = 0; closed = false; write_failed = false }

commits : (commit crc32 whole_write first_commit empty).1 ≡ ok tt
unfolding commit valid_name valid_string append_entry is_complete
commits = refl

sync_fails : (commit crc32 failed_sync first_commit empty).1 ≡ err io_error
unfolding commit valid_name valid_string append_entry is_complete
sync_fails = refl

get-commit_example :
    get a_key (commit crc32 whole_write first_commit empty).0
    ≡ (if eq_key a_key a_key then ok (some 5) else get a_key empty)
get-commit_example = get-commit crc32 whole_write first_commit empty a_key commits

commit-failed_example :
    ((commit crc32 failed_sync first_commit empty).0.offsets ≡ [])
    × ((commit crc32 failed_sync first_commit empty).0.size ≡ 0)
commit-failed_example = commit-failed crc32 failed_sync first_commit empty io_error sync_fails

commit-unavailable_example :
    (get a_key (commit crc32 failed_sync first_commit empty).0 ≡ err store_unavailable)
    × (commit crc32 whole_write second_commit (commit crc32 failed_sync first_commit empty).0
        ≡ ((commit crc32 failed_sync first_commit empty).0, err store_unavailable))
commit-unavailable_example =
    commit-unavailable crc32 failed_sync whole_write first_commit second_commit empty a_key
      sync_fails second-IsValid

open_store-ne-panic_example : open_store crc32 io_ok (0x4F ∷ 0x46 ∷ []) ≢ panic
open_store-ne-panic_example = open_store-ne-panic crc32 io_ok (0x4F ∷ 0x46 ∷ [])
