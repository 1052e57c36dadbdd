-- ===== src/Offsets/Durability.antt =====
-- What Commit leaves on disk, and what it answers.
use distributed_message_brok.Prelude.{
  ℕ, ◌≡◌, ◌⊎◌, inl, inr, refl, sym, ◌∙◌, ap, List, [], ◌∷◌, ◌++◌, append-nil, true, false, arith,
  length-append, All, ok, err, Result, some, if◌then◌else◌, ◌↔◌,
}
use distributed_message_brok.Bytes.{Bytes, Checksum, eq_bytes_sound, eq_bytes_refl}
use distributed_message_brok.File.{complete, written, is_complete, write_at_end, written_cases}
use distributed_message_brok.Offsets.{
  OffsetError, io_error, store_unavailable, OffsetStore, Key, Commit, CommitIo, encode_entry,
  insert, lookup, eq_key, append_entry, commit, get,
}
use distributed_message_brok.Offsets.Recover.{open_store}
use distributed_message_brok.Offsets.Entries.{IsValid, length-encode_entry}
use distributed_message_brok.Offsets.Recovery.{
  entries, entries-append, replay, replay-append, opened, open_store-entries, io_ok,
}

entries-snoc :
    (crc : Checksum) (cs : List Commit) (c : Commit)
    → entries crc (cs ++ c ∷ []) ≡ entries crc cs ++ encode_entry crc c
unfolding entries
entries-snoc crc cs c = entries-append crc cs (c ∷ []) ∙ rw (append-nil (encode_entry crc c))

replay-snoc :
    (cs : List Commit) (c : Commit)
    → replay [] (cs ++ c ∷ []) ≡ insert c.key c.next_offset (replay [] cs)
unfolding replay
replay-snoc cs c = replay-append [] cs (c ∷ [])

-- Where WriteAt and Sync succeed, Commit of a valid commit returns no error and leaves the store
-- that is open on the log of the old commits and the new one.
pub commit-opened :
    (crc : Checksum) (cs : List Commit) (c : Commit)
    → IsValid c
    → commit crc (record { write = complete; sync = true }) c (opened crc cs)
      ≡ (opened crc (cs ++ c ∷ []), ok tt)
unfolding commit append_entry written is_complete
commit-opened crc cs c v = rw (
  v.group_valid,
  v.topic_valid,
  write_at_end (entries crc cs) (encode_entry crc c),
  entries-snoc crc cs c,
  replay-snoc cs c,
  length-append (entries crc cs) (encode_entry crc c),
)

All-snoc : (cs : List Commit) (c : Commit) → All IsValid cs → IsValid c → All IsValid (cs ++ c ∷ [])
All-snoc [] c vs v = (v, tt)
All-snoc (d ∷ cs) c (w, vs) v = (w, All-snoc cs c vs v)

module _ (crc : Checksum) (io : CommitIo) (cs : List Commit) (c : Commit) (vs : All IsValid cs)
    (v : IsValid c) where
  abbrev after : OffsetStore × Result OffsetError (Unit {0})
  after = commit crc io c (opened crc cs)

  file-commit : after.0.file ≡ entries crc cs ++ written io.write (encode_entry crc c)
  unfolding commit append_entry
  file-commit =
      rw
        (
          v.group_valid,
          v.topic_valid,
          write_at_end (entries crc cs) (written io.write (encode_entry crc c)),
        )
        (ground arith)

  incomplete : is_complete io.write (encode_entry crc c) ≡ false → after.1 ≡ err io_error
  unfolding commit append_entry
  incomplete e = rw (v.group_valid, v.topic_valid, e)

  -- Whatever WriteAt and Sync come to, opening the file again gives the store with the new commit,
  -- or the store without it, and then Commit has returned an error.
  pub open_store-commit :
      (open_store crc io_ok (commit crc io c (opened crc cs)).0.file
        ≡ ok (opened crc (cs ++ c ∷ [])))
      ⊎ ((open_store crc io_ok (commit crc io c (opened crc cs)).0.file ≡ ok (opened crc cs))
          × ((commit crc io c (opened crc cs)).1 ≡ err io_error))
  open_store-commit = elim (written_cases io.write (encode_entry crc c)) [
    | inl e ↦ inl (
        ap (open_store crc io_ok) (
          file-commit
          ∙ rw e (
              sym (append-nil (entries crc cs ++ encode_entry crc c))
              ∙ ap (λ (t : Bytes). t ++ []) (sym (entries-snoc crc cs c))))
        ∙ open_store-entries crc (cs ++ c ∷ []) c 0 (All-snoc cs c vs v) v
            (omega (arith, length-encode_entry crc c)))
    | inr (k, lt, e, i) ↦ inr (
      ap (open_store crc io_ok) (file-commit ∙ rw e) ∙ open_store-entries crc cs c k vs v lt,
      incomplete i,
    )
  ]

eq_key_iff : (a b : Key) → (eq_key a b ≡ true) ↔ (a ≡ b)
unfolding eq_key
eq_key_iff a b = (
  λ h. ground (arith, eq_bytes_sound a.group b.group, eq_bytes_sound a.topic b.topic),
  λ p. rw (← p) (ground (arith, eq_bytes_refl a.group, eq_bytes_refl a.topic)),
)

lookup-insert :
    (k j : Key) (v : ℕ) (m : List (Key × ℕ))
    → lookup j (insert k v m) ≡ (if eq_key k j then some v else lookup j m)
unfolding lookup insert
lookup-insert k j v [] = refl
lookup-insert k j v ((i, w) ∷ m) =
    ground (arith, eq_key_iff k j, eq_key_iff i k, eq_key_iff i j, lookup-insert k j v m)

-- After a Commit that returned no error, Get of its key returns the committed offset, and Get of
-- any other key returns what it returned before.
pub get-commit :
    (crc : Checksum) (io : CommitIo) (c : Commit) (s : OffsetStore) (k : Key)
    → (commit crc io c s).1 ≡ ok tt
    → get k (commit crc io c s).0 ≡ (if eq_key c.key k then ok (some c.next_offset) else get k s)
unfolding commit append_entry get
get-commit crc io c s k h = ground (arith, lookup-insert c.key k c.next_offset s.offsets)

-- A Commit that returns an error leaves the map and the size as they were.
pub commit-failed :
    (crc : Checksum) (io : CommitIo) (c : Commit) (s : OffsetStore) (e : OffsetError)
    → (commit crc io c s).1 ≡ err e
    → ((commit crc io c s).0.offsets ≡ s.offsets) × ((commit crc io c s).0.size ≡ s.size)
unfolding commit append_entry
commit-failed crc io c s e h = (ground arith, ground arith)

commit-flags :
    (crc : Checksum) (io : CommitIo) (c : Commit) (s : OffsetStore)
    → (commit crc io c s).1 ≡ err io_error
    → ((commit crc io c s).0.closed ≡ false) × ((commit crc io c s).0.write_failed ≡ true)
unfolding commit append_entry
commit-flags crc io c s h = (ground arith, ground arith)

commit-refused :
    (crc : Checksum) (io : CommitIo) (d : Commit) (s : OffsetStore)
    → IsValid d
    → s.closed ≡ false
    → s.write_failed ≡ true
    → commit crc io d s ≡ (s, err store_unavailable)
unfolding commit
commit-refused crc io d s v o f = rw (v.group_valid, v.topic_valid, o, f)

-- After a Commit that met an I/O error every Get is refused as unavailable, and so is every Commit
-- of a valid group and topic.
pub commit-unavailable :
    (crc : Checksum) (io io' : CommitIo) (c d : Commit) (s : OffsetStore) (k : Key)
    → (commit crc io c s).1 ≡ err io_error
    → IsValid d
    → (get k (commit crc io c s).0 ≡ err store_unavailable)
      × (commit crc io' d (commit crc io c s).0 ≡ ((commit crc io c s).0, err store_unavailable))
unfolding get
commit-unavailable crc io io' c d s k h v =
    let (o, f) = commit-flags crc io c s h in
    (rw (o, f), commit-refused crc io' d (commit crc io c s).0 v o f)
