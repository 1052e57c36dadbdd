-- ===== src/Storage/Assign.antt =====
-- What Append answers and what it leaves: offsets, the bytes on disk, and the error paths.
use distributed_message_brok.Prelude.{
  ℕ, ◌+◌, ◌-◌, ◌%◌, ◌^◌, ◌<◌, ◌≡◌, ◌⊎◌, inl, inr, refl, List, [], ◌∷◌, true, false, arith, length,
  ok, err, ltb, Bool-cases, if◌then◌else◌, lt→ltb, ◌∙◌,
}
use distributed_message_brok.Bytes.{Bytes, Checksum}
use distributed_message_brok.Model.{Record}
use distributed_message_brok.Format.{encode_batch}
use distributed_message_brok.Storage.{
  StoreError, Store, Segment, store_corrupt, store_closed, io_error,
}
use distributed_message_brok.Storage.SegmentFile.{append_data}
use distributed_message_brok.Storage.Append.{
  AppendIo, stored_records, roll_to, roll, flush_policy, advance, append_active, append_encoded,
  append,
}
use distributed_message_brok.Storage.Read.{read}
use distributed_message_brok.Format.RoundTrip.{encoded}

-- What stays and what moves in an Append that returns offsets.
pub record Assigned (s s' : Store) (count : ℕ) (offsets : ℕ × ℕ) : Type 0 where
  pub base : offsets.0 ≡ s.log_end_offset
  pub last : offsets.1 ≡ (s.log_end_offset + count + 2 ^ 64 - 1) % 2 ^ 64
  pub end : s'.log_end_offset ≡ (offsets.1 + 1) % 2 ^ 64
  pub earliest : s'.earliest_offset ≡ s.earliest_offset
  pub working : s'.write_failed ≡ s.write_failed
  pub open_still : s'.closed ≡ s.closed

flush_policy_keeps :
    (io : AppendIo) (p : ℕ × ℕ) (s : Store) {q : ℕ × ℕ}
    → (flush_policy io p s).1 ≡ ok q
    → (q ≡ p)
      × ((flush_policy io p s).0.log_end_offset ≡ s.log_end_offset)
      × ((flush_policy io p s).0.earliest_offset ≡ s.earliest_offset)
      × ((flush_policy io p s).0.write_failed ≡ s.write_failed)
      × ((flush_policy io p s).0.closed ≡ s.closed)
unfolding flush_policy
flush_policy_keeps io p s h = (ground arith, ground arith, ground arith, ground arith, ground arith)

advance_keeps :
    (io : AppendIo) (relative pos next : ℕ) (a : Segment) (s : Store)
    → ((advance io relative pos next a s).log_end_offset ≡ next)
      × ((advance io relative pos next a s).earliest_offset ≡ s.earliest_offset)
      × ((advance io relative pos next a s).write_failed ≡ s.write_failed)
      × ((advance io relative pos next a s).closed ≡ s.closed)
unfolding advance
advance_keeps io relative pos next a s = (refl, refl, refl, refl)

append_active-Assigned :
    (io : AppendIo) (count : ℕ) (bs : Bytes) (s : Store) {q : ℕ × ℕ}
    → (append_active io count bs s).1 ≡ ok q
    → Assigned s (append_active io count bs s).0 count q
unfolding append_active
append_active-Assigned io count bs s {q} h =
    let base = s.log_end_offset in
    let relative = (base + 2 ^ 64 - s.active_segment.base_offset) % 2 ^ 64 in
    let last = (base + count + 2 ^ 64 - 1) % 2 ^ 64 in
    let a = (append_data io.write bs s.active_segment).0 in
    let s2 = advance io relative s.active_segment.size ((last + 1) % 2 ^ 64) a s in
    ground (
      arith,
      flush_policy_keeps io (base, last) s2 {q = q},
      advance_keeps io relative s.active_segment.size ((last + 1) % 2 ^ 64) a s,
    )

roll_keeps :
    (io : AppendIo) (n : ℕ) (s : Store)
    → (roll io n s).1 ≡ true
    → ((roll io n s).0.log_end_offset ≡ s.log_end_offset)
      × ((roll io n s).0.earliest_offset ≡ s.earliest_offset)
      × ((roll io n s).0.write_failed ≡ s.write_failed)
      × ((roll io n s).0.closed ≡ s.closed)
unfolding roll roll_to
roll_keeps io n s h = (ground arith, ground arith, ground arith, ground arith)

append_encoded-Assigned :
    (io : AppendIo) (count : ℕ) (bs : Bytes) (s : Store) {q : ℕ × ℕ}
    → (append_encoded io count bs s).1 ≡ ok q
    → Assigned s (append_encoded io count bs s).0 count q
unfolding append_encoded
append_encoded-Assigned io count bs s {q} h = ground (
  arith,
  roll_keeps io (length bs) s,
  append_active-Assigned io count bs (roll io (length bs) s).0 {q = q},
)

-- The batch that Append encodes, for records that are not empty.
abbrev pub batch_bytes : Checksum → AppendIo → Record → List Record → Store → Bytes
batch_bytes crc io r rs s =
    encoded crc
      (record {
        offset = s.log_end_offset;
        timestamp = io.now;
        key = r.key;
        value = r.value;
        headers = r.headers;
      })
      (stored_records ((s.log_end_offset + 1) % 2 ^ 64) io.now rs)

-- Past its first checks Append goes on with the encoded batch: encoding does not fail.
pub append-cons :
    (crc : Checksum) (io : AppendIo) (r : Record) (rs : List Record) (s : Store)
    → append crc io (r ∷ rs) s ≡ (
        if s.closed
        then (s, err store_closed)
        else if s.write_failed
        then (s, err store_corrupt)
        else append_encoded io (length (r ∷ rs)) (batch_bytes crc io r rs s) s)
unfolding append stored_records encode_batch
append-cons crc io r rs s = refl

-- An Append that returns (base, last) has given the log end offset as base, base + n - 1 as last
-- for its n records, and last + 1 as the new log end offset, all as uint64s. It keeps the earliest
-- offset, and the store works on.
pub append-Assigned :
    (crc : Checksum) (io : AppendIo) (recs : List Record) (s : Store) (q : ℕ × ℕ)
    → (append crc io recs s).1 ≡ ok q
    → Assigned s (append crc io recs s).0 (length recs) q
append-Assigned crc io [] s q h = unfold append in cc
append-Assigned crc io (r ∷ rs) s q h =
    let n = length (r ∷ rs) in
    ground (
      arith,
      append-cons crc io r rs s,
      append_encoded-Assigned io n (batch_bytes crc io r rs s) s {q = q},
    )

flush_policy_fails :
    (io : AppendIo) (p : ℕ × ℕ) (s : Store) {e : StoreError}
    → (flush_policy io p s).1 ≡ err e
    → (flush_policy io p s).0.write_failed ≡ true
unfolding flush_policy
flush_policy_fails io p s h = ground arith

append_active_fails :
    (io : AppendIo) (count : ℕ) (bs : Bytes) (s : Store) {e : StoreError}
    → (append_active io count bs s).1 ≡ err e
    → (append_active io count bs s).0.write_failed ≡ true
unfolding append_active
append_active_fails io count bs s {e} h =
    let base = s.log_end_offset in
    let relative = (base + 2 ^ 64 - s.active_segment.base_offset) % 2 ^ 64 in
    let last = (base + count + 2 ^ 64 - 1) % 2 ^ 64 in
    let a = (append_data io.write bs s.active_segment).0 in
    let s2 = advance io relative s.active_segment.size ((last + 1) % 2 ^ 64) a s in
    ground (arith, flush_policy_fails io (base, last) s2 {e = e})

roll_fails :
    (io : AppendIo) (n : ℕ) (s : Store)
    → (roll io n s).1 ≡ false
    → (roll io n s).0.write_failed ≡ true
unfolding roll roll_to
roll_fails io n s h = ground arith

append_encoded_fails :
    (io : AppendIo) (count : ℕ) (bs : Bytes) (s : Store) {e : StoreError}
    → (append_encoded io count bs s).1 ≡ err e
    → ((append_encoded io count bs s).0 ≡ s)
      ⊎ ((append_encoded io count bs s).0.write_failed ≡ true)
unfolding append_encoded
append_encoded_fails io count bs s {e} h = elim (Bool-cases (ltb s.max_batch_bytes (length bs))) [
  | inl big ↦ inl (rw big)
  | inr fits ↦ inr (
      ground (
        arith,
        roll_fails io (length bs) s,
        append_active_fails io count bs (roll io (length bs) s).0 {e = e},
      ))
]

-- An Append that returns an error has changed nothing, or it has set writeFailed.
pub append-failed :
    (crc : Checksum) (io : AppendIo) (recs : List Record) (s : Store) (e : StoreError)
    → (append crc io recs s).1 ≡ err e
    → ((append crc io recs s).0 ≡ s) ⊎ ((append crc io recs s).0.write_failed ≡ true)
append-failed crc io [] s e h = inl (unfold append in refl)
append-failed crc io (r ∷ rs) s e h = elim (Bool-cases s.closed) [
  | inl c ↦ inl (rw (append-cons crc io r rs s, c))
  | inr c ↦ elim (Bool-cases s.write_failed) [
    | inl w ↦ inl (rw (append-cons crc io r rs s, c, w))
    | inr w ↦
        let e1 : append crc io (r ∷ rs) s
            ≡ append_encoded io (length (r ∷ rs)) (batch_bytes crc io r rs s) s =
          append-cons crc io r rs s ∙ rw (c, w) in
        rw e1 (append_encoded_fails io (length (r ∷ rs)) (batch_bytes crc io r rs s) s (rw e1 at h))
  ]
]

roll_stays_open : (io : AppendIo) (n : ℕ) (s : Store) → (roll io n s).0.closed ≡ s.closed
unfolding roll roll_to
roll_stays_open io n s = ground arith

append_active_stays_open :
    (io : AppendIo) (count : ℕ) (bs : Bytes) (s : Store)
    → (append_active io count bs s).0.closed ≡ s.closed
unfolding append_active flush_policy advance
append_active_stays_open io count bs s = ground arith

append_encoded_poisons :
    (io : AppendIo) (count : ℕ) (bs : Bytes) (s : Store)
    → (append_encoded io count bs s).1 ≡ err io_error
    → ((append_encoded io count bs s).0.write_failed ≡ true)
      × ((append_encoded io count bs s).0.closed ≡ s.closed)
unfolding append_encoded
append_encoded_poisons io count bs s h = ground (
  arith,
  roll_fails io (length bs) s,
  roll_stays_open io (length bs) s,
  append_active_stays_open io count bs (roll io (length bs) s).0,
  append_active_fails io count bs (roll io (length bs) s).0 {e = io_error},
)

-- An Append that failed with an I/O error found the store open and leaves it open, but poisoned.
append_poisons :
    (crc : Checksum) (io : AppendIo) (recs : List Record) (s : Store)
    → (append crc io recs s).1 ≡ err io_error
    → ((append crc io recs s).0.closed ≡ false) × ((append crc io recs s).0.write_failed ≡ true)
append_poisons crc io [] s h = unfold append in ground arith
append_poisons crc io (r ∷ rs) s h = ground (
  arith,
  append-cons crc io r rs s,
  append_encoded_poisons io (length (r ∷ rs)) (batch_bytes crc io r rs s) s,
)

-- After an Append failed with an I/O error, whichever of the rollover, the write and the flush it came
-- from, a later Append of records is refused as ErrStoreCorrupt and changes nothing, whatever its file
-- operations would do, and a Read with a positive limit is refused as ErrStoreCorrupt.
pub append-unavailable :
    (crc : Checksum) (io io' : AppendIo) (recs : List Record) (r : Record) (rs : List Record)
    (offset max_bytes : ℕ) (s : Store)
    → (append crc io recs s).1 ≡ err io_error
    → 0 < max_bytes
    → let s' = (append crc io recs s).0 in
      (append crc io' (r ∷ rs) s' ≡ (s', err store_corrupt))
      × (read crc offset max_bytes s' ≡ err store_corrupt)
append-unavailable crc io io' recs r rs offset max_bytes s h positive =
    let s' = (append crc io recs s).0 in
    let (c, w) = append_poisons crc io recs s h in
    (rw (append-cons crc io' r rs s', c, w), unfold read in rw (lt→ltb 0 max_bytes positive, c, w))
