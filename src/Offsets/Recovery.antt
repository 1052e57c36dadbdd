-- ===== src/Offsets/Recovery.antt =====
-- Recovery of the offset log: the entries of the commits, and an entry that is cut off.
use distributed_message_brok.Prelude.{
  ℕ, zero, suc, ◌+◌, ◌≤◌, ◌<◌, ◌≡◌, refl, sym, ◌∙◌, ap, List, [], ◌∷◌, ◌++◌, append_assoc,
  append-nil, Bool, true, false, arith, length, length-append, take, drop, take-append, drop-append,
  All, ok, not,
}
use native.Mathlib.Nat.{zero-add}
use distributed_message_brok.Bytes.{Bytes, Checksum}
use distributed_message_brok.Offsets.{OffsetStore, Key, Commit, encode_entry, insert}
use distributed_message_brok.Offsets.Recover.{
  Scan, scan, read_entry, torn, whole, RecoverIo, settle, open_store,
}
use distributed_message_brok.Offsets.Entries.{
  IsValid, read_entry-encode_entry, read_entry-take, length-encode_entry,
}

-- The log of a list of commits, and the map that they make.
unfoldable pub entries : Checksum → List Commit → Bytes
entries crc [] = []
entries crc (c ∷ cs) = encode_entry crc c ++ entries crc cs

unfoldable pub replay : List (Key × ℕ) → List Commit → List (Key × ℕ)
replay m [] = m
replay m (c ∷ cs) = replay (insert c.key c.next_offset m) cs

pub entries-append :
    (crc : Checksum) (cs ds : List Commit)
    → entries crc (cs ++ ds) ≡ entries crc cs ++ entries crc ds
unfolding entries
entries-append crc [] ds = refl
entries-append crc (c ∷ cs) ds =
    rw (entries-append crc cs ds)
      (sym (append_assoc (encode_entry crc c) (entries crc cs) (entries crc ds)))

pub replay-append :
    (m : List (Key × ℕ)) (cs ds : List Commit) → replay m (cs ++ ds) ≡ replay (replay m cs) ds
unfolding replay
replay-append m [] ds = refl
replay-append m (c ∷ cs) ds = replay-append (insert c.key c.next_offset m) cs ds

abbrev pub found : ℕ → List (Key × ℕ) → Bool → Scan
found n m t = record { valid_size = n; offsets = m; is_torn = t }

is_empty : Bytes → Bool
is_empty [] = true
is_empty (b ∷ bs) = false

-- One round over a whole entry.
scan-whole :
    (crc : Checksum) (fuel : ℕ) (bs : Bytes) (pos : ℕ) (m : List (Key × ℕ)) {n : ℕ} {k : Key}
    {v : ℕ}
    → read_entry crc bs ≡ ok (whole n k v)
    → scan crc (suc fuel) bs pos m ≡ scan crc fuel (drop n bs) (pos + n) (insert k v m)
unfolding scan
scan-whole crc fuel [] pos m h = unfold read_entry in cc
scan-whole crc fuel (b ∷ bs) pos m h = rw h

-- The end of the file, or a torn entry, ends the loop.
scan-stop :
    (crc : Checksum) (fuel : ℕ) (bs : Bytes) (pos : ℕ) (m : List (Key × ℕ))
    → length bs ≤ fuel
    → read_entry crc bs ≡ ok torn
    → scan crc fuel bs pos m ≡ ok (found pos m (not (is_empty bs)))
unfolding scan is_empty
scan-stop crc fuel [] pos m h e = refl
scan-stop crc zero (b ∷ bs) pos m h e = absurd (omega arith)
scan-stop crc (suc fuel) (b ∷ bs) pos m h e = rw e

scan-entries :
    (crc : Checksum) (cs : List Commit) (fuel : ℕ) (tail : Bytes) (pos : ℕ) (m : List (Key × ℕ))
    → All IsValid cs
    → read_entry crc tail ≡ ok torn
    → length (entries crc cs) + length tail ≤ fuel
    → scan crc fuel (entries crc cs ++ tail) pos m
      ≡ ok (found (pos + length (entries crc cs)) (replay m cs) (not (is_empty tail)))
unfolding entries replay
scan-entries crc [] fuel tail pos m v e h =
    scan-stop crc fuel tail pos m (omega arith) e
    ∙ ap (λ (n : ℕ). ok (found n m (not (is_empty tail)))) (omega arith)
scan-entries crc (c ∷ cs) zero tail pos m (v, vs) e h = absurd (
    omega
      (arith, length-append {0} (encode_entry crc c) (entries crc cs), length-encode_entry crc c))
scan-entries crc (c ∷ cs) (suc fuel) tail pos m (v, vs) e h =
    let enc = encode_entry crc c in
    let size = length-append enc (entries crc cs) in
    ap (λ (t : Bytes). scan crc (suc fuel) t pos m) (append_assoc enc (entries crc cs) tail)
    ∙ scan-whole crc fuel (enc ++ (entries crc cs ++ tail)) pos m
        (read_entry-encode_entry crc c v (entries crc cs ++ tail))
    ∙ ap (λ (t : Bytes). scan crc fuel t (pos + length enc) (insert c.key c.next_offset m))
        (drop-append enc (entries crc cs ++ tail))
    ∙ scan-entries crc cs fuel tail (pos + length enc) (insert c.key c.next_offset m) vs e
        (omega (arith, size, length-encode_entry crc c))
    ∙ ap (λ (n : ℕ). ok (found n (replay (insert c.key c.next_offset m) cs) (not (is_empty tail))))
        (omega (arith, size))

-- The store that is open on the log of `cs` and nothing else.
abbrev pub opened : Checksum → List Commit → OffsetStore
opened crc cs = record {
  file = entries crc cs;
  offsets = replay [] cs;
  size = length (entries crc cs);
  closed = false;
  write_failed = false;
}

abbrev pub io_ok : RecoverIo
io_ok = record { truncate = true; sync = true }

settle-scan :
    (file tail : Bytes) (m : List (Key × ℕ))
    → settle io_ok (file ++ tail) (found (length file) m (not (is_empty tail)))
      ≡ ok (record {
        file = file;
        offsets = m;
        size = length file;
        closed = false;
        write_failed = false;
      })
unfolding settle is_empty
settle-scan file [] m = rw (append-nil file)
settle-scan file (b ∷ bs) m = rw (take-append file (b ∷ bs))

-- Opening the log of `cs`, followed by an entry that is cut after `k` bytes (0 for none), gives the
-- map that the commits make, and a file of just their entries.
pub open_store-entries :
    (crc : Checksum) (cs : List Commit) (c : Commit) (k : ℕ)
    → All IsValid cs
    → IsValid c
    → k < length (encode_entry crc c)
    → open_store crc io_ok (entries crc cs ++ take k (encode_entry crc c)) ≡ ok (opened crc cs)
unfolding open_store
open_store-entries crc cs c k vs v h =
    let tail = take k (encode_entry crc c) in
    let scanned =
      scan-entries crc cs (length (entries crc cs ++ tail)) tail 0 [] vs
        (read_entry-take crc c v k h) (omega (arith, length-append {0} (entries crc cs) tail)) in
    rw (scanned, zero-add) (settle-scan (entries crc cs) tail (replay [] cs))
