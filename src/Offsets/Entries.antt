-- ===== src/Offsets/Entries.antt =====
-- recover on the entries that Commit wrote.
use distributed_message_brok.Prelude.{
  ℕ, suc, ◌+◌, ◌-◌, ◌%◌, ◌^◌, ◌≤◌, ◌<◌, ◌≡◌, refl, sym, ◌∙◌, ap, ◌∷◌, ◌++◌, true, false, arith,
  length, length-append, length-take, take, drop, take-append, drop-append, le→leb, le→ltb, lt→ltb,
  ==_self, ok, ◌==◌,
}
use native.Mathlib.Decide.{dec_lt}
use distributed_message_brok.Bytes.{
  Bytes, Checksum, get_be, put_u32, put_u64, eq_bytes, get_uint, get_be-put_u32, get_be-put_u64,
  length-put_u32, length-put_u64, take-put_u32, drop-put_u32, take-put_u64, valid_string,
}
use distributed_message_brok.Offsets.{Key, Commit, payload, encode_entry, valid_name, offset_magic}
use distributed_message_brok.Offsets.Recover.{
  cut, read_name, decode_payload, read_entry, torn, whole,
}

-- What Commit accepts, with a partition and an offset in range.
pub record IsValid (c : Commit) : Type 0 where
  pub group_valid : valid_name 255 c.key.group ≡ true
  pub topic_valid : valid_name 255 c.key.topic ≡ true
  pub partition_lt : c.key.partition < 2 ^ 32
  pub offset_lt : c.next_offset < 2 ^ 64

pub valid_name-length :
    (limit : ℕ) (s : Bytes) → valid_name limit s ≡ true → (0 < length s) × (length s ≤ limit)
unfolding valid_name
valid_name-length limit s h = ground arith

valid_name-string : (limit : ℕ) (s : Bytes) → valid_name limit s ≡ true → valid_string s ≡ true
unfolding valid_name
valid_name-string limit s h = ground arith

read_name-put :
    (s ys : Bytes)
    → valid_name 255 s ≡ true
    → read_name 255 (put_u32 (length s) ++ (s ++ ys)) ≡ ok (s, ys)
unfolding read_name cut
read_name-put s ys h =
    let (lo, hi) = valid_name-length 255 s h in
    let total : length (put_u32 (length s) ++ (s ++ ys)) ≡ 4 + (length s + length ys) =
      length-append (put_u32 (length s)) (s ++ ys)
      ∙ omega (arith, length-put_u32 (length s), length-append {0} s ys) in
    rw (
      le→leb 4 (length (put_u32 (length s) ++ (s ++ ys))) (omega (arith, total)),
      take-put_u32 (length s) (s ++ ys),
      drop-put_u32 (length s) (s ++ ys),
      get_be-put_u32 (length s) (omega arith),
      le→ltb 255 (length s) hi,
      nonzero (length s) lo,
      le→leb (length s) (length (s ++ ys)) (omega (arith, length-append {0} s ys)),
      take-append s ys,
      drop-append s ys,
      valid_name-string 255 s h,
    )
  where
    nonzero : (n : ℕ) → 0 < n → (n == 0) ≡ false
    nonzero n p = ground arith

length-payload : (c : Commit) → length (payload c) ≡ 28 + length c.key.group + length c.key.topic
unfolding payload
length-payload c = simp (length-append, length-put_u32, length-put_u64) (omega arith)

pub length-encode_entry :
    (crc : Checksum) (c : Commit)
    → length (encode_entry crc c) ≡ 41 + length c.key.group + length c.key.topic
unfolding encode_entry
length-encode_entry crc c = simp (length-append, length-put_u32, length-payload) (omega arith)

decode_payload-payload :
    (c : Commit)
    → IsValid c
    → decode_payload (32 + length c.key.group + length c.key.topic) (payload c)
      ≡ ok (c.key, c.next_offset)
unfolding decode_payload payload cut
decode_payload-payload c v =
    let rest : Bytes = put_u32 c.key.partition ++ (put_u64 c.next_offset ++ put_u64 c.now) in
    let len : length rest ≡ 20 = simp (length-append, length-put_u32, length-put_u64) refl in
    let tail : length (put_u64 c.next_offset ++ put_u64 c.now) ≡ 16 =
      simp (length-append, length-put_u64) refl in
    let lg = valid_name-length 255 c.key.group v.group_valid in
    let lt = valid_name-length 255 c.key.topic v.topic_valid in
    let e : (32 + length c.key.group + length c.key.topic) % 2 ^ 32
        ≡ 32 + length c.key.group + length c.key.topic =
      omega (arith, lg, lt) in
    rw (
      read_name-put c.key.group _ v.group_valid,
      read_name-put c.key.topic rest v.topic_valid,
      e,
      ==_self (32 + length c.key.group + length c.key.topic),
      len,
      take-put_u32 c.key.partition (put_u64 c.next_offset ++ put_u64 c.now),
      drop-put_u32 c.key.partition (put_u64 c.next_offset ++ put_u64 c.now),
      tail,
      take-put_u64 c.next_offset (put_u64 c.now),
      get_be-put_u32 c.key.partition v.partition_lt,
      get_be-put_u64 c.next_offset v.offset_lt,
    )

-- The prefix of an entry, and what follows it in the log.
abbrev front : ℕ → Bytes → Bytes
front l tail = offset_magic ++ (1 ∷ (put_u32 l ++ tail))

nine : (j : ℕ) → 9 + j ≡ suc (suc (suc (suc (suc (suc (suc (suc (suc j))))))))
nine j = omega arith

module _ (l : ℕ) (tail : Bytes) where
  front_length_field : take 4 (drop 5 (front l tail)) ≡ put_u32 l
  unfolding put_u32
  front_length_field = refl

  drop-front : drop 9 (front l tail) ≡ tail
  unfolding put_u32
  drop-front = refl

  length-front : length (front l tail) ≡ 9 + length tail
  unfolding put_u32
  length-front = omega arith

  front-append : (more : Bytes) → front l tail ++ more ≡ front l (tail ++ more)
  unfolding put_u32
  front-append more = refl

  take-front : (j : ℕ) → take (9 + j) (front l tail) ≡ front l (take j tail)
  unfolding put_u32
  take-front j = simp nine (refl)

read_entry-short : (crc : Checksum) (bs : Bytes) → length bs < 9 → read_entry crc bs ≡ ok torn
unfolding read_entry
read_entry-short crc bs h = rw (lt→ltb (length bs) 9 h)

module _ (crc : Checksum) (l : ℕ) (tail : Bytes) (lo : 32 ≤ l) (hi : l ≤ 1024) where
  read_entry-torn : length tail < l → read_entry crc (front l tail) ≡ ok torn
  unfolding read_entry eq_bytes get_uint
  read_entry-torn h = rw (
    le→ltb (length (front l tail)) 9 (omega (arith, length-front l tail)),
    front_length_field l tail,
    get_be-put_u32 l (omega arith),
    le→leb 32 l lo,
    le→leb l 1024 hi,
    lt→ltb (length (front l tail)) (9 + l) (omega (arith, length-front l tail)),
  )

  read_entry-whole :
      {k : Key} {v : ℕ}
      → l ≤ length tail
      → get_be (take 4 (take l tail)) ≡ crc.ieee (drop 4 (take l tail))
      → decode_payload l (drop 4 (take l tail)) ≡ ok (k, v)
      → read_entry crc (front l tail) ≡ ok (whole (9 + l) k v)
  unfolding read_entry eq_bytes get_uint cut
  read_entry-whole h sum_eq body = rw (
    le→ltb (length (front l tail)) 9 (omega (arith, length-front l tail)),
    front_length_field l tail,
    get_be-put_u32 l (omega arith),
    le→leb 32 l lo,
    le→leb l 1024 hi,
    le→ltb (length (front l tail)) (9 + l) (omega (arith, length-front l tail)),
    drop-front l tail,
    le→leb 4 (length (take l tail)) (omega (arith, length-take l tail)),
    sum_eq,
    ==_self (crc.ieee (drop 4 (take l tail))),
    body,
  )

module _ (crc : Checksum) (c : Commit) (v : IsValid c) where
  entry_length_eq :
      (32 + length c.key.group + length c.key.topic) % 2 ^ 32
      ≡ 32 + length c.key.group + length c.key.topic
  entry_length_eq = omega (
    arith,
    valid_name-length 255 c.key.group v.group_valid,
    valid_name-length 255 c.key.topic v.topic_valid,
  )

  abbrev entry_length : ℕ
  entry_length = 32 + length c.key.group + length c.key.topic

  entry_length_le : entry_length ≤ 1024
  entry_length_le = omega (
    arith,
    valid_name-length 255 c.key.group v.group_valid,
    valid_name-length 255 c.key.topic v.topic_valid,
  )

  abbrev entry_tail : Bytes
  entry_tail = put_u32 (crc.ieee (payload c)) ++ payload c

  length-entry_tail : length entry_tail ≡ entry_length
  length-entry_tail = simp (length-append, length-put_u32, length-payload) (omega arith)

  encode_entry-front : encode_entry crc c ≡ front entry_length entry_tail
  unfolding encode_entry
  encode_entry-front = rw entry_length_eq

  -- A whole entry is read back, whatever follows it.
  pub read_entry-encode_entry :
      (more : Bytes)
      → read_entry crc (encode_entry crc c ++ more)
        ≡ ok (whole (length (encode_entry crc c)) c.key c.next_offset)
  read_entry-encode_entry more =
      let whole_tail : take entry_length (entry_tail ++ more) ≡ entry_tail =
        rw (← length-entry_tail) (take-append entry_tail more) in
      ap (read_entry crc) (
        ap (λ (t : Bytes). t ++ more) encode_entry-front
        ∙ front-append entry_length entry_tail more)
      ∙ read_entry-whole crc entry_length (entry_tail ++ more) (omega arith) entry_length_le
          (omega (arith, length-append {0} entry_tail more, length-entry_tail))
          (rw (whole_tail, take-put_u32, drop-put_u32) (get_be-put_u32 _ (crc.ieee_lt (payload c))))
          (rw (whole_tail, drop-put_u32) (decode_payload-payload c v))
      ∙ ap (λ (n : ℕ). ok (whole n c.key c.next_offset)) (omega (arith, length-encode_entry crc c))

  -- An entry that the file ends inside of is torn, wherever it is cut.
  pub read_entry-take :
      (k : ℕ)
      → k < length (encode_entry crc c)
      → read_entry crc (take k (encode_entry crc c)) ≡ ok torn
  read_entry-take k h = elim (dec_lt k 9) [
    | yes p ↦
        read_entry-short crc (take k (encode_entry crc c))
          (omega (arith, length-take k (encode_entry crc c)))
    | no p ↦
        let e : 9 + (k - 9) ≡ k = omega arith in
        ap (read_entry crc) (
          ap (λ (t : ℕ). take t (encode_entry crc c)) (sym e)
          ∙ ap (take (9 + (k - 9))) encode_entry-front
          ∙ take-front entry_length entry_tail (k - 9))
        ∙ read_entry-torn crc entry_length (take (k - 9) entry_tail) (omega arith) entry_length_le (
            omega
              (arith, length-take (k - 9) entry_tail, length-encode_entry crc c, length-entry_tail))
  ]
