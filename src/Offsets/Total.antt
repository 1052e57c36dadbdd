-- ===== src/Offsets/Total.antt =====
-- Opening the offset log on any file: the fuel of the loop, and the slices.
use distributed_message_brok.Prelude.{
  ℕ, zero, suc, ◌+◌, ◌≤◌, ◌<◌, ◌≡◌, ◌≢◌, refl, List, [], ◌∷◌, arith, length, length-drop, drop,
  take, length-take, ok, err, panic, Result, ◌>>=◌, ◌>>◌, ensure, Bool, true, false, Bool-cases,
  inl, inr, le→leb, ◌==◌,
}
use distributed_message_brok.Bytes.{Bytes, Checksum, get_be}
use distributed_message_brok.Offsets.{OffsetError, corrupt_offset_log, Key, insert}
use distributed_message_brok.Offsets.Recover.{
  cut, read_name, decode_payload, read_entry, Entry, torn, whole, scan, RecoverIo, settle,
  open_store,
}

>>=-ne-panic {ℓ κ μ} :
    {E : Type κ} {A : Type ℓ} {B : Type μ} (m : Result E A) (f : A → Result E B)
    → m ≢ panic
    → ((a : A) → f a ≢ panic)
    → (m >>= f) ≢ panic
>>=-ne-panic (ok a) f hm hf = hf a
>>=-ne-panic (err e) f hm hf = λ h. cc
>>=-ne-panic panic f hm hf = absurd (hm refl)

ensure-ne-panic : (b : Bool) (e : OffsetError) → ensure b e ≢ panic
ensure-ne-panic true e h = cc
ensure-ne-panic false e h = cc

read_name-ne-panic : (limit : ℕ) (bs : Bytes) → read_name limit bs ≢ panic
unfolding read_name
read_name-ne-panic limit bs = unfold cut in ground arith

-- The fields behind the names are within the 20 bytes that are left.
fields-ne-panic :
    (rest : Bytes) (f : Bytes → Bytes → Key × ℕ)
    → (ensure (length rest == 20) corrupt_offset_log
        >> (cut 4 rest >>= λ p. (cut 8 p.1 >>= λ q. ok (f p.0 q.0))))
      ≢ panic
unfolding cut
fields-ne-panic rest f = elim (Bool-cases (length rest == 20)) [
  | inr other ↦ rw other (λ h. cc)
  | inl is_20 ↦
      rw
        (
          is_20,
          le→leb 4 (length rest) (ground arith),
          le→leb 8 (length (drop 4 rest)) (ground (arith, length-drop 4 rest)),
        )
        (λ h. cc)
]

decode_payload-ne-panic : (l : ℕ) (bs : Bytes) → decode_payload l bs ≢ panic
unfolding decode_payload
decode_payload-ne-panic l bs = >>=-ne-panic (read_name 255 bs) _ (read_name-ne-panic 255 bs) (λ p.
    >>=-ne-panic (read_name 255 p.1) _ (read_name-ne-panic 255 p.1) (λ q.
      >>=-ne-panic (ensure _ corrupt_offset_log) _ (ensure-ne-panic _ corrupt_offset_log) (λ done.
        fields-ne-panic q.1 (λ partition next.
          (record { group = p.0; topic = q.0; partition = get_be partition }, get_be next)))))

read_entry-ne-panic : (crc : Checksum) (bs : Bytes) → read_entry crc bs ≢ panic
unfolding read_entry cut
read_entry-ne-panic crc bs =
    let l = get_be (take 4 (drop 5 bs)) in
    let frame = take l (drop 9 bs) in
    ground
      (arith, length-drop 9 bs, length-take l (drop 9 bs), decode_payload-ne-panic l (drop 4 frame))

read_entry-whole-size :
    (crc : Checksum) (bs : Bytes) {n : ℕ} {k : Key} {v : ℕ}
    → read_entry crc bs ≡ ok (whole n k v)
    → 0 < n
unfolding read_entry
read_entry-whole-size crc bs h = ground arith

-- One round, given that the rounds over what is left do not panic.
scan-step :
    (crc : Checksum) (fuel b : ℕ) (bs : Bytes) (pos : ℕ) (m : List (Key × ℕ))
    → ((n pos' : ℕ) (m' : List (Key × ℕ)) → 0 < n → scan crc fuel (drop n (b ∷ bs)) pos' m' ≢ panic)
    → (r : Result OffsetError Entry) → read_entry crc (b ∷ bs) ≡ r
    → scan crc (suc fuel) (b ∷ bs) pos m ≢ panic
unfolding scan
scan-step crc fuel b bs pos m rest (ok torn) e = rw e (λ h. cc)
scan-step crc fuel b bs pos m rest (ok (whole n k v)) e =
    rw e (rest n (pos + n) (insert k v m) (read_entry-whole-size crc (b ∷ bs) e))
scan-step crc fuel b bs pos m rest (err x) e = rw e (λ h. cc)
scan-step crc fuel b bs pos m rest panic e = absurd (read_entry-ne-panic crc (b ∷ bs) e)

scan-ne-panic :
    (crc : Checksum) (fuel : ℕ) (bs : Bytes) (pos : ℕ) (m : List (Key × ℕ))
    → length bs ≤ fuel
    → scan crc fuel bs pos m ≢ panic
scan-ne-panic crc zero [] pos m h = unfold scan in λ e. cc
scan-ne-panic crc zero (b ∷ bs) pos m h = absurd (omega arith)
scan-ne-panic crc (suc fuel) [] pos m h = unfold scan in λ e. cc
scan-ne-panic crc (suc fuel) (b ∷ bs) pos m h =
    scan-step crc fuel b bs pos m
      (λ n pos' m' p.
        scan-ne-panic crc fuel (drop n (b ∷ bs)) pos' m' (omega (arith, length-drop n (b ∷ bs))))
      (read_entry crc (b ∷ bs)) refl

-- OpenStore ends on every file, whole, torn or corrupt, with a store or an error: its loop does not
-- run out of fuel and it does not panic.
pub open_store-ne-panic :
    (crc : Checksum) (io : RecoverIo) (file : Bytes) → open_store crc io file ≢ panic
unfolding open_store
open_store-ne-panic crc io file =
    >>=-ne-panic (scan crc (length file) file 0 []) _
      (scan-ne-panic crc (length file) file 0 [] (omega arith))
      (λ found. unfold settle in ground arith)
