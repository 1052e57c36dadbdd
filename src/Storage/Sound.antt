-- ===== src/Storage/Sound.antt =====
-- Append and ApplyRetention, whatever they come to, on a store that is consistent or has failed.
use distributed_message_brok.Prelude.{
  ℕ, ◌+◌, ◌^◌, ◌<◌, ◌≡◌, ◌≢◌, ◌⊎◌, inl, inr, refl, arith, List, [], ◌∷◌, true, ◌||◌, length, Result,
  ok, err, panic,
}
use distributed_message_brok.Bytes.{Bytes, Checksum}
use distributed_message_brok.Model.{Record, StoredRecord}
use distributed_message_brok.Storage.{Store, StoreError}
use distributed_message_brok.Storage.Append.{
  AppendIo, roll, flush_policy, append_active, append_encoded, append,
}
use distributed_message_brok.Storage.Retention.{RetentionIo, apply_retention}
use distributed_message_brok.Storage.Assign.{append-cons, append-failed, batch_bytes}
use distributed_message_brok.Storage.Grow.{Fresh, Logs}
use distributed_message_brok.Storage.Keep.{append-Logs}
use distributed_message_brok.Storage.Trim.{apply_retention-Kept}

-- A store that refuses all, or a consistent one.
abbrev pub Sound : Checksum → Store → Type 0
Sound crc s = (s.write_failed ≡ true) ⊎ ((recs : List StoredRecord) × Logs crc s recs)

flush_policy-ne-panic : (io : AppendIo) (p : ℕ × ℕ) (s : Store) → (flush_policy io p s).1 ≢ panic
unfolding flush_policy
flush_policy-ne-panic io p s h = ground arith

append_active-ne-panic :
    (io : AppendIo) (n : ℕ) (bs : Bytes) (s : Store) → (append_active io n bs s).1 ≢ panic
unfolding append_active
append_active-ne-panic io n bs s h = grind (arith, flush_policy-ne-panic)

append_encoded-ne-panic :
    (io : AppendIo) (n : ℕ) (bs : Bytes) (s : Store) → (append_encoded io n bs s).1 ≢ panic
unfolding append_encoded
append_encoded-ne-panic io n bs s h =
    let active = append_active-ne-panic io n bs (roll io (length bs) s).0 in ground (arith, active)

append-ne-panic :
    (crc : Checksum) (io : AppendIo) (rs : List Record) (s : Store) → (append crc io rs s).1 ≢ panic
append-ne-panic crc io [] s h = unfold append in cc
append-ne-panic crc io (r ∷ rs) s h =
    let e = append-cons crc io r rs s in
    let encoded = append_encoded-ne-panic io (length (r ∷ rs)) (batch_bytes crc io r rs s) s in
    ground (arith, e, encoded)

append-refused :
    (crc : Checksum) (io : AppendIo) (rs : List Record) (s : Store)
    → s.write_failed ≡ true
    → (append crc io rs s).0 ≡ s
append-refused crc io [] s h = unfold append in refl
append-refused crc io (r ∷ rs) s h = let e = append-cons crc io r rs s in ground (arith, e)

pub append-Sound :
    (crc : Checksum) (io : AppendIo) (rs : List Record) (s : Store)
    → s.max_batch_bytes < 2 ^ 31
    → io.now < 2 ^ 63
    → s.log_end_offset + length rs < 2 ^ 64
    → Fresh io.new_files
    → Sound crc s
    → Sound crc (append crc io rs s).0
append-Sound crc io rs s limit time room fresh (inl failed) =
    inl (rw (append-refused crc io rs s failed) failed)
append-Sound crc io rs s limit time room fresh (inr (recs, l)) =
    by_result (append crc io rs s).1 refl
  where
    by_result :
        (r : Result StoreError (ℕ × ℕ))
        → (append crc io rs s).1 ≡ r
        → Sound crc (append crc io rs s).0
    by_result panic e = absurd (append-ne-panic crc io rs s e)
    by_result (err x) e = elim (append-failed crc io rs s x e) [
      | inl same ↦ rw same (inr (recs, l))
      | inr failed ↦ inl failed
    ]
    by_result (ok q) e = inr (_, append-Logs crc io rs s recs q l limit time room fresh e)

pub apply_retention-Sound :
    (crc : Checksum) (io : RetentionIo) (now max_age limit : ℕ) (s : Store)
    → Sound crc s
    → Sound crc (apply_retention io now max_age limit s).0
unfolding apply_retention
apply_retention-Sound crc io now max_age limit s (inl failed) =
    let off : (s.closed || s.write_failed) ≡ true = ground arith in inl (rw off failed)
apply_retention-Sound crc io now max_age limit s (inr (recs, l)) =
    let k = apply_retention-Kept crc io now max_age limit s recs l in inr (k.kept, k.logs)
