-- ===== src/Storage/Stored.antt =====
-- The records that Append makes of its input: their offsets and times, and that they fit the format.
use mathlib.Core.Path.{subst, sym}
use distributed_message_brok.Prelude.{
  ℕ, suc, ◌+◌, ◌*◌, ◌%◌, ◌^◌, ◌≤◌, ◌<◌, ◌≡◌, refl, ap, List, [], ◌∷◌, ◌++◌, true, arith, All,
  length, ◌==◌, ==_self, if◌then◌else◌,
}
use distributed_message_brok.Bytes.{lt_i64, sub_i64}
use distributed_message_brok.Model.{Record, StoredRecord}
use distributed_message_brok.Format.{
  max_timestamp, total_size, records_payload_size, record_payload_size,
}
use distributed_message_brok.Format.Fields.{FitsRecord}
use distributed_message_brok.Format.RoundTrip.{records_payload_size_ge}
use distributed_message_brok.Storage.Recover.{continuous}
use distributed_message_brok.Storage.Batches.{Batch, batch_records, batch_size, FitsLog}
use distributed_message_brok.Storage.Append.{stored_records}
use distributed_message_brok.Storage.Select.{Ascending}

-- The batch that Append encodes.
abbrev pub new_batch : ℕ → ℕ → Record → List Record → Batch
new_batch base now r rs = record {
  first = record {
    offset = base;
    timestamp = now;
    key = r.key;
    value = r.value;
    headers = r.headers;
  };
  rest = stored_records ((base + 1) % 2 ^ 64) now rs;
}

pub length-stored_records :
    (base now : ℕ) (rs : List Record) → length (stored_records base now rs) ≡ length rs
unfolding stored_records
length-stored_records base now [] = refl
length-stored_records base now (r ∷ rs) =
    ap suc (length-stored_records ((base + 1) % 2 ^ 64) now rs)

pub continuous-stored_records :
    (base now : ℕ) (rs : List Record) → continuous base (stored_records base now rs) ≡ true
unfolding stored_records continuous
continuous-stored_records base now [] = refl
continuous-stored_records base now (r ∷ rs) =
    rw (==_self base) (continuous-stored_records ((base + 1) % 2 ^ 64) now rs)

-- Consecutive offsets that stay below 2^64 rise, and end before the sum.
pub continuous-Ascending :
    (lo : ℕ) (rs : List StoredRecord)
    → continuous lo rs ≡ true
    → lo + length rs < 2 ^ 64
    → Ascending lo rs
unfolding continuous
continuous-Ascending lo [] c h = tt
continuous-Ascending lo (r ∷ rs) c h =
    let e : r.offset ≡ lo = ground arith in
    let next : (lo + 1) % 2 ^ 64 ≡ r.offset + 1 = omega arith in
    let c' : continuous ((lo + 1) % 2 ^ 64) rs ≡ true = ground arith in
    (omega arith, omega arith, continuous-Ascending (r.offset + 1) rs (rw next at c') (omega arith))

pub continuous-below :
    (lo : ℕ) (rs : List StoredRecord)
    → continuous lo rs ≡ true
    → lo + length rs < 2 ^ 64
    → All (λ r. r.offset < lo + length rs) rs
unfolding continuous
continuous-below lo rs c h = go lo rs (lo + length rs) c h refl
  where
    go :
        (lo' : ℕ) (rs' : List StoredRecord) (hi : ℕ)
        → continuous lo' rs' ≡ true
        → hi < 2 ^ 64
        → hi ≡ lo' + length rs'
        → All (λ r. r.offset < hi) rs'
    go lo' [] hi c' h' e = tt
    go lo' (r ∷ rs') hi c' h' e =
        let next : (lo' + 1) % 2 ^ 64 ≡ lo' + 1 = omega arith in
        let c'' : continuous ((lo' + 1) % 2 ^ 64) rs' ≡ true = ground arith in
        let o : r.offset ≡ lo' = ground arith in
        (omega arith, go (lo' + 1) rs' hi (rw next at c'') h' (omega arith))

pub continuous-append :
    (lo : ℕ) (xs ys : List StoredRecord)
    → lo + length xs < 2 ^ 64
    → continuous lo xs ≡ true
    → continuous (lo + length xs) ys ≡ true
    → continuous lo (xs ++ ys) ≡ true
unfolding continuous
continuous-append lo [] ys h c c' = let e : lo + 0 ≡ lo = omega arith in rw e at c'
continuous-append lo (x ∷ xs) ys h c c' =
    let next : (lo + 1) % 2 ^ 64 ≡ lo + 1 = omega arith in
    let sum : lo + suc (length xs) ≡ lo + 1 + length xs = omega arith in
    let here : (x.offset == lo) ≡ true = ground arith in
    let rest : continuous ((lo + 1) % 2 ^ 64) xs ≡ true = ground arith in
    let there : continuous (lo + 1) xs ≡ true = rw next at rest in
    rw (here, next) (continuous-append (lo + 1) xs ys (omega arith) there (rw sum at c'))

-- All the records have the time of the append.
max_timestamp-stored_records :
    (base now : ℕ) (rs : List Record) → max_timestamp now (stored_records base now rs) ≡ now
unfolding stored_records max_timestamp lt_i64
max_timestamp-stored_records base now [] = refl
max_timestamp-stored_records base now (r ∷ rs) =
    let same : (if lt_i64 now now then now else now) ≡ now = ground arith in
    rw (max_timestamp, same) (max_timestamp-stored_records ((base + 1) % 2 ^ 64) now rs)

max_timestamp-new_batch :
    (base now : ℕ) (r : Record) (rs : List Record)
    → now < 2 ^ 63
    → max_timestamp 0 (batch_records (new_batch base now r rs)) ≡ now
unfolding max_timestamp lt_i64
max_timestamp-new_batch base now r rs h =
    let same : (if lt_i64 0 now then now else 0) ≡ now = ground arith in
    rw (max_timestamp, same) (max_timestamp-stored_records ((base + 1) % 2 ^ 64) now rs)

-- Records of a size below 2^31 fit, at offsets that follow the base.
stored_records-fit :
    (base offset now : ℕ) (rs : List Record)
    → base ≤ offset
    → offset + length rs ≤ base + 2 ^ 32
    → offset + length rs < 2 ^ 64
    → now < 2 ^ 63
    → records_payload_size (stored_records offset now rs) < 2 ^ 31
    → All (FitsRecord base now) (stored_records offset now rs)
unfolding stored_records records_payload_size record_payload_size sub_i64
stored_records-fit base offset now [] lo near top time small = tt
stored_records-fit base offset now (r ∷ rs) lo near top time small =
    let next : (offset + 1) % 2 ^ 64 ≡ offset + 1 = omega arith in
    let rest_small : records_payload_size (stored_records ((offset + 1) % 2 ^ 64) now rs) < 2 ^ 31 =
      omega arith in
    let smaller : records_payload_size (stored_records (offset + 1) now rs) < 2 ^ 31 =
      rw next at rest_small in
    (
      record {
        above = lo;
        near = omega arith;
        offset_lt = omega arith;
        timestamp_lt = omega arith;
        delta_lt = omega arith;
        key_fits = omega arith;
        value_fits = omega arith;
      },
      rw next (
          stored_records-fit base (offset + 1) now rs (omega arith) (omega arith) (omega arith) time
            smaller),
    )

pub new_batch-FitsLog :
    (max_batch base now : ℕ) (r : Record) (rs : List Record)
    → max_batch < 2 ^ 31
    → now < 2 ^ 63
    → base + length (r ∷ rs) < 2 ^ 64
    → batch_size (new_batch base now r rs) ≤ max_batch
    → FitsLog max_batch (new_batch base now r rs)
unfolding total_size stored_records
new_batch-FitsLog max_batch base now r rs limit time room small =
    let b = new_batch base now r rs in
    let max = max_timestamp-new_batch base now r rs time in
    let count : 24 * length (batch_records b) ≤ records_payload_size (batch_records b) =
      records_payload_size_ge (batch_records b) in
    let n = length-stored_records ((base + 1) % 2 ^ 64) now rs in
    record {
      format = record {
        length_lt = omega arith;
        max_lt = omega (arith, max);
        base_lt = omega arith;
        records =
            subst (λ m. All (FitsRecord base m) (batch_records b)) (sym max)
              (stored_records-fit base base now (r ∷ rs) (omega arith) (omega arith) room time
                (omega arith));
      };
      small = small;
    }
