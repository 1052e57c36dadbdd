-- ===== src/Storage/Select.antt =====
-- What a Read selects from the records of the log: a description that does not follow the
-- code; and the code's loop over records beside it.
use distributed_message_brok.Prelude.{
  ℕ, ◌+◌, ◌%◌, ◌^◌, ◌≤◌, ◌<◌, ◌≡◌, refl, sym, ◌∙◌, List, [], ◌∷◌, ◌++◌, append_assoc, append-nil,
  true, arith, All, ltb, lt→ltb, le→ltb, Bool-cases, inl, inr, if◌then◌else◌,
}
use native.Mathlib.Nat.{zero-add}
use distributed_message_brok.Model.{StoredRecord}
use distributed_message_brok.Storage.Recover.{not_empty}
use distributed_message_brok.Storage.Read.{
  Progress, Step, stop, more, record_size, add_record, take_records,
}

-- The longest prefix whose sizes, with what is used already, stay within the limit.
pub within_limit : ℕ → ℕ → List StoredRecord → List StoredRecord
within_limit max used [] = []
within_limit max used (r ∷ rs) =
    let rest = within_limit max (used + record_size r) rs in
    if ltb max (used + record_size r) then [] else r ∷ rest

-- The records from an offset on.
pub from_offset : ℕ → List StoredRecord → List StoredRecord
from_offset offset [] = []
from_offset offset (r ∷ rs) = if ltb r.offset offset then from_offset offset rs else r ∷ rs

-- The first record whatever its size, and as many of the next as fit the limit with it.
pub first_and_more : ℕ → List StoredRecord → List StoredRecord
first_and_more max [] = []
first_and_more max (r ∷ rs) = r ∷ within_limit max (record_size r) rs

pub select : ℕ → ℕ → List StoredRecord → List StoredRecord
select max offset rs = first_and_more max (from_offset offset rs)

-- The offsets rise, from `lo` on, and leave room for one more uint64.
abbrev pub Ascending : ℕ → List StoredRecord → Type 0
Ascending lo [] = Unit
Ascending lo (r ∷ rs) = (lo ≤ r.offset) × (r.offset + 1 < 2 ^ 64) × Ascending (r.offset + 1) rs

-- What the loops return in the end.
abbrev pub finish : Step → List StoredRecord
finish (stop rs) = rs
finish (more p) = p.result

-- The loop goes on behind a first part, unless it stopped in it.
abbrev pub then_take : ℕ → List StoredRecord → Step → Step
then_take max ys (stop rs) = stop rs
then_take max ys (more p) = take_records max ys p

pub take_records-append :
    (max : ℕ) (xs ys : List StoredRecord) (p : Progress)
    → take_records max (xs ++ ys) p ≡ then_take max ys (take_records max xs p)
unfolding take_records
take_records-append max [] ys p = refl
take_records-append max (r ∷ xs) ys p =
    ground
      (arith, take_records-append max xs ys (if ltb r.offset p.current then p else add_record r p))

-- Records in front of the wanted offset are passed over.
pub take_records-before :
    (max : ℕ) (xs : List StoredRecord) (p : Progress)
    → All (λ r. r.offset < p.current) xs
    → take_records max xs p ≡ more p
unfolding take_records
take_records-before max [] p h = refl
take_records-before max (r ∷ xs) p (h, hs) =
    rw (lt→ltb r.offset p.current h) (take_records-before max xs p hs)

not_empty-snoc : (xs : List StoredRecord) (r : StoredRecord) → not_empty (xs ++ r ∷ []) ≡ true
unfolding not_empty
not_empty-snoc [] r = refl
not_empty-snoc (x ∷ xs) r = refl

take_records-within :
    (max : ℕ) (rs : List StoredRecord) (p : Progress)
    → not_empty p.result ≡ true
    → Ascending p.current rs
    → finish (take_records max rs p) ≡ p.result ++ within_limit max p.bytes rs
unfolding take_records within_limit add_record
take_records-within max [] p ne asc = sym (append-nil p.result)
take_records-within max (r ∷ rs) p ne (lo, top, asc) =
    let e : (r.offset + 1) % 2 ^ 64 ≡ r.offset + 1 = omega arith in
    let rest =
      take_records-within max rs (add_record r p) (not_empty-snoc p.result r) (rw e asc)
      ∙ append_assoc p.result (r ∷ []) (within_limit max (p.bytes + record_size r) rs) in
    elim (Bool-cases (ltb max (p.bytes + record_size r))) [
      | inl over ↦ rw (le→ltb r.offset p.current lo, ne, over) (sym (append-nil p.result))
      | inr fits ↦ rw (le→ltb r.offset p.current lo, ne, fits) rest
    ]

-- From the wanted offset, with nothing taken yet, the loop over records with rising offsets returns
-- the selection.
pub take_records-select :
    (max offset lo : ℕ) (rs : List StoredRecord)
    → Ascending lo rs
    → finish (take_records max rs (record { result = []; bytes = 0; current = offset }))
      ≡ select max offset rs
unfolding take_records select from_offset first_and_more not_empty add_record
take_records-select max offset lo [] asc = refl
take_records-select max offset lo (r ∷ rs) (low, top, asc) =
    let p : Progress = record { result = []; bytes = 0; current = offset } in
    let e : (r.offset + 1) % 2 ^ 64 ≡ r.offset + 1 = omega arith in
    elim (Bool-cases (ltb r.offset offset)) [
      | inl before ↦ rw before (take_records-select max offset (r.offset + 1) rs asc)
      | inr found ↦ rw found (
          take_records-within max rs (add_record r p) (not_empty-snoc [] r) (rw e asc)
          ∙ rw zero-add)
    ]

-- From behind all records, nothing is selected.
pub select-behind :
    (max offset : ℕ) (rs : List StoredRecord)
    → All (λ r. r.offset < offset) rs
    → select max offset rs ≡ []
unfolding select from_offset first_and_more
select-behind max offset [] h = refl
select-behind max offset (r ∷ rs) (h, hs) =
    rw (lt→ltb r.offset offset h) (select-behind max offset rs hs)

-- Records in front of the wanted offset do not matter.
pub select-append :
    (max offset : ℕ) (xs ys : List StoredRecord)
    → All (λ r. r.offset < offset) xs
    → select max offset (xs ++ ys) ≡ select max offset ys
unfolding select from_offset
select-append max offset [] ys h = refl
select-append max offset (x ∷ xs) ys (h, hs) =
    rw (lt→ltb x.offset offset h) (select-append max offset xs ys hs)
