-- ===== src/File.antt =====
-- Files as the stores use them (os.File): the bytes on disk, and what a call can come to. The
-- outcome of each call is an argument of the operation that makes it.
use native.Mathlib.Decide.{dec_lt}
use distributed_message_brok.Prelude.{
  ℕ, zero, suc, ◌+◌, ◌≤◌, ◌<◌, ◌≡◌, ◌⊎◌, inl, inr, refl, Bool, [], ◌∷◌, ◌++◌, true, false, length,
  take, drop, ◌==◌, append-nil, length-take, ap, arith,
}
use distributed_message_brok.Bytes.{Bytes}

-- WriteAt: all is written; or fewer bytes than asked, with no error; or an error, after which some
-- of the bytes are in the file.
pub data Write : Type 0 where
  complete : Write
  short failed : ℕ → Write

-- The bytes that reach the file.
unfoldable pub written : Write → Bytes → Bytes
written complete bs = bs
written (short n) bs = take n bs
written (failed n) bs = take n bs

-- Whether the caller sees that all is written: no error, and n == len(data).
unfoldable pub is_complete : Write → Bytes → Bool
is_complete complete bs = true
is_complete (short n) bs = length (take n bs) == length bs
is_complete (failed n) bs = false

unfoldable pub write_at : Bytes → ℕ → Bytes → Bytes
write_at file pos bs = take pos file ++ (bs ++ drop (pos + length bs) file)

take_all : (n : ℕ) (bs : Bytes) → length bs ≤ n → take n bs ≡ bs
take_all zero [] h = refl
take_all zero (b ∷ bs) h = absurd (omega arith)
take_all (suc n) [] h = refl
take_all (suc n) (b ∷ bs) h = ap (λ (t : Bytes). b ∷ t) (take_all n bs (omega arith))

drop_all : (n : ℕ) (bs : Bytes) → length bs ≤ n → drop n bs ≡ []
drop_all zero [] h = refl
drop_all zero (b ∷ bs) h = absurd (omega arith)
drop_all (suc n) [] h = refl
drop_all (suc n) (b ∷ bs) h = drop_all n bs (omega arith)

-- Writing at the end of a file appends.
pub write_at_end : (file bs : Bytes) → write_at file (length file) bs ≡ file ++ bs
unfolding write_at
write_at_end file bs = rw (
  drop_all (length file + length bs) file (omega arith),
  take_all (length file) file (omega arith),
  append-nil bs,
)

-- Either all the bytes are in the file, or a proper prefix, and then the caller sees it.
pub written_cases :
    (w : Write) (bs : Bytes)
    → (written w bs ≡ bs)
      ⊎ ((k : ℕ) × (k < length bs) × (written w bs ≡ take k bs) × (is_complete w bs ≡ false))
unfolding written is_complete
written_cases complete bs = inl refl
written_cases (short n) bs = elim (dec_lt n (length bs)) [
  | yes p ↦ inr (n, p, refl, ground (arith, length-take n bs))
  | no p ↦ inl (take_all n bs (omega arith))
]
written_cases (failed n) bs = elim (dec_lt n (length bs)) [
  | yes p ↦ inr (n, p, refl, refl)
  | no p ↦ inl (take_all n bs (omega arith))
]
