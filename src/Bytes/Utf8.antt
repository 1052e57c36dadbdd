-- ===== src/Bytes/Utf8.antt =====
-- unicode/utf8's ValidString on the bytes of a string.
use distributed_message_brok.Prelude.{
  ℕ, ◌-◌, ◌≡◌, refl, List, [], ◌∷◌, Bool, true, false, ◌&&◌, Option, none, some, leb, ltb, ◌==◌,
  if◌then◌else◌,
}

abbrev within : ℕ → ℕ → ℕ → Bool
within lo hi b = leb lo b && leb b hi

-- What a lead byte announces: how many continuation bytes, and the range of the first of them.
-- `none` is no lead byte.
lead : ℕ → Option (ℕ × ℕ × ℕ)
lead b =
    if ltb b 0x80
    then some (0, 0x80, 0xBF)
    else if within 0xC2 0xDF b
    then some (1, 0x80, 0xBF)
    else if b == 0xE0
    then some (2, 0xA0, 0xBF)
    else if b == 0xED
    then some (2, 0x80, 0x9F)
    else if within 0xE1 0xEF b
    then some (2, 0x80, 0xBF)
    else if b == 0xF0
    then some (3, 0x90, 0xBF)
    else if within 0xF1 0xF3 b
    then some (3, 0x80, 0xBF)
    else if b == 0xF4
    then some (3, 0x80, 0x8F)
    else none

-- The state after one byte, in a state of `due` continuation bytes and the range of the next.
next : ℕ × ℕ × ℕ → ℕ → Option (ℕ × ℕ × ℕ)
unfolding lead
next (due, lo, hi) b =
    if due == 0 then lead b else if within lo hi b then some (due - 1, 0x80, 0xBF) else none

valid_from : Option (ℕ × ℕ × ℕ) → List ℕ → Bool
unfolding next
valid_from none bs = false
valid_from (some s) [] = s.0 == 0
valid_from (some s) (b ∷ bs) = valid_from (next s b) bs

unfoldable pub valid_string : List ℕ → Bool
unfolding valid_from
valid_string bs = valid_from (some (0, 0x80, 0xBF)) bs

valid_string_euro : valid_string (0x61 ∷ 0xE2 ∷ 0x82 ∷ 0xAC ∷ []) ≡ true
unfolding valid_string
valid_string_euro = refl

-- A surrogate half and an overlong form are no UTF-8.
valid_string_surrogate : valid_string (0xED ∷ 0xA0 ∷ 0x80 ∷ []) ≡ false
unfolding valid_string
valid_string_surrogate = refl

valid_string_overlong : valid_string (0xC0 ∷ 0x80 ∷ []) ≡ false
unfolding valid_string
valid_string_overlong = refl
