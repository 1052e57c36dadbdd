-- ===== src/Bytes.antt =====
-- Byte strings, and encoding/binary's big-endian words (internal/storage/format.go and
-- internal/offsets/store.go use them for every field).
-- An integer of w bits is its bit pattern, a number below 2 ^ w.
mod Crc
mod Utf8
unfoldable pub use Crc.*
unfoldable pub use Utf8.*
use distributed_message_brok.Prelude.{
  ℕ, ◌+◌, ◌-◌, ◌*◌, ◌/◌, ◌%◌, ◌^◌, ◌<◌, ◌≡◌, refl, ◌∙◌, Bool, List, [], ◌∷◌, ◌++◌, arith, length,
  ltb, true, false, ◌&&◌, ◌==◌, ==_self, take, drop,
}

abbrev pub Bytes : Type 0
Bytes = List ℕ

-- binary.BigEndian.PutUint32 and PutUint64
unfoldable pub put_u32 : ℕ → Bytes
put_u32 n = (n / 2 ^ 24 % 256) ∷ (n / 2 ^ 16 % 256) ∷ (n / 2 ^ 8 % 256) ∷ (n % 256) ∷ []

unfoldable pub put_u64 : ℕ → Bytes
put_u64 n = put_u32 (n / 2 ^ 32) ++ put_u32 (n % 2 ^ 32)

-- binary.BigEndian.Uint32 and Uint64, after the bytes of `acc`
unfoldable pub get_uint : ℕ → Bytes → ℕ
get_uint acc [] = acc
get_uint acc (b ∷ bs) = get_uint (acc * 256 + b) bs

abbrev pub get_be : Bytes → ℕ
get_be bs = get_uint 0 bs

pub get_uint-append :
    (acc : ℕ) (xs ys : Bytes) → get_uint acc (xs ++ ys) ≡ get_uint (get_uint acc xs) ys
unfolding get_uint
get_uint-append acc [] ys = refl
get_uint-append acc (x ∷ xs) ys = get_uint-append (acc * 256 + x) xs ys

pub get_uint-put_u32 : (acc n : ℕ) → n < 2 ^ 32 → get_uint acc (put_u32 n) ≡ acc * 2 ^ 32 + n
unfolding get_uint put_u32
get_uint-put_u32 acc n h = omega arith

pub get_be-put_u32 : (n : ℕ) → n < 2 ^ 32 → get_be (put_u32 n) ≡ n
get_be-put_u32 n h = get_uint-put_u32 0 n h ∙ omega arith

pub get_be-put_u64 : (n : ℕ) → n < 2 ^ 64 → get_be (put_u64 n) ≡ n
unfolding put_u64
get_be-put_u64 n h =
    get_uint-append 0 (put_u32 (n / 2 ^ 32)) (put_u32 (n % 2 ^ 32))
    ∙ get_uint-put_u32 (get_be (put_u32 (n / 2 ^ 32))) (n % 2 ^ 32) (omega arith)
    ∙ omega (arith, get_be-put_u32 (n / 2 ^ 32) (omega arith))

pub length-put_u32 : (n : ℕ) → length (put_u32 n) ≡ 4
unfolding put_u32
length-put_u32 n = refl

pub length-put_u64 : (n : ℕ) → length (put_u64 n) ≡ 8
unfolding put_u64 put_u32
length-put_u64 n = refl

-- int64: `a < b` and `a - b` on bit patterns
unfoldable pub lt_i64 : ℕ → ℕ → Bool
lt_i64 a b = ltb ((a + 2 ^ 63) % 2 ^ 64) ((b + 2 ^ 63) % 2 ^ 64)

unfoldable pub sub_i64 : ℕ → ℕ → ℕ
sub_i64 a b = (a + 2 ^ 64 - b) % 2 ^ 64

-- Equality of byte strings, as Go's `==` on arrays and strings decides it.
unfoldable pub eq_bytes : Bytes → Bytes → Bool
eq_bytes [] [] = true
eq_bytes [] (y ∷ ys) = false
eq_bytes (x ∷ xs) [] = false
eq_bytes (x ∷ xs) (y ∷ ys) = x == y && eq_bytes xs ys

pub eq_bytes_refl : (xs : Bytes) → eq_bytes xs xs ≡ true
unfolding eq_bytes
eq_bytes_refl [] = refl
eq_bytes_refl (x ∷ xs) = rw (==_self x) (eq_bytes_refl xs)

pub eq_bytes_sound : (xs ys : Bytes) → eq_bytes xs ys ≡ true → xs ≡ ys
unfolding eq_bytes
eq_bytes_sound [] [] h = refl
eq_bytes_sound [] (y ∷ ys) h = cc
eq_bytes_sound (x ∷ xs) [] h = cc
eq_bytes_sound (x ∷ xs) (y ∷ ys) h = ground (arith, eq_bytes_sound xs ys)

-- Within int64 patterns a difference of the same minuend gives the subtrahend back.
pub sub_i64-sub_i64 : (max t : ℕ) → max < 2 ^ 64 → t < 2 ^ 64 → sub_i64 max (sub_i64 max t) ≡ t
unfolding sub_i64
sub_i64-sub_i64 max t hm ht = omega arith

pub sub_i64-lt : (a b : ℕ) → sub_i64 a b < 2 ^ 64
unfolding sub_i64
sub_i64-lt a b = omega arith

-- A field at the front of the bytes.
pub take-put_u32 : (n : ℕ) (ys : Bytes) → take 4 (put_u32 n ++ ys) ≡ put_u32 n
unfolding put_u32
take-put_u32 n ys = refl

pub drop-put_u32 : (n : ℕ) (ys : Bytes) → drop 4 (put_u32 n ++ ys) ≡ ys
unfolding put_u32
drop-put_u32 n ys = refl

pub take-put_u64 : (n : ℕ) (ys : Bytes) → take 8 (put_u64 n ++ ys) ≡ put_u64 n
unfolding put_u64 put_u32
take-put_u64 n ys = refl
