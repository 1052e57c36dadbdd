-- ===== src/Bytes/Crc.antt =====
-- hash/crc32's ChecksumIEEE, the checksum of batches and of offset entries.
use Prim.Native.Nat.{bit_xor}
use distributed_message_brok.Prelude.{
  ℕ, zero, suc, ◌/◌, ◌%◌, ◌^◌, ◌<◌, ◌≡◌, refl, List, [], ◌∷◌, arith, ◌==◌, if◌then◌else◌,
}

-- The development asks of the checksum only that it is a uint32, so its theorems hold for every
-- such function; the runs use `crc32`.
pub record Checksum : Type 0 where
  pub ieee : List ℕ → ℕ
  pub ieee_lt : (bs : List ℕ) → ieee bs < 2 ^ 32

-- k rounds of the reflected polynomial division.
crc_bits : ℕ → ℕ → ℕ
crc_bits zero c = c
crc_bits (suc k) c = crc_bits k (if c % 2 == 0 then c / 2 else bit_xor (c / 2) 0xEDB88320)

crc_bytes : ℕ → List ℕ → ℕ
unfolding crc_bits
crc_bytes c [] = c
crc_bytes c (b ∷ bs) = crc_bytes (crc_bits 8 (bit_xor c b)) bs

unfoldable pub checksum_ieee : List ℕ → ℕ
unfolding crc_bytes
checksum_ieee bs = bit_xor (crc_bytes 0xFFFFFFFF bs) 0xFFFFFFFF % 2 ^ 32

pub checksum_ieee-lt : (bs : List ℕ) → checksum_ieee bs < 2 ^ 32
unfolding checksum_ieee
checksum_ieee-lt bs = omega arith

abbrev pub crc32 : Checksum
crc32 = record { ieee = checksum_ieee; ieee_lt = checksum_ieee-lt }

-- The check value of CRC-32: the checksum of "123456789".
checksum_ieee_check :
    checksum_ieee (0x31 ∷ 0x32 ∷ 0x33 ∷ 0x34 ∷ 0x35 ∷ 0x36 ∷ 0x37 ∷ 0x38 ∷ 0x39 ∷ []) ≡ 0xCBF43926
unfolding checksum_ieee
checksum_ieee_check = refl
