-- ===== src/Container/Bytes.antt =====
-- Reads from a Buffer at an offset that may be negative, as Node makes them: out of range they throw
-- a RangeError. And crc32 of scripts/lib/zip-crc.ts.
mod Tests
use Prim.Native.Nat.{bit_xor}
use cdx_file_format_spec.Prelude.{
  ℕ, zero, suc, ◌+◌, ◌-◌, ◌*◌, ◌/◌, ◌%◌, Bool, true, false, ◌||◌, List, [], ◌∷◌, length, get_or,
  take, drop, ltb, leb, ◌==◌, if◌then◌else◌, Result, ok, err, ◌>>=◌,
}
use cdx_file_format_spec.Merkle.ContentHash.{Bytes}

-- An offset. `negsuc n` is -(n + 1).
pub data ℤ : Type 0 where
  pos : ℕ → ℤ
  negsuc : ℕ → ℤ

abbrev pub pos_part : ℤ → ℕ
pos_part (pos n) = n
pos_part (negsuc n) = 0

abbrev pub neg_part : ℤ → ℕ
neg_part (pos n) = 0
neg_part (negsuc n) = suc n

-- a - b
abbrev pub sub_ℕ : ℕ → ℕ → ℤ
sub_ℕ a b = if leb b a then pos (a - b) else negsuc (b - a - 1)

infixl 65 ◌+ℤ◌
unfoldable pub ◌+ℤ◌ : ℤ → ℤ → ℤ
a +ℤ b = sub_ℕ (pos_part a + pos_part b) (neg_part a + neg_part b)

-- offset + k > length
abbrev pub past_end : ℤ → ℕ → Bytes → Bool
past_end off k bytes = ltb (length bytes + neg_part off) (pos_part off + k)

pub data RangeError : Type 0 where
  out_of_range : RangeError

abbrev pub byte : Bytes → ℕ → ℕ
byte bytes i = get_or bytes i 0

abbrev pub u16_at : Bytes → ℕ → ℕ
u16_at bytes i = byte bytes i + 256 * byte bytes (i + 1)

abbrev pub u32_at : Bytes → ℕ → ℕ
u32_at bytes i = u16_at bytes i + 65536 * u16_at bytes (i + 2)

abbrev pub u64_at : Bytes → ℕ → ℕ
u64_at bytes i = u32_at bytes i + 4294967296 * u32_at bytes (i + 4)

-- bytes.readUInt16LE(i), bytes.readUInt32LE(i), bytes.readBigUInt64LE(i)
unfoldable pub read_u16 : Bytes → ℕ → Result RangeError ℕ
read_u16 bytes i = if leb (i + 2) (length bytes) then ok (u16_at bytes i) else err out_of_range

unfoldable pub read_u32 : Bytes → ℕ → Result RangeError ℕ
read_u32 bytes i = if leb (i + 4) (length bytes) then ok (u32_at bytes i) else err out_of_range

unfoldable pub read_u64 : Bytes → ℕ → Result RangeError ℕ
read_u64 bytes i = if leb (i + 8) (length bytes) then ok (u64_at bytes i) else err out_of_range

-- bytes.subarray(from, from + size)
abbrev pub subarray : Bytes → ℕ → ℕ → Bytes
subarray bytes from size = take size (drop from bytes)

-- Eight rounds of the polynomial 0xEDB88320.
unfoldable pub crc_rounds : ℕ → ℕ → ℕ
crc_rounds zero c = c
crc_rounds (suc k) c = crc_rounds k (if c % 2 == 1 then bit_xor 0xedb88320 (c / 2) else c / 2)

-- CRC_TABLE[n]
unfoldable pub crc_table : ℕ → ℕ
unfolding crc_rounds
crc_table n = crc_rounds 8 n

unfoldable pub crc_loop : ℕ → Bytes → ℕ
crc_loop crc [] = crc
crc_loop crc (b ∷ bs) = crc_loop (bit_xor (crc_table (bit_xor crc b % 256)) (crc / 256)) bs

unfoldable pub crc32 : Bytes → ℕ
unfolding crc_loop crc_table
crc32 bytes = bit_xor (crc_loop 0xffffffff bytes) 0xffffffff
