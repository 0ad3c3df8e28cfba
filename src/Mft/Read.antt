-- ===== src/Mft/Read.antt =====
-- src/MftRecord.cpp: the little-endian reads, and the test for the record's signature.
pub mod Field
use just_give_my_disk.Common.{
  ℕ, zero, suc, ◌+◌, ◌-◌, ◌*◌, ◌%◌, ◌^◌, bit_or, bit_and, Bool, ◌&&◌, ◌||◌, Option, none, some,
  List, ◌∷◌, length, ltb, ◌==◌, if◌then◌else◌, Access, fault, got, ◌>>=◌, at,
}

-- `x << k` on `std::uint64_t`
abbrev pub shl64 : ℕ → ℕ → ℕ
shl64 x k = x * 2 ^ k % 2 ^ 64

-- The loop `value |= uint64_t(bytes[offset + i]) << (8 * i)`, with the rounds that are left.
unfoldable pub le_loop : List ℕ → ℕ → ℕ → ℕ → ℕ → Access ℕ
le_loop bytes offset zero i value = got value
le_loop bytes offset (suc rounds) i value = do
  byte ← at bytes (offset + i)
  le_loop bytes offset rounds (i + 1) (bit_or value (shl64 byte (8 * i)))

-- `read_le<T>`, for a type of `size` bytes.
unfoldable pub read_le : ℕ → List ℕ → ℕ → Access (Option ℕ)
read_le size bytes offset =
    if ltb (length bytes) offset || ltb (length bytes - offset) size
    then got none
    else do value ← le_loop bytes offset size 0 0; got (some (value % 2 ^ (8 * size)))

unfoldable pub base_file_ref : ℕ → ℕ
base_file_ref file_ref = bit_and file_ref 0x0000_FFFF_FFFF_FFFF

-- `std::memcmp(input.data(), "FILE", 4) == 0`
unfoldable pub has_signature : List ℕ → Access Bool
has_signature (a ∷ b ∷ c ∷ d ∷ rest) = got (a == b'F' && b == b'I' && c == b'L' && d == b'E')
has_signature _ = fault
