-- ===== src/Utf/Encode.antt =====
-- `append_utf8` appends the UTF-8 form of a code point, and `read_u16le` reads a unit.
use just_give_my_disk.Common.{
  ℕ, suc, ◌+◌, ◌*◌, ◌/◌, ◌%◌, ◌^◌, ◌<◌, ◌≡◌, ap, bit_and, bit_or, List, ◌∷◌, ◌++◌, arith, drop, got,
}
use just_give_my_disk.Common.Bits.{bit_and_mask, bit_or_high, bit_or_disjoint}
use native.Mathlib.Numerals.{add-one}
use just_give_my_disk.Common.Bytes.{drop-eq-cons}
use just_give_my_disk.Utf.{to_char, append_utf8, read_u16le}
use just_give_my_disk.Utf.Spec.{utf8}

continuation : (c : ℕ) → to_char (bit_or 0x80 (bit_and c 0x3F)) ≡ 128 + c % 64
continuation c = rw (bit_and_mask 6 c) (omega (arith, bit_or_high 7 (c % 64) 1 (omega arith)))

lead_two : (x : ℕ) → x < 32 → to_char (bit_or 0xC0 x) ≡ 192 + x
lead_two x h = omega (arith, bit_or_high 5 x 6 h)

lead_three : (x : ℕ) → x < 16 → to_char (bit_or 0xE0 x) ≡ 224 + x
lead_three x h = omega (arith, bit_or_high 4 x 14 h)

lead_four : (x : ℕ) → x < 8 → to_char (bit_or 0xF0 x) ≡ 240 + x
lead_four x h = omega (arith, bit_or_high 3 x 30 h)

pub append_utf8_lem : (out : List ℕ) (c : ℕ) → c < 0x110000 → append_utf8 out c ≡ out ++ utf8 c
unfolding append_utf8 utf8
append_utf8_lem out c h = ground (
  arith,
  continuation c,
  continuation (c / 2 ^ 6),
  continuation (c / 2 ^ 12),
  lead_two (c / 2 ^ 6),
  lead_three (c / 2 ^ 12),
  lead_four (c / 2 ^ 18),
)

-- In bounds, a unit is read, and it is its bytes' value.
pub read_u16le_lem :
    (bytes : List ℕ) (i : ℕ) {low high : ℕ} {rest : List ℕ}
    → drop i bytes ≡ low ∷ high ∷ rest
    → low < 256
    → high < 256
    → read_u16le bytes i ≡ got (low + 256 * high)
unfolding read_u16le
read_u16le_lem bytes i {low} {high} e hl hh =
    let (first, e') = drop-eq-cons bytes i e in
    let (second, e'') = drop-eq-cons bytes (suc i) e' in
    rw (first, add-one, second) (ap got (omega (arith, bit_or_disjoint 8 low high hl)))
