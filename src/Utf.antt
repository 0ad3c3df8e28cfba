-- ===== src/Utf.antt =====
-- src/Utf.cpp: the transcoder from UTF-16LE bytes to UTF-8.
-- A `std::string` is the list of its bytes, and `data` the list of the bytes from the pointer on.
pub mod Spec
mod Encode
mod Loop
pub mod RoundTrip
pub mod Valid
mod Tests
use just_give_my_disk.Common.{
  ℕ, zero, suc, ◌+◌, ◌-◌, ◌*◌, ◌/◌, ◌%◌, ◌^◌, bit_and, bit_or, ◌&&◌, List, [], ◌∷◌, ◌++◌, ltb, leb,
  ◌==◌, if◌then◌else◌, Access, stuck, got, ◌>>=◌, at,
}

-- `static_cast<char>(x)`, as an unsigned byte.
abbrev pub to_char : ℕ → ℕ
to_char x = x % 256

pub append_utf8 : List ℕ → ℕ → List ℕ
append_utf8 out cp =
    if leb cp 0x7F
    then out ++ (to_char cp ∷ [])
    else if leb cp 0x7FF
    then out ++ (to_char (bit_or 0xC0 (cp / 2 ^ 6)) ∷ to_char (bit_or 0x80 (bit_and cp 0x3F)) ∷ [])
    else if leb cp 0xFFFF
    then out
      ++ (to_char (bit_or 0xE0 (cp / 2 ^ 12))
          ∷ to_char (bit_or 0x80 (bit_and (cp / 2 ^ 6) 0x3F))
          ∷ to_char (bit_or 0x80 (bit_and cp 0x3F))
          ∷ [])
    else out
      ++ (to_char (bit_or 0xF0 (cp / 2 ^ 18))
          ∷ to_char (bit_or 0x80 (bit_and (cp / 2 ^ 12) 0x3F))
          ∷ to_char (bit_or 0x80 (bit_and (cp / 2 ^ 6) 0x3F))
          ∷ to_char (bit_or 0x80 (bit_and cp 0x3F))
          ∷ [])

-- `read_u16le(data + i)`
pub read_u16le : List ℕ → ℕ → Access ℕ
read_u16le data_ i = do
  low ← at data_ i
  high ← at data_ (i + 1)
  got (bit_or low (high * 2 ^ 8) % 2 ^ 16)

-- The surrogate handling of the loop's body: the code point, and the loop's `i` after it.
pub code_point : List ℕ → ℕ → ℕ → ℕ → Access (ℕ × ℕ)
code_point data_ byte_count i cp =
    if leb 0xD800 cp && leb cp 0xDBFF
    then if ltb (i + 3) byte_count
      then (do
        low ← read_u16le data_ (i + 2)
        if leb 0xDC00 low && leb low 0xDFFF
            then got (0x10000 + bit_or ((cp - 0xD800) * 2 ^ 10) (low - 0xDC00), i + 2)
            else got (0xFFFD, i))
      else got (0xFFFD, i)
    else if leb 0xDC00 cp && leb cp 0xDFFF
    then got (0xFFFD, i)
    else got (cp, i)

-- The `for` loop, on fuel.
pub utf_loop : ℕ → List ℕ → ℕ → ℕ → List ℕ → Access (List ℕ)
utf_loop zero data_ byte_count i out = stuck
utf_loop (suc fuel) data_ byte_count i out =
    let round = (do
      unit ← read_u16le data_ i
      (cp, j) ← code_point data_ byte_count i unit
      utf_loop fuel data_ byte_count (j + 2) (if cp == 0 then out else append_utf8 out cp)) in
    if ltb (i + 1) byte_count then round else got out

-- Each round takes two bytes at least, so `byte_count + 1` rounds are enough.
unfoldable pub utf16le_to_utf8 : List ℕ → ℕ → Access (List ℕ)
unfolding utf_loop code_point read_u16le append_utf8
utf16le_to_utf8 data_ byte_count = utf_loop (byte_count + 1) data_ byte_count 0 []
