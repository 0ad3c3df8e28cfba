-- ===== src/Tui/Json/Field.antt =====
-- A string that was written is read back.
use just_give_my_disk.Common.{
  ℕ, zero, suc, ◌≡◌, refl, sym, ap, false, some, List, [], ◌∷◌, ◌++◌, append_assoc, append-nil,
  replicate, ◌==◌, ◌||◌, if◌then◌else◌, arith,
}
use just_give_my_disk.Tui.Json.{
  strip_prefix, find_after, marker_of, skip_spaces, string_loop, json_string_field,
}

-- The string's characters, with an escape before each quotation mark and backslash.
abbrev pub escape : List ℕ → List ℕ
escape [] = []
escape (c ∷ text) =
    let rest = escape text in if c == b'"' || c == b'\\' then b'\\' ∷ c ∷ rest else c ∷ rest

string_loop-escape :
    (result value after : List ℕ)
    → string_loop false result (escape value ++ b'"' ∷ after) ≡ some (result ++ value)
unfolding string_loop
string_loop-escape result [] after = ap some (sym (append-nil result))
string_loop-escape result (c ∷ value) after =
    ground
      (arith, string_loop-escape (result ++ c ∷ []) value after, append_assoc result (c ∷ []) value)

skip_spaces-replicate :
    (n : ℕ) (text : List ℕ) → skip_spaces (replicate n b' ' ++ b'"' ∷ text) ≡ b'"' ∷ text
unfolding skip_spaces
skip_spaces-replicate zero text = refl
skip_spaces-replicate (suc n) text = skip_spaces-replicate n text

-- If the key's first occurrence is followed by a colon, spaces and a string in which quotation marks and
-- backslashes are escaped, then the field is the string without the escapes, whatever stands behind it.
pub json_string_field-escape :
    (object key value after : List ℕ) (spaces : ℕ)
    → find_after (marker_of key) object
      ≡ some (replicate spaces b' ' ++ b'"' ∷ (escape value ++ b'"' ∷ after))
    → json_string_field object key ≡ some value
unfolding json_string_field strip_prefix
json_string_field-escape object key value after spaces h =
    rw (h, skip_spaces-replicate spaces (escape value ++ b'"' ∷ after))
      (string_loop-escape [] value after)
