-- ===== src/Utf/Spec.antt =====
-- An independent description of UTF-16LE and UTF-8, in plain arithmetic.
use mathlib.Core.Option
use just_give_my_disk.Common.{
  ℕ, zero, suc, ◌+◌, ◌-◌, ◌*◌, ◌/◌, ◌%◌, ◌≤◌, ◌<◌, ◌⊎◌, ◌&&◌, ◌||◌, Bool, Option, none, some, List,
  [], ◌∷◌, ◌++◌, ltb, leb, ◌==◌, if◌then◌else◌,
}

-- A Unicode scalar value.
abbrev pub IsScalar : ℕ → Type 0
IsScalar c = (c < 0xD800) ⊎ ((0xE000 ≤ c) × (c < 0x110000))

abbrev pub IsText : ℕ → Type 0
IsText c = IsScalar c × (0 < c)

-- The 16-bit units; an odd byte at the end is dropped.
unfoldable pub units : List ℕ → List ℕ
units (low ∷ high ∷ rest) = (low + 256 * high) ∷ units rest
units _ = []

abbrev pub is_high : ℕ → Bool
is_high u = leb 0xD800 u && ltb u 0xDC00

abbrev pub is_low : ℕ → Bool
is_low u = leb 0xDC00 u && ltb u 0xE000

abbrev pub combine : ℕ → ℕ → ℕ
combine u v = 0x10000 + (u - 0xD800) * 1024 + (v - 0xDC00)

-- A unit outside a pair: a surrogate becomes U+FFFD.
abbrev pub lone : ℕ → ℕ
lone u = if leb 0xD800 u && ltb u 0xE000 then 0xFFFD else u

unfoldable pub scalars : List ℕ → List ℕ
scalars [] = []
scalars (u ∷ []) = lone u ∷ []
scalars (u ∷ v ∷ rest) =
    if is_high u && is_low v then combine u v ∷ scalars rest else lone u ∷ scalars (v ∷ rest)

unfoldable pub utf8 : ℕ → List ℕ
utf8 c =
    if ltb c 0x80
    then c ∷ []
    else if ltb c 0x800
    then (192 + c / 64) ∷ (128 + c % 64) ∷ []
    else if ltb c 0x10000
    then (224 + c / 4096) ∷ (128 + c / 64 % 64) ∷ (128 + c % 64) ∷ []
    else (240 + c / 262144) ∷ (128 + c / 4096 % 64) ∷ (128 + c / 64 % 64) ∷ (128 + c % 64) ∷ []

-- The UTF-8 text of the code points, U+0000 left out.
unfoldable pub text : List ℕ → List ℕ
text [] = []
text (c ∷ cs) = (if c == 0 then [] else utf8 c) ++ text cs

-- UTF-16LE of scalar values.
unfoldable pub utf16le : List ℕ → List ℕ
utf16le [] = []
utf16le (c ∷ cs) =
    if ltb c 0x10000
    then c % 256 ∷ c / 256 ∷ utf16le cs
    else (0xD800 + (c - 0x10000) / 1024) % 256
      ∷ (0xD800 + (c - 0x10000) / 1024) / 256
      ∷ (0xDC00 + (c - 0x10000) % 1024) % 256
      ∷ (0xDC00 + (c - 0x10000) % 1024) / 256
      ∷ utf16le cs

-- A strict decoder of UTF-8, which refuses overlong forms, surrogates and numbers past U+10FFFF.
abbrev is_continuation : ℕ → Bool
is_continuation b = leb 128 b && ltb b 192

decode_two : ℕ → List ℕ → Option (ℕ × List ℕ)
decode_two a (b ∷ rest) =
    if leb 194 a && is_continuation b then some ((a - 192) * 64 + (b - 128), rest) else none
decode_two a [] = none

decode_three : ℕ → List ℕ → Option (ℕ × List ℕ)
decode_three a (b ∷ c ∷ rest) =
    let cp = (a - 224) * 4096 + (b - 128) * 64 + (c - 128) in
    if is_continuation b && is_continuation c && leb 0x800 cp && (ltb cp 0xD800 || leb 0xE000 cp)
    then some (cp, rest)
    else none
decode_three a _ = none

decode_four : ℕ → List ℕ → Option (ℕ × List ℕ)
decode_four a (b ∷ c ∷ d ∷ rest) =
    let cp = (a - 240) * 262144 + (b - 128) * 4096 + (c - 128) * 64 + (d - 128) in
    if is_continuation b
      && is_continuation c
      && is_continuation d
      && leb 0x10000 cp
      && ltb cp 0x110000
    then some (cp, rest)
    else none
decode_four a _ = none

unfoldable pub decode_one : List ℕ → Option (ℕ × List ℕ)
unfolding decode_two decode_three decode_four
decode_one [] = none
decode_one (a ∷ rest) =
    if ltb a 128
    then some (a, rest)
    else if ltb a 224
    then decode_two a rest
    else if ltb a 240
    then decode_three a rest
    else if ltb a 248
    then decode_four a rest
    else none

-- All of a text, on fuel; its length is enough.
unfoldable pub decode : ℕ → List ℕ → Option (List ℕ)
decode fuel [] = some []
decode zero (a ∷ rest) = none
decode (suc fuel) (a ∷ rest) = elim (decode_one (a ∷ rest)) [
  | none ↦ none
  | some (c, more) ↦ Option.map (λ cs. c ∷ cs) (decode fuel more)
]

-- The code points without U+0000.
unfoldable pub drop_zeros : List ℕ → List ℕ
drop_zeros [] = []
drop_zeros (c ∷ cs) = if c == 0 then drop_zeros cs else c ∷ drop_zeros cs
