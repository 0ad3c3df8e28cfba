-- ===== src/Utf/Tests.antt =====
-- The transcoder on concrete inputs: "A", an accented letter, a surrogate pair, a lone surrogate and U+0000.
use just_give_my_disk.Common.{
  ℕ, ◌≡◌, refl, some, List, [], ◌∷◌, arith, take, length, got, Returns, All,
}
use just_give_my_disk.Utf.{utf16le_to_utf8}
use just_give_my_disk.Utf.Spec.{text, utf16le, units, scalars, decode, drop_zeros, IsText}
use just_give_my_disk.Utf.Loop.{utf16le_to_utf8-eq-text}
use just_give_my_disk.Utf.RoundTrip.{utf16le_to_utf8-utf16le}
use just_give_my_disk.Utf.Valid.{utf16le_to_utf8-decodes}

abbrev mixed : List ℕ
mixed = 0x41 ∷ 0 ∷ 0xE9 ∷ 0 ∷ 0x3D ∷ 0xD8 ∷ 0 ∷ 0xDE ∷ 0 ∷ 0 ∷ 0 ∷ 0xDC ∷ 7 ∷ []

transcodes_mixed :
    utf16le_to_utf8 mixed 13
    ≡ got (0x41 ∷ 0xC3 ∷ 0xA9 ∷ 0xF0 ∷ 0x9F ∷ 0x98 ∷ 0x80 ∷ 0xEF ∷ 0xBF ∷ 0xBD ∷ [])
unfolding utf16le_to_utf8
transcodes_mixed = refl

utf16le_to_utf8-eq-text_example :
    utf16le_to_utf8 mixed 12 ≡ got (text (scalars (units (take 12 mixed))))
utf16le_to_utf8-eq-text_example = utf16le_to_utf8-eq-text mixed 12 (omega arith) (omega arith)

abbrev letters : List ℕ
letters = 0x41 ∷ 0x1F600 ∷ []

utf16le_to_utf8-utf16le_example :
    utf16le_to_utf8 (utf16le letters) (length (utf16le letters)) ≡ got (text letters)
utf16le_to_utf8-utf16le_example = utf16le_to_utf8-utf16le letters (omega arith)

utf16le_to_utf8-decodes_example :
    Returns
      (λ out.
        (cs : List ℕ) × (decode (length out) out ≡ some cs)
        × All IsText cs
        × (cs ≡ drop_zeros (scalars (units (take 13 mixed)))))
      (utf16le_to_utf8 mixed 13)
utf16le_to_utf8-decodes_example = utf16le_to_utf8-decodes mixed 13 (omega arith) (omega arith)
