-- ===== src/Utf/RoundTrip.antt =====
-- The transcoder inverts UTF-16LE encoding.
use just_give_my_disk.Common.{
  ℕ, ◌+◌, ◌-◌, ◌*◌, ◌/◌, ◌%◌, ◌≤◌, ◌<◌, ◌≡◌, refl, ap, ◌∙◌, List, [], ◌∷◌, inl, inr, Bool-cases,
  ltb, arith, length, take-length, All, got, ltb→lt,
}
use just_give_my_disk.Common.Bytes.{IsByte}
use just_give_my_disk.Utf.{utf16le_to_utf8}
use just_give_my_disk.Utf.Spec.{IsText, IsScalar, units, scalars, text, utf16le}
use just_give_my_disk.Utf.Loop.{utf16le_to_utf8-eq-text}

utf16le-IsByte : (cs : List ℕ) → All IsText cs → All IsByte (utf16le cs)
unfolding utf16le
utf16le-IsByte [] h = tt
utf16le-IsByte (c ∷ cs) h = ground (arith, utf16le-IsByte cs h.1)

-- A scalar below U+10000 as one unit, whatever follows.
scalars_one : (c : ℕ) (us : List ℕ) → IsScalar c → c < 0x10000 → scalars (c ∷ us) ≡ c ∷ scalars us
unfolding scalars
scalars_one c [] h lt = ground arith
scalars_one c (v ∷ us) h lt = ground arith

-- A scalar from U+10000 on as two units.
scalars_two :
    (c : ℕ) (us : List ℕ)
    → IsScalar c
    → 0x10000 ≤ c
    → scalars (
        ((0xD800 + (c - 0x10000) / 1024) % 256 + 256 * ((0xD800 + (c - 0x10000) / 1024) / 256))
        ∷ ((0xDC00 + (c - 0x10000) % 1024) % 256 + 256 * ((0xDC00 + (c - 0x10000) % 1024) / 256))
        ∷ us)
      ≡ c ∷ scalars us
unfolding scalars
scalars_two c us h le = ground arith

scalars-utf16le : (cs : List ℕ) → All IsText cs → scalars (units (utf16le cs)) ≡ cs
unfolding utf16le units
scalars-utf16le [] h = unfold scalars in refl
scalars-utf16le (c ∷ cs) h = elim (Bool-cases (ltb c 0x10000)) [
  | inl e ↦ rw e (
      ap (λ (t : ℕ). scalars (t ∷ units (utf16le cs))) (small c)
      ∙ scalars_one c (units (utf16le cs)) h.0.0 (ltb→lt c 0x10000 e)
      ∙ ap (λ (t : List ℕ). c ∷ t) (scalars-utf16le cs h.1))
  | inr e ↦ rw e (
      scalars_two c (units (utf16le cs)) h.0.0 (ground arith)
      ∙ ap (λ (t : List ℕ). c ∷ t) (scalars-utf16le cs h.1))
]
  where
    small : (c : ℕ) → c % 256 + 256 * (c / 256) ≡ c
    small c = omega arith

-- The UTF-16LE form of scalar values without U+0000 is transcoded to their UTF-8 form.
pub utf16le_to_utf8-utf16le :
    (cs : List ℕ)
    → All IsText cs
    → utf16le_to_utf8 (utf16le cs) (length (utf16le cs)) ≡ got (text cs)
utf16le_to_utf8-utf16le cs h =
    utf16le_to_utf8-eq-text (utf16le cs) (length (utf16le cs)) (utf16le-IsByte cs h) (omega arith)
    ∙ ap (λ (t : List ℕ). got (text (scalars (units t)))) (take-length (utf16le cs))
    ∙ ap (λ (t : List ℕ). got (text t)) (scalars-utf16le cs h)
