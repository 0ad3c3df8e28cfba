-- ===== src/Utf/Valid.antt =====
-- What the transcoder returns is UTF-8: a strict decoder reads the code points back.
use mathlib.Core.Option
use just_give_my_disk.Common.{
  ℕ, zero, suc, ◌≤◌, ◌<◌, ◌≡◌, refl, ap, ◌∙◌, true, List, [], ◌∷◌, ◌++◌, inl, inr, Bool-cases, some,
  ◌==◌, ◌&&◌, arith, length, length-append, take, All, All-take, Returns, returned,
}
use just_give_my_disk.Common.Bytes.{IsByte}
use just_give_my_disk.Utf.{utf16le_to_utf8}
use just_give_my_disk.Utf.Spec.{
  IsText, IsScalar, units, scalars, text, utf8, decode_one, decode, drop_zeros, lone, combine,
  is_high, is_low,
}
use just_give_my_disk.Utf.Loop.{utf16le_to_utf8-eq-text, unit-lt}

decode_one-utf8 :
    (c : ℕ) (rest : List ℕ) → IsScalar c → decode_one (utf8 c ++ rest) ≡ some (c, rest)
unfolding decode_one utf8
decode_one-utf8 c rest h = ground arith

decode_step :
    (fuel : ℕ) (xs : List ℕ) {c : ℕ} {more : List ℕ}
    → decode_one xs ≡ some (c, more)
    → decode (suc fuel) xs ≡ Option.map (λ cs. c ∷ cs) (decode fuel more)
unfolding decode
decode_step fuel [] h = unfold decode_one in cc
decode_step fuel (x ∷ xs) h = rw (h, decode)

-- One round of the decoder on a code point and what follows it.
decode-utf8 :
    (fuel c : ℕ) (rest : List ℕ)
    → IsScalar c
    → decode (suc fuel) (utf8 c ++ rest) ≡ Option.map (λ cs. c ∷ cs) (decode fuel rest)
decode-utf8 fuel c rest h = decode_step fuel (utf8 c ++ rest) (decode_one-utf8 c rest h)

length-utf8_pos : (c : ℕ) → 0 < length (utf8 c)
unfolding utf8
length-utf8_pos c = ground arith

decode-text :
    (fuel : ℕ) (cs : List ℕ)
    → All IsScalar cs
    → length (text cs) ≤ fuel
    → decode fuel (text cs) ≡ some (drop_zeros cs)
unfolding text drop_zeros
decode-text fuel [] h hf = unfold decode in refl
decode-text zero (c ∷ cs) h hf = elim (Bool-cases (c == 0)) [
  | inl e ↦ rw e (decode-text zero cs h.1 (rw e at hf))
  | inr e ↦
      let long : length (utf8 c ++ text cs) ≤ 0 = rw e at hf in
      absurd (omega (arith, length-append (utf8 c) (text cs), length-utf8_pos c))
]
decode-text (suc fuel) (c ∷ cs) h hf = elim (Bool-cases (c == 0)) [
  | inl e ↦ rw e (decode-text (suc fuel) cs h.1 (rw e at hf))
  | inr e ↦
      let long : length (utf8 c ++ text cs) ≤ suc fuel = rw e at hf in
      rw e (
        decode-utf8 fuel c (text cs) h.0
        ∙ ap (Option.map (λ cs. c ∷ cs)) (
            decode-text fuel cs h.1
              (omega (arith, length-append (utf8 c) (text cs), length-utf8_pos c))))
]

units-lt : (bytes : List ℕ) → All IsByte bytes → All (λ u. u < 65536) (units bytes)
unfolding units
units-lt [] h = tt
units-lt (a ∷ []) h = tt
units-lt (a ∷ b ∷ bytes) h = (unit-lt a b h.0 h.1.0, units-lt bytes h.1.1)

lone-IsScalar : (u : ℕ) → u < 65536 → IsScalar (lone u)
lone-IsScalar u h = ground arith

combine-IsScalar :
    (u v : ℕ) → u < 65536 → v < 65536 → (is_high u && is_low v) ≡ true → IsScalar (combine u v)
combine-IsScalar u v hu hv e = inr (ground arith)

scalars-IsScalar : (us : List ℕ) → All (λ u. u < 65536) us → All IsScalar (scalars us)
unfolding scalars
scalars-IsScalar [] h = tt
scalars-IsScalar (u ∷ []) h = (lone-IsScalar u h.0, tt)
scalars-IsScalar (u ∷ v ∷ us) h = elim (Bool-cases (is_high u && is_low v)) [
  | inl e ↦ rw e (combine-IsScalar u v h.0 h.1.0 e, scalars-IsScalar us h.1.1)
  | inr e ↦ rw e (lone-IsScalar u h.0, scalars-IsScalar (v ∷ us) h.1)
]

drop_zeros-IsText : (cs : List ℕ) → All IsScalar cs → All IsText (drop_zeros cs)
unfolding drop_zeros
drop_zeros-IsText [] h = tt
drop_zeros-IsText (c ∷ cs) h = ground (arith, drop_zeros-IsText cs h.1)

-- In bounds, the transcoder returns a text that a strict decoder of UTF-8 accepts: it reads back the
-- scalar values of the input's units, without U+0000.
pub utf16le_to_utf8-decodes :
    (bytes : List ℕ) (byte_count : ℕ)
    → All IsByte bytes
    → byte_count ≤ length bytes
    → Returns
        (λ out.
          (cs : List ℕ) × (decode (length out) out ≡ some cs)
          × All IsText cs
          × (cs ≡ drop_zeros (scalars (units (take byte_count bytes)))))
        (utf16le_to_utf8 bytes byte_count)
utf16le_to_utf8-decodes bytes n hb hn =
    let cs = scalars (units (take n bytes)) in
    let scalar = scalars-IsScalar _ (units-lt (take n bytes) (All-take IsByte n bytes hb)) in
    rw (utf16le_to_utf8-eq-text bytes n hb hn) (
      returned
        (drop_zeros cs, decode-text _ cs scalar (omega arith), drop_zeros-IsText cs scalar, refl))
