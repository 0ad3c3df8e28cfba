-- ===== src/Utf/Loop.antt =====
-- The loop of `utf16le_to_utf8` against the description of Utf/Spec.
use native.Mathlib.Numerals.{add-two}
use just_give_my_disk.Common.{
  ℕ, zero, suc, ◌+◌, ◌-◌, ◌*◌, ◌≤◌, ◌<◌, ◌≡◌, sym, ap, ◌∙◌, true, List, [], ◌∷◌, ◌++◌, ◌&&◌,
  if◌then◌else◌, ◌==◌, arith, length, take, drop, length-take, take-append-drop, All-take, All,
  append_assoc, append-nil, lt→ltb, Bool-cases, inl, inr, got,
}
use just_give_my_disk.Common.Bytes.{IsByte, drop-eq-cons}
use just_give_my_disk.Common.Bits.{bit_or_high}
use just_give_my_disk.Utf.{append_utf8, read_u16le, code_point, utf_loop, utf16le_to_utf8}
use just_give_my_disk.Utf.Spec.{units, scalars, is_high, is_low, combine, lone, text, utf8}
use just_give_my_disk.Utf.Encode.{append_utf8_lem, read_u16le_lem}

-- What lies `k` elements behind a position.
drop_two {ℓ} :
    {A : Type ℓ} (xs : List A) (i : ℕ) {a b : A} {r : List A}
    → drop i xs ≡ a ∷ b ∷ r
    → drop (i + 2) xs ≡ r
drop_two xs i e = rw add-two (drop-eq-cons xs (suc i) (drop-eq-cons xs i e).1).1

module _ (bytes : List ℕ) (n i : ℕ) where
  -- A unit with a unit behind it.
  code_point_pair :
      (u : ℕ) {a b c d : ℕ} {rest : List ℕ}
      → drop i bytes ≡ a ∷ b ∷ c ∷ d ∷ rest
      → i + 3 < n
      → u < 65536
      → c < 256
      → d < 256
      → code_point bytes n i u ≡ (
          if is_high u && is_low (c + 256 * d)
          then got (combine u (c + 256 * d), i + 2)
          else got (lone u, i))
  unfolding code_point
  code_point_pair u {a} {b} {c} {d} e lt hu hc hd = ground (
    arith,
    read_u16le_lem bytes (i + 2) (drop_two bytes i e) hc hd,
    bit_or_high 10 (c + 256 * d - 0xDC00) (u - 0xD800),
  )

  -- A unit with less than a unit behind it.
  code_point_last : (u : ℕ) → n ≤ i + 3 → code_point bytes n i u ≡ got (lone u, i)
  unfolding code_point
  code_point_last u h = ground arith

-- One round's output.
out_step :
    (out : List ℕ) (cp : ℕ)
    → cp < 0x110000
    → (if cp == 0 then out else append_utf8 out cp) ≡ out ++ (if cp == 0 then [] else utf8 cp)
out_step out cp h = elim (Bool-cases (cp == 0)) [
  | inl e ↦ rw e (sym (append-nil out))
  | inr e ↦ rw e (append_utf8_lem out cp h)
]

round_lem :
    (fuel : ℕ) (bytes : List ℕ) (n i : ℕ) (out : List ℕ) {u cp j : ℕ}
    → i + 1 < n
    → read_u16le bytes i ≡ got u
    → code_point bytes n i u ≡ got (cp, j)
    → utf_loop (suc fuel) bytes n i out
      ≡ utf_loop fuel bytes n (j + 2) (if cp == 0 then out else append_utf8 out cp)
unfolding utf_loop
round_lem fuel bytes n i out lt r c = rw (lt→ltb (i + 1) n lt, r, c)

end_lem :
    (fuel : ℕ) (bytes : List ℕ) (n i : ℕ) (out : List ℕ)
    → n ≤ i + 1
    → utf_loop (suc fuel) bytes n i out ≡ got out
unfolding utf_loop
end_lem fuel bytes n i out h = ground arith

-- The text of a code point and of those behind it, as the loop builds it up.
text-cons :
    (out : List ℕ) (cp : ℕ) (cs : List ℕ)
    → cp < 0x110000
    → (if cp == 0 then out else append_utf8 out cp) ++ text cs ≡ out ++ text (cp ∷ cs)
unfolding text
text-cons out cp cs h =
    rw (out_step out cp h) (append_assoc out (if cp == 0 then [] else utf8 cp) (text cs))

pub unit-lt : (a b : ℕ) → a < 256 → b < 256 → a + 256 * b < 65536
unit-lt a b h k = omega arith

pub lone-lt : (u : ℕ) → u < 65536 → lone u < 0x110000
lone-lt u h = ground arith

pub combine-lt :
    (u v : ℕ) → u < 65536 → v < 65536 → (is_high u && is_low v) ≡ true → combine u v < 0x110000
combine-lt u v h k e = ground arith

utf_loop_lem :
    (fuel : ℕ) (rest bytes : List ℕ) (n i : ℕ) (out post : List ℕ)
    → drop i bytes ≡ rest ++ post
    → n ≡ i + length rest
    → All IsByte rest
    → length rest < fuel
    → utf_loop fuel bytes n i out ≡ got (out ++ text (scalars (units rest)))
unfolding units scalars
utf_loop_lem zero rest bytes n i out post e en hb hf = absurd (omega arith)
utf_loop_lem (suc fuel) [] bytes n i out post e en hb hf =
    end_lem fuel bytes n i out (omega arith) ∙ unfold text in ap got (sym (append-nil out))
utf_loop_lem (suc fuel) (a ∷ []) bytes n i out post e en hb hf =
    end_lem fuel bytes n i out (omega arith) ∙ unfold text in ap got (sym (append-nil out))
utf_loop_lem (suc fuel) (a ∷ b ∷ []) bytes n i out post e en hb hf =
    round_lem fuel bytes n i out (omega arith) (read_u16le_lem bytes i e hb.0 hb.1.0)
      (code_point_last bytes n i (a + 256 * b) (omega arith))
    ∙ utf_loop_lem fuel [] bytes n (i + 2) _ post (drop_two bytes i e) (omega arith) tt
        (omega arith)
    ∙ ap got (text-cons out (lone (a + 256 * b)) [] (lone-lt _ (unit-lt a b hb.0 hb.1.0)))
utf_loop_lem (suc fuel) (a ∷ b ∷ c ∷ []) bytes n i out post e en hb hf =
    round_lem fuel bytes n i out (omega arith) (read_u16le_lem bytes i e hb.0 hb.1.0)
      (code_point_last bytes n i (a + 256 * b) (omega arith))
    ∙ utf_loop_lem fuel (c ∷ []) bytes n (i + 2) _ post (drop_two bytes i e) (omega arith) hb.1.1
        (omega arith)
    ∙ ap got (text-cons out (lone (a + 256 * b)) [] (lone-lt _ (unit-lt a b hb.0 hb.1.0)))
utf_loop_lem (suc fuel) (a ∷ b ∷ c ∷ d ∷ rest) bytes n i out post e en hb hf =
    let u = a + 256 * b in
    let v = c + 256 * d in
    let hu = unit-lt a b hb.0 hb.1.0 in
    let hv = unit-lt c d hb.1.1.0 hb.1.1.1.0 in
    let read = read_u16le_lem bytes i e hb.0 hb.1.0 in
    let pair = code_point_pair bytes n i u e (omega arith) hu hb.1.1.0 hb.1.1.1.0 in
    elim (Bool-cases (is_high u && is_low v)) [
      | inl t ↦ rw t (
          round_lem fuel bytes n i out (omega arith) read (rw t at pair)
          ∙ utf_loop_lem fuel rest bytes n (i + 2 + 2) _ post
              (drop_two bytes (i + 2) (drop_two bytes i e)) (omega arith) hb.1.1.1.1 (omega arith)
          ∙ ap got (text-cons out (combine u v) (scalars (units rest)) (combine-lt u v hu hv t)))
      | inr f ↦ rw f (
          round_lem fuel bytes n i out (omega arith) read (rw f at pair)
          ∙ utf_loop_lem fuel (c ∷ d ∷ rest) bytes n (i + 2) _ post (drop_two bytes i e)
              (omega arith) hb.1.1 (omega arith)
          ∙ ap got (text-cons out (lone u) (scalars (v ∷ units rest)) (lone-lt u hu)))
    ]

-- On a buffer of bytes that has `byte_count` of them, the transcoder returns the UTF-8 text of the
-- scalar values of the first `byte_count` bytes' units: a pair of surrogates is one of them, and a
-- surrogate outside a pair counts as U+FFFD.
pub utf16le_to_utf8-eq-text :
    (bytes : List ℕ) (byte_count : ℕ)
    → All IsByte bytes
    → byte_count ≤ length bytes
    → utf16le_to_utf8 bytes byte_count ≡ got (text (scalars (units (take byte_count bytes))))
unfolding utf16le_to_utf8
utf16le_to_utf8-eq-text bytes n hb hn =
    utf_loop_lem (n + 1) (take n bytes) bytes n 0 [] (drop n bytes) (sym (take-append-drop n bytes))
      (omega (arith, length-take n bytes)) (All-take IsByte n bytes hb)
      (omega (arith, length-take n bytes))
