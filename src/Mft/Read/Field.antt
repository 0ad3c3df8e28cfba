-- ===== src/Mft/Read/Field.antt =====
-- `read_le` reads the number that the bytes spell, exactly where they lie in the buffer.
use native.Mathlib.Nat.{pow-le-pow_right, mod-eq_of_lt}
use native.Mathlib.Numerals.{towards_suc, add-one}
use just_give_my_disk.Common.{
  ℕ, zero, suc, ◌+◌, ◌-◌, ◌*◌, ◌%◌, ◌^◌, ◌≤◌, ◌<◌, ◌≡◌, refl, sym, ap, ◌∙◌, bit_or, Option, none,
  some, true, false, List, [], ◌∷◌, length, length-drop, drop, take, All, All-drop, All-take,
  length-take, leb, ltb, ◌||◌, if◌then◌else◌, arith, Bool-cases, inl, inr, OnSome, got, get_elem?,
  get_elem?-eq-some, leb→le, le→leb,
}
use just_give_my_disk.Common.Bits.{bit_or_disjoint}
use just_give_my_disk.Common.Bytes.{IsByte, le_value, slice, drop-eq-cons, drop_in_bounds}
use just_give_my_disk.Mft.Read.{shl64, le_loop, read_le}

-- The field of `size` bytes at `offset`, if it lies in the buffer.
unfoldable pub field : ℕ → List ℕ → ℕ → Option ℕ
field size bytes offset =
    if leb (offset + size) (length bytes) then some (le_value (slice bytes offset size)) else none

pow_byte : (i : ℕ) → 2 ^ (8 * (i + 1)) ≡ 256 * 2 ^ (8 * i)
pow_byte i = ap (λ (t : ℕ). 2 ^ t) (eight i) ∙ simp towards_suc (omega arith)
  where
    eight : (i : ℕ) → 8 * (i + 1) ≡ 8 * i + 8
    eight i = omega arith

byte_fits : (p value byte : ℕ) → value < p → byte < 256 → value + byte * p < 256 * p
byte_fits p value byte hv hb = grind arith

byte_room :
    (p byte : ℕ) → byte < 256 → {value : ℕ} → value < p → 256 * p ≤ 2 ^ 64 → byte * p < 2 ^ 64
byte_room p byte hb {value} hv room = omega (arith, byte_fits p value byte hv hb)

-- One round of the loop adds the byte's value.
add_byte :
    (value byte i : ℕ)
    → value < 2 ^ (8 * i)
    → byte < 256
    → i < 8
    → (bit_or value (shl64 byte (8 * i)) ≡ value + byte * 2 ^ (8 * i))
      × (value + byte * 2 ^ (8 * i) < 2 ^ (8 * (i + 1)))
add_byte value byte i hv hb hi =
    let small = byte_fits (2 ^ (8 * i)) value byte hv hb in
    let room : 256 * 2 ^ (8 * i) ≤ 2 ^ 64 =
      rw pow_byte at
        (pow-le-pow_right {n = 2} (omega arith) {i = 8 * (i + 1)} {j = 64} (omega arith)) in
    (
      rw (mod-eq_of_lt (byte_room (2 ^ (8 * i)) byte hb hv room))
          (bit_or_disjoint (8 * i) value byte hv),
      rw pow_byte small,
    )

le_loop_lem :
    (rounds : ℕ) (rest bytes : List ℕ) (offset i value : ℕ)
    → All IsByte rest
    → drop (offset + i) bytes ≡ rest
    → rounds ≤ length rest
    → i + rounds ≤ 8
    → value < 2 ^ (8 * i)
    → (le_loop bytes offset rounds i value
        ≡ got (value + 2 ^ (8 * i) * le_value (take rounds rest)))
unfolding le_loop
le_loop_lem zero rest bytes offset i value hb e hr hi hv = ap got (omega arith)
le_loop_lem (suc rounds) [] bytes offset i value hb e hr hi hv = absurd (omega arith)
le_loop_lem (suc rounds) (b ∷ rest) bytes offset i value hb e hr hi hv =
    let (first, e') = drop-eq-cons bytes (offset + i) e in
    let (sum, fits) = add_byte value b i hv hb.0 (omega arith) in
    rw (first, sum)
      (le_loop_lem rounds rest bytes offset (i + 1) (value + b * 2 ^ (8 * i)) hb.1
          (ap (λ (t : ℕ). drop t bytes) (next offset i) ∙ e') (omega arith) (omega arith) fits
        ∙ ap got (rw pow_byte (omega arith)))
  where
    next : (offset i : ℕ) → offset + (i + 1) ≡ suc (offset + i)
    next offset i = omega arith

pub le_value-lt_pow : (bs : List ℕ) → All IsByte bs → le_value bs < 2 ^ (8 * length bs)
le_value-lt_pow [] h = omega arith
le_value-lt_pow (b ∷ bs) h =
    let step : 2 ^ (8 * suc (length bs)) ≡ 256 * 2 ^ (8 * length bs) =
      rw add-one at (pow_byte (length bs)) in
    rw step (omega (arith, le_value-lt_pow bs h.1, h.0))

-- What a slice in bounds is.
pub length-slice :
    (bytes : List ℕ) (offset count : ℕ)
    → offset + count ≤ length bytes
    → length (slice bytes offset count) ≡ count
length-slice bytes offset count h =
    omega (arith, length-take count (drop offset bytes), length-drop offset bytes)

pub field-lt :
    (size : ℕ) (bytes : List ℕ) (offset v : ℕ)
    → All IsByte bytes
    → field size bytes offset ≡ some v
    → (v < 2 ^ (8 * size)) × (offset + size ≤ length bytes)
unfolding field
field-lt size bytes offset v hb e = elim (Bool-cases (leb (offset + size) (length bytes))) [
  | inl t ↦
      let fits : offset + size ≤ length bytes = leb→le _ _ t in
      let value : le_value (slice bytes offset size) ≡ v = cc (rw t at e) in
      (
        rw (← value) (
            rw (length-slice bytes offset size fits) at (
              le_value-lt_pow (slice bytes offset size)
                (All-take IsByte size _ (All-drop IsByte offset bytes hb)))),
        fits,
      )
  | inr f ↦ cc (e, f)
]

-- On a buffer of bytes, `read_le` of a type of at most 8 bytes reads without a fault: the little-endian
-- number of the bytes at the offset where all of them lie in the buffer, and nothing otherwise.
pub read_le-eq-field :
    (size : ℕ) (bytes : List ℕ) (offset : ℕ)
    → All IsByte bytes
    → size ≤ 8
    → read_le size bytes offset ≡ got (field size bytes offset)
unfolding read_le field
read_le-eq-field size bytes offset hb hs = elim (Bool-cases (leb (offset + size) (length bytes))) [
  | inl t ↦
      let fits = leb→le _ _ t in
      let tail = All-drop IsByte offset bytes hb in
      let value =
        le_loop_lem size (drop offset bytes) bytes offset 0 0 tail
          (ap (λ (k : ℕ). drop k bytes) (plus_zero offset))
          (omega (arith, length-drop offset bytes)) (omega arith) (omega arith) in
      let small = le_value-lt_pow (slice bytes offset size) (All-take IsByte size _ tail) in
      rw (t, guard_passes offset size (length bytes) fits, value)
        (ap (λ (k : ℕ). got (some k))
          (ap (λ (k : ℕ). k % 2 ^ (8 * size)) (one_times (le_value (slice bytes offset size)))
            ∙ mod-eq_of_lt (rw (length-slice bytes offset size fits) at small)))
  | inr f ↦ rw (f, guard_fails offset size (length bytes) f)
]
  where
    plus_zero : (k : ℕ) → k + 0 ≡ k
    plus_zero k = omega arith

    one_times : (k : ℕ) → 0 + 1 * k ≡ k
    one_times k = omega arith

    guard_passes : (o s l : ℕ) → o + s ≤ l → (ltb l o || ltb (l - o) s) ≡ false
    guard_passes o s l h = ground arith

    guard_fails : (o s l : ℕ) → leb (o + s) l ≡ false → (ltb l o || ltb (l - o) s) ≡ true
    guard_fails o s l h = ground arith

-- A field of two bytes, by its bytes.
pub field_two :
    (bytes : List ℕ) (offset : ℕ) {a b : ℕ}
    → offset + 2 ≤ length bytes
    → get_elem? bytes offset ≡ some a
    → get_elem? bytes (offset + 1) ≡ some b
    → field 2 bytes offset ≡ some (a + 256 * b)
unfolding field
field_two bytes offset {a} {b} h first second =
    let (x, tail) = drop_in_bounds bytes offset (omega arith) in
    let (y, tail') = drop_in_bounds bytes (suc offset) (omega arith) in
    let ex : x ≡ a = cc ((drop-eq-cons bytes offset tail).0, first) in
    let ey : y ≡ b = cc ((drop-eq-cons bytes (suc offset) tail').0, rw add-one at second) in
    rw (le→leb _ _ h, tail, tail', ex, ey) (ap some (omega arith))

-- Two buffers with the same bytes at two places have the same field there.
pub field_two_congr :
    (xs ys : List ℕ) (i j : ℕ)
    → i + 2 ≤ length xs
    → j + 2 ≤ length ys
    → get_elem? xs i ≡ get_elem? ys j
    → get_elem? xs (i + 1) ≡ get_elem? ys (j + 1)
    → field 2 xs i ≡ field 2 ys j
field_two_congr xs ys i j hi hj first second =
    let (a, ea) = get_elem?-eq-some ys j (omega arith) in
    let (b, eb) = get_elem?-eq-some ys (j + 1) (omega arith) in
    field_two xs i hi (first ∙ ea) (second ∙ eb) ∙ sym (field_two ys j hj ea eb)

pub field_in_bounds :
    (size : ℕ) (bytes : List ℕ) (offset : ℕ)
    → offset + size ≤ length bytes
    → field size bytes offset ≡ some (le_value (slice bytes offset size))
unfolding field
field_in_bounds size bytes offset h = rw (le→leb _ _ h)

-- The byte loop alone, as the run list uses it.
pub le_loop-eq :
    (count : ℕ) (bytes : List ℕ) (offset : ℕ)
    → All IsByte bytes
    → offset + count ≤ length bytes
    → count ≤ 8
    → (le_loop bytes offset count 0 0 ≡ got (le_value (slice bytes offset count)))
      × (le_value (slice bytes offset count) < 2 ^ (8 * count))
le_loop-eq count bytes offset hb hl hc =
    let tail = All-drop IsByte offset bytes hb in
    (
      le_loop_lem count (drop offset bytes) bytes offset 0 0 tail
            (ap (λ (k : ℕ). drop k bytes) (plus_zero offset))
            (omega (arith, length-drop offset bytes)) (omega arith) (omega arith)
          ∙ ap got (omega arith),
      rw (length-slice bytes offset count hl) at
          (le_value-lt_pow (slice bytes offset count) (All-take IsByte count _ tail)),
    )
  where
    plus_zero : (k : ℕ) → k + 0 ≡ k
    plus_zero k = omega arith

-- The value of a field is in the range of its type, where it is there.
pub field-fits :
    (size : ℕ) (bytes : List ℕ) (offset : ℕ)
    → All IsByte bytes
    → OnSome (λ v. v < 2 ^ (8 * size)) (field size bytes offset)
field-fits size bytes offset hb = fits (field size bytes offset) refl
  where
    fits : (o : Option ℕ) → field size bytes offset ≡ o → OnSome (λ v. v < 2 ^ (8 * size)) o
    fits none e = tt
    fits (some v) e = (field-lt size bytes offset v hb e).0
