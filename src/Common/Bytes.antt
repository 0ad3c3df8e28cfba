-- ===== src/Common/Bytes.antt =====
-- Bytes, the value of a little-endian byte string, and positions in a buffer by `drop`.
use Prim.Native.Nat.{ℕ, zero, suc, ◌+◌, ◌*◌, ◌^◌, ◌<◌}
use mathlib.Core.Path.{◌≡◌, refl}
use mathlib.Core.Option.{some}
use mathlib.Core.Bool.{Bool, true, ◌&&◌}
use mathlib.Core.List.{List, [], ◌∷◌}
use native.Mathlib.Omega.{arith}
use native.Mathlib.Nat.{pow-suc}
use just_give_my_disk.Common.Lists.{length, get_elem?, drop, take, set, All}
use just_give_my_disk.Common.Tests.{ltb}

abbrev pub IsByte : ℕ → Type 0
IsByte b = b < 256

-- The number that the bytes spell, the lowest byte first.
abbrev pub le_value : List ℕ → ℕ
le_value [] = 0
le_value (b ∷ bs) = b + 256 * le_value bs

pub le_value-lt : (bs : List ℕ) → All IsByte bs → le_value bs < 256 ^ length bs
le_value-lt [] h = omega arith
le_value-lt (b ∷ bs) h = omega (arith, le_value-lt bs h.1, h.0, pow-suc 256 (length bs))

-- The bytes [offset, offset + count).
abbrev pub slice : List ℕ → ℕ → ℕ → List ℕ
slice bytes offset count = take count (drop offset bytes)

module _ {ℓ} {A : Type ℓ} where
  -- What stands at a position, and what stands behind it.
  pub drop-eq-cons :
      (xs : List A) (i : ℕ) {b : A} {r : List A}
      → drop i xs ≡ b ∷ r
      → (get_elem? xs i ≡ some b) × (drop (suc i) xs ≡ r)
  drop-eq-cons [] zero h = cc
  drop-eq-cons [] (suc i) h = cc
  drop-eq-cons (x ∷ xs) zero h = (cc, cc)
  drop-eq-cons (x ∷ xs) (suc i) h = drop-eq-cons xs i h

  -- A position in bounds holds an element, and the rest follows it.
  pub drop_in_bounds :
      (xs : List A) (i : ℕ) → i < length xs → (b : A) × (drop i xs ≡ b ∷ drop (suc i) xs)
  drop_in_bounds [] i h = elim h [ ]
  drop_in_bounds (x ∷ xs) zero h = (x, refl)
  drop_in_bounds (x ∷ xs) (suc i) h = drop_in_bounds xs i (omega arith)

-- The same as a test, for concrete buffers.
abbrev pub are_bytes : List ℕ → Bool
are_bytes [] = true
are_bytes (b ∷ bs) = ltb b 256 && are_bytes bs

pub are_bytes-All : (bs : List ℕ) → are_bytes bs ≡ true → All IsByte bs
are_bytes-All [] h = tt
are_bytes-All (b ∷ bs) h = (ground arith, are_bytes-All bs (ground arith))

-- A buffer with the bytes that are listed by their positions.
abbrev pub patch : List ℕ → List (ℕ × ℕ) → List ℕ
patch bytes [] = bytes
patch bytes ((i, b) ∷ ps) = patch (set bytes i b) ps
