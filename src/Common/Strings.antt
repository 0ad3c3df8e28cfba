-- ===== src/Common/Strings.antt =====
-- Strings as lists of bytes: the test of equality, and the order of `std::string`.
use Prim.Native.Nat.{ℕ}
use Prim.Native.Char.{code}
use Prim.Native.String.{String}
use mathlib.Core.Path.{◌≡◌, refl}
use mathlib.Core.Bool.{Bool, true, false, ◌&&◌}
use mathlib.Core.Logic.{◌≢◌}
use mathlib.Core.List.{List, [], ◌∷◌}
use native.Mathlib.Omega.{arith}
use just_give_my_disk.Common.Tests.{◌==◌, ltb, if◌then◌else◌}

-- The character codes of a literal.
abbrev pub codes : String → List ℕ
codes String.[] = []
codes (String.◌∷◌ c s) = code c ∷ codes s

-- `lhs == rhs`
abbrev pub str_eq : List ℕ → List ℕ → Bool
str_eq [] [] = true
str_eq [] (b ∷ bs) = false
str_eq (a ∷ as_) [] = false
str_eq (a ∷ as_) (b ∷ bs) = a == b && str_eq as_ bs

-- `lhs < rhs`, byte by byte as unsigned numbers.
abbrev pub str_lt : List ℕ → List ℕ → Bool
str_lt [] [] = false
str_lt [] (b ∷ bs) = true
str_lt (a ∷ as_) [] = false
str_lt (a ∷ as_) (b ∷ bs) = let rest = str_lt as_ bs in if a == b then rest else ltb a b

pub str_eq_refl : (s : List ℕ) → str_eq s s ≡ true
str_eq_refl [] = refl
str_eq_refl (a ∷ s) = ground (arith, str_eq_refl s)

pub str_eq-eq : (s t : List ℕ) → str_eq s t ≡ true → s ≡ t
str_eq-eq [] [] h = refl
str_eq-eq [] (b ∷ t) h = absurd (cc h)
str_eq-eq (a ∷ s) [] h = absurd (cc h)
str_eq-eq (a ∷ s) (b ∷ t) h = ground (arith, str_eq-eq s t)

pub str_eq-ne : (s t : List ℕ) → s ≢ t → str_eq s t ≡ false
str_eq-ne [] [] h = absurd (h refl)
str_eq-ne [] (b ∷ t) h = refl
str_eq-ne (a ∷ s) [] h = refl
str_eq-ne (a ∷ s) (b ∷ t) h = ground (arith, str_eq-eq s t, head_tail)
  where
    head_tail : a ≡ b → s ≡ t → ⊥
    head_tail e f = h (rw (e, f) refl)

-- Of two different texts one is before the other.
pub str_lt-ne : (s t : List ℕ) → str_lt t s ≡ false → str_eq s t ≡ false → str_lt s t ≡ true
str_lt-ne [] [] h e = absurd (cc e)
str_lt-ne [] (b ∷ t) h e = refl
str_lt-ne (a ∷ s) [] h e = absurd (cc h)
str_lt-ne (a ∷ s) (b ∷ t) h e = ground (arith, str_lt-ne s t)

pub str_lt_trans : (s t u : List ℕ) → str_lt s t ≡ true → str_lt t u ≡ true → str_lt s u ≡ true
str_lt_trans [] [] u h k = absurd (cc h)
str_lt_trans [] (b ∷ t) [] h k = absurd (cc k)
str_lt_trans [] (b ∷ t) (c ∷ u) h k = refl
str_lt_trans (a ∷ s) [] u h k = absurd (cc h)
str_lt_trans (a ∷ s) (b ∷ t) [] h k = absurd (cc k)
str_lt_trans (a ∷ s) (b ∷ t) (c ∷ u) h k = ground (arith, str_lt_trans s t u)

pub str_lt_asym : (s t : List ℕ) → str_lt t s ≡ true → str_lt s t ≡ false
str_lt_asym [] [] h = absurd (cc h)
str_lt_asym [] (b ∷ t) h = absurd (cc h)
str_lt_asym (a ∷ s) [] h = refl
str_lt_asym (a ∷ s) (b ∷ t) h = ground (arith, str_lt_asym s t)

pub str_lt_not_trans :
    (s t u : List ℕ) → str_lt s t ≡ false → str_lt t u ≡ false → str_lt s u ≡ false
str_lt_not_trans [] [] u h k = k
str_lt_not_trans [] (b ∷ t) u h k = absurd (cc h)
str_lt_not_trans (a ∷ s) t [] h k = refl
str_lt_not_trans (a ∷ s) [] (c ∷ u) h k = absurd (cc k)
str_lt_not_trans (a ∷ s) (b ∷ t) (c ∷ u) h k = ground (arith, str_lt_not_trans s t u)
