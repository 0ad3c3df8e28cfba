-- ===== src/Common/Bits.antt =====
-- The bit operations at variables, from the digit recursion that the native ones stand for.
use Prim.Native.Nat.{
  ℕ, zero, suc, ◌+◌, ◌-◌, ◌*◌, ◌/◌, ◌%◌, ◌^◌, ◌≤◌, ◌<◌, min, max, bit_and, bit_or, digits,
  bit_and-bitwise, bit_or-bitwise,
}
use mathlib.Core.Path.{◌≡◌, refl, sym, ap, ◌∙◌}
use native.Mathlib.Decide.{dec_le}
use native.Mathlib.Omega.{arith}
use native.Mathlib.Nat.{pow-suc, div-add-mod, mod-lt, mul_comm, div-div-eq-div-mul}

-- The recursion on digits, for any value at 0 and any rule for a digit. Its fuel does not matter.
module _ (base : ℕ → ℕ) (join : ℕ → ℕ → ℕ) where
  one_more : (n a b : ℕ) → a ≤ n → digits base join (suc n) a b ≡ digits base join n a b
  one_more zero zero b h = refl
  one_more (suc n) zero b h = refl
  one_more zero (suc a) b h = absurd (omega arith)
  one_more (suc n) (suc a) b h = omega (arith, one_more n (suc a / 2) (b / 2) (omega arith))

  settled : (m a b : ℕ) → a ≤ m → digits base join m a b ≡ digits base join a a b
  settled zero zero b h = refl
  settled zero (suc a) b h = absurd (omega arith)
  settled (suc m) a b h = elim (dec_le a m) [
    | yes small ↦ one_more m a b small ∙ settled m a b small
    | no large ↦ let same : suc m ≡ a = omega arith in ap (λ (n : ℕ). digits base join n a b) same
  ]

  halved :
      (a b : ℕ)
      → digits base join (suc a) (suc a) b
        ≡ digits base join (suc a / 2) (suc a / 2) (b / 2) * 2 + join (suc a % 2) (b % 2)
  halved a b = omega (arith, settled a (suc a / 2) (b / 2) (omega arith))

low_and : (a b : ℕ) → bit_and a b ≡ bit_and (a / 2) (b / 2) * 2 + min (a % 2) (b % 2)
low_and zero b = rw (bit_and-bitwise, bit_and-bitwise) (omega arith)
low_and (suc a) b =
    bit_and-bitwise (suc a) b
    ∙ halved (λ _. 0) min a b
    ∙ ap (λ (t : ℕ). t * 2 + min (suc a % 2) (b % 2)) (sym (bit_and-bitwise (suc a / 2) (b / 2)))

zero_or : (b : ℕ) → bit_or 0 b ≡ b
zero_or b = bit_or-bitwise 0 b

low_or : (a b : ℕ) → bit_or a b ≡ bit_or (a / 2) (b / 2) * 2 + max (a % 2) (b % 2)
low_or zero b = rw (zero_or b, zero_or (b / 2)) (omega arith)
low_or (suc a) b =
    bit_or-bitwise (suc a) b
    ∙ halved (λ t. t) max a b
    ∙ ap (λ (t : ℕ). t * 2 + max (suc a % 2) (b % 2)) (sym (bit_or-bitwise (suc a / 2) (b / 2)))

-- 0 on the right, below a bound that falls.
no_bits_and : (bound a : ℕ) → a < bound → bit_and a 0 ≡ 0
no_bits_and zero a h = elim h [ ]
no_bits_and (suc bound) zero h = refl
no_bits_and (suc bound) (suc a) h =
    let lower = no_bits_and bound (suc a / 2) (omega arith) in
    omega (arith, low_and (suc a) 0, lower)

no_bits_or : (bound a : ℕ) → a < bound → bit_or a 0 ≡ a
no_bits_or zero a h = elim h [ ]
no_bits_or (suc bound) zero h = refl
no_bits_or (suc bound) (suc a) h =
    let lower = no_bits_or bound (suc a / 2) (omega arith) in omega (arith, low_or (suc a) 0, lower)

-- The low digit of a remainder and of a quotient by an even number.
mod_twice : (a p : ℕ) → 0 < p → a % (p * 2) ≡ a / 2 % p * 2 + a % 2
mod_twice a p h =
    grind (arith, div-add-mod (a / 2) p, mod-lt (a / 2) {m = p} h, div-add-mod a (p * 2))

div_twice : (a p : ℕ) → a / (p * 2) ≡ a / 2 / p
div_twice a p = rw (mul_comm p 2, div-div-eq-div-mul)

pow_pos : (k : ℕ) → 0 < 2 ^ k
pow_pos zero = omega arith
pow_pos (suc k) = omega (arith, pow-suc 2 k, pow_pos k)

-- A mask of `k` ones keeps the low `k` bits.
pub bit_and_mask : (k a : ℕ) → bit_and a (2 ^ k - 1) ≡ a % 2 ^ k
bit_and_mask zero a = omega (arith, no_bits_and (suc a) a (omega arith))
bit_and_mask (suc k) a = rw (pow-suc 2 k) (
    omega (
      arith,
      low_and a (2 ^ k * 2 - 1),
      ap (λ (t : ℕ). bit_and (a / 2) t) (half_mask (2 ^ k) (pow_pos k)),
      bit_and_mask k (a / 2),
      mod_twice a (2 ^ k) (pow_pos k),
      pow_pos k,
    ))
  where
    half_mask : (p : ℕ) → 0 < p → (p * 2 - 1) / 2 ≡ p - 1
    half_mask p h = omega arith

-- A single bit as a mask.
pub bit_and_bit : (k a : ℕ) → bit_and a (2 ^ k) ≡ a / 2 ^ k % 2 * 2 ^ k
bit_and_bit zero a = omega (arith, bit_and_mask 1 a)
bit_and_bit (suc k) a = rw (pow-suc 2 k) (
    omega (
      arith,
      low_and a (2 ^ k * 2),
      ap (λ (t : ℕ). bit_and (a / 2) t) (half_even (2 ^ k)),
      bit_and_bit k (a / 2),
      ap (λ (t : ℕ). t % 2 * 2 ^ k * 2) (div_twice a (2 ^ k)),
    ))
  where
    half_even : (p : ℕ) → p * 2 / 2 ≡ p
    half_even p = omega arith

-- Of two numbers that share no bit, `|` is the sum.
pub bit_or_disjoint : (k x y : ℕ) → x < 2 ^ k → bit_or x (y * 2 ^ k) ≡ x + y * 2 ^ k
bit_or_disjoint zero zero y h = omega (arith, zero_or (y * 1))
bit_or_disjoint zero (suc x) y h = absurd (omega arith)
bit_or_disjoint (suc k) x y h = rw (pow-suc 2 k) (
    omega (
      arith,
      low_or x (y * (2 ^ k * 2)),
      ap (λ (t : ℕ). bit_or (x / 2) t) (half_even (2 ^ k)),
      bit_or_disjoint k (x / 2) y (omega (arith, pow-suc 2 k)),
    ))
  where
    half_even : (p : ℕ) → y * (p * 2) / 2 ≡ y * p
    half_even p = omega arith

-- The same with the high part first.
pub bit_or_high : (k x y : ℕ) → x < 2 ^ k → bit_or (y * 2 ^ k) x ≡ y * 2 ^ k + x
bit_or_high zero zero y h = omega (arith, no_bits_or (suc (y * 1)) (y * 1) (omega arith))
bit_or_high zero (suc x) y h = absurd (omega arith)
bit_or_high (suc k) x y h = rw (pow-suc 2 k) (
    omega (
      arith,
      low_or (y * (2 ^ k * 2)) x,
      ap (λ (t : ℕ). bit_or t (x / 2)) (half_even (2 ^ k)),
      bit_or_high k (x / 2) y (omega (arith, pow-suc 2 k)),
    ))
  where
    half_even : (p : ℕ) → y * (p * 2) / 2 ≡ y * p
    half_even p = omega arith
