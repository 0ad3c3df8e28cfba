-- ===== src/Mft/Runs/Signed.antt =====
-- The signed arithmetic of the run list: `sign_extend` and `checked_add`.
use native.Mathlib.Nat.{pow-suc, div-add-mod, mod-lt, div-eq_of_lt}
use native.Mathlib.Decide.{dec_lt}
use just_give_my_disk.Common.{
  ℕ, zero, suc, ◌+◌, ◌-◌, ◌*◌, ◌/◌, ◌%◌, ◌^◌, ◌<◌, ◌≤◌, ◌≡◌, refl, ap, ◌∙◌, bit_and, bit_or, some,
  none, ltb, ◌==◌, if◌then◌else◌, lt→ltb, arith,
}
use just_give_my_disk.Common.Bits.{bit_and_bit, bit_or_disjoint}
use just_give_my_disk.Common.Int.{ℤ, pos, negsuc, ◌+ℤ◌, ◌-ℤ◌, IsInt64}
use just_give_my_disk.Mft.Runs.{to_int64, not64, sign_extend, checked_add}

-- The integer that `n` bytes with the value `v` stand for in two's complement.
abbrev pub signed : ℕ → ℕ → ℤ
signed n v = if ltb v (2 ^ (8 * n - 1)) then pos v else negsuc (2 ^ (8 * n) - v - 1)

top_bit : (v p : ℕ) → v < p * 2 → v / p % 2 * p ≡ (if ltb v p then 0 else p)
top_bit v p h = elim (dec_lt v p) [
  | yes lt ↦ rw (div-eq_of_lt lt, lt→ltb v p lt) (omega arith)
  | no n ↦ rw (div_one v p h (omega arith)) (ground arith)
]
  where
    div_one : (v p : ℕ) → v < p * 2 → p ≤ v → v / p ≡ 1
    div_one v p h k = grind (arith, div-add-mod v p, mod-lt v {m = p} (omega arith))

le-mul_rest : (q rest : ℕ) → 0 < rest → q ≤ rest * q
le-mul_rest q rest h = grind arith

not64_mask : (q rest : ℕ) → 0 < q → 0 < rest → rest * q ≡ 2 ^ 64 - q → not64 (q - 1) ≡ rest * q
not64_mask q rest hq hr e = omega (arith, le-mul_rest q rest hr)

extend_value :
    (q p v rest : ℕ)
    → q ≡ p * 2
    → v < q
    → 0 < rest
    → rest * q ≡ 2 ^ 64 - q
    → (if (if ltb v p then 0 else p) == 0 then to_int64 v else to_int64 (v + (2 ^ 64 - q)))
      ≡ (if ltb v p then pos v else negsuc (q - v - 1))
extend_value q p v rest e hv hr mask =
    let half = le-mul_rest q rest hr in
    elim (dec_lt v p) [ yes lt ↦ rw (lt→ltb v p lt) (ground arith) | no n ↦ ground arith ]

-- The test of bit `k` and the mask above it, where the mask is `rest * 2 ^ (k + 1)`.
extend_bit :
    (k v rest : ℕ)
    → v < 2 ^ suc k
    → 0 < rest
    → rest * 2 ^ suc k ≡ 2 ^ 64 - 2 ^ suc k
    → (if bit_and v (2 ^ k) == 0 then to_int64 v else to_int64 (bit_or v (not64 (2 ^ suc k - 1))))
      ≡ (if ltb v (2 ^ k) then pos v else negsuc (2 ^ suc k - v - 1))
extend_bit k v rest hv hr mask =
    let test : bit_and v (2 ^ k) ≡ (if ltb v (2 ^ k) then 0 else 2 ^ k) =
      bit_and_bit k v ∙ top_bit v (2 ^ k) (omega (arith, pow-suc 2 k)) in
    let joined : bit_or v (not64 (2 ^ suc k - 1)) ≡ v + (2 ^ 64 - 2 ^ suc k) =
      ap (λ (t : ℕ). bit_or v t) (not64_mask (2 ^ suc k) rest (omega arith) hr mask)
      ∙ bit_or_disjoint (suc k) v rest hv
      ∙ ap (λ (t : ℕ). v + t) mask in
    rw (test, joined) (extend_value (2 ^ suc k) (2 ^ k) v rest (pow-suc 2 k) hv hr mask)

-- For 1 to 8 bytes and a value that they can hold, `sign_extend` gives the integer that the bytes stand
-- for in two's complement.
pub sign_extend_lem : (v n : ℕ) → 1 ≤ n → n ≤ 8 → v < 2 ^ (8 * n) → sign_extend v n ≡ signed n v
unfolding sign_extend
sign_extend_lem v zero h k hv = absurd (omega arith)
sign_extend_lem v (suc zero) h k hv = extend_bit 7 v (2 ^ 56 - 1) hv (omega arith) (omega arith)
sign_extend_lem v (suc (suc zero)) h k hv =
    extend_bit 15 v (2 ^ 48 - 1) hv (omega arith) (omega arith)
sign_extend_lem v (suc (suc (suc zero))) h k hv =
    extend_bit 23 v (2 ^ 40 - 1) hv (omega arith) (omega arith)
sign_extend_lem v (suc (suc (suc (suc zero)))) h k hv =
    extend_bit 31 v (2 ^ 32 - 1) hv (omega arith) (omega arith)
sign_extend_lem v (suc (suc (suc (suc (suc zero))))) h k hv =
    extend_bit 39 v (2 ^ 24 - 1) hv (omega arith) (omega arith)
sign_extend_lem v (suc (suc (suc (suc (suc (suc zero)))))) h k hv =
    extend_bit 47 v (2 ^ 16 - 1) hv (omega arith) (omega arith)
sign_extend_lem v (suc (suc (suc (suc (suc (suc (suc zero))))))) h k hv =
    extend_bit 55 v (2 ^ 8 - 1) hv (omega arith) (omega arith)
sign_extend_lem v (suc (suc (suc (suc (suc (suc (suc (suc zero)))))))) h k hv = refl
sign_extend_lem v (suc (suc (suc (suc (suc (suc (suc (suc (suc n))))))))) h k hv =
    absurd (omega arith)

-- On two values of `int64_t`, `checked_add` gives the exact sum where it is a value of `int64_t`, and
-- nothing where it is not.
pub checked_add_lem :
    (l r : ℤ)
    → IsInt64 l
    → IsInt64 r
    → (IsInt64 (l +ℤ r) → checked_add l r ≡ some (l +ℤ r))
      × (¬ IsInt64 (l +ℤ r) → checked_add l r ≡ none)
unfolding checked_add ◌+ℤ◌ ◌-ℤ◌
checked_add_lem (pos a) (pos b) hl hr = (λ h. ground arith, λ h. ground arith)
checked_add_lem (pos a) (negsuc b) hl hr = (λ h. ground arith, λ h. ground arith)
checked_add_lem (negsuc a) (pos b) hl hr = (λ h. ground arith, λ h. ground arith)
checked_add_lem (negsuc a) (negsuc b) hl hr = (λ h. ground arith, λ h. ground arith)
