-- ===== src/Common/Buffer.antt =====
-- Computations on a buffer. A C++ access past the end is undefined behaviour: `fault`.
-- `stuck` is no C++ value either: the loop of the model ran out of fuel.
use Prim.Native.Nat.{ℕ, zero, suc, ◌<◌}
use mathlib.Core.Path.{◌≡◌, refl, subst}
use native.Mathlib.Omega.{arith}
use mathlib.Core.Bool.{Bool, true, false}
use just_give_my_disk.Common.Tests.{if◌then◌else◌}
use mathlib.Core.List.{List, [], ◌∷◌}
use mathlib.Core.Option.{Option, none, some}
use just_give_my_disk.Common.Lists.{get_elem?, set, length, get_elem?-eq-some}

pub data Access {ℓ} (A : Type ℓ) : Type ℓ where
  fault : Access A
  stuck : Access A
  got : A → Access A

infixl 5 ◌>>=◌
abbrev pub ◌>>=◌ {ℓ κ} : {A : Type ℓ} {B : Type κ} → Access A → (A → Access B) → Access B
fault >>= f = fault
stuck >>= f = stuck
got a >>= f = f a

abbrev pub found {ℓ} : {A : Type ℓ} → Option A → Access A
found none = fault
found (some a) = got a

-- `bytes[i]`
abbrev pub at {ℓ} : {A : Type ℓ} → List A → ℕ → Access A
at xs i = found (get_elem? xs i)

-- The computation ends with no fault, in a value that has the property.
pub data Returns {ℓ} {A : Type ℓ} (P : A → Type 0) : Access A → Type ℓ where
  returned : {a : A} → P a → Returns P (got a)

-- `bytes[i] = v`
abbrev pub store {ℓ} : {A : Type ℓ} → List A → ℕ → A → Access (List A)
store xs i v = elim (get_elem? xs i) [ none ↦ fault | some _ ↦ got (set xs i v) ]

-- A property of an optional value, where it is there.
abbrev pub OnSome {ℓ} : {A : Type ℓ} → (A → Type 0) → Option A → Type 0
OnSome P none = Unit {0}
OnSome P (some a) = P a

-- The rule for `do`: what the first part returns, the rest is proved for.
pub Returns-bind {ℓ κ} :
    {A : Type ℓ} {B : Type κ} {P : A → Type 0} {Q : B → Type 0} {m : Access A} {f : A → Access B}
    → Returns P m
    → ((a : A) → P a → Returns Q (f a))
    → Returns Q (m >>= f)
Returns-bind (returned {a = a} h) k = k a h

module _ {ℓ} {A : Type ℓ} where
  pub Returns-weaken :
      {P Q : A → Type 0} {m : Access A} → Returns P m → ((a : A) → P a → Q a) → Returns Q m
  Returns-weaken (returned {a = a} h) k = returned (k a h)

  -- The value, its equation and its property.
  pub Returns-value : {P : A → Type 0} {m : Access A} → Returns P m → (a : A) × (m ≡ got a) × P a
  Returns-value (returned {a = a} h) = (a, refl, h)

  pub Returns-at : {P : A → Type 0} {m : Access A} {a : A} → Returns P m → m ≡ got a → P a
  Returns-at {P} (returned h) e = subst P (cc e) h

  -- The rule for a test.
  pub Returns-if :
      {P : A → Type 0} {b : Bool} {m n : Access A}
      → (b ≡ true → Returns P m)
      → (b ≡ false → Returns P n)
      → Returns P (if b then m else n)
  Returns-if {b = true} h k = h refl
  Returns-if {b = false} h k = k refl

  -- A store in bounds writes.
  pub store_in_bounds :
      (xs : List A) (i : ℕ) (v : A) → i < length xs → store xs i v ≡ got (set xs i v)
  store_in_bounds [] i v h = elim h [ ]
  store_in_bounds (x ∷ xs) zero v h = refl
  store_in_bounds (x ∷ xs) (suc i) v h =
      let (b, e) = get_elem?-eq-some xs i (omega arith) in rw (e, store)

  -- A read in bounds finds what is there.
  pub at_in_bounds : (xs : List A) (i : ℕ) → i < length xs → (b : A) × (at xs i ≡ got b)
  at_in_bounds xs i h = let (b, e) = get_elem?-eq-some xs i h in (b, rw e)
