-- ===== src/Output/Result.antt =====
-- What the program's functions end in, beside the world that they leave, and how they are chained.
use just_give_my_disk.Common.{◌≡◌, refl, Bool, true, false, Access, got}
use just_give_my_disk.Output.Posix.{Errno, Call, success, failure}

-- What a call ends in: a value or an exception. `stuck` is no C++ value: undefined behaviour, or a
-- loop of the model that is out of fuel.
pub data Result {ℓ} (A : Type ℓ) : Type ℓ where
  ok : A → Result A
  throw : Result A
  stuck : Result A

-- The parser's computations: an access out of bounds is undefined behaviour.
abbrev pub of_access {ℓ} : {A : Type ℓ} → Access A → Result A
of_access (got a) = ok a
of_access Access.fault = stuck
of_access Access.stuck = stuck

-- Goes on with a value.
abbrev pub and_then {ℓ κ} :
    {W : Type 0} {A : Type ℓ} {B : Type κ} → Result A × W → (A → W → Result B × W) → Result B × W
and_then (ok a, w) f = f a w
and_then (throw, w) f = (throw, w)
and_then (stuck, w) f = (stuck, w)

-- Goes on with a value, where the world has no part in it.
abbrev pub bind {ℓ κ} : {A : Type ℓ} {B : Type κ} → Result A → (A → Result B) → Result B
bind (ok a) f = f a
bind throw f = throw
bind stuck f = stuck

-- The outcome without a world: a value with a property, or an exception.
pub data Settles {A : Type 0} (Q : A → Type 0) : Result A → Type 0 where
  settled : {a : A} → Q a → Settles Q (ok a)
  thrown : Settles Q throw

pub Settles-bind :
    {A B : Type 0} {Q : A → Type 0} {R : B → Type 0} {m : Result A} {f : A → Result B}
    → Settles Q m
    → ((a : A) → m ≡ ok a → Q a → Settles R (f a))
    → Settles R (bind m f)
Settles-bind (settled {a = a} h) k = k a refl h
Settles-bind thrown k = thrown

pub Settles-weaken :
    {A : Type 0} {Q R : A → Type 0} {m : Result A}
    → Settles Q m
    → ((a : A) → Q a → R a)
    → Settles R m
Settles-weaken (settled {a = a} h) k = settled (k a h)
Settles-weaken thrown k = thrown

-- The rule for a test.
pub Settles-elim :
    {A : Type 0} {Q : A → Type 0} {m n : Result A} (b : Bool)
    → (b ≡ true → Settles Q m)
    → (b ≡ false → Settles Q n)
    → Settles Q (elim b [ true ↦ m | false ↦ n ])
Settles-elim true h k = h refl
Settles-elim false h k = k refl

-- The outcome of a call: a value with a property, or an exception; the model's fuel was enough.
pub data Ends {W : Type 0} {A : Type 0} (Q : A → W → Type 0) (E : W → Type 0)
    : Result A × W → Type 0 where
  ends_ok : {a : A} {w : W} → Q a w → Ends Q E (ok a, w)
  ends_throw : {w : W} → E w → Ends Q E (throw, w)

module _ {W A : Type 0} {Q : A → W → Type 0} {E : W → Type 0} where
  pub Ends-weaken :
      {m : Result A × W} {Q' : A → W → Type 0} {E' : W → Type 0}
      → Ends Q E m
      → ((a : A) (w : W) → Q a w → Q' a w)
      → ((w : W) → E w → E' w)
      → Ends Q' E' m
  Ends-weaken (ends_ok {a = a} {w = w} h) k l = ends_ok (k a w h)
  Ends-weaken (ends_throw {w = w} h) k l = ends_throw (l w h)

-- What ends in a value, and which.
pub Ends-eq :
    {W A : Type 0} {Q : A → W → Type 0} {E : W → Type 0} {m : Result A × W}
    → Ends Q E m
    → Ends (λ a u. Q a u × (m ≡ (ok a, u))) E m
Ends-eq (ends_ok h) = ends_ok (h, refl)
Ends-eq (ends_throw h) = ends_throw h

-- What holds under a condition, beside what holds in any case.
pub Ends-if :
    {W A O : Type 0} {Q Q' : A → W → Type 0} {E E' : W → Type 0} {m : Result A × W}
    → Ends Q E m
    → (O → Ends Q' E' m)
    → Ends (λ a u. Q a u × (O → Q' a u)) (λ u. E u × (O → E' u)) m
Ends-if {Q' = Q'} {E' = E'} (ends_ok {a = a} {w = u} h) k = ends_ok (h, λ o. returned_lem (k o))
  where
    returned_lem : Ends Q' E' (ok a, u) → Q' a u
    returned_lem (ends_ok h') = h'
Ends-if {Q' = Q'} {E' = E'} (ends_throw {w = u} h) k = ends_throw (h, λ o. thrown_lem (k o))
  where
    thrown_lem : Ends Q' E' (throw, u) → E' u
    thrown_lem (ends_throw h') = h'

-- A call whose failure is thrown.
abbrev pub or_throw {ℓ} : {W : Type 0} {A : Type ℓ} → Call A × W → Result A × W
or_throw (success a, w) = (ok a, w)
or_throw (failure e, w) = (throw, w)

module _ {W A : Type 0} {E : W → Type 0} where
  pub Ends-and_then :
      {B : Type 0} {Q : A → W → Type 0} {R : B → W → Type 0} {m : Result A × W}
      {f : A → W → Result B × W}
      → Ends Q E m
      → ((a : A) (w : W) → Q a w → Ends R E (f a w))
      → Ends R E (and_then m f)
  Ends-and_then (ends_ok {a = a} {w = w} h) k = k a w h
  Ends-and_then (ends_throw h) k = ends_throw h

  pub Ends-or_throw :
      {Q : A → W → Type 0} (c : Call A) (w : W)
      → ((a : A) → c ≡ success a → Q a w)
      → ((e : Errno) → c ≡ failure e → E w)
      → Ends Q E (or_throw (c, w))
  Ends-or_throw (success a) w h k = ends_ok (h a refl)
  Ends-or_throw (failure e) w h k = ends_throw (k e refl)

-- A result that the world has no part in, and what follows it.
pub Settles-and_then :
    {W A B : Type 0} {Q : A → Type 0} {R : B → W → Type 0} {E : W → Type 0} {m : Result A} {v : W}
    (f : A → W → Result B × W)
    → Settles Q m
    → E v
    → ((a : A) → m ≡ ok a → Q a → Ends R E (f a v))
    → Ends R E (and_then (m, v) f)
Settles-and_then f (settled {a = a} q) e k = k a refl q
Settles-and_then f thrown e k = ends_throw e
