-- ===== src/Recover/Tree/Order.antt =====
-- The order of the children: `std::sort` needs a strict weak order, else its behaviour is undefined.
use just_give_my_disk.Common.{ℕ, ◌≡◌, refl, Bool, true, false, List, [], ◌∷◌, arith}
use just_give_my_disk.Common.Strings.{str_lt, str_lt_trans}
use just_give_my_disk.Database.{StoredRecord}
use just_give_my_disk.Recover.Tree.{child_before}

-- What the standard asks of a comparison; the last law says that being equivalent, neither before
-- the other, is transitive.
pub record IsStrictWeakOrder {A : Type 0} (before : A → A → Bool) : Type 0 where
  pub irreflexive : (a : A) → before a a ≡ false
  pub transitive : (a b c : A) → before a b ≡ true → before b c ≡ true → before a c ≡ true
  pub negatively_transitive :
      (a b c : A) → before a b ≡ false → before b c ≡ false → before a c ≡ false

str_lt_irrefl : (s : List ℕ) → str_lt s s ≡ false
str_lt_irrefl [] = refl
str_lt_irrefl (c ∷ s) = ground (arith, str_lt_irrefl s)

str_lt_not_trans : (s t u : List ℕ) → str_lt s t ≡ false → str_lt t u ≡ false → str_lt s u ≡ false
str_lt_not_trans [] t [] h k = refl
str_lt_not_trans (a ∷ s) t [] h k = refl
str_lt_not_trans [] [] (c ∷ u) h k = absurd (cc k)
str_lt_not_trans [] (b ∷ t) (c ∷ u) h k = absurd (cc h)
str_lt_not_trans (a ∷ s) [] (c ∷ u) h k = absurd (cc k)
str_lt_not_trans (a ∷ s) (b ∷ t) (c ∷ u) h k = ground (arith, str_lt_not_trans s t u)

pub child_before_trans :
    (a b c : StoredRecord)
    → child_before a b ≡ true
    → child_before b c ≡ true
    → child_before a c ≡ true
unfolding child_before
child_before_trans a b c h k = ground (arith, str_lt_trans a.name b.name c.name)

pub child_before_not_trans :
    (a b c : StoredRecord)
    → child_before a b ≡ false
    → child_before b c ≡ false
    → child_before a c ≡ false
unfolding child_before
child_before_not_trans a b c h k = ground (arith, str_lt_not_trans a.name b.name c.name)

pub child_before_irrefl : (a : StoredRecord) → child_before a a ≡ false
unfolding child_before
child_before_irrefl a = ground (arith, str_lt_irrefl a.name)

-- The comparison of the children, which `std::sort` is called with, is a strict weak order.
pub child_before-IsStrictWeakOrder : IsStrictWeakOrder child_before
child_before-IsStrictWeakOrder = record {
  irreflexive = child_before_irrefl;
  transitive = child_before_trans;
  negatively_transitive = child_before_not_trans;
}
