-- ===== src/Recover/Tree/Keys.antt =====
-- src/Recover.cpp: the keys of the children, and the order of names under one key.
use mathlib.Core.Bool.{false≢true}
use mathlib.Core.List.{Permᴰ}
use just_give_my_disk.Common.{
  Permᴰ-All, ℕ, ◌≡◌, refl, sym, ◌∙◌, subst, true, false, List, [], ◌∷◌, All, arith, Bool-cases, inl,
  inr,
}
use just_give_my_disk.Common.Strings.{str_eq-eq, str_eq_refl}
use just_give_my_disk.Database.{StoredRecord}
use just_give_my_disk.Recover.Tree.{
  same_key, is_hidden, better_name, keep_better, by_record_and_name,
}
use just_give_my_disk.Recover.Tree.Visits.{keep_better-All}

pub same_key_refl : (a : StoredRecord) → same_key a a ≡ true
same_key_refl a = ground (arith, str_eq_refl a.name)

-- The names of equal keys are equal.
names : (a b : StoredRecord) → same_key a b ≡ true → a.name ≡ b.name
names a b h = str_eq-eq a.name b.name (ground (arith, h))

ids : (a b : StoredRecord) → same_key a b ≡ true → a.record_id_guess ≡ b.record_id_guess
ids a b h = ground (arith, h)

pub same_key-left : (a b c : StoredRecord) → same_key a b ≡ true → same_key a c ≡ same_key b c
same_key-left a b c h = rw (names a b h, ids a b h) refl

pub same_key_sym : (a b : StoredRecord) → same_key a b ≡ same_key b a
same_key_sym a b = elim (Bool-cases (same_key a b)) [
  | inl t ↦ t ∙ sym (sym (same_key-left a b a t) ∙ same_key_refl a)
  | inr f ↦ elim (Bool-cases (same_key b a)) [
    | inl u ↦ absurd (false≢true (sym f ∙ sym (same_key-left b a b u) ∙ same_key_refl b))
    | inr g ↦ f ∙ sym g
  ]
]

pub better_name_refl : (a : StoredRecord) → better_name a a ≡ false
unfolding better_name
better_name_refl a = ground arith

pub better_name_trans :
    (a b c : StoredRecord)
    → better_name a b ≡ true
    → better_name c b ≡ false
    → better_name c a ≡ false
unfolding better_name
better_name_trans a b c h k = ground arith

-- Entries of different keys.
abbrev pub AllDiffer : List StoredRecord → Type 0
AllDiffer [] = Unit {0}
AllDiffer (x ∷ xs) = All (λ y. same_key x y ≡ false) xs × AllDiffer xs

differ-left :
    (a b : StoredRecord) (xs : List StoredRecord)
    → same_key a b ≡ true
    → All (λ y. same_key a y ≡ false) xs
    → All (λ y. same_key b y ≡ false) xs
differ-left a b [] t h = tt
differ-left a b (x ∷ xs) t h = (sym (same_key-left a b x t) ∙ h.0, differ-left a b xs t h.1)

keep_better-AllDiffer :
    (child : StoredRecord) (map_ : List StoredRecord)
    → AllDiffer map_
    → AllDiffer (keep_better child map_)
unfolding keep_better
keep_better-AllDiffer child [] h = (tt, tt)
keep_better-AllDiffer child (kept ∷ map_) h = elim (Bool-cases (same_key kept child)) [
  | inr f ↦ rw f (
    keep_better-All (λ y. same_key kept y ≡ false) child map_ f h.0,
    keep_better-AllDiffer child map_ h.1,
  )
  | inl t ↦ elim (Bool-cases (better_name child kept)) [
    | inl b ↦ rw (t, b) (differ-left kept child map_ t h.0, h.1)
    | inr b ↦ rw (t, b) h
  ]
]

pub by_record_and_name-AllDiffer :
    (has_long : List ℕ) (children map_ : List StoredRecord)
    → AllDiffer map_
    → AllDiffer (by_record_and_name has_long children map_)
unfolding by_record_and_name
by_record_and_name-AllDiffer has_long [] map_ h = h
by_record_and_name-AllDiffer has_long (child ∷ children) map_ h =
    by_record_and_name-AllDiffer has_long children _ (elim (Bool-cases (is_hidden has_long child)) [
      | inl t ↦ rw t h
      | inr f ↦ rw f (keep_better-AllDiffer child map_ h)
    ])

pub Permᴰ-AllDiffer : {xs ys : List StoredRecord} → Permᴰ xs ys → AllDiffer ys → AllDiffer xs
Permᴰ-AllDiffer Permᴰ.nil h = h
Permᴰ-AllDiffer (Permᴰ.cons {a = a} {l₁ = xs} e p) h = (
  subst (λ x. All (λ y. same_key x y ≡ false) xs) (sym e) (Permᴰ-All _ p h.0),
  Permᴰ-AllDiffer p h.1,
)
Permᴰ-AllDiffer (Permᴰ.swap {a' = a'} {b' = b'} {l = l} e f) h = (
  (
    rw (e, f) (same_key_sym b' a' ∙ (h.0).0),
    subst (λ x. All (λ y. same_key x y ≡ false) l) (sym e) (h.1).0,
  ),
  (subst (λ x. All (λ y. same_key x y ≡ false) l) (sym f) (h.0).1, (h.1).1),
)
Permᴰ-AllDiffer (Permᴰ.trans p q) h = Permᴰ-AllDiffer p (Permᴰ-AllDiffer q h)
