-- ===== src/Recover/Tree/Dedup.antt =====
-- What `dedup_children` keeps of the children.
use mathlib.Core.List.{Permᴰ, Memᴰ}
use just_give_my_disk.Common.{
  Permᴰ-All, ℕ, ◌≡◌, refl, sym, ◌∙◌, subst, true, false, List, [], ◌∷◌, All, Bool-cases, inl, inr,
}
use just_give_my_disk.Database.{StoredRecord}
use just_give_my_disk.Recover.Tree.{
  same_key, is_hidden, better_name, keep_better, by_record_and_name, long_names, dedup_children,
}
use just_give_my_disk.Recover.Tree.Visits.{IsSorted, IsArrangement, by_record_and_name-All}
use just_give_my_disk.Recover.Tree.Keys.{
  same_key_refl, same_key-left, better_name_refl, better_name_trans, AllDiffer,
  by_record_and_name-AllDiffer, Permᴰ-AllDiffer,
}

-- An entry of the child's key whose name is not worse.
pub record IsKept (kept : List StoredRecord) (child : StoredRecord) : Type 0 where
  pub entry : StoredRecord
  pub is_kept : Memᴰ entry kept
  pub has_key : same_key entry child ≡ true
  pub not_worse : better_name child entry ≡ false

IsKept-tail :
    (x : StoredRecord) (xs : List StoredRecord) (c : StoredRecord) → IsKept xs c → IsKept (x ∷ xs) c
IsKept-tail x xs c k = record {
  entry = k.entry;
  is_kept = Memᴰ.tail k.is_kept;
  has_key = k.has_key;
  not_worse = k.not_worse;
}

-- The child is kept, or what is kept under its key is not worse.
keep_better-child :
    (child : StoredRecord) (map_ : List StoredRecord) → IsKept (keep_better child map_) child
unfolding keep_better
keep_better-child child [] = record {
  entry = child;
  is_kept = Memᴰ.head refl;
  has_key = same_key_refl child;
  not_worse = better_name_refl child;
}
keep_better-child child (kept ∷ map_) = elim (Bool-cases (same_key kept child)) [
  | inr f ↦ rw f (IsKept-tail kept _ child (keep_better-child child map_))
  | inl t ↦ elim (Bool-cases (better_name child kept)) [
    | inl b ↦
        rw (t, b)
          (record {
            entry = child;
            is_kept = Memᴰ.head refl;
            has_key = same_key_refl child;
            not_worse = better_name_refl child;
          })
    | inr b ↦
        rw (t, b) (record { entry = kept; is_kept = Memᴰ.head refl; has_key = t; not_worse = b })
  ]
]

-- What stood for a child still does, or what replaced it does.
replaced :
    (child kept : StoredRecord) (map_ : List StoredRecord) (c entry : StoredRecord)
    → same_key kept child ≡ true
    → better_name child kept ≡ true
    → same_key entry c ≡ true
    → better_name c entry ≡ false
    → Memᴰ entry (kept ∷ map_)
    → IsKept (child ∷ map_) c
replaced child kept map_ c entry t b k n (Memᴰ.tail m) = record {
  entry = entry;
  is_kept = Memᴰ.tail m;
  has_key = k;
  not_worse = n;
}
replaced child kept map_ c entry t b k n (Memᴰ.head h) = record {
  entry = child;
  is_kept = Memᴰ.head refl;
  has_key = sym (same_key-left kept child c t) ∙ subst (λ x. same_key x c ≡ true) h k;
  not_worse = better_name_trans child kept c b (subst (λ x. better_name c x ≡ false) h n);
}

keep_better-IsKept :
    (child : StoredRecord) (map_ : List StoredRecord) (c entry : StoredRecord)
    → same_key entry c ≡ true
    → better_name c entry ≡ false
    → Memᴰ entry map_
    → IsKept (keep_better child map_) c
unfolding keep_better
keep_better-IsKept child [] c entry k n m = elim m [ ]
keep_better-IsKept child (kept ∷ map_) c entry k n m = elim (Bool-cases (same_key kept child)) [
  | inl t ↦ elim (Bool-cases (better_name child kept)) [
    | inl b ↦ rw (t, b) (replaced child kept map_ c entry t b k n m)
    | inr b ↦ rw (t, b) (record { entry = entry; is_kept = m; has_key = k; not_worse = n })
  ]
  | inr f ↦ rw f (elim m [
    | Memᴰ.head e ↦ record { entry = entry; is_kept = Memᴰ.head e; has_key = k; not_worse = n }
    | Memᴰ.tail m' ↦ IsKept-tail kept _ c (keep_better-IsKept child map_ c entry k n m')
  ])
]

by_record_and_name-IsKept :
    (has_long : List ℕ) (children map_ : List StoredRecord) (c : StoredRecord)
    → IsKept map_ c
    → IsKept (by_record_and_name has_long children map_) c
unfolding by_record_and_name
by_record_and_name-IsKept has_long [] map_ c h = h
by_record_and_name-IsKept has_long (child ∷ children) map_ c h =
    by_record_and_name-IsKept has_long children _ c (elim (Bool-cases (is_hidden has_long child)) [
      | inl t ↦ rw t h
      | inr f ↦ rw f (keep_better-IsKept child map_ c h.entry h.has_key h.not_worse h.is_kept)
    ])

-- Every child that is not hidden is kept, or an entry of its key is not worse.
abbrev pub AllKept : List ℕ → List StoredRecord → List StoredRecord → Type 0
AllKept has_long kept children =
    All (λ child. is_hidden has_long child ≡ false → IsKept kept child) children

by_record_and_name-AllKept :
    (has_long : List ℕ) (children map_ : List StoredRecord)
    → AllKept has_long (by_record_and_name has_long children map_) children
unfolding by_record_and_name
by_record_and_name-AllKept has_long [] map_ = tt
by_record_and_name-AllKept has_long (child ∷ children) map_ = (
  λ f. rw f (by_record_and_name-IsKept has_long children _ child (keep_better-child child map_)),
  by_record_and_name-AllKept has_long children _,
)

Permᴰ-Memᴰ : {xs ys : List StoredRecord} {x : StoredRecord} → Permᴰ xs ys → Memᴰ x ys → Memᴰ x xs
Permᴰ-Memᴰ Permᴰ.nil m = m
Permᴰ-Memᴰ (Permᴰ.cons e p) (Memᴰ.head h) = Memᴰ.head (h ∙ sym e)
Permᴰ-Memᴰ (Permᴰ.cons e p) (Memᴰ.tail m) = Memᴰ.tail (Permᴰ-Memᴰ p m)
Permᴰ-Memᴰ (Permᴰ.swap e f) (Memᴰ.head h) = Memᴰ.tail (Memᴰ.head (h ∙ sym f))
Permᴰ-Memᴰ (Permᴰ.swap e f) (Memᴰ.tail (Memᴰ.head h)) = Memᴰ.head (h ∙ sym e)
Permᴰ-Memᴰ (Permᴰ.swap e f) (Memᴰ.tail (Memᴰ.tail m)) = Memᴰ.tail (Memᴰ.tail m)
Permᴰ-Memᴰ (Permᴰ.trans p q) m = Permᴰ-Memᴰ p (Permᴰ-Memᴰ q m)

arranged-AllKept :
    (has_long : List ℕ) {xs ys : List StoredRecord} (children : List StoredRecord)
    → Permᴰ xs ys
    → AllKept has_long ys children
    → AllKept has_long xs children
arranged-AllKept has_long [] p h = tt
arranged-AllKept has_long (child ∷ children) p h = (
  λ f.
      let k = h.0 f in
      record {
        entry = k.entry;
        is_kept = Permᴰ-Memᴰ p k.is_kept;
        has_key = k.has_key;
        not_worse = k.not_worse;
      },
  arranged-AllKept has_long children p h.1,
)

-- What is kept of the children.
pub record IsDedup (children kept : List StoredRecord) : Type 0 where
  pub sorted : IsSorted kept
  -- every entry is a child, and no DOS name of a record that has a long name
  pub listed : All (λ entry. Memᴰ entry children) kept
  pub shown : All (λ entry. is_hidden (long_names children) entry ≡ false) kept
  -- one entry for a record number and a name, and every other child is represented
  pub differ : AllDiffer kept
  pub all_kept : AllKept (long_names children) kept children

shown_self :
    (P : StoredRecord → Type 0) (has_long : List ℕ) (children : List StoredRecord)
    → ((child : StoredRecord) → Memᴰ child children → is_hidden has_long child ≡ false → P child)
    → All (λ child. is_hidden has_long child ≡ false → P child) children
shown_self P has_long [] h = tt
shown_self P has_long (child ∷ children) h =
    (h child (Memᴰ.head refl), shown_self P has_long children (λ c m. h c (Memᴰ.tail m)))

-- The children that `dedup_children` returns are children of the list, sorted, without the DOS names of
-- records that have a long name; there is one for a record number and a name, and for every child that
-- is not such a DOS name there is one of its number and name with no worse a name.
pub dedup_children-IsDedup :
    (arrange : List StoredRecord → List StoredRecord) (children : List StoredRecord)
    → IsArrangement arrange
    → IsDedup children (dedup_children arrange children)
unfolding dedup_children
dedup_children-IsDedup arrange children a = record {
  sorted = a.sorts _;
  listed = Permᴰ-All _ (a.permutes _) (
      by_record_and_name-All _ has_long children [] (shown_self _ has_long children (λ c m f. m))
        tt);
  shown = Permᴰ-All _ (a.permutes _) (
      by_record_and_name-All _ has_long children [] (shown_self _ has_long children (λ c m f. f))
        tt);
  differ = Permᴰ-AllDiffer (a.permutes _) (by_record_and_name-AllDiffer has_long children [] tt);
  all_kept =
      arranged-AllKept has_long children (a.permutes _)
        (by_record_and_name-AllKept has_long children []);
}
  where
    has_long : List ℕ
    has_long = long_names children
