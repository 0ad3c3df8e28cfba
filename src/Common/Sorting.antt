-- ===== src/Common/Sorting.antt =====
-- What a sorting promises, and one that keeps it: insertion.
use mathlib.Core.Path.{◌≡◌, refl}
use mathlib.Core.Bool.{Bool, true, false}
use mathlib.Core.Logic.{inl, inr}
use mathlib.Core.List.{Permᴰ, List, [], ◌∷◌}
use mathlib.Core.List.Permᴰ
use just_give_my_disk.Common.Tests.{if◌then◌else◌, Bool-cases}
use just_give_my_disk.Common.Lists.{All}

module _ {A : Type 0} (before : A → A → Bool) where
  -- No later element is before an earlier one.
  abbrev pub IsSorted : List A → Type 0
  IsSorted [] = Unit {0}
  IsSorted (x ∷ xs) = All (λ y. before y x ≡ false) xs × IsSorted xs

  -- What `std::sort` promises: the same elements, sorted.
  pub record IsSorting (arrange : List A → List A) : Type 0 where
    pub permutes : (xs : List A) → Permᴰ (arrange xs) xs
    pub sorts : (xs : List A) → IsSorted (arrange xs)

  unfoldable pub insert_sorted : A → List A → List A
  insert_sorted x [] = x ∷ []
  insert_sorted x (y ∷ ys) =
      let rest = insert_sorted x ys in if before y x then y ∷ rest else x ∷ y ∷ ys

  unfoldable pub insertion_sort : List A → List A
  insertion_sort [] = []
  insertion_sort (x ∷ xs) = insert_sorted x (insertion_sort xs)

  insert_sorted-Permᴰ : (x : A) (ys : List A) → Permᴰ (insert_sorted x ys) (x ∷ ys)
  unfolding insert_sorted
  insert_sorted-Permᴰ x [] = Permᴰ.refl _
  insert_sorted-Permᴰ x (y ∷ ys) = elim (Bool-cases (before y x)) [
    | inr f ↦ rw f (Permᴰ.refl _)
    | inl t ↦ rw t (Permᴰ.trans (Permᴰ.cons refl (insert_sorted-Permᴰ x ys)) (Permᴰ.swap refl refl))
  ]

  insertion_sort-Permᴰ : (xs : List A) → Permᴰ (insertion_sort xs) xs
  unfolding insertion_sort
  insertion_sort-Permᴰ [] = Permᴰ.nil
  insertion_sort-Permᴰ (x ∷ xs) =
      Permᴰ.trans (insert_sorted-Permᴰ x (insertion_sort xs))
        (Permᴰ.cons refl (insertion_sort-Permᴰ xs))

  insert_sorted-All :
      (P : A → Type 0) (x : A) (ys : List A) → P x → All P ys → All P (insert_sorted x ys)
  unfolding insert_sorted
  insert_sorted-All P x [] p h = (p, tt)
  insert_sorted-All P x (y ∷ ys) p h = elim (Bool-cases (before y x)) [
    | inr f ↦ rw f (p, h)
    | inl t ↦ rw t (h.0, insert_sorted-All P x ys p h.1)
  ]

  -- In a strict weak order.
  module _ (asymmetric : (x y : A) → before y x ≡ true → before x y ≡ false)
      (not_trans : (z y x : A) → before z y ≡ false → before y x ≡ false → before z x ≡ false) where
    none_before :
        (x y : A) (ys : List A)
        → before y x ≡ false
        → All (λ z. before z y ≡ false) ys
        → All (λ z. before z x ≡ false) ys
    none_before x y [] f h = tt
    none_before x y (z ∷ ys) f h = (not_trans z y x h.0 f, none_before x y ys f h.1)

    insert_sorted-IsSorted : (x : A) (ys : List A) → IsSorted ys → IsSorted (insert_sorted x ys)
    unfolding insert_sorted
    insert_sorted-IsSorted x [] h = (tt, tt)
    insert_sorted-IsSorted x (y ∷ ys) h = elim (Bool-cases (before y x)) [
      | inr f ↦ rw f ((f, none_before x y ys f h.0), h)
      | inl t ↦ rw t (
        insert_sorted-All (λ z. before z y ≡ false) x ys (asymmetric x y t) h.0,
        insert_sorted-IsSorted x ys h.1,
      )
    ]

    insertion_sort-IsSorted : (xs : List A) → IsSorted (insertion_sort xs)
    unfolding insertion_sort
    insertion_sort-IsSorted [] = tt
    insertion_sort-IsSorted (x ∷ xs) = insert_sorted-IsSorted x _ (insertion_sort-IsSorted xs)

    pub insertion_sort-IsSorting : IsSorting insertion_sort
    insertion_sort-IsSorting = record {
      permutes = insertion_sort-Permᴰ;
      sorts = insertion_sort-IsSorted;
    }
