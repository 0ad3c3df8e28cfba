-- ===== src/Recover/Tree/Sorting.antt =====
-- An arrangement of the children: they are inserted one by one where the comparison puts them.
use mathlib.Core.Bool.{false≢true}
use just_give_my_disk.Common.{◌≡◌, sym, ◌∙◌, true, false, List, Bool-cases, inl, inr}
use just_give_my_disk.Common.Sorting.{insertion_sort, insertion_sort-IsSorting}
use just_give_my_disk.Database.{StoredRecord}
use just_give_my_disk.Recover.Tree.{child_before}
use just_give_my_disk.Recover.Tree.Order.{
  child_before_irrefl, child_before_trans, child_before_not_trans,
}
use just_give_my_disk.Recover.Tree.Visits.{IsArrangement}

abbrev pub sort_children : List StoredRecord → List StoredRecord
sort_children = insertion_sort child_before

asymmetric : (x y : StoredRecord) → child_before y x ≡ true → child_before x y ≡ false
asymmetric x y t = elim (Bool-cases (child_before x y)) [
  | inr f ↦ f
  | inl u ↦ absurd (false≢true (sym (child_before_irrefl x) ∙ child_before_trans x y x u t))
]

pub sort_children-IsArrangement : IsArrangement sort_children
sort_children-IsArrangement =
    insertion_sort-IsSorting child_before asymmetric child_before_not_trans
