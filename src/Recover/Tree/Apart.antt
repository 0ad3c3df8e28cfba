-- ===== src/Recover/Tree/Apart.antt =====
-- A recovered item's path: its components are safe names, and no other item has it.
use mathlib.Core.Bool.{false≢true}
use just_give_my_disk.Common.{
  ℕ, ◌≡◌, ◌≢◌, refl, sym, ◌∙◌, ap, true, false, List, [], ◌∷◌, ◌++◌, All, All-append, arith,
  Bool-cases, inl, inr,
}
use just_give_my_disk.Common.Strings.{str_eq_refl}
use just_give_my_disk.Database.{StoredRecord}
use just_give_my_disk.Output.Result.{Settles, settled, thrown}
use just_give_my_disk.Output.Sanitize.{IsSafeName, sanitize_name-IsSafeName}
use just_give_my_disk.Output.Collisions.{RelativePath, Entries, contains, add, collision_key}
use just_give_my_disk.Output.Collisions.Keys.{fold, collision_key-same_path}
use just_give_my_disk.Recover.Tree.{RecoverItem, Collected, child_path}

-- Different outputs: also where file names are compared without the case of ASCII letters.
abbrev pub IsApart : RecoverItem → RecoverItem → Type 0
IsApart a b = fold a.relative_path ≢ fold b.relative_path

abbrev pub AllApart : List RecoverItem → Type 0
AllApart [] = Unit {0}
AllApart (x ∷ xs) = All (IsApart x) xs × AllApart xs

AllApart-append :
    (xs : List RecoverItem) (x : RecoverItem)
    → AllApart xs
    → All (λ y. IsApart y x) xs
    → AllApart (xs ++ x ∷ [])
AllApart-append [] x h k = (tt, tt)
AllApart-append (y ∷ xs) x h k =
    (All-append (IsApart y) xs (x ∷ []) h.0 (k.0, tt), AllApart-append xs x h.1 k.1)

-- The item's components are safe names, and its key is counted.
abbrev pub IsTracked : Entries → RecoverItem → Type 0
IsTracked entries item =
    All IsSafeName item.relative_path × (contains entries (collision_key item.relative_path) ≡ true)

pub record IsSound (s : Collected) : Type 0 where
  pub tracked : All (IsTracked s.collisions) s.items
  pub apart : AllApart s.items

pub add-Settles :
    (entries : Entries) (path : RelativePath)
    → Settles
        (λ entries'.
          (contains entries (collision_key path) ≡ false)
          × (entries' ≡ collision_key path ∷ entries))
        (add entries path)
unfolding add
add-Settles entries path = elim (Bool-cases (contains entries (collision_key path))) [
  | inl t ↦ rw t thrown
  | inr f ↦ rw f (settled (refl, refl))
]

contains-cons :
    (key : List ℕ) (entries : Entries) (k : List ℕ)
    → contains entries k ≡ true
    → contains (key ∷ entries) k ≡ true
contains-cons key entries k h = ground (arith, h)

contains-head : (key : List ℕ) (entries : Entries) → contains (key ∷ entries) key ≡ true
contains-head key entries = rw (str_eq_refl key) refl

IsTracked-cons :
    (key : List ℕ) (entries : Entries) (items : List RecoverItem)
    → All (IsTracked entries) items
    → All (IsTracked (key ∷ entries)) items
IsTracked-cons key entries [] h = tt
IsTracked-cons key entries (x ∷ xs) h =
    (((h.0).0, contains-cons key entries _ (h.0).1), IsTracked-cons key entries xs h.1)

-- What has a counted key is apart from what has a key that is not counted.
tracked-IsApart :
    (entries : Entries) (x : RecoverItem) (items : List RecoverItem)
    → All IsSafeName x.relative_path
    → contains entries (collision_key x.relative_path) ≡ false
    → All (IsTracked entries) items
    → All (λ y. IsApart y x) items
tracked-IsApart entries x [] safe f h = tt
tracked-IsApart entries x (y ∷ ys) safe f h = (
  λ e. absurd (
      false≢true (
        sym f
        ∙ ap (contains entries)
            (sym ((collision_key-same_path y.relative_path x.relative_path (h.0).0 safe).1 e))
        ∙ (h.0).1)),
  tracked-IsApart entries x ys safe f h.1,
)

pub child_path-safe :
    (base : RelativePath) (child : StoredRecord)
    → All IsSafeName base
    → All IsSafeName (child_path base child)
child_path-safe base child h =
    All-append IsSafeName base _ h (sanitize_name-IsSafeName child.name, tt)

abbrev pub item_of : RelativePath → StoredRecord → RecoverItem
item_of base child = record { record_ = child; relative_path = child_path base child }

-- A child more, under a key that is new.
pub IsSound-append :
    (s : Collected) (base : RelativePath) (child : StoredRecord)
    → All IsSafeName base
    → contains s.collisions (collision_key (child_path base child)) ≡ false
    → IsSound s
    → IsSound (record {
      items = s.items ++ item_of base child ∷ [];
      visited_dirs = s.visited_dirs;
      collisions = collision_key (child_path base child) ∷ s.collisions;
    })
IsSound-append s base child safe f h = record {
  tracked =
      All-append (IsTracked (key ∷ s.collisions)) s.items (item_of base child ∷ [])
        (IsTracked-cons key s.collisions s.items h.tracked)
        ((child_path-safe base child safe, contains-head key s.collisions), tt);
  apart = AllApart-append s.items (item_of base child) h.apart (
      tracked-IsApart s.collisions (item_of base child) s.items (child_path-safe base child safe) f
        h.tracked);
}
  where
    key : List ℕ
    key = collision_key (child_path base child)
