-- ===== src/Recover/Run/Answers.antt =====
-- What the map of the located records answers.
use mathlib.Core.List.{Memᴰ}
use just_give_my_disk.Common.{
  ℕ, ◌≡◌, ◌≢◌, ap, false, Option, none, some, List, [], ◌∷◌, ◌++◌, Bool-cases, inl, inr, arith,
  ◌==◌,
}
use just_give_my_disk.PathSafety.{Components}
use just_give_my_disk.Recover.Directories.{absolute}
use just_give_my_disk.Recover.Directories.Made.{NotOn}
use just_give_my_disk.Recover.Locating.{Located}
use just_give_my_disk.Recover.Run.{find_record}

-- What `find_record` answers of the located records.
abbrev pub IsAnswer : Located → ℕ → Option (List ℕ) → Type 0
IsAnswer records number none = (bytes : List ℕ) → ¬ (Memᴰ (number, bytes) records)
IsAnswer records number (some bytes) = Memᴰ (number, bytes) records

IsAnswer-tail :
    (entry : ℕ × List ℕ) (records : Located) (number : ℕ) (o : Option (List ℕ))
    → (entry.0 == number) ≡ false
    → IsAnswer records number o
    → IsAnswer (entry ∷ records) number o
IsAnswer-tail entry records number (some bytes) f h = Memᴰ.tail h
IsAnswer-tail entry records number none f h = λ bytes m. elim m [
  | Memᴰ.head e ↦
      let same : number ≡ entry.0 = ap (λ (c : ℕ × List ℕ). c.0) e in ground (arith, same, f)
  | Memᴰ.tail m' ↦ h bytes m'
]

pub find_record-IsAnswer :
    (records : Located) (number : ℕ) → IsAnswer records number (find_record records number)
unfolding find_record
find_record-IsAnswer [] number = λ bytes m. elim m [ ]
find_record-IsAnswer (entry ∷ records) number = elim (Bool-cases (entry.0 == number)) [
  | inl t ↦
      let same : number ≡ entry.0 = ground (arith, t) in
      rw t (Memᴰ.head (ap (λ (n : ℕ). (n, entry.1)) same))
  | inr f ↦ rw f (IsAnswer-tail entry records number _ f (find_record-IsAnswer records number))
]

not_nil : (xs : List ℕ) (y : ℕ) (ys : List ℕ) → [] ≢ xs ++ y ∷ ys
not_nil [] y ys = λ e. cc e
not_nil (x ∷ xs) y ys = λ e. cc e

-- The empty path is no directory.
pub NotOn-nil : (c : Components) → NotOn [] c
NotOn-nil [] = tt
NotOn-nil (name ∷ c) = (absolute-not_nil name c, NotOn-nil c)
  where
    absolute-not_nil : (name : List ℕ) (c : Components) → [] ≢ absolute (name ∷ c)
    absolute-not_nil name c = not_nil (absolute c) 47 name
