-- ===== src/Recover/Tree/Visits.antt =====
-- What bounds the recursion of `collect_tree`: the record numbers that no visit has taken yet; and
-- what its helpers keep of the children.
use just_give_my_disk.Common.{
  Permᴰ-All, ℕ, zero, suc, ◌+◌, ◌≤◌, ◌<◌, ◌≡◌, sym, true, false, List, [], ◌∷◌, All, arith, ◌==◌,
  if◌then◌else◌, Bool-cases, inl, inr,
}
use just_give_my_disk.Common.Sorting
use just_give_my_disk.Database.{StoredRecord}
use just_give_my_disk.Recover.Tree.{
  contains_id, keep_better, by_record_and_name, long_names, dedup_children, child_before, same_key,
  better_name, is_hidden,
}

-- How many numbers below the bound were not visited.
pub unvisited : ℕ → List ℕ → ℕ
unvisited zero visited = 0
unvisited (suc n) visited =
    let rest = unvisited n visited in if contains_id visited n then rest else suc rest

unvisited-le : (n : ℕ) (visited : List ℕ) → unvisited n visited ≤ n
unfolding unvisited
unvisited-le zero visited = omega arith
unvisited-le (suc n) visited = ground (arith, unvisited-le n visited)

pub unvisited-lt : (n : ℕ) (visited : List ℕ) → unvisited n visited < n + 1
unvisited-lt n visited = omega (arith, unvisited-le n visited)

-- What `contains_id` finds of a list, the other finds too.
abbrev pub Within : List ℕ → List ℕ → Type 0
Within v v' = (id : ℕ) → contains_id v id ≡ true → contains_id v' id ≡ true

pub unvisited-Within : (n : ℕ) (v v' : List ℕ) → Within v v' → unvisited n v' ≤ unvisited n v
unfolding unvisited
unvisited-Within zero v v' h = omega arith
unvisited-Within (suc n) v v' h = elim (Bool-cases (contains_id v n)) [
  | inl t ↦ rw (t, h n t) (unvisited-Within n v v' h)
  | inr f ↦ elim (Bool-cases (contains_id v' n)) [
    | inl t' ↦ rw (f, t') (omega (arith, unvisited-Within n v v' h))
    | inr f' ↦ rw (f, f') (omega (arith, unvisited-Within n v v' h))
  ]
]

pub Within-cons : (id : ℕ) (v : List ℕ) → Within v (id ∷ v)
Within-cons id v i h = ground (arith, h)

pub contains_id-head : (id : ℕ) (v : List ℕ) → contains_id (id ∷ v) id ≡ true
contains_id-head id v = ground arith

pub unvisited-cons :
    (n id : ℕ) (v : List ℕ)
    → id < n
    → contains_id v id ≡ false
    → unvisited n (id ∷ v) < unvisited n v
unfolding unvisited
unvisited-cons zero id v h f = elim h [ ]
unvisited-cons (suc n) id v h f = elim (Bool-cases (id == n)) [
  | inl t ↦
      let e : id ≡ n = ground arith in
      let g : contains_id v n ≡ false = rw (sym e) f in
      rw (t, g) (omega (arith, unvisited-Within n v (id ∷ v) (Within-cons id v)))
  | inr g ↦
      let less : unvisited n (id ∷ v) < unvisited n v = unvisited-cons n id v (ground arith) f in
      rw g (ground (arith, less))
]

module _ (P : StoredRecord → Type 0) where
  pub keep_better-All :
      (child : StoredRecord) (map_ : List StoredRecord)
      → P child
      → All P map_
      → All P (keep_better child map_)
  unfolding keep_better
  keep_better-All child [] p h = (p, tt)
  keep_better-All child (kept ∷ map_) p h = elim (Bool-cases (same_key kept child)) [
    | inr f ↦ rw f (h.0, keep_better-All child map_ p h.1)
    | inl t ↦ elim (Bool-cases (better_name child kept)) [
      | inl b ↦ rw (t, b) (p, h.1)
      | inr b ↦ rw (t, b) h
    ]
  ]

  -- Only a child that is not hidden becomes an entry.
  pub by_record_and_name-All :
      (ids : List ℕ) (children map_ : List StoredRecord)
      → All (λ child. is_hidden ids child ≡ false → P child) children
      → All P map_
      → All P (by_record_and_name ids children map_)
  unfolding by_record_and_name
  by_record_and_name-All ids [] map_ h k = k
  by_record_and_name-All ids (child ∷ children) map_ h k =
      by_record_and_name-All ids children _ h.1 (elim (Bool-cases (is_hidden ids child)) [
        | inl t ↦ rw t k
        | inr f ↦ rw f (keep_better-All child map_ (h.0 f) k)
      ])

  pub All-shown :
      (ids : List ℕ) (children : List StoredRecord)
      → All P children
      → All (λ child. is_hidden ids child ≡ false → P child) children
  All-shown ids [] h = tt
  All-shown ids (child ∷ children) h = (λ f. h.0, All-shown ids children h.1)

-- No later entry is before an earlier one.
abbrev pub IsSorted : List StoredRecord → Type 0
IsSorted = Sorting.IsSorted child_before

-- What the hash table's order and `std::sort` promise: the same entries, sorted.
abbrev pub IsArrangement : (List StoredRecord → List StoredRecord) → Type 0
IsArrangement = Sorting.IsSorting child_before

pub dedup_children-All :
    (P : StoredRecord → Type 0) (arrange : List StoredRecord → List StoredRecord)
    → IsArrangement arrange
    → (children : List StoredRecord) → All P children
    → All P (dedup_children arrange children)
unfolding dedup_children
dedup_children-All P arrange a children h = Permᴰ-All P (a.permutes _) (
    by_record_and_name-All P (long_names children) children []
      (All-shown P (long_names children) children h) tt)
