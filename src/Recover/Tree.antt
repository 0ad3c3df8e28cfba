-- ===== src/Recover/Tree.antt =====
-- src/Recover.cpp: `better_name`, `dedup_children` and `collect_tree`. The query of the children is a
-- parameter, and so is `arrange`: the hash table's order and `std::sort`, which leaves the order of
-- equivalent entries open.
pub mod Order
pub mod Keys
pub mod Dedup
pub mod Visits
pub mod Apart
pub mod Closed
pub mod Sorting
mod Tests
use just_give_my_disk.Common.{
  ℕ, zero, suc, ◌+◌, ◌^◌, Bool, true, false, not, ◌&&◌, List, [], ◌∷◌, ◌++◌, length, ltb, ◌==◌,
  if◌then◌else◌,
}
use just_give_my_disk.Common.Int.{ℤ, pos, negsuc, ltb_ℤ}
use just_give_my_disk.Common.Strings.{str_eq, str_lt}
use just_give_my_disk.Database.{StoredRecord}
use just_give_my_disk.Output.Result.{Result, ok, throw, stuck, bind}
use just_give_my_disk.Output.Sanitize.{sanitize_name}
use just_give_my_disk.Output.Collisions.{RelativePath, Entries, add}

-- `name_namespace == 2`
abbrev pub is_dos : StoredRecord → Bool
is_dos record_ = elim record_.name_namespace [ pos n ↦ n == 2 | negsuc n ↦ false ]

abbrev pub bool_eq : Bool → Bool → Bool
bool_eq true b = b
bool_eq false b = not b

unfoldable pub better_name : StoredRecord → StoredRecord → Bool
better_name candidate current =
    if not (bool_eq (is_dos candidate) (is_dos current))
    then not (is_dos candidate)
    else if not (length candidate.name == length current.name)
    then ltb (length current.name) (length candidate.name)
    else ltb_ℤ candidate.id current.id

-- `record_has_long_name`, as the list of the record numbers that it maps to true.
unfoldable pub long_names : List StoredRecord → List ℕ
long_names [] = []
long_names (child ∷ children) =
    let rest = long_names children in if is_dos child then rest else child.record_id_guess ∷ rest

abbrev pub contains_id : List ℕ → ℕ → Bool
contains_id [] id = false
contains_id (i ∷ ids) id = let rest = contains_id ids id in if i == id then true else rest

-- Equality of the keys "record number, newline, name": the digits of a number hold no newline.
abbrev pub same_key : StoredRecord → StoredRecord → Bool
same_key a b = a.record_id_guess == b.record_id_guess && str_eq a.name b.name

-- The map `by_record_and_name`, as the list of its values: a child becomes its key's value where
-- there is none, or where it has the better name.
unfoldable pub keep_better : StoredRecord → List StoredRecord → List StoredRecord
keep_better child [] = child ∷ []
keep_better child (kept ∷ map_) =
    let rest = keep_better child map_ in
    if same_key kept child
    then (if better_name child kept then child ∷ map_ else kept ∷ map_)
    else kept ∷ rest

-- A DOS name of a record that has a long name.
abbrev pub is_hidden : List ℕ → StoredRecord → Bool
is_hidden has_long_name child = is_dos child && contains_id has_long_name child.record_id_guess

unfoldable pub by_record_and_name :
    List ℕ → List StoredRecord → List StoredRecord → List StoredRecord
by_record_and_name has_long_name [] map_ = map_
by_record_and_name has_long_name (child ∷ children) map_ =
    by_record_and_name has_long_name children
      (if is_hidden has_long_name child then map_ else keep_better child map_)

-- The comparison of `std::sort`: directories first, then by name.
unfoldable pub child_before : StoredRecord → StoredRecord → Bool
child_before lhs rhs =
    if not (bool_eq lhs.is_directory rhs.is_directory)
    then lhs.is_directory && not rhs.is_directory
    else str_lt lhs.name rhs.name

pub record RecoverItem : Type 0 where
  pub record_ : StoredRecord
  pub relative_path : RelativePath

-- `items`, `visited_dirs` and `collisions`.
pub record Collected : Type 0 where
  pub items : List RecoverItem
  pub visited_dirs : List ℕ
  pub collisions : Entries

-- `base / sanitize_name(name)`: a safe name is one more component.
abbrev pub child_path : RelativePath → StoredRecord → RelativePath
child_path base child = base ++ sanitize_name child.name ∷ []

module _ (arrange : List StoredRecord → List StoredRecord) where
  unfoldable pub dedup_children : List StoredRecord → List StoredRecord
  dedup_children children = arrange (by_record_and_name (long_names children) children [])

-- A visit of a directory, the rest of the recursion: its number, its path, what is collected so far.
abbrev pub Visit : Type 0
Visit = ℕ → RelativePath → Collected → Result Collected

-- The item is recorded, and a directory is entered.
abbrev pub enter : Visit → StoredRecord → RelativePath → Collected → Entries → Result Collected
enter visit child relative s entries =
    let s' : Collected = record {
      items = s.items ++ record { record_ = child; relative_path = relative } ∷ [];
      visited_dirs = s.visited_dirs;
      collisions = entries;
    } in
    elim child.is_directory [ true ↦ visit child.record_id_guess relative s' | false ↦ ok s' ]

-- The body of the loop over the children.
unfoldable pub collect_child : Visit → RelativePath → StoredRecord → Collected → Result Collected
collect_child visit base child s =
    bind (add s.collisions (child_path base child)) (enter visit child (child_path base child) s)

unfoldable pub collect_children :
    Visit → RelativePath → List StoredRecord → Collected → Result Collected
collect_children visit base [] s = ok s
collect_children visit base (child ∷ children) s =
    bind (collect_child visit base child s) (collect_children visit base children)

abbrev pub mark_visited : ℕ → Collected → Collected
mark_visited id s = record {
  items = s.items;
  visited_dirs = id ∷ s.visited_dirs;
  collisions = s.collisions;
}

module _ (children_of : ℕ → Result (List StoredRecord))
    (arrange : List StoredRecord → List StoredRecord) where
  -- On fuel: the depth of the recursion.
  unfoldable pub collect_tree_loop : ℕ → Visit
  collect_tree_loop zero parent_record_id base s = stuck
  collect_tree_loop (suc fuel) parent_record_id base s =
      elim (contains_id s.visited_dirs parent_record_id) [
        | true ↦ ok s
        | false ↦ bind (children_of parent_record_id) (λ children.
            collect_children (collect_tree_loop fuel) base (dedup_children arrange children)
              (mark_visited parent_record_id s))
      ]

  -- `collect_tree`: every level of the recursion visits a record number of 64 bits that was not visited.
  unfoldable pub collect_tree : Visit
  collect_tree parent_record_id base s = collect_tree_loop (2 ^ 64 + 1) parent_record_id base s

-- What `Recover::run` starts from.
abbrev pub nothing_collected : Collected
nothing_collected = record { items = []; visited_dirs = []; collisions = [] }
