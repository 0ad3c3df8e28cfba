-- ===== src/Recover/Tree/Tests.antt =====
-- The collection of a tree on a concrete index: a directory that is listed below itself, with a file.
use just_give_my_disk.Common.{
  ℕ, ◌<◌, ◌^◌, ◌≡◌, ◌↔◌, refl, Bool, true, false, List, [], ◌∷◌, All, arith, ◌==◌, if◌then◌else◌,
}
use just_give_my_disk.Common.Int.{pos}
use just_give_my_disk.Database.{StoredRecord}
use just_give_my_disk.Output.Result.{Result, ok, Settles, settled}
use just_give_my_disk.Output.Collisions.{add, collision_key, lexically_normal}
use just_give_my_disk.Output.Collisions.Keys.{fold, collision_key-same_path}
use just_give_my_disk.Output.Sanitize.{sanitize_name, sanitize_characters, sanitize_name-IsSafeName}
use just_give_my_disk.Recover.Tree.{
  collect_tree, dedup_children, nothing_collected, collect_tree_loop, collect_children,
  by_record_and_name, keep_better, long_names, child_before, collect_child,
}
use just_give_my_disk.Common.Sorting.{insertion_sort, insert_sorted}
use just_give_my_disk.Recover.Tree.Sorting.{sort_children, sort_children-IsArrangement}
use just_give_my_disk.Recover.Tree.Dedup.{IsDedup, dedup_children-IsDedup}
use just_give_my_disk.Recover.Tree.Closed.{IsCollected, collect_tree-IsCollected}

abbrev stored : ℕ → List ℕ → ℕ → Bool → StoredRecord
stored id_ name_ namespace directory = record {
  id = pos id_;
  record_id_guess = id_;
  offset = 0;
  parent_ref = 5;
  name = name_;
  name_namespace = pos namespace;
  flags = 0;
  allocated_size = 0;
  real_size = 0;
  is_directory = directory;
}

abbrev root_children : List StoredRecord
root_children =
    stored 9 (b'a' ∷ b'/' ∷ b'b' ∷ []) 1 false
    ∷ stored 9 (b'A' ∷ []) 2 false
    ∷ stored 5 (b'.' ∷ []) 3 true
    ∷ []

abbrev index : ℕ → Result (List StoredRecord)
index id = ok (if id == 5 then root_children else [])

index-Settles : (id : ℕ) → Settles (All (λ child. child.record_id_guess < 2 ^ 64)) (index id)
index-Settles id = settled (bounded (id == 5))
  where
    bounded :
        (b : Bool) → All (λ child. child.record_id_guess < 2 ^ 64) (if b then root_children else [])
    bounded true = omega arith
    bounded false = tt

-- The DOS name is dropped, the directory comes first, and it is entered once.
collect_tree_runs :
    collect_tree index sort_children 5 [] nothing_collected
    ≡ ok (record {
      items =
          record { record_ = stored 5 (b'.' ∷ []) 3 true; relative_path = (b'_' ∷ []) ∷ [] }
          ∷ record {
            record_ = stored 9 (b'a' ∷ b'/' ∷ b'b' ∷ []) 1 false;
            relative_path = (b'a' ∷ b'_' ∷ b'b' ∷ []) ∷ [];
          }
          ∷ [];
      visited_dirs = 5 ∷ [];
      collisions = (b'a' ∷ b'_' ∷ b'b' ∷ []) ∷ (b'_' ∷ []) ∷ [];
    })
unfolding collect_tree insertion_sort insert_sorted collect_tree_loop collect_children
    dedup_children by_record_and_name keep_better long_names child_before collect_child add
    collision_key lexically_normal sanitize_name sanitize_characters
collect_tree_runs = refl

collect_tree-IsCollected_example :
    Settles
      (IsCollected index sort_children 5)
      (collect_tree index sort_children 5 [] nothing_collected)
collect_tree-IsCollected_example =
    collect_tree-IsCollected index sort_children 5 index-Settles sort_children-IsArrangement
      (omega arith)

abbrev upper : List ℕ
upper = sanitize_name (b'N' ∷ b'/' ∷ b'T' ∷ [])

abbrev lower : List ℕ
lower = sanitize_name (b'n' ∷ b'_' ∷ b'T' ∷ [])

collision_key-same_path_example :
    (collision_key (upper ∷ []) ≡ collision_key (lower ∷ []))
    ↔ (fold (upper ∷ []) ≡ fold (lower ∷ []))
collision_key-same_path_example =
    collision_key-same_path (upper ∷ []) (lower ∷ []) (sanitize_name-IsSafeName _, tt)
      (sanitize_name-IsSafeName _, tt)

dedup_children-IsDedup_example : IsDedup root_children (dedup_children sort_children root_children)
dedup_children-IsDedup_example =
    dedup_children-IsDedup sort_children root_children sort_children-IsArrangement
