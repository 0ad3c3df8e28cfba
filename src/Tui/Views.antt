-- ===== src/Tui/Views.antt =====
-- src/Tui.cpp: `append_log`, and the texts that show records, as the records of their lines.
pub mod Chain
pub mod Parts
pub mod Preview
use just_give_my_disk.Common.{
  ℕ, zero, suc, ◌+◌, ◌-◌, ◌^◌, Bool, true, false, ◌||◌, Option, none, some, List, [], ◌∷◌, ◌++◌,
  length, drop, ltb, ◌==◌, if◌then◌else◌,
}
use just_give_my_disk.Database.{StoredRecord}
use just_give_my_disk.Output.Result.{Result, ok, throw, stuck, bind}
use just_give_my_disk.Recover.Tree.{contains_id}

abbrev pub max_logs : ℕ
max_logs = 200

-- `append_log`: a message more; the oldest ones are dropped.
unfoldable pub append_log {ℓ} : {A : Type ℓ} → List A → A → List A
append_log logs message =
    let logs' = logs ++ message ∷ [] in
    if ltb max_logs (length logs') then drop (length logs' - max_logs) logs' else logs'

-- The lines of `parent_chain`: a record, or the number of a parent that is not in the index.
pub data ChainLine : Type 0 where
  shown : StoredRecord → ChainLine
  not_found : ℕ → ChainLine

-- The lines of `tree_preview`: a child and the depth of its indentation.
pub record TreeLine : Type 0 where
  pub depth : ℕ
  pub child : StoredRecord

-- The loop's test: the record is at the top, or was visited before.
abbrev pub is_last : List ℕ → StoredRecord → Bool
is_last visited record_ = record_.parent_ref == 0 || contains_id visited record_.record_id_guess

module _ (get_by_record_id : ℕ → Result (Option StoredRecord)) where
  abbrev pub climb :
      (StoredRecord → Result (List ChainLine)) → ℕ → Option StoredRecord → Result (List ChainLine)
  climb again parent_ref none = ok (not_found parent_ref ∷ [])
  climb again parent_ref (some parent) = again parent

  -- The loop of `parent_chain`, on fuel.
  unfoldable pub chain_loop : ℕ → List ℕ → StoredRecord → Result (List ChainLine)
  chain_loop zero visited record_ = stuck
  chain_loop (suc fuel) visited record_ = elim (is_last visited record_) [
    | true ↦ ok (shown record_ ∷ [])
    | false ↦ bind (get_by_record_id record_.parent_ref) (λ parent.
        bind (climb (chain_loop fuel (record_.record_id_guess ∷ visited)) record_.parent_ref parent)
          (λ lines. ok (shown record_ ∷ lines)))
  ]

  -- `parent_chain`: each round visits a record number of 64 bits that was not visited.
  unfoldable pub parent_chain : StoredRecord → Result (List ChainLine)
  parent_chain record_ = chain_loop (2 ^ 64 + 1) [] record_

-- The text so far and `visited`.
abbrev pub Preview : Type 0
Preview = List TreeLine × List ℕ

-- The recursion on a directory, at a depth.
abbrev pub PreviewTree : Type 0
PreviewTree = ℕ → ℕ → List ℕ → Result Preview

-- A child's line, and the lines of its tree.
abbrev pub preview_child : PreviewTree → ℕ → StoredRecord → List ℕ → Result Preview
preview_child again depth child visited =
    let line : TreeLine = record { depth = depth; child = child } in
    elim child.is_directory [
      | false ↦ ok (line ∷ [], visited)
      | true ↦
          bind (again (depth + 1) child.record_id_guess visited)
            (λ below. ok (line ∷ below.0, below.1))
    ]

unfoldable pub preview_children : PreviewTree → ℕ → List StoredRecord → List ℕ → Result Preview
preview_children again depth [] visited = ok ([], visited)
preview_children again depth (child ∷ children) visited =
    bind (preview_child again depth child visited) (λ first.
      bind (preview_children again depth children first.1) (λ rest. ok (first.0 ++ rest.0, rest.1)))

module _ (children_of : ℕ → Result (List StoredRecord)) where
  -- `tree_preview`, on fuel.
  unfoldable pub preview_tree : ℕ → PreviewTree
  preview_tree zero depth parent visited = stuck
  preview_tree (suc fuel) depth parent visited = elim (ltb 6 depth || contains_id visited parent) [
    | true ↦ ok ([], visited)
    | false ↦
        bind (children_of parent)
          (λ children. preview_children (preview_tree fuel) depth children (parent ∷ visited))
  ]

  -- The depth is 7 at most, where nothing is called: a fuel of 8 is enough.
  unfoldable pub tree_preview : ℕ → Result Preview
  tree_preview root = preview_tree 8 0 root []
