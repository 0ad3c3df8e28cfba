-- ===== src/Tui/Views/Preview.antt =====
-- What the preview of a tree shows: the children of every directory that it visits, each visited once.
use mathlib.Core.List.{Memᴰ}
use just_give_my_disk.Common.{
  ℕ, zero, suc, ◌+◌, ◌≤◌, ◌≡◌, sym, refl, true, false, ◌||◌, List, [], ◌∷◌, All, Bool-cases, inl,
  inr, ltb, arith,
}
use just_give_my_disk.Database.{StoredRecord}
use just_give_my_disk.Output.Result.{
  Result, ok, Settles, settled, Settles-bind, Settles-weaken, Settles-elim,
}
use just_give_my_disk.Recover.Tree.{contains_id}
use just_give_my_disk.Recover.Tree.Visits.{Within-cons, contains_id-head}
use just_give_my_disk.Tui.Views.Parts.{
  AreDistinct, All-weaken, All-Memᴰ, Memᴰ-left, Memᴰ-right, line_at, IsVisited, AreShown, IsChild,
  IsPart, nothing-IsPart, IsPart-append, IsPart-cons,
}
use just_give_my_disk.Tui.Views.{
  Preview, PreviewTree, preview_child, preview_children, preview_tree, tree_preview,
}

module _ (children_of : ℕ → Result (List StoredRecord)) where
  abbrev IsTree : ℕ → ℕ → List ℕ → Preview → Type 0
  IsTree depth id visited p =
      IsPart children_of depth visited p × (depth ≤ 6 → contains_id p.1 id ≡ true)

  -- The loop over the children of a directory that was visited.
  module _ (depth : ℕ) (small : depth ≤ 6) (again : PreviewTree)
      (below : (id : ℕ) (visited : List ℕ)
        → Settles (IsTree (depth + 1) id visited) (again (depth + 1) id visited))
      (parent : ℕ) (all : List StoredRecord) (queried : children_of parent ≡ ok all) where
    preview_child-IsPart :
        (child : StoredRecord) (visited : List ℕ)
        → Memᴰ child all
        → contains_id visited parent ≡ true
        → Settles
            (λ p. IsPart children_of depth visited p × Memᴰ (line_at depth child) p.0)
            (preview_child again depth child visited)
    preview_child-IsPart child visited m t =
        let line : IsChild children_of visited (line_at depth child) = record {
          parent = parent;
          children = all;
          was_visited = t;
          queried = queried;
          is_child = m;
        } in
        Settles-elim child.is_directory
          (λ d. Settles-bind (below child.record_id_guess visited) (λ p e h. settled (
            IsPart-cons children_of depth visited p.1 child p.0 small line
                (λ d' s. h.1 (omega (arith, s))) h.0,
            Memᴰ.head refl,
          )))
          (λ f. settled (
            IsPart-cons children_of depth visited visited child [] small line (λ d s. cc (d, f))
                (nothing-IsPart children_of (depth + 1) visited),
            Memᴰ.head refl,
          ))

    preview_children-IsPart :
        (children : List StoredRecord) (visited : List ℕ)
        → All (λ child. Memᴰ child all) children
        → contains_id visited parent ≡ true
        → Settles
            (λ p.
              IsPart children_of depth visited p
              × All (λ child. Memᴰ (line_at depth child) p.0) children)
            (preview_children again depth children visited)
    unfolding preview_children
    preview_children-IsPart [] visited m t = settled (nothing-IsPart children_of depth visited, tt)
    preview_children-IsPart (child ∷ children) visited m t =
        Settles-bind (preview_child-IsPart child visited m.0 t) (λ first e h.
          Settles-bind (preview_children-IsPart children first.1 m.1 ((h.0).grows parent t))
            (λ rest e' k. settled (
              IsPart-append children_of depth visited first.1 rest.1 first.0 rest.0 h.0 k.0,
              (
                Memᴰ-left first.0 rest.0 h.1,
                All-weaken children (λ c. Memᴰ-right first.0 rest.0) k.1,
              ),
            )))

  -- The lines of a directory that is visited now.
  visit-IsTree :
      (depth parent : ℕ) (visited : List ℕ) (children : List StoredRecord) (p : Preview)
      → contains_id visited parent ≡ false
      → children_of parent ≡ ok children
      → IsPart children_of depth (parent ∷ visited) p
      → All (λ child. Memᴰ (line_at depth child) p.0) children
      → IsTree depth parent visited p
  visit-IsTree depth_ parent_ visited children_ p new e h lines = (
    record {
      depths = h.depths;
      grows = λ id t. h.grows id (Within-cons parent_ visited id t);
      once = λ d. h.once (new, d);
      shown = λ id t f. elim (Bool-cases (contains_id (parent_ ∷ visited) id)) [
        | inr f' ↦ h.shown id t f'
        | inl t' ↦
            let same : parent_ ≡ id = ground (arith, t', f) in
            record {
              children = children_;
              depth = depth_;
              queried = rw (sym same) e;
              have_lines = lines;
            }
      ];
      sound = h.sound;
      closed = h.closed;
    },
    λ s. h.grows parent_ (contains_id-head parent_ visited),
  )

  module _ (queried : (id : ℕ) → Settles (λ _. Unit) (children_of id)) where
    preview_tree-IsTree :
        (fuel depth : ℕ)
        → depth + fuel ≡ 8
        → depth ≤ 7
        → (parent : ℕ) (visited : List ℕ)
        → Settles (IsTree depth parent visited) (preview_tree children_of fuel depth parent visited)
    unfolding preview_tree
    preview_tree-IsTree zero depth h l parent visited = absurd (omega (arith, h, l))
    preview_tree-IsTree (suc fuel) depth h l parent visited =
        Settles-elim (ltb 6 depth || contains_id visited parent)
          (λ t. settled (nothing-IsPart children_of depth visited, λ s. ground (arith, t, s)))
          (λ f.
            let small : depth ≤ 6 = ground (arith, f) in
            let new : contains_id visited parent ≡ false = ground (arith, f) in
            Settles-bind (queried parent) (λ children e _.
              Settles-weaken
                (preview_children-IsPart depth small (preview_tree children_of fuel)
                  (preview_tree-IsTree fuel (depth + 1) (omega (arith, h)) (omega (arith, small)))
                  parent children e children (parent ∷ visited) (All-Memᴰ children)
                  (contains_id-head parent visited))
                (λ p k. visit-IsTree depth parent visited children p new e k.0 k.1)))

    -- What the preview of a root shows.
    pub record IsPreview (root : ℕ) (p : Preview) : Type 0 where
      pub depths : All (λ line. line.depth ≤ 6) p.0
      pub root_visited : contains_id p.1 root ≡ true
      pub once : AreDistinct p.1
      pub shown : (id : ℕ) → contains_id p.1 id ≡ true → AreShown children_of p.0 id
      pub sound : All (IsChild children_of p.1) p.0
      pub closed : All (IsVisited p.1) p.0

    -- If the query of the children of every record ends, with records or an exception, then so does
    -- `tree_preview`, also where directories contain each other. When it returns, it has visited the root, and
    -- no directory twice; every child of a directory that it visited has a line, and every line is that of
    -- a child of such a directory, at a depth of 6 at most; and a directory with a line above the depth 6
    -- was visited.
    pub tree_preview-IsPreview :
        (root : ℕ) → Settles (IsPreview root) (tree_preview children_of root)
    unfolding tree_preview
    tree_preview-IsPreview root =
        Settles-weaken (preview_tree-IsTree 8 0 (omega arith) (omega arith) root []) (λ p h.
          record {
            depths = All-weaken p.0 (λ l k. k.1) (h.0).depths;
            root_visited = h.1 (omega arith);
            once = (h.0).once tt;
            shown = λ id t. (h.0).shown id t refl;
            sound = (h.0).sound;
            closed = (h.0).closed;
          })
