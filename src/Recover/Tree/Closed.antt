-- ===== src/Recover/Tree/Closed.antt =====
-- What `collect_tree` has collected when it returns.
use mathlib.Core.Bool.{false≢true}
use mathlib.Core.List.{Memᴰ}
use just_give_my_disk.Common.{
  ℕ, zero, suc, ◌+◌, ◌^◌, ◌<◌, ◌≡◌, refl, sym, ◌∙◌, subst, true, false, List, [], ◌∷◌, ◌++◌, All,
  arith, Bool-cases, inl, inr,
}
use just_give_my_disk.Database.{StoredRecord}
use just_give_my_disk.Output.Result.{
  Result, ok, Settles, settled, Settles-bind, Settles-weaken, Settles-elim,
}
use just_give_my_disk.Output.Sanitize.{IsSafeName}
use just_give_my_disk.Output.Collisions.{RelativePath, Entries, collision_key}
use just_give_my_disk.Recover.Tree.{
  RecoverItem, Collected, Visit, contains_id, child_path, enter, collect_child, collect_children,
  collect_tree_loop, collect_tree, dedup_children, mark_visited, nothing_collected,
}
use just_give_my_disk.Recover.Tree.Visits.{
  Within, Within-cons, contains_id-head, unvisited, unvisited-cons, unvisited-Within, unvisited-lt,
  IsArrangement, dedup_children-All,
}
use just_give_my_disk.Recover.Tree.Apart.{
  AllApart, IsTracked, IsSound, IsSound-append, add-Settles, item_of, child_path-safe,
}

Memᴰ-append : {x : RecoverItem} (xs ys : List RecoverItem) → Memᴰ x xs → Memᴰ x (xs ++ ys)
Memᴰ-append [] ys m = elim m [ ]
Memᴰ-append (y ∷ xs) ys (Memᴰ.head e) = Memᴰ.head e
Memᴰ-append (y ∷ xs) ys (Memᴰ.tail m) = Memᴰ.tail (Memᴰ-append xs ys m)

Memᴰ-last : (xs : List RecoverItem) (x : RecoverItem) → Memᴰ x (xs ++ x ∷ [])
Memᴰ-last [] x = Memᴰ.head refl
Memᴰ-last (y ∷ xs) x = Memᴰ.tail (Memᴰ-last xs x)

-- The child is an item below `base`; if it is a directory, it was visited.
abbrev pub HasItem : Collected → RelativePath → StoredRecord → Type 0
HasItem s base child =
    Memᴰ (item_of base child) s.items
    × (child.is_directory ≡ true → contains_id s.visited_dirs child.record_id_guess ≡ true)

only_head :
    (id i : ℕ) (visited : List ℕ)
    → contains_id (id ∷ visited) i ≡ true
    → contains_id visited i ≡ false
    → id ≡ i
only_head id i visited h f = ground arith

-- The state behind `items.push_back`.
abbrev added : RelativePath → StoredRecord → Collected → Collected
added base child s = record {
  items = s.items ++ item_of base child ∷ [];
  visited_dirs = s.visited_dirs;
  collisions = collision_key (child_path base child) ∷ s.collisions;
}

module _ (children_of : ℕ → Result (List StoredRecord))
    (arrange : List StoredRecord → List StoredRecord) where
  -- A directory all of whose children, as `dedup_children` leaves them, are items.
  pub record IsEntered (s : Collected) (id : ℕ) : Type 0 where
    pub base : RelativePath
    pub children : List StoredRecord
    pub queried : children_of id ≡ ok children
    pub entered : All (HasItem s base) (dedup_children arrange children)

  -- From `s` to `s'`: nothing is lost, and every directory that was visited meanwhile is entered.
  record Visits (s s' : Collected) : Type 0 where
    items_kept : (item : RecoverItem) → Memᴰ item s.items → Memᴰ item s'.items
    visited_kept : Within s.visited_dirs s'.visited_dirs
    sound : IsSound s'
    all_entered :
        (id : ℕ)
        → contains_id s'.visited_dirs id ≡ true
        → contains_id s.visited_dirs id ≡ false
        → IsEntered s' id

  HasItem-kept :
      {s s' : Collected} (base : RelativePath) (child : StoredRecord)
      → Visits s s'
      → HasItem s base child
      → HasItem s' base child
  HasItem-kept base child v h = (v.items_kept _ h.0, λ d. v.visited_kept _ (h.1 d))

  HasItems-kept :
      {s s' : Collected} (base : RelativePath) (children : List StoredRecord)
      → Visits s s'
      → All (HasItem s base) children
      → All (HasItem s' base) children
  HasItems-kept base [] v h = tt
  HasItems-kept base (child ∷ children) v h =
      (HasItem-kept base child v h.0, HasItems-kept base children v h.1)

  IsEntered-kept : {s s' : Collected} (id : ℕ) → Visits s s' → IsEntered s id → IsEntered s' id
  IsEntered-kept id v e = record {
    base = e.base;
    children = e.children;
    queried = e.queried;
    entered = HasItems-kept e.base _ v e.entered;
  }

  Visits-trans : {s t u : Collected} → Visits s t → Visits t u → Visits s u
  Visits-trans {s} {t} {u} v w = record {
    items_kept = λ item m. w.items_kept item (v.items_kept item m);
    visited_kept = λ id h. w.visited_kept id (v.visited_kept id h);
    sound = w.sound;
    all_entered = λ id h f. elim (Bool-cases (contains_id t.visited_dirs id)) [
      | inl b ↦ IsEntered-kept id w (v.all_entered id b f)
      | inr b ↦ w.all_entered id h b
    ];
  }

  Visits-refl : (s : Collected) → IsSound s → Visits s s
  Visits-refl s h = record {
    items_kept = λ item m. m;
    visited_kept = λ id h. h;
    sound = h;
    all_entered = λ id h f. absurd (false≢true (sym f ∙ h));
  }

  module _ (bound : ℕ) where
    -- A visit that is given enough fuel for the numbers that are left.
    abbrev IsVisit : Visit → ℕ → Type 0
    IsVisit visit limit =
        (id : ℕ) (base : RelativePath) (s : Collected)
        → id < bound
        → All IsSafeName base
        → IsSound s
        → unvisited bound s.visited_dirs < limit
        → Settles (λ s'. Visits s s' × (contains_id s'.visited_dirs id ≡ true)) (visit id base s)

    added-Visits :
        (base : RelativePath) (child : StoredRecord) (s : Collected)
        → IsSound (added base child s)
        → Visits s (added base child s)
    added-Visits base child s sound = record {
      items_kept = λ item m. Memᴰ-append s.items _ m;
      visited_kept = λ id h. h;
      sound = sound;
      all_entered = λ id h f. absurd (false≢true (sym f ∙ h));
    }

    enter-Settles :
        (visit : Visit) (limit : ℕ) (base : RelativePath) (child : StoredRecord) (s : Collected)
        → IsVisit visit limit
        → child.record_id_guess < bound
        → All IsSafeName base
        → IsSound (added base child s)
        → unvisited bound s.visited_dirs < limit
        → Settles
            (λ s'. Visits s s' × HasItem s' base child)
            (enter visit child
              (child_path base child)
              s
              (collision_key (child_path base child) ∷ s.collisions))
    enter-Settles visit limit base child s v i safe sound l =
        Settles-elim child.is_directory
          (λ _.
            Settles-weaken
              (v child.record_id_guess (child_path base child) (added base child s) i
                (child_path-safe base child safe) sound l)
              (λ s' h. (
                Visits-trans (added-Visits base child s sound) h.0,
                ((h.0).items_kept _ (Memᴰ-last s.items _), λ d. h.1),
              )))
          (λ f. settled (
            added-Visits base child s sound,
            (Memᴰ-last s.items _, λ d. absurd (false≢true (sym f ∙ d))),
          ))

    collect_child-Settles :
        (visit : Visit) (limit : ℕ) (base : RelativePath) (child : StoredRecord) (s : Collected)
        → IsVisit visit limit
        → child.record_id_guess < bound
        → All IsSafeName base
        → IsSound s
        → unvisited bound s.visited_dirs < limit
        → Settles (λ s'. Visits s s' × HasItem s' base child) (collect_child visit base child s)
    unfolding collect_child
    collect_child-Settles visit limit base child s v i safe sound l =
        Settles-bind (add-Settles s.collisions (child_path base child)) (λ entries _ h. rw h.1 (
          enter-Settles visit limit base child s v i safe
            (IsSound-append s base child safe h.0 sound) l))

    collect_children-Settles :
        (visit : Visit) (limit : ℕ) (base : RelativePath) (children : List StoredRecord)
        (s : Collected)
        → IsVisit visit limit
        → All (λ child. child.record_id_guess < bound) children
        → All IsSafeName base
        → IsSound s
        → unvisited bound s.visited_dirs < limit
        → Settles
            (λ s'. Visits s s' × All (HasItem s' base) children)
            (collect_children visit base children s)
    unfolding collect_children
    collect_children-Settles visit limit base [] s v i safe sound l =
        settled (Visits-refl s sound, tt)
    collect_children-Settles visit limit base (child ∷ children) s v i safe sound l =
        Settles-bind (collect_child-Settles visit limit base child s v i.0 safe sound l) (λ t _ h.
          let less = unvisited-Within bound s.visited_dirs t.visited_dirs (h.0).visited_kept in
          Settles-weaken
            (collect_children-Settles visit limit base children t v i.1 safe (h.0).sound
              (omega (arith, less, l)))
            (λ u k. (Visits-trans h.0 k.0, (HasItem-kept base child k.0 h.1, k.1))))

    -- What a visit leaves: the directory itself was not visited, and is entered now.
    mark_visited-Visits :
        (id : ℕ) (base : RelativePath) (children : List StoredRecord) (s s' : Collected)
        → children_of id ≡ ok children
        → Visits (mark_visited id s) s'
        → All (HasItem s' base) (dedup_children arrange children)
        → Visits s s'
    mark_visited-Visits id base children s s' q v h = record {
      items_kept = v.items_kept;
      visited_kept = λ i k. v.visited_kept i (Within-cons id s.visited_dirs i k);
      sound = v.sound;
      all_entered = λ i k f. elim (Bool-cases (contains_id (id ∷ s.visited_dirs) i)) [
        | inr g ↦ v.all_entered i k g
        | inl t ↦
            let e : id ≡ i = only_head id i s.visited_dirs t f in
            subst (IsEntered s') e
              (record { base = base; children = children; queried = q; entered = h })
      ];
    }

    module _ (a : IsArrangement arrange)
        (q : (id : ℕ)
          → Settles (All (λ child. child.record_id_guess < bound)) (children_of id)) where
      collect_tree_loop-IsVisit :
          (fuel : ℕ) → IsVisit (collect_tree_loop children_of arrange fuel) fuel
      unfolding collect_tree_loop
      collect_tree_loop-IsVisit zero id base s i safe sound l = elim l [ ]
      collect_tree_loop-IsVisit (suc fuel) id base s i safe sound l =
          Settles-elim (contains_id s.visited_dirs id) (λ t. settled (Visits-refl s sound, t))
            (λ f.
              let less = unvisited-cons bound id s.visited_dirs i f in
              Settles-bind (q id) (λ children e h.
                Settles-weaken
                  (collect_children-Settles (collect_tree_loop children_of arrange fuel) fuel base
                    (dedup_children arrange children) (mark_visited id s)
                    (collect_tree_loop-IsVisit fuel) (dedup_children-All _ arrange a children h)
                    safe (record { tracked = sound.tracked; apart = sound.apart })
                    (omega (arith, less, l)))
                  (λ s' k. (
                    mark_visited-Visits id base children s s' e k.0 k.1,
                    (k.0).visited_kept id (contains_id-head id s.visited_dirs),
                  ))))

-- What was collected from the directory `root`.
pub record IsCollected (children_of : ℕ → Result (List StoredRecord))
    (arrange : List StoredRecord → List StoredRecord) (root : ℕ) (s : Collected) : Type 0 where
  -- every path stays below the destination
  pub safe : All (λ item. All IsSafeName item.relative_path) s.items
  -- no two items have the same path, up to the case of ASCII letters
  pub apart : AllApart s.items
  -- the root was visited, every visited directory has all its children among the items, and every
  -- directory among these was visited
  pub root_visited : contains_id s.visited_dirs root ≡ true
  pub closed : (id : ℕ) → contains_id s.visited_dirs id ≡ true → IsEntered children_of arrange s id

tracked-safe :
    (entries : Entries) (items : List RecoverItem)
    → All (IsTracked entries) items
    → All (λ item. All IsSafeName item.relative_path) items
tracked-safe entries [] h = tt
tracked-safe entries (x ∷ xs) h = ((h.0).0, tracked-safe entries xs h.1)

-- If the query of the children ends, in records of 64-bit numbers or an exception, then so does
-- `collect_tree`, from whatever root, also where directories are their own descendants. What it
-- returns holds the whole tree: the children of every visited directory, as `dedup_children` leaves
-- them, and the directories among them visited. Every path has safe names only, and no two items
-- have the same path, up to the case of ASCII letters.
pub collect_tree-IsCollected :
    (children_of : ℕ → Result (List StoredRecord)) (arrange : List StoredRecord → List StoredRecord)
    (root : ℕ)
    → ((id : ℕ) → Settles (All (λ child. child.record_id_guess < 2 ^ 64)) (children_of id))
    → IsArrangement arrange
    → root < 2 ^ 64
    → Settles
        (IsCollected children_of arrange root)
        (collect_tree children_of arrange root [] nothing_collected)
unfolding collect_tree
collect_tree-IsCollected children_of arrange root q a h =
    Settles-weaken
      (collect_tree_loop-IsVisit children_of arrange (2 ^ 64) a q (2 ^ 64 + 1) root []
        nothing_collected h tt (record { tracked = tt; apart = tt }) (unvisited-lt (2 ^ 64) []))
      (λ s k. record {
        safe = tracked-safe s.collisions s.items ((k.0).sound).tracked;
        apart = ((k.0).sound).apart;
        root_visited = k.1;
        closed = λ id v. (k.0).all_entered id v refl;
      })
