-- ===== src/Tui/Views/Parts.antt =====
-- What a part of the preview of a tree shows, and how parts make a longer one.
use mathlib.Core.List.{Memᴰ}
use just_give_my_disk.Common.{
  ℕ, ◌+◌, ◌≤◌, ◌<◌, ◌≡◌, refl, true, false, List, [], ◌∷◌, ◌++◌, All, All-append, Bool-cases, inl,
  inr, arith,
}
use just_give_my_disk.Database.{StoredRecord}
use just_give_my_disk.Output.Result.{Result, ok}
use just_give_my_disk.Recover.Tree.{contains_id}
use just_give_my_disk.Recover.Tree.Visits.{Within}
use just_give_my_disk.Tui.Views.{TreeLine, Preview}

-- No number twice.
abbrev pub AreDistinct : List ℕ → Type 0
AreDistinct [] = Unit
AreDistinct (id ∷ ids) = (contains_id ids id ≡ false) × AreDistinct ids

pub All-weaken :
    {A : Type 0} {P Q : A → Type 0} (xs : List A) → ((x : A) → P x → Q x) → All P xs → All Q xs
All-weaken [] f h = tt
All-weaken (x ∷ xs) f h = (f x h.0, All-weaken xs f h.1)

pub All-Memᴰ : {A : Type 0} (xs : List A) → All (λ x. Memᴰ x xs) xs
All-Memᴰ [] = tt
All-Memᴰ (x ∷ xs) = (Memᴰ.head refl, All-weaken xs (λ y m. Memᴰ.tail m) (All-Memᴰ xs))

pub Memᴰ-left : {A : Type 0} {x : A} (xs ys : List A) → Memᴰ x xs → Memᴰ x (xs ++ ys)
Memᴰ-left [] ys m = elim m [ ]
Memᴰ-left (y ∷ xs) ys (Memᴰ.head e) = Memᴰ.head e
Memᴰ-left (y ∷ xs) ys (Memᴰ.tail m) = Memᴰ.tail (Memᴰ-left xs ys m)

pub Memᴰ-right : {A : Type 0} {x : A} (xs ys : List A) → Memᴰ x ys → Memᴰ x (xs ++ ys)
Memᴰ-right [] ys m = m
Memᴰ-right (y ∷ xs) ys m = Memᴰ.tail (Memᴰ-right xs ys m)

abbrev pub line_at : ℕ → StoredRecord → TreeLine
line_at depth_ child_ = record { depth = depth_; child = child_ }

-- A directory that is shown above the last depth was visited.
abbrev pub IsVisited : List ℕ → TreeLine → Type 0
IsVisited visited line =
    line.child.is_directory ≡ true
    → line.depth < 6
    → contains_id visited line.child.record_id_guess ≡ true

module _ (children_of : ℕ → Result (List StoredRecord)) where
  -- All children of the directory have lines, at one depth.
  pub record AreShown (lines : List TreeLine) (id : ℕ) : Type 0 where
    pub children : List StoredRecord
    pub depth : ℕ
    pub queried : children_of id ≡ ok children
    pub have_lines : All (λ child. Memᴰ (line_at depth child) lines) children

  -- The line is that of a child of a directory that was visited.
  pub record IsChild (visited : List ℕ) (line : TreeLine) : Type 0 where
    pub parent : ℕ
    pub children : List StoredRecord
    pub was_visited : contains_id visited parent ≡ true
    pub queried : children_of parent ≡ ok children
    pub is_child : Memᴰ line.child children

  AreShown-weaken :
      {id : ℕ} (lines lines' : List TreeLine)
      → ((line : TreeLine) → Memᴰ line lines → Memᴰ line lines')
      → AreShown lines id
      → AreShown lines' id
  AreShown-weaken lines lines' f h = record {
    children = h.children;
    depth = h.depth;
    queried = h.queried;
    have_lines = All-weaken h.children (λ child m. f _ m) h.have_lines;
  }

  IsChild-weaken :
      (v v' : List ℕ) (line : TreeLine) → Within v v' → IsChild v line → IsChild v' line
  IsChild-weaken v v' line w h = record {
    parent = h.parent;
    children = h.children;
    was_visited = w h.parent h.was_visited;
    queried = h.queried;
    is_child = h.is_child;
  }

  -- What the recursion from a depth adds to the numbers that were visited.
  pub record IsPart (depth : ℕ) (visited : List ℕ) (p : Preview) : Type 0 where
    pub depths : All (λ line. (depth ≤ line.depth) × (line.depth ≤ 6)) p.0
    pub grows : Within visited p.1
    pub once : AreDistinct visited → AreDistinct p.1
    pub shown :
        (id : ℕ) → contains_id p.1 id ≡ true → contains_id visited id ≡ false → AreShown p.0 id
    pub sound : All (IsChild p.1) p.0
    pub closed : All (IsVisited p.1) p.0

  pub nothing-IsPart : (depth : ℕ) (visited : List ℕ) → IsPart depth visited ([], visited)
  nothing-IsPart depth visited = record {
    depths = tt;
    grows = λ id t. t;
    once = λ d. d;
    shown = λ id t f. cc (t, f);
    sound = tt;
    closed = tt;
  }

  pub IsPart-append :
      (depth : ℕ) (v v' v'' : List ℕ) (xs ys : List TreeLine)
      → IsPart depth v (xs, v')
      → IsPart depth v' (ys, v'')
      → IsPart depth v (xs ++ ys, v'')
  IsPart-append depth v v' v'' xs ys h k = record {
    depths = All-append _ xs ys h.depths k.depths;
    grows = λ id t. k.grows id (h.grows id t);
    once = λ d. k.once (h.once d);
    shown = λ id t f. elim (Bool-cases (contains_id v' id)) [
      | inl t' ↦ AreShown-weaken xs (xs ++ ys) (λ l. Memᴰ-left xs ys) (h.shown id t' f)
      | inr f' ↦ AreShown-weaken ys (xs ++ ys) (λ l. Memᴰ-right xs ys) (k.shown id t f')
    ];
    sound =
        All-append _ xs ys (All-weaken xs (λ l. IsChild-weaken v' v'' l k.grows) h.sound) k.sound;
    closed = All-append _ xs ys (All-weaken xs (λ l c d s. k.grows _ (c d s)) h.closed) k.closed;
  }

  pub IsPart-cons :
      (depth : ℕ) (v v' : List ℕ) (child : StoredRecord) (lines : List TreeLine)
      → depth ≤ 6
      → IsChild v (line_at depth child)
      → IsVisited v' (line_at depth child)
      → IsPart (depth + 1) v (lines, v')
      → IsPart depth v (line_at depth child ∷ lines, v')
  IsPart-cons depth v v' child lines small c d h = record {
    depths = ((omega arith, small), All-weaken lines (λ l k. (omega (arith, k.0), k.1)) h.depths);
    grows = h.grows;
    once = h.once;
    shown = λ id t f. AreShown-weaken lines _ (λ l m. Memᴰ.tail m) (h.shown id t f);
    sound = (IsChild-weaken v v' _ h.grows c, h.sound);
    closed = (d, h.closed);
  }
