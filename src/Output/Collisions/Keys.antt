-- ===== src/Output/Collisions/Keys.antt =====
-- When two relative paths have the same collision key.
use just_give_my_disk.Common.{
  ℕ, ◌≡◌, ◌≢◌, ◌↔◌, refl, sym, ap, ◌∙◌, List, [], ◌∷◌, ◌++◌, map, All, ◌==◌, if◌then◌else◌, arith,
}
use just_give_my_disk.Common.Strings.{str_eq-ne}
use just_give_my_disk.Output.Sanitize.{IsSafe, IsSafeName}
use just_give_my_disk.Output.Collisions.{
  RelativePath, lower_character, normal_step, normal_loop, reverse_onto, or_dot, lexically_normal,
  generic_string, collision_key,
}

-- The path up to the case of its ASCII letters.
abbrev pub fold : RelativePath → RelativePath
fold path = map (λ name. map lower_character name) path

normal_step-eq :
    (before : RelativePath) (name : List ℕ)
    → IsSafeName name
    → normal_step before name ≡ name ∷ before
normal_step-eq before name h = rw (str_eq-ne name _ h.not_dot, str_eq-ne name _ h.not_dots) refl

normal_loop-eq :
    (before path : RelativePath)
    → All IsSafeName path
    → normal_loop before path ≡ reverse_onto before path
normal_loop-eq before [] h = refl
normal_loop-eq before (name ∷ path) h =
    rw (normal_step-eq before name h.0) (normal_loop-eq (name ∷ before) path h.1)

-- A path of safe names is normal.
lexically_normal-eq : (path : RelativePath) → All IsSafeName path → lexically_normal path ≡ path
unfolding lexically_normal
lexically_normal-eq [] h = refl
lexically_normal-eq (name ∷ path) h = ap or_dot (normal_loop-eq [] (name ∷ path) h)

map-append :
    (xs ys : List ℕ)
    → map lower_character (xs ++ ys) ≡ map lower_character xs ++ map lower_character ys
map-append [] ys = refl
map-append (x ∷ xs) ys = rw (map-append xs ys) refl

lower-generic_string :
    (path : RelativePath) → map lower_character (generic_string path) ≡ generic_string (fold path)
lower-generic_string [] = refl
lower-generic_string (name ∷ []) = refl
lower-generic_string (name ∷ next ∷ path) =
    rw (map-append name (b'/' ∷ generic_string (next ∷ path)), lower-generic_string (next ∷ path))
      refl

-- The key of a path of safe names is the text of its fold.
pub collision_key-fold :
    (path : RelativePath) → All IsSafeName path → collision_key path ≡ generic_string (fold path)
unfolding collision_key
collision_key-fold path h = rw (lexically_normal-eq path h) (lower-generic_string path)

-- The components of a text.
abbrev on_first : ℕ → RelativePath → RelativePath
on_first c [] = (c ∷ []) ∷ []
on_first c (name ∷ path) = (c ∷ name) ∷ path

abbrev components : List ℕ → RelativePath
components [] = [] ∷ []
components (c ∷ text) =
    let rest = components text in if c == b'/' then [] ∷ rest else on_first c rest

abbrev HasNoSlash : List ℕ → Type 0
HasNoSlash name = All (λ c. c ≢ b'/') name

components-name : (name : List ℕ) → HasNoSlash name → components name ≡ name ∷ []
components-name [] h = refl
components-name (c ∷ name) h = rw (components-name name h.1) (ground (arith, h.0))

components-append :
    (name : List ℕ) (text : List ℕ)
    → HasNoSlash name
    → components (name ++ b'/' ∷ text) ≡ name ∷ components text
components-append [] text h = refl
components-append (c ∷ name) text h = rw (components-append name text h.1) (ground (arith, h.0))

components-generic_string :
    (name : List ℕ) (path : RelativePath)
    → All HasNoSlash (name ∷ path)
    → components (generic_string (name ∷ path)) ≡ name ∷ path
components-generic_string name [] h = components-name name h.0
components-generic_string name (next ∷ path) h =
    components-append name (generic_string (next ∷ path)) h.0
    ∙ ap (λ (p : RelativePath). name ∷ p) (components-generic_string next path h.1)

lower_character-ne : (c : ℕ) → IsSafe c → lower_character c ≢ b'/'
lower_character-ne c h = ground arith

lower-HasNoSlash : (name : List ℕ) → All IsSafe name → HasNoSlash (map lower_character name)
lower-HasNoSlash [] h = tt
lower-HasNoSlash (c ∷ name) h = (lower_character-ne c h.0, lower-HasNoSlash name h.1)

fold-HasNoSlash : (path : RelativePath) → All IsSafeName path → All HasNoSlash (fold path)
fold-HasNoSlash [] h = tt
fold-HasNoSlash (name ∷ path) h = (lower-HasNoSlash name (h.0).safe, fold-HasNoSlash path h.1)

lower_empty : (name : List ℕ) → map lower_character name ≡ [] → name ≡ []
lower_empty [] e = refl
lower_empty (c ∷ name) e = absurd (cc e)

first_empty : (name : List ℕ) (path : RelativePath) → [] ∷ [] ≡ name ∷ path → name ≡ []
first_empty name path e = cc e

-- A path of safe names has an empty text only if it is empty.
text_empty :
    (name : List ℕ) (path : RelativePath)
    → All IsSafeName (name ∷ path)
    → generic_string (fold (name ∷ path)) ≢ []
text_empty name path h e = (h.0).not_empty (
    lower_empty name (
      first_empty _ _
        (sym (ap components e) ∙ components-generic_string _ _ (fold-HasNoSlash (name ∷ path) h))))

text_injective :
    (p q : RelativePath)
    → All IsSafeName p
    → All IsSafeName q
    → generic_string (fold p) ≡ generic_string (fold q)
    → fold p ≡ fold q
text_injective [] [] h k e = refl
text_injective [] (b ∷ q) h k e = absurd (text_empty b q k (sym e))
text_injective (a ∷ p) [] h k e = absurd (text_empty a p h e)
text_injective (a ∷ p) (b ∷ q) h k e =
    sym (components-generic_string _ _ (fold-HasNoSlash (a ∷ p) h))
    ∙ ap components e
    ∙ components-generic_string _ _ (fold-HasNoSlash (b ∷ q) k)

-- Two paths of safe names have the same collision key exactly if they are the same component by
-- component, up to the case of ASCII letters.
pub collision_key-same_path :
    (p q : RelativePath)
    → All IsSafeName p
    → All IsSafeName q
    → (collision_key p ≡ collision_key q) ↔ (fold p ≡ fold q)
collision_key-same_path p q h k = (
  λ e. text_injective p q h k (sym (collision_key-fold p h) ∙ e ∙ collision_key-fold q k),
  λ e. collision_key-fold p h ∙ ap generic_string e ∙ sym (collision_key-fold q k),
)
