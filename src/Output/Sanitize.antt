-- ===== src/Output/Sanitize.antt =====
-- src/RecoveryOutput.cpp: `sanitize_name`, which makes a recovered name one component of a path.
use mathlib.Core.Bool.{false≢true}
use just_give_my_disk.Common.{
  ℕ, ◌≤◌, ◌≡◌, ◌≢◌, refl, sym, ◌∙◌, ap, ==_iff, Bool, true, false, ◌&&◌, ◌||◌, List, [], ◌∷◌, All,
  ltb, ◌==◌, if◌then◌else◌, arith, Bool-cases, inl, inr,
}

abbrev pub sanitize_character : ℕ → ℕ
sanitize_character character =
    if character == b'/' || character == b'\\' || ltb character 0x20 then b'_' else character

-- The loop over the characters of `name`.
unfoldable pub sanitize_characters : List ℕ → List ℕ
sanitize_characters [] = []
sanitize_characters (c ∷ cs) = sanitize_character c ∷ sanitize_characters cs

-- `name.empty() || name == "." || name == ".."`
abbrev pub is_reserved : List ℕ → Bool
is_reserved [] = true
is_reserved (a ∷ []) = a == b'.'
is_reserved (a ∷ b ∷ []) = a == b'.' && b == b'.'
is_reserved (a ∷ b ∷ c ∷ cs) = false

unfoldable pub sanitize_name : List ℕ → List ℕ
sanitize_name name =
    let name' = sanitize_characters name in if is_reserved name' then b'_' ∷ [] else name'

-- A character that separates no components and is no control character.
abbrev pub IsSafe : ℕ → Type 0
IsSafe c = (c ≢ b'/') × (c ≢ b'\\') × (0x20 ≤ c)

-- A name of one component that is neither the directory nor its parent.
pub record IsSafeName (name : List ℕ) : Type 0 where
  pub safe : All IsSafe name
  pub not_empty : name ≢ []
  pub not_dot : name ≢ b'.' ∷ []
  pub not_dots : name ≢ b'.' ∷ b'.' ∷ []

sanitize_character-IsSafe : (c : ℕ) → IsSafe (sanitize_character c)
sanitize_character-IsSafe c = ground arith

sanitize_characters-IsSafe : (cs : List ℕ) → All IsSafe (sanitize_characters cs)
unfolding sanitize_characters
sanitize_characters-IsSafe [] = tt
sanitize_characters-IsSafe (c ∷ cs) = (sanitize_character-IsSafe c, sanitize_characters-IsSafe cs)

not_reserved : (name : List ℕ) → is_reserved name ≡ false → All IsSafe name → IsSafeName name
not_reserved name f h = record {
  safe = h;
  not_empty = clash [] refl;
  not_dot = clash (b'.' ∷ []) refl;
  not_dots = clash (b'.' ∷ b'.' ∷ []) refl;
}
  where
    clash : (n : List ℕ) → is_reserved n ≡ true → name ≢ n
    clash n t e = absurd (false≢true (sym (sym t ∙ ap is_reserved (sym e) ∙ f)))

underscore-IsSafeName : IsSafeName (b'_' ∷ [])
underscore-IsSafeName = not_reserved (b'_' ∷ []) refl (omega arith)

-- Whatever the name is, the result is a safe component of a path: it is neither empty, "." nor "..",
-- and it holds no separator and no control character.
pub sanitize_name-IsSafeName : (name : List ℕ) → IsSafeName (sanitize_name name)
unfolding sanitize_name
sanitize_name-IsSafeName name = elim (Bool-cases (is_reserved (sanitize_characters name))) [
  | inl t ↦ rw t underscore-IsSafeName
  | inr f ↦ rw f (not_reserved (sanitize_characters name) f (sanitize_characters-IsSafe name))
]

sanitize_character-eq : (c : ℕ) → IsSafe c → sanitize_character c ≡ c
sanitize_character-eq c h = ground arith

sanitize_characters-eq : (cs : List ℕ) → All IsSafe cs → sanitize_characters cs ≡ cs
unfolding sanitize_characters
sanitize_characters-eq [] h = refl
sanitize_characters-eq (c ∷ cs) h =
    rw (sanitize_character-eq c h.0, sanitize_characters-eq cs h.1) refl

safe-not_reserved : (name : List ℕ) → IsSafeName name → is_reserved name ≡ false
safe-not_reserved [] h = absurd (h.not_empty refl)
safe-not_reserved (a ∷ []) h = elim (Bool-cases (a == b'.')) [
  | inl t ↦ absurd (h.not_dot (ap (λ c. c ∷ []) ((==_iff a b'.').0 t)))
  | inr f ↦ f
]
safe-not_reserved (a ∷ b ∷ []) h = elim (Bool-cases (a == b'.')) [
  | inr f ↦ rw f refl
  | inl t ↦ elim (Bool-cases (b == b'.')) [
    | inr g ↦ rw (t, g) refl
    | inl u ↦ absurd (h.not_dots (rw ((==_iff a b'.').0 t, (==_iff b b'.').0 u) refl))
  ]
]
safe-not_reserved (a ∷ b ∷ c ∷ cs) h = refl

-- A name that is a safe component already is kept as it is.
sanitize_name-eq : (name : List ℕ) → IsSafeName name → sanitize_name name ≡ name
unfolding sanitize_name
sanitize_name-eq name h = rw (sanitize_characters-eq name h.safe, safe-not_reserved name h) refl

-- Whatever the name is, the result of `sanitize_name` is a safe component of a path: it is neither empty,
-- "." nor "..", and it holds no separator and no control character below 0x20. Sanitizing it once more
-- changes nothing.
pub sanitize_name_lem :
    (name : List ℕ)
    → IsSafeName (sanitize_name name) × (sanitize_name (sanitize_name name) ≡ sanitize_name name)
sanitize_name_lem name =
    let safe = sanitize_name-IsSafeName name in (safe, sanitize_name-eq (sanitize_name name) safe)
