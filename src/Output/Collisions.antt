-- ===== src/Output/Collisions.antt =====
-- src/RecoveryOutput.cpp: `collision_key` and `CollisionTracker`. A relative path is the list of its
-- components; the `tolower` is that of the "C" locale, which the program never leaves.
pub mod Keys
use just_give_my_disk.Common.{
  ℕ, ◌+◌, Bool, ◌&&◌, true, false, List, [], ◌∷◌, ◌++◌, map, ltb, leb, if◌then◌else◌,
}
use just_give_my_disk.Common.Strings.{str_eq}
use just_give_my_disk.Output.Result.{Result, ok, throw}

abbrev pub RelativePath : Type 0
RelativePath = List (List ℕ)

abbrev pub tolower : ℕ → ℕ
tolower byte = if leb b'A' byte && leb byte b'Z' then byte + 0x20 else byte

-- The body of the loop over the key's characters.
abbrev pub lower_character : ℕ → ℕ
lower_character byte = if ltb byte 0x80 then tolower byte else byte

abbrev dot : List ℕ
dot = b'.' ∷ []

abbrev dot_dot : List ℕ
dot_dot = b'.' ∷ b'.' ∷ []

-- A parent component removes the component before it, where there is one.
abbrev parent : RelativePath → RelativePath
parent [] = dot_dot ∷ []
parent (last ∷ before) = if str_eq last dot_dot then dot_dot ∷ last ∷ before else before

-- One component more, on the reversed list of those before it.
abbrev pub normal_step : RelativePath → List ℕ → RelativePath
normal_step before name =
    if str_eq name dot then before else if str_eq name dot_dot then parent before else name ∷ before

abbrev pub reverse_onto : RelativePath → RelativePath → RelativePath
reverse_onto [] path = path
reverse_onto (name ∷ before) path = reverse_onto before (name ∷ path)

abbrev pub normal_loop : RelativePath → RelativePath → RelativePath
normal_loop before [] = reverse_onto before []
normal_loop before (name ∷ path) = normal_loop (normal_step before name) path

-- A path that is not empty is normalized to "." where nothing is left of it.
abbrev pub or_dot : RelativePath → RelativePath
or_dot [] = dot ∷ []
or_dot (name ∷ path) = name ∷ path

-- `std::filesystem::path::lexically_normal`, on a relative path without empty components.
unfoldable pub lexically_normal : RelativePath → RelativePath
lexically_normal [] = []
lexically_normal (name ∷ path) = or_dot (normal_loop [] (name ∷ path))

-- `generic_string`
abbrev pub generic_string : RelativePath → List ℕ
generic_string [] = []
generic_string (name ∷ []) = name
generic_string (name ∷ next ∷ path) = name ++ b'/' ∷ generic_string (next ∷ path)

unfoldable pub collision_key : RelativePath → List ℕ
collision_key path = map lower_character (generic_string (lexically_normal path))

-- `entries_`, by their keys: the record number, the original name and the path are in the message only.
abbrev pub Entries : Type 0
Entries = List (List ℕ)

abbrev pub contains : Entries → List ℕ → Bool
contains [] key = false
contains (k ∷ entries) key = let rest = contains entries key in if str_eq k key then true else rest

-- `CollisionTracker::add`
unfoldable pub add : Entries → RelativePath → Result Entries
add entries relative_path =
    let key = collision_key relative_path in
    if contains entries key then throw else ok (key ∷ entries)
