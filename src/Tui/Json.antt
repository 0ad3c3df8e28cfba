-- ===== src/Tui/Json.antt =====
-- src/Tui.cpp: the fields and objects that are read from the output of `lsblk`. A position in a text is
-- the rest of the text from it on.
pub mod Field
use just_give_my_disk.Common.{
  ℕ, zero, suc, ◌+◌, ◌-◌, Bool, true, false, ◌&&◌, Option, none, some, List, [], ◌∷◌, ◌++◌, leb,
  ◌==◌, if◌then◌else◌,
}
use just_give_my_disk.Common.Bytes.{slice}

-- The rest behind a prefix.
unfoldable pub strip_prefix : List ℕ → List ℕ → Option (List ℕ)
strip_prefix [] text = some text
strip_prefix (p ∷ prefix) [] = none
strip_prefix (p ∷ prefix) (c ∷ text) =
    let rest = strip_prefix prefix text in if p == c then rest else none

-- The rest behind the first occurrence, as `find` gives it.
unfoldable pub find_after : List ℕ → List ℕ → Option (List ℕ)
find_after marker [] = strip_prefix marker []
find_after marker (c ∷ text) = elim (strip_prefix marker (c ∷ text)) [
  | some rest ↦ some rest
  | none ↦ find_after marker text
]

-- The key in quotation marks, and a colon.
abbrev pub marker_of : List ℕ → List ℕ
marker_of key = b'"' ∷ (key ++ b'"' ∷ b':' ∷ [])

unfoldable pub skip_spaces : List ℕ → List ℕ
skip_spaces [] = []
skip_spaces (c ∷ text) = let rest = skip_spaces text in if c == b' ' then rest else c ∷ text

-- The loop over the characters of a string.
unfoldable pub string_loop : Bool → List ℕ → List ℕ → Option (List ℕ)
string_loop escaped result [] = none
string_loop true result (ch ∷ text) = string_loop false (result ++ ch ∷ []) text
string_loop false result (ch ∷ text) =
    let behind_escape = string_loop true result text in
    let behind = string_loop false (result ++ ch ∷ []) text in
    if ch == b'\\' then behind_escape else if ch == b'"' then some result else behind

abbrev pub null : List ℕ
null = b'n' ∷ b'u' ∷ b'l' ∷ b'l' ∷ []

-- The value behind the spaces: no text where it is null.
abbrev pub quoted : List ℕ → Option (List ℕ)
quoted [] = none
quoted (c ∷ text) = if c == b'"' then string_loop false [] text else none

abbrev pub string_value : List ℕ → Option (List ℕ)
string_value text = elim (strip_prefix null text) [ some rest ↦ some [] | none ↦ quoted text ]

abbrev pub value_behind : Option (List ℕ) → Option (List ℕ)
value_behind none = none
value_behind (some rest) = string_value (skip_spaces rest)

unfoldable pub json_string_field : List ℕ → List ℕ → Option (List ℕ)
json_string_field object key = value_behind (find_after (marker_of key) object)

unfoldable pub digits : List ℕ → List ℕ
digits [] = []
digits (c ∷ text) = let rest = digits text in if leb b'0' c && leb c b'9' then c ∷ rest else []

abbrev pub not_empty : List ℕ → Option (List ℕ)
not_empty [] = none
not_empty (c ∷ text) = some (c ∷ text)

unfoldable pub json_number_field : List ℕ → List ℕ → Option (List ℕ)
json_number_field object key = elim (find_after (marker_of key) object) [
  | none ↦ none
  | some rest ↦ not_empty (digits (skip_spaces rest))
]

-- The loop of `json_objects`, at position `i`: the states of the reader outside a string, in one, and
-- behind an escape in one; `starts` are the positions of the open braces, the last one first.
pub data Mode : Type 0 where
  outside in_string escaped : Mode

-- The objects that a closing brace ends.
abbrev pub closed : List ℕ → ℕ → List ℕ → List (List ℕ)
closed json i [] = []
closed json i (start ∷ starts) = slice json start (i - start + 1) ∷ []

abbrev pub pop : List ℕ → List ℕ
pop [] = []
pop (start ∷ starts) = starts

unfoldable pub objects_loop : List ℕ → ℕ → Mode → List ℕ → List ℕ → List (List ℕ)
objects_loop json i mode starts [] = []
objects_loop json i escaped starts (ch ∷ text) = objects_loop json (i + 1) in_string starts text
objects_loop json i in_string starts (ch ∷ text) =
    objects_loop json (i + 1)
      (if ch == b'\\' then escaped else if ch == b'"' then outside else in_string) starts text
objects_loop json i outside starts (ch ∷ text) =
    (if ch == b'}' then closed json i starts else [])
    ++ objects_loop json (i + 1) (if ch == b'"' then in_string else outside)
        (if ch == b'{' then i ∷ starts else if ch == b'}' then pop starts else starts) text

unfoldable pub json_objects : List ℕ → List (List ℕ)
json_objects json = objects_loop json 0 outside [] json
