-- ===== src/Recover/Directories.antt =====
-- src/Recover.cpp: `ensure_safe_directory`. The directories are made by calls of their own, beside those
-- of the outputs. The validation asks the host anew behind every call.
pub mod Made
use just_give_my_disk.Common.{ℕ, Bool, true, false, List, [], ◌∷◌, ◌++◌, ◌==◌, if◌then◌else◌}
use just_give_my_disk.Output.Posix.{Posix, Errno, errno, enoent, Call, success, failure}
use just_give_my_disk.Output.Result.{Result, ok, throw, bind, and_then}
use just_give_my_disk.PathSafety.{Components, Host, Source, validate_destination_path}

-- What `lstat` tells of a file's type.
pub data FileMode : Type 0 where
  link directory plain : FileMode

-- The calls, and what the host answers in a world.
pub record Directories (P : Posix) : Type 0 where
  pub lstat_mode : List ℕ → P.World → Call FileMode × P.World
  pub mkdir : List ℕ → P.World → Call (Unit {0}) × P.World
  pub host : P.World → Host

-- The bytes of a path from the root on, without its separator at the end.
abbrev pub absolute : Components → List ℕ
absolute [] = []
absolute (component ∷ components) = absolute components ++ b'/' ∷ component

-- The bytes of a path.
abbrev pub path_text : Components → List ℕ
path_text [] = b'/' ∷ []
path_text (component ∷ components) = absolute (component ∷ components)

abbrev pub is_eexist : Errno → Bool
is_eexist (errno n) = n == 17
is_eexist _ = false

module _ (P : Posix) (D : Directories P) (source : Source) where
  open P use {World}
  open D use {lstat_mode, mkdir, host}

  -- The tests behind `lstat`.
  abbrev pub check_mode : List ℕ → FileMode → World → Result (Unit {0}) × World
  check_mode current link w = (throw, w)
  check_mode current plain w = (throw, w)
  check_mode current directory w =
      (bind (validate_destination_path (host w) source current) (λ _. ok tt), w)

  -- The second `lstat`, behind `mkdir`.
  abbrev pub created : List ℕ → Call FileMode × World → Result (Unit {0}) × World
  created current (success mode, w) = check_mode current mode w
  created current (failure e, w) = (throw, w)

  abbrev pub made : List ℕ → Call (Unit {0}) × World → Result (Unit {0}) × World
  made current (success _, w) = created current (lstat_mode current w)
  made current (failure e, w) = elim (is_eexist e) [
    | true ↦ created current (lstat_mode current w)
    | false ↦ (throw, w)
  ]

  abbrev pub inspect_component : List ℕ → Call FileMode × World → Result (Unit {0}) × World
  inspect_component current (success mode, w) = check_mode current mode w
  inspect_component current (failure enoent, w) = made current (mkdir current w)
  inspect_component current (failure e, w) = (throw, w)

  -- The loop over the components, from the root on.
  unfoldable pub ensure_safe_directory : Components → World → Result (Unit {0}) × World
  ensure_safe_directory [] w = (ok tt, w)
  ensure_safe_directory (component ∷ components) w =
      and_then (ensure_safe_directory components w) (λ _ v.
        inspect_component (absolute (component ∷ components))
          (lstat_mode (absolute (component ∷ components)) v))
