-- ===== src/Recover/Directories/Made.antt =====
-- `ensure_safe_directory` ends, and changes no path but those that it makes.
use just_give_my_disk.Common.{ℕ, ◌≡◌, ◌≢◌, ◌<◌, ◌^◌, ◌∙◌, Bool, true, false, List, [], ◌∷◌}
use just_give_my_disk.Output.Posix.{
  Posix, Same, SameBut, errno, enoent, enotdir, eintr, enosys, einval, Call, success, failure,
}
use just_give_my_disk.Output.Result.{
  Result, throw, Settles, settled, thrown, Settles-bind, Ends, ends_ok, ends_throw, Ends-and_then,
}
use just_give_my_disk.PathSafety.{Components, Source}
use just_give_my_disk.PathSafety.Validated.{IsHost, validate_paths-IsValidated}
use just_give_my_disk.Recover.Directories.{
  FileMode, link, directory, plain, Directories, absolute, is_eexist, check_mode, created, made,
  inspect_component, ensure_safe_directory,
}

-- What is documented: `lstat` changes no file, and `mkdir` none but its own. Device numbers have 64 bits.
pub record IsDirectories (P : Posix) (D : Directories P) : Type 0 where
  pub lstat_mode_same : (p : List ℕ) (w : P.World) → Same P w (D.lstat_mode p w).1
  pub mkdir_same : (p : List ℕ) (w : P.World) → SameBut P p w (D.mkdir p w).1
  pub hosts : (w : P.World) → IsHost (D.host w)

-- The path is neither the directory's nor one of those above it.
abbrev pub NotOn : List ℕ → Components → Type 0
NotOn q [] = Unit {0}
NotOn q (c ∷ cs) = (q ≢ absolute (c ∷ cs)) × NotOn q cs

-- The path holds what it held in the first world.
abbrev pub Stays : (P : Posix) → List ℕ → P.World → P.World → Type 0
Stays P q w v = P.node v q ≡ P.node w q

module _ (P : Posix) (D : Directories P) (law : IsDirectories P D) (source : Source)
    (fits : source.block_device < 2 ^ 64) (q : List ℕ) (w : P.World) where
  open P use {World}
  open D use {lstat_mode, mkdir, host}

  abbrev StaysEnds : Result (Unit {0}) × World → Type 0
  StaysEnds m = Ends (λ _ u. Stays P q w u) (Stays P q w) m

  check_mode-StaysEnds :
      (current : List ℕ) (mode : FileMode) (v : World)
      → Stays P q w v
      → StaysEnds (check_mode P D source current mode v)
  check_mode-StaysEnds current link v h = ends_throw h
  check_mode-StaysEnds current plain v h = ends_throw h
  check_mode-StaysEnds current directory v h = unit_Ends (
      Settles-bind (validate_paths-IsValidated (host v) source current (law.hosts v) fits).1
        (λ _ _ _. settled tt))
    where
      unit_Ends : {m : Result (Unit {0})} → Settles (λ _. Unit {0}) m → StaysEnds (m, v)
      unit_Ends (settled _) = ends_ok h
      unit_Ends thrown = ends_throw h

  created-StaysEnds :
      (current : List ℕ) (c : Call FileMode × World)
      → Stays P q w c.1
      → StaysEnds (created P D source current c)
  created-StaysEnds current (success mode, v) h = check_mode-StaysEnds current mode v h
  created-StaysEnds current (failure e, v) h = ends_throw h

  looked : (p : List ℕ) (v : World) → Stays P q w v → Stays P q w (lstat_mode p v).1
  looked p v h = law.lstat_mode_same p v q ∙ h

  made-StaysEnds :
      (current : List ℕ) (c : Call (Unit {0}) × World)
      → Stays P q w c.1
      → StaysEnds (made P D source current c)
  made-StaysEnds current (success _, v) h = created-StaysEnds current _ (looked current v h)
  made-StaysEnds current (failure e, v) h = by_error (is_eexist e)
    where
      by_error :
          (b : Bool)
          → StaysEnds (elim b [
            | true ↦ created P D source current (lstat_mode current v)
            | false ↦ (throw, v)
          ])
      by_error true = created-StaysEnds current _ (looked current v h)
      by_error false = ends_throw h

  inspect_component-StaysEnds :
      (current : List ℕ)
      → q ≢ current
      → (c : Call FileMode × World) → Stays P q w c.1
      → StaysEnds (inspect_component P D source current c)
  inspect_component-StaysEnds current n (success mode, v) h = check_mode-StaysEnds current mode v h
  inspect_component-StaysEnds current n (failure enoent, v) h =
      made-StaysEnds current (mkdir current v) (law.mkdir_same current v q n ∙ h)
  inspect_component-StaysEnds current n (failure enotdir, v) h = ends_throw h
  inspect_component-StaysEnds current n (failure eintr, v) h = ends_throw h
  inspect_component-StaysEnds current n (failure enosys, v) h = ends_throw h
  inspect_component-StaysEnds current n (failure einval, v) h = ends_throw h
  inspect_component-StaysEnds current n (failure (errno e), v) h = ends_throw h

  pub ensure_safe_directory-Stays :
      (cs : Components) (v : World)
      → NotOn q cs
      → Stays P q w v
      → Ends (λ _ u. Stays P q w u) (Stays P q w) (ensure_safe_directory P D source cs v)
  unfolding ensure_safe_directory
  ensure_safe_directory-Stays [] v n h = ends_ok h
  ensure_safe_directory-Stays (c ∷ cs) v n h =
      Ends-and_then (ensure_safe_directory-Stays cs v n.1 h) (λ _ u k.
        inspect_component-StaysEnds (absolute (c ∷ cs)) n.0 _ (looked (absolute (c ∷ cs)) u k))
