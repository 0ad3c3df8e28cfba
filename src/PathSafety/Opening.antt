-- ===== src/PathSafety/Opening.antt =====
-- src/PathSafety.cpp: the life of a `Source`: its constructor, moves and destructor.
pub mod Owned
mod Tests
use just_give_my_disk.Common.{
  ℕ, Bool, true, false, not, ◌&&◌, Option, none, some, List, [], ◌∷◌, if◌then◌else◌,
}
use just_give_my_disk.Output.Posix.{Call, success, failure}
use just_give_my_disk.Output.Result.{Result, ok, throw, and_then, or_throw}
use just_give_my_disk.PathSafety.{
  Components, FileType, regular, block, directory, character, other, Stat, same_opened_object,
}

-- The calls, and the descriptors that are open, the last one first.
pub record Descriptors : Type 1 where
  pub World : Type 0
  pub opened : World → List ℕ
  -- `absolute` and `weakly_canonical`
  pub canonicalize : List ℕ → World → Result Components
  pub stat : Components → World → Call Stat × World
  -- open with O_RDONLY and O_CLOEXEC
  pub open_read : Components → World → Call ℕ × World
  pub fstat : ℕ → World → Call Stat × World
  -- whether `fcntl` with F_GETFL succeeds and tells O_RDONLY
  pub is_read_only : ℕ → World → Bool × World
  pub close : ℕ → World → World

-- The class, with no descriptor where `fd_` is -1.
pub record SourceObject : Type 0 where
  pub fd_ : Option ℕ
  pub canonical_path_ : Components
  pub block_device_ : ℕ
  pub is_block_device_ : Bool

-- `S_ISREG(mode) || S_ISBLK(mode)`
abbrev pub is_readable : FileType → Bool
is_readable regular = true
is_readable block = true
is_readable _ = false

abbrev pub is_block : FileType → Bool
is_block block = true
is_block _ = false

abbrev pub without_fd : SourceObject → SourceObject
without_fd s = record s { fd_ = none }

module _ (D : Descriptors) where
  open D use {World, opened, canonicalize, stat, open_read, fstat, is_read_only, close}

  -- The test of the access mode, and the end of the constructor.
  abbrev pub mode_checked : ℕ → Components → Stat → Bool × World → Result SourceObject × World
  mode_checked fd path after (false, w) = (throw, close fd w)
  mode_checked fd path after (true, w) = (
    ok (record {
      fd_ = some fd;
      canonical_path_ = path;
      block_device_ = after.st_rdev;
      is_block_device_ = is_block after.file_type;
    }),
    w,
  )

  -- What `fstat` tells of the open file.
  abbrev pub opened_checked :
      ℕ → Components → Stat → Call Stat × World → Result SourceObject × World
  opened_checked fd path before (failure e, w) = (throw, close fd w)
  opened_checked fd path before (success after, w) = elim (same_opened_object before after) [
    | true ↦ mode_checked fd path after (is_read_only fd w)
    | false ↦ (throw, close fd w)
  ]

  abbrev pub stat_checked : Components → Call Stat × World → Result SourceObject × World
  stat_checked path (failure e, w) = (throw, w)
  stat_checked path (success before, w) = elim (is_readable before.file_type) [
    | true ↦
        and_then (or_throw (open_read path w)) (λ fd v. opened_checked fd path before (fstat fd v))
    | false ↦ (throw, w)
  ]

  -- The constructor.
  unfoldable pub open_source : List ℕ → World → Result SourceObject × World
  open_source path w = and_then (canonicalize path w, w) (λ c v. stat_checked c (stat c v))

  abbrev pub close_fd : Option ℕ → World → World
  close_fd none w = w
  close_fd (some fd) w = close fd w

  -- The destructor.
  unfoldable pub destroy_source : SourceObject → World → World
  destroy_source s w = close_fd s.fd_ w

  -- The move constructor: the new object, and the other one, whose path has no use any more.
  unfoldable pub move_construct : SourceObject → SourceObject × SourceObject
  move_construct s = (s, without_fd s)

  -- The move assignment, of an object that is not the same one.
  unfoldable pub move_assign :
      SourceObject → SourceObject → World → (SourceObject × SourceObject) × World
  move_assign this s w = ((s, without_fd s), close_fd this.fd_ w)
