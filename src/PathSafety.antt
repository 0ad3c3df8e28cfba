-- ===== src/PathSafety.antt =====
-- src/PathSafety.cpp: the validation of the paths that the program writes to. A canonical path is the
-- list of its components, the last one first, as `parent_path` takes it off. The files that are looked
-- at do not change meanwhile.
pub mod Devices
pub mod Validated
pub mod Opening
mod Tests
use just_give_my_disk.Common.{
  ℕ, zero, suc, ◌+◌, ◌^◌, ◌≡◌, ◌<◌, Bool, true, false, not, ◌&&◌, ◌||◌, Option, none, some, List,
  [], ◌∷◌, ◌==◌, if◌then◌else◌,
}
use just_give_my_disk.Common.Strings.{str_eq}
use just_give_my_disk.Output.Posix.{Errno, enoent, enotdir, Call, success, failure}
use just_give_my_disk.Output.Result.{Result, ok, throw, stuck, bind}
use just_give_my_disk.Recover.Tree.{contains_id}

-- The file types that the program tells apart.
pub data FileType : Type 0 where
  regular directory block character other : FileType

pub record Stat : Type 0 where
  pub file_type : FileType
  pub st_dev : ℕ
  pub st_ino : ℕ
  pub st_rdev : ℕ

abbrev pub Components : Type 0
Components = List (List ℕ)

-- What the file system and sysfs answer.
pub record Host : Type 0 where
  -- `absolute` and `weakly_canonical`, where both succeed
  pub canonical : List ℕ → Option Components
  pub stat : Components → Call Stat
  pub fstat : ℕ → Call Stat
  -- the canonical path of a device's directory in /sys/dev/block, where there is one
  pub device_directory : ℕ → Option Components
  -- the number in the `dev` file of a directory, where it can be read
  pub device_number : Components → Option ℕ
  -- the canonical paths of the entries of a directory's `slaves`
  pub slaves : Components → List Components

-- The members of the class `Source`.
pub record Source : Type 0 where
  pub fd : ℕ
  pub block_device : ℕ
  pub is_block_device : Bool

abbrev pub is_regular : FileType → Bool
is_regular regular = true
is_regular _ = false

abbrev pub is_directory : FileType → Bool
is_directory directory = true
is_directory _ = false

-- `S_ISBLK(mode) || S_ISCHR(mode)`
abbrev pub is_device : FileType → Bool
is_device block = true
is_device character = true
is_device _ = false

unfoldable pub same_opened_object : Stat → Stat → Bool
same_opened_object lhs rhs =
    if is_device lhs.file_type && is_device rhs.file_type
    then lhs.st_rdev == rhs.st_rdev
    else lhs.st_dev == rhs.st_dev && lhs.st_ino == rhs.st_ino

abbrev pub same_path : Components → Components → Bool
same_path [] [] = true
same_path [] (b ∷ bs) = false
same_path (a ∷ as_) [] = false
same_path (a ∷ as_) (b ∷ bs) = str_eq a b && same_path as_ bs

-- `devices.insert(device)`
abbrev pub insert_device : ℕ → List ℕ → List ℕ
insert_device device devices = if contains_id devices device then devices else device ∷ devices

abbrev pub insert_number : Option ℕ → List ℕ → List ℕ
insert_number none devices = devices
insert_number (some device) devices = insert_device device devices

abbrev pub common_device : List ℕ → List ℕ → Bool
common_device [] storage = false
common_device (device ∷ devices) storage =
    let rest = common_device devices storage in if contains_id storage device then true else rest

-- The tests of the file types: the path itself is of the type that is wanted, an ancestor a directory.
abbrev pub is_usable : (FileType → Bool) → Components → Components × Stat → Bool
is_usable wanted path storage =
    if same_path storage.0 path
    then wanted storage.1.file_type
    else is_directory storage.1.file_type

module _ (H : Host) where
  open H use {canonical, stat, fstat, device_directory, device_number, slaves}

  -- The loop over the directory and those above it, the root included.
  unfoldable pub add_parents : Components → List ℕ → List ℕ
  add_parents [] devices = insert_number (device_number []) devices
  add_parents (name ∷ parent) devices =
      add_parents parent (insert_number (device_number (name ∷ parent)) devices)

  abbrev pub add_slave : (ℕ → List ℕ → Result (List ℕ)) → Option ℕ → List ℕ → Result (List ℕ)
  add_slave again none devices = ok devices
  add_slave again (some device) devices = again device devices

  unfoldable pub add_slaves :
      (ℕ → List ℕ → Result (List ℕ)) → List Components → List ℕ → Result (List ℕ)
  add_slaves again [] devices = ok devices
  add_slaves again (slave ∷ rest) devices =
      bind (add_slave again (device_number slave) devices) (add_slaves again rest)

  abbrev pub add_directory :
      (ℕ → List ℕ → Result (List ℕ)) → Option Components → List ℕ → Result (List ℕ)
  add_directory again none devices = ok devices
  add_directory again (some sys_path) devices =
      add_slaves again (slaves sys_path) (add_parents sys_path devices)

  -- `add_device_relations`, on fuel: the depth of the recursion.
  unfoldable pub relations_loop : ℕ → ℕ → List ℕ → Result (List ℕ)
  relations_loop zero device devices = stuck
  relations_loop (suc fuel) device devices = elim (contains_id devices device) [
    | true ↦ ok devices
    | false ↦ add_directory (relations_loop fuel) (device_directory device) (device ∷ devices)
  ]

  unfoldable pub add_device_relations : ℕ → List ℕ → Result (List ℕ)
  add_device_relations device devices = relations_loop (2 ^ 64 + 1) device devices

  unfoldable pub devices_are_related : ℕ → ℕ → Result Bool
  devices_are_related source storage = elim (source == storage) [
    | true ↦ ok true
    | false ↦ bind (add_device_relations source []) (λ source_relations.
        bind (add_device_relations storage [])
          (λ storage_relations. ok (common_device source_relations storage_relations)))
  ]

  abbrev pub canonicalize : List ℕ → Result Components
  canonicalize [] = throw
  canonicalize (c ∷ path) = elim (canonical (c ∷ path)) [ none ↦ throw | some p ↦ ok p ]

  abbrev pub inspected :
      Components → Result (Components × Stat) → Call Stat → Result (Components × Stat)
  inspected current parent (success info) = ok (current, info)
  inspected current parent (failure enoent) = parent
  inspected current parent (failure enotdir) = parent
  inspected current parent (failure e) = throw

  -- `existing_ancestor`: the root is its own parent.
  unfoldable pub existing_ancestor : Components → Result (Components × Stat)
  existing_ancestor [] = inspected [] throw (stat [])
  existing_ancestor (name ∷ parent) =
      inspected (name ∷ parent) (existing_ancestor parent) (stat (name ∷ parent))

  abbrev pub reject_related : Result Bool → Result (Unit {0})
  reject_related (ok true) = throw
  reject_related (ok false) = ok tt
  reject_related throw = throw
  reject_related stuck = stuck

  unfoldable pub reject_source_storage : Source → Stat → Result (Unit {0})
  reject_source_storage source info = elim source.is_block_device [
    | false ↦ ok tt
    | true ↦ reject_related (devices_are_related source.block_device info.st_dev)
  ]

  abbrev pub compared : Stat → Call Stat → Result (Unit {0})
  compared candidate (success opened_source) =
      if same_opened_object opened_source candidate then throw else ok tt
  compared candidate (failure e) = throw

  abbrev pub candidate_checked : Source → Call Stat → Result (Unit {0})
  candidate_checked source (success candidate) = compared candidate (fstat source.fd)
  candidate_checked source (failure enoent) = ok tt
  candidate_checked source (failure enotdir) = ok tt
  candidate_checked source (failure e) = throw

  unfoldable pub reject_source_alias : Source → Components → Result (Unit {0})
  reject_source_alias source path = candidate_checked source (stat path)

  abbrev pub usable :
      (FileType → Bool) → Source → Components → Components × Stat → Result Components
  usable wanted source path storage =
      if is_usable wanted path storage
      then bind (reject_source_storage source storage.1) (λ _. ok path)
      else throw

  -- Both functions behind their file type.
  unfoldable pub validate : (FileType → Bool) → Source → List ℕ → Result Components
  validate wanted source path = bind (canonicalize path) (λ c.
      bind (reject_source_alias source c)
        (λ _. bind (existing_ancestor c) (usable wanted source c)))

  abbrev pub validate_database_path : Source → List ℕ → Result Components
  validate_database_path source path = validate is_regular source path

  abbrev pub validate_destination_path : Source → List ℕ → Result Components
  validate_destination_path source path = validate is_directory source path
