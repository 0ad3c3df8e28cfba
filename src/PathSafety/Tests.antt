-- ===== src/PathSafety/Tests.antt =====
-- The validation on a concrete host: a disk of which the source is a partition, and a file system elsewhere.
use just_give_my_disk.Common.{
  ℕ, ◌^◌, ◌<◌, ◌≡◌, refl, ap, true, Option, none, some, [], ◌∷◌, OnSome, arith, ◌==◌, if◌then◌else◌,
}
use just_give_my_disk.Output.Posix.{enoent, Call, success, failure}
use just_give_my_disk.Output.Result.{ok, Settles}
use just_give_my_disk.PathSafety.{
  Host, Source, Stat, FileType, Components, is_regular, is_directory, add_device_relations,
  add_parents, add_slaves, relations_loop, devices_are_related, validate_database_path,
  validate_destination_path,
}
use just_give_my_disk.PathSafety.Validated.{IsHost, IsValidated, validate_paths-IsValidated}

abbrev disk : Components
disk = (b'a' ∷ []) ∷ []

abbrev number_of : Components → Option ℕ
number_of [] = none
number_of (name ∷ []) = some 16
number_of (name ∷ parent ∷ path) = some 17

abbrev stat_of : Components → Call Stat
stat_of [] =
    success (record { file_type = FileType.directory; st_dev = 3; st_ino = 2; st_rdev = 0 })
stat_of (name ∷ path) = failure enoent

abbrev host : Host
host = record {
  canonical = λ path. some (path ∷ []);
  stat = stat_of;
  fstat =
      λ fd. success (record { file_type = FileType.block; st_dev = 5; st_ino = 9; st_rdev = 17 });
  device_directory = λ device. if device == 17 then some ((b'1' ∷ []) ∷ disk) else none;
  device_number = number_of;
  slaves = λ path. [];
}

number_of-lt : (path : Components) → OnSome (λ device. device < 2 ^ 64) (number_of path)
number_of-lt [] = tt
number_of-lt (name ∷ []) = omega arith
number_of-lt (name ∷ parent ∷ path) = omega arith

stat_of-lt : (path : Components) (info : Stat) → stat_of path ≡ success info → info.st_dev < 2 ^ 64
stat_of-lt [] info e = fits (cc e)
  where
    fits :
        record { file_type = FileType.directory; st_dev = 3; st_ino = 2; st_rdev = 0 } ≡ info
        → info.st_dev < 2 ^ 64
    fits h = omega (arith, ap (λ (s : Stat). s.st_dev) h)
stat_of-lt (name ∷ path) info e = absurd (cc e)

host-IsHost : IsHost host
host-IsHost = record { numbers = number_of-lt; st_devs = stat_of-lt }

abbrev partition : Source
partition = record { fd = 3; block_device = 17; is_block_device = true }

-- A partition is related to its disk.
related_to_disk : devices_are_related host 17 16 ≡ ok true
unfolding devices_are_related add_device_relations relations_loop add_parents add_slaves
related_to_disk = refl

validate_paths-IsValidated_example :
    Settles
      (IsValidated host is_regular partition (b'o' ∷ []))
      (validate_database_path host partition (b'o' ∷ []))
    × Settles
        (IsValidated host is_directory partition (b'o' ∷ []))
        (validate_destination_path host partition (b'o' ∷ []))
validate_paths-IsValidated_example =
    validate_paths-IsValidated host partition (b'o' ∷ []) host-IsHost (omega arith)
