-- ===== src/Recover/Run/Tests.antt =====
-- The recovery of a folder with one file from a source of three blocks.
use just_give_my_disk.Common.{
  ℕ, ◌≡◌, ◌<◌, ◌^◌, refl, ap, subst, Bool, true, false, Option, none, some, List, [], ◌∷◌, ◌++◌,
  All, All-append, All-replicate, replicate, arith,
}
use just_give_my_disk.Common.Bytes.{IsByte}
use just_give_my_disk.Common.Strings.{codes}
use just_give_my_disk.Common.Int.{pos}
use just_give_my_disk.Database.{StoredRecord, Index}
use just_give_my_disk.Mft.Samples.{file_record, file_record-IsByte}
use just_give_my_disk.Output.Disk.{Disk, disk, put}
use just_give_my_disk.Output.Disk.Laws.{disk-IsPosix}
use just_give_my_disk.Output.Disk.Transfers.{put_other}
use just_give_my_disk.Output.Posix.{Node, other, Same, Call, success, failure, enoent}
use just_give_my_disk.Output.Result.{Result, ok, settled, Ends, ends_ok}
use just_give_my_disk.PathSafety.{Components, Host, Source, Stat, FileType}
use just_give_my_disk.Recover.Directories.{FileMode, directory, plain, Directories}
use just_give_my_disk.Recover.Directories.Made.{IsDirectories, NotOn, Stays}
use just_give_my_disk.Recover.Options.{RecoverOptions}
use just_give_my_disk.Recover.Reading.{read_cluster_size}
use just_give_my_disk.Recover.Reading.Cluster.{IsClusterSize, read_cluster_size-IsClusterSize}
use just_give_my_disk.Recover.Run.{run}
use just_give_my_disk.Recover.Run.Finished.{IsIndex, IsRun, run-IsRun}
use just_give_my_disk.Recover.Tree.Sorting.{sort_children, sort_children-IsArrangement}

-- A boot sector with sectors of 512 bytes and eight of them in a cluster, and a record behind a block.
abbrev image : List ℕ
image = replicate 11 0 ++ (0 ∷ 2 ∷ 8 ∷ (replicate 1010 0 ++ file_record))

image-IsByte : All IsByte image
image-IsByte =
    let rest : All IsByte (0 ∷ 2 ∷ 8 ∷ (replicate 1010 0 ++ file_record)) = (
      omega arith,
      (
        omega arith,
        (
          omega arith,
          All-append IsByte (replicate 1010 0) file_record
              (All-replicate IsByte 1010 0 (omega arith)) file_record-IsByte,
        ),
      ),
    ) in
    All-append IsByte (replicate 11 0) (0 ∷ 2 ∷ 8 ∷ (replicate 1010 0 ++ file_record))
      (All-replicate IsByte 11 0 (omega arith)) rest

abbrev start : Disk
start = record { nodes = λ _. none; opened = []; pending = 0 }

abbrev mode_of : Option Node → Disk → Call FileMode × Disk
mode_of none w = (failure enoent, w)
mode_of (some other) w = (success directory, w)
mode_of (some n) w = (success plain, w)

mode_of-Same : (n : Option Node) (w : Disk) → Same (disk image) w (mode_of n w).1
mode_of-Same none w q = refl
mode_of-Same (some other) w q = refl
mode_of-Same (some (Node.regular content)) w q = refl
mode_of-Same (some Node.symlink) w q = refl

abbrev stat_of : Components → Call Stat
stat_of [] =
    success (record { file_type = FileType.directory; st_dev = 3; st_ino = 2; st_rdev = 0 })
stat_of (name ∷ path) = failure enoent

stat_of-lt : (path : Components) (info : Stat) → stat_of path ≡ success info → info.st_dev < 2 ^ 64
stat_of-lt [] info e = fits (cc e)
  where
    fits :
        record { file_type = FileType.directory; st_dev = 3; st_ino = 2; st_rdev = 0 } ≡ info
        → info.st_dev < 2 ^ 64
    fits h = omega (arith, ap (λ (s : Stat). s.st_dev) h)
stat_of-lt (name ∷ path) info e = absurd (cc e)

-- The index and the destination are `/d`.
abbrev host : Host
host = record {
  canonical = λ path. some (codes "d" ∷ []);
  stat = stat_of;
  fstat =
      λ fd. success (record { file_type = FileType.regular; st_dev = 3; st_ino = 9; st_rdev = 0 });
  device_directory = λ device. none;
  device_number = λ path. none;
  slaves = λ path. [];
}

abbrev directories : Directories (disk image)
directories = record {
  lstat_mode = λ p w. mode_of (w.nodes p) w;
  mkdir = λ p w. (success tt, put p (some other) w);
  host = λ w. host;
}

directories-IsDirectories : IsDirectories (disk image) directories
directories-IsDirectories = record {
  lstat_mode_same = λ p w. mode_of-Same (w.nodes p) w;
  mkdir_same = λ p w q h. put_other p (some other) w q h;
  hosts = λ w. record { numbers = λ path. tt; st_devs = stat_of-lt };
}

abbrev stored : List ℕ → Bool → StoredRecord
stored name_ directory_ = record {
  id = pos 1;
  record_id_guess = 5;
  offset = 0;
  parent_ref = 5;
  name = name_;
  name_namespace = pos 1;
  flags = 0;
  allocated_size = 0;
  real_size = 0;
  is_directory = directory_;
}

abbrev index : Index
index = record {
  find_by_name = λ name. ok [];
  get_by_record_id = λ id. ok (some (stored (codes "r") true));
  children_of = λ id. ok (stored (codes "a") false ∷ []);
}

abbrev options : RecoverOptions
options = record {
  source = codes "/dev/sda";
  database_path = codes "/d";
  root_record_id = 5;
  destination = codes "/d";
  dry_run = false;
  overwrite = false;
}

abbrev source : Source
source = record { fd = 4; block_device = 0; is_block_device = false }

-- A path below the destination.
abbrev below : List ℕ
below = codes "/d/a"

below-NotOn : NotOn below (codes "d" ∷ [])
below-NotOn = (λ e. cc e, tt)

abbrev open_index : List ℕ → Disk → Result Index × Disk
open_index path v = (ok index, v)

opens :
    (path : List ℕ) (v : Disk)
    → Ends
        (λ db u. Stays (disk image) below v u × IsIndex db)
        (Stays (disk image) below v)
        (open_index path v)
opens path v =
    ends_ok (refl, record { children = λ id. settled (omega arith, tt); by_id = λ id. settled tt })

run-IsRun_example :
    Ends
      (IsRun
        (disk image)
        (disk-IsPosix image)
        directories
        directories-IsDirectories
        open_index
        sort_children
        options
        source
        (omega arith)
        below
        start)
      (Stays (disk image) below start)
      (run (disk image) directories open_index sort_children options source start)
run-IsRun_example =
    run-IsRun (disk image) (disk-IsPosix image) directories directories-IsDirectories open_index
      sort_children options source (omega arith) below start image-IsByte (omega arith)
      sort_children-IsArrangement (omega arith) opens
      (λ e destination c. subst (λ p. NotOn below p) {x = codes "d" ∷ []} (cc c) below-NotOn)

read_cluster_size-IsClusterSize_example :
    Ends
      (λ size v. Same (disk image) start v × IsClusterSize image size)
      (Same (disk image) start)
      (read_cluster_size (disk image) 4 start)
read_cluster_size-IsClusterSize_example =
    read_cluster_size-IsClusterSize (disk image) (disk-IsPosix image) 4 image-IsByte start
