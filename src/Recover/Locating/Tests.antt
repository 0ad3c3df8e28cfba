-- ===== src/Recover/Locating/Tests.antt =====
-- The search for a record on a concrete source of one record.
use just_give_my_disk.Common.{none, [], ◌∷◌, arith}
use just_give_my_disk.Mft.Samples.{file_record, file_record-IsByte}
use just_give_my_disk.Output.Disk.{Disk, disk}
use just_give_my_disk.Output.Disk.Laws.{disk-IsPosix}
use just_give_my_disk.Output.Result.{Ends}
use just_give_my_disk.Recover.Reading.Exact.{Kept}
use just_give_my_disk.Recover.Locating.{locate_records}
use just_give_my_disk.Recover.Locating.Found.{AreFound, locate_records-AreFound}

abbrev no_files : Disk
no_files = record { nodes = λ _. none; opened = []; pending = 1 }

locate_records-AreFound_example :
    Ends
      (λ found v. Kept (disk file_record) no_files v × AreFound file_record (5 ∷ []) found)
      (λ _. ⊥)
      (locate_records (disk file_record) 4 (5 ∷ []) no_files)
locate_records-AreFound_example =
    locate_records-AreFound (disk file_record) (disk-IsPosix file_record) 4 (5 ∷ [])
      file_record-IsByte (omega arith) no_files
