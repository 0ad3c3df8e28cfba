-- ===== src/Recover/Tests.antt =====
-- The recovery of one file on concrete disks: a resident record, and two runs of the source.
use just_give_my_disk.Common.{ℕ, ◌≡◌, refl, true, false, none, some, List, [], ◌∷◌, length, arith}
use just_give_my_disk.Output.Posix.{regular, SameBut}
use just_give_my_disk.Output.Disk.{Disk, disk}
use just_give_my_disk.Output.Disk.Laws.{disk-IsPosix}
use just_give_my_disk.Output.Result.{Ends}
use just_give_my_disk.Output.AtomicFile.{
  AtomicFile, partial_of, is_replaceable, with_output, open_output, open_partial, create_partial,
  remove_stale, write_output, write_loop, commit, publish, rename_without_replacement,
  cleanup_partial,
}
use just_give_my_disk.Output.AtomicFile.Publishing.{Saved, Failed, with_output-Saved}
use just_give_my_disk.Mft.{DataRun, DataAttribute}
use just_give_my_disk.Mft.Samples.{file_record, file_record-IsByte}
use just_give_my_disk.Recover.Reading.{checked_mul, read_exact_at, read_loop}
use just_give_my_disk.Recover.Reading.Exact.{Kept, IsRead, read_exact_at-IsRead}
use just_give_my_disk.Recover.Copying.{
  recover_file, copy_data, copy_nonresident, copy_runs, copy_run, copy_hole, copy_chunks,
  write_zeros, zeros_loop,
}
use just_give_my_disk.Recover.Copying.Content.{file_content, contents}
use just_give_my_disk.Recover.Copying.Runs.{RunsCopied, copy_runs-RunsCopied}
use just_give_my_disk.Recover.Copying.Recovered.{
  Returned, Thrown, recover_file-Returned, copy_data-Writes,
}

-- Eight bytes of a source with clusters of two bytes.
abbrev source : List ℕ
source = 10 ∷ 11 ∷ 12 ∷ 13 ∷ 14 ∷ 15 ∷ 16 ∷ 17 ∷ []

-- Two clusters from cluster 1 on, and a hole of one: five bytes of a file.
abbrev two_runs : List DataRun
two_runs =
    record { lcn = 1; cluster_count = 2; sparse = false }
    ∷ record { lcn = 0; cluster_count = 1; sparse = true }
    ∷ []

abbrev data_ : DataAttribute
data_ = record { resident = false; resident_data = []; runs = two_runs; real_size = 5 }

abbrev path : List ℕ
path = b'o' ∷ []

abbrev empty : Disk
empty = record { nodes = λ _. none; opened = []; pending = 1 }

content_of_runs : file_content source 2 data_ ≡ 12 ∷ 13 ∷ 14 ∷ 15 ∷ 0 ∷ []
unfolding file_content contents
content_of_runs = refl

copies_runs :
    (with_output (disk source) path false (copy_data (disk source) 4 data_ 2) empty).1.nodes path
    ≡ some (regular (12 ∷ 13 ∷ 14 ∷ 15 ∷ 0 ∷ []))
unfolding with_output open_output open_partial create_partial remove_stale write_output write_loop
    commit publish rename_without_replacement cleanup_partial copy_data copy_nonresident copy_runs
    copy_run copy_hole copy_chunks write_zeros zeros_loop checked_mul read_exact_at read_loop
copies_runs = refl

read_exact_at-IsRead_example :
    Ends
      (λ r v.
        Kept (disk source) empty v
        × IsRead (disk source) (disk-IsPosix source) 4 3 2 (omega arith) r)
      (λ _. ⊥)
      (read_exact_at (disk source) 4 3 2 empty)
read_exact_at-IsRead_example =
    read_exact_at-IsRead (disk source) (disk-IsPosix source) 4 3 2 (omega arith) empty (omega arith)

recover_file-Returned_example :
    Ends
      (Returned (disk []) (disk-IsPosix []) 4 4096 file_record 2 path false empty)
      (Thrown (disk []) (disk-IsPosix []) 4 4096 file_record 2 path false empty)
      (recover_file (disk []) 4 2 file_record 4096 path false empty)
recover_file-Returned_example =
    recover_file-Returned (disk []) (disk-IsPosix []) 4 4096 file_record 2 path false empty
      file_record-IsByte

with_output-Saved_example :
    Ends
      (λ done u.
        Saved
          (disk source)
          (disk-IsPosix source)
          path
          (partial_of path)
          (file_content source 2 data_)
          (length (file_content source 2 data_) ≡ 5)
          empty
          done
          u
        × (is_replaceable false (empty.nodes path) ≡ true))
      (λ u.
        Failed
          (disk source)
          (disk-IsPosix source)
          path
          (partial_of path)
          (file_content source 2 data_)
          (length (file_content source 2 data_) ≡ 5)
          empty
          u
        × (is_replaceable false (empty.nodes path) ≡ false → u.nodes path ≡ empty.nodes path))
      (with_output (disk source) path false (copy_data (disk source) 4 data_ 2) empty)
with_output-Saved_example =
    with_output-Saved (disk source) (disk-IsPosix source) path false (file_content source 2 data_)
      (length (file_content source 2 data_) ≡ 5) (copy_data (disk source) 4 data_ 2) empty
      (copy_data-Writes (disk source) (disk-IsPosix source) 4 2 data_ (partial_of path))

abbrev output : AtomicFile
output = record {
  final_path = path;
  partial_path = partial_of path;
  fd = some 3;
  overwrite = false;
  committed = false;
}

abbrev opened_file : Disk
opened_file = record { nodes = λ _. some (regular []); opened = partial_of path; pending = 1 }

copy_runs-RunsCopied_example :
    Ends
      (RunsCopied
        (disk source)
        (disk-IsPosix source)
        4
        2
        output
        (partial_of path)
        3
        refl
        two_runs
        5
        opened_file
        [])
      (SameBut (disk source) (partial_of path) opened_file)
      (copy_runs (disk source) 4 two_runs 2 5 output opened_file)
copy_runs-RunsCopied_example =
    copy_runs-RunsCopied (disk source) (disk-IsPosix source) 4 2 output (partial_of path) 3 refl
      two_runs 5 [] opened_file (refl, refl)
