-- ===== src/Output/Tests.antt =====
-- The outputs on concrete inputs: a name with a slash, and files on a disk that interrupts one call.
use just_give_my_disk.Common.{ℕ, ◌≡◌, refl, true, false, none, some, List, [], ◌∷◌}
use just_give_my_disk.Output.Sanitize.{
  IsSafeName, sanitize_name, sanitize_name_lem, sanitize_characters,
}
use just_give_my_disk.Output.Posix.{regular, SameBut}
use just_give_my_disk.Output.Disk.{Disk, disk, put}
use just_give_my_disk.Output.Disk.Laws.{disk-IsPosix}
use just_give_my_disk.Output.Result.{Ends}
use just_give_my_disk.Output.AtomicFile.{
  AtomicFile, open_output, write_output, partial_of, is_replaceable,
}
use just_give_my_disk.Output.AtomicFile.Opening.{Opened, open_output-Opened}
use just_give_my_disk.Output.AtomicFile.Writing.{Grown, write_output-Grown}

sanitizes_slash : sanitize_name (b'a' ∷ b'/' ∷ b'b' ∷ []) ≡ b'a' ∷ b'_' ∷ b'b' ∷ []
unfolding sanitize_name sanitize_characters
sanitizes_slash = refl

sanitize_name_lem_example :
    IsSafeName (sanitize_name (b'.' ∷ b'.' ∷ []))
    × (sanitize_name (sanitize_name (b'.' ∷ b'.' ∷ [])) ≡ sanitize_name (b'.' ∷ b'.' ∷ []))
sanitize_name_lem_example = sanitize_name_lem (b'.' ∷ b'.' ∷ [])

-- "o", and a disk with a regular file there.
abbrev path : List ℕ
path = b'o' ∷ []

abbrev old_file : Disk
old_file =
    put path (some (regular (7 ∷ []))) (record { nodes = λ _. none; opened = []; pending = 1 })

open_output-Opened_example :
    Ends
      (λ out v.
        Opened (disk []) (disk-IsPosix []) path true old_file out v
        × (is_replaceable true (old_file.nodes path) ≡ true))
      (SameBut (disk []) (partial_of path) old_file)
      (open_output (disk []) path true old_file)
open_output-Opened_example = open_output-Opened (disk []) (disk-IsPosix []) path true old_file

abbrev opened_file : Disk
opened_file = record { nodes = λ _. some (regular (1 ∷ [])); opened = partial_of path; pending = 1 }

abbrev output : AtomicFile
output = record {
  final_path = path;
  partial_path = partial_of path;
  fd = some 3;
  overwrite = false;
  committed = false;
}

write_output-Grown_example :
    Ends
      (λ _ u.
        Grown (disk []) (disk-IsPosix []) (partial_of path) 3 opened_file (1 ∷ 2 ∷ 3 ∷ 4 ∷ []) u)
      (SameBut (disk []) (partial_of path) opened_file)
      (write_output (disk []) output (2 ∷ 3 ∷ 4 ∷ []) opened_file)
write_output-Grown_example =
    write_output-Grown (disk []) (disk-IsPosix []) (partial_of path) 3 output (2 ∷ 3 ∷ 4 ∷ [])
      (1 ∷ []) opened_file refl refl refl
