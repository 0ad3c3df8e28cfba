-- ===== src/PathSafety/Opening/Tests.antt =====
-- A source that is opened on a world of one image file.
use just_give_my_disk.Common.{ℕ, ◌≡◌, refl, true, List, [], ◌∷◌, drop}
use just_give_my_disk.Common.Strings.{codes}
use just_give_my_disk.Output.Posix.{success}
use just_give_my_disk.Output.Result.{ok, Ends, settled}
use just_give_my_disk.PathSafety.{FileType, Stat}
use just_give_my_disk.PathSafety.Opening.{Descriptors, open_source}
use just_give_my_disk.PathSafety.Opening.Owned.{IsDescriptors, IsOwned, open_source-IsOwned}

abbrev image_file : Stat
image_file = record { file_type = FileType.regular; st_dev = 3; st_ino = 9; st_rdev = 0 }

abbrev calls : Descriptors
calls = record {
  World = List ℕ;
  opened = λ w. w;
  canonicalize = λ path w. ok (path ∷ []);
  stat = λ c w. (success image_file, w);
  open_read = λ c w. (success 4, 4 ∷ w);
  fstat = λ fd w. (success image_file, w);
  is_read_only = λ fd w. (true, w);
  close = λ fd w. drop 1 w;
}

calls-IsDescriptors : IsDescriptors calls
calls-IsDescriptors = record {
  canonicalize_ends = λ path w. settled tt;
  stat_opened = λ c w. refl;
  open_failed = λ c w e h. absurd (cc h);
  open_done = λ c w fd h. cc h;
  fstat_opened = λ fd w. refl;
  mode_opened = λ fd w. refl;
  close_done = λ fd fds w h. cc h;
}

open_source-IsOwned_example :
    Ends
      (IsOwned calls calls-IsDescriptors (2 ∷ []))
      (λ v. v ≡ 2 ∷ [])
      (open_source calls (codes "a") (2 ∷ []))
open_source-IsOwned_example = open_source-IsOwned calls calls-IsDescriptors (2 ∷ []) (codes "a")
