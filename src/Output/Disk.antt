-- ===== src/Output/Disk.antt =====
-- A file system on which the outputs' theorems are applied: it writes two bytes in a call at most and
-- reads five unless a sector is asked for, and it interrupts as many calls as it is told to. It has no `renameat2`.
pub mod Transfers
pub mod Laws
use just_give_my_disk.Common.Strings.{str_eq}
use just_give_my_disk.Common.{
  ℕ, zero, suc, ◌≡◌, ◌^◌, Bool, true, false, not, ◌&&◌, ◌==◌, Option, none, some, List, [], ◌++◌,
  length, take, drop, leb, ltb, if◌then◌else◌,
}
use just_give_my_disk.Output.Posix.{
  Posix, Node, regular, Errno, enoent, eintr, enosys, einval, errno, Call, success, failure,
}

pub record Disk : Type 0 where
  pub nodes : List ℕ → Option Node
  pub opened : List ℕ
  pub pending : ℕ

abbrev pub put : List ℕ → Option Node → Disk → Disk
put p n w = record w { nodes = λ q. if str_eq q p then n else w.nodes q }

abbrev pub lstat_of : Option Node → Disk → Call Node × Disk
lstat_of none w = (failure enoent, w)
lstat_of (some n) w = (success n, w)

abbrev pub unlink_of : Option Node → List ℕ → Disk → Call (Unit {0}) × Disk
unlink_of none p w = (failure enoent, w)
unlink_of (some n) p w = (success tt, put p none w)

abbrev pub open_of : Option Node → List ℕ → Disk → Call ℕ × Disk
open_of none p w = (success 3, record (put p (some (regular [])) w) { opened = p })
open_of (some n) p w = (failure (errno 17), w)

abbrev pub written_of : Option Node → List ℕ → Disk → Call ℕ × Disk
written_of (some (regular content)) bs w =
    let n : ℕ = (if leb 2 (length bs) then 2 else length bs) in
    (success n, put w.opened (some (regular (content ++ take n bs))) w)
written_of _ bs w = (failure (errno 9), w)

abbrev pub write_of : ℕ → List ℕ → Disk → Call ℕ × Disk
write_of zero bs w = written_of (w.nodes w.opened) bs w
write_of (suc k) bs w = (failure eintr, record w { pending = k })

abbrev pub rename_of : Option Node → List ℕ → List ℕ → Disk → Call (Unit {0}) × Disk
rename_of none from to w = (failure enoent, w)
rename_of (some n) from to w = (success tt, put from none (put to (some n) w))

-- A file system without `renameat2`.
abbrev pub link_of : Option Node → Option Node → List ℕ → Disk → Call (Unit {0}) × Disk
link_of (some n) none to w = (success tt, put to (some n) w)
link_of _ _ to w = (failure enoent, w)

-- How much a read gives: a sector of 512 bytes is given at once.
abbrev pub served_size : ℕ → ℕ
served_size size = if leb 5 size && not (size == 512) then 5 else size

abbrev pub served : Bool → List ℕ → ℕ → ℕ → Disk → Call (List ℕ) × Disk
served true image size offset w = (success (take (served_size size) (drop offset image)), w)
served false image size offset w = (failure einval, w)

abbrev pub pread_of : ℕ → List ℕ → ℕ → ℕ → Disk → Call (List ℕ) × Disk
pread_of zero image size offset w = served (ltb offset (2 ^ 63)) image size offset w
pread_of (suc k) image size offset w = (failure eintr, record w { pending = k })

-- The disk, with the bytes of the source.
abbrev pub disk : List ℕ → Posix
disk source = record {
  World = Disk;
  node = λ w. w.nodes;
  file = λ w _. w.opened;
  interrupts = λ w. w.pending;
  lstat = λ p w. lstat_of (w.nodes p) w;
  unlink = λ p w. unlink_of (w.nodes p) p w;
  open_exclusive = λ p w. open_of (w.nodes p) p w;
  write = λ _ bs w. write_of w.pending bs w;
  fsync = λ _ w. (success tt, w);
  close = λ _ w. (success tt, w);
  image = λ _. source;
  pread = λ _ size offset w. pread_of w.pending source size offset w;
  rename = λ from to w. rename_of (w.nodes from) from to w;
  rename_noreplace = λ _ _ w. (failure enosys, w);
  link = λ from to w. link_of (w.nodes from) (w.nodes to) to w;
}
