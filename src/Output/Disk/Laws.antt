-- ===== src/Output/Disk/Laws.antt =====
-- The model file system does what `IsPosix` asks.
use just_give_my_disk.Common.{ℕ, ◌≡◌, ◌≢◌, refl, sym, ◌∙◌, Option, none, some, List, []}
use just_give_my_disk.Output.Posix.{
  IsPosix, Same, SameBut, Moved, Node, regular, Errno, enoent, enotdir, success, failure,
}
use just_give_my_disk.Output.Disk.Transfers.{
  put_at, put_other, write_of-SameBut, write_of_file, write_of_failed, write_of_done,
  write_of_pending, write_of_interrupted, pread_of_nodes, pread_of_file, pread_of_done,
  pread_of_pending, pread_of_interrupted,
}
use just_give_my_disk.Output.Disk.{
  Disk, put, lstat_of, unlink_of, open_of, rename_of, link_of, disk,
}

lstat_of-Same : (n : Option Node) (w : Disk) → Same (disk []) w (lstat_of n w).1
lstat_of-Same none w = λ q. refl
lstat_of-Same (some n) w = λ q. refl

lstat_found : (n : Option Node) (w : Disk) (m : Node) → (lstat_of n w).0 ≡ success m → n ≡ some m
lstat_found none w m e = absurd (cc e)
lstat_found (some n) w m e = cc e

lstat_absent : (n : Option Node) (w : Disk) (r : Errno) → (lstat_of n w).0 ≡ failure r → n ≡ none
lstat_absent none w r e = refl
lstat_absent (some n) w r e = absurd (cc e)

unlink_of-SameBut :
    (n : Option Node) (p : List ℕ) (w : Disk) → SameBut (disk []) p w (unlink_of n p w).1
unlink_of-SameBut none p w q h = refl
unlink_of-SameBut (some n) p w q h = put_other p none w q h

unlink_failed :
    (n : Option Node) (p : List ℕ) (w : Disk) (r : Errno)
    → (unlink_of n p w).0 ≡ failure r
    → Same (disk []) w (unlink_of n p w).1
unlink_failed none p w r e q = refl
unlink_failed (some n) p w r e q = absurd (cc e)

unlink_done :
    (n : Option Node) (p : List ℕ) (w : Disk)
    → (unlink_of n p w).0 ≡ success tt
    → (unlink_of n p w).1.nodes p ≡ none
unlink_done none p w e = absurd (cc e)
unlink_done (some n) p w e = put_at p none w

open_of-SameBut :
    (n : Option Node) (p : List ℕ) (w : Disk) → SameBut (disk []) p w (open_of n p w).1
open_of-SameBut none p w q h = put_other p (some (regular [])) w q h
open_of-SameBut (some n) p w q h = refl

open_done :
    (n : Option Node) (p : List ℕ) (w : Disk) (fd : ℕ)
    → (open_of n p w).0 ≡ success fd
    → (n ≡ none) × ((open_of n p w).1.nodes p ≡ some (regular [])) × ((open_of n p w).1.opened ≡ p)
open_done none p w fd e = (refl, put_at p (some (regular [])) w, refl)
open_done (some n) p w fd e = absurd (cc e)

rename_of_done :
    (source : List ℕ) (n : Option Node) (from to : List ℕ) (w : Disk)
    → n ≡ w.nodes from
    → from ≢ to
    → (rename_of n from to w).0 ≡ success tt
    → Moved (disk source) from to w (rename_of n from to w).1
rename_of_done source none from to w h ne e = absurd (cc e)
rename_of_done source (some n) from to w h ne e = record {
  arrived = put_other from none (put to (some n) w) to (λ p. ne (sym p)) ∙ put_at to (some n) w ∙ h;
  left = put_at from none (put to (some n) w);
  elsewhere = λ q f t. put_other from none (put to (some n) w) q f ∙ put_other to (some n) w q t;
}

rename_of_failed :
    (n : Option Node) (from to : List ℕ) (w : Disk) (r : Errno)
    → (rename_of n from to w).0 ≡ failure r
    → (q : List ℕ) → (rename_of n from to w).1.nodes q ≡ w.nodes q
rename_of_failed none from to w r e q = refl
rename_of_failed (some n) from to w r e q = absurd (cc e)

link_of_done :
    (n m : Option Node) (to : List ℕ) (w : Disk)
    → (link_of n m to w).0 ≡ success tt
    → (m ≡ none) × ((link_of n m to w).1.nodes to ≡ n) × SameBut (disk []) to w (link_of n m to w).1
link_of_done none m to w e = absurd (cc e)
link_of_done (some n) none to w e = (refl, put_at to (some n) w, λ q h. put_other to (some n) w q h)
link_of_done (some n) (some m) to w e = absurd (cc e)

link_of_failed :
    (n m : Option Node) (to : List ℕ) (w : Disk) (r : Errno)
    → (link_of n m to w).0 ≡ failure r
    → (q : List ℕ) → (link_of n m to w).1.nodes q ≡ w.nodes q
link_of_failed none m to w r e q = refl
link_of_failed (some n) none to w r e q = absurd (cc e)
link_of_failed (some n) (some m) to w r e q = refl

pub disk-IsPosix : (source : List ℕ) → IsPosix (disk source)
disk-IsPosix source = record {
  lstat_same = λ p w. lstat_of-Same (w.nodes p) w;
  lstat_found = λ p w. lstat_found (w.nodes p) w;
  lstat_enoent = λ p w. lstat_absent (w.nodes p) w enoent;
  lstat_enotdir = λ p w. lstat_absent (w.nodes p) w enotdir;
  unlink_same = λ p w. unlink_of-SameBut (w.nodes p) p w;
  unlink_failed = λ p w. unlink_failed (w.nodes p) p w;
  unlink_done = λ p w. unlink_done (w.nodes p) p w;
  open_same = λ p w. open_of-SameBut (w.nodes p) p w;
  open_done = λ p w. open_done (w.nodes p) p w;
  write_same = λ _ bs w. write_of-SameBut w.pending bs w;
  write_file = λ _ bs w. write_of_file w.pending bs w;
  write_failed = λ _ bs w. write_of_failed w.pending bs w;
  write_done = λ _ bs w. write_of_done w.pending bs w;
  write_interrupts = λ _ bs w. write_of_pending w.pending bs w refl;
  write_interrupted = λ _ bs w. write_of_interrupted w.pending bs w refl;
  pread_same = λ _ size offset w. pread_of_nodes source size offset w.pending w;
  pread_file = λ _ size offset _ w. pread_of_file source size offset w.pending w;
  pread_done = λ _ size offset w. pread_of_done source size offset w.pending w;
  pread_interrupts = λ _ size offset w. pread_of_pending source size offset w.pending w refl;
  pread_interrupted = λ _ size offset w. pread_of_interrupted source size offset w.pending w refl;
  fsync_same = λ _ w q. refl;
  close_same = λ _ w q. refl;
  rename_done = λ from to w. rename_of_done source (w.nodes from) from to w refl;
  rename_failed = λ from to w. rename_of_failed (w.nodes from) from to w;
  noreplace_done = λ from to w e. absurd (cc e);
  noreplace_failed = λ from to w r e q. refl;
  link_done = λ from to w. link_of_done (w.nodes from) (w.nodes to) to w;
  link_failed = λ from to w. link_of_failed (w.nodes from) (w.nodes to) to w;
}
