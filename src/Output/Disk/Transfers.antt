-- ===== src/Output/Disk/Transfers.antt =====
-- What the reads and the writes of the model file system do.
use mathlib.Core.Path.{subst₂}
use just_give_my_disk.Common.{
  ℕ, zero, suc, ◌≤◌, ◌<◌, ◌≡◌, ◌≢◌, ◌^◌, refl, sym, ap, ◌∙◌, Bool, true, false, Option, none, some,
  List, [], ◌++◌, length, length-take, take-length-take, take, drop, leb, ltb, ltb→lt, subst,
  if◌then◌else◌, arith,
}
use just_give_my_disk.Common.Strings.{str_eq_refl, str_eq-ne}
use just_give_my_disk.Output.Posix.{
  Same, SameBut, Node, regular, symlink, other, Errno, eintr, success, failure,
}
use just_give_my_disk.Output.Disk.{
  Disk, put, written_of, write_of, served_size, served, pread_of, disk,
}

pub put_at : (p : List ℕ) (n : Option Node) (w : Disk) → (put p n w).nodes p ≡ n
put_at p n w = rw (str_eq_refl p) refl

pub put_other :
    (p : List ℕ) (n : Option Node) (w : Disk) (q : List ℕ) → q ≢ p → (put p n w).nodes q ≡ w.nodes q
put_other p n w q h = rw (str_eq-ne q p h) refl

written_of-SameBut :
    (n : Option Node) (bs : List ℕ) (w : Disk) → SameBut (disk []) w.opened w (written_of n bs w).1
written_of-SameBut none bs w q h = refl
written_of-SameBut (some (regular c)) bs w q h = put_other w.opened _ w q h
written_of-SameBut (some symlink) bs w q h = refl
written_of-SameBut (some other) bs w q h = refl

written_file : (n : Option Node) (bs : List ℕ) (w : Disk) → (written_of n bs w).1.opened ≡ w.opened
written_file none bs w = refl
written_file (some (regular c)) bs w = refl
written_file (some symlink) bs w = refl
written_file (some other) bs w = refl

written_pending :
    (n : Option Node) (bs : List ℕ) (w : Disk) → (written_of n bs w).1.pending ≡ w.pending
written_pending none bs w = refl
written_pending (some (regular c)) bs w = refl
written_pending (some symlink) bs w = refl
written_pending (some other) bs w = refl

written_failed :
    (n : Option Node) (bs : List ℕ) (w : Disk) (r : Errno)
    → (written_of n bs w).0 ≡ failure r
    → Same (disk []) w (written_of n bs w).1
written_failed none bs w r e q = refl
written_failed (some (regular c)) bs w r e q = absurd (cc e)
written_failed (some symlink) bs w r e q = refl
written_failed (some other) bs w r e q = refl

two_at_most : (bs : List ℕ) → (if leb 2 (length bs) then 2 else length bs) ≤ length bs
two_at_most bs = ground arith

written_there :
    (d bs : List ℕ) (w : Disk) (k : ℕ) (c : List ℕ)
    → (if leb 2 (length bs) then 2 else length bs) ≡ k
    → d ≡ c
    → (written_of (some (regular d)) bs w).1.nodes w.opened ≡ some (regular (c ++ take k bs))
written_there d bs w k c e h =
    put_at w.opened _ w
    ∙ subst₂
        (λ n x.
          some (regular (d ++ take (if leb 2 (length bs) then 2 else length bs) bs))
          ≡ some (regular (x ++ take n bs)))
        e h refl

written_done :
    (n : Option Node) (bs : List ℕ) (w : Disk) (k : ℕ) (c : List ℕ)
    → (written_of n bs w).0 ≡ success k
    → n ≡ some (regular c)
    → (k ≤ length bs) × ((written_of n bs w).1.nodes w.opened ≡ some (regular (c ++ take k bs)))
written_done none bs w k c e h = absurd (cc e)
written_done (some (regular d)) bs w k c e h = (
  subst (λ n. n ≤ length bs) (count e) (two_at_most bs),
  written_there d bs w k c (count e) (content h),
)
  where
    count :
        success (if leb 2 (length bs) then 2 else length bs) ≡ success k
        → (if leb 2 (length bs) then 2 else length bs) ≡ k
    count e = cc

    content : some (regular d) ≡ some (regular c) → d ≡ c
    content h = cc h
written_done (some symlink) bs w k c e h = absurd (cc e)
written_done (some other) bs w k c e h = absurd (cc e)

written_interrupted :
    (n : Option Node) (bs : List ℕ) (w : Disk) → (written_of n bs w).0 ≡ failure eintr → ⊥
written_interrupted none bs w e = cc e
written_interrupted (some (regular d)) bs w e = cc e
written_interrupted (some symlink) bs w e = cc e
written_interrupted (some other) bs w e = cc e

written_pending_eq :
    (n : Option Node) (bs : List ℕ) (w : Disk) → (written_of n bs w).1.pending ≤ w.pending
written_pending_eq n bs w = omega (arith, written_pending n bs w)

-- What a read gives.
five_at_most : (size : ℕ) (xs : List ℕ) → length (take (served_size size) xs) ≤ size
five_at_most size xs = ground (arith, length-take (served_size size) xs)

served_done :
    (b : Bool) (image : List ℕ) (size offset : ℕ) (w : Disk) (bs : List ℕ)
    → ltb offset (2 ^ 63) ≡ b
    → (served b image size offset w).0 ≡ success bs
    → (offset < 2 ^ 63) × (length bs ≤ size) × (bs ≡ take (length bs) (drop offset image))
served_done true image size offset w bs h e = (
  ltb→lt offset (2 ^ 63) h,
  subst (λ xs. length xs ≤ size) (content e) (five_at_most size (drop offset image)),
  subst (λ xs. xs ≡ take (length xs) (drop offset image)) (content e)
      (sym (take-length-take (served_size size) (drop offset image))),
)
  where
    content :
        (served true image size offset w).0 ≡ success bs
        → take (served_size size) (drop offset image) ≡ bs
    content e = cc e
served_done false image size offset w bs h e = absurd (cc e)

served_world :
    (b : Bool) (image : List ℕ) (size offset : ℕ) (w : Disk) → (served b image size offset w).1 ≡ w
served_world true image size offset w = refl
served_world false image size offset w = refl

served_interrupted :
    (b : Bool) (image : List ℕ) (size offset : ℕ) (w : Disk)
    → (served b image size offset w).0 ≡ failure eintr
    → ⊥
served_interrupted true image size offset w e = cc e
served_interrupted false image size offset w e = cc e

pub write_of-SameBut :
    (k : ℕ) (bs : List ℕ) (w : Disk) → SameBut (disk []) w.opened w (write_of k bs w).1
write_of-SameBut zero bs w q h = written_of-SameBut (w.nodes w.opened) bs w q h
write_of-SameBut (suc k) bs w q h = refl

pub write_of_file : (k : ℕ) (bs : List ℕ) (w : Disk) → (write_of k bs w).1.opened ≡ w.opened
write_of_file zero bs w = written_file (w.nodes w.opened) bs w
write_of_file (suc k) bs w = refl

pub write_of_failed :
    (k : ℕ) (bs : List ℕ) (w : Disk) (r : Errno)
    → (write_of k bs w).0 ≡ failure r
    → (q : List ℕ) → (write_of k bs w).1.nodes q ≡ w.nodes q
write_of_failed zero bs w r e q = written_failed (w.nodes w.opened) bs w r e q
write_of_failed (suc k) bs w r e q = refl

pub write_of_done :
    (k : ℕ) (bs : List ℕ) (w : Disk) (n : ℕ) (c : List ℕ)
    → (write_of k bs w).0 ≡ success n
    → w.nodes w.opened ≡ some (regular c)
    → (n ≤ length bs) × ((write_of k bs w).1.nodes w.opened ≡ some (regular (c ++ take n bs)))
write_of_done zero bs w n c e h = written_done (w.nodes w.opened) bs w n c e h
write_of_done (suc k) bs w n c e h = absurd (cc e)

pub write_of_pending :
    (k : ℕ) (bs : List ℕ) (w : Disk) → k ≡ w.pending → (write_of k bs w).1.pending ≤ w.pending
write_of_pending zero bs w h = written_pending_eq (w.nodes w.opened) bs w
write_of_pending (suc k) bs w h = omega (arith, h)

pub write_of_interrupted :
    (k : ℕ) (bs : List ℕ) (w : Disk)
    → k ≡ w.pending
    → (write_of k bs w).0 ≡ failure eintr
    → (write_of k bs w).1.pending < w.pending
write_of_interrupted zero bs w h e = absurd (written_interrupted (w.nodes w.opened) bs w e)
write_of_interrupted (suc k) bs w h e = omega (arith, h)

module _ (image : List ℕ) (size offset : ℕ) where
  pub pread_of_nodes :
      (k : ℕ) (w : Disk) (q : List ℕ) → (pread_of k image size offset w).1.nodes q ≡ w.nodes q
  pread_of_nodes zero w q =
      ap (λ (v : Disk). v.nodes q) (served_world (ltb offset (2 ^ 63)) image size offset w)
  pread_of_nodes (suc k) w q = refl

  pub pread_of_file : (k : ℕ) (w : Disk) → (pread_of k image size offset w).1.opened ≡ w.opened
  pread_of_file zero w =
      ap (λ (v : Disk). v.opened) (served_world (ltb offset (2 ^ 63)) image size offset w)
  pread_of_file (suc k) w = refl

  pub pread_of_done :
      (k : ℕ) (w : Disk) (bs : List ℕ)
      → (pread_of k image size offset w).0 ≡ success bs
      → (offset < 2 ^ 63) × (length bs ≤ size) × (bs ≡ take (length bs) (drop offset image))
  pread_of_done zero w bs e = served_done (ltb offset (2 ^ 63)) image size offset w bs refl e
  pread_of_done (suc k) w bs e = absurd (cc e)

  pub pread_of_pending :
      (k : ℕ) (w : Disk) → k ≡ w.pending → (pread_of k image size offset w).1.pending ≤ w.pending
  pread_of_pending zero w h =
      omega (
        arith,
        ap (λ (v : Disk). v.pending) (served_world (ltb offset (2 ^ 63)) image size offset w),
      )
  pread_of_pending (suc k) w h = omega (arith, h)

  pub pread_of_interrupted :
      (k : ℕ) (w : Disk)
      → k ≡ w.pending
      → (pread_of k image size offset w).0 ≡ failure eintr
      → (pread_of k image size offset w).1.pending < w.pending
  pread_of_interrupted zero w h e =
      absurd (served_interrupted (ltb offset (2 ^ 63)) image size offset w e)
  pread_of_interrupted (suc k) w h e = omega (arith, h)
