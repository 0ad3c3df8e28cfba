-- ===== src/Output/Posix.antt =====
-- The system calls that the program makes on files, which are not part of it: a parameter, with
-- what POSIX and Linux document of them as named hypotheses. A path is its bytes: each file has one
-- spelling of its path. A descriptor is one of `open_exclusive`, so that it writes at the file's end.
use just_give_my_disk.Common.{
  ℕ, ◌^◌, ◌≤◌, ◌<◌, ◌≡◌, ◌≢◌, Option, none, some, List, [], ◌++◌, length, take, drop,
}

-- What a path names, without following a symbolic link.
pub data Node : Type 0 where
  regular : List ℕ → Node
  symlink : Node
  other : Node

-- The error numbers that the program tells apart.
pub data Errno : Type 0 where
  enoent enotdir eintr enosys einval : Errno
  errno : ℕ → Errno

pub data Call {ℓ} (A : Type ℓ) : Type ℓ where
  success : A → Call A
  failure : Errno → Call A

pub record Posix : Type 1 where
  pub World : Type 0
  -- what a path names, the path of the file behind a descriptor, the interruptions still to come
  pub node : World → List ℕ → Option Node
  pub file : World → ℕ → List ℕ
  pub interrupts : World → ℕ
  pub lstat : List ℕ → World → Call Node × World
  pub unlink : List ℕ → World → Call (Unit {0}) × World
  -- open with O_WRONLY, O_CREAT, O_EXCL, O_CLOEXEC and O_NOFOLLOW
  pub open_exclusive : List ℕ → World → Call ℕ × World
  pub write : ℕ → List ℕ → World → Call ℕ × World
  pub fsync : ℕ → World → Call (Unit {0}) × World
  pub close : ℕ → World → Call (Unit {0}) × World
  -- the bytes of the source behind a descriptor, which nothing changes, and up to `size` bytes at an offset
  pub image : ℕ → List ℕ
  pub pread : ℕ → ℕ → ℕ → World → Call (List ℕ) × World
  pub rename : List ℕ → List ℕ → World → Call (Unit {0}) × World
  -- renameat2 with RENAME_NOREPLACE
  pub rename_noreplace : List ℕ → List ℕ → World → Call (Unit {0}) × World
  pub link : List ℕ → List ℕ → World → Call (Unit {0}) × World

module _ (P : Posix) where
  open P use {
    World, node, file, interrupts, lstat, unlink, open_exclusive, write, fsync, close, image, pread,
    rename, rename_noreplace, link,
  }

  -- Every file is as before, or every file but one.
  abbrev pub Same : World → World → Type 0
  Same w v = (q : List ℕ) → node v q ≡ node w q

  abbrev pub SameBut : List ℕ → World → World → Type 0
  SameBut p w v = (q : List ℕ) → q ≢ p → node v q ≡ node w q

  -- `from` has moved to `to`.
  pub record Moved (from to : List ℕ) (w v : World) : Type 0 where
    pub arrived : node v to ≡ node w from
    pub left : node v from ≡ none
    pub elsewhere : (q : List ℕ) → q ≢ from → q ≢ to → node v q ≡ node w q

  -- What is documented. A call that fails changes no file; no other process acts meanwhile,
  -- and no file has two names while it is renamed.
  pub record IsPosix : Type 0 where
    pub lstat_same : (p : List ℕ) (w : World) → Same w (lstat p w).1
    pub lstat_found :
        (p : List ℕ) (w : World) (n : Node) → (lstat p w).0 ≡ success n → node w p ≡ some n
    pub lstat_enoent : (p : List ℕ) (w : World) → (lstat p w).0 ≡ failure enoent → node w p ≡ none
    pub lstat_enotdir : (p : List ℕ) (w : World) → (lstat p w).0 ≡ failure enotdir → node w p ≡ none
    pub unlink_same : (p : List ℕ) (w : World) → SameBut p w (unlink p w).1
    pub unlink_failed :
        (p : List ℕ) (w : World) (e : Errno) → (unlink p w).0 ≡ failure e → Same w (unlink p w).1
    pub unlink_done :
        (p : List ℕ) (w : World) → (unlink p w).0 ≡ success tt → node (unlink p w).1 p ≡ none
    pub open_same : (p : List ℕ) (w : World) → SameBut p w (open_exclusive p w).1
    pub open_done :
        (p : List ℕ) (w : World) (fd : ℕ)
        → (open_exclusive p w).0 ≡ success fd
        → (node w p ≡ none)
          × (node (open_exclusive p w).1 p ≡ some (regular []))
          × (file (open_exclusive p w).1 fd ≡ p)
    pub write_same : (fd : ℕ) (bs : List ℕ) (w : World) → SameBut (file w fd) w (write fd bs w).1
    pub write_file : (fd : ℕ) (bs : List ℕ) (w : World) → file (write fd bs w).1 fd ≡ file w fd
    pub write_failed :
        (fd : ℕ) (bs : List ℕ) (w : World) (e : Errno)
        → (write fd bs w).0 ≡ failure e
        → Same w (write fd bs w).1
    pub write_done :
        (fd : ℕ) (bs : List ℕ) (w : World) (n : ℕ) (content : List ℕ)
        → (write fd bs w).0 ≡ success n
        → node w (file w fd) ≡ some (regular content)
        → (n ≤ length bs)
          × (node (write fd bs w).1 (file w fd) ≡ some (regular (content ++ take n bs)))
    pub write_interrupts :
        (fd : ℕ) (bs : List ℕ) (w : World) → interrupts (write fd bs w).1 ≤ interrupts w
    pub write_interrupted :
        (fd : ℕ) (bs : List ℕ) (w : World)
        → (write fd bs w).0 ≡ failure eintr
        → interrupts (write fd bs w).1 < interrupts w
    pub pread_same : (fd size offset : ℕ) (w : World) → Same w (pread fd size offset w).1
    pub pread_file :
        (fd size offset out : ℕ) (w : World) → file (pread fd size offset w).1 out ≡ file w out
    -- The offset is the bit pattern of an `off_t`: a negative one is refused. A read may be short.
    pub pread_done :
        (fd size offset : ℕ) (w : World) (bs : List ℕ)
        → (pread fd size offset w).0 ≡ success bs
        → (offset < 2 ^ 63) × (length bs ≤ size) × (bs ≡ take (length bs) (drop offset (image fd)))
    pub pread_interrupts :
        (fd size offset : ℕ) (w : World) → interrupts (pread fd size offset w).1 ≤ interrupts w
    pub pread_interrupted :
        (fd size offset : ℕ) (w : World)
        → (pread fd size offset w).0 ≡ failure eintr
        → interrupts (pread fd size offset w).1 < interrupts w
    pub fsync_same : (fd : ℕ) (w : World) → Same w (fsync fd w).1
    pub close_same : (fd : ℕ) (w : World) → Same w (close fd w).1
    pub rename_done :
        (from to : List ℕ) (w : World)
        → from ≢ to
        → (rename from to w).0 ≡ success tt
        → Moved from to w (rename from to w).1
    pub rename_failed :
        (from to : List ℕ) (w : World) (e : Errno)
        → (rename from to w).0 ≡ failure e
        → Same w (rename from to w).1
    pub noreplace_done :
        (from to : List ℕ) (w : World)
        → (rename_noreplace from to w).0 ≡ success tt
        → (node w to ≡ none) × Moved from to w (rename_noreplace from to w).1
    pub noreplace_failed :
        (from to : List ℕ) (w : World) (e : Errno)
        → (rename_noreplace from to w).0 ≡ failure e
        → Same w (rename_noreplace from to w).1
    pub link_done :
        (from to : List ℕ) (w : World)
        → (link from to w).0 ≡ success tt
        → (node w to ≡ none)
          × (node (link from to w).1 to ≡ node w from)
          × SameBut to w (link from to w).1
    pub link_failed :
        (from to : List ℕ) (w : World) (e : Errno)
        → (link from to w).0 ≡ failure e
        → Same w (link from to w).1
