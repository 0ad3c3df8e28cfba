-- ===== src/Recover/Reading.antt =====
-- src/Recover.cpp: the reads of the source: `read_exact_at`, `checked_mul`, `read_cluster_size`.
pub mod Exact
pub mod Cluster
use just_give_my_disk.Common.{
  ℕ, zero, suc, ◌+◌, ◌-◌, ◌*◌, ◌/◌, ◌%◌, ◌^◌, bit_or, Bool, not, ◌&&◌, ◌||◌, Option, none, some,
  List, [], ◌∷◌, ◌++◌, length, drop, ltb, ◌==◌, if◌then◌else◌, Access, got, ◌>>=◌, at,
}
use just_give_my_disk.Output.Posix.{Posix, Errno, eintr, Call, success, failure}
use just_give_my_disk.Output.Result.{Result, ok, throw, stuck, of_access, and_then}

-- The bytes of the buffer that a successful call has filled; what a failed call leaves there is read
-- by no caller. The loop's body behind `::pread`, with the rounds that follow.
abbrev pub read_more :
    {W : Type 0}
    → (List ℕ → W → Result (Option (List ℕ)) × W)
    → List ℕ
    → Call (List ℕ) × W
    → Result (Option (List ℕ)) × W
read_more again filled (success [], v) = (ok none, v)
read_more again filled (success (b ∷ bs), v) = again (filled ++ (b ∷ bs)) v
read_more again filled (failure eintr, v) = again filled v
read_more again filled (failure e, v) = (ok none, v)

-- `le16`
unfoldable pub le16 : List ℕ → ℕ → Access ℕ
le16 data_ i = do
  low ← at data_ i
  high ← at data_ (i + 1)
  got (bit_or low (high * 2 ^ 8) % 2 ^ 16)

abbrev pub uint64_max : ℕ
uint64_max = 2 ^ 64 - 1

unfoldable pub checked_mul : ℕ → ℕ → Result ℕ
checked_mul lhs rhs =
    if not (rhs == 0) && ltb (uint64_max / rhs) lhs then throw else ok (lhs * rhs % 2 ^ 64)

-- The test of the geometry, and the cluster size.
abbrev pub cluster_size_of : ℕ → ℕ → Result ℕ
cluster_size_of bytes_per_sector sectors_per_cluster =
    if bytes_per_sector == 0 || sectors_per_cluster == 0
    then throw
    else checked_mul bytes_per_sector sectors_per_cluster

abbrev pub boot_fields : List ℕ → Access (ℕ × ℕ)
boot_fields boot = do
  bytes_per_sector ← le16 boot 0x0B
  sectors_per_cluster ← at boot 0x0D
  got (bytes_per_sector, sectors_per_cluster)

abbrev pub geometry : Access (ℕ × ℕ) → Result ℕ
geometry (got (bytes_per_sector, sectors_per_cluster)) =
    cluster_size_of bytes_per_sector sectors_per_cluster
geometry Access.fault = stuck
geometry Access.stuck = stuck

-- What `::pread` of the boot sector gave; a short read is refused.
abbrev pub booted : {W : Type 0} → Call (List ℕ) × W → Result ℕ × W
booted (success boot, v) =
    if not (length boot == 512) then (throw, v) else (geometry (boot_fields boot), v)
booted (failure e, v) = (throw, v)

module _ (P : Posix) where
  open P use {World, interrupts, pread}

  -- The loop of `read_exact_at`, on fuel: `filled` are the first `done` bytes of the buffer.
  unfoldable pub read_loop : ℕ → ℕ → ℕ → ℕ → List ℕ → World → Result (Option (List ℕ)) × World
  read_loop zero fd size offset filled w = (stuck, w)
  read_loop (suc fuel) fd size offset filled w =
      if ltb (length filled) size
      then read_more (read_loop fuel fd size offset) filled
          (pread fd (size - length filled) ((offset + length filled) % 2 ^ 64) w)
      else (ok (some filled), w)

  -- `read_exact_at`: `none` where it returns false. Each round reads a byte or takes an interruption.
  unfoldable pub read_exact_at : ℕ → ℕ → ℕ → World → Result (Option (List ℕ)) × World
  read_exact_at fd size offset w = read_loop (size + interrupts w + 1) fd size offset [] w

  unfoldable pub read_cluster_size : ℕ → World → Result ℕ × World
  read_cluster_size fd w = booted (pread fd 512 0 w)
