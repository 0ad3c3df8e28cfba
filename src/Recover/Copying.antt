-- ===== src/Recover/Copying.antt =====
-- src/Recover.cpp: the copy of one file's data: `write_zeros`, `copy_nonresident`, `recover_file`.
pub mod Content
pub mod Copied
pub mod Runs
pub mod Recovered
use just_give_my_disk.Common.{
  ℕ, zero, suc, ◌+◌, ◌-◌, ◌%◌, ◌^◌, min, Bool, true, false, not, ◌&&◌, Option, none, some, List, [],
  ◌∷◌, length, take, replicate, ltb, ◌==◌, if◌then◌else◌, Access, got,
}
use just_give_my_disk.Output.Posix.{Posix}
use just_give_my_disk.Output.Result.{Result, ok, throw, stuck, of_access, and_then}
use just_give_my_disk.Output.AtomicFile.{AtomicFile, write_output, with_output}
use just_give_my_disk.Mft.{DataRun, DataAttribute}
use just_give_my_disk.Mft.Attributes.{data_attributes}
use just_give_my_disk.Recover.Reading.{checked_mul, read_exact_at}

-- The size of the buffers, 1024 * 1024.
abbrev pub chunk_size : ℕ
chunk_size = 1048576

module _ (P : Posix) where
  open P use {World}

  -- The loop of `write_zeros`, on fuel. Each round takes a byte at least.
  unfoldable pub zeros_loop : ℕ → AtomicFile → ℕ → World → Result Bool × World
  zeros_loop zero out size w = (stuck, w)
  zeros_loop (suc fuel) out size w =
      if ltb 0 size
      then and_then (write_output P out (replicate (min size chunk_size) 0) w)
          (λ _ v. zeros_loop fuel out (size - min size chunk_size) v)
      else (ok true, w)

  unfoldable pub write_zeros : AtomicFile → ℕ → World → Result Bool × World
  write_zeros out size w = zeros_loop (size + 1) out size w

  -- The inner `while` loop, on fuel: `remaining` after it, or `none` where it returns false.
  unfoldable pub copy_chunks : ℕ → ℕ → AtomicFile → ℕ → ℕ → ℕ → World → Result (Option ℕ) × World
  copy_chunks zero fd out source_offset to_copy remaining w = (stuck, w)
  copy_chunks (suc fuel) fd out source_offset to_copy remaining w =
      if ltb 0 to_copy
      then and_then (read_exact_at P fd (min to_copy chunk_size) source_offset w) (λ r v. elim r [
        | none ↦ (ok none, v)
        | some bytes ↦ and_then (write_output P out bytes v) (λ _ u.
            copy_chunks fuel fd out ((source_offset + min to_copy chunk_size) % 2 ^ 64)
              (to_copy - min to_copy chunk_size) (remaining - min to_copy chunk_size) u)
      ])
      else (ok (some remaining), w)

  -- One run that is not sparse, from its offset on.
  unfoldable pub copy_run : ℕ → ℕ → AtomicFile → DataRun → ℕ → ℕ → World → Result (Option ℕ) × World
  copy_run fd cluster_size out run to_copy remaining w =
      and_then (checked_mul run.lcn cluster_size, w)
        (λ source_offset v. copy_chunks (to_copy + 1) fd out source_offset to_copy remaining v)

  -- One sparse run.
  unfoldable pub copy_hole : AtomicFile → ℕ → ℕ → World → Result (Option ℕ) × World
  copy_hole out to_copy remaining w =
      and_then (write_zeros out to_copy w)
        (λ written v. (ok (if written then some (remaining - to_copy) else none), v))

  -- The loop over the runs.
  unfoldable pub copy_runs : ℕ → List DataRun → ℕ → ℕ → AtomicFile → World → Result Bool × World
  copy_runs fd [] cluster_size remaining out w = (ok (remaining == 0), w)
  copy_runs fd (run ∷ runs) cluster_size remaining out w =
      if remaining == 0
      then (ok true, w)
      else and_then (checked_mul run.cluster_count cluster_size, w)
          (λ run_bytes v.
            and_then
              (if run.sparse
                then copy_hole out (min remaining run_bytes) remaining v
                else copy_run fd cluster_size out run (min remaining run_bytes) remaining v)
              (λ r u. elim r [
                | none ↦ (ok false, u)
                | some remaining' ↦ copy_runs fd runs cluster_size remaining' out u
              ]))

  unfoldable pub copy_nonresident :
      ℕ → DataAttribute → ℕ → ℕ → AtomicFile → World → Result Bool × World
  copy_nonresident fd data_ cluster_size bytes_to_copy out w =
      copy_runs fd data_.runs cluster_size bytes_to_copy out w

  -- The code of `recover_file` between the opening of the output and its commit.
  unfoldable pub copy_data : ℕ → DataAttribute → ℕ → AtomicFile → World → Result Bool × World
  copy_data fd data_ cluster_size out w =
      if data_.resident
      then and_then
          (write_output P out
            (take (min data_.real_size (length data_.resident_data)) data_.resident_data) w)
          (λ _ v. (ok (min data_.real_size (length data_.resident_data) == data_.real_size), v))
      else copy_nonresident fd data_ cluster_size data_.real_size out w

  -- `recover_file` behind the parser, for a record of `record_size` bytes.
  unfoldable pub recover_attributes :
      ℕ → ℕ → List DataAttribute → ℕ → List ℕ → Bool → World → Result Bool × World
  recover_attributes fd record_size [] cluster_size path overwrite w = (ok false, w)
  recover_attributes fd record_size (data_ ∷ more) cluster_size path overwrite w =
      if not (record_size == 0) && ltb record_size data_.real_size
      then (ok false, w)
      else with_output P path overwrite (copy_data fd data_ cluster_size) w

  -- `recover_file`: of the stored record it reads `real_size`.
  unfoldable pub recover_file : ℕ → ℕ → List ℕ → ℕ → List ℕ → Bool → World → Result Bool × World
  recover_file fd record_size mft_bytes cluster_size path overwrite w =
      and_then (of_access (data_attributes mft_bytes), w)
        (λ attributes v. recover_attributes fd record_size attributes cluster_size path overwrite v)
