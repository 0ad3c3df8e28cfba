-- ===== src/Mft/Runs.antt =====
-- src/MftRecord.cpp: the data runs of a non-resident attribute.
-- A `std::int64_t` is the integer that it stands for.
pub mod Signed
pub mod Safety
pub mod Entries
pub mod Encoding
use just_give_my_disk.Common.{
  ℕ, zero, suc, ◌+◌, ◌-◌, ◌*◌, ◌/◌, ◌^◌, bit_and, bit_or, Bool, true, false, ◌&&◌, ◌||◌, Option,
  none, some, List, [], ◌∷◌, ◌++◌, ltb, leb, ◌==◌, if◌then◌else◌, Access, stuck, got, ◌>>=◌, at,
}
use just_give_my_disk.Common.Int.{ℤ, pos, negsuc, pos_part, ltb_ℤ, ◌+ℤ◌, ◌-ℤ◌}
use just_give_my_disk.Mft.{DataRun}
use just_give_my_disk.Mft.Read.{le_loop}

-- `static_cast<std::int64_t>(value)` and back.
abbrev pub to_int64 : ℕ → ℤ
to_int64 value = if ltb value (2 ^ 63) then pos value else negsuc (2 ^ 64 - value - 1)

abbrev pub to_uint64 : ℤ → ℕ
to_uint64 (pos n) = n
to_uint64 (negsuc n) = 2 ^ 64 - n - 1

-- `~x` on `std::uint64_t`
abbrev pub not64 : ℕ → ℕ
not64 x = 2 ^ 64 - 1 - x

unfoldable pub sign_extend : ℕ → ℕ → ℤ
sign_extend value byte_count =
    if byte_count == 0 || leb 8 byte_count
    then to_int64 value
    else if bit_and value (2 ^ (byte_count * 8 - 1)) == 0
    then to_int64 value
    else to_int64 (bit_or value (not64 (2 ^ (byte_count * 8) - 1)))

abbrev pub int64_max : ℤ
int64_max = pos (2 ^ 63 - 1)

abbrev pub int64_min : ℤ
int64_min = negsuc (2 ^ 63 - 1)

-- The result, if the function returns true.
unfoldable pub checked_add : ℤ → ℤ → Option ℤ
unfolding ◌+ℤ◌ ◌-ℤ◌
checked_add lhs rhs =
    if (ltb_ℤ (pos 0) rhs && ltb_ℤ (int64_max -ℤ rhs) lhs)
      || (ltb_ℤ rhs (pos 0) && ltb_ℤ lhs (int64_min -ℤ rhs))
    then none
    else some (lhs +ℤ rhs)

-- The run, and `current_lcn` after it.
unfoldable pub next_run : ℕ → ℕ → ℕ → ℤ → Option (DataRun × ℤ)
next_run cluster_count raw_delta offset_size current_lcn =
    if offset_size == 0
    then some (record { lcn = 0; cluster_count = cluster_count; sparse = true }, current_lcn)
    else elim (checked_add current_lcn (sign_extend raw_delta offset_size)) [
      | none ↦ none
      | some next_lcn ↦
          if ltb_ℤ next_lcn (pos 0)
          then none
          else some (
            record { lcn = to_uint64 next_lcn; cluster_count = cluster_count; sparse = false },
            next_lcn,
          )
    ]

abbrev pub with_offset : ℕ → Option (DataRun × ℤ) → Option (DataRun × ℤ × ℕ)
with_offset offset none = none
with_offset offset (some (run, next_lcn)) = some (run, next_lcn, offset)

-- The loop's body behind a header that is not 0: the run, `current_lcn` and `offset` after it.
unfoldable pub read_run : List ℕ → ℕ → ℕ → ℤ → ℕ → Access (Option (DataRun × ℤ × ℕ))
read_run bytes offset end current_lcn header =
    let length_size = bit_and header 0x0F in
    let offset_size = bit_and (header / 2 ^ 4) 0x0F in
    if length_size == 0
      || ltb 8 length_size
      || ltb 8 offset_size
      || ltb end (offset + length_size + offset_size)
    then got none
    else do
      cluster_count ← le_loop bytes offset length_size 0 0
      raw_delta ← le_loop bytes (offset + length_size) offset_size 0 0
      got (
          with_offset (offset + length_size + offset_size)
            (next_run cluster_count raw_delta offset_size current_lcn))

-- The `while` loop, on fuel.
unfoldable pub runs_loop : ℕ → List ℕ → ℕ → ℕ → ℤ → List DataRun → Access (Option (List DataRun))
runs_loop zero bytes offset end current_lcn runs = stuck
runs_loop (suc fuel) bytes offset end current_lcn runs =
    if ltb offset end
    then (do
      header ← at bytes offset
      if header == 0 then got (some runs) else (do
        r ← read_run bytes (offset + 1) end current_lcn header
        elim r [
          | none ↦ got none
          | some (run, next_lcn, next_offset) ↦
              runs_loop fuel bytes next_offset end next_lcn (runs ++ (run ∷ []))
        ]))
    else got none

-- Each round takes two bytes at least, so `end + 1` rounds are enough.
unfoldable pub parse_data_runs : List ℕ → ℕ → ℕ → Access (Option (List DataRun))
parse_data_runs bytes offset end = runs_loop (end + 1) bytes offset end (pos 0) []
