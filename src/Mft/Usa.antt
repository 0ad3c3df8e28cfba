-- ===== src/Mft/Usa.antt =====
-- src/MftRecord.cpp: `MftRecordParser::restore_usa`, which undoes the update sequence array.
-- The vector is passed by reference: the result is the return value and the vector after the call.
pub mod Frame
pub mod Restored
pub mod Record
use just_give_my_disk.Common.{
  ℕ, zero, suc, ◌+◌, ◌-◌, ◌*◌, ◌/◌, ◌%◌, ◌^◌, bit_and, Bool, true, false, not, ◌||◌, Option, none,
  some, List, length, ltb, ◌==◌, if◌then◌else◌, Access, got, ◌>>=◌, store,
}
use just_give_my_disk.Mft.Read.{read_le, has_signature}
use just_give_my_disk.Mft.{record_size}

abbrev pub sector_size : ℕ
sector_size = 512

-- `((sector + 1) * sector_size) - sizeof(std::uint16_t)`
abbrev pub trailer : ℕ → ℕ
trailer sector = (sector + 1) * sector_size - 2

-- The test of a sector's trailer, and the two stores: the buffer, if the test passed.
unfoldable pub restore_sector : List ℕ → ℕ → ℕ → Option ℕ → Option ℕ → Access (Option (List ℕ))
restore_sector bytes trailer_offset update_sequence (some current) (some replacement) =
    if not (current == update_sequence) then got none else do
      first ← store bytes trailer_offset (bit_and replacement 0xFF % 256)
      second ← store first (trailer_offset + 1) (bit_and (replacement / 2 ^ 8) 0xFF % 256)
      got (some second)
restore_sector bytes trailer_offset update_sequence _ _ = got none

-- The loop over the sectors, with the rounds that are left.
unfoldable pub restore_loop : ℕ → List ℕ → ℕ → ℕ → ℕ → Access (Bool × List ℕ)
restore_loop zero bytes sector usa_offset update_sequence = got (true, bytes)
restore_loop (suc rounds) bytes sector usa_offset update_sequence = do
  current ← read_le 2 bytes (trailer sector)
  replacement ← read_le 2 bytes (usa_offset + (sector + 1) * 2)
  restored ← restore_sector bytes (trailer sector) update_sequence current replacement
  elim restored [
    | none ↦ got (false, bytes)
    | some bytes' ↦ restore_loop rounds bytes' (sector + 1) usa_offset update_sequence
  ]

unfoldable pub restore_sectors : List ℕ → ℕ → Option ℕ → Access (Bool × List ℕ)
restore_sectors bytes usa_offset none = got (false, bytes)
restore_sectors bytes usa_offset (some update_sequence) =
    restore_loop (length bytes / sector_size) bytes 0 usa_offset update_sequence

-- The checks of the array's offset and count.
unfoldable pub restore_header : List ℕ → Option ℕ → Option ℕ → Access (Bool × List ℕ)
restore_header bytes (some usa_offset) (some usa_count) =
    if ltb usa_count 2
    then got (false, bytes)
    else if ltb (length bytes) usa_offset || ltb (length bytes - usa_offset) (usa_count * 2)
    then got (false, bytes)
    else if not (usa_count == length bytes / sector_size + 1)
    then got (false, bytes)
    else do
      update_sequence ← read_le 2 bytes usa_offset
      restore_sectors bytes usa_offset update_sequence
restore_header bytes _ _ = got (false, bytes)

unfoldable pub restore_usa : List ℕ → Access (Bool × List ℕ)
restore_usa bytes = do
  usa_offset ← read_le 2 bytes 0x04
  usa_count ← read_le 2 bytes 0x06
  restore_header bytes usa_offset usa_count

-- `restored_record`: a record of the right size and signature, with its trailers restored.
unfoldable pub restored_record : List ℕ → Access (Option (List ℕ))
restored_record input = if not (length input == record_size) then got none else do
  signature ← has_signature input
  if not signature
      then got none
      else (do (restored, bytes) ← restore_usa input; got (if restored then some bytes else none))
