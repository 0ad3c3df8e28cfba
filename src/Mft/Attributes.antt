-- ===== src/Mft/Attributes.antt =====
-- src/MftRecord.cpp: `MftRecordParser::data_attributes`, the unnamed DATA attributes of a FILE record.
pub mod Bounds
use just_give_my_disk.Common.{
  ℕ, zero, suc, ◌+◌, ◌-◌, ◌*◌, ◌/◌, bit_and, Bool, true, false, not, ◌&&◌, ◌||◌, Option, none, some,
  List, [], ◌∷◌, ◌++◌, drop, take, length, ltb, leb, ◌==◌, if◌then◌else◌, Access, fault, stuck, got,
  ◌>>=◌,
}
use just_give_my_disk.Common.Bytes.{slice}
use just_give_my_disk.Mft.{DataAttribute, DataRun}
use just_give_my_disk.Mft.Read.{read_le}
use just_give_my_disk.Mft.Usa.{restored_record}
use just_give_my_disk.Mft.Runs.{parse_data_runs}
use just_give_my_disk.Mft.Names.{attribute_end, push}

abbrev pub attribute_data : ℕ
attribute_data = 0x80

-- `assign(begin + start, begin + start + count)`: both ends must lie in the buffer.
abbrev pub copy_range : List ℕ → ℕ → ℕ → Access (List ℕ)
copy_range bytes start count =
    if leb (start + count) (length bytes) then got (slice bytes start count) else fault

unfoldable pub resident_attribute :
    List ℕ → ℕ → ℕ → Option ℕ → Option ℕ → Access (Option DataAttribute)
resident_attribute bytes attr_offset attr_end (some content_len) (some content_offset) =
    let start = attr_offset + content_offset in
    if leb start attr_end && leb content_len (attr_end - start)
    then (do
      content ← copy_range bytes start content_len
      got (
          some (record {
            resident = true;
            resident_data = content;
            runs = [];
            real_size = content_len;
          })))
    else got none
resident_attribute bytes attr_offset attr_end _ _ = got none

unfoldable pub runs_attribute : List ℕ → ℕ → ℕ → Option ℕ → Option ℕ → Access (Option DataAttribute)
runs_attribute bytes attr_offset attr_end (some run_offset) (some real_size) =
    let start = attr_offset + run_offset in
    if ltb start attr_end
    then (do
      runs ← parse_data_runs bytes start attr_end
      got (elim runs [
        | none ↦ none
        | some rs ↦
            some (record { resident = false; resident_data = []; runs = rs; real_size = real_size })
      ]))
    else got none
runs_attribute bytes attr_offset attr_end _ _ = got none

-- The data attribute of an unnamed, plain DATA attribute, by its residence.
unfoldable pub data_content : List ℕ → ℕ → ℕ → ℕ → Access (Option DataAttribute)
data_content bytes attr_offset attr_end non_resident =
    if non_resident == 0
    then (do
      content_len ← read_le 4 bytes (attr_offset + 16)
      content_offset ← read_le 2 bytes (attr_offset + 20)
      resident_attribute bytes attr_offset attr_end content_len content_offset)
    else if non_resident == 1
    then (do
      run_offset ← read_le 2 bytes (attr_offset + 32)
      real_size ← read_le 8 bytes (attr_offset + 48)
      runs_attribute bytes attr_offset attr_end run_offset real_size)
    else got none

-- The attribute behind its type: `none` is the loop's `break`, else its length and what is pushed.
unfoldable pub data_body :
    List ℕ
    → ℕ
    → ℕ
    → Option ℕ
    → Option ℕ
    → Option ℕ
    → Option ℕ
    → Access (Option (ℕ × List DataAttribute))
data_body bytes attr_offset attr_type (some attr_len) (some non_resident) (some name_len)
      (some attr_flags) =
    if ltb attr_len 16 || ltb (length bytes) (attr_offset + attr_len)
    then got none
    else if attr_type == attribute_data && name_len == 0 && bit_and attr_flags 0x4001 == 0
    then (do
      attribute ← data_content bytes attr_offset (attr_offset + attr_len) non_resident
      got (some (attr_len, push attribute)))
    else got (some (attr_len, []))
data_body bytes attr_offset attr_type _ _ _ _ = got none

unfoldable pub data_typed : List ℕ → ℕ → Option ℕ → Access (Option (ℕ × List DataAttribute))
data_typed bytes attr_offset none = got none
data_typed bytes attr_offset (some attr_type) = if attr_type == attribute_end then got none else do
  attr_len ← read_le 4 bytes (attr_offset + 4)
  non_resident ← read_le 1 bytes (attr_offset + 8)
  name_len ← read_le 1 bytes (attr_offset + 9)
  attr_flags ← read_le 2 bytes (attr_offset + 12)
  data_body bytes attr_offset attr_type attr_len non_resident name_len attr_flags

-- The `while` loop over the attributes, on fuel.
unfoldable pub attributes_loop : ℕ → List ℕ → ℕ → List DataAttribute → Access (List DataAttribute)
attributes_loop zero bytes attr_offset attributes = stuck
attributes_loop (suc fuel) bytes attr_offset attributes =
    let round = (do
      attr_type ← read_le 4 bytes attr_offset
      attribute ← data_typed bytes attr_offset attr_type
      elim attribute [
        | none ↦ got attributes
        | some (attr_len, pushed) ↦
            attributes_loop fuel bytes (attr_offset + attr_len) (attributes ++ pushed)
      ]) in
    if leb (attr_offset + 16) (length bytes) then round else got attributes

unfoldable pub attributes_from : List ℕ → Option ℕ → Access (List DataAttribute)
attributes_from bytes none = got []
attributes_from bytes (some first_attr_offset) =
    attributes_loop (length bytes + 1) bytes first_attr_offset []

unfoldable pub attributes_of : Option (List ℕ) → Access (List DataAttribute)
attributes_of none = got []
attributes_of (some bytes) = do
  first_attr_offset ← read_le 2 bytes 0x14
  attributes_from bytes first_attr_offset

-- `MftRecordParser::data_attributes`. Each attribute takes 16 bytes at least, so
-- `length bytes + 1` rounds are enough.
unfoldable pub data_attributes : List ℕ → Access (List DataAttribute)
data_attributes input = do bytes ← restored_record input; attributes_of bytes
