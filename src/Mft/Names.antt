-- ===== src/Mft/Names.antt =====
-- src/MftRecord.cpp: `MftRecordParser::parse`, the names of a FILE record, and `record_number`.
pub mod Parsed
use just_give_my_disk.Common.{
  ℕ, zero, suc, ◌+◌, ◌*◌, ◌/◌, bit_and, Bool, true, false, not, ◌&&◌, ◌||◌, Option, none, some,
  List, [], ◌∷◌, ◌++◌, drop, length, ltb, leb, ◌==◌, if◌then◌else◌, Access, stuck, got, ◌>>=◌,
}
use just_give_my_disk.Utf.{utf16le_to_utf8}
use just_give_my_disk.Mft.{MftFileName, MftRecord, record_size}
use just_give_my_disk.Mft.Read.{read_le, has_signature, base_file_ref}
use just_give_my_disk.Mft.Usa.{restore_usa, restored_record}

abbrev pub attribute_file_name : ℕ
attribute_file_name = 0x30

abbrev pub attribute_end : ℕ
attribute_end = 0xFFFF_FFFF

abbrev pub directory_flag : ℕ
directory_flag = 0x0002

abbrev pub is_empty : List ℕ → Bool
is_empty [] = true
is_empty (c ∷ cs) = false

-- The fields of the content at `start`, once all of them were read: the name, if it is not empty.
unfoldable pub build_name :
    List ℕ
    → Bool
    → ℕ
    → ℕ
    → Option ℕ
    → Option ℕ
    → Option ℕ
    → Option ℕ
    → Option ℕ
    → Option ℕ
    → Access (Option MftFileName)
build_name bytes record_is_directory start content_end (some parent) (some allocated) (some real)
      (some name_flags) (some name_len) (some ns) =
    if leb (start + 66 + name_len * 2) content_end
    then (do
      name ← utf16le_to_utf8 (drop (start + 66) bytes) (name_len * 2)
      got (
          if is_empty name
          then none
          else some (record {
            parent_ref = base_file_ref parent;
            name = name;
            name_namespace = ns;
            flags = name_flags;
            allocated_size = allocated;
            real_size = real;
            is_directory = record_is_directory || not (bit_and name_flags 0x1000_0000 == 0);
          })))
    else got none
build_name bytes record_is_directory start content_end _ _ _ _ _ _ = got none

-- The content of a resident FILE_NAME attribute.
unfoldable pub read_name : List ℕ → Bool → ℕ → Option ℕ → Option ℕ → Access (Option MftFileName)
read_name bytes record_is_directory attr_offset (some content_len) (some content_offset) =
    let start = attr_offset + content_offset in
    let content_end = start + content_len in
    if leb (start + 66) (length bytes) && leb content_end (length bytes)
    then (do
      parent ← read_le 8 bytes start
      allocated ← read_le 8 bytes (start + 40)
      real ← read_le 8 bytes (start + 48)
      name_flags ← read_le 4 bytes (start + 56)
      name_len ← read_le 1 bytes (start + 64)
      ns ← read_le 1 bytes (start + 65)
      build_name bytes record_is_directory start content_end parent allocated real name_flags
          name_len ns)
    else got none
read_name bytes record_is_directory attr_offset _ _ = got none

-- `*attr_type == AttributeFileName && non_resident && *non_resident == 0`
abbrev pub is_resident_name : ℕ → Option ℕ → Bool
is_resident_name attr_type none = false
is_resident_name attr_type (some non_resident) =
    attr_type == attribute_file_name && non_resident == 0

abbrev pub push {ℓ} : {A : Type ℓ} → Option A → List A
push none = []
push (some a) = a ∷ []

-- The attribute behind its type: `none` is the loop's `break`, else its length and the names that are pushed.
unfoldable pub name_body :
    List ℕ → Bool → ℕ → ℕ → Option ℕ → Option ℕ → Access (Option (ℕ × List MftFileName))
name_body bytes record_is_directory attr_offset attr_type none non_resident = got none
name_body bytes record_is_directory attr_offset attr_type (some attr_len) non_resident =
    if ltb attr_len 16 || ltb (length bytes) (attr_offset + attr_len)
    then got none
    else if is_resident_name attr_type non_resident
    then (do
      content_len ← read_le 4 bytes (attr_offset + 16)
      content_offset ← read_le 2 bytes (attr_offset + 20)
      name ← read_name bytes record_is_directory attr_offset content_len content_offset
      got (some (attr_len, push name)))
    else got (some (attr_len, []))

unfoldable pub name_typed : List ℕ → Bool → ℕ → Option ℕ → Access (Option (ℕ × List MftFileName))
name_typed bytes record_is_directory attr_offset none = got none
name_typed bytes record_is_directory attr_offset (some attr_type) =
    if attr_type == attribute_end then got none else do
      attr_len ← read_le 4 bytes (attr_offset + 4)
      non_resident ← read_le 1 bytes (attr_offset + 8)
      name_body bytes record_is_directory attr_offset attr_type attr_len non_resident

-- The `while` loop over the attributes, on fuel: the names that are pushed.
unfoldable pub names_loop : ℕ → List ℕ → Bool → ℕ → List MftFileName → Access (List MftFileName)
names_loop zero bytes record_is_directory attr_offset names = stuck
names_loop (suc fuel) bytes record_is_directory attr_offset names =
    let round = (do
      attr_type ← read_le 4 bytes attr_offset
      attribute ← name_typed bytes record_is_directory attr_offset attr_type
      elim attribute [
        | none ↦ got names
        | some (attr_len, pushed) ↦
            names_loop fuel bytes record_is_directory (attr_offset + attr_len) (names ++ pushed)
      ]) in
    if leb (attr_offset + 16) (length bytes) then round else got names

-- The record of the names that were found, if there are any.
unfoldable pub build_record : ℕ → ℕ → List MftFileName → Option MftRecord
build_record record_number offset [] = none
build_record record_number offset (name ∷ names) = some (record {
  record_id_guess = if not (record_number == 0) then record_number else offset / record_size;
  offset = offset;
  names = name ∷ names;
})

-- The rest of `parse`, on the restored record. Each attribute takes 16 bytes at least, so
-- `length bytes + 1` rounds are enough.
unfoldable pub parse_fields :
    List ℕ → ℕ → Option ℕ → Option ℕ → Option ℕ → Option ℕ → Access (Option MftRecord)
parse_fields bytes offset (some sequence_number) (some flags) (some first_attr_offset)
      (some record_number) =
    do
      names ←
          names_loop (length bytes + 1) bytes (not (bit_and flags directory_flag == 0))
            first_attr_offset []
      got (build_record record_number offset names)
parse_fields bytes offset _ _ _ _ = got none

unfoldable pub parse_restored : List ℕ → ℕ → Access (Option MftRecord)
parse_restored bytes offset = do
  sequence_number ← read_le 2 bytes 0x10
  flags ← read_le 2 bytes 0x16
  first_attr_offset ← read_le 2 bytes 0x14
  record_number ← read_le 4 bytes 0x2C
  parse_fields bytes offset sequence_number flags first_attr_offset record_number

-- `MftRecordParser::parse`
unfoldable pub parse : List ℕ → ℕ → Access (Option MftRecord)
parse input offset = if not (length input == record_size) then got none else do
  signature ← has_signature input
  if not signature then got none else (do
    (restored, bytes) ← restore_usa input
    if not restored then got none else parse_restored bytes offset)

unfoldable pub read_number : Option (List ℕ) → Access (Option ℕ)
read_number none = got none
read_number (some bytes) = read_le 4 bytes 0x2C

-- `MftRecordParser::record_number`
unfoldable pub record_number : List ℕ → Access (Option ℕ)
record_number input = do bytes ← restored_record input; read_number bytes
