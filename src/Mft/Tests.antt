-- ===== src/Mft/Tests.antt =====
-- The parser on concrete records: the theorems at inputs that meet their hypotheses.
use just_give_my_disk.Common.{
  ℕ, ◌≡◌, refl, true, false, some, none, List, [], ◌∷◌, ◌++◌, arith, replicate, set, All, got,
  OnSome, Returns,
}
use just_give_my_disk.Common.Bytes.{IsByte, are_bytes-All}
use just_give_my_disk.Common.Int.{pos, negsuc, ◌+ℤ◌, IsInt64}
use just_give_my_disk.Mft.Samples.{file_record, file_record-IsByte}
use just_give_my_disk.Mft.Read.{read_le, le_loop, has_signature, base_file_ref}
use just_give_my_disk.Mft.Read.Field.{field, read_le-eq-field}
use just_give_my_disk.Mft.Usa.{
  restored_record, restore_usa, restore_header, restore_sectors, restore_loop, restore_sector,
}
use just_give_my_disk.Mft.Usa.Frame.{FramedResult, restore_usa-Framed}
use just_give_my_disk.Mft.Usa.Restored.{Restored, restore_usa-Restored}
use just_give_my_disk.Mft.Runs.{parse_data_runs, sign_extend, checked_add}
use just_give_my_disk.Mft.Runs.Signed.{signed, sign_extend_lem, checked_add_lem}
use just_give_my_disk.Mft.Runs.Safety.{IsRun, parse_data_runs-IsRun}
use just_give_my_disk.Mft.Runs.Entries.{Entry, encode, run_of, runs_of}
use just_give_my_disk.Mft.Runs.Encoding.{parse_data_runs-encode}
use just_give_my_disk.Mft.Names.{
  parse, parse_restored, parse_fields, names_loop, name_typed, name_body, read_name, build_name,
  build_record,
}
use just_give_my_disk.Utf.{utf16le_to_utf8}
use just_give_my_disk.Mft.Names.Parsed.{IsParsed, parse-IsParsed}
use just_give_my_disk.Mft.Attributes.{
  data_attributes, attributes_of, attributes_from, attributes_loop, data_typed, data_body,
  data_content, resident_attribute,
}
use just_give_my_disk.Mft.Attributes.Bounds.{IsAttribute, data_attributes-IsAttribute}

abbrev low : List ℕ
low = 0x46 ∷ 0x49 ∷ 0x4C ∷ 0x45 ∷ 0x30 ∷ 0 ∷ []

read_le-eq-field_example : read_le 2 low 4 ≡ got (field 2 low 4)
read_le-eq-field_example = read_le-eq-field 2 low 4 (omega arith) (omega arith)

-- One sector, whose trailer holds the update sequence number 1.
abbrev sector : List ℕ
sector = low ++ (2 ∷ 0 ∷ (replicate 40 0 ++ (1 ∷ 0 ∷ 7 ∷ 9 ∷ (replicate 458 0 ++ (1 ∷ 0 ∷ [])))))

sector-IsByte : All IsByte sector
sector-IsByte = are_bytes-All sector refl

restores_sector : restore_usa sector ≡ got (true, set (set sector 510 7) 511 9)
unfolding restore_usa restore_header restore_sectors restore_loop restore_sector read_le le_loop
restores_sector = refl

restore_usa-Framed_example : Returns (FramedResult 0 sector) (restore_usa sector)
restore_usa-Framed_example = restore_usa-Framed sector sector-IsByte

restore_usa-Restored_example : Restored sector (set (set sector 510 7) 511 9)
restore_usa-Restored_example = restore_usa-Restored sector _ sector-IsByte restores_sector

sign_extend_example : sign_extend 0xFE 1 ≡ signed 1 0xFE
sign_extend_example = sign_extend_lem 0xFE 1 (omega arith) (omega arith) (omega arith)

checked_add_example :
    (IsInt64 (pos 5 +ℤ negsuc 6) → checked_add (pos 5) (negsuc 6) ≡ some (pos 5 +ℤ negsuc 6))
    × (¬ IsInt64 (pos 5 +ℤ negsuc 6) → checked_add (pos 5) (negsuc 6) ≡ none)
checked_add_example = checked_add_lem (pos 5) (negsuc 6) (omega arith) (omega arith)

-- Sixteen clusters at 0x1234, a hole of 8, and 4 clusters two before the first ones.
abbrev entries : List Entry
entries =
    record { count_bytes = 16 ∷ []; delta_bytes = 0x34 ∷ 0x12 ∷ [] }
    ∷ record { count_bytes = 8 ∷ []; delta_bytes = [] }
    ∷ record { count_bytes = 4 ∷ []; delta_bytes = 0xFE ∷ [] }
    ∷ []

abbrev run_bytes : List ℕ
run_bytes = 0x21 ∷ 16 ∷ 0x34 ∷ 0x12 ∷ 0x01 ∷ 8 ∷ 0x11 ∷ 4 ∷ 0xFE ∷ 0 ∷ []

runs_of-entries :
    runs_of (pos 0) entries
    ≡ some (
        record { lcn = 0x1234; cluster_count = 16; sparse = false }
        ∷ record { lcn = 0; cluster_count = 8; sparse = true }
        ∷ record { lcn = 0x1232; cluster_count = 4; sparse = false }
        ∷ [])
unfolding runs_of run_of ◌+ℤ◌
runs_of-entries = refl

parse_data_runs-encode_example : parse_data_runs run_bytes 0 10 ≡ got (runs_of (pos 0) entries)
unfolding encode
parse_data_runs-encode_example =
    parse_data_runs-encode entries run_bytes 0 10 [] (omega arith) (omega arith) refl (omega arith)
      (omega arith)

parse_data_runs-IsRun_example : Returns (OnSome (All IsRun)) (parse_data_runs run_bytes 0 10)
parse_data_runs-IsRun_example = parse_data_runs-IsRun run_bytes 10 (omega arith) (omega arith) 0

parses_file_record :
    parse file_record 4096
    ≡ got (
        some (record {
          record_id_guess = 5;
          offset = 4096;
          names =
              record {
                parent_ref = 9;
                name = 0x41 ∷ [];
                name_namespace = 3;
                flags = 0;
                allocated_size = 0;
                real_size = 0;
                is_directory = false;
              }
              ∷ [];
        }))
unfolding parse has_signature restore_usa restore_header restore_sectors restore_loop restore_sector
    parse_restored parse_fields names_loop name_typed name_body read_name build_name build_record
    base_file_ref read_le le_loop utf16le_to_utf8
parses_file_record = refl

data_of_file_record :
    data_attributes file_record
    ≡ got (
        record { resident = true; resident_data = 0x68 ∷ 0x69 ∷ []; runs = []; real_size = 2 } ∷ [])
unfolding data_attributes restored_record has_signature restore_usa restore_header restore_sectors
    restore_loop restore_sector attributes_of attributes_from attributes_loop data_typed data_body
    data_content resident_attribute read_le le_loop
data_of_file_record = refl

parse-IsParsed_example : Returns (OnSome (IsParsed file_record 512)) (parse file_record 512)
parse-IsParsed_example = parse-IsParsed file_record 512 file_record-IsByte

data_attributes-IsAttribute_example : Returns (All IsAttribute) (data_attributes file_record)
data_attributes-IsAttribute_example = data_attributes-IsAttribute file_record file_record-IsByte
