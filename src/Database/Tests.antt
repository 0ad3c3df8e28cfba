-- ===== src/Database/Tests.antt =====
-- A stored name on a concrete record, with an offset past 2 ^ 63.
use just_give_my_disk.Common.{◌^◌, ◌+◌, ◌≡◌, true, [], ◌∷◌, arith}
use just_give_my_disk.Common.Int.{pos}
use just_give_my_disk.Mft.{MftRecord, MftFileName}
use just_give_my_disk.Database.{insert_row, row_to_record}
use just_give_my_disk.Database.Rows.{insert_row-row_to_record}

abbrev file_name : MftFileName
file_name = record {
  parent_ref = 5;
  name = b'A' ∷ [];
  name_namespace = 1;
  flags = 0x1000_0000;
  allocated_size = 0;
  real_size = 7;
  is_directory = true;
}

abbrev mft_record : MftRecord
mft_record = record { record_id_guess = 9; offset = 2 ^ 63 + 1024; names = file_name ∷ [] }

insert_row-row_to_record_example :
    row_to_record (insert_row (pos 1) mft_record file_name) ≡ record {
      id = pos 1;
      record_id_guess = 9;
      offset = 2 ^ 63 + 1024;
      parent_ref = 5;
      name = b'A' ∷ [];
      name_namespace = pos 1;
      flags = 0x1000_0000;
      allocated_size = 0;
      real_size = 7;
      is_directory = true;
    }
insert_row-row_to_record_example =
    insert_row-row_to_record (pos 1) mft_record file_name (omega arith) (omega arith) (omega arith)
      (omega arith) (omega arith) (omega arith) (omega arith) (omega arith)
