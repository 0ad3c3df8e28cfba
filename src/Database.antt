-- ===== src/Database.antt =====
-- src/Database.cpp, src/Database.hpp: the columns that a record is stored in and read from. SQLite and
-- its queries are not modelled: a row is what was bound to the columns.
pub mod Rows
mod Tests
use just_give_my_disk.Common.{
  ℕ, ◌-◌, ◌%◌, ◌^◌, Bool, true, false, not, Option, List, [], ◌∷◌, ◌==◌, ltb, if◌then◌else◌,
}
use just_give_my_disk.Common.Int.{ℤ, pos, negsuc}
use just_give_my_disk.Mft.{MftRecord, MftFileName}
use just_give_my_disk.Mft.Runs.{to_int64, to_uint64}
use just_give_my_disk.Output.Result.{Result}

pub record StoredRecord : Type 0 where
  pub id : ℤ
  pub record_id_guess : ℕ
  pub offset : ℕ
  pub parent_ref : ℕ
  pub name : List ℕ
  pub name_namespace : ℤ
  pub flags : ℕ
  pub allocated_size : ℕ
  pub real_size : ℕ
  pub is_directory : Bool

-- What an opened index answers. `Database::find_by_name` and its sisters may throw.
pub record Index : Type 0 where
  pub find_by_name : List ℕ → Result (List StoredRecord)
  pub get_by_record_id : ℕ → Result (Option StoredRecord)
  pub children_of : ℕ → Result (List StoredRecord)

-- The values of a row's columns, in the table's order. A text is the bytes before its first NUL.
pub record Row : Type 0 where
  pub id : ℤ
  pub record_id_guess : ℤ
  pub offset : ℤ
  pub parent_ref : ℤ
  pub name : List ℕ
  pub namespace : ℤ
  pub flags : ℤ
  pub allocated_size : ℤ
  pub real_size : ℤ
  pub is_directory : ℤ

-- What a pointer to a NUL-terminated string gives.
abbrev pub c_str : List ℕ → List ℕ
c_str [] = []
c_str (c ∷ cs) = let rest = c_str cs in if c == 0 then [] else c ∷ rest

-- `column_u64`, and `static_cast<std::uint32_t>` of a column.
abbrev pub column_u64 : ℤ → ℕ
column_u64 column = to_uint64 column

abbrev pub is_zero : ℤ → Bool
is_zero (pos n) = n == 0
is_zero (negsuc n) = false

-- `sqlite3_column_int`, which is documented to give the lower 32 bits, as an `int`.
unfoldable pub column_int : ℤ → ℤ
column_int column =
    let n = to_uint64 column % 2 ^ 32 in if ltb n (2 ^ 31) then pos n else negsuc (2 ^ 32 - n - 1)

-- The row that `insert_record` inserts, under the identifier that the table gives it.
unfoldable pub insert_row : ℤ → MftRecord → MftFileName → Row
insert_row id mft name = record {
  id = id;
  record_id_guess = to_int64 mft.record_id_guess;
  offset = to_int64 mft.offset;
  parent_ref = to_int64 name.parent_ref;
  name = c_str name.name;
  namespace = pos name.name_namespace;
  flags = to_int64 name.flags;
  allocated_size = to_int64 name.allocated_size;
  real_size = to_int64 name.real_size;
  is_directory = pos (if name.is_directory then 1 else 0);
}

unfoldable pub row_to_record : Row → StoredRecord
row_to_record row = record {
  id = row.id;
  record_id_guess = column_u64 row.record_id_guess;
  offset = column_u64 row.offset;
  parent_ref = column_u64 row.parent_ref;
  name = row.name;
  name_namespace = column_int row.namespace;
  flags = column_u64 row.flags % 2 ^ 32;
  allocated_size = column_u64 row.allocated_size;
  real_size = column_u64 row.real_size;
  is_directory = not (is_zero (column_int row.is_directory));
}
