-- ===== src/Database/Rows.antt =====
-- What is stored of a record is what is read back.
use just_give_my_disk.Common.{
  ℕ, ◌%◌, ◌^◌, ◌<◌, ◌≡◌, ◌≢◌, refl, Bool, true, false, not, List, [], ◌∷◌, All, arith,
  if◌then◌else◌,
}
use just_give_my_disk.Common.Int.{ℤ, pos}
use just_give_my_disk.Mft.{MftRecord, MftFileName}
use just_give_my_disk.Mft.Runs.{to_int64, to_uint64}
use just_give_my_disk.Database.{insert_row, row_to_record, c_str, is_zero, column_int}

to_uint64-to_int64 : (n : ℕ) → n < 2 ^ 64 → to_uint64 (to_int64 n) ≡ n
to_uint64-to_int64 n h = ground arith

flags_kept : (n : ℕ) → n < 2 ^ 32 → to_uint64 (to_int64 n) % 2 ^ 32 ≡ n
flags_kept n h = ground arith

c_str-eq : (cs : List ℕ) → All (λ c. c ≢ 0) cs → c_str cs ≡ cs
c_str-eq [] h = refl
c_str-eq (c ∷ cs) h = ground (arith, c_str-eq cs h.1, h.0)

column_int-pos : (n : ℕ) → n < 2 ^ 31 → column_int (pos n) ≡ pos n
unfolding column_int
column_int-pos n h = ground (arith, h)

directory_kept : (b : Bool) → not (is_zero (column_int (pos (if b then 1 else 0)))) ≡ b
unfolding column_int
directory_kept true = refl
directory_kept false = refl

-- A record and a name of it whose numbers fit their fields and whose name has no NUL are read back from
-- their row as they were stored, also a number that is negative as the `int64_t` of the column.
pub insert_row-row_to_record :
    (id : ℤ) (mft : MftRecord) (name : MftFileName)
    → mft.record_id_guess < 2 ^ 64
    → mft.offset < 2 ^ 64
    → name.parent_ref < 2 ^ 64
    → name.name_namespace < 2 ^ 8
    → name.flags < 2 ^ 32
    → name.allocated_size < 2 ^ 64
    → name.real_size < 2 ^ 64
    → All (λ c. c ≢ 0) name.name
    → row_to_record (insert_row id mft name) ≡ record {
      id = id;
      record_id_guess = mft.record_id_guess;
      offset = mft.offset;
      parent_ref = name.parent_ref;
      name = name.name;
      name_namespace = pos name.name_namespace;
      flags = name.flags;
      allocated_size = name.allocated_size;
      real_size = name.real_size;
      is_directory = name.is_directory;
    }
unfolding insert_row row_to_record
insert_row-row_to_record id mft name hi ho hp hs hf ha hr hn = λ i. record {
  id = id;
  record_id_guess = to_uint64-to_int64 mft.record_id_guess hi i;
  offset = to_uint64-to_int64 mft.offset ho i;
  parent_ref = to_uint64-to_int64 name.parent_ref hp i;
  name = c_str-eq name.name hn i;
  name_namespace = column_int-pos name.name_namespace (omega (arith, hs)) i;
  flags = flags_kept name.flags hf i;
  allocated_size = to_uint64-to_int64 name.allocated_size ha i;
  real_size = to_uint64-to_int64 name.real_size hr i;
  is_directory = directory_kept name.is_directory i;
}
