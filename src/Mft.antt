-- ===== src/Mft.antt =====
-- src/MftRecord.hpp: the types that the MFT record parser returns.
pub mod Read
pub mod Usa
pub mod Runs
pub mod Names
pub mod Attributes
pub mod Samples
mod Tests
use just_give_my_disk.Common.{ℕ, Bool, List}

pub record MftFileName : Type 0 where
  pub parent_ref : ℕ
  pub name : List ℕ
  pub name_namespace : ℕ
  pub flags : ℕ
  pub allocated_size : ℕ
  pub real_size : ℕ
  pub is_directory : Bool

pub record MftRecord : Type 0 where
  pub record_id_guess : ℕ
  pub offset : ℕ
  pub names : List MftFileName

pub record DataRun : Type 0 where
  pub lcn : ℕ
  pub cluster_count : ℕ
  pub sparse : Bool

pub record DataAttribute : Type 0 where
  pub resident : Bool
  pub resident_data : List ℕ
  pub runs : List DataRun
  pub real_size : ℕ

-- `MftRecordParser::RecordSize`
abbrev pub record_size : ℕ
record_size = 1024
