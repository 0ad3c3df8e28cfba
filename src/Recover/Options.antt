-- ===== src/Recover/Options.antt =====
-- src/Recover.hpp: what a recovery is asked for, and what it counts.
use just_give_my_disk.Common.{ℕ, Bool, List}

pub record RecoverOptions : Type 0 where
  pub source : List ℕ
  pub database_path : List ℕ
  pub root_record_id : ℕ
  pub destination : List ℕ
  pub dry_run : Bool
  pub overwrite : Bool

pub record RecoverStats : Type 0 where
  pub recovered : ℕ
  pub skipped : ℕ
  pub preview_items : ℕ
