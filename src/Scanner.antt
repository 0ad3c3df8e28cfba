-- ===== src/Scanner.antt =====
-- src/Scanner.cpp: `Scanner::run` behind the opening of the source and the database. The progress
-- messages and the size that they show are left out. The reads of the source and the statements of
-- the database are a parameter.
pub mod Reference
pub mod Names
pub mod Fill
pub mod Scanned
mod Tests
use just_give_my_disk.Common.{
  ℕ, zero, suc, ◌+◌, ◌-◌, ◌/◌, ◌%◌, ◌^◌, ◌≤◌, ◌<◌, ◌≡◌, Bool, true, false, Option, none, some, List,
  [], ◌∷◌, ◌++◌, length, ltb, if◌then◌else◌,
}
use just_give_my_disk.Common.Strings.{str_eq}
use just_give_my_disk.Mft.{MftRecord, MftFileName, record_size}
use just_give_my_disk.Mft.Read.{has_signature}
use just_give_my_disk.Mft.Names.{parse}
use just_give_my_disk.Output.Posix.{Errno, eintr, Call, success, failure}
use just_give_my_disk.Output.Result.{Result, ok, throw, stuck, of_access, and_then, or_throw}

pub record ScanStats : Type 0 where
  pub bytes_scanned : ℕ
  pub candidate_file_signatures : ℕ
  pub valid_records : ℕ
  pub inserted_names : ℕ
  pub target_matches : ℕ

-- What was inserted: a record and a name of it.
abbrev pub Entry : Type 0
Entry = MftRecord × MftFileName

-- The source's descriptor and the database.
pub record Device : Type 1 where
  pub World : Type 0
  -- the bytes of the source behind the file position, the interruptions still to come
  pub rest : World → List ℕ
  pub interrupts : World → ℕ
  -- what a query of the connection finds, and what is in the database for good
  pub rows : World → List Entry
  pub committed : World → List Entry
  pub read : ℕ → World → Call (List ℕ) × World
  pub begin : World → Call (Unit {0}) × World
  pub insert_record : MftRecord → MftFileName → World → Call (Unit {0}) × World
  pub commit : World → Call (Unit {0}) × World

-- The database is as before.
abbrev pub Kept : (D : Device) → D.World → D.World → Type 0
Kept D w v = (D.rows v ≡ D.rows w) × (D.committed v ≡ D.committed w)

-- What is documented. Statements do not move the source's file position.
pub record IsDevice (D : Device) : Type 0 where
  pub read_kept : (size : ℕ) (w : D.World) → Kept D w (D.read size w).1
  pub read_done :
      (size : ℕ) (w : D.World) (bs : List ℕ)
      → (D.read size w).0 ≡ success bs
      → (length bs ≤ size) × (D.rest w ≡ bs ++ D.rest (D.read size w).1)
  pub read_end :
      (size : ℕ) (w : D.World) → 0 < size → (D.read size w).0 ≡ success [] → D.rest w ≡ []
  pub read_failed :
      (size : ℕ) (w : D.World) (e : Errno)
      → (D.read size w).0 ≡ failure e
      → D.rest (D.read size w).1 ≡ D.rest w
  pub read_interrupts : (size : ℕ) (w : D.World) → D.interrupts (D.read size w).1 ≤ D.interrupts w
  pub read_interrupted :
      (size : ℕ) (w : D.World)
      → (D.read size w).0 ≡ failure eintr
      → D.interrupts (D.read size w).1 < D.interrupts w
  pub begin_kept : (w : D.World) → Kept D w (D.begin w).1 × (D.rest (D.begin w).1 ≡ D.rest w)
  pub insert_done :
      (record_ : MftRecord) (name : MftFileName) (w : D.World)
      → (D.insert_record record_ name w).0 ≡ success tt
      → (D.rows (D.insert_record record_ name w).1 ≡ D.rows w ++ (record_, name) ∷ [])
        × (D.rest (D.insert_record record_ name w).1 ≡ D.rest w)
  pub insert_committed :
      (record_ : MftRecord) (name : MftFileName) (w : D.World)
      → D.committed (D.insert_record record_ name w).1 ≡ D.committed w
  pub commit_done :
      (w : D.World) → (D.commit w).0 ≡ success tt → D.committed (D.commit w).1 ≡ D.rows w
  pub commit_failed :
      (w : D.World) (e : Errno)
      → (D.commit w).0 ≡ failure e
      → D.committed (D.commit w).1 ≡ D.committed w

-- `++counter` on an `std::uint64_t`.
abbrev pub increment : ℕ → ℕ
increment n = (n + 1) % 2 ^ 64

-- `options.target && name.name == *options.target`
abbrev pub is_target : Option (List ℕ) → MftFileName → Bool
is_target none name = false
is_target (some target) name = str_eq name.name target

abbrev pub count_signature : ScanStats → ScanStats
count_signature stats = record stats {
  candidate_file_signatures = increment stats.candidate_file_signatures;
}

abbrev pub count_record : ScanStats → ScanStats
count_record stats = record stats { valid_records = increment stats.valid_records }

abbrev pub count_name : Option (List ℕ) → MftFileName → ScanStats → ScanStats
count_name target name stats = record stats {
  inserted_names = increment stats.inserted_names;
  target_matches =
      if is_target target name then increment stats.target_matches else stats.target_matches;
}

abbrev pub no_stats : ScanStats
no_stats = record {
  bytes_scanned = 0;
  candidate_file_signatures = 0;
  valid_records = 0;
  inserted_names = 0;
  target_matches = 0;
}

module _ (D : Device) where
  open D use {World, rest, interrupts, read, begin, insert_record, commit}

  -- A read that failed: what was inserted is committed before the exception.
  abbrev pub read_failure : World → Result (List ℕ) × World
  read_failure w = and_then (or_throw (commit w)) (λ _ v. (throw, v))

  -- The body of the inner loop behind `::read`, with the rounds that follow.
  abbrev pub filled_more :
      (List ℕ → World → Result (List ℕ) × World)
      → List ℕ
      → Call (List ℕ) × World
      → Result (List ℕ) × World
  filled_more again filled (success [], v) = (ok filled, v)
  filled_more again filled (success (b ∷ bs), v) = again (filled ++ (b ∷ bs)) v
  filled_more again filled (failure eintr, v) = again filled v
  filled_more again filled (failure e, v) = read_failure v

  -- The inner loop, on fuel: `filled` are the bytes that the buffer holds.
  unfoldable pub fill_loop : ℕ → List ℕ → World → Result (List ℕ) × World
  fill_loop zero filled w = (stuck, w)
  fill_loop (suc fuel) filled w =
      if ltb (length filled) record_size
      then filled_more (fill_loop fuel) filled (read (record_size - length filled) w)
      else (ok filled, w)

  unfoldable pub fill : World → Result (List ℕ) × World
  fill w = fill_loop (record_size + interrupts w + 1) [] w

  -- The loop over the names of a record.
  unfoldable pub insert_names :
      Option (List ℕ) → MftRecord → List MftFileName → ScanStats → World → Result ScanStats × World
  insert_names target record_ [] stats w = (ok stats, w)
  insert_names target record_ (name ∷ names) stats w =
      and_then (or_throw (insert_record record_ name w))
        (λ _ v. insert_names target record_ names (count_name target name stats) v)

  abbrev pub parsed :
      Option (List ℕ) → ScanStats → Option MftRecord → World → Result ScanStats × World
  parsed target stats none w = (ok stats, w)
  parsed target stats (some record_) w =
      insert_names target record_ record_.names (count_record stats) w

  -- The handling of a full buffer.
  unfoldable pub scan_buffer :
      Option (List ℕ) → List ℕ → ℕ → ScanStats → World → Result ScanStats × World
  scan_buffer target buffer offset stats w =
      and_then (of_access (has_signature buffer), w)
        (λ signature v. elim signature [
          | true ↦
              and_then (of_access (parse buffer offset), v) (parsed target (count_signature stats))
          | false ↦ (ok stats, v)
        ])

  -- The outer loop, on fuel.
  unfoldable pub scan_loop : ℕ → Option (List ℕ) → ℕ → ScanStats → World → Result ScanStats × World
  scan_loop zero target offset stats w = (stuck, w)
  scan_loop (suc fuel) target offset stats w = and_then (fill w) (λ buffer v.
      elim (ltb (length buffer) record_size) [
        | true ↦ (ok stats, v)
        | false ↦ and_then (scan_buffer target buffer offset stats v) (λ stats' u.
            let offset' = (offset + record_size) % 2 ^ 64 in
            scan_loop fuel target offset' (record stats' { bytes_scanned = offset' }) u)
      ])

  -- `Scanner::run`: each round of the loop takes a record's bytes of the source.
  unfoldable pub run : Option (List ℕ) → World → Result ScanStats × World
  run target w = and_then (or_throw (begin w)) (λ _ v.
      and_then (scan_loop (length (rest v) / record_size + 1) target 0 no_stats v)
        (λ stats u. and_then (or_throw (commit u)) (λ _ t. (ok stats, t))))
