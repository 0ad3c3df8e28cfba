-- ===== src/Recover/Run.antt =====
-- src/Recover.cpp: `Recover::run` behind the opening of the source. The messages are left out, and the
-- opening of the database is a parameter.
pub mod Items
pub mod Answers
pub mod Traced
pub mod Finished
mod Tests
use just_give_my_disk.Common.{
  ℕ, ◌+◌, Bool, true, false, not, ◌||◌, Option, none, some, List, [], ◌∷◌, ◌==◌, length,
  if◌then◌else◌,
}
use just_give_my_disk.Database.{StoredRecord, Index}
use just_give_my_disk.Output.Collisions.{RelativePath}
use just_give_my_disk.Output.Posix.{Posix}
use just_give_my_disk.Output.Result.{Result, ok, throw, stuck, bind, and_then}
use just_give_my_disk.PathSafety.{
  Components, Source, validate_database_path, validate_destination_path,
}
use just_give_my_disk.Recover.Copying.{recover_file}
use just_give_my_disk.Recover.Directories.{Directories, absolute, path_text, ensure_safe_directory}
use just_give_my_disk.Recover.Locating.{Located, locate_records}
use just_give_my_disk.Recover.Options.{RecoverOptions, RecoverStats}
use just_give_my_disk.Recover.Reading.{read_cluster_size}
use just_give_my_disk.Recover.Tree.{
  RecoverItem, Collected, contains_id, collect_tree, nothing_collected,
}

-- `directory / relative`, of components that are names.
abbrev pub under : Components → RelativePath → Components
under directory [] = directory
under directory (name ∷ relative) = under (name ∷ directory) relative

abbrev pub parent_path : Components → Components
parent_path [] = []
parent_path (name ∷ directory) = directory

-- `wanted_files`: the numbers of the files, each once.
unfoldable pub wanted_files : List ℕ → List RecoverItem → List ℕ
wanted_files wanted [] = wanted
wanted_files wanted (item ∷ items) =
    wanted_files
      (if item.record_.is_directory || contains_id wanted item.record_.record_id_guess
        then wanted
        else item.record_.record_id_guess ∷ wanted)
      items

-- `records.find(number)`
unfoldable pub find_record : Located → ℕ → Option (List ℕ)
find_record [] number = none
find_record (entry ∷ records) number =
    let rest = find_record records number in if entry.0 == number then some entry.1 else rest

-- How the body of the loop over the items ends.
pub data ItemEnd : Type 0 where
  entered recovered skipped : ItemEnd

abbrev pub count : ItemEnd → RecoverStats → RecoverStats
count entered stats = stats
count recovered stats = record stats { recovered = stats.recovered + 1 }
count skipped stats = record stats { skipped = stats.skipped + 1 }

-- The handler of an item's exception.
abbrev pub caught : {W : Type 0} → Result ItemEnd × W → Result ItemEnd × W
caught (ok end, w) = (ok end, w)
caught (throw, w) = (ok skipped, w)
caught (stuck, w) = (stuck, w)

module _ (P : Posix) (D : Directories P) (open_database : List ℕ → P.World → Result Index × P.World)
    (arrange : List StoredRecord → List StoredRecord) (options : RecoverOptions)
    (source : Source) where
  open P use {World}
  open D use {host}

  -- The record that was located is recovered.
  abbrev pub recover_found :
      ℕ → StoredRecord → Components → Option (List ℕ) → World → Result ItemEnd × World
  recover_found cluster_size record_ target none w = (ok skipped, w)
  recover_found cluster_size record_ target (some bytes) w =
      and_then
        (recover_file P source.fd record_.real_size bytes cluster_size (path_text target)
          options.overwrite w)
        (λ done v. (ok (if done then recovered else skipped), v))

  -- The `try` block of an item.
  unfoldable pub recover_item :
      ℕ → Located → Components → RecoverItem → World → Result ItemEnd × World
  recover_item cluster_size records destination item w =
      let target = under destination item.relative_path in
      elim item.record_.is_directory [
        | true ↦ and_then (ensure_safe_directory P D source target w) (λ _ v. (ok entered, v))
        | false ↦ and_then (ensure_safe_directory P D source (parent_path target) w) (λ _ v.
            and_then (validate_destination_path (host v) source (path_text (parent_path target)), v)
              (λ _ u.
                recover_found cluster_size item.record_ target
                  (find_record records item.record_.record_id_guess) u))
      ]

  -- The loop over the items: an exception ends its item only.
  unfoldable pub items_loop :
      ℕ
      → Located
      → Components
      → List RecoverItem
      → RecoverStats
      → World
      → Result RecoverStats × World
  items_loop cluster_size records destination [] stats w = (ok stats, w)
  items_loop cluster_size records destination (item ∷ items) stats w =
      and_then (caught (recover_item cluster_size records destination item w))
        (λ end v. items_loop cluster_size records destination items (count end stats) v)

  -- What follows the collection of the items.
  unfoldable pub recover_items :
      ℕ → Components → List RecoverItem → World → Result RecoverStats × World
  recover_items cluster_size destination items w =
      let stats : RecoverStats = record {
        recovered = 0;
        skipped = 0;
        preview_items = length items;
      } in
      elim options.dry_run [
        | true ↦ (ok stats, w)
        | false ↦ and_then (ensure_safe_directory P D source destination w) (λ _ v.
            and_then (locate_records P source.fd (wanted_files [] items) v)
              (λ records u. items_loop cluster_size records destination items stats u))
      ]

  -- The root record is looked up, and its tree is collected.
  abbrev pub recover_root :
      ℕ → Components → Index → Option StoredRecord → World → Result RecoverStats × World
  recover_root cluster_size destination db none w = (throw, w)
  recover_root cluster_size destination db (some root) w =
      and_then (collect_tree db.children_of arrange options.root_record_id [] nothing_collected, w)
        (λ tree v. recover_items cluster_size destination tree.items v)

  unfoldable pub run : World → Result RecoverStats × World
  run w =
      and_then (validate_database_path (host w) source options.database_path, w)
        (λ database_path w1.
          and_then (validate_destination_path (host w1) source options.destination, w1)
            (λ destination w2. and_then (open_database (path_text database_path) w2) (λ db w3.
              and_then (read_cluster_size P source.fd w3) (λ cluster_size w4.
                and_then (db.get_by_record_id options.root_record_id, w4)
                  (λ root w5. recover_root cluster_size destination db root w5)))))
