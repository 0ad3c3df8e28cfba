-- ===== src/Recover/Run/Finished.antt =====
-- `Recover::run` from the validation of the paths to its counts.
use just_give_my_disk.Common.{
  ℕ, ◌+◌, ◌<◌, ◌^◌, ◌≡◌, refl, ap, ◌∙◌, Bool, true, false, Option, none, some, List, [], ◌∷◌, All,
  All-take, All-drop, length, subst, sym, arith,
}
use mathlib.Core.Bool.{true≢false}
use just_give_my_disk.Common.Bytes.{IsByte}
use just_give_my_disk.Database.{StoredRecord, Index}
use just_give_my_disk.Mft.{record_size}
use just_give_my_disk.Output.Posix.{Posix, IsPosix}
use just_give_my_disk.Output.Result.{
  Result, ok, and_then, Settles, Ends, ends_ok, ends_throw, Ends-and_then, Ends-weaken,
  Settles-and_then, Ends-eq, Ends-if,
}
use just_give_my_disk.PathSafety.{Components, Source}
use just_give_my_disk.PathSafety.Validated.{validate_paths-IsValidated}
use just_give_my_disk.Recover.Directories.{Directories, path_text, ensure_safe_directory}
use just_give_my_disk.Recover.Directories.Made.{
  IsDirectories, NotOn, Stays, ensure_safe_directory-Stays,
}
use just_give_my_disk.Recover.Locating.{Located, locate_records}
use just_give_my_disk.Recover.Locating.Found.{IsFound, AreFound, locate_records-AreFound}
use just_give_my_disk.Recover.Options.{RecoverOptions, RecoverStats}
use just_give_my_disk.Recover.Reading.{read_cluster_size}
use just_give_my_disk.Recover.Reading.Cluster.{IsClusterSize, read_cluster_size-IsClusterSize}
use just_give_my_disk.Recover.Run.{
  ItemEnd, wanted_files, items_loop, recover_items, recover_root, run,
}
use just_give_my_disk.Recover.Run.Items.{IsOutside, AreBytes, items_loop-Ends}
use just_give_my_disk.Recover.Run.Traced.{recovered_ends, skipped_ends, Ran, items_loop-IsTraced}
use just_give_my_disk.Recover.Tree.{RecoverItem, Collected, collect_tree, nothing_collected}
use just_give_my_disk.Recover.Tree.Closed.{collect_tree-IsCollected}
use just_give_my_disk.Recover.Tree.Visits.{IsArrangement}

-- What the queries of an opened index end in.
pub record IsIndex (db : Index) : Type 0 where
  pub children :
      (id : ℕ) → Settles (All (λ child. child.record_id_guess < 2 ^ 64)) (db.children_of id)
  pub by_id : (id : ℕ) → Settles (λ _. Unit {0}) (db.get_by_record_id id)

plus_left : (n : ℕ) → 0 + n ≡ n
plus_left n = omega arith

found-AreBytes :
    (image wanted : List ℕ) (records : Located)
    → All IsByte image
    → All (IsFound image wanted) records
    → AreBytes records
found-AreBytes image wanted [] b h = tt
found-AreBytes image wanted (entry ∷ records) b h = (
  subst (All IsByte) (sym (h.0).on_source)
      (All-take IsByte record_size _ (All-drop IsByte (h.0).offset _ b)),
  found-AreBytes image wanted records b h.1,
)

module _ (P : Posix) (law : IsPosix P) (D : Directories P) (dirs : IsDirectories P D)
    (open_database : List ℕ → P.World → Result Index × P.World)
    (arrange : List StoredRecord → List StoredRecord) (options : RecoverOptions) (source : Source)
    (fits : source.block_device < 2 ^ 64) (q : List ℕ) (w : P.World) where
  open P use {World, image}

  -- A run that is not dry: the numbers and the records that were located, and the items with their ends.
  pub record IsWhole (destination : Components) (items : List RecoverItem) (stats : RecoverStats)
      (v : World) : Type 0 where
    pub cluster_size : ℕ
    pub cluster_size_read : IsClusterSize (image source.fd) cluster_size
    pub records : Located
    pub found : AreFound (image source.fd) (wanted_files [] items) records
    pub start : World
    pub start_left : Stays P q w start
    pub ends : List ItemEnd
    pub all_ran :
        Ran P law D dirs source fits open_database arrange options destination cluster_size records
          items start ends v
    pub recovered_count : stats.recovered ≡ recovered_ends ends
    pub skipped_count : stats.skipped ≡ skipped_ends ends

  -- The end of a run: the tree of the root was collected from the database, and its items are the preview;
  -- a dry run recovers nothing, and else every item ran; the path is as it was, after a dry run and
  -- outside the destination.
  pub record IsRun (stats : RecoverStats) (v : World) : Type 0 where
    pub database : Components
    pub destination : Components
    pub db : Index
    pub resolved : (D.host w).canonical options.database_path ≡ some database
    pub destination_resolved : (D.host w).canonical options.destination ≡ some destination
    pub opened : (open_database (path_text database) w).0 ≡ ok db
    pub tree : Collected
    pub collected :
        collect_tree db.children_of arrange options.root_record_id [] nothing_collected ≡ ok tree
    pub previewed : stats.preview_items ≡ length tree.items
    pub dry : options.dry_run ≡ true → (stats.recovered ≡ 0) × (stats.skipped ≡ 0) × Stays P q w v
    pub wet : options.dry_run ≡ false → IsWhole destination tree.items stats v
    pub left : IsOutside destination q → Stays P q w v

  module _ (bytes : All IsByte (image source.fd)) (short : length (image source.fd) < 2 ^ 63) where
    -- The stats of the items, and the path as it was.
    record AreRecovered (destination : Components) (items : List RecoverItem) (stats : RecoverStats)
        (v : World) : Type 0 where
      all : stats.preview_items ≡ length items
      none_dry :
          options.dry_run ≡ true → (stats.recovered ≡ 0) × (stats.skipped ≡ 0) × Stays P q w v
      each : options.dry_run ≡ false → IsWhole destination items stats v
      kept : IsOutside destination q → Stays P q w v

    -- The loop over the items ends, whatever its items throw.
    loop_Ends :
        (cluster_size : ℕ) (destination : Components) (records : Located) (items : List RecoverItem)
        (stats : RecoverStats) (v : World)
        → IsClusterSize (image source.fd) cluster_size
        → AreFound (image source.fd) (wanted_files [] items) records
        → options.dry_run ≡ false
        → stats ≡ record { recovered = 0; skipped = 0; preview_items = length items }
        → Stays P q w v
        → Ends (AreRecovered destination items) (Stays P q w) (
            items_loop P D open_database arrange options source cluster_size records destination
              items stats v)
    loop_Ends cluster_size_ destination records_ items stats v size found_ wet_ e h =
        let located = found-AreBytes _ _ records_ bytes found_.0 in
        Ends-weaken
          (Ends-if
            (items_loop-IsTraced P law D dirs source fits open_database arrange options destination
              cluster_size_ records_ located items stats v)
            (λ outside.
              items_loop-Ends P law D dirs source fits q w open_database arrange options destination
                outside cluster_size_ records_ located items stats v h))
          (λ after x t. record {
            all = (t.0).previewed ∙ ap (λ (s : RecoverStats). s.preview_items) e;
            none_dry = λ d. absurd (true≢false (sym d ∙ wet_));
            each = λ _. record {
              cluster_size = cluster_size_;
              cluster_size_read = size;
              records = records_;
              found = found_;
              start = v;
              start_left = h;
              ends = (t.0).ends;
              all_ran = (t.0).all_ran;
              recovered_count =
                  (t.0).recovered_count
                  ∙ ap (λ (s : RecoverStats). s.recovered + recovered_ends (t.0).ends) e
                  ∙ plus_left _;
              skipped_count =
                  (t.0).skipped_count
                  ∙ ap (λ (s : RecoverStats). s.skipped + skipped_ends (t.0).ends) e
                  ∙ plus_left _;
            };
            kept = t.1;
          })
          (λ x z. absurd z.0)

    recover_items-Ends :
        (cluster_size : ℕ) (destination : Components) (items : List RecoverItem) (v : World)
        → IsClusterSize (image source.fd) cluster_size
        → (options.dry_run ≡ false → NotOn q destination)
        → Stays P q w v
        → Ends (AreRecovered destination items) (Stays P q w) (
            recover_items P D open_database arrange options source cluster_size destination items v)
    unfolding recover_items
    recover_items-Ends cluster_size destination items v size outside h = by_run options.dry_run refl
      where
        stats : RecoverStats
        stats = record { recovered = 0; skipped = 0; preview_items = length items }

        by_run :
            (b : Bool)
            → options.dry_run ≡ b
            → Ends (AreRecovered destination items) (Stays P q w) (elim b [
              | true ↦ (ok stats, v)
              | false ↦ and_then (ensure_safe_directory P D source destination v) (λ _ u.
                  and_then (locate_records P source.fd (wanted_files [] items) u) (λ records x.
                    items_loop P D open_database arrange options source cluster_size records
                      destination items stats x))
            ])
        by_run true e = ends_ok (record {
          all = refl;
          none_dry = λ _. (refl, refl, h);
          each = λ f. absurd (true≢false (sym e ∙ f));
          kept = λ _. h;
        })
        by_run false e =
            Ends-and_then
              (ensure_safe_directory-Stays P D dirs source fits q w destination v (outside e) h)
              (λ _ u k.
                Ends-and_then
                  (Ends-weaken
                    {Q' = λ records x.
                      Stays P q w x × AreFound (image source.fd) (wanted_files [] items) records}
                    {E' = Stays P q w}
                    (locate_records-AreFound P law source.fd (wanted_files [] items) bytes short u)
                    (λ records x f. (f.0.0 q ∙ k, f.1)) (λ x z. absurd z))
                  (λ records x f.
                    loop_Ends cluster_size destination records items stats x size f.1 e refl f.0))

    read_cluster_size-Ends :
        (v : World)
        → Stays P q w v
        → Ends
            (λ size u. Stays P q w u × IsClusterSize (image source.fd) size)
            (Stays P q w)
            (read_cluster_size P source.fd v)
    read_cluster_size-Ends v h =
        Ends-weaken (read_cluster_size-IsClusterSize P law source.fd bytes v)
          (λ _ u k. (k.0 q ∙ h, k.1)) (λ u k. k q ∙ h)

    module _ (arranged : IsArrangement arrange) (root : options.root_record_id < 2 ^ 64) where
      recover_root-Ends :
          (database : Components) (db : Index) (cluster_size : ℕ) (destination : Components)
          (found : Option StoredRecord) (v : World)
          → (D.host w).canonical options.database_path ≡ some database
          → (D.host w).canonical options.destination ≡ some destination
          → (open_database (path_text database) w).0 ≡ ok db
          → IsIndex db
          → IsClusterSize (image source.fd) cluster_size
          → Stays P q w v
          → (options.dry_run ≡ false → NotOn q destination)
          → Ends IsRun (Stays P q w) (
              recover_root P D open_database arrange options source cluster_size destination db
                found v)
      recover_root-Ends database db cluster_size destination none v r r' o i z h outside =
          ends_throw h
      recover_root-Ends database_ db_ cluster_size destination_ (some root_) v r r' o i z h
            outside =
          Settles-and_then _
            (collect_tree-IsCollected db_.children_of arrange options.root_record_id i.children
              arranged root)
            h
            (λ tree_ e _.
              Ends-weaken (recover_items-Ends cluster_size destination_ tree_.items v z outside h)
                (λ stats u a. record {
                  database = database_;
                  destination = destination_;
                  db = db_;
                  resolved = r;
                  destination_resolved = r';
                  opened = o;
                  tree = tree_;
                  collected = e;
                  previewed = a.all;
                  dry = a.none_dry;
                  wet = a.each;
                  left = a.kept;
                })
                (λ u k. k))

    -- Let the host's device numbers have 64 bits, and the source be of bytes and shorter than 2 ^
    -- 63. If opening the database ends and leaves a path as it is, and so do its queries, in
    -- records of 64-bit numbers or an exception, then a recovery ends. Let it be a dry run, or the
    -- path not be the destination or above it: if the recovery throws, then the path is as it was,
    -- also below the destination. When it returns, then the path is as it was if the run was dry
    -- or the path is outside the destination, and the items of the root's tree were the preview. A
    -- dry run recovers nothing. Else every item of the tree ran once, in order, and had one end: a
    -- directory was made or found by `ensure_safe_directory`; a file was recovered, and the
    -- content of its located record was then at its path, whole; or the item was skipped, since it
    -- threw, no record of the file was located, or `recover_file` returned false. The counts are
    -- those of the recovered and the skipped ends.
    pub run-IsRun :
        IsArrangement arrange
        → options.root_record_id < 2 ^ 64
        → ((path : List ℕ) (v : World)
            → Ends (λ db u. Stays P q v u × IsIndex db) (Stays P q v) (open_database path v))
        → (options.dry_run ≡ false
            → (destination : Components)
            → (D.host w).canonical options.destination ≡ some destination
            → NotOn q destination)
        → Ends IsRun (Stays P q w) (run P D open_database arrange options source w)
    unfolding run
    run-IsRun arranged root opens outside =
        Settles-and_then _
          (validate_paths-IsValidated (D.host w) source options.database_path (dirs.hosts w) fits).0
          refl
          (λ database _ k.
            Settles-and_then _
              (validate_paths-IsValidated (D.host w) source options.destination (dirs.hosts w)
                fits).1
              refl
              (λ destination _ k'. Ends-and_then (Ends-eq (opens (path_text database) w)) (λ db v o.
                Ends-and_then (read_cluster_size-Ends v o.0.0) (λ cluster_size u h.
                  Settles-and_then _ (o.0.1.by_id options.root_record_id) h.0 (λ root_ _ _.
                    recover_root-Ends arranged root database db cluster_size destination root_ u
                      k.resolved k'.resolved (ap (λ c. c.0) o.1) o.0.1 h.1 h.0
                      (λ e. outside e destination k'.resolved))))))
