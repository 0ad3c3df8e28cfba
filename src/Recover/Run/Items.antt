-- ===== src/Recover/Run/Items.antt =====
-- The loop over the items: the paths that it leaves.
use just_give_my_disk.Common.{
  ℕ, ◌<◌, ◌^◌, ◌≢◌, ◌∙◌, Bool, true, false, Option, none, some, List, [], ◌∷◌, All, OnSome,
  Bool-cases, inl, inr, ◌==◌,
}
use just_give_my_disk.Common.Bytes.{IsByte}
use just_give_my_disk.Database.{StoredRecord, Index}
use just_give_my_disk.Output.AtomicFile.{partial_of}
use just_give_my_disk.Output.Collisions.{RelativePath}
use just_give_my_disk.Output.Posix.{Posix, IsPosix}
use just_give_my_disk.Output.Result.{
  Result, ok, and_then, Ends, ends_ok, ends_throw, Ends-and_then, Ends-weaken, Settles-and_then,
}
use just_give_my_disk.PathSafety.{Components, Source, validate_destination_path}
use just_give_my_disk.PathSafety.Validated.{validate_paths-IsValidated}
use just_give_my_disk.Recover.Copying.Recovered.{recover_file-Returned}
use just_give_my_disk.Recover.Directories.{Directories, path_text, ensure_safe_directory}
use just_give_my_disk.Recover.Directories.Made.{
  IsDirectories, NotOn, Stays, ensure_safe_directory-Stays,
}
use just_give_my_disk.Recover.Locating.{Located}
use just_give_my_disk.Recover.Options.{RecoverOptions, RecoverStats}
use just_give_my_disk.Recover.Run.{
  under, parent_path, find_record, ItemEnd, entered, count, caught, recover_found, recover_item,
  items_loop,
}
use just_give_my_disk.Recover.Tree.{RecoverItem}

-- The path is neither at or above the directory nor the path or the partial path of what is below it.
pub record IsOutside (destination : Components) (q : List ℕ) : Type 0 where
  pub not_above : NotOn q destination
  pub not_below : (relative : RelativePath) → q ≢ path_text (under destination relative)
  pub not_partial :
      (relative : RelativePath) → q ≢ partial_of (path_text (under destination relative))

NotOn-under :
    (q : List ℕ) (relative : RelativePath) (c : Components)
    → NotOn q c
    → ((relative : RelativePath) → q ≢ path_text (under c relative))
    → NotOn q (under c relative)
NotOn-under q [] c h k = h
NotOn-under q (name ∷ relative) c h k =
    NotOn-under q relative (name ∷ c) (k (name ∷ []), h) (λ rest. k (name ∷ rest))

NotOn-parent : (q : List ℕ) (c : Components) → NotOn q c → NotOn q (parent_path c)
NotOn-parent q [] h = tt
NotOn-parent q (name ∷ c) h = h.1

-- Located records of bytes.
abbrev pub AreBytes : Located → Type 0
AreBytes records = All (λ entry. All IsByte entry.1) records

pub find_record-IsByte :
    (records : Located) (number : ℕ)
    → AreBytes records
    → OnSome (All IsByte) (find_record records number)
unfolding find_record
find_record-IsByte [] number h = tt
find_record-IsByte (entry ∷ records) number h = elim (Bool-cases (entry.0 == number)) [
  | inl t ↦ rw t h.0
  | inr f ↦ rw f (find_record-IsByte records number h.1)
]

-- What an item leaves.
module _ (P : Posix) (law : IsPosix P) (D : Directories P) (dirs : IsDirectories P D)
    (source : Source) (fits : source.block_device < 2 ^ 64) (q : List ℕ) (w : P.World)
    (open_database : List ℕ → P.World → Result Index × P.World)
    (arrange : List StoredRecord → List StoredRecord) (options : RecoverOptions) where
  open P use {World}

  abbrev Left : World → Type 0
  Left v = Stays P q w v

  caught-Ends :
      {m : Result ItemEnd × World}
      → Ends (λ _ u. Left u) Left m
      → Ends (λ _ u. Left u) (λ _. ⊥) (caught m)
  caught-Ends (ends_ok h) = ends_ok h
  caught-Ends (ends_throw h) = ends_ok h

  module _ (destination : Components) (outside : IsOutside destination q) (cluster_size : ℕ)
      (records : Located) (bytes : AreBytes records) where
    recover_found-Ends :
        (record_ : StoredRecord) (relative : RelativePath) (found : Option (List ℕ)) (v : World)
        → OnSome (All IsByte) found
        → Left v
        → Ends
            (λ _ u. Left u)
            Left
            (recover_found P D open_database arrange options source cluster_size record_
              (under destination relative)
              found
              v)
    recover_found-Ends record_ relative none v b h = ends_ok h
    recover_found-Ends record_ relative (some found) v b h =
        let target = path_text (under destination relative) in
        let n = outside.not_below relative in
        let n' = outside.not_partial relative in
        Ends-and_then
          (Ends-weaken {Q' = λ _ u. Left u}
            (recover_file-Returned P law source.fd cluster_size found record_.real_size target
              options.overwrite v b)
            (λ done u r. r.elsewhere q n n' ∙ h) (λ u t. t.elsewhere q n n' ∙ h))
          (λ done u k. ends_ok k)

    recover_item-Ends :
        (item : RecoverItem) (v : World)
        → Left v
        → Ends
            (λ _ u. Left u)
            Left
            (recover_item P D open_database arrange options source cluster_size records destination
              item v)
    unfolding recover_item
    recover_item-Ends item v h = by_kind item.record_.is_directory
      where
        target : Components
        target = under destination item.relative_path

        on_target : NotOn q target
        on_target = NotOn-under q item.relative_path destination outside.not_above outside.not_below

        by_kind :
            (b : Bool)
            → Ends {A = ItemEnd}
                (λ _ u. Left u)
                Left
                (elim b [
                  | true ↦
                      and_then (ensure_safe_directory P D source target v) (λ _ u. (ok entered, u))
                  | false ↦
                      and_then (ensure_safe_directory P D source (parent_path target) v) (λ _ u.
                        and_then
                          (
                            validate_destination_path
                                (D.host u)
                                source
                                (path_text (parent_path target)),
                            u,
                          )
                          (λ _ x.
                            recover_found P D open_database arrange options source cluster_size
                              item.record_ target
                              (find_record records item.record_.record_id_guess)
                              x))
                ])
        by_kind true =
            Ends-and_then
              (ensure_safe_directory-Stays P D dirs source fits q w target v on_target h)
              (λ _ u k. ends_ok k)
        by_kind false =
            Ends-and_then
              (ensure_safe_directory-Stays P D dirs source fits q w (parent_path target) v
                (NotOn-parent q target on_target) h)
              (λ _ u k.
                Settles-and_then _
                  (validate_paths-IsValidated (D.host u) source (path_text (parent_path target))
                    (dirs.hosts u) fits).1
                  k
                  (λ _ _ _.
                    recover_found-Ends item.record_ item.relative_path _ u
                      (find_record-IsByte records item.record_.record_id_guess bytes) k))

    pub items_loop-Ends :
        (items : List RecoverItem) (stats : RecoverStats) (v : World)
        → Left v
        → Ends
            (λ _ u. Left u)
            (λ _. ⊥)
            (items_loop P D open_database arrange options source cluster_size records destination
              items stats v)
    unfolding items_loop
    items_loop-Ends [] stats v h = ends_ok h
    items_loop-Ends (item ∷ items) stats v h =
        Ends-and_then (caught-Ends (recover_item-Ends item v h))
          (λ end u k. items_loop-Ends items (count end stats) u k)
