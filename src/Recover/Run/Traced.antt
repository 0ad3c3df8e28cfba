-- ===== src/Recover/Run/Traced.antt =====
-- The loop over the items: it ends, and how each item ended.
use mathlib.Core.List.{Memᴰ}
use just_give_my_disk.Common.{
  ℕ, ◌+◌, ◌<◌, ◌^◌, ◌≡◌, refl, Bool, true, false, Option, none, some, List, [], ◌∷◌, All, OnSome,
  arith, if◌then◌else◌,
}
use just_give_my_disk.Common.Bytes.{IsByte}
use just_give_my_disk.Database.{StoredRecord, Index}
use just_give_my_disk.Output.AtomicFile.{partial_of, is_replaceable}
use just_give_my_disk.Output.Posix.{Posix, IsPosix}
use just_give_my_disk.Output.Result.{
  Result, ok, throw, and_then, Ends, ends_ok, ends_throw, Ends-and_then, Ends-weaken,
  Settles-and_then, Ends-eq,
}
use just_give_my_disk.PathSafety.{Components, Source, validate_destination_path}
use just_give_my_disk.PathSafety.Validated.{validate_paths-IsValidated}
use just_give_my_disk.Recover.Copying.{recover_file}
use just_give_my_disk.Recover.Copying.Recovered.{IsRestored, recover_file-Returned}
use just_give_my_disk.Recover.Directories.{Directories, path_text, ensure_safe_directory}
use just_give_my_disk.Recover.Directories.Made.{IsDirectories, ensure_safe_directory-Stays}
use just_give_my_disk.Recover.Locating.{Located}
use just_give_my_disk.Recover.Options.{RecoverOptions, RecoverStats}
use just_give_my_disk.Recover.Run.{
  under, parent_path, find_record, ItemEnd, entered, recovered, skipped, count, caught,
  recover_found, recover_item, items_loop,
}
use just_give_my_disk.Recover.Run.Answers.{IsAnswer, find_record-IsAnswer, NotOn-nil}
use just_give_my_disk.Recover.Run.Items.{AreBytes, find_record-IsByte}
use just_give_my_disk.Recover.Tree.{RecoverItem}

-- The ends that are recoveries, and the ends that are skips.
unfoldable pub recovered_ends : List ItemEnd → ℕ
recovered_ends [] = 0
recovered_ends (recovered ∷ ends) = recovered_ends ends + 1
recovered_ends (entered ∷ ends) = recovered_ends ends
recovered_ends (skipped ∷ ends) = recovered_ends ends

unfoldable pub skipped_ends : List ItemEnd → ℕ
skipped_ends [] = 0
skipped_ends (skipped ∷ ends) = skipped_ends ends + 1
skipped_ends (entered ∷ ends) = skipped_ends ends
skipped_ends (recovered ∷ ends) = skipped_ends ends

module _ (P : Posix) (law : IsPosix P) (D : Directories P) (dirs : IsDirectories P D)
    (source : Source) (fits : source.block_device < 2 ^ 64)
    (open_database : List ℕ → P.World → Result Index × P.World)
    (arrange : List StoredRecord → List StoredRecord) (options : RecoverOptions)
    (destination : Components) (cluster_size : ℕ) (records : Located) where
  open P use {World, node}

  abbrev target_of : RecoverItem → Components
  target_of item = under destination item.relative_path

  -- A file whose located record was restored to the path below the destination, whole.
  pub record IsRecovered (item : RecoverItem) (u : World) : Type 0 where
    pub is_file : item.record_.is_directory ≡ false
    pub bytes : List ℕ
    pub located : Memᴰ (item.record_.record_id_guess, bytes) records
    pub restored :
        IsRestored P law source.fd cluster_size bytes item.record_.real_size
          (path_text (target_of item))
          u
    pub no_partial : node u (partial_of (path_text (target_of item))) ≡ none

  -- How an item that was begun in one world ended in another.
  pub data IsEnd (item : RecoverItem) (v u : World) : ItemEnd → Type 0 where
    of_directory :
        item.record_.is_directory ≡ true
        → ensure_safe_directory P D source (target_of item) v ≡ (ok tt, u)
        → IsEnd item v u entered
    of_file : IsRecovered item u → IsEnd item v u recovered
    not_located :
        item.record_.is_directory ≡ false
        → ((bytes : List ℕ) → ¬ (Memᴰ (item.record_.record_id_guess, bytes) records))
        → IsEnd item v u skipped
    refused :
        (bytes : List ℕ) (x : World)
        → item.record_.is_directory ≡ false
        → Memᴰ (item.record_.record_id_guess, bytes) records
        → recover_file P source.fd item.record_.real_size bytes cluster_size
            (path_text (target_of item))
            options.overwrite
            x
          ≡ (ok false, u)
        → IsEnd item v u skipped
    failed :
        recover_item P D open_database arrange options source cluster_size records destination item
            v
          ≡ (throw, u)
        → IsEnd item v u skipped

  -- The items, one after the other, each with its end.
  pub data Ran : List RecoverItem → World → List ItemEnd → World → Type 0 where
    finished : {v : World} → Ran [] v [] v
    ran :
        {item : RecoverItem} {items : List RecoverItem} {end : ItemEnd} {ends : List ItemEnd}
        {v x : World} (u : World)
        → IsEnd item v u end
        → Ran items u ends x
        → Ran (item ∷ items) v (end ∷ ends) x

  -- The items ran, and the stats count their ends.
  pub record IsTraced (items : List RecoverItem) (v : World) (before after : RecoverStats)
      (x : World) : Type 0 where
    pub ends : List ItemEnd
    pub all_ran : Ran items v ends x
    pub recovered_count : after.recovered ≡ before.recovered + recovered_ends ends
    pub skipped_count : after.skipped ≡ before.skipped + skipped_ends ends
    pub previewed : after.preview_items ≡ before.preview_items

  count-IsTraced :
      (item : RecoverItem) (items : List RecoverItem) (end : ItemEnd) (v u : World)
      (before after : RecoverStats) (x : World)
      → IsEnd item v u end
      → IsTraced items u (count end before) after x
      → IsTraced (item ∷ items) v before after x
  unfolding recovered_ends skipped_ends
  count-IsTraced item items entered v u before after x e h = record {
    ends = entered ∷ h.ends;
    all_ran = ran u e h.all_ran;
    recovered_count = h.recovered_count;
    skipped_count = h.skipped_count;
    previewed = h.previewed;
  }
  count-IsTraced item items recovered v u before after x e h = record {
    ends = recovered ∷ h.ends;
    all_ran = ran u e h.all_ran;
    recovered_count = omega (arith, h.recovered_count);
    skipped_count = h.skipped_count;
    previewed = h.previewed;
  }
  count-IsTraced item items skipped v u before after x e h = record {
    ends = skipped ∷ h.ends;
    all_ran = ran u e h.all_ran;
    recovered_count = h.recovered_count;
    skipped_count = omega (arith, h.skipped_count);
    previewed = h.previewed;
  }

  caught-IsEnd :
      {item : RecoverItem} {v : World} {m : Result ItemEnd × World}
      → Ends (λ end u. IsEnd item v u end) (λ _. Unit {0}) m
      → ((u : World) → m ≡ (throw, u) → IsEnd item v u skipped)
      → Ends (λ end u. IsEnd item v u end) (λ _. ⊥) (caught m)
  caught-IsEnd (ends_ok h) k = ends_ok h
  caught-IsEnd (ends_throw {w = u} h) k = ends_ok (k u refl)

  module _ (bytes_ : AreBytes records) where
    recover_found-IsEnd :
        (item : RecoverItem) (found : Option (List ℕ)) (v x : World)
        → item.record_.is_directory ≡ false
        → IsAnswer records item.record_.record_id_guess found
        → OnSome (All IsByte) found
        → Ends
            (λ end u. IsEnd item v u end)
            (λ _. Unit {0})
            (recover_found P D open_database arrange options source cluster_size item.record_
              (target_of item)
              found
              x)
    recover_found-IsEnd item none v x f a b = ends_ok (not_located f a)
    recover_found-IsEnd item (some found) v x f a b =
        Ends-and_then
          (Ends-eq (
            Ends-weaken
              (recover_file-Returned P law source.fd cluster_size found item.record_.real_size
                (path_text (target_of item)) options.overwrite x b)
              (λ done u r. r) (λ u t. tt)))
          (λ done u r. ends_ok (by_done done u r.0.restored r.1))
      where
        by_done :
            (done : Bool) (u : World)
            → (done ≡ true
                → IsRestored P law source.fd cluster_size found item.record_.real_size
                    (path_text (target_of item))
                    u
                  × (node u (partial_of (path_text (target_of item))) ≡ none)
                  × (is_replaceable options.overwrite (node x (path_text (target_of item))) ≡ true))
            → recover_file P source.fd item.record_.real_size found cluster_size
                (path_text (target_of item))
                options.overwrite
                x
              ≡ (ok done, u)
            → IsEnd item v u (if done then recovered else skipped)
        by_done true u r e = of_file (record {
          is_file = f;
          bytes = found;
          located = a;
          restored = (r refl).0;
          no_partial = (r refl).1;
        })
        by_done false u r e = refused found x f a e

    recover_item-IsEnd :
        (item : RecoverItem) (v : World)
        → Ends
            (λ end u. IsEnd item v u end)
            (λ _. Unit {0})
            (recover_item P D open_database arrange options source cluster_size records destination
              item v)
    unfolding recover_item
    recover_item-IsEnd item v = by_kind item.record_.is_directory refl
      where
        made :
            (c : Components) (x : World)
            → Ends (λ _ _. Unit {0}) (λ _. Unit {0}) (ensure_safe_directory P D source c x)
        made c x =
            Ends-weaken
              (ensure_safe_directory-Stays P D dirs source fits [] x c x (NotOn-nil c) refl)
              (λ _ u k. tt) (λ u k. tt)

        by_kind :
            (b : Bool)
            → item.record_.is_directory ≡ b
            → Ends
                (λ end u. IsEnd item v u end)
                (λ _. Unit {0})
                (elim b [
                  | true ↦
                      and_then
                        (ensure_safe_directory P D source (target_of item) v)
                        (λ _ u. (ok entered, u))
                  | false ↦
                      and_then
                        (ensure_safe_directory P D source (parent_path (target_of item)) v)
                        (λ _ u.
                          and_then
                            (
                              validate_destination_path
                                  (D.host u)
                                  source
                                  (path_text (parent_path (target_of item))),
                              u,
                            )
                            (λ _ x.
                              recover_found P D open_database arrange options source cluster_size
                                item.record_
                                (target_of item)
                                (find_record records item.record_.record_id_guess)
                                x))
                ])
        by_kind true e =
            Ends-and_then (Ends-eq (made (target_of item) v))
              (λ _ u k. ends_ok (of_directory e k.1))
        by_kind false e = Ends-and_then (made (parent_path (target_of item)) v) (λ _ u k.
            Settles-and_then _
              (validate_paths-IsValidated (D.host u) source
                (path_text (parent_path (target_of item))) (dirs.hosts u) fits).1
              tt
              (λ _ _ _.
                recover_found-IsEnd item (find_record records item.record_.record_id_guess) v u e
                  (find_record-IsAnswer records item.record_.record_id_guess)
                  (find_record-IsByte records item.record_.record_id_guess bytes_)))

    pub items_loop-IsTraced :
        (items : List RecoverItem) (stats : RecoverStats) (v : World)
        → Ends
            (IsTraced items v stats)
            (λ _. ⊥)
            (items_loop P D open_database arrange options source cluster_size records destination
              items stats v)
    unfolding items_loop recovered_ends skipped_ends
    items_loop-IsTraced [] stats v = ends_ok (record {
      ends = [];
      all_ran = finished;
      recovered_count = omega arith;
      skipped_count = omega arith;
      previewed = refl;
    })
    items_loop-IsTraced (item ∷ items) stats v =
        Ends-and_then (caught-IsEnd (recover_item-IsEnd item v) (λ u e. failed e)) (λ end u k.
          Ends-weaken (items_loop-IsTraced items (count end stats) u)
            (λ after x h. count-IsTraced item items end v u stats after x k h) (λ x z. z))
