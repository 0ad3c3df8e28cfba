-- ===== src/Tui/Steps/Keeps.antt =====
-- Invariants of the loop of events: what each action has to keep, for a property to hold of every
-- state that is reached.
use just_give_my_disk.Common.{
  ℕ, ◌≡◌, refl, ap, zero, suc, Bool, true, false, ◌&&◌, ◌==◌, Option, none, some, List, [], ◌∷◌,
}
use just_give_my_disk.Common.Int.{ℤ, pos, negsuc}
use just_give_my_disk.Database.{StoredRecord}
use just_give_my_disk.Output.Result.{ok, bind}
use just_give_my_disk.Tui.Devices.{BlockDevice}
use just_give_my_disk.Tui.State.{
  Page, devices_page, warning, scanning, search, results_page, actions_page, text_page,
  recover_dest, confirm_recover, Event, character, enter, other, TextView, Tui, Backend, ending,
  Inputs, ScanProgress, search_error, chain_text, chain_error, tree_text, tree_error,
}
use just_give_my_disk.Tui.Closures.{
  handled, to_page, with_text, start_scan, do_search, show_parent_chain, chain_of, show_tree,
  tree_of, run_recover, cleared, found_rows, in_directory, join_worker, with_destination,
  default_destination,
}
use just_give_my_disk.Tui.Machine.{
  on_quit, is_folder, choose_device, choose_record, dry_run_folder, ask_destination, run_action,
  on_enter, handle, at_index,
}
use just_give_my_disk.Tui.Steps.{
  with_inputs, on_progress, on_scan_error, on_scan_end, Step, reacts, edits, progresses, fails,
  completes, finishes, Reached, starts, steps,
}
use just_give_my_disk.Tui.Steps.Outcomes.{
  Holds-ok, OnOutcome-handled, OnOutcome-unhandled, is_slash, unhandled-slash, Holds, holds,
  current_path-Holds, on_handled, on_unhandled, on_exits, try_text-Holds, Holds-bind, Holds-elim,
  OnOutcome, is_scanning, handles-Holds, OnOutcome-elim,
}

-- The pages that any page can lead to.
abbrev pub is_free : Page → Bool
is_free devices_page = false
is_free warning = false
is_free scanning = true
is_free search = true
is_free results_page = true
is_free actions_page = true
is_free text_page = true
is_free recover_dest = true
is_free confirm_recover = false

-- What the actions of the handler keep. W is what a wait for a thread that still scans shows.
pub record Keeps (b : Backend) (W : Type 0) (P : Tui → Type 0) : Type 0 where
  pub free_page : (p : Page) (s : Tui) → is_free p ≡ true → P s → P (to_page p s)
  pub device_page : (s : Tui) → s.page ≡ warning → P s → P (to_page devices_page s)
  pub device :
      (d : BlockDevice) (s : Tui) → s.page ≡ devices_page → P s → P (choose_device (some d) s)
  pub record_ : (r : StoredRecord) (s : Tui) → P s → P (choose_record (some r) s)
  pub scan : (s : Tui) → s.page ≡ warning → P s → OnOutcome W P (start_scan (to_page scanning s))
  pub scanned :
      (s : Tui)
      → s.scan_done ≡ true
      → P s
      → OnOutcome W P (join_worker s.worker s (λ s'. handled (to_page search s')))
  pub cleared_ : (s : Tui) → P s → P (cleared s)
  pub found : (rows : List StoredRecord) (s : Tui) → P s → P (found_rows s rows)
  pub text_ : (t : TextView) (s : Tui) → P s → P (with_text t s)
  pub dry_run : (s : Tui) → P s → Holds b P (run_recover b true s)
  pub rehearsal :
      (s : Tui)
      → P s
      → Holds b P (
          bind
            (run_recover b true (record s { real_recover_confirmed = false }))
            (λ s'. ok (to_page confirm_recover s')))
  pub recovery :
      (s : Tui)
      → s.page ≡ confirm_recover
      → P s
      → Holds b P (run_recover b false (record s { real_recover_confirmed = true }))
  pub destination :
      (path : List ℕ) (s : Tui)
      → P s
      → P (record s { inputs = record s.inputs { destination_path = path } })

module _ {b : Backend} {W : Type 0} {P : Tui → Type 0} (k : Keeps b W P) where
  do_search-Holds : (s : Tui) → P s → Holds b P (do_search b s)
  unfolding do_search
  do_search-Holds s h =
      let h' = k.cleared_ s h in
      try_text-Holds _ _ _ _ (λ rows. k.found rows (cleared s) h')
        (k.text_ search_error (cleared s) h')

  chain_of-Holds : (r : Option StoredRecord) (s : Tui) → P s → Holds b P (chain_of b r s)
  chain_of-Holds none s h = holds h
  chain_of-Holds (some r) s h =
      try_text-Holds _ _ _ _ (λ lines. k.text_ (chain_text lines) s h) (k.text_ chain_error s h)

  tree_of-Holds : (r : Option StoredRecord) (s : Tui) → P s → Holds b P (tree_of b r s)
  tree_of-Holds none s h = holds h
  tree_of-Holds (some r) s h =
      try_text-Holds _ _ _ _ (λ p. k.text_ (tree_text r.is_directory p.0) s h)
        (k.text_ tree_error s h)

  with_destination-Holds : (s : Tui) → P s → Holds b P (with_destination b s)
  unfolding with_destination
  with_destination-Holds s h = by_path s.inputs.destination_path
    where
      by_path : (path : List ℕ) → Holds b P (default_destination b path s)
      by_path [] =
          Holds-bind (current_path-Holds b)
            (λ path _. holds (k.destination (in_directory path) s h))
      by_path (c ∷ cs) = holds h

  dry_run_folder-Holds : (s : Tui) → P s → Holds b P (dry_run_folder b s)
  unfolding dry_run_folder
  dry_run_folder-Holds s h = Holds-bind (with_destination-Holds s h) k.dry_run

  ask_destination-Holds : (s : Tui) → P s → Holds b P (ask_destination b s)
  unfolding ask_destination
  ask_destination-Holds s h =
      Holds-bind (with_destination-Holds s h) (λ s' h'. holds (k.free_page recover_dest s' refl h'))

  run_action-Holds : (i : ℤ) (s : Tui) → P s → Holds b P (run_action b i s)
  unfolding show_parent_chain show_tree
  run_action-Holds (negsuc n) s h = holds h
  run_action-Holds (pos zero) s h = chain_of-Holds s.selected_record s h
  run_action-Holds (pos (suc zero)) s h = tree_of-Holds s.selected_record s h
  run_action-Holds (pos (suc (suc zero))) s h =
      Holds-elim (is_folder s.selected_record) (λ t. dry_run_folder-Holds s h) (λ f. holds h)
  run_action-Holds (pos (suc (suc (suc zero)))) s h =
      Holds-elim (is_folder s.selected_record) (λ t. ask_destination-Holds s h) (λ f. holds h)
  run_action-Holds (pos (suc (suc (suc (suc n))))) s h = holds h

  choose_device-Holds :
      (d : Option BlockDevice) (s : Tui) → s.page ≡ devices_page → P s → P (choose_device d s)
  choose_device-Holds none s e h = h
  choose_device-Holds (some d) s e h = k.device d s e h

  choose_record-Holds : (r : Option StoredRecord) (s : Tui) → P s → P (choose_record r s)
  choose_record-Holds none s h = h
  choose_record-Holds (some r) s h = k.record_ r s h

  on_quit-OnOutcome : (p : Page) (s : Tui) → s.page ≡ p → P s → OnOutcome W P (on_quit p s)
  on_quit-OnOutcome devices_page s e h = on_exits e h
  on_quit-OnOutcome results_page s e h = on_handled (k.free_page search s refl h)
  on_quit-OnOutcome warning s e h = on_handled (k.device_page s e h)
  on_quit-OnOutcome scanning s e h =
      OnOutcome-elim s.scan_done (λ t. on_handled (k.free_page search s refl h))
        (λ f. on_handled (k.free_page results_page s refl h))
  on_quit-OnOutcome search s e h = on_handled (k.free_page results_page s refl h)
  on_quit-OnOutcome actions_page s e h = on_handled (k.free_page results_page s refl h)
  on_quit-OnOutcome text_page s e h = on_handled (k.free_page results_page s refl h)
  on_quit-OnOutcome recover_dest s e h = on_handled (k.free_page results_page s refl h)
  on_quit-OnOutcome confirm_recover s e h = on_handled (k.free_page results_page s refl h)

  on_enter-Holds :
      (p : Page) (s : Tui) → s.page ≡ p → P s → Holds b (OnOutcome W P) (on_enter b p s)
  unfolding on_enter
  on_enter-Holds devices_page s e h =
      holds (on_handled (choose_device-Holds (at_index s.devices s.inputs.device_index) s e h))
  on_enter-Holds warning s e h = holds (k.scan s e h)
  on_enter-Holds scanning s e h =
      Holds-elim s.scan_done (λ t. holds (k.scanned s t h)) (λ f. holds (on_unhandled h))
  on_enter-Holds search s e h = handles-Holds (do_search-Holds s h)
  on_enter-Holds results_page s e h =
      holds (on_handled (choose_record-Holds (at_index s.results s.inputs.result_index) s h))
  on_enter-Holds actions_page s e h = handles-Holds (run_action-Holds s.inputs.action_index s h)
  on_enter-Holds recover_dest s e h = handles-Holds (k.rehearsal s h)
  on_enter-Holds confirm_recover s e h =
      Holds-elim s.real_recover_confirmed (λ t. holds (on_handled h))
        (λ f. handles-Holds (k.recovery s e h))
  on_enter-Holds text_page s e h = holds (on_handled (k.free_page results_page s refl h))

  pub handle-Holds : (e : Event) (s : Tui) → P s → Holds b (OnOutcome W P) (handle b e s)
  unfolding handle
  handle-Holds (character c) s h =
      Holds-elim (c == 113) (λ _. holds (on_quit-OnOutcome s.page s refl h))
        (λ _.
          Holds-elim (c == 47) (λ _. holds (on_handled (k.free_page search s refl h)))
            (λ _.
              Holds-elim (c == 100 && is_folder s.selected_record)
                (λ _. handles-Holds (dry_run_folder-Holds s h))
                (λ _.
                  Holds-elim (c == 114 && is_folder s.selected_record)
                    (λ _. handles-Holds (ask_destination-Holds s h))
                    (λ _. holds (on_unhandled h)))))
  handle-Holds enter s h = on_enter-Holds s.page s refl h
  handle-Holds other s h = holds (on_unhandled h)

-- What the steps of the thread and the widgets keep too.
pub record KeepsSteps (b : Backend) (Edits : Event → Inputs → Inputs → Type 0) (W : Type 0)
    (P : Tui → Type 0) : Type 0 where
  pub handler : Keeps b W P
  pub edit :
      (e : Event) (i : Inputs) (s : Tui)
      → is_slash e ≡ false
      → Edits e s.inputs i
      → P s
      → P (with_inputs i s)
  pub progress_ :
      (progress : ScanProgress) (s : Tui)
      → is_scanning s.worker ≡ true
      → P s
      → P (on_progress progress s)
  pub failure :
      (message : List ℕ) (s : Tui) → is_scanning s.worker ≡ true → P s → P (on_scan_error message s)
  pub completion : (s : Tui) → is_scanning s.worker ≡ true → P s → P (record s { worker = ending })
  pub finish : (s : Tui) → is_scanning s.worker ≡ true → P s → P (on_scan_end s)

module _ {b : Backend} {Edits : Event → Inputs → Inputs → Type 0} {W : Type 0} {P : Tui → Type 0}
    (k : KeepsSteps b Edits W P) where
  pub Step-Keeps : {s s' : Tui} → P s → Step b Edits s s' → P s'
  Step-Keeps {s = s} h (reacts e r) = OnOutcome-handled (Holds-ok (handle-Holds k.handler e s h) r)
  Step-Keeps {s = s} h (edits {s' = s'} {i = i} e r w) =
      k.edit e i s' (unhandled-slash b e s s' r) w
        (OnOutcome-unhandled (Holds-ok (handle-Holds k.handler e s h) r))
  Step-Keeps {s = s} h (progresses progress r) = k.progress_ progress s (ap is_scanning r) h
  Step-Keeps {s = s} h (fails message r) = k.failure message s (ap is_scanning r) h
  Step-Keeps {s = s} h (completes r) = k.completion s (ap is_scanning r) h
  Step-Keeps {s = s} h (finishes r) = k.finish s (ap is_scanning r) h

  pub Reached-Keeps : {first s : Tui} → P first → Reached b Edits first s → P s
  Reached-Keeps h starts = h
  Reached-Keeps h (steps r t) = Step-Keeps (Reached-Keeps h r) t
