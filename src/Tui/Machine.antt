-- ===== src/Tui/Machine.antt =====
-- src/Tui.cpp: the handler of events of `run_tui`, and the scanning thread. A handler runs as a whole
-- between two steps of the thread, which changes the state under `state_mutex`.
use just_give_my_disk.Common.{
  ℕ, zero, suc, Bool, true, false, ◌&&◌, Option, none, some, List, [], ◌∷◌, ◌==◌,
}
use just_give_my_disk.Common.Int.{ℤ, pos, negsuc}
use just_give_my_disk.Database.{StoredRecord}
use just_give_my_disk.Output.Result.{Result, ok, bind}
use just_give_my_disk.Tui.Devices.{BlockDevice}
use just_give_my_disk.Tui.State.{
  Page, devices_page, warning, scanning, search, results_page, actions_page, text_page,
  recover_dest, confirm_recover, Event, character, enter, other, Action, parent_chain_action,
  preview_tree_action, containing_tree_action, dry_run_action, recover_action, Tui, Backend,
}
use just_give_my_disk.Tui.Closures.{
  Outcome, handled, unhandled, exits, to_page, join_worker, start_scan, do_search,
  show_parent_chain, show_tree, run_recover, with_destination,
}

-- The character q.
abbrev pub on_quit : Page → Tui → Outcome
on_quit devices_page s = exits s
on_quit results_page s = handled (to_page search s)
on_quit warning s = handled (to_page devices_page s)
on_quit scanning s = elim s.scan_done [
  | true ↦ handled (to_page search s)
  | false ↦ handled (to_page results_page s)
]
on_quit search s = handled (to_page results_page s)
on_quit actions_page s = handled (to_page results_page s)
on_quit text_page s = handled (to_page results_page s)
on_quit recover_dest s = handled (to_page results_page s)
on_quit confirm_recover s = handled (to_page results_page s)

-- `selected_record && selected_record->is_directory`
abbrev pub is_folder : Option StoredRecord → Bool
is_folder none = false
is_folder (some record_) = record_.is_directory

-- What a menu's index selects of its list.
unfoldable pub nth {ℓ} : {A : Type ℓ} → List A → ℕ → Option A
nth [] i = none
nth (x ∷ xs) zero = some x
nth (x ∷ xs) (suc i) = nth xs i

abbrev pub at_index {ℓ} : {A : Type ℓ} → List A → ℤ → Option A
at_index xs (pos n) = nth xs n
at_index xs (negsuc n) = none

abbrev pub choose_device : Option BlockDevice → Tui → Tui
choose_device none s = s
choose_device (some device) s = record s { selected_device = some device; page = warning }

abbrev pub record_actions : Bool → List Action
record_actions true =
    parent_chain_action ∷ preview_tree_action ∷ dry_run_action ∷ recover_action ∷ []
record_actions false = parent_chain_action ∷ containing_tree_action ∷ []

abbrev pub choose_record : Option StoredRecord → Tui → Tui
choose_record none s = s
choose_record (some record_) s = record s {
  selected_record = some record_;
  actions = record_actions record_.is_directory;
  inputs = record s.inputs { action_index = pos 0 };
  page = actions_page;
}

abbrev pub handles : Result Tui → Result Outcome
handles m = bind m (λ s. ok (handled s))

module _ (b : Backend) where
  -- The dry run of the keys and of the menu.
  unfoldable pub dry_run_folder : Tui → Result Tui
  dry_run_folder s = bind (with_destination b s) (run_recover b true)

  unfoldable pub ask_destination : Tui → Result Tui
  ask_destination s = bind (with_destination b s) (λ s'. ok (to_page recover_dest s'))

  -- The menu of actions: the entries 2 and 3 are those of a directory.
  abbrev pub run_action : ℤ → Tui → Result Tui
  run_action (negsuc n) s = ok s
  run_action (pos zero) s = show_parent_chain b s
  run_action (pos (suc zero)) s = show_tree b s
  run_action (pos (suc (suc zero))) s = elim (is_folder s.selected_record) [
    | true ↦ dry_run_folder s
    | false ↦ ok s
  ]
  run_action (pos (suc (suc (suc zero)))) s = elim (is_folder s.selected_record) [
    | true ↦ ask_destination s
    | false ↦ ok s
  ]
  run_action (pos (suc (suc (suc (suc n))))) s = ok s

  -- `Event::Return`
  unfoldable pub on_enter : Page → Tui → Result Outcome
  on_enter devices_page s =
      ok (handled (choose_device (at_index s.devices s.inputs.device_index) s))
  on_enter warning s = ok (start_scan (to_page scanning s))
  on_enter scanning s = elim s.scan_done [
    | true ↦ ok (join_worker s.worker s (λ s'. handled (to_page search s')))
    | false ↦ ok (unhandled s)
  ]
  on_enter search s = handles (do_search b s)
  on_enter results_page s =
      ok (handled (choose_record (at_index s.results s.inputs.result_index) s))
  on_enter actions_page s = handles (run_action s.inputs.action_index s)
  on_enter recover_dest s = handles (
      bind (run_recover b true (record s { real_recover_confirmed = false }))
        (λ s'. ok (to_page confirm_recover s')))
  on_enter confirm_recover s = elim s.real_recover_confirmed [
    | true ↦ ok (handled s)
    | false ↦ handles (run_recover b false (record s { real_recover_confirmed = true }))
  ]
  on_enter text_page s = ok (handled (to_page results_page s))

  -- The keys: q, /, d and r.
  abbrev pub on_character : ℕ → Tui → Result Outcome
  on_character c s = elim (c == 113) [
    | true ↦ ok (on_quit s.page s)
    | false ↦ elim (c == 47) [
      | true ↦ ok (handled (to_page search s))
      | false ↦ elim (c == 100 && is_folder s.selected_record) [
        | true ↦ handles (dry_run_folder s)
        | false ↦ elim (c == 114 && is_folder s.selected_record) [
          | true ↦ handles (ask_destination s)
          | false ↦ ok (unhandled s)
        ]
      ]
    ]
  ]

  -- The handler that `CatchEvent` is given.
  unfoldable pub handle : Event → Tui → Result Outcome
  handle (character c) s = on_character c s
  handle enter s = on_enter s.page s
  handle other s = ok (unhandled s)
