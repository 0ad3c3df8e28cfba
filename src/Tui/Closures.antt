-- ===== src/Tui/Closures.antt =====
-- src/Tui.cpp: the closures of `run_tui` that the handler of events calls.
use just_give_my_disk.Common.{
  ℕ, Bool, true, false, ◌||◌, ◌&&◌, not, Option, none, some, List, [], ◌∷◌, ◌++◌, ◌==◌,
  if◌then◌else◌,
}
use just_give_my_disk.Common.Int.{ℤ, pos, negsuc}
use just_give_my_disk.Common.Strings.{codes}
use just_give_my_disk.Database.{StoredRecord}
use just_give_my_disk.Output.Result.{Result, ok, throw, stuck, bind}
use just_give_my_disk.Recover.Options.{RecoverOptions}
use just_give_my_disk.Tui.Devices.{BlockDevice}
use just_give_my_disk.Tui.Views.{append_log, parent_chain, tree_preview}
use just_give_my_disk.Tui.State.{
  Page, results_page, text_page, TextView, search_error, chain_text, chain_error, tree_text,
  tree_error, recover_text, recover_error, ScanOptions, Worker, no_worker, running, ending, ended,
  Tui, Backend,
}

-- How the handler ends: with true, with false, or as the loop's end; or it waits for a thread that
-- still scans.
pub data Outcome : Type 0 where
  handled : Tui → Outcome
  unhandled : Tui → Outcome
  exits : Tui → Outcome
  waits : Tui → Outcome

abbrev pub to_page : Page → Tui → Tui
to_page p s = record s { page = p }

abbrev pub with_text : TextView → Tui → Tui
with_text t s = record s { text_ = t; page = text_page }

-- A `try` block: what follows a value, and the text that an exception shows.
abbrev pub try_text : {A : Type 0} → Result A → (A → Tui) → TextView → Tui → Result Tui
try_text (ok a) f t s = ok (f a)
try_text throw f t s = ok (with_text t s)
try_text stuck f t s = stuck

-- `join_worker`, and what follows it.
abbrev pub join_worker : Worker → Tui → (Tui → Outcome) → Outcome
join_worker no_worker s f = f s
join_worker (running options) s f = waits s
join_worker ending s f = waits s
join_worker ended s f = f (record s { worker = no_worker })

abbrev pub scan_options : BlockDevice → Tui → ScanOptions
scan_options device s = record {
  source = device.path;
  database_path = s.inputs.database_path;
  target = none;
}

abbrev pub scan_device : Option BlockDevice → Tui → Outcome
scan_device none s = handled s
scan_device (some device) s = elim s.scan_running [
  | true ↦ handled s
  | false ↦
      join_worker s.worker (record s { scan_running = true; scan_done = false; logs = [] })
        (λ s'. handled (record s' { worker = running (scan_options device s) }))
]

unfoldable pub start_scan : Tui → Outcome
start_scan s = scan_device s.selected_device s

abbrev pub is_pos : ℕ → ℤ → Bool
is_pos n (pos m) = m == n
is_pos n (negsuc m) = false

abbrev pub is_wanted : ℤ → StoredRecord → Bool
is_wanted mode row = (is_pos 0 mode && row.is_directory) || (is_pos 1 mode && not row.is_directory)

unfoldable pub wanted_rows : ℤ → List StoredRecord → List StoredRecord
wanted_rows mode [] = []
wanted_rows mode (row ∷ rows) =
    let rest = wanted_rows mode rows in if is_wanted mode row then row ∷ rest else rest

-- The state behind the clearing of the results.
abbrev pub cleared : Tui → Tui
cleared s = record s { results = []; selected_record = none }

abbrev pub found_rows : Tui → List StoredRecord → Tui
found_rows s rows = record s {
  results = wanted_rows s.inputs.search_mode rows;
  inputs = record s.inputs { result_index = pos 0 };
  page = results_page;
}

-- The log of a recovery's messages, from an empty one.
unfoldable pub log_messages : List (List ℕ) → List (List ℕ) → List (List ℕ)
log_messages logs [] = logs
log_messages logs (message ∷ messages) = log_messages (append_log logs message) messages

-- `logs.empty() ? "" : logs.back()`
abbrev pub last_log : List (List ℕ) → List ℕ
last_log [] = []
last_log (log ∷ []) = log
last_log (log ∷ log' ∷ logs) = last_log (log' ∷ logs)

abbrev pub final_code : List ℕ → ℕ
final_code [] = 0
final_code (c ∷ []) = c
final_code (c ∷ c' ∷ cs) = final_code (c' ∷ cs)

-- `path / "recovered"`: a separator unless the path ends in one.
abbrev pub in_directory : List ℕ → List ℕ
in_directory path =
    if final_code path == 47 then path ++ codes "recovered" else path ++ codes "/recovered"

module _ (b : Backend) where
  unfoldable pub do_search : Tui → Result Tui
  do_search s =
      try_text
        (bind (b.open_database s.inputs.database_path) (λ db. db.find_by_name s.inputs.search_text))
        (found_rows (cleared s)) search_error (cleared s)

  abbrev pub chain_of : Option StoredRecord → Tui → Result Tui
  chain_of none s = ok s
  chain_of (some record_) s =
      try_text
        (bind (b.open_database s.inputs.database_path)
          (λ db. parent_chain db.get_by_record_id record_))
        (λ lines. with_text (chain_text lines) s) chain_error s

  unfoldable pub show_parent_chain : Tui → Result Tui
  show_parent_chain s = chain_of s.selected_record s

  abbrev pub tree_of : Option StoredRecord → Tui → Result Tui
  tree_of none s = ok s
  tree_of (some record_) s =
      let root = if record_.is_directory then record_.record_id_guess else record_.parent_ref in
      try_text
        (bind (b.open_database s.inputs.database_path) (λ db. tree_preview db.children_of root))
        (λ p. with_text (tree_text record_.is_directory p.0) s) tree_error s

  unfoldable pub show_tree : Tui → Result Tui
  show_tree s = tree_of s.selected_record s

  abbrev pub recover_options : Bool → BlockDevice → StoredRecord → Tui → RecoverOptions
  recover_options dry_run_ device record_ s = record {
    source = device.path;
    database_path = s.inputs.database_path;
    root_record_id = record_.record_id_guess;
    destination = s.inputs.destination_path;
    dry_run = dry_run_;
    overwrite = false;
  }

  abbrev pub recover_with : RecoverOptions → Tui → Result Tui
  recover_with options s =
      let ran = b.recover options in
      let s' = record s { logs = log_messages [] ran.1; recoveries = options ∷ s.recoveries } in
      try_text ran.0 (λ stats. with_text (recover_text options.dry_run (last_log s'.logs) stats) s')
        (recover_error options.dry_run) s'

  abbrev pub recover_selected : Bool → Option BlockDevice → Option StoredRecord → Tui → Result Tui
  recover_selected dry_run_ none record_ s = ok s
  recover_selected dry_run_ (some device) none s = ok s
  recover_selected dry_run_ (some device) (some record_) s = elim record_.is_directory [
    | false ↦ ok s
    | true ↦
        bind (recover_with (recover_options dry_run_ device record_ s) s)
          (λ s'. ok (to_page text_page s'))
  ]

  unfoldable pub run_recover : Bool → Tui → Result Tui
  run_recover dry_run_ s = recover_selected dry_run_ s.selected_device s.selected_record s

  abbrev pub default_destination : List ℕ → Tui → Result Tui
  default_destination [] s =
      bind b.current_path (λ path.
        ok (record s { inputs = record s.inputs { destination_path = in_directory path } }))
  default_destination (c ∷ cs) s = ok s

  unfoldable pub with_destination : Tui → Result Tui
  with_destination s = default_destination s.inputs.destination_path s
