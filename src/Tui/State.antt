-- ===== src/Tui/State.antt =====
-- src/Tui.cpp, src/Scanner.hpp: what `run_tui` keeps between two events. The entries of the menus
-- of devices and of results are those of the lists, and left out; a text is the data it shows.
use just_give_my_disk.Common.{ℕ, Bool, false, Option, none, List, []}
use just_give_my_disk.Common.Int.{ℤ, pos}
use just_give_my_disk.Common.Strings.{codes}
use just_give_my_disk.Database.{StoredRecord, Index}
use just_give_my_disk.Output.Result.{Result}
use just_give_my_disk.Recover.Options.{RecoverOptions, RecoverStats}
use just_give_my_disk.Scanner.{ScanStats, no_stats}
use just_give_my_disk.Tui.Devices.{BlockDevice}
use just_give_my_disk.Tui.Views.{ChainLine, TreeLine}

pub data Page : Type 0 where
  devices_page : Page
  warning : Page
  scanning : Page
  search : Page
  results_page : Page
  actions_page : Page
  text_page : Page
  recover_dest : Page
  confirm_recover : Page

-- What FTXUI calls the handler with: a character, `Event::Return`, or any other event.
pub data Event : Type 0 where
  character : ℕ → Event
  enter : Event
  other : Event

-- The variables that the widgets write.
pub record Inputs : Type 0 where
  pub device_index : ℤ
  pub result_index : ℤ
  pub action_index : ℤ
  pub search_mode : ℤ
  pub database_path : List ℕ
  pub search_text : List ℕ
  pub destination_path : List ℕ

pub data Action : Type 0 where
  parent_chain_action : Action
  preview_tree_action : Action
  containing_tree_action : Action
  dry_run_action : Action
  recover_action : Action

-- `text_title` and `text_body`. The text of an exception is left out.
pub data TextView : Type 0 where
  no_text : TextView
  search_error : TextView
  chain_text : List ChainLine → TextView
  chain_error : TextView
  tree_text : Bool → List TreeLine → TextView
  tree_error : TextView
  recover_text : Bool → List ℕ → RecoverStats → TextView
  recover_error : Bool → TextView

pub record ScanOptions : Type 0 where
  pub source : List ℕ
  pub database_path : List ℕ
  pub target : Option (List ℕ)

pub record ScanProgress : Type 0 where
  pub stats : ScanStats
  pub total_size : Option ℕ
  pub message : List ℕ

-- The scanning thread: none, in `Scanner::run`, behind it, or with `scan_running` reset.
pub data Worker : Type 0 where
  no_worker : Worker
  running : ScanOptions → Worker
  ending : Worker
  ended : Worker

pub record Tui : Type 0 where
  pub page : Page
  pub devices : List BlockDevice
  pub inputs : Inputs
  pub scan_running : Bool
  pub scan_done : Bool
  pub real_recover_confirmed : Bool
  pub selected_device : Option BlockDevice
  pub selected_record : Option StoredRecord
  pub text_ : TextView
  pub results : List StoredRecord
  pub actions : List Action
  pub logs : List (List ℕ)
  pub scan_stats : ScanStats
  pub scan_total : Option ℕ
  pub worker : Worker
  -- the recoveries that were asked for, the latest first
  pub recoveries : List RecoverOptions

abbrev pub first_inputs : Inputs
first_inputs = record {
  device_index = pos 0;
  result_index = pos 0;
  action_index = pos 0;
  search_mode = pos 0;
  database_path = codes "scan.db";
  search_text = [];
  destination_path = [];
}

abbrev pub first_state : List BlockDevice → Tui
first_state detected = record {
  page = devices_page;
  devices = detected;
  inputs = first_inputs;
  scan_running = false;
  scan_done = false;
  real_recover_confirmed = false;
  selected_device = none;
  selected_record = none;
  text_ = no_text;
  results = [];
  actions = [];
  logs = [];
  scan_stats = no_stats;
  scan_total = none;
  worker = no_worker;
  recoveries = [];
}

-- The rest of the program, as a handler meets it: opening the index of a path, a recovery with the
-- messages it logs, and the working directory.
pub record Backend : Type 0 where
  pub open_database : List ℕ → Result Index
  pub recover : RecoverOptions → Result RecoverStats × List (List ℕ)
  pub current_path : Result (List ℕ)
