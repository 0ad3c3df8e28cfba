-- ===== src/Tui/Steps.antt =====
-- src/Tui.cpp: the steps of the loop of events and of the scanning thread, and the states they reach.
-- The widgets' changes of their variables are a parameter.
mod Tests
pub mod Outcomes
pub mod Keeps
pub mod Tracked
pub mod Rehearsed
pub mod Left
pub mod Typed
use just_give_my_disk.Common.{ℕ, Bool, true, false, Option, List, [], ◌∷◌, ◌≡◌, refl}
use just_give_my_disk.Output.Result.{Result, ok, Settles, settled, thrown}
use just_give_my_disk.Tui.Devices.{BlockDevice}
use just_give_my_disk.Tui.Views.{append_log}
use just_give_my_disk.Tui.State.{
  Event, Inputs, ScanOptions, ScanProgress, Worker, running, ending, ended, Tui, Backend,
  first_state,
}
use just_give_my_disk.Tui.Closures.{Outcome, handled, unhandled}
use just_give_my_disk.Tui.Machine.{handle}

abbrev pub with_inputs : Inputs → Tui → Tui
with_inputs i s = record s { inputs = i }

-- The callback of `Scanner::run`.
abbrev pub on_progress : ScanProgress → Tui → Tui
on_progress progress s = record s {
  scan_stats = progress.stats;
  scan_total = progress.total_size;
  logs = append_log s.logs progress.message;
}

-- The handler of an exception of `Scanner::run`.
abbrev pub on_scan_error : List ℕ → Tui → Tui
on_scan_error message s = record s { logs = append_log s.logs message; worker = ending }

-- The end of the thread.
abbrev pub on_scan_end : Tui → Tui
on_scan_end s = record s { scan_running = false; scan_done = true; worker = ended }

module _ (b : Backend) (Edits : Event → Inputs → Inputs → Type 0) where
  -- An event that is handled; one that reaches the widgets; and the steps of the thread.
  pub data Step : Tui → Tui → Type 0 where
    reacts : {s s' : Tui} (e : Event) → handle b e s ≡ ok (handled s') → Step s s'
    edits :
        {s s' : Tui} {i : Inputs} (e : Event)
        → handle b e s ≡ ok (unhandled s')
        → Edits e s'.inputs i
        → Step s (with_inputs i s')
    progresses :
        {s : Tui} {options : ScanOptions} (progress : ScanProgress)
        → s.worker ≡ running options
        → Step s (on_progress progress s)
    fails :
        {s : Tui} {options : ScanOptions} (message : List ℕ)
        → s.worker ≡ running options
        → Step s (on_scan_error message s)
    completes :
        {s : Tui} {options : ScanOptions}
        → s.worker ≡ running options
        → Step s (record s { worker = ending })
    finishes : {s : Tui} → s.worker ≡ ending → Step s (on_scan_end s)

  -- The states that the program reaches from a state.
  pub data Reached (first : Tui) : Tui → Type 0 where
    starts : Reached first first
    steps : {s s' : Tui} → Reached first s → Step s s' → Reached first s'
