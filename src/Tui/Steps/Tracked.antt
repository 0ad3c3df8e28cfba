-- ===== src/Tui/Steps/Tracked.antt =====
-- The flags of the scan and its thread.
use mathlib.Core.Bool.{true≢false}
use just_give_my_disk.Common.{
  ℕ, ◌≤◌, ◌≡◌, ◌≢◌, refl, sym, ◌∙◌, Bool, true, false, ◌&&◌, Option, none, some, List, [], ◌∷◌,
  length, ◌++◌, ◌-◌, length-drop, arith,
}
use just_give_my_disk.Database.{StoredRecord}
use just_give_my_disk.Output.Result.{ok}
use just_give_my_disk.Tui.Devices.{BlockDevice}
use just_give_my_disk.Tui.Views.{append_log, max_logs}
use just_give_my_disk.Tui.State.{scanning, search, Event, Tui, Backend, Inputs, first_state}
use just_give_my_disk.Tui.Closures.{
  handled, waits, join_worker, to_page, scan_device, start_scan, run_recover, recover_selected,
  recover_options, log_messages,
}
use just_give_my_disk.Tui.Machine.{handle}
use just_give_my_disk.Tui.Steps.{Reached}
use just_give_my_disk.Tui.Steps.Keeps.{Keeps, KeepsSteps, Reached-Keeps, handle-Holds}
use just_give_my_disk.Tui.Steps.Outcomes.{
  Holds-ok, on_waits, Holds, holds, on_handled, try_text-Holds, Holds-bind, Holds-elim, OnOutcome,
  is_scanning, OnOutcome-elim, join_worker-OnOutcome,
}

-- The flag is set while the thread scans, the scan is not done then, and the log is short.
abbrev pub IsTracked : Tui → Type 0
IsTracked s =
    (s.scan_running ≡ is_scanning s.worker)
    × ((s.scan_running && s.scan_done) ≡ false)
    × (length s.logs ≤ max_logs)

append_log-short :
    {A : Type 0} (logs : List A) (message : A) → length (append_log logs message) ≤ max_logs
unfolding append_log
append_log-short logs message =
    ground (arith, length-drop (length (logs ++ message ∷ []) - max_logs) (logs ++ message ∷ []))

log_messages-short :
    (logs messages : List (List ℕ))
    → length logs ≤ max_logs
    → length (log_messages logs messages) ≤ max_logs
unfolding log_messages
log_messages-short logs [] h = h
log_messages-short logs (message ∷ messages) h =
    log_messages-short (append_log logs message) messages (append_log-short logs message)

module _ (b : Backend) where
  recover_selected-IsTracked :
      (dry_run : Bool) (device : Option BlockDevice) (record_ : Option StoredRecord) (s : Tui)
      → IsTracked s
      → Holds b IsTracked (recover_selected b dry_run device record_ s)
  recover_selected-IsTracked dry_run none record_ s h = holds h
  recover_selected-IsTracked dry_run (some device) none s h = holds h
  recover_selected-IsTracked dry_run (some device) (some record_) s h =
      let messages = (b.recover (recover_options b dry_run device record_ s)).1 in
      let short = log_messages-short [] messages (omega arith) in
      Holds-elim record_.is_directory
        (λ t.
          Holds-bind {Q = IsTracked}
            (try_text-Holds _ _ _ _ (λ stats. (h.0, h.1, short)) (h.0, h.1, short))
            (λ s' h'. holds h'))
        (λ f. holds h)

  run_recover-IsTracked :
      (dry_run : Bool) (s : Tui) → IsTracked s → Holds b IsTracked (run_recover b dry_run s)
  unfolding run_recover
  run_recover-IsTracked dry_run s h =
      recover_selected-IsTracked dry_run s.selected_device s.selected_record s h

scan_device-IsTracked :
    (device : Option BlockDevice) (s : Tui)
    → IsTracked s
    → OnOutcome ⊥ IsTracked (scan_device device s)
scan_device-IsTracked none s h = on_handled h
scan_device-IsTracked (some device) s h =
    OnOutcome-elim s.scan_running (λ t. on_handled h)
      (λ f.
        join_worker-OnOutcome s.worker _ _ (λ t. true≢false (sym t ∙ sym h.0 ∙ f))
          (on_handled (refl, refl, omega arith)) (on_handled (refl, refl, omega arith)))

start_scan-IsTracked : (s : Tui) → IsTracked s → OnOutcome ⊥ IsTracked (start_scan s)
unfolding start_scan
start_scan-IsTracked s h = scan_device-IsTracked s.selected_device s h

scanned-IsTracked :
    (s : Tui)
    → s.scan_done ≡ true
    → IsTracked s
    → OnOutcome ⊥ IsTracked (join_worker s.worker s (λ s'. handled (to_page search s')))
scanned-IsTracked s t h =
    let off : s.scan_running ≡ false = ground (arith, t, h) in
    join_worker-OnOutcome s.worker s _ (λ t'. true≢false (sym t' ∙ sym h.0 ∙ off)) (on_handled h)
      (on_handled (off, h.1, h.2))

handler-IsTracked : (b : Backend) → Keeps b ⊥ IsTracked
handler-IsTracked b = record {
  free_page = λ p s e h. h;
  device_page = λ s e h. h;
  device = λ d s e h. h;
  record_ = λ r s h. h;
  scan = λ s e h. start_scan-IsTracked (to_page scanning s) h;
  scanned = scanned-IsTracked;
  cleared_ = λ s h. h;
  found = λ rows s h. h;
  text_ = λ t s h. h;
  dry_run = λ s h. run_recover-IsTracked b true s h;
  rehearsal = λ s h. Holds-bind (run_recover-IsTracked b true _ h) (λ s' h'. holds h');
  recovery = λ s e h. run_recover-IsTracked b false _ h;
  destination = λ path s h. h;
}

module _ (b : Backend) (Edits : Event → Inputs → Inputs → Type 0) where
  steps-IsTracked : KeepsSteps b Edits ⊥ IsTracked
  steps-IsTracked = record {
    handler = handler-IsTracked b;
    edit = λ e i s f w h. h;
    progress_ = λ progress s w h. (h.0, h.1, append_log-short s.logs progress.message);
    failure = λ message s w h. (h.0 ∙ w, h.1, append_log-short s.logs message);
    completion = λ s w h. (h.0 ∙ w, h.1, h.2);
    finish = λ s w h. (refl, refl, h.2);
  }

  -- In every state that the program reaches, whatever the widgets write: `scan_running` is set exactly
  -- while the thread is in `Scanner::run` or at its end, `scan_done` is not set then, and the log has at
  -- most 200 messages. And no event makes the handler wait for a thread that still scans: `join_worker` is
  -- called behind its end.
  pub Reached-IsTracked :
      (detected : List BlockDevice) (s : Tui)
      → Reached b Edits (first_state detected) s
      → IsTracked s × ((e : Event) (s' : Tui) → handle b e s ≢ ok (waits s'))
  Reached-IsTracked detected s r =
      let h = Reached-Keeps steps-IsTracked (refl, refl, omega arith) r in
      (h, λ e s' w. no_wait (Holds-ok (handle-Holds (handler-IsTracked b) e s h) w))
    where
      no_wait : {s' : Tui} → OnOutcome ⊥ IsTracked (waits s') → ⊥
      no_wait (on_waits w) = w
