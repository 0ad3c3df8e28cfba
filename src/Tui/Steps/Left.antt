-- ===== src/Tui/Steps/Left.antt =====
-- The pages that are never reached again.
use mathlib.Core.Bool.{true≢false}
use mathlib.Core.Option.{some-ne-none}
use just_give_my_disk.Common.{◌≡◌, ◌≢◌, refl, sym, ap, ◌∙◌, Bool, true, false, Option, none, some}
use just_give_my_disk.Database.{StoredRecord}
use just_give_my_disk.Output.Result.{ok, throw}
use just_give_my_disk.Tui.Devices.{BlockDevice}
use just_give_my_disk.Tui.State.{
  Page, devices_page, warning, scanning, search, results_page, actions_page, text_page,
  recover_dest, confirm_recover, Event, Inputs, Tui, Backend,
}
use just_give_my_disk.Tui.Closures.{exits, recover_options, recover_selected, run_recover}
use just_give_my_disk.Tui.Machine.{handle}
use just_give_my_disk.Tui.Steps.{Reached}
use just_give_my_disk.Tui.Steps.Keeps.{is_free, Keeps, KeepsSteps, Reached-Keeps, handle-Holds}
use just_give_my_disk.Tui.Steps.Outcomes.{
  recover_with-Holds, Holds, holds, Holds-ok, Holds-throws, Holds-bind, Holds-elim, OnOutcome,
  on_handled, on_exits, join_worker-OnOutcome,
}

abbrev is_early : Page → Bool
is_early devices_page = true
is_early warning = true
is_early p = false

-- Neither the page of the devices nor the warning.
abbrev pub HasLeft : Tui → Type 0
HasLeft s = is_early s.page ≡ false

free-early : (p : Page) → is_free p ≡ true → is_early p ≡ false
free-early devices_page e = sym e
free-early warning e = sym e
free-early scanning e = refl
free-early search e = refl
free-early results_page e = refl
free-early actions_page e = refl
free-early text_page e = refl
free-early recover_dest e = refl
free-early confirm_recover e = refl

early : {A : Type 0} {p q : Page} → is_early p ≡ true → q ≡ p → is_early q ≡ false → A
early t e f = absurd (true≢false (sym t ∙ sym (ap is_early e) ∙ f))

-- The pages were left. If the first state had no device, then there is none, and no other recovery.
IsBehind : Tui → Tui → Type 0
IsBehind first s =
    HasLeft s
    × (first.selected_device ≡ none
        → (s.selected_device ≡ none) × (s.recoveries ≡ first.recoveries))

module _ (first : Tui) (b : Backend) where
  run_recover-IsBehind :
      (dry_run : Bool) (s : Tui)
      → IsBehind first s
      → Holds b (IsBehind first) (run_recover b dry_run s)
  unfolding run_recover IsBehind
  run_recover-IsBehind dry_run s h = by_selected s.selected_device s.selected_record refl
    where
      by_selected :
          (d : Option BlockDevice) (r : Option StoredRecord)
          → s.selected_device ≡ d
          → Holds b (IsBehind first) (recover_selected b dry_run d r s)
      by_selected none r e = holds h
      by_selected (some d) none e = holds h
      by_selected (some d) (some r) e =
          Holds-elim r.is_directory
            (λ t.
              Holds-bind {Q = λ _. Unit}
                (recover_with-Holds b (recover_options b dry_run d r s) s (λ t' logs. tt))
                (λ s' _. holds (refl, λ n. absurd (some-ne-none d (sym e ∙ (h.1 n).0)))))
            (λ f. holds h)

  handler-IsBehind : Keeps b Unit (IsBehind first)
  unfolding IsBehind
  handler-IsBehind = record {
    free_page = λ p s e h. (free-early p e, h.1);
    device_page = λ s e h. early refl e h.0;
    device = λ d s e h. early refl e h.0;
    record_ = λ r s h. (refl, h.1);
    scan = λ s e h. early refl e h.0;
    scanned = λ s t h.
        join_worker-OnOutcome s.worker s _ (λ _. tt) (on_handled (refl, h.1))
          (on_handled (refl, h.1));
    cleared_ = λ s h. h;
    found = λ rows s h. (refl, h.1);
    text_ = λ t s h. (refl, h.1);
    dry_run = run_recover-IsBehind true;
    rehearsal = λ s h. Holds-bind (run_recover-IsBehind true _ h) (λ s' h'. holds (refl, h'.1));
    recovery = λ s e h. run_recover-IsBehind false _ h;
    destination = λ path s h. h;
  }

  steps-IsBehind :
      (Edits : Event → Inputs → Inputs → Type 0) → KeepsSteps b Edits Unit (IsBehind first)
  unfolding IsBehind
  steps-IsBehind Edits = record {
    handler = handler-IsBehind;
    edit = λ e i s f w h. h;
    progress_ = λ progress s w h. h;
    failure = λ message s w h. h;
    completion = λ s w h. h;
    finish = λ s w h. h;
  }

module _ (b : Backend) (Edits : Event → Inputs → Inputs → Type 0) where
  Reached-IsBehind : (first s : Tui) → HasLeft first → Reached b Edits first s → IsBehind first s
  unfolding IsBehind
  Reached-IsBehind first s l r = Reached-Keeps (steps-IsBehind first b Edits) (l, λ e. (e, refl)) r

  -- From a state whose page is neither that of the devices nor the warning, whatever follows: the page is
  -- neither of the two again; on no event does the handler call the loop's exit, the key q included; and it
  -- throws only if the working directory cannot be read.
  pub Reached-HasLeft :
      (first s : Tui)
      → HasLeft first
      → Reached b Edits first s
      → HasLeft s
        × ((e : Event)
            → ((s' : Tui) → handle b e s ≢ ok (exits s'))
              × (handle b e s ≡ throw → b.current_path ≡ throw))
  unfolding IsBehind
  Reached-HasLeft first s l r =
      let h = Reached-IsBehind first s l r in
      (
        h.0,
        λ e.
            let after = handle-Holds (handler-IsBehind first b) e s h in
            (λ s' x. no_exit (Holds-ok after x), Holds-throws after),
      )
    where
      no_exit : {s' : Tui} → OnOutcome Unit (IsBehind first) (exits s') → ⊥
      no_exit (on_exits e k) = early refl e k.0

  -- From a state whose page is neither that of the devices nor the warning, and in which no device is
  -- selected, as behind the key / on the page of the devices: none is selected later, and nothing is
  -- recovered, dry runs included.
  pub Reached-IsStranded :
      (first s : Tui)
      → HasLeft first
      → first.selected_device ≡ none
      → Reached b Edits first s
      → (s.selected_device ≡ none) × (s.recoveries ≡ first.recoveries)
  unfolding IsBehind
  Reached-IsStranded first s l n r = (Reached-IsBehind first s l r).1 n
