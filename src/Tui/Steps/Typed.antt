-- ===== src/Tui/Steps/Typed.antt =====
-- What can be typed into the widgets.
use mathlib.Core.Bool.{true≢false}
use just_give_my_disk.Common.{
  ℕ, ◌≡◌, ◌⊎◌, inl, inr, refl, sym, ◌∙◌, Bool, Bool-cases, true, false, ◌==◌, Option, none, some,
  List,
}
use just_give_my_disk.Database.{StoredRecord}
use just_give_my_disk.Recover.Tree.{contains_id}
use just_give_my_disk.Tui.Devices.{BlockDevice}
use just_give_my_disk.Tui.State.{
  scanning, Event, character, enter, other, Inputs, Tui, Backend, first_state,
}
use just_give_my_disk.Tui.Closures.{
  to_page, scan_device, start_scan, recover_options, recover_selected, run_recover,
}
use just_give_my_disk.Tui.Steps.{Reached}
use just_give_my_disk.Tui.Steps.Keeps.{Keeps, KeepsSteps, Reached-Keeps}
use just_give_my_disk.Tui.Steps.Outcomes.{
  recover_with-Holds, Holds, holds, Holds-bind, Holds-elim, OnOutcome, on_handled, OnOutcome-elim,
  join_worker-OnOutcome, is_slash,
}

-- The event is that character.
abbrev pub is_character : ℕ → Event → Bool
is_character c (character c') = c' == c
is_character c enter = false
is_character c other = false

character-slash : (e : Event) → is_character 47 e ≡ is_slash e
character-slash (character c) = refl
character-slash enter = refl
character-slash other = refl

-- The path of the index has no separator.
abbrev pub HasNoSlash : Tui → Type 0
HasNoSlash s = contains_id s.inputs.database_path 47 ≡ false

module _ (b : Backend) where
  run_recover-HasNoSlash :
      (dry_run : Bool) (s : Tui) → HasNoSlash s → Holds b HasNoSlash (run_recover b dry_run s)
  unfolding run_recover
  run_recover-HasNoSlash dry_run s h = by_selected s.selected_device s.selected_record
    where
      by_selected :
          (d : Option BlockDevice) (r : Option StoredRecord)
          → Holds b HasNoSlash (recover_selected b dry_run d r s)
      by_selected none r = holds h
      by_selected (some d) none = holds h
      by_selected (some d) (some r) =
          Holds-elim r.is_directory
            (λ t.
              Holds-bind {Q = HasNoSlash}
                (recover_with-Holds b (recover_options b dry_run d r s) s (λ t' logs. h))
                (λ s' h'. holds h'))
            (λ f. holds h)

  scan_device-HasNoSlash :
      (d : Option BlockDevice) (s : Tui)
      → HasNoSlash s
      → OnOutcome Unit HasNoSlash (scan_device d s)
  scan_device-HasNoSlash none s h = on_handled h
  scan_device-HasNoSlash (some d) s h =
      OnOutcome-elim s.scan_running (λ t. on_handled h)
        (λ f. join_worker-OnOutcome s.worker _ _ (λ _. tt) (on_handled h) (on_handled h))

  start_scan-HasNoSlash : (s : Tui) → HasNoSlash s → OnOutcome Unit HasNoSlash (start_scan s)
  unfolding start_scan
  start_scan-HasNoSlash s h = scan_device-HasNoSlash s.selected_device s h

  handler-HasNoSlash : Keeps b Unit HasNoSlash
  handler-HasNoSlash = record {
    free_page = λ p s e h. h;
    device_page = λ s e h. h;
    device = λ d s e h. h;
    record_ = λ r s h. h;
    scan = λ s e h. start_scan-HasNoSlash (to_page scanning s) h;
    scanned = λ s t h. join_worker-OnOutcome s.worker s _ (λ _. tt) (on_handled h) (on_handled h);
    cleared_ = λ s h. h;
    found = λ rows s h. h;
    text_ = λ t s h. h;
    dry_run = run_recover-HasNoSlash true;
    rehearsal = λ s h. Holds-bind (run_recover-HasNoSlash true _ h) (λ s' h'. holds h');
    recovery = λ s e h. run_recover-HasNoSlash false _ h;
    destination = λ path s h. h;
  }

module _ (b : Backend) (Edits : Event → Inputs → Inputs → Type 0)
    (typed : (e : Event) (i j : Inputs) (c : ℕ)
      → Edits e i j
      → contains_id j.database_path c ≡ true
      → (contains_id i.database_path c ≡ true) ⊎ (is_character c e ≡ true)) where
  edit-HasNoSlash :
      (e : Event) (i j : Inputs)
      → is_slash e ≡ false
      → Edits e i j
      → contains_id i.database_path 47 ≡ false
      → contains_id j.database_path 47 ≡ false
  edit-HasNoSlash e i j f w h = elim (Bool-cases (contains_id j.database_path 47)) [
    | inr k ↦ k
    | inl k ↦ elim (typed e i j 47 w k) [
      | inl old ↦ absurd (true≢false (sym old ∙ h))
      | inr new ↦ absurd (true≢false (sym new ∙ character-slash e ∙ f))
    ]
  ]

  steps-HasNoSlash : KeepsSteps b Edits Unit HasNoSlash
  steps-HasNoSlash = record {
    handler = handler-HasNoSlash b;
    edit = λ e i s f w h. edit-HasNoSlash e s.inputs i f w h;
    progress_ = λ progress s w h. h;
    failure = λ message s w h. h;
    completion = λ s w h. h;
    finish = λ s w h. h;
  }

  -- If the characters that the widgets bring into the index's path are those of the events that they are
  -- given, then in every state that the program reaches from its start the path has no separator: the
  -- handler takes the key / on every page.
  pub Reached-HasNoSlash :
      (detected : List BlockDevice) (s : Tui)
      → Reached b Edits (first_state detected) s
      → HasNoSlash s
  Reached-HasNoSlash detected s r = Reached-Keeps steps-HasNoSlash refl r
