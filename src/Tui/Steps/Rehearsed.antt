-- ===== src/Tui/Steps/Rehearsed.antt =====
-- What comes before a recovery that writes.
use mathlib.Core.Bool.{true≢false}
use just_give_my_disk.Common.{
  ℕ, ◌≡◌, refl, sym, ap, subst, ◌∙◌, Bool, true, false, Option, none, some, List, [], ◌∷◌,
}
use just_give_my_disk.Database.{StoredRecord}
use just_give_my_disk.Output.Result.{ok, bind}
use just_give_my_disk.Recover.Options.{RecoverOptions}
use just_give_my_disk.Tui.Devices.{BlockDevice}
use just_give_my_disk.Tui.State.{
  Page, devices_page, warning, scanning, search, results_page, actions_page, text_page,
  recover_dest, confirm_recover, Event, Inputs, Tui, Backend, first_state,
}
use just_give_my_disk.Tui.Closures.{
  to_page, scan_device, start_scan, recover_options, recover_selected, run_recover,
}
use just_give_my_disk.Tui.Steps.{Reached}
use just_give_my_disk.Tui.Steps.Keeps.{is_free, Keeps, KeepsSteps, Reached-Keeps}
use just_give_my_disk.Tui.Steps.Outcomes.{
  recover_with-Holds, Holds, holds, Holds-bind, Holds-elim, OnOutcome, on_handled, OnOutcome-elim,
  join_worker-OnOutcome,
}

-- The latest of the recoveries is a dry run of the same folder of the same source.
abbrev pub IsPreceded : List ℕ → ℕ → List RecoverOptions → Type 0
IsPreceded source id [] = ⊥
IsPreceded source id (o ∷ os) = (o.dry_run ≡ true) × (o.source ≡ source) × (o.root_record_id ≡ id)

-- No recovery, the latest first, overwrites, and a recovery that is no dry run comes right after one of
-- the same folder of the same source.
abbrev pub IsRehearsed : List RecoverOptions → Type 0
IsRehearsed [] = Unit
IsRehearsed (o ∷ os) =
    (o.overwrite ≡ false)
    × (o.dry_run ≡ false → IsPreceded o.source o.root_record_id os)
    × IsRehearsed os

abbrev is_confirm : Page → Bool
is_confirm confirm_recover = true
is_confirm p = false

abbrev IsReadyFor : Option BlockDevice → Option StoredRecord → List RecoverOptions → Type 0
IsReadyFor none r os = Unit
IsReadyFor (some d) none os = Unit
IsReadyFor (some d) (some r) os = r.is_directory ≡ true → IsPreceded d.path r.record_id_guess os

IsReady : Tui → Type 0
IsReady s =
    IsRehearsed s.recoveries
    × (is_confirm s.page ≡ true → IsReadyFor s.selected_device s.selected_record s.recoveries)

IsReadyAt : Tui → Type 0
IsReadyAt s' =
    IsRehearsed s'.recoveries × IsReadyFor s'.selected_device s'.selected_record s'.recoveries

free-confirm : (p : Page) → is_free p ≡ true → is_confirm p ≡ false
free-confirm devices_page e = refl
free-confirm warning e = refl
free-confirm scanning e = refl
free-confirm search e = refl
free-confirm results_page e = refl
free-confirm actions_page e = refl
free-confirm text_page e = refl
free-confirm recover_dest e = refl
free-confirm confirm_recover e = sym e

-- What is not confirmed needs no dry run.
elsewhere : {A : Type 0} {c : Bool} → c ≡ false → c ≡ true → A
elsewhere f t = absurd (true≢false (sym t ∙ f))

no_record : (d : Option BlockDevice) (os : List RecoverOptions) → IsReadyFor d none os
no_record none os = tt
no_record (some d) os = tt

module _ (b : Backend) where
  dry_run-IsReady : (s : Tui) → IsReady s → Holds b IsReady (run_recover b true s)
  unfolding IsReady run_recover
  dry_run-IsReady s h = by_selected s.selected_device s.selected_record
    where
      by_selected :
          (d : Option BlockDevice) (r : Option StoredRecord)
          → Holds b IsReady (recover_selected b true d r s)
      by_selected none r = holds h
      by_selected (some d) none = holds h
      by_selected (some d) (some r) =
          Holds-elim r.is_directory
            (λ t.
              let o = recover_options b true d r s in
              let q : IsRehearsed (o ∷ s.recoveries) = (refl, (λ f. elsewhere f refl), h.0) in
              Holds-bind {Q = λ s'. IsRehearsed s'.recoveries}
                (recover_with-Holds b o s (λ t' logs. q)) (λ s' h'. holds (h', elsewhere refl)))
            (λ f. holds h)

  recovery-IsReady :
      (s : Tui)
      → s.page ≡ confirm_recover
      → IsReady s
      → Holds b IsReady (run_recover b false (record s { real_recover_confirmed = true }))
  unfolding IsReady run_recover
  recovery-IsReady s e h = by_selected s.selected_device s.selected_record (h.1 (ap is_confirm e))
    where
      s' : Tui
      s' = record s { real_recover_confirmed = true }

      by_selected :
          (d : Option BlockDevice) (r : Option StoredRecord)
          → IsReadyFor d r s.recoveries
          → Holds b IsReady (recover_selected b false d r s')
      by_selected none r k = holds h
      by_selected (some d) none k = holds h
      by_selected (some d) (some r) k =
          Holds-elim r.is_directory
            (λ t.
              let o = recover_options b false d r s' in
              let q : IsRehearsed (o ∷ s.recoveries) = (refl, (λ _. k t), h.0) in
              Holds-bind {Q = λ s'. IsRehearsed s'.recoveries}
                (recover_with-Holds b o s' (λ t' logs. q)) (λ s' h'. holds (h', elsewhere refl)))
            (λ f. holds h)

  -- What the dry run of the page of the destination leaves, behind its end.
  rehearsal-IsReady :
      (s : Tui)
      → IsReady s
      → Holds b IsReady (
          bind
            (run_recover b true (record s { real_recover_confirmed = false }))
            (λ s'. ok (to_page confirm_recover s')))
  unfolding IsReady IsReadyAt run_recover
  rehearsal-IsReady s h = by_selected s.selected_device s.selected_record refl refl
    where
      s' : Tui
      s' = record s { real_recover_confirmed = false }

      now :
          (d : Option BlockDevice) (r : Option StoredRecord)
          → s.selected_device ≡ d
          → s.selected_record ≡ r
          → (os : List RecoverOptions) → IsReadyFor d r os
          → IsReadyFor s.selected_device s.selected_record os
      now d r e e' os k =
          subst (λ x. IsReadyFor x s.selected_record os) (sym e)
            (subst (λ x. IsReadyFor d x os) (sym e') k)

      by_selected :
          (d : Option BlockDevice) (r : Option StoredRecord)
          → s.selected_device ≡ d
          → s.selected_record ≡ r
          → Holds b IsReady
              (bind (recover_selected b true d r s') (λ s'. ok (to_page confirm_recover s')))
      by_selected none r e e' = holds (h.0, λ _. now none r e e' s.recoveries tt)
      by_selected (some d) none e e' = holds (h.0, λ _. now (some d) none e e' s.recoveries tt)
      by_selected (some d) (some r) e e' =
          let o = recover_options b true d r s' in
          let q : IsRehearsed (o ∷ s.recoveries) = (refl, (λ f. elsewhere f refl), h.0) in
          let ready = now (some d) (some r) e e' (o ∷ s.recoveries) (λ _. (refl, refl, refl)) in
          Holds-bind {Q = IsReadyAt}
            (Holds-elim r.is_directory
              (λ t.
                Holds-bind {Q = IsReadyAt} (recover_with-Holds b o s' (λ t' logs. (q, ready)))
                  (λ s'' h'. holds h'))
              (λ f. holds (h.0, now (some d) (some r) e e' s.recoveries (elsewhere f))))
            (λ s'' k. holds (k.0, λ _. k.1))

scan_device-IsReady :
    (d : Option BlockDevice) (s : Tui)
    → is_confirm s.page ≡ false
    → IsReady s
    → OnOutcome Unit IsReady (scan_device d s)
unfolding IsReady
scan_device-IsReady none s f h = on_handled h
scan_device-IsReady (some d) s f h =
    OnOutcome-elim s.scan_running (λ t. on_handled h)
      (λ _.
        join_worker-OnOutcome s.worker _ _ (λ _. tt) (on_handled (h.0, elsewhere f))
          (on_handled (h.0, elsewhere f)))

start_scan-IsReady :
    (s : Tui) → IsReady s → OnOutcome Unit IsReady (start_scan (to_page scanning s))
unfolding start_scan IsReady
start_scan-IsReady s h =
    scan_device-IsReady s.selected_device (to_page scanning s) refl (h.0, elsewhere refl)

handler-IsReady : (b : Backend) → Keeps b Unit IsReady
unfolding IsReady
handler-IsReady b = record {
  free_page = λ p s e h. (h.0, elsewhere (free-confirm p e));
  device_page = λ s e h. (h.0, elsewhere refl);
  device = λ d s e h. (h.0, elsewhere refl);
  record_ = λ r s h. (h.0, elsewhere refl);
  scan = λ s e h. start_scan-IsReady s h;
  scanned = λ s t h.
      join_worker-OnOutcome s.worker s _ (λ _. tt) (on_handled (h.0, elsewhere refl))
        (on_handled (h.0, elsewhere refl));
  cleared_ = λ s h. (h.0, λ _. no_record s.selected_device s.recoveries);
  found = λ rows s h. (h.0, elsewhere refl);
  text_ = λ t s h. (h.0, elsewhere refl);
  dry_run = dry_run-IsReady b;
  rehearsal = rehearsal-IsReady b;
  recovery = recovery-IsReady b;
  destination = λ path s h. h;
}

module _ (b : Backend) (Edits : Event → Inputs → Inputs → Type 0) where
  steps-IsReady : KeepsSteps b Edits Unit IsReady
  unfolding IsReady
  steps-IsReady = record {
    handler = handler-IsReady b;
    edit = λ e i s f w h. h;
    progress_ = λ progress s w h. h;
    failure = λ message s w h. h;
    completion = λ s w h. h;
    finish = λ s w h. h;
  }

  -- In every state that the program reaches, whatever the widgets write, no recovery that was asked for
  -- overwrites, and each that is not a dry run was asked for right after a dry run with the same source
  -- and the same root record.
  pub Reached-IsRehearsed :
      (detected : List BlockDevice) (s : Tui)
      → Reached b Edits (first_state detected) s
      → IsRehearsed s.recoveries
  unfolding IsReady
  Reached-IsRehearsed detected s r =
      let h : IsReady s = Reached-Keeps steps-IsReady (tt, elsewhere refl) r in h.0
