-- ===== src/Tui/Steps/Tests.antt =====
-- The terminal interface on a device with one folder.
use just_give_my_disk.Common.{
  ℕ, ◌≡◌, ◌≢◌, ◌⊎◌, inl, inr, refl, true, false, none, List, [], ◌∷◌, map, subst, Bool-cases, ◌==◌,
  arith,
}
use just_give_my_disk.Common.Int.{pos}
use just_give_my_disk.Common.Strings.{codes}
use just_give_my_disk.Database.{StoredRecord, Index}
use just_give_my_disk.Output.Result.{Result, ok, throw}
use just_give_my_disk.Recover.Tree.{contains_id}
use just_give_my_disk.Tui.Devices.{BlockDevice, plain_device}
use just_give_my_disk.Tui.State.{
  Event, character, enter, other, Inputs, Tui, Backend, first_state, first_inputs, search, ending,
}
use just_give_my_disk.Tui.Closures.{
  Outcome, handled, waits, exits, to_page, start_scan, do_search, wanted_rows, run_recover,
  with_destination, log_messages,
}
use just_give_my_disk.Tui.Machine.{handle, on_enter, nth, ask_destination}
use just_give_my_disk.Tui.Steps.{
  with_inputs, on_scan_end, reacts, edits, completes, finishes, Reached, starts, steps,
}
use just_give_my_disk.Tui.Steps.Tracked.{IsTracked, Reached-IsTracked}
use just_give_my_disk.Tui.Steps.Rehearsed.{IsRehearsed, Reached-IsRehearsed}
use just_give_my_disk.Tui.Steps.Left.{HasLeft, Reached-HasLeft, Reached-IsStranded}
use just_give_my_disk.Tui.Steps.Typed.{HasNoSlash, is_character, Reached-HasNoSlash}

abbrev folder : StoredRecord
folder = record {
  id = pos 1;
  record_id_guess = 70;
  offset = 0;
  parent_ref = 5;
  name = codes "photos";
  name_namespace = pos 1;
  flags = 3;
  allocated_size = 0;
  real_size = 0;
  is_directory = true;
}

abbrev index : Index
index = record {
  find_by_name = λ name. ok (folder ∷ []);
  get_by_record_id = λ id. ok none;
  children_of = λ id. ok [];
}

abbrev backend : Backend
backend = record {
  open_database = λ path. ok index;
  recover =
      λ options. (ok (record { recovered = 0; skipped = 0; preview_items = 0 }), codes "done" ∷ []);
  current_path = ok (codes "/root");
}

abbrev detected : List BlockDevice
detected = plain_device (codes "/dev/sda") (codes "disk") ∷ []

-- What an event brings into the index's path.
abbrev typed : Event → List ℕ → List ℕ
typed (character c) path = c ∷ path
typed enter path = path
typed other path = path

abbrev Types : Event → Inputs → Inputs → Type 0
Types e i j = j.database_path ≡ typed e i.database_path

abbrev state_of : Result Outcome → Tui → Tui
state_of (ok (handled s)) s' = s
state_of m s' = s'

abbrev after : Event → Tui → Tui
after e s = state_of (handle backend e s) s

-- The device is chosen, and scanned.
abbrev scan_started : Tui
scan_started = after enter (after enter (first_state detected))

abbrev scan_ended : Tui
scan_ended = on_scan_end (record scan_started { worker = ending })

-- The folder is found, chosen, tried, and recovered.
abbrev chosen : Tui
chosen = after enter (after enter (after enter scan_ended))

abbrev tried : Tui
tried = after enter (after (character 114) chosen)

abbrev recovered : Tui
recovered = after enter tried

recovers_for_real : map (λ o. o.dry_run) recovered.recoveries ≡ false ∷ true ∷ []
unfolding handle on_enter start_scan nth do_search wanted_rows run_recover with_destination
    ask_destination log_messages
recovers_for_real = refl

to_scan_end : Reached backend Types (first_state detected) scan_ended
unfolding handle on_enter start_scan nth
to_scan_end =
    steps (steps (steps (steps starts (reacts enter refl)) (reacts enter refl)) (completes refl))
      (finishes refl)

to_tried : Reached backend Types (first_state detected) tried
unfolding handle on_enter start_scan nth do_search wanted_rows run_recover with_destination
    ask_destination log_messages
to_tried =
    steps
      (steps
        (steps (steps (steps to_scan_end (reacts enter refl)) (reacts enter refl))
          (reacts enter refl))
        (reacts (character 114) refl))
      (reacts enter refl)

to_recovered : Reached backend Types (first_state detected) recovered
unfolding handle on_enter start_scan nth do_search wanted_rows run_recover with_destination
    ask_destination log_messages
to_recovered = steps to_tried (reacts enter refl)

Reached-IsRehearsed_example : IsRehearsed recovered.recoveries
Reached-IsRehearsed_example = Reached-IsRehearsed backend Types detected recovered to_recovered

Reached-IsTracked_example :
    IsTracked scan_ended × ((e : Event) (s' : Tui) → handle backend e scan_ended ≢ ok (waits s'))
Reached-IsTracked_example = Reached-IsTracked backend Types detected scan_ended to_scan_end

-- The key / before a device is chosen, and an event.
abbrev searching : Tui
searching = to_page search (first_state detected)

to_results : Reached backend Types searching (after enter searching)
unfolding handle on_enter do_search wanted_rows
to_results = steps starts (reacts enter refl)

Reached-HasLeft_example :
    HasLeft (after enter searching)
    × ((e : Event)
        → ((s' : Tui) → handle backend e (after enter searching) ≢ ok (exits s'))
          × (handle backend e (after enter searching) ≡ throw → backend.current_path ≡ throw))
Reached-HasLeft_example =
    Reached-HasLeft backend Types searching (after enter searching) refl to_results

Reached-IsStranded_example :
    ((after enter searching).selected_device ≡ none)
    × ((after enter searching).recoveries ≡ searching.recoveries)
Reached-IsStranded_example =
    Reached-IsStranded backend Types searching (after enter searching) refl refl to_results

contains_id-tail :
    (c' : ℕ) (path : List ℕ) (c : ℕ)
    → (c' == c) ≡ false
    → contains_id (c' ∷ path) c ≡ true
    → contains_id path c ≡ true
contains_id-tail c' path c n h = ground (arith, n, h)

typed-contains_id :
    (e : Event) (i j : Inputs) (c : ℕ)
    → Types e i j
    → contains_id j.database_path c ≡ true
    → (contains_id i.database_path c ≡ true) ⊎ (is_character c e ≡ true)
typed-contains_id (character c') i j c t h = elim (Bool-cases (c' == c)) [
  | inl y ↦ inr y
  | inr n ↦ inl (contains_id-tail c' i.database_path c n (subst (λ p. contains_id p c ≡ true) t h))
]
typed-contains_id enter i j c t h = inl (subst (λ p. contains_id p c ≡ true) t h)
typed-contains_id other i j c t h = inl (subst (λ p. contains_id p c ≡ true) t h)

abbrev typing : Inputs
typing = record first_inputs { database_path = b'a' ∷ codes "scan.db" }

Reached-HasNoSlash_example : HasNoSlash (with_inputs typing searching)
unfolding handle
Reached-HasNoSlash_example =
    Reached-HasNoSlash backend Types typed-contains_id detected (with_inputs typing searching)
      (steps (steps starts (reacts (character 47) refl)) (edits (character b'a') refl refl))
