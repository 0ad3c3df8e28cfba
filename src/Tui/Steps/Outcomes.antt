-- ===== src/Tui/Steps/Outcomes.antt =====
-- What holds of the outcomes of a handler.
use just_give_my_disk.Common.{
  ◌≡◌, refl, subst, ap, Bool, true, false, List, [], ◌∷◌, Bool-cases, inl, inr, arith, ◌==◌, ℕ,
}
use mathlib.Core.Bool.{false≢true}
use just_give_my_disk.Output.Result.{Result, ok, throw, stuck, bind}
use just_give_my_disk.Recover.Options.{RecoverOptions}
use just_give_my_disk.Tui.State.{
  devices_page, Event, character, enter, other, recover_text, recover_error, Worker, no_worker,
  running, ending, ended, Tui, Backend, TextView,
}
use just_give_my_disk.Tui.Closures.{
  Outcome, handled, unhandled, exits, waits, join_worker, try_text, with_text, recover_with,
  last_log, log_messages,
}
use just_give_my_disk.Tui.Machine.{handle, handles}

-- The value, if there is one, has the property; and only the query of the working directory throws.
pub data Holds (b : Backend) {A : Type 0} (Q : A → Type 0) : Result A → Type 0 where
  holds : {a : A} → Q a → Holds b Q (ok a)
  holds_throw : b.current_path ≡ throw → Holds b Q throw
  holds_stuck : Holds b Q stuck

pub Holds-bind :
    {b : Backend} {A B : Type 0} {Q : A → Type 0} {R : B → Type 0} {m : Result A} {f : A → Result B}
    → Holds b Q m
    → ((a : A) → Q a → Holds b R (f a))
    → Holds b R (bind m f)
Holds-bind (holds {a = a} h) k = k a h
Holds-bind (holds_throw t) k = holds_throw t
Holds-bind holds_stuck k = holds_stuck

pub Holds-elim :
    {b : Backend} {A : Type 0} {Q : A → Type 0} {m n : Result A} (t : Bool)
    → (t ≡ true → Holds b Q m)
    → (t ≡ false → Holds b Q n)
    → Holds b Q (elim t [ true ↦ m | false ↦ n ])
Holds-elim true h k = h refl
Holds-elim false h k = k refl

pub current_path-Holds : (b : Backend) → Holds b (λ _. Unit) b.current_path
current_path-Holds b = by_result b.current_path refl
  where
    by_result : (m : Result (List ℕ)) → b.current_path ≡ m → Holds b (λ _. Unit {0}) m
    by_result (ok path) e = holds tt
    by_result throw e = holds_throw e
    by_result stuck e = holds_stuck

pub Holds-throws :
    {b : Backend} {A : Type 0} {Q : A → Type 0} {m : Result A}
    → Holds b Q m
    → m ≡ throw
    → b.current_path ≡ throw
Holds-throws (holds h) e = absurd (cc e)
Holds-throws (holds_throw t) e = t
Holds-throws holds_stuck e = absurd (cc e)

pub Holds-ok :
    {b : Backend} {A : Type 0} {Q : A → Type 0} {m : Result A} {a : A}
    → Holds b Q m
    → m ≡ ok a
    → Q a
Holds-ok {b = b} {Q = Q} {a = a} h e = ok_value (subst (Holds b Q) e h)
  where
    ok_value : Holds b Q (ok a) → Q a
    ok_value (holds q) = q

-- The state that the handler leaves has the property, and the loop ends on the page of the devices
-- only. W says whether the handler may wait for a thread that still scans.
pub data OnOutcome (W : Type 0) (P : Tui → Type 0) : Outcome → Type 0 where
  on_handled : {s : Tui} → P s → OnOutcome W P (handled s)
  on_unhandled : {s : Tui} → P s → OnOutcome W P (unhandled s)
  on_waits : {s : Tui} → W → OnOutcome W P (waits s)
  on_exits : {s : Tui} → s.page ≡ devices_page → P s → OnOutcome W P (exits s)

pub OnOutcome-handled : {W : Type 0} {P : Tui → Type 0} {s : Tui} → OnOutcome W P (handled s) → P s
OnOutcome-handled (on_handled p) = p

pub OnOutcome-unhandled :
    {W : Type 0} {P : Tui → Type 0} {s : Tui} → OnOutcome W P (unhandled s) → P s
OnOutcome-unhandled (on_unhandled p) = p

abbrev pub is_scanning : Worker → Bool
is_scanning no_worker = false
is_scanning (running options) = true
is_scanning ending = true
is_scanning ended = false

pub try_text-Holds :
    {b : Backend} {A : Type 0} {P : Tui → Type 0} (m : Result A) (f : A → Tui) (t : TextView)
    (s : Tui)
    → ((a : A) → P (f a))
    → P (with_text t s)
    → Holds b P (try_text m f t s)
try_text-Holds (ok a) f t s h k = holds (h a)
try_text-Holds throw f t s h k = holds k
try_text-Holds stuck f t s h k = holds_stuck

pub handles-Holds :
    {b : Backend} {W : Type 0} {P : Tui → Type 0} {m : Result Tui}
    → Holds b P m
    → Holds b (OnOutcome W P) (handles m)
handles-Holds h = Holds-bind h (λ s p. holds (on_handled p))

pub OnOutcome-elim :
    {W : Type 0} {P : Tui → Type 0} {o o' : Outcome} (b : Bool)
    → (b ≡ true → OnOutcome W P o)
    → (b ≡ false → OnOutcome W P o')
    → OnOutcome W P (elim b [ true ↦ o | false ↦ o' ])
OnOutcome-elim true h k = h refl
OnOutcome-elim false h k = k refl

pub join_worker-OnOutcome :
    {W : Type 0} {P : Tui → Type 0} (w : Worker) (s : Tui) (f : Tui → Outcome)
    → (is_scanning w ≡ true → W)
    → OnOutcome W P (f s)
    → OnOutcome W P (f (record s { worker = no_worker }))
    → OnOutcome W P (join_worker w s f)
join_worker-OnOutcome no_worker s f e h k = h
join_worker-OnOutcome (running options) s f e h k = on_waits (e refl)
join_worker-OnOutcome ending s f e h k = on_waits (e refl)
join_worker-OnOutcome ended s f e h k = k

-- A recovery adds its options to the trace, and changes neither selection.
pub recover_with-Holds :
    {Q : Tui → Type 0} (b : Backend) (o : RecoverOptions) (s : Tui)
    → ((t : TextView) (logs : List (List ℕ))
        → Q (with_text t (record s { logs = logs; recoveries = o ∷ s.recoveries })))
    → Holds b Q (recover_with b o s)
recover_with-Holds b o s h =
    try_text-Holds (b.recover o).0 _ _ _
      (λ stats.
        h (recover_text o.dry_run (last_log (log_messages [] (b.recover o).1)) stats)
          (log_messages [] (b.recover o).1))
      (h (recover_error o.dry_run) (log_messages [] (b.recover o).1))

abbrev pub is_slash : Event → Bool
is_slash (character c) = c == 47
is_slash enter = false
is_slash other = false

abbrev is_unhandled : Result Outcome → Bool
is_unhandled (ok (unhandled s)) = true
is_unhandled m = false

-- The character / does not reach the widgets.
pub unhandled-slash :
    (b : Backend) (e : Event) (s s' : Tui) → handle b e s ≡ ok (unhandled s') → is_slash e ≡ false
unfolding handle
unhandled-slash b (character c) s s' r = elim (Bool-cases (c == 47)) [
  | inr f ↦ f
  | inl t ↦
      let e : c ≡ 47 = ground arith in
      absurd (
        false≢true
          (subst (λ x. is_unhandled (handle b (character x) s) ≡ true) e (ap is_unhandled r)))
]
unhandled-slash b enter s s' r = refl
unhandled-slash b other s s' r = refl
