-- ===== src/Scanner/Tests.antt =====
-- A scan on a concrete source, of one record and a rest, in reads that are short and interrupted.
use just_give_my_disk.Common.{
  ℕ, zero, suc, ◌≤◌, ◌<◌, ◌≡◌, refl, sym, subst, some, List, [], ◌∷◌, ◌++◌, All, length,
  length-take, take, drop, take-append-drop, leb, if◌then◌else◌, arith,
}
use just_give_my_disk.Mft.Samples.{file_record, file_record-IsByte}
use just_give_my_disk.Output.Posix.{Errno, eintr, Call, success, failure}
use just_give_my_disk.Output.Result.{Ends}
use just_give_my_disk.Scanner.{Device, IsDevice, Entry, run}
use just_give_my_disk.Scanner.Reference.{IsBlock, flatten}
use just_give_my_disk.Scanner.Scanned.{IsScanned, IsPartial, run-IsScanned}

record Tape : Type 0 where
  left : List ℕ
  pending : ℕ
  written : List Entry
  saved : List Entry

abbrev portion : ℕ → ℕ
portion size = if leb 700 size then 700 else size

abbrev tape_read : ℕ → ℕ → Tape → Call (List ℕ) × Tape
tape_read zero size w =
    (success (take (portion size) w.left), record w { left = drop (portion size) w.left })
tape_read (suc k) size w = (failure eintr, record w { pending = k })

abbrev tape : Device
tape = record {
  World = Tape;
  rest = λ w. w.left;
  interrupts = λ w. w.pending;
  rows = λ w. w.written;
  committed = λ w. w.saved;
  read = λ size w. tape_read w.pending size w;
  begin = λ w. (success tt, w);
  insert_record = λ r name w. (success tt, record w { written = w.written ++ (r, name) ∷ [] });
  commit = λ w. (success tt, record w { saved = w.written });
}

tape_kept :
    (k size : ℕ) (w : Tape)
    → ((tape_read k size w).1.written ≡ w.written) × ((tape_read k size w).1.saved ≡ w.saved)
tape_kept zero size w = (refl, refl)
tape_kept (suc k) size w = (refl, refl)

portion-le : (size : ℕ) → portion size ≤ size
portion-le size = ground arith

tape_done :
    (k size : ℕ) (w : Tape) (bs : List ℕ)
    → (tape_read k size w).0 ≡ success bs
    → (length bs ≤ size) × (w.left ≡ bs ++ (tape_read k size w).1.left)
tape_done zero size w bs e =
    subst (λ b. (length b ≤ size) × (w.left ≡ b ++ drop (portion size) w.left)) (cc e)
      (
        omega (arith, length-take (portion size) w.left, portion-le size),
        sym (take-append-drop (portion size) w.left),
      )
tape_done (suc k) size w bs e = absurd (cc e)

nothing_left : (n : ℕ) (xs : List ℕ) → 0 < n → take n xs ≡ [] → xs ≡ []
nothing_left zero xs h e = elim h [ ]
nothing_left (suc n) [] h e = refl
nothing_left (suc n) (x ∷ xs) h e = absurd (cc e)

tape_end : (k size : ℕ) (w : Tape) → 0 < size → (tape_read k size w).0 ≡ success [] → w.left ≡ []
tape_end zero size w h e = nothing_left (portion size) w.left (ground arith) (cc e)
tape_end (suc k) size w h e = absurd (cc e)

tape_failed :
    (k size : ℕ) (w : Tape) (e : Errno)
    → (tape_read k size w).0 ≡ failure e
    → (tape_read k size w).1.left ≡ w.left
tape_failed zero size w e h = absurd (cc h)
tape_failed (suc k) size w e h = refl

tape_interrupts :
    (k size : ℕ) (w : Tape) → k ≡ w.pending → (tape_read k size w).1.pending ≤ w.pending
tape_interrupts zero size w h = omega arith
tape_interrupts (suc k) size w h = omega (arith, h)

tape_interrupted :
    (k size : ℕ) (w : Tape)
    → k ≡ w.pending
    → (tape_read k size w).0 ≡ failure eintr
    → (tape_read k size w).1.pending < w.pending
tape_interrupted zero size w h e = absurd (cc e)
tape_interrupted (suc k) size w h e = omega (arith, h)

tape-IsDevice : IsDevice tape
tape-IsDevice = record {
  read_kept = λ size w. tape_kept w.pending size w;
  read_done = λ size w bs e. tape_done w.pending size w bs e;
  read_end = λ size w h e. tape_end w.pending size w h e;
  read_failed = λ size w e h. tape_failed w.pending size w e h;
  read_interrupts = λ size w. tape_interrupts w.pending size w refl;
  read_interrupted = λ size w e. tape_interrupted w.pending size w refl e;
  begin_kept = λ w. ((refl, refl), refl);
  insert_done = λ r name w e. (refl, refl);
  insert_committed = λ r name w. refl;
  commit_done = λ w e. refl;
  commit_failed = λ w e h. absurd (cc h);
}

abbrev blocks : List (List ℕ)
blocks = file_record ∷ []

abbrev start : Tape
start = record { left = flatten blocks ++ 1 ∷ 2 ∷ []; pending = 2; written = []; saved = [] }

blocks-IsBlock : All IsBlock blocks
blocks-IsBlock = ((refl, file_record-IsByte), tt)

run-IsScanned_example :
    Ends
      (IsScanned tape tape-IsDevice (some (b'A' ∷ [])) start blocks)
      (IsPartial tape tape-IsDevice (some (b'A' ∷ [])) start 0 blocks)
      (run tape (some (b'A' ∷ [])) start)
run-IsScanned_example =
    run-IsScanned tape tape-IsDevice (some (b'A' ∷ [])) start blocks (1 ∷ 2 ∷ []) blocks-IsBlock
      (omega arith) refl (omega arith)
