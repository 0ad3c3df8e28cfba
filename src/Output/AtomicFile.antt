-- ===== src/Output/AtomicFile.antt =====
-- src/RecoveryOutput.cpp: `AtomicFile`, an output that appears under its name only when it is complete.
-- An operation takes the world and returns its result and the world after it.
pub mod Opening
pub mod Writing
pub mod Publishing
use just_give_my_disk.Common.{
  ℕ, zero, suc, ◌+◌, ◌-◌, ◌≡◌, refl, ◌==◌, Bool, true, false, not, Option, none, some, List, [],
  ◌∷◌, ◌++◌, length, drop, ltb, if◌then◌else◌,
}
use just_give_my_disk.Output.Result.{Result, ok, throw, stuck, and_then, or_throw}
use just_give_my_disk.Output.Posix.{
  Posix, Node, regular, symlink, other, Errno, enoent, enotdir, eintr, enosys, einval, errno, Call,
  success, failure,
}

pub record AtomicFile : Type 0 where
  pub final_path : List ℕ
  pub partial_path : List ℕ
  pub fd : Option ℕ
  pub overwrite : Bool
  pub committed : Bool

-- `final_path.string() + ".partial"`
abbrev pub partial_of : List ℕ → List ℕ
partial_of final_path = final_path ++ (b'.' ∷ b'p' ∷ b'a' ∷ b'r' ∷ b't' ∷ b'i' ∷ b'a' ∷ b'l' ∷ [])

-- `path_exists`, on the result of `lstat`
abbrev pub exists_of : {W : Type 0} → Call Node × W → Result (Option Node) × W
exists_of (success n, w) = (ok (some n), w)
exists_of (failure enoent, w) = (ok none, w)
exists_of (failure enotdir, w) = (ok none, w)
exists_of (failure e, w) = (throw, w)

-- `reject_unsafe_existing_output` and the test of `overwrite_` behind it: whether the path may be used.
abbrev pub is_replaceable : Bool → Option Node → Bool
is_replaceable overwrite none = true
is_replaceable overwrite (some (regular content)) = overwrite
is_replaceable overwrite (some node) = false

-- The loop's body behind `::write`, with the rounds that follow.
abbrev pub wrote :
    {W : Type 0} → (ℕ → W → Result (Unit {0}) × W) → ℕ → Call ℕ × W → Result (Unit {0}) × W
wrote again written (success count, v) =
    let next = again (written + count) v in if count == 0 then (throw, v) else next
wrote again written (failure eintr, v) = again written v
wrote again written (failure e, v) = (throw, v)

module _ (P : Posix) where
  open P use {
    World, interrupts, lstat, unlink, open_exclusive, write, fsync, close, rename, rename_noreplace,
    link,
  }

  -- The removal of a stale partial output, if there is one.
  unfoldable pub remove_stale : List ℕ → Option Node → World → Result (Unit {0}) × World
  remove_stale partial none w = (ok tt, w)
  remove_stale partial (some node) w = or_throw (unlink partial w)

  unfoldable pub create_partial : List ℕ → Bool → World → Result AtomicFile × World
  create_partial final_path overwrite w =
      and_then (or_throw (open_exclusive (partial_of final_path) w)) (λ fd v. (
        ok (record {
          final_path = final_path;
          partial_path = partial_of final_path;
          fd = some fd;
          overwrite = overwrite;
          committed = false;
        }),
        v,
      ))

  -- The constructor's second half: the check of the partial path, and its creation.
  unfoldable pub open_partial : List ℕ → Bool → World → Result AtomicFile × World
  open_partial final_path overwrite w =
      and_then (exists_of (lstat (partial_of final_path) w)) (λ info v.
        if is_replaceable overwrite info
        then and_then (remove_stale (partial_of final_path) info v)
            (λ _ u. create_partial final_path overwrite u)
        else (throw, v))

  -- The constructor.
  unfoldable pub open_output : List ℕ → Bool → World → Result AtomicFile × World
  open_output final_path overwrite w = and_then (exists_of (lstat final_path w)) (λ info v.
      if is_replaceable overwrite info then open_partial final_path overwrite v else (throw, v))

  -- The loop of `AtomicFile::write`, on fuel.
  unfoldable pub write_loop : ℕ → ℕ → List ℕ → ℕ → World → Result (Unit {0}) × World
  write_loop zero fd bytes written w = (stuck, w)
  write_loop (suc fuel) fd bytes written w =
      if ltb written (length bytes)
      then wrote (write_loop fuel fd bytes) written (write fd (drop written bytes) w)
      else (ok tt, w)

  -- `AtomicFile::write`. Each round writes a byte or takes an interruption, so the fuel is enough.
  -- Without a descriptor the call fails.
  unfoldable pub write_output : AtomicFile → List ℕ → World → Result (Unit {0}) × World
  write_output out bytes w = elim out.fd [
    | none ↦ if 0 == length bytes then (ok tt, w) else (throw, w)
    | some fd ↦ write_loop (length bytes + interrupts w + 1) fd bytes 0 w
  ]

  -- `rename_without_replacement`
  abbrev pub unlinked : List ℕ → Call (Unit {0}) × World → Call (Unit {0}) × World
  unlinked to (success u, v) = (success u, v)
  unlinked to (failure e, v) = (failure e, (unlink to v).1)

  abbrev pub linked : List ℕ → List ℕ → Call (Unit {0}) × World → Call (Unit {0}) × World
  linked from to (success u, v) = unlinked to (unlink from v)
  linked from to (failure e, v) = (failure e, v)

  abbrev pub noreplaced : List ℕ → List ℕ → Call (Unit {0}) × World → Call (Unit {0}) × World
  noreplaced from to (success u, v) = (success u, v)
  noreplaced from to (failure enosys, v) = linked from to (link from to v)
  noreplaced from to (failure einval, v) = linked from to (link from to v)
  noreplaced from to (failure e, v) = (failure e, v)

  unfoldable pub rename_without_replacement : List ℕ → List ℕ → World → Call (Unit {0}) × World
  rename_without_replacement from to w = noreplaced from to (rename_noreplace from to w)

  -- `AtomicFile::commit`: the result, and the object after it.
  abbrev pub renamed : AtomicFile → Call (Unit {0}) × World → Result (Unit {0}) × AtomicFile × World
  renamed out (success u, v) = (ok tt, record out { committed = true }, v)
  renamed out (failure e, v) = (throw, out, v)

  unfoldable pub publish : AtomicFile → World → Result (Unit {0}) × AtomicFile × World
  publish out w = renamed out (
      if out.overwrite
      then rename out.partial_path out.final_path w
      else rename_without_replacement out.partial_path out.final_path w)

  abbrev pub closed : AtomicFile → Call (Unit {0}) × World → Result (Unit {0}) × AtomicFile × World
  closed out (success u, v) = publish (record out { fd = none }) v
  closed out (failure e, v) = (throw, record out { fd = none }, v)

  abbrev pub synced :
      AtomicFile → ℕ → Call (Unit {0}) × World → Result (Unit {0}) × AtomicFile × World
  synced out fd (success u, v) = closed out (close fd v)
  synced out fd (failure e, v) = (throw, out, v)

  unfoldable pub commit : AtomicFile → World → Result (Unit {0}) × AtomicFile × World
  commit out w =
      if out.committed
      then (ok tt, out, w)
      else elim out.fd [ none ↦ (throw, out, w) | some fd ↦ synced out fd (fsync fd w) ]

  -- `cleanup_partial`, which is the destructor. Its calls' results are not looked at.
  unfoldable pub cleanup_partial : AtomicFile → World → World
  cleanup_partial out w =
      let v : World = (elim out.fd [ none ↦ w | some fd ↦ (close fd w).1 ]) in
      if out.committed then v else (unlink out.partial_path v).1

  -- An object's life in `recover_file`: it is opened, its user's code runs, the output is committed if
  -- that returns true, and the object is destroyed on every way out.
  abbrev pub destroyed : Result (Unit {0}) × AtomicFile × World → Result Bool × World
  destroyed (ok u, out, w) = (ok true, cleanup_partial out w)
  destroyed (throw, out, w) = (throw, cleanup_partial out w)
  destroyed (stuck, out, w) = (stuck, w)

  abbrev pub finished : AtomicFile → Result Bool × World → Result Bool × World
  finished out (ok true, w) = destroyed (commit out w)
  finished out (ok false, w) = (ok false, cleanup_partial out w)
  finished out (throw, w) = (throw, cleanup_partial out w)
  finished out (stuck, w) = (stuck, w)

  unfoldable pub with_output :
      List ℕ → Bool → (AtomicFile → World → Result Bool × World) → World → Result Bool × World
  with_output final_path overwrite body w =
      and_then (open_output final_path overwrite w) (λ out v. finished out (body out v))
