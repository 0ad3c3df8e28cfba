-- ===== src/PathSafety/Opening/Owned.antt =====
-- No descriptor of a source is lost, and none is closed twice.
use just_give_my_disk.Common.{ℕ, ◌≡◌, refl, sym, ◌∙◌, ap, subst, Bool, true, false, some, List, ◌∷◌}
use just_give_my_disk.Output.Posix.{Errno, Call, success, failure}
use just_give_my_disk.Output.Result.{
  Result, throw, and_then, or_throw, Settles, Ends, ends_ok, ends_throw, Ends-and_then,
  Ends-or_throw, Settles-and_then,
}
use just_give_my_disk.PathSafety.{Components, Stat, same_opened_object}
use just_give_my_disk.PathSafety.Opening.{
  Descriptors, SourceObject, is_readable, mode_checked, opened_checked, stat_checked, open_source,
  close_fd, destroy_source, without_fd, move_construct, move_assign,
}

-- What is documented: an open that succeeds adds a descriptor, `close` takes off the one that it is
-- given, and no other call changes which are open.
pub record IsDescriptors (D : Descriptors) : Type 0 where
  pub canonicalize_ends :
      (path : List ℕ) (w : D.World) → Settles (λ _. Unit {0}) (D.canonicalize path w)
  pub stat_opened : (c : Components) (w : D.World) → D.opened (D.stat c w).1 ≡ D.opened w
  pub open_failed :
      (c : Components) (w : D.World) (e : Errno)
      → (D.open_read c w).0 ≡ failure e
      → D.opened (D.open_read c w).1 ≡ D.opened w
  pub open_done :
      (c : Components) (w : D.World) (fd : ℕ)
      → (D.open_read c w).0 ≡ success fd
      → D.opened (D.open_read c w).1 ≡ fd ∷ D.opened w
  pub fstat_opened : (fd : ℕ) (w : D.World) → D.opened (D.fstat fd w).1 ≡ D.opened w
  pub mode_opened : (fd : ℕ) (w : D.World) → D.opened (D.is_read_only fd w).1 ≡ D.opened w
  pub close_done :
      (fd : ℕ) (fds : List ℕ) (w : D.World) → D.opened w ≡ fd ∷ fds → D.opened (D.close fd w) ≡ fds

module _ (D : Descriptors) (law : IsDescriptors D) where
  open D use {World, opened, close, open_read, fstat, is_read_only}

  -- The source has the only descriptor that was opened since, and whoever owns it closes it.
  pub record IsOwned (w : World) (s : SourceObject) (v : World) : Type 0 where
    pub fd : ℕ
    pub has_fd : s.fd_ ≡ some fd
    pub only : opened v ≡ fd ∷ opened w
    pub destroyed : opened (destroy_source D s v) ≡ opened w
    pub moved :
        opened (destroy_source D (move_construct D s).1 (destroy_source D (move_construct D s).0 v))
        ≡ opened w
    pub assigned :
        (empty : SourceObject)
        → opened (
            destroy_source D (move_assign D (without_fd empty) s v).0.0 (
              destroy_source D
                (move_assign D (without_fd empty) s v).0.1
                (move_assign D (without_fd empty) s v).1))
          ≡ opened w

  module _ (w : World) where
    OpenEnds : Result SourceObject × World → Type 0
    OpenEnds = Ends (IsOwned w) (λ v. opened v ≡ opened w)

    owned :
        (s : SourceObject) (fd : ℕ) (v : World)
        → s.fd_ ≡ some fd
        → opened v ≡ fd ∷ opened w
        → IsOwned w s v
    unfolding destroy_source move_construct move_assign
    owned s fd v e o =
        let closed : opened (close_fd D s.fd_ v) ≡ opened w =
          subst (λ f. opened (close_fd D f v) ≡ opened w) (sym e)
            (law.close_done fd (opened w) v o) in
        record {
          fd = fd;
          has_fd = e;
          only = o;
          destroyed = closed;
          moved = closed;
          assigned = λ empty. closed;
        }

    mode_checked-OpenEnds :
        (fd : ℕ) (path : Components) (after : Stat) (c : Bool × World)
        → opened c.1 ≡ fd ∷ opened w
        → OpenEnds (mode_checked D fd path after c)
    unfolding OpenEnds
    mode_checked-OpenEnds fd path after (false, v) o = ends_throw (law.close_done fd (opened w) v o)
    mode_checked-OpenEnds fd path after (true, v) o = ends_ok (owned _ fd v refl o)

    opened_checked-OpenEnds :
        (fd : ℕ) (path : Components) (before : Stat) (c : Call Stat × World)
        → opened c.1 ≡ fd ∷ opened w
        → OpenEnds (opened_checked D fd path before c)
    unfolding OpenEnds
    opened_checked-OpenEnds fd path before (failure e, v) o =
        ends_throw (law.close_done fd (opened w) v o)
    opened_checked-OpenEnds fd path before (success after, v) o =
        by_test (same_opened_object before after)
      where
        by_test :
            (b : Bool)
            → Ends
                (IsOwned w)
                (λ u. opened u ≡ opened w)
                (elim b [
                  | true ↦ mode_checked D fd path after (is_read_only fd v)
                  | false ↦ (throw, close fd v)
                ])
        by_test true =
            mode_checked-OpenEnds fd path after (is_read_only fd v) (law.mode_opened fd v ∙ o)
        by_test false = ends_throw (law.close_done fd (opened w) v o)

    stat_checked-OpenEnds :
        (path : Components) (c : Call Stat × World)
        → opened c.1 ≡ opened w
        → OpenEnds (stat_checked D path c)
    unfolding OpenEnds
    stat_checked-OpenEnds path (failure e, v) o = ends_throw o
    stat_checked-OpenEnds path (success before, v) o = by_type (is_readable before.file_type)
      where
        by_type :
            (b : Bool)
            → Ends
                (IsOwned w)
                (λ u. opened u ≡ opened w)
                (elim b [
                  | true ↦
                      and_then
                        (or_throw (open_read path v))
                        (λ fd u. opened_checked D fd path before (fstat fd u))
                  | false ↦ (throw, v)
                ])
        by_type true =
            Ends-and_then
              (Ends-or_throw {Q = λ fd u. opened u ≡ fd ∷ opened w} (open_read path v).0
                (open_read path v).1 (λ fd e. law.open_done path v fd e ∙ ap (λ fds. fd ∷ fds) o)
                (λ e h. law.open_failed path v e h ∙ o))
              (λ fd u k.
                opened_checked-OpenEnds fd path before (fstat fd u) (law.fstat_opened fd u ∙ k))
        by_type false = ends_throw o

    -- The constructor of `Source` ends. If it throws, whichever call or test has failed, then no descriptor
    -- is left open. If it returns, then the source has the one descriptor that is open since; the destructor
    -- closes it, and where the source is moved, to a new object or to one without a descriptor, the
    -- destructors of both close it once.
    pub open_source-IsOwned :
        (path : List ℕ) → Ends (IsOwned w) (λ v. opened v ≡ opened w) (open_source D path w)
    unfolding open_source OpenEnds
    open_source-IsOwned path =
        Settles-and_then _ (law.canonicalize_ends path w) refl
          (λ c _ _. stat_checked-OpenEnds c (D.stat c w) (law.stat_opened c w))
