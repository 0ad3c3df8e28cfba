-- ===== src/Output/AtomicFile/Publishing.antt =====
-- `AtomicFile::commit` and the destructor: the output is published whole or not at all.
use mathlib.Core.Bool.{false≢true}
use just_give_my_disk.Common.{
  ℕ, ◌≡◌, ◌≢◌, refl, subst, sym, ◌∙◌, ap, Bool, true, false, Option, none, some, List, [],
  if◌then◌else◌, ◌⊎◌, inl, inr, Bool-cases,
}
use just_give_my_disk.Output.Posix.{
  Posix, IsPosix, Same, SameBut, Moved, regular, Errno, enosys, einval, Call, success, failure,
}
use just_give_my_disk.Output.Result.{Ends, ends_ok, ends_throw, Ends-weaken, Ends-and_then, Result}
use just_give_my_disk.Output.AtomicFile.{
  AtomicFile, partial_of, is_replaceable, unlinked, linked, noreplaced, rename_without_replacement,
  renamed, publish, closed, synced, commit, cleanup_partial, destroyed, finished, with_output,
}
use just_give_my_disk.Output.AtomicFile.Opening.{Opened, open_output-Opened, partial-ne}

module _ (P : Posix) (law : IsPosix P) where
  open P use {World, node, file, unlink, fsync, close, rename, rename_noreplace, link}

  -- Every path but two names what it named.
  abbrev pub Others : List ℕ → List ℕ → World → World → Type 0
  Others a b w u = (q : List ℕ) → q ≢ a → q ≢ b → node u q ≡ node w q

  -- The output is complete under its name, nothing is left, and what its writer has checked holds; or
  -- its name is as it was.
  pub record Saved (final_path partial content : List ℕ) (R : Type 0) (w : World) (done : Bool)
      (u : World) : Type 0 where
    pub result : node u final_path ≡ (if done then some (regular content) else node w final_path)
    pub gone : done ≡ true → node u partial ≡ none
    pub checked : done ≡ true → R
    pub elsewhere : Others final_path partial w u

  -- An exception leaves the name as it was, or the output is complete there.
  pub record Failed (final_path partial content : List ℕ) (R : Type 0) (w u : World) : Type 0 where
    pub result :
        (node u final_path ≡ node w final_path) ⊎ ((node u final_path ≡ some (regular content)) × R)
    pub elsewhere : Others final_path partial w u

  -- What an attempt to move a file may end in.
  record Attempted (from to : List ℕ) (w u : World) : Type 0 where
    at_target : (node u to ≡ node w to) ⊎ (node u to ≡ node w from)
    elsewhere : Others to from w u

  data Moves (from to : List ℕ) (w : World) : Call (Unit {0}) × World → Type 0 where
    moved : {v : World} → Moved P from to w v → Moves from to w (success tt, v)
    unmoved : {e : Errno} {v : World} → Attempted from to w v → Moves from to w (failure e, v)

  unmoved-Same :
      {from to : List ℕ} {w v : World} {e : Errno} → Same P w v → Moves from to w (failure e, v)
  unmoved-Same {to = to} s = unmoved (record { at_target = inl (s to); elsewhere = λ q _ _. s q })

  unlinked_lem :
      (from to : List ℕ) (w v : World) (c : Call (Unit {0})) (u : World)
      → from ≢ to
      → node w to ≡ none
      → node v to ≡ node w from
      → SameBut P to w v
      → SameBut P from v u
      → (c ≡ success tt → node u from ≡ none)
      → Moves from to w (unlinked P to (c, u))
  unlinked_lem from to w v (success tt) u ne absent linked_to same same' gone = moved (record {
    arrived = same' to (λ e. ne (sym e)) ∙ linked_to;
    left = gone refl;
    elsewhere = λ q a b. same' q a ∙ same q b;
  })
  unlinked_lem from to w v (failure e) u ne absent linked_to same same' gone = unmoved (record {
    at_target = taken (unlink to u).0 refl;
    elsewhere = λ q b a. law.unlink_same to u q b ∙ same' q a ∙ same q b;
  })
    where
      taken :
          (c : Call (Unit {0}))
          → (unlink to u).0 ≡ c
          → (node (unlink to u).1 to ≡ node w to) ⊎ (node (unlink to u).1 to ≡ node w from)
      taken (success tt) d = inl (law.unlink_done to u d ∙ sym absent)
      taken (failure e') d =
          inr (law.unlink_failed to u e' d to ∙ same' to (λ h. ne (sym h)) ∙ linked_to)

  linked_lem :
      (from to : List ℕ) (w w' : World) (c : Call (Unit {0})) (v : World)
      → from ≢ to
      → Same P w w'
      → (c ≡ success tt → (node w' to ≡ none) × (node v to ≡ node w' from) × SameBut P to w' v)
      → ((e : Errno) → c ≡ failure e → Same P w' v)
      → Moves from to w (linked P from to (c, v))
  linked_lem from to w w' (success tt) v ne s done failed =
      let (absent, at_to, same) = done refl in
      unlinked_lem from to w v (unlink from v).0 (unlink from v).1 ne (sym (s to) ∙ absent)
        (at_to ∙ s from) (λ q h. same q h ∙ s q) (law.unlink_same from v) (law.unlink_done from v)
  linked_lem from to w w' (failure e) v ne s done failed = unmoved-Same (λ q. failed e refl q ∙ s q)

  noreplaced_lem :
      (from to : List ℕ) (w : World) (c : Call (Unit {0})) (v : World)
      → from ≢ to
      → (c ≡ success tt → Moved P from to w v)
      → ((e : Errno) → c ≡ failure e → Same P w v)
      → Moves from to w (noreplaced P from to (c, v))
  noreplaced_lem from to w (success tt) v ne done failed = moved (done refl)
  noreplaced_lem from to w (failure enosys) v ne done failed =
      linked_lem from to w v (link from to v).0 (link from to v).1 ne (failed enosys refl)
        (law.link_done from to v) (law.link_failed from to v)
  noreplaced_lem from to w (failure einval) v ne done failed =
      linked_lem from to w v (link from to v).0 (link from to v).1 ne (failed einval refl)
        (law.link_done from to v) (law.link_failed from to v)
  noreplaced_lem from to w (failure e) v ne done failed = unmoved-Same (failed e refl)

  rename_lem :
      (from to : List ℕ) (w : World) (c : Call (Unit {0})) (v : World)
      → (c ≡ success tt → Moved P from to w v)
      → ((e : Errno) → c ≡ failure e → Same P w v)
      → Moves from to w (c, v)
  rename_lem from to w (success tt) v done failed = moved (done refl)
  rename_lem from to w (failure e) v done failed = unmoved-Same (failed e refl)

  -- Both ways to give the file its name.
  attempt_lem :
      (overwrite : Bool) (from to : List ℕ) (w : World)
      → from ≢ to
      → Moves from to w
          (if overwrite then rename from to w else rename_without_replacement P from to w)
  unfolding rename_without_replacement
  attempt_lem true from to w ne =
      rename_lem from to w (rename from to w).0 (rename from to w).1 (law.rename_done from to w ne)
        (law.rename_failed from to w)
  attempt_lem false from to w ne =
      noreplaced_lem from to w (rename_noreplace from to w).0 (rename_noreplace from to w).1 ne
        (λ e. (law.noreplace_done from to w e).1) (law.noreplace_failed from to w)

  closed-Same :
      (fd : Option ℕ) (w : World) → Same P w (elim fd [ none ↦ w | some d ↦ (close d w).1 ])
  closed-Same none w = λ q. refl
  closed-Same (some d) w = law.close_same d w

  cleanup_lem :
      (out : AtomicFile) (w : World) → SameBut P out.partial_path w (cleanup_partial P out w)
  unfolding cleanup_partial
  cleanup_lem out w q h = elim (Bool-cases out.committed) [
    | inl t ↦ rw t (closed-Same out.fd w q)
    | inr f ↦ rw f (law.unlink_same out.partial_path _ q h ∙ closed-Same out.fd w q)
  ]

  module _ (out : AtomicFile) (content : List ℕ) (R : Type 0) (w : World)
      (ne : out.partial_path ≢ out.final_path) where
    -- Nothing but the partial file has changed since the start, and it holds the whole content.
    record Ready (v : World) : Type 0 where
      full : node v out.partial_path ≡ some (regular content)
      sure : R
      same : SameBut P out.partial_path w v

    Ready-Same : {v u : World} → Ready v → Same P v u → Ready u
    Ready-Same r s = record {
      full = s out.partial_path ∙ r.full;
      sure = r.sure;
      same = λ q h. s q ∙ r.same q h;
    }

    kept :
        {u : World}
        → SameBut P out.partial_path w u
        → Failed out.final_path out.partial_path content R w u
    kept s = record {
      result = inl (s out.final_path (λ e. ne (sym e)));
      elsewhere = λ q _ h. s q h;
    }

    kept_cleanup :
        (out' : AtomicFile) (u : World)
        → out'.partial_path ≡ out.partial_path
        → Failed out.final_path out.partial_path content R w u
        → Failed out.final_path out.partial_path content R w (cleanup_partial P out' u)
    kept_cleanup out' u e f =
        let same : SameBut P out.partial_path u (cleanup_partial P out' u) =
          λ q h. cleanup_lem out' u q (λ k. h (k ∙ e)) in
        record {
          result = elim f.result [
            | inl h ↦ inl (same out.final_path (λ k. ne (sym k)) ∙ h)
            | inr (h, sure) ↦ inr (same out.final_path (λ k. ne (sym k)) ∙ h, sure)
          ];
          elsewhere = λ q a b. same q b ∙ f.elsewhere q a b;
        }

    abbrev Outcome : Result Bool × World → Type 0
    Outcome =
        Ends (Saved out.final_path out.partial_path content R w)
          (Failed out.final_path out.partial_path content R w)

    renamed_lem :
        (out' : AtomicFile) (v : World) (m : Call (Unit {0}) × World)
        → out'.partial_path ≡ out.partial_path
        → out'.fd ≡ none
        → Ready v
        → Moves out.partial_path out.final_path v m
        → Outcome (destroyed P (renamed P out' m))
    unfolding cleanup_partial
    renamed_lem out' v m e closed r (moved mv) = rw closed (
        ends_ok (record {
          result = mv.arrived ∙ r.full;
          gone = λ _. mv.left;
          checked = λ _. r.sure;
          elsewhere = λ q a b. mv.elsewhere q b a ∙ r.same q b;
        }))
    renamed_lem out' v m e closed r (unmoved {v = u} a) = ends_throw (
        kept_cleanup out' u e (record {
          result = elim a.at_target [
            | inl h ↦ inl (h ∙ r.same out.final_path (λ k. ne (sym k)))
            | inr h ↦ inr (h ∙ r.full, r.sure)
          ];
          elsewhere = λ q b c. a.elsewhere q b c ∙ r.same q c;
        }))

    closed_lem :
        (v : World) (c : Call (Unit {0})) → Ready v → Outcome (destroyed P (closed P out (c, v)))
    unfolding publish
    closed_lem v (success tt) r =
        renamed_lem (record out { fd = none }) v _ refl refl r
          (attempt_lem out.overwrite out.partial_path out.final_path v ne)
    closed_lem v (failure e) r =
        ends_throw (kept_cleanup (record out { fd = none }) v refl (kept r.same))

    synced_lem :
        (fd : ℕ) (v : World) (c : Call (Unit {0}))
        → Ready v
        → Outcome (destroyed P (synced P out fd (c, v)))
    synced_lem fd v (success tt) r =
        closed_lem (close fd v).1 (close fd v).0 (Ready-Same r (law.close_same fd v))
    synced_lem fd v (failure e) r = ends_throw (kept_cleanup out v refl (kept r.same))

    commit_lem :
        (fd : ℕ) (v : World)
        → out.fd ≡ some fd
        → out.committed ≡ false
        → Ready v
        → Outcome (destroyed P (commit P out v))
    unfolding commit
    commit_lem fd v has f r =
        rw (f, has)
          (synced_lem fd (fsync fd v).1 (fsync fd v).0 (Ready-Same r (law.fsync_same fd v)))

    -- What the user's code may have done: if it returns true, the whole content is there.
    abbrev Progress : Bool → World → Type 0
    Progress complete v =
        SameBut P out.partial_path w v
        × (complete ≡ true → (node v out.partial_path ≡ some (regular content)) × R)

    finished_lem :
        (fd : ℕ) (m : Result Bool × World)
        → out.fd ≡ some fd
        → out.committed ≡ false
        → Ends Progress (SameBut P out.partial_path w) m
        → Outcome (finished P out m)
    finished_lem fd m has f (ends_ok {a = true} {w = v} r) =
        commit_lem fd v has f (record { full = (r.1 refl).0; sure = (r.1 refl).1; same = r.0 })
    finished_lem fd m has f (ends_ok {a = false} {w = v} r) = ends_ok (record {
      result =
          cleanup_lem out v out.final_path (λ e. ne (sym e)) ∙ r.0 out.final_path (λ e. ne (sym e));
      gone = λ e. absurd (false≢true e);
      checked = λ e. absurd (false≢true e);
      elsewhere = λ q _ b. cleanup_lem out v q b ∙ r.0 q b;
    })
    finished_lem fd m has f (ends_throw {w = v} s) = ends_throw (kept_cleanup out v refl (kept s))

  -- What the code between the opening and the commit does to a fresh output: it changes nothing but
  -- the partial file, and if it returns true, this holds the content, and what the code checks holds.
  abbrev pub Writes : List ℕ → List ℕ → Type 0 → (AtomicFile → World → Result Bool × World) → Type 0
  Writes partial content R body =
      (out : AtomicFile) (fd : ℕ) (v : World)
      → out.fd ≡ some fd
      → file v fd ≡ partial
      → node v partial ≡ some (regular [])
      → Ends
          (λ complete u.
            SameBut P partial v u
            × (complete ≡ true → (node u partial ≡ some (regular content)) × R))
          (SameBut P partial v) (body out v)

  -- The life of an `AtomicFile`, around any code that writes only to its partial file: it ends,
  -- and only the final and the partial path change. Returned true: the final path, which was free
  -- or replaceable, has the whole content, what the code has checked holds, and no partial file
  -- is left. Returned false: the final path is as it was. Thrown: the final path is as it was, or
  -- it was free or replaceable and has the whole content.
  pub with_output-Saved :
      (final_path : List ℕ) (overwrite : Bool) (content : List ℕ) (R : Type 0)
      (body : AtomicFile → World → Result Bool × World) (w : World)
      → Writes (partial_of final_path) content R body
      → Ends
          (λ done u.
            Saved final_path (partial_of final_path) content R w done u
            × (is_replaceable overwrite (node w final_path) ≡ true))
          (λ u.
            Failed final_path (partial_of final_path) content R w u
            × (is_replaceable overwrite (node w final_path) ≡ false
                → node u final_path ≡ node w final_path))
          (with_output P final_path overwrite body w)
  unfolding with_output
  with_output-Saved fp ow content R body w writes =
      Ends-and_then
        (Ends-weaken (open_output-Opened P law fp ow w) (λ out v h. h)
          (λ u s. (
            record { result = inl (s fp (partial-ne fp)); elsewhere = λ q _ h. s q h },
            λ _. s fp (partial-ne fp),
          )))
        (λ out v h. opened out v h.0 h.1)
    where
      opened :
          (out : AtomicFile) (v : World)
          → Opened P law fp ow w out v
          → is_replaceable ow (node w fp) ≡ true
          → Ends
              (λ done u.
                Saved fp (partial_of fp) content R w done u
                × (is_replaceable ow (node w fp) ≡ true))
              (λ u.
                Failed fp (partial_of fp) content R w u
                × (is_replaceable ow (node w fp) ≡ false → node u fp ≡ node w fp))
              (finished P out (body out v))
      opened out v o t =
          let (fd, has, named) = o.descriptor in
          Ends-weaken
            (subst
              (λ r.
                Ends (Saved r.0 r.1 content R w) (Failed r.0 r.1 content R w)
                  (finished P out (body out v)))
              (pair_eq out.final_path out.partial_path o.same_final o.same_partial)
              (finished_lem out content R w
                (λ e. partial-ne fp (sym o.same_final ∙ sym e ∙ o.same_partial)) fd _ has
                o.not_committed
                (Ends-weaken (writes out fd v has named o.fresh)
                  (λ b u g. (
                    λ q h.
                        g.0 q (λ k. h (k ∙ sym o.same_partial))
                        ∙ o.same q (λ k. h (k ∙ sym o.same_partial)),
                    λ e. (ap (node u) o.same_partial ∙ (g.1 e).0, (g.1 e).1),
                  ))
                  (λ u s q h.
                    s q (λ k. h (k ∙ sym o.same_partial))
                    ∙ o.same q (λ k. h (k ∙ sym o.same_partial))))))
            (λ done u h. (h, t)) (λ u f. (f, λ e. absurd (false≢true (sym e ∙ t))))
        where
          pair_eq :
              (a c : List ℕ) {b d : List ℕ}
              → a ≡ b
              → c ≡ d
              → ◌≡◌ {A = List ℕ × List ℕ} (a, c) (b, d)
          pair_eq a c e f = rw (e, f) refl
