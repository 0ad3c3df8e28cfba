-- ===== src/Output/AtomicFile/Opening.antt =====
-- The constructor: what it may have done, and what it has done when it returns.
use just_give_my_disk.Common.{
  ℕ, ◌≡◌, ◌≢◌, refl, ◌∙◌, Bool, true, false, Option, none, some, List, [], ◌∷◌, length,
  length-append, arith, ap, Bool-cases, inl, inr,
}
use just_give_my_disk.Output.Posix.{
  Posix, IsPosix, Same, SameBut, Node, regular, enoent, enotdir, Call, success, failure,
}
use just_give_my_disk.Output.Result.{
  Ends, ends_ok, ends_throw, Ends-weaken, Ends-and_then, Ends-or_throw, Result,
}
use just_give_my_disk.Output.AtomicFile.{
  AtomicFile, partial_of, exists_of, is_replaceable, remove_stale, create_partial, open_partial,
  open_output,
}

pub partial-ne : (p : List ℕ) → p ≢ partial_of p
partial-ne p e = absurd (
    omega (
      arith,
      ap length e,
      length-append p (b'.' ∷ b'p' ∷ b'a' ∷ b'r' ∷ b't' ∷ b'i' ∷ b'a' ∷ b'l' ∷ []),
    ))

module _ (P : Posix) (law : IsPosix P) where
  open P use {World, node, file, lstat, unlink, open_exclusive}

  exists_cases :
      (p : List ℕ) (w : World) (c : Call Node) (v : World)
      → Same P w v
      → ((n : Node) → c ≡ success n → node w p ≡ some n)
      → (c ≡ failure enoent → node w p ≡ none)
      → (c ≡ failure enotdir → node w p ≡ none)
      → Ends (λ info u. Same P w u × (node w p ≡ info)) (Same P w) (exists_of (c, v))
  exists_cases p w (success n) v s found m1 m2 = ends_ok (s, found n refl)
  exists_cases p w (failure enoent) v s found m1 m2 = ends_ok (s, m1 refl)
  exists_cases p w (failure enotdir) v s found m1 m2 = ends_ok (s, m2 refl)
  exists_cases p w (failure e) v s found m1 m2 = ends_throw s

  -- `path_exists` tells what the path names, and changes nothing.
  exists_lem :
      (p : List ℕ) (w : World)
      → Ends (λ info u. Same P w u × (node w p ≡ info)) (Same P w) (exists_of (lstat p w))
  exists_lem p w =
      exists_cases p w (lstat p w).0 (lstat p w).1 (law.lstat_same p w) (law.lstat_found p w)
        (law.lstat_enoent p w) (law.lstat_enotdir p w)

  remove_stale_lem :
      (p : List ℕ) (info : Option Node) (w : World)
      → Ends (λ _ v. SameBut P p w v) (SameBut P p w) (remove_stale P p info w)
  unfolding remove_stale
  remove_stale_lem p none w = ends_ok (λ q h. refl)
  remove_stale_lem p (some n) w =
      Ends-or_throw (unlink p w).0 (unlink p w).1 (λ _ _. law.unlink_same p w)
        (λ _ _. law.unlink_same p w)

  -- What the constructor has done when it returns.
  pub record Opened (final_path : List ℕ) (overwrite : Bool) (w : World) (out : AtomicFile)
      (v : World) : Type 0 where
    pub same : SameBut P (partial_of final_path) w v
    pub fresh : node v (partial_of final_path) ≡ some (regular [])
    pub descriptor : (fd : ℕ) × (out.fd ≡ some fd) × (file v fd ≡ partial_of final_path)
    pub same_final : out.final_path ≡ final_path
    pub same_partial : out.partial_path ≡ partial_of final_path
    pub same_overwrite : out.overwrite ≡ overwrite
    pub not_committed : out.committed ≡ false

  create_partial_lem :
      (final_path : List ℕ) (overwrite : Bool) (w : World)
      → Ends
          (Opened final_path overwrite w)
          (SameBut P (partial_of final_path) w)
          (create_partial P final_path overwrite w)
  unfolding create_partial
  create_partial_lem fp ow w =
      Ends-and_then
        (Ends-or_throw
          {Q = λ fd v.
            SameBut P (partial_of fp) w v
            × (node v (partial_of fp) ≡ some (regular []))
            × (file v fd ≡ partial_of fp)}
          (open_exclusive (partial_of fp) w).0 (open_exclusive (partial_of fp) w).1
          (λ fd e.
            let (_, new, named) = law.open_done (partial_of fp) w fd e in
            (law.open_same (partial_of fp) w, new, named))
          (λ _ _. law.open_same (partial_of fp) w))
        (λ fd v h. ends_ok (record {
          same = h.0;
          fresh = h.1;
          descriptor = (fd, refl, h.2);
          same_final = refl;
          same_partial = refl;
          same_overwrite = refl;
          not_committed = refl;
        }))

  -- What came before the creation changed the partial path at most.
  after :
      {fp : List ℕ} {ow : Bool} {w v : World}
      → SameBut P (partial_of fp) w v
      → {m : Result AtomicFile × World} → Ends (Opened fp ow v) (SameBut P (partial_of fp) v) m
      → Ends (Opened fp ow w) (SameBut P (partial_of fp) w) m
  after s m =
      Ends-weaken m
        (λ out u o. record {
          same = λ q h. o.same q h ∙ s q h;
          fresh = o.fresh;
          descriptor = o.descriptor;
          same_final = o.same_final;
          same_partial = o.same_partial;
          same_overwrite = o.same_overwrite;
          not_committed = o.not_committed;
        })
        (λ u o q h. o q h ∙ s q h)

  open_partial_lem :
      (final_path : List ℕ) (overwrite : Bool) (w : World)
      → Ends
          (Opened final_path overwrite w)
          (SameBut P (partial_of final_path) w)
          (open_partial P final_path overwrite w)
  unfolding open_partial
  open_partial_lem fp ow w =
      Ends-and_then (Ends-weaken (exists_lem (partial_of fp) w) (λ info v h. h.0) (λ v h q _. h q))
        (λ info v s. elim (Bool-cases (is_replaceable ow info)) [
          | inr f ↦ rw f (ends_throw (λ q _. s q))
          | inl t ↦ rw t (
              Ends-and_then
                (Ends-weaken (remove_stale_lem (partial_of fp) info v) (λ _ u h q k. h q k ∙ s q)
                  (λ u h q k. h q k ∙ s q))
                (λ _ u h. after h (create_partial_lem fp ow u)))
        ])

  -- The constructor of `AtomicFile` ends and changes no path but the partial one. When it
  -- returns, the partial file is new and empty, and the final path named nothing, or a regular
  -- file that the caller allows to be replaced.
  pub open_output-Opened :
      (final_path : List ℕ) (overwrite : Bool) (w : World)
      → Ends
          (λ out v.
            Opened final_path overwrite w out v
            × (is_replaceable overwrite (node w final_path) ≡ true))
          (SameBut P (partial_of final_path) w)
          (open_output P final_path overwrite w)
  unfolding open_output
  open_output-Opened fp ow w =
      Ends-and_then {Q = λ info v. Same P w v × (node w fp ≡ info)}
        (Ends-weaken (exists_lem fp w) (λ info v h. h) (λ v h q _. h q))
        (λ info v h. elim (Bool-cases (is_replaceable ow info)) [
          | inr f ↦ rw f (ends_throw (λ q _. h.0 q))
          | inl t ↦ rw t (
              Ends-weaken (after (λ q _. h.0 q) (open_partial_lem fp ow v))
                (λ out u o. (o, rw h.1 t)) (λ u o. o))
        ])
