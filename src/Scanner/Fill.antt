-- ===== src/Scanner/Fill.antt =====
-- The filling of the buffer: a whole record, or what is left of the source.
use just_give_my_disk.Common.{
  ℕ, zero, suc, ◌+◌, ◌-◌, ◌≤◌, ◌<◌, ◌≡◌, refl, sym, ap, ◌∙◌, ◌⊎◌, inl, inr, true, false, List, [],
  ◌∷◌, ◌++◌, length, length-append, append_assoc, ltb, arith, Bool-cases,
}
use just_give_my_disk.Mft.{record_size}
use just_give_my_disk.Output.Posix.{
  enoent, enotdir, eintr, enosys, einval, errno, Call, success, failure,
}
use just_give_my_disk.Output.Result.{
  Result, or_throw, Ends, ends_ok, ends_throw, Ends-weaken, Ends-and_then, Ends-or_throw,
}
use just_give_my_disk.Scanner.{Device, IsDevice, Kept, read_failure, filled_more, fill_loop, fill}

pub lt_false : (n m : ℕ) → ltb n m ≡ false → m ≤ n
lt_false n m e = ground arith

pub lt_true : (n m : ℕ) → ltb n m ≡ true → n < m
lt_true n m e = ground arith

module _ (D : Device) (law : IsDevice D) where
  open D use {World, rest, interrupts, rows, committed, read, commit}

  pub Kept-trans : {w v u : World} → Kept D w v → Kept D v u → Kept D w u
  Kept-trans h k = (k.0 ∙ h.0, k.1 ∙ h.1)

  -- The buffer's bytes are the source's next ones, as many as it has.
  pub record IsFilled (filled : List ℕ) (w : World) (buffer : List ℕ) (v : World) : Type 0 where
    pub kept : Kept D w v
    pub taken : buffer ++ rest v ≡ filled ++ rest w
    pub fits : length buffer ≤ record_size
    pub at_end : length buffer < record_size → rest v ≡ []

  -- What was inserted has been committed, or nothing has.
  abbrev pub IsFlushed : World → World → Type 0
  IsFlushed w v = (committed v ≡ committed w) ⊎ (committed v ≡ rows w)

  abbrev Fills : List ℕ → World → Result (List ℕ) × World → Type 0
  Fills filled w = Ends (IsFilled filled w) (IsFlushed w)

  commit-IsFlushed :
      (w : World)
      → Ends (λ _ v. committed v ≡ rows w) (λ v. committed v ≡ committed w) (or_throw (commit w))
  commit-IsFlushed w =
      Ends-or_throw (commit w).0 (commit w).1 (λ a e. law.commit_done w e)
        (λ e h. law.commit_failed w e h)

  read_failure-Fills :
      (filled : List ℕ) (w v : World) → Kept D w v → Fills filled w (read_failure D v)
  read_failure-Fills filled w v k =
      Ends-and_then (Ends-weaken (commit-IsFlushed v) (λ _ u h. h) (λ u h. inl (h ∙ k.1)))
        (λ _ u h. ends_throw (inr (h ∙ k.0)))

  Fills-trans :
      {w v : World} {filled filled' : List ℕ} {m : Result (List ℕ) × World}
      → Kept D w v
      → filled' ++ rest v ≡ filled ++ rest w
      → Fills filled' v m
      → Fills filled w m
  Fills-trans k e m =
      Ends-weaken m
        (λ buffer u h. record {
          kept = Kept-trans k h.kept;
          taken = h.taken ∙ e;
          fits = h.fits;
          at_end = h.at_end;
        })
        (λ u h. elim h [ inl c ↦ inl (c ∙ k.1) | inr c ↦ inr (c ∙ k.0) ])

  filled_more_lem :
      (again : List ℕ → World → Result (List ℕ) × World) (filled : List ℕ) (w : World)
      (c : Call (List ℕ)) (v : World)
      → Kept D w v
      → length filled ≤ record_size
      → (c ≡ success [] → (rest v ≡ rest w) × (rest w ≡ []))
      → ((b : ℕ) (bs : List ℕ)
          → c ≡ success (b ∷ bs)
          → (rest w ≡ (b ∷ bs) ++ rest v)
            × Fills (filled ++ (b ∷ bs)) v (again (filled ++ (b ∷ bs)) v))
      → (c ≡ failure eintr → (rest v ≡ rest w) × Fills filled v (again filled v))
      → Fills filled w (filled_more D again filled (c, v))
  filled_more_lem again filled w (success []) v k l nothing more retry = ends_ok (record {
    kept = k;
    taken = ap (λ t. filled ++ t) (nothing refl).0;
    fits = l;
    at_end = λ _. (nothing refl).0 ∙ (nothing refl).1;
  })
  filled_more_lem again filled w (success (b ∷ bs)) v k l nothing more retry =
      let m = more b bs refl in
      Fills-trans k (append_assoc filled (b ∷ bs) (rest v) ∙ ap (λ t. filled ++ t) (sym m.0)) m.1
  filled_more_lem again filled w (failure eintr) v k l nothing more retry =
      let r = retry refl in Fills-trans k (ap (λ t. filled ++ t) r.0) r.1
  filled_more_lem again filled w (failure enoent) v k l nothing more retry =
      read_failure-Fills filled w v k
  filled_more_lem again filled w (failure enotdir) v k l nothing more retry =
      read_failure-Fills filled w v k
  filled_more_lem again filled w (failure enosys) v k l nothing more retry =
      read_failure-Fills filled w v k
  filled_more_lem again filled w (failure einval) v k l nothing more retry =
      read_failure-Fills filled w v k
  filled_more_lem again filled w (failure (errno n)) v k l nothing more retry =
      read_failure-Fills filled w v k

  fill_loop_lem :
      (fuel : ℕ) (filled : List ℕ) (w : World)
      → record_size + interrupts w < fuel + length filled
      → length filled ≤ record_size
      → Fills filled w (fill_loop D fuel filled w)
  unfolding fill_loop
  fill_loop_lem zero filled w hf hl = absurd (omega arith)
  fill_loop_lem (suc fuel) filled w hf hl = elim (Bool-cases (ltb (length filled) record_size)) [
    | inr e ↦ rw e (
        ends_ok (record {
          kept = (refl, refl);
          taken = refl;
          fits = hl;
          at_end = λ h. absurd (omega (arith, lt_false (length filled) record_size e));
        }))
    | inl e ↦
        let size : ℕ = record_size - length filled in
        let lt = lt_true (length filled) record_size e in
        rw e (
          filled_more_lem (fill_loop D fuel) filled w (read size w).0 (read size w).1
            (law.read_kept size w) hl
            (λ s. (sym (law.read_done size w [] s).1, law.read_end size w (omega arith) s))
            (λ b bs s.
              let d = law.read_done size w (b ∷ bs) s in
              (
                d.1,
                fill_loop_lem fuel (filled ++ (b ∷ bs)) (read size w).1
                    (omega (arith, length-append filled (b ∷ bs), law.read_interrupts size w))
                    (omega (arith, length-append filled (b ∷ bs), d.0)),
              ))
            (λ s. (
              law.read_failed size w eintr s,
              fill_loop_lem fuel filled (read size w).1
                  (omega (arith, law.read_interrupted size w s)) hl,
            )))
  ]

  -- The inner loop ends. The buffer holds the source's next bytes: those of a record, or all that are
  -- left; or it throws, and what was inserted is committed unless the commit fails.
  pub fill-IsFilled : (w : World) → Ends (IsFilled [] w) (IsFlushed w) (fill D w)
  unfolding fill
  fill-IsFilled w = fill_loop_lem (record_size + interrupts w + 1) [] w (omega arith) (omega arith)
