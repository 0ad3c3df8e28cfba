-- ===== src/Recover/Copying/Runs.antt =====
-- The loop over the runs: when it returns true, the described bytes are in the file, all of them.
use just_give_my_disk.Common.{
  ℕ, ◌+◌, ◌-◌, ◌*◌, ◌≡◌, refl, sym, ap, ◌∙◌, subst, min, Bool, true, false, Option, none, some,
  List, [], ◌∷◌, ◌++◌, append_assoc, length, length-append, replicate, ◌==◌, ==_iff, if◌then◌else◌,
  arith, Bool-cases, inl, inr,
}
use just_give_my_disk.Common.Bytes.{slice}
use just_give_my_disk.Output.Posix.{Posix, IsPosix, SameBut}
use just_give_my_disk.Output.Result.{Ends, ends_ok, ends_throw, Ends-weaken, Ends-and_then}
use just_give_my_disk.Output.AtomicFile.{AtomicFile}
use just_give_my_disk.Mft.{DataRun}
use just_give_my_disk.Recover.Copying.{copy_hole, copy_run, copy_runs}
use just_give_my_disk.Recover.Copying.Content.{contents, contents-zero, length-replicate}
use just_give_my_disk.Recover.Copying.Copied.{
  checked_mul_cases, G, Holds, Copies, behind, regrown, rests, copy_hole_lem, copy_chunks_lem,
}

module _ (P : Posix) (law : IsPosix P) (fd cluster_size : ℕ) (out : AtomicFile) (p : List ℕ)
    (target : ℕ) (has : out.fd ≡ some target) where
  open P use {World, image}

  -- The bytes of a run, sparse or not, and their number.
  abbrev bytes_of : Bool → DataRun → ℕ → List ℕ
  bytes_of sparse run n =
      if sparse then replicate n 0 else slice (image fd) (run.lcn * cluster_size) n

  abbrev Ran : Bool → DataRun → ℕ → World → List ℕ → ℕ → Option ℕ → World → Type 0
  Ran sparse run n w content left r v =
      Copies P law fd out p target has w (content ++ bytes_of sparse run n) left r v
      × ((k : ℕ) → r ≡ some k → length (bytes_of sparse run n) ≡ n)

  one_run_lem :
      (sparse : Bool) (run : DataRun) (n remaining : ℕ) (content : List ℕ) (w : World)
      → Holds P law fd out p target has content w
      → Ends (Ran sparse run n w content (remaining - n)) (SameBut P p w) (
          if sparse
          then copy_hole P out n remaining w
          else copy_run P fd cluster_size out run n remaining w)
  unfolding copy_run
  one_run_lem true run n remaining content w h =
      Ends-weaken (copy_hole_lem P law fd out p target has n remaining content w h)
        (λ r v k. (k, λ _ _. length-replicate n 0)) (λ v s. s)
  one_run_lem false run n remaining content w h = elim (checked_mul_cases run.lcn cluster_size) [
    | inl e ↦ rw e (ends_throw (λ q _. refl))
    | inr (e, fits) ↦ rw e (
        copy_chunks_lem P law fd out p target has (n + 1) (run.lcn * cluster_size) n remaining
          content w (omega arith) fits h)
  ]

  -- The runs' bytes are all there, if the loop returned true.
  abbrev pub RunsCopied : List DataRun → ℕ → World → List ℕ → Bool → World → Type 0
  RunsCopied runs n w content done v =
      SameBut P p w v
      × (done ≡ true
          → G P law fd out p target has w (content ++ contents (image fd) cluster_size runs n) v
            × (length (contents (image fd) cluster_size runs n) ≡ n))

  nothing_left :
      (runs : List DataRun) (n : ℕ) (content : List ℕ) (w : World) (done : Bool)
      → Holds P law fd out p target has content w
      → (done ≡ true → n ≡ 0)
      → (n ≡ 0 → contents (image fd) cluster_size runs n ≡ [])
      → RunsCopied runs n w content done w
  nothing_left runs n content w done h z none_ = (
    λ q _. refl,
    λ e. (
      rests P law fd out p target has content (contents (image fd) cluster_size runs n) w h
          (none_ (z e)),
      ap length (none_ (z e)) ∙ sym (z e),
    ),
  )

  -- How much of `n` bytes a run gives.
  abbrev part : DataRun → ℕ → ℕ
  part run n = min n (run.cluster_count * cluster_size)

  -- What the run and the runs behind it have written.
  run_then_runs :
      (run : DataRun) (runs : List DataRun) (n : ℕ) (content : List ℕ) (w u : World) (done : Bool)
      (v : World)
      → length (bytes_of run.sparse run (part run n)) ≡ part run n
      → SameBut P p w u
      → RunsCopied runs (n - part run n) u (content ++ bytes_of run.sparse run (part run n)) done v
      → RunsCopied (run ∷ runs) n w content done v
  unfolding contents
  run_then_runs run runs n content w u done v len same k = (
    λ q h. k.0 q h ∙ same q h,
    λ f. (
      regrown P law fd out p target has
          (append_assoc content (bytes_of run.sparse run (part run n))
            (contents (image fd) cluster_size runs (n - part run n)))
          same (k.1 f).0,
      length-append (bytes_of run.sparse run (part run n))
            (contents (image fd) cluster_size runs (n - part run n))
          ∙ sum len (k.1 f).1,
    ),
  )
    where
      sum : {a b : ℕ} → a ≡ part run n → b ≡ n - part run n → a + b ≡ n
      sum h g = omega arith

  -- The loop over data runs ends and changes no file but the output; when it returns true, the
  -- output holds, behind what it held, the bytes of the source at the runs' clusters and zeros
  -- for the sparse ones, exactly as many as were asked for.
  pub copy_runs-RunsCopied :
      (runs : List DataRun) (n : ℕ) (content : List ℕ) (w : World)
      → Holds P law fd out p target has content w
      → Ends
          (RunsCopied runs n w content)
          (SameBut P p w)
          (copy_runs P fd runs cluster_size n out w)
  unfolding copy_runs
  copy_runs-RunsCopied [] n content w h = ends_ok (
      nothing_left [] n content w (n == 0) h (λ e. (==_iff n 0).0 e)
        (contents-zero (image fd) cluster_size [] n))
  copy_runs-RunsCopied (run ∷ runs) n content w h = elim (Bool-cases (n == 0)) [
    | inl e ↦ rw e (
        ends_ok (
          nothing_left (run ∷ runs) n content w true h (λ _. (==_iff n 0).0 e)
            (contents-zero (image fd) cluster_size (run ∷ runs) n)))
    | inr e ↦ rw e (elim (checked_mul_cases run.cluster_count cluster_size) [
      | inl t ↦ rw t (ends_throw (λ q _. refl))
      | inr (t, fits) ↦ rw t (
          Ends-and_then (one_run_lem run.sparse run (part run n) n content w h) (elim [
            | none ↦ λ v k. ends_ok (k.0, λ f. absurd (cc f))
            | some left ↦ λ v k.
                next run runs n content w left v k (
                  copy_runs-RunsCopied runs left (content ++ bytes_of run.sparse run (part run n))
                    v)
          ]))
    ])
  ]
    where
      next :
          (run : DataRun) (runs : List DataRun) (n : ℕ) (content : List ℕ) (w : World) (left : ℕ)
          (v : World)
          → Ran run.sparse run (part run n) w content (n - part run n) (some left) v
          → (Holds P law fd out p target has (content ++ bytes_of run.sparse run (part run n)) v
              → Ends
                  (RunsCopied runs left v (content ++ bytes_of run.sparse run (part run n)))
                  (SameBut P p v)
                  (copy_runs P fd runs cluster_size left out v))
          → Ends
              (RunsCopied (run ∷ runs) n w content)
              (SameBut P p w)
              (copy_runs P fd runs cluster_size left out v)
      next run runs n content w left v k rest =
          behind P law fd out p target has k.0.1.same (rest (k.0.1.named, k.0.1.holds)) (λ done u r.
            run_then_runs run runs n content w v done u (k.1 left refl) k.0.1.same (
              subst
                (λ l. RunsCopied runs l v (content ++ bytes_of run.sparse run (part run n)) done u)
                k.0.0 r))
