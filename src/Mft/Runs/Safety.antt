-- ===== src/Mft/Runs/Safety.antt =====
-- `parse_data_runs` ends on every buffer, never reads past its end, and returns runs in range.
use mathlib.Core.Bool.{false≢true}
use native.Mathlib.Nat.{pow-le-pow_right}
use just_give_my_disk.Common.{
  ℕ, zero, suc, ◌+◌, ◌-◌, ◌*◌, ◌/◌, ◌^◌, ◌<◌, ◌≤◌, ◌≡◌, refl, bit_and, true, false, Option-cases,
  Option, none, some, List, [], ◌∷◌, ◌++◌, length, All, All-append, ltb, ◌==◌, ◌||◌, inl, inr,
  Bool-cases, arith, ltb→lt, at_in_bounds, OnSome, Returns, returned, Returns-bind,
}
use just_give_my_disk.Common.Bytes.{IsByte}
use just_give_my_disk.Common.Int.{ℤ, pos, negsuc, ltb_ℤ, ◌+ℤ◌, ◌-ℤ◌}
use just_give_my_disk.Mft.{DataRun}
use just_give_my_disk.Mft.Read.Field.{le_loop-eq}
use just_give_my_disk.Mft.Runs.{
  to_uint64, with_offset, next_run, read_run, runs_loop, parse_data_runs, sign_extend, checked_add,
}

-- A run whose numbers fit their fields, and whose cluster number is that of a non-negative int64.
pub record IsRun (run : DataRun) : Type 0 where
  pub lcn_fits : run.lcn < 2 ^ 63
  pub count_fits : run.cluster_count < 2 ^ 64
  pub sparse_lcn : run.sparse ≡ true → run.lcn ≡ 0

-- `current_lcn` is never negative.
abbrev pub IsLcn : ℤ → Type 0
IsLcn (pos n) = n < 2 ^ 63
IsLcn (negsuc n) = ⊥

checked_add-IsLcn :
    (l r s : ℤ) → IsLcn l → checked_add l r ≡ some s → ltb_ℤ s (pos 0) ≡ false → IsLcn s
unfolding checked_add ◌+ℤ◌ ◌-ℤ◌
checked_add-IsLcn (pos a) (pos b) (pos c) h e k = ground arith
checked_add-IsLcn (pos a) (negsuc b) (pos c) h e k = ground arith
checked_add-IsLcn (pos a) r (negsuc c) h e k = ground arith
checked_add-IsLcn (negsuc a) r s h e k = elim h [ ]

abbrev NextFits : DataRun × ℤ → Type 0
NextFits r = IsRun r.0 × IsLcn r.1

in_range-IsRun :
    (count : ℕ) (s : ℤ)
    → count < 2 ^ 64
    → IsLcn s
    → IsRun (record { lcn = to_uint64 s; cluster_count = count; sparse = false })
in_range-IsRun count (pos n) hc h = record {
  lcn_fits = h;
  count_fits = hc;
  sparse_lcn = λ e. absurd (false≢true e);
}
in_range-IsRun count (negsuc n) hc h = elim h [ ]

next_run-fits :
    (count delta offset_size : ℕ) (lcn : ℤ)
    → count < 2 ^ 64
    → IsLcn lcn
    → OnSome NextFits (next_run count delta offset_size lcn)
unfolding next_run
next_run-fits count delta os lcn hc hl = elim (Bool-cases (os == 0)) [
  | inl z ↦ rw z (record { lcn_fits = omega arith; count_fits = hc; sparse_lcn = λ _. refl }, hl)
  | inr nz ↦ elim (Option-cases (checked_add lcn (sign_extend delta os))) [
    | inr n ↦ rw (nz, n) tt
    | inl (s, e) ↦ elim (Bool-cases (ltb_ℤ s (pos 0))) [
      | inl t ↦ rw (nz, e, t) tt
      | inr f ↦
          let fits = checked_add-IsLcn lcn (sign_extend delta os) s hl e f in
          rw (nz, e, f) (in_range-IsRun count s hc fits, fits)
    ]
  ]
]

abbrev RunFits : ℕ → ℕ → DataRun × ℤ × ℕ → Type 0
RunFits offset end r = IsRun r.0 × IsLcn r.1 × (offset < r.2) × (r.2 ≤ end)

-- The guard of a run: the sizes and the end of its bytes.
run_guard :
    (ls os offset end : ℕ)
    → (ls == 0 || ltb 8 ls || ltb 8 os || ltb end (offset + ls + os)) ≡ false
    → (1 ≤ ls) × (ls ≤ 8) × (os ≤ 8) × (offset + ls + os ≤ end)
run_guard ls os offset end h = ground arith

moved :
    (offset next end : ℕ) (o : Option (DataRun × ℤ))
    → offset < next
    → next ≤ end
    → OnSome NextFits o
    → OnSome (RunFits offset end) (with_offset next o)
moved offset next end none h k f = tt
moved offset next end (some (run, lcn)) h k f = (f.0, f.1, h, k)

module _ (bytes : List ℕ) (end : ℕ) (hb : All IsByte bytes) (he : end ≤ length bytes) where
  read_run-fits :
      (offset : ℕ) (lcn : ℤ) (header : ℕ)
      → IsLcn lcn
      → Returns (OnSome (RunFits offset end)) (read_run bytes offset end lcn header)
  unfolding read_run
  read_run-fits offset lcn header hl =
      let ls = bit_and header 0x0F in
      let os = bit_and (header / 2 ^ 4) 0x0F in
      elim (Bool-cases (ls == 0 || ltb 8 ls || ltb 8 os || ltb end (offset + ls + os))) [
        | inl t ↦ rw t (returned tt)
        | inr f ↦
            let (l1, l8, o8, fits) = run_guard ls os offset end f in
            let (count, small) = le_loop-eq ls bytes offset hb (omega arith) l8 in
            let (delta, _) = le_loop-eq os bytes (offset + ls) hb (omega arith) o8 in
            let bound : 2 ^ (8 * ls) ≤ 2 ^ 64 =
              pow-le-pow_right {n = 2} (omega arith) {i = 8 * ls} {j = 64} (omega arith) in
            rw (f, count, delta)
              (returned (
                moved offset (offset + ls + os) end _ (omega arith) fits
                  (next_run-fits _ _ os lcn (omega arith) hl)))
      ]

  runs_loop-fits :
      (fuel offset : ℕ) (lcn : ℤ) (runs : List DataRun)
      → IsLcn lcn
      → All IsRun runs
      → end - offset < fuel
      → Returns (OnSome (All IsRun)) (runs_loop fuel bytes offset end lcn runs)
  unfolding runs_loop
  runs_loop-fits zero offset lcn runs hl hr hf = elim hf [ ]
  runs_loop-fits (suc fuel) offset lcn runs hl hr hf = elim (Bool-cases (ltb offset end)) [
    | inr f ↦ rw f (returned tt)
    | inl t ↦
        let (header, e) = at_in_bounds bytes offset (omega (arith, ltb→lt offset end t)) in
        elim (Bool-cases (header == 0)) [
          | inl z ↦ rw (t, e, z) (returned hr)
          | inr nz ↦
              rw (t, e, nz)
                (Returns-bind (read_run-fits (offset + 1) lcn header hl) (elim [
                  | none ↦ λ h. returned tt
                  | some (run, next_lcn, next) ↦ λ h.
                      runs_loop-fits fuel next next_lcn (runs ++ (run ∷ [])) h.1
                        (All-append IsRun runs (run ∷ []) hr (h.0, tt))
                        (omega (arith, ltb→lt offset end t))
                ]))
        ]
  ]

  -- On a buffer of bytes, with an end that lies in it, the parser of a run list returns without a fault
  -- from any offset, and every run that it returns is in range, a sparse one without a cluster number.
  pub parse_data_runs-IsRun :
      (offset : ℕ) → Returns (OnSome (All IsRun)) (parse_data_runs bytes offset end)
  unfolding parse_data_runs
  parse_data_runs-IsRun offset =
      runs_loop-fits (end + 1) offset (pos 0) [] (omega arith) tt (omega arith)
