-- ===== src/Recover/Reading/Exact.antt =====
-- `read_exact_at` ends, changes nothing, and what it has read is the source's bytes at the offset.
use just_give_my_disk.Common.{
  ℕ, zero, suc, ◌+◌, ◌-◌, ◌%◌, ◌^◌, ◌≤◌, ◌<◌, ◌≡◌, refl, sym, ap, ◌∙◌, Option, List, [], ◌∷◌, ◌++◌,
  length, length-append, take, drop, drop-drop, take-append-take, ltb, arith, Bool-cases, inl, inr,
  OnSome, false,
}
use just_give_my_disk.Common.Bytes.{slice}
use just_give_my_disk.Output.Posix.{
  Posix, IsPosix, Same, enoent, enotdir, eintr, enosys, einval, errno, Call, success, failure,
}
use just_give_my_disk.Output.Result.{Result, Ends, ends_ok, Ends-weaken}
use just_give_my_disk.Recover.Reading.{read_more, read_loop, read_exact_at}

module _ (P : Posix) where
  open P use {World, file}

  -- Every file is as before, and every descriptor's file is the same.
  abbrev pub Kept : World → World → Type 0
  Kept w v = Same P w v × ((out : ℕ) → file v out ≡ file w out)

  pub Kept-refl : (w : World) → Kept w w
  Kept-refl w = (λ q. refl, λ out. refl)

  pub Kept-trans : {w v u : World} → Kept w v → Kept v u → Kept w u
  Kept-trans h k = (λ q. k.0 q ∙ h.0 q, λ out. k.1 out ∙ h.1 out)

lt_false : (n m : ℕ) → ltb n m ≡ false → m ≤ n
lt_false n m e = ground arith

module _ (P : Posix) (law : IsPosix P) (fd size offset : ℕ) (fits : size < 2 ^ 63) where
  open P use {World, interrupts, image, pread}

  -- The bytes that were asked for, if the call returns true.
  abbrev pub IsRead : Option (List ℕ) → Type 0
  IsRead = OnSome (λ bs.
      (bs ≡ slice (image fd) offset size) × (length bs ≡ size) × (0 < size → offset < 2 ^ 63))

  abbrev Reads : World → Result (Option (List ℕ)) × World → Type 0
  Reads w = Ends (λ r v. Kept P w v × IsRead r) (λ _. ⊥)

  Reads-trans :
      {w v : World} {m : Result (Option (List ℕ)) × World} → Kept P w v → Reads v m → Reads w m
  Reads-trans k m = Ends-weaken m (λ r u h. (Kept-trans P k h.0, h.1)) (λ u h. h)

  read_more_lem :
      (again : List ℕ → World → Result (Option (List ℕ)) × World) (filled : List ℕ) (w : World)
      (c : Call (List ℕ)) (v : World)
      → Kept P w v
      → ((b : ℕ) (bs : List ℕ) → c ≡ success (b ∷ bs) → Reads v (again (filled ++ (b ∷ bs)) v))
      → (c ≡ failure eintr → Reads v (again filled v))
      → Reads w (read_more again filled (c, v))
  read_more_lem again filled w (success []) v k more retry = ends_ok (k, tt)
  read_more_lem again filled w (success (b ∷ bs)) v k more retry = Reads-trans k (more b bs refl)
  read_more_lem again filled w (failure eintr) v k more retry = Reads-trans k (retry refl)
  read_more_lem again filled w (failure enoent) v k more retry = ends_ok (k, tt)
  read_more_lem again filled w (failure enotdir) v k more retry = ends_ok (k, tt)
  read_more_lem again filled w (failure enosys) v k more retry = ends_ok (k, tt)
  read_more_lem again filled w (failure einval) v k more retry = ends_ok (k, tt)
  read_more_lem again filled w (failure (errno n)) v k more retry = ends_ok (k, tt)

  -- What one call adds to the bytes that are there.
  filled-append :
      (filled bs : List ℕ)
      → filled ≡ take (length filled) (drop offset (image fd))
      → bs ≡ take (length bs) (drop (offset + length filled) (image fd))
      → filled ++ bs ≡ take (length (filled ++ bs)) (drop offset (image fd))
  filled-append filled bs h k =
      ap (λ t. t ++ bs) h
      ∙ ap (λ t. take (length filled) (drop offset (image fd)) ++ t)
          (k ∙ ap (λ t. take (length bs) t) (sym (drop-drop offset (length filled) (image fd))))
      ∙ take-append-take (length filled) (length bs) (drop offset (image fd))
      ∙ ap (λ n. take n (drop offset (image fd))) (sym (length-append filled bs))

  read_loop_lem :
      (fuel : ℕ) (filled : List ℕ) (w : World)
      → size + interrupts w < fuel + length filled
      → length filled ≤ size
      → offset + length filled < 2 ^ 64
      → (0 < length filled → offset < 2 ^ 63)
      → filled ≡ take (length filled) (drop offset (image fd))
      → Reads w (read_loop P fuel fd size offset filled w)
  unfolding read_loop
  read_loop_lem zero filled w hf hl ho hn h = absurd (omega arith)
  read_loop_lem (suc fuel) filled w hf hl ho hn h = elim (Bool-cases (ltb (length filled) size)) [
    | inr e ↦ rw e (
        ends_ok (
          Kept-refl P w,
          (
            h
                ∙ ap (λ n. take n (drop offset (image fd)))
                    (omega (arith, lt_false (length filled) size e)),
            omega (arith, lt_false (length filled) size e),
            λ pos. hn (omega (arith, lt_false (length filled) size e)),
          ),
        ))
    | inl e ↦ rw e (
        let at_ : ℕ = (offset + length filled) % 2 ^ 64 in
        let here : at_ ≡ offset + length filled = omega arith in
        read_more_lem (read_loop P fuel fd size offset) filled w
          (pread fd (size - length filled) at_ w).0 (pread fd (size - length filled) at_ w).1
          (
            law.pread_same fd (size - length filled) at_ w,
            λ out. law.pread_file fd (size - length filled) at_ out w,
          )
          (λ b bs got.
            let d = law.pread_done fd (size - length filled) at_ w (b ∷ bs) got in
            read_loop_lem fuel (filled ++ (b ∷ bs)) (pread fd (size - length filled) at_ w).1
              (omega (
                arith,
                length-append filled (b ∷ bs),
                law.pread_interrupts fd (size - length filled) at_ w,
              ))
              (omega (arith, length-append filled (b ∷ bs), d.1))
              (omega (arith, length-append filled (b ∷ bs), d.1, d.0, here))
              (λ _. omega (arith, d.0, here))
              (filled-append filled (b ∷ bs) h
                (d.2 ∙ ap (λ n. take (length (b ∷ bs)) (drop n (image fd))) here)))
          (λ i.
            read_loop_lem fuel filled (pread fd (size - length filled) at_ w).1
              (omega (arith, law.pread_interrupted fd (size - length filled) at_ w i)) hl ho hn h))
  ]

  -- `read_exact_at`, at a 64-bit offset and for fewer than 2 ^ 63 bytes, ends without an
  -- exception and changes no file. If it returns true, the buffer holds the bytes of the source
  -- from the offset on, all that were asked for, and if any were, the offset is one of `off_t`.
  pub read_exact_at-IsRead :
      (w : World) → offset < 2 ^ 64 → Reads w (read_exact_at P fd size offset w)
  unfolding read_exact_at
  read_exact_at-IsRead w ho =
      read_loop_lem (size + interrupts w + 1) [] w (omega arith) (omega arith) (omega arith)
        (λ h. elim h [ ]) refl
