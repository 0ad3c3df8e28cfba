-- ===== src/Output/AtomicFile/Writing.antt =====
-- `AtomicFile::write`: the loop ends, and when it returns the file has all the bytes.
use just_give_my_disk.Common.{
  ℕ, zero, suc, ◌+◌, ◌≤◌, ◌<◌, ◌==◌, ◌≡◌, refl, sym, subst, ◌∙◌, false, some, List, ◌++◌,
  append_assoc, append-nil, length, length-drop, take, drop, take-append-take, take_all, ltb, arith,
  ap, Bool-cases, inl, inr,
}
use just_give_my_disk.Output.Posix.{
  Posix, IsPosix, Same, SameBut, regular, Errno, eintr, Call, success, failure,
}
use just_give_my_disk.Output.Result.{Ends, ends_ok, ends_throw, Ends-weaken, Result}
use just_give_my_disk.Output.AtomicFile.{AtomicFile, wrote, write_loop, write_output}

module _ (P : Posix) (law : IsPosix P) (p : List ℕ) (fd : ℕ) where
  open P use {World, node, file, interrupts, write}

  -- The descriptor's file is `p`, and it has the content; only `p` has changed.
  pub record Grown (w : World) (content : List ℕ) (v : World) : Type 0 where
    pub named : file v fd ≡ p
    pub holds : node v p ≡ some (regular content)
    pub same : SameBut P p w v

  pub Grown-trans : {w v u : World} {c d : List ℕ} → Grown w c v → Grown v d u → Grown w d u
  Grown-trans g h = record {
    named = h.named;
    holds = h.holds;
    same = λ q k. h.same q k ∙ g.same q k;
  }

  -- One call of `::write`.
  wrote_lem :
      (again : ℕ → World → Result (Unit {0}) × World) (bytes content : List ℕ) (written : ℕ)
      (w : World) (c : Call ℕ) (v : World)
      → SameBut P p w v
      → file v fd ≡ p
      → ((n : ℕ)
          → c ≡ success n
          → (n ≤ length (drop written bytes))
            × (node v p
                ≡ some (regular ((content ++ take written bytes) ++ take n (drop written bytes)))))
      → ((e : Errno) → c ≡ failure e → Same P w v)
      → node w p ≡ some (regular (content ++ take written bytes))
      → ((n : ℕ)
          → c ≡ success n
          → n ≤ length (drop written bytes)
          → 0 < n
          → Grown w (content ++ take (written + n) bytes) v
          → Ends (λ _ u. Grown v (content ++ bytes) u) (SameBut P p v) (again (written + n) v))
      → (c ≡ failure eintr
          → Grown w (content ++ take written bytes) v
          → Ends (λ _ u. Grown v (content ++ bytes) u) (SameBut P p v) (again written v))
      → Ends (λ _ u. Grown w (content ++ bytes) u) (SameBut P p w) (wrote again written (c, v))
  wrote_lem again bytes content written w (success n) v same named done failed start go retry =
      let grown : Grown w (content ++ take (written + n) bytes) v = record {
        named = named;
        holds = (done n refl).1 ∙ ap (λ t. some (regular t)) (more n);
        same = same;
      } in
      elim (Bool-cases (n == 0)) [
        | inl t ↦ rw t (ends_throw same)
        | inr f ↦ rw f (
            Ends-weaken (go n refl (done n refl).0 (positive n f) grown)
              (λ _ u h. Grown-trans grown h) (λ u h q k. h q k ∙ same q k))
      ]
    where
      positive : (n : ℕ) → (n == 0) ≡ false → 0 < n
      positive n e = ground arith

      more :
          (n : ℕ)
          → (content ++ take written bytes) ++ take n (drop written bytes)
            ≡ content ++ take (written + n) bytes
      more n =
          append_assoc content (take written bytes) (take n (drop written bytes))
          ∙ ap (λ t. content ++ t) (take-append-take written n bytes)
  wrote_lem again bytes content written w (failure eintr) v same named done failed start go retry =
      let grown : Grown w (content ++ take written bytes) v = record {
        named = named;
        holds = failed eintr refl p ∙ start;
        same = same;
      } in
      Ends-weaken (retry refl grown) (λ _ u h. Grown-trans grown h) (λ u h q k. h q k ∙ same q k)
  wrote_lem again bytes content written w (failure e) v same named done failed start go retry =
      ends_throw same

  write_loop_lem :
      (fuel : ℕ) (bytes content : List ℕ) (written : ℕ) (w : World)
      → length bytes + interrupts w < fuel + written
      → written ≤ length bytes
      → file w fd ≡ p
      → node w p ≡ some (regular (content ++ take written bytes))
      → Ends
          (λ _ u. Grown w (content ++ bytes) u)
          (SameBut P p w)
          (write_loop P fuel fd bytes written w)
  unfolding write_loop
  write_loop_lem zero bytes content written w hf hw named start = absurd (omega arith)
  write_loop_lem (suc fuel) bytes content written w hf hw named start =
      elim (Bool-cases (ltb written (length bytes))) [
        | inr f ↦ rw f (
            ends_ok (record {
              named = named;
              holds =
                  start
                  ∙ ap (λ t. some (regular (content ++ t)))
                      (take_all written bytes (lt_false written f));
              same = λ q k. refl;
            }))
        | inl t ↦ rw t (
            wrote_lem (write_loop P fuel fd bytes) bytes content written w
              (write fd (drop written bytes) w).0 (write fd (drop written bytes) w).1
              (subst (λ q. SameBut P q w (write fd (drop written bytes) w).1) named
                (law.write_same fd (drop written bytes) w))
              (law.write_file fd (drop written bytes) w ∙ named)
              (λ n e.
                let d =
                  law.write_done fd (drop written bytes) w n (content ++ take written bytes) e
                    (ap (node w) named ∙ start) in
                (d.0, ap (node (write fd (drop written bytes) w).1) (sym named) ∙ d.1))
              (law.write_failed fd (drop written bytes) w) start
              (λ n e fits pos g.
                write_loop_lem fuel bytes content (written + n) (write fd (drop written bytes) w).1
                  (omega (arith, law.write_interrupts fd (drop written bytes) w))
                  (omega (arith, length-drop written bytes)) g.named g.holds)
              (λ e g.
                write_loop_lem fuel bytes content written (write fd (drop written bytes) w).1
                  (omega (arith, law.write_interrupted fd (drop written bytes) w e)) hw g.named
                  g.holds))
      ]
    where
      lt_false : (n : ℕ) {m : ℕ} → ltb n m ≡ false → m ≤ n
      lt_false n {m = m} e = ground arith

  -- A call of `AtomicFile::write` on an open output ends and changes no other file; when it
  -- returns, all bytes of the call are in the file, behind what it held, whatever writes were
  -- interrupted or short.
  pub write_output-Grown :
      (out : AtomicFile) (bytes content : List ℕ) (w : World)
      → out.fd ≡ some fd
      → file w fd ≡ p
      → node w p ≡ some (regular content)
      → Ends (λ _ u. Grown w (content ++ bytes) u) (SameBut P p w) (write_output P out bytes w)
  unfolding write_output
  write_output-Grown out bytes content w has named start = rw has (
      write_loop_lem (length bytes + interrupts w + 1) bytes content 0 w (omega arith) (omega arith)
        named (start ∙ ap (λ t. some (regular t)) (sym (append-nil content))))
