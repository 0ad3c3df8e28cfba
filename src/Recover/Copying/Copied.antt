-- ===== src/Recover/Copying/Copied.antt =====
-- The loops that copy a file's data: they end, change no other file, and write the described bytes.
use native.Mathlib.Nat.{div-mul-le_self}
use just_give_my_disk.Common.{
  ℕ, zero, suc, ◌+◌, ◌-◌, ◌*◌, ◌/◌, ◌%◌, ◌^◌, ◌≤◌, ◌<◌, ◌≡◌, ◌⊎◌, refl, sym, ap, ◌∙◌, subst, min,
  true, false, not, ◌&&◌, Option, none, some, List, [], ◌++◌, append_assoc, append-nil, length,
  length-append, replicate, ltb, ltb→lt, ◌==◌, arith, Bool-cases, inl, inr,
}
use just_give_my_disk.Common.Bytes.{slice}
use just_give_my_disk.Output.Posix.{Posix, IsPosix, SameBut, regular}
use just_give_my_disk.Output.Result.{
  Result, ok, throw, and_then, Ends, ends_ok, Ends-weaken, Ends-and_then,
}
use just_give_my_disk.Output.AtomicFile.{AtomicFile, write_output}
use just_give_my_disk.Output.AtomicFile.Writing.{Grown, write_output-Grown}
use just_give_my_disk.Recover.Reading.{checked_mul, uint64_max}
use just_give_my_disk.Recover.Reading.Exact.{Kept, IsRead, read_exact_at-IsRead}
use just_give_my_disk.Recover.Copying.{chunk_size, zeros_loop, write_zeros, copy_chunks, copy_hole}
use just_give_my_disk.Recover.Copying.Content.{replicate-append, slice-append}

pub not_pos : (n : ℕ) → ltb 0 n ≡ false → n ≡ 0
not_pos n e = ground arith

product_fits : (a b : ℕ) → (not (b == 0) && ltb (uint64_max / b) a) ≡ false → a * b < 2 ^ 64
product_fits a b e = grind (arith, div-mul-le_self uint64_max b)

-- `checked_mul` throws, or it returns the product, which fits.
pub checked_mul_cases :
    (a b : ℕ) → (checked_mul a b ≡ throw) ⊎ ((checked_mul a b ≡ ok (a * b)) × (a * b < 2 ^ 64))
unfolding checked_mul
checked_mul_cases a b = elim (Bool-cases (not (b == 0) && ltb (uint64_max / b) a)) [
  | inl e ↦ inl (rw e refl)
  | inr e ↦
      let fits : a * b < 2 ^ 64 = product_fits a b e in
      inr (rw e (ap ok (omega (arith, fits))), fits)
]

module _ (P : Posix) (law : IsPosix P) (fd : ℕ) (out : AtomicFile) (p : List ℕ) (target : ℕ)
    (has : out.fd ≡ some target) where
  open P use {World, node, file, image}

  abbrev pub G : World → List ℕ → World → Type 0
  G = Grown P law p target

  -- The output's descriptor names the file, which holds the content.
  abbrev pub Holds : List ℕ → World → Type 0
  Holds content w = (file w target ≡ p) × (node w p ≡ some (regular content))

  -- Behind what the file holds come the bytes; or the copy returned false.
  abbrev pub Copies : World → List ℕ → ℕ → Option ℕ → World → Type 0
  Copies w content left none v = SameBut P p w v
  Copies w content left (some remaining) v = (remaining ≡ left) × G w content v

  pub write_lem :
      (bytes content : List ℕ) (w : World)
      → Holds content w
      → Ends (λ _ v. G w (content ++ bytes) v) (SameBut P p w) (write_output P out bytes w)
  write_lem bytes content w h = write_output-Grown P law p target out bytes content w has h.0 h.1

  -- What follows a step that changed nothing but the file.
  pub behind :
      {A : Type 0} {Q R : A → World → Type 0} {m : Result A × World} {w v : World}
      → SameBut P p w v
      → Ends Q (SameBut P p v) m
      → ((a : A) (u : World) → Q a u → R a u)
      → Ends R (SameBut P p w) m
  behind same m k = Ends-weaken m k (λ u s q h. s q h ∙ same q h)

  pub regrown : {w v u : World} {a b : List ℕ} → a ≡ b → SameBut P p w v → G v a u → G w b u
  regrown {w} {u = u} e same g =
      subst (λ t. G w t u) e
        (record { named = g.named; holds = g.holds; same = λ q h. g.same q h ∙ same q h })

  -- Nothing is added.
  pub rests :
      (content extra : List ℕ) (w : World) → Holds content w → extra ≡ [] → G w (content ++ extra) w
  rests content extra w h e = record {
    named = h.0;
    holds =
        h.1
        ∙ ap (λ t. some (regular t)) (sym (append-nil content) ∙ ap (λ t. content ++ t) (sym e));
    same = λ q k. refl;
  }

  zeros_loop_lem :
      (fuel size : ℕ) (content : List ℕ) (w : World)
      → size < fuel
      → Holds content w
      → Ends
          (λ b v. (b ≡ true) × G w (content ++ replicate size 0) v)
          (SameBut P p w)
          (zeros_loop P fuel out size w)
  unfolding zeros_loop
  zeros_loop_lem zero size content w hf h = elim hf [ ]
  zeros_loop_lem (suc fuel) size content w hf h = elim (Bool-cases (ltb 0 size)) [
    | inr e ↦ rw e (
        ends_ok (
          refl,
          rests content (replicate size 0) w h (ap (λ (n : ℕ). replicate n 0) (not_pos size e)),
        ))
    | inl e ↦ rw e (
        Ends-and_then (write_lem (replicate (min size chunk_size) 0) content w h) (λ _ v g.
          behind g.same
            (zeros_loop_lem fuel (size - min size chunk_size)
              (content ++ replicate (min size chunk_size) 0) v (omega (arith, ltb→lt 0 size e))
              (g.named, g.holds))
            (λ b u r. (
              r.0,
              regrown
                  (append_assoc content (replicate (min size chunk_size) 0)
                      (replicate (size - min size chunk_size) 0)
                    ∙ ap (λ t. content ++ t)
                        (replicate-append (min size chunk_size) (size - min size chunk_size) size 0
                          (omega arith)))
                  g.same r.1,
            ))))
  ]

  pub copy_hole_lem :
      (to_copy remaining : ℕ) (content : List ℕ) (w : World)
      → Holds content w
      → Ends
          (Copies w (content ++ replicate to_copy 0) (remaining - to_copy))
          (SameBut P p w)
          (copy_hole P out to_copy remaining w)
  unfolding copy_hole write_zeros
  copy_hole_lem to_copy remaining content w h =
      Ends-and_then (zeros_loop_lem (to_copy + 1) to_copy content w (omega arith) h)
        (λ b v r. rw (r.0) (ends_ok (refl, r.1)))

  Holds-Kept : {content : List ℕ} {w v : World} → Kept P w v → Holds content w → Holds content v
  Holds-Kept k h = (k.1 target ∙ h.0, k.0 p ∙ h.1)

  -- The bytes of the chunks, and their number.
  abbrev pub Chunks : ℕ → ℕ → World → List ℕ → ℕ → Option ℕ → World → Type 0
  Chunks offset to_copy w content left r v =
      Copies w (content ++ slice (image fd) offset to_copy) left r v
      × ((n : ℕ) → r ≡ some n → length (slice (image fd) offset to_copy) ≡ to_copy)

  -- The bytes of a chunk and of those behind it.
  joined_lem :
      (offset m to_copy : ℕ) (content bytes : List ℕ) (w u : World) (left : ℕ)
      → m ≤ to_copy
      → bytes ≡ slice (image fd) offset m
      → length bytes ≡ m
      → SameBut P p w u
      → (r : Option ℕ) (z : World) → Chunks (offset + m) (to_copy - m) u (content ++ bytes) left r z
      → Chunks offset to_copy w content left r z
  joined_lem offset m to_copy content bytes w u left hm e len same none z k =
      (λ q h. k.0 q h ∙ same q h, λ n f. absurd (cc f))
  joined_lem offset m to_copy content bytes w u left hm e len same (some n) z k =
      ((k.0.0, regrown all same k.0.1), λ _ _. count)
    where
      split :
          slice (image fd) offset m ++ slice (image fd) (offset + m) (to_copy - m)
          ≡ slice (image fd) offset to_copy
      split = slice-append (image fd) offset m (to_copy - m) to_copy (omega arith)

      all :
          (content ++ bytes) ++ slice (image fd) (offset + m) (to_copy - m)
          ≡ content ++ slice (image fd) offset to_copy
      all =
          append_assoc content bytes (slice (image fd) (offset + m) (to_copy - m))
          ∙ ap (λ t. content ++ t)
              (ap (λ t. t ++ slice (image fd) (offset + m) (to_copy - m)) e ∙ split)

      count : length (slice (image fd) offset to_copy) ≡ to_copy
      count =
          sym (ap length split)
          ∙ length-append (slice (image fd) offset m) (slice (image fd) (offset + m) (to_copy - m))
          ∙ sum (sym (ap length e) ∙ len) (k.1 n refl)
        where
          sum : {a b : ℕ} → a ≡ m → b ≡ to_copy - m → a + b ≡ to_copy
          sum h g = omega arith

  -- A chunk that was read is written, and the next ones follow.
  chunk_lem :
      (fuel offset to_copy remaining : ℕ) (content : List ℕ) (w v : World) (bytes : List ℕ)
      → Holds content w
      → 0 < to_copy
      → offset < 2 ^ 64
      → Kept P w v
      → IsRead P law fd (min to_copy chunk_size) offset (omega arith) (some bytes)
      → ((u : World) (c : List ℕ)
          → offset + min to_copy chunk_size < 2 ^ 64
          → Holds c u
          → Ends
              (Chunks
                (offset + min to_copy chunk_size)
                (to_copy - min to_copy chunk_size)
                u
                c
                (remaining - to_copy))
              (SameBut P p u)
              (copy_chunks P fuel fd out
                (offset + min to_copy chunk_size)
                (to_copy - min to_copy chunk_size)
                (remaining - min to_copy chunk_size)
                u))
      → Ends (Chunks offset to_copy w content (remaining - to_copy)) (SameBut P p w) (
          and_then (write_output P out bytes v) (λ _ u.
            copy_chunks P fuel fd out
              ((offset + min to_copy chunk_size) % 2 ^ 64)
              (to_copy - min to_copy chunk_size)
              (remaining - min to_copy chunk_size)
              u))
  chunk_lem fuel offset to_copy remaining content w v bytes h pos ho kept read next =
      subst
        (λ o. Ends (Chunks offset to_copy w content (remaining - to_copy)) (SameBut P p w) (
          and_then (write_output P out bytes v) (λ _ u.
            copy_chunks P fuel fd out o (to_copy - min to_copy chunk_size)
              (remaining - min to_copy chunk_size) u)))
        (no_wrap (read.2 (omega arith)))
        (Ends-and_then
          (behind (λ q _. kept.0 q) (write_lem bytes content v (Holds-Kept kept h)) (λ _ u g. g))
          (λ _ u g.
            let same : SameBut P p w u = λ q k. g.same q k ∙ kept.0 q in
            behind same
              (next u (content ++ bytes) (omega (arith, read.2 (omega arith))) (g.named, g.holds))
              (λ r z k.
                joined_lem offset (min to_copy chunk_size) to_copy content bytes w u
                  (remaining - to_copy) (omega arith) read.0 read.1 same r z k)))
    where
      no_wrap :
          offset < 2 ^ 63
          → offset + min to_copy chunk_size ≡ (offset + min to_copy chunk_size) % 2 ^ 64
      no_wrap low = omega arith

  pub copy_chunks_lem :
      (fuel offset to_copy remaining : ℕ) (content : List ℕ) (w : World)
      → to_copy < fuel
      → offset < 2 ^ 64
      → Holds content w
      → Ends
          (Chunks offset to_copy w content (remaining - to_copy))
          (SameBut P p w)
          (copy_chunks P fuel fd out offset to_copy remaining w)
  unfolding copy_chunks
  copy_chunks_lem zero offset to_copy remaining content w hf ho h = elim hf [ ]
  copy_chunks_lem (suc fuel) offset to_copy remaining content w hf ho h =
      elim (Bool-cases (ltb 0 to_copy)) [
        | inr e ↦
            let z : to_copy ≡ 0 = not_pos to_copy e in
            rw e (
              ends_ok (
                (
                  omega arith,
                  rests content (slice (image fd) offset to_copy) w h
                      (ap (λ (n : ℕ). slice (image fd) offset n) z),
                ),
                λ n _. ap (λ (n : ℕ). length (slice (image fd) offset n)) z ∙ sym z,
              ))
        | inl e ↦ rw e (
            Ends-and_then
              (Ends-weaken
                (read_exact_at-IsRead P law fd (min to_copy chunk_size) offset (omega arith) w ho)
                (λ r v k. k) (λ v k. absurd k))
              (elim [
                | none ↦ λ v k. ends_ok ((λ q _. k.0.0 q), (λ n f. absurd (cc f)))
                | some bytes ↦ λ v k.
                    chunk_lem fuel offset to_copy remaining content w v bytes h (ltb→lt 0 to_copy e)
                      ho k.0 k.1
                      (λ u c fits g.
                        subst
                          (λ n.
                            Ends
                              (Chunks (offset + min to_copy chunk_size)
                                (to_copy - min to_copy chunk_size) u c n)
                              (SameBut P p u)
                              (copy_chunks P fuel fd out (offset + min to_copy chunk_size)
                                (to_copy - min to_copy chunk_size)
                                (remaining - min to_copy chunk_size) u))
                          (less (min to_copy chunk_size) (omega arith))
                          (copy_chunks_lem fuel (offset + min to_copy chunk_size)
                            (to_copy - min to_copy chunk_size) (remaining - min to_copy chunk_size)
                            c u (omega (arith, ltb→lt 0 to_copy e)) fits g))
              ]))
      ]
    where
      less : (m : ℕ) → m ≤ to_copy → (remaining - m) - (to_copy - m) ≡ remaining - to_copy
      less m h = omega arith
