-- ===== src/Recover/Locating/Found.antt =====
-- The records that `locate_records` returns.
use just_give_my_disk.Common.{
  ℕ, zero, suc, ◌+◌, ◌*◌, ◌/◌, ◌%◌, ◌^◌, ◌≤◌, ◌<◌, ◌≡◌, refl, Bool, true, false, Option, none, some,
  List, [], ◌∷◌, All, All-drop, All-take, length, length-take, length-drop, ltb, arith, Bool-cases,
  inl, inr, got, Returns, returned, Returns-bind, Returns-value, ap, sym, subst, drop,
}
use just_give_my_disk.Common.Bytes.{IsByte, slice}
use just_give_my_disk.Mft.{record_size}
use just_give_my_disk.Mft.Read.{has_signature}
use just_give_my_disk.Mft.Read.Field.{read_le-eq-field}
use just_give_my_disk.Mft.Names.{record_number, read_number}
use just_give_my_disk.Mft.Usa.Record.{has_signature-Returns, restored_record-IsRecord}
use just_give_my_disk.Output.Posix.{Posix, IsPosix}
use just_give_my_disk.Output.Result.{
  Result, ok, and_then, Ends, ends_ok, Ends-weaken, Ends-and_then,
}
use just_give_my_disk.Recover.Reading.{read_exact_at}
use just_give_my_disk.Recover.Reading.Exact.{
  Kept, Kept-refl, Kept-trans, IsRead, read_exact_at-IsRead,
}
use just_give_my_disk.Recover.Tree.{contains_id}
use just_give_my_disk.Recover.Locating.{
  Located, has_number, keep_record, locate_record, located_more, locate_loop, locate_records,
}

record_number-Returns :
    (bytes : List ℕ) → All IsByte bytes → Returns (λ _. Unit {0}) (record_number bytes)
unfolding record_number read_number
record_number-Returns bytes hb = Returns-bind (restored_record-IsRecord bytes hb) (elim [
  | none ↦ λ _. returned tt
  | some restored ↦
      λ r. rw (read_le-eq-field 4 restored 0x2C r.all_bytes (omega arith)) (returned tt)
])

-- No record number has two entries.
abbrev pub IsMap : Located → Type 0
IsMap [] = Unit {0}
IsMap (entry ∷ found) = (has_number found entry.0 ≡ false) × IsMap found

-- The bytes are a wanted record's, and stand on the source.
pub record IsFound (image wanted : List ℕ) (entry : ℕ × List ℕ) : Type 0 where
  pub is_wanted : contains_id wanted entry.0 ≡ true
  pub offset : ℕ
  pub on_source : entry.1 ≡ slice image offset record_size
  pub size : length entry.1 ≡ record_size
  pub signature : has_signature entry.1 ≡ got true
  pub number : record_number entry.1 ≡ got (some entry.0)

abbrev pub AreFound : List ℕ → List ℕ → Located → Type 0
AreFound image wanted found = All (IsFound image wanted) found × IsMap found

keep_record-AreFound :
    (image wanted buffer : List ℕ) (found : Located) (offset : ℕ) (number : Option ℕ)
    → buffer ≡ slice image offset record_size
    → length buffer ≡ record_size
    → has_signature buffer ≡ got true
    → record_number buffer ≡ got number
    → AreFound image wanted found
    → AreFound image wanted (keep_record wanted found buffer number)
keep_record-AreFound image wanted buffer found offset none b l s r h = h
keep_record-AreFound image wanted buffer found offset (some number) b l s r h =
    elim (Bool-cases (contains_id wanted number)) [
      | inr f ↦ rw f h
      | inl t ↦ elim (Bool-cases (has_number found number)) [
        | inl u ↦ rw (t, u) h
        | inr g ↦
            rw (t, g)
              (
                (
                  record {
                    is_wanted = t;
                    offset = offset;
                    on_source = b;
                    size = l;
                    signature = s;
                    number = r;
                  },
                  h.0,
                ),
                (g, h.1),
              )
      ]
    ]

locate_record-AreFound :
    (image wanted buffer : List ℕ) (found : Located) (offset : ℕ)
    → All IsByte buffer
    → buffer ≡ slice image offset record_size
    → length buffer ≡ record_size
    → AreFound image wanted found
    → (more : Located) × (locate_record wanted found buffer ≡ ok more) × AreFound image wanted more
unfolding locate_record
locate_record-AreFound image wanted buffer found offset hb b l h =
    let (signature, e, _) = Returns-value (has_signature-Returns buffer (omega (arith, l))) in
    let (number, f, _) = Returns-value (record_number-Returns buffer hb) in go signature number e f
  where
    go :
        (signature : Bool) (number : Option ℕ)
        → has_signature buffer ≡ got signature
        → record_number buffer ≡ got number
        → (more : Located) × (locate_record wanted found buffer ≡ ok more)
          × AreFound image wanted more
    go true number e f = (
      keep_record wanted found buffer number,
      rw (e, f) refl,
      keep_record-AreFound image wanted buffer found offset number b l e f h,
    )
    go false number e f = (found, rw e refl, h)

module _ (P : Posix) (law : IsPosix P) (fd : ℕ) (wanted : List ℕ) (bytes : All IsByte (P.image fd))
    (fits : length (P.image fd) < 2 ^ 63) where
  open P use {World, image}

  -- Nothing is changed, and what was found is right.
  abbrev pub Locates : World → Result Located × World → Type 0
  Locates w = Ends (λ found v. Kept P w v × AreFound (image fd) wanted found) (λ _. ⊥)

  slice-fits :
      (buffer : List ℕ) (offset : ℕ)
      → buffer ≡ slice (image fd) offset record_size
      → length buffer ≡ record_size
      → offset + record_size ≤ length (image fd)
  slice-fits buffer offset b l = omega (
    arith,
    ap length b,
    l,
    length-take record_size (drop offset (image fd)),
    length-drop offset (image fd),
  )

  locate_loop-Locates :
      (fuel offset : ℕ) (found : Located) (w : World)
      → length (image fd) < offset + record_size * fuel
      → offset ≤ length (image fd)
      → AreFound (image fd) wanted found
      → Locates w (locate_loop P fuel fd wanted offset found w)
  unfolding locate_loop
  locate_loop-Locates zero offset found w hf ho h = absurd (omega arith)
  locate_loop-Locates (suc fuel) offset found w hf ho h =
      go (ltb (length found) (length wanted)) (λ found' u a le.
        let next : (offset + record_size) % 2 ^ 64 ≡ offset + record_size =
          omega (arith, le, fits) in
        subst (λ o. Locates u (locate_loop P fuel fd wanted o found' u)) (sym next)
          (locate_loop-Locates fuel (offset + record_size) found' u (omega (arith, hf)) le a))
    where
      Again : Type 0
      Again =
          (found' : Located) (u : World)
          → AreFound (image fd) wanted found'
          → offset + record_size ≤ length (image fd)
          → Locates u (locate_loop P fuel fd wanted ((offset + record_size) % 2 ^ 64) found' u)

      rest : Located → World → Result Located × World
      rest = locate_loop P fuel fd wanted ((offset + record_size) % 2 ^ 64)

      more :
          Again
          → (r : Option (List ℕ)) (v : World) → Kept P w v
          → IsRead P law fd record_size offset (omega arith) r
          → Locates w (located_more P rest wanted found r v)
      more again none v k i = ends_ok (k, h)
      more again (some buffer) v k i =
          let (found', e, a) =
            locate_record-AreFound (image fd) wanted buffer found offset
              (subst (All IsByte) (sym i.0)
                (All-take IsByte record_size _ (All-drop IsByte offset _ bytes)))
              i.0 i.1 h in
          rw e (
            Ends-weaken (again found' v a (slice-fits buffer offset i.0 i.1))
              (λ m u x. (Kept-trans P k x.0, x.1)) (λ u x. x))

      go :
          (b : Bool)
          → Again
          → Locates w (elim b [
            | false ↦ (ok found, w)
            | true ↦
                and_then
                  (read_exact_at P fd record_size offset w)
                  (located_more P rest wanted found)
          ])
      go false again = ends_ok (Kept-refl P w, h)
      go true again =
          Ends-and_then
            (Ends-weaken
              (read_exact_at-IsRead P law fd record_size offset (omega arith) w
                (omega (arith, ho, fits)))
              (λ r v i. i) (λ v e. e))
            (λ r v i. more again r v i.0 i.1)

  -- On a source of bytes, shorter than 2 ^ 63, the search ends without an exception and changes no file. Every record that it returns has a
  -- wanted number, at most one for each, and is a block of the source with the signature, from which
  -- `record_number` reads that number.
  pub locate_records-AreFound :
      (w : World)
      → Ends
          (λ found v. Kept P w v × AreFound (image fd) wanted found)
          (λ _. ⊥)
          (locate_records P fd wanted w)
  unfolding locate_records
  locate_records-AreFound w = go wanted refl
    where
      go : (numbers : List ℕ) → wanted ≡ numbers → Locates w (locate_records P fd numbers w)
      go [] e = ends_ok (Kept-refl P w, (tt, tt))
      go (number ∷ numbers) e =
          subst (λ ns. Locates w (locate_loop P (length (image fd) / record_size + 1) fd ns 0 [] w))
            e
            (locate_loop-Locates (length (image fd) / record_size + 1) 0 [] w (omega arith)
              (omega arith) (tt, tt))
