-- ===== src/Mft/Names/Parsed.antt =====
-- `parse` ends on every input without a fault, and what it returns is well formed.
use just_give_my_disk.Common.{
  ℕ, zero, suc, ◌+◌, ◌-◌, ◌*◌, ◌/◌, ◌^◌, ◌<◌, ◌≤◌, ◌≡◌, ◌≢◌, refl, Bool, true, false, not, Option,
  none, some, List, [], ◌∷◌, ◌++◌, drop, length, length-drop, All, All-drop, All-append, ltb, leb,
  ◌==◌, ==_iff, ◌||◌, ◌&&◌, inl, inr, Bool-cases, leb→le, if◌then◌else◌, arith, Access, got, OnSome,
  Returns, returned, Returns-bind,
}
use just_give_my_disk.Common.Bits.{bit_and_mask}
use just_give_my_disk.Common.Bytes.{IsByte}
use just_give_my_disk.Utf.Spec.{IsText, decode}
use just_give_my_disk.Utf.Valid.{utf16le_to_utf8-decodes}
use just_give_my_disk.Mft.{MftFileName, MftRecord, record_size}
use just_give_my_disk.Mft.Read.{base_file_ref}
use just_give_my_disk.Mft.Read.Field.{field, field-lt, read_le-eq-field, field-fits}
use just_give_my_disk.Mft.Usa.Frame.{restore_usa-Framed}
use just_give_my_disk.Mft.Usa.Record.{has_signature-Returns}
use just_give_my_disk.Mft.Usa.{restore_usa}
use just_give_my_disk.Mft.Names.{
  build_name, read_name, name_body, name_typed, names_loop, build_record, parse_fields,
  parse_restored, parse, push, is_resident_name, attribute_end,
}

-- A name in range, not empty, and valid UTF-8 without U+0000.
pub record IsName (n : MftFileName) : Type 0 where
  pub parent_fits : n.parent_ref < 2 ^ 48
  pub namespace_fits : n.name_namespace < 2 ^ 8
  pub flags_fit : n.flags < 2 ^ 32
  pub allocated_fits : n.allocated_size < 2 ^ 64
  pub real_fits : n.real_size < 2 ^ 64
  pub some_name : n.name ≢ []
  pub text : (cs : List ℕ) × (decode (length n.name) n.name ≡ some cs) × All IsText cs

base_file_ref-lt : (x : ℕ) → base_file_ref x < 2 ^ 48
unfolding base_file_ref
base_file_ref-lt x = omega (arith, bit_and_mask 48 x)

abbrev Fits : ℕ → Option ℕ → Type 0
Fits size o = OnSome (λ v. v < 2 ^ (8 * size)) o

module _ (bytes : List ℕ) (hb : All IsByte bytes) where
  build_name-IsName :
      (dir : Bool) (start content_end : ℕ) (parent allocated real flags len ns : Option ℕ)
      → content_end ≤ length bytes
      → Fits 8 allocated
      → Fits 8 real
      → Fits 4 flags
      → Fits 1 ns
      → Returns
          (OnSome IsName)
          (build_name bytes dir start content_end parent allocated real flags len ns)
  unfolding build_name
  build_name-IsName dir start ce (some p) (some a) (some r) (some f) (some l) (some n) hc ha hr hf
        hn =
      elim (Bool-cases (leb (start + 66 + l * 2) ce)) [
        | inr e ↦ rw e (returned tt)
        | inl e ↦ rw e (
            Returns-bind
              (utf16le_to_utf8-decodes (drop (start + 66) bytes) (l * 2)
                (All-drop IsByte (start + 66) bytes hb)
                (omega (arith, leb→le _ _ e, length-drop (start + 66) bytes)))
              (elim [
                | [] ↦ λ _. returned tt
                | c ∷ name ↦ λ (cs, decoded, text, _). returned (record {
                  parent_fits = base_file_ref-lt p;
                  namespace_fits = hn;
                  flags_fit = hf;
                  allocated_fits = ha;
                  real_fits = hr;
                  some_name = λ q. cc;
                  text = (cs, decoded, text);
                })
              ]))
      ]
  build_name-IsName dir start ce _ _ _ _ _ _ hc ha hr hf hn = returned tt

  read_name-IsName :
      (dir : Bool) (attr_offset : ℕ) (content_len content_offset : Option ℕ)
      → Returns (OnSome IsName) (read_name bytes dir attr_offset content_len content_offset)
  unfolding read_name
  read_name-IsName dir ao (some cl) (some co) =
      elim (Bool-cases (leb (ao + co + 66) (length bytes) && leb (ao + co + cl) (length bytes))) [
        | inr e ↦ rw e (returned tt)
        | inl e ↦
            rw
              (
                e,
                read_le-eq-field 8 bytes (ao + co) hb (omega arith),
                read_le-eq-field 8 bytes (ao + co + 40) hb (omega arith),
                read_le-eq-field 8 bytes (ao + co + 48) hb (omega arith),
                read_le-eq-field 4 bytes (ao + co + 56) hb (omega arith),
                read_le-eq-field 1 bytes (ao + co + 64) hb (omega arith),
                read_le-eq-field 1 bytes (ao + co + 65) hb (omega arith),
              )
              (build_name-IsName dir (ao + co) (ao + co + cl) _ _ _ _ _ _ (ground arith)
                (field-fits 8 bytes (ao + co + 40) hb) (field-fits 8 bytes (ao + co + 48) hb)
                (field-fits 4 bytes (ao + co + 56) hb) (field-fits 1 bytes (ao + co + 65) hb))
      ]
  read_name-IsName dir ao _ _ = returned tt

  abbrev StepFits : ℕ × List MftFileName → Type 0
  StepFits r = (16 ≤ r.0) × All IsName r.1

  push-IsName : (o : Option MftFileName) → OnSome IsName o → All IsName (push o)
  push-IsName none h = tt
  push-IsName (some n) h = (h, tt)

  name_body-fits :
      (dir : Bool) (attr_offset attr_type : ℕ) (attr_len non_resident : Option ℕ)
      → Returns (OnSome StepFits) (name_body bytes dir attr_offset attr_type attr_len non_resident)
  unfolding name_body
  name_body-fits dir ao ty none nr = returned tt
  name_body-fits dir ao ty (some len) nr =
      elim (Bool-cases (ltb len 16 || ltb (length bytes) (ao + len))) [
        | inl e ↦ rw e (returned tt)
        | inr e ↦
            let long : 16 ≤ len = ground arith in
            elim (Bool-cases (is_resident_name ty nr)) [
              | inr f ↦ rw (e, f) (returned (long, tt))
              | inl f ↦
                  rw
                    (
                      e,
                      f,
                      read_le-eq-field 4 bytes (ao + 16) hb (omega arith),
                      read_le-eq-field 2 bytes (ao + 20) hb (omega arith),
                    )
                    (Returns-bind (read_name-IsName dir ao _ _)
                      (λ o h. returned (long, push-IsName o h)))
            ]
      ]

  name_typed-fits :
      (dir : Bool) (attr_offset : ℕ) (attr_type : Option ℕ)
      → Returns (OnSome StepFits) (name_typed bytes dir attr_offset attr_type)
  unfolding name_typed
  name_typed-fits dir ao none = returned tt
  name_typed-fits dir ao (some ty) = elim (Bool-cases (ty == attribute_end)) [
    | inl e ↦ rw e (returned tt)
    | inr e ↦
        rw
          (
            e,
            read_le-eq-field 4 bytes (ao + 4) hb (omega arith),
            read_le-eq-field 1 bytes (ao + 8) hb (omega arith),
          )
          (name_body-fits dir ao ty _ _)
  ]

  names_loop-IsName :
      (fuel : ℕ) (dir : Bool) (attr_offset : ℕ) (names : List MftFileName)
      → All IsName names
      → length bytes - attr_offset < fuel
      → Returns (All IsName) (names_loop fuel bytes dir attr_offset names)
  unfolding names_loop
  names_loop-IsName zero dir ao names hn hf = elim hf [ ]
  names_loop-IsName (suc fuel) dir ao names hn hf =
      elim (Bool-cases (leb (ao + 16) (length bytes))) [
        | inr e ↦ rw e (returned hn)
        | inl e ↦
            rw (e, read_le-eq-field 4 bytes ao hb (omega arith))
              (Returns-bind (name_typed-fits dir ao _) (elim [
                | none ↦ λ _. returned hn
                | some (len, pushed) ↦ λ h.
                    names_loop-IsName fuel dir (ao + len) (names ++ pushed)
                      (All-append IsName names pushed hn h.1) (omega (arith, h.0, leb→le _ _ e))
              ]))
      ]

-- What `parse` returns for an input at `offset`: the number is that of the restored record's header.
pub record IsParsed (input : List ℕ) (offset : ℕ) (r : MftRecord) : Type 0 where
  pub same_offset : r.offset ≡ offset
  pub some_names : r.names ≢ []
  pub names : All IsName r.names
  pub restored : List ℕ
  pub restores : restore_usa input ≡ got (true, restored)
  pub number : ℕ
  pub number_field : field 4 restored 0x2C ≡ some number
  pub number_fits : number < 2 ^ 32
  pub id_guess : r.record_id_guess ≡ (if number == 0 then offset / 1024 else number)

guess :
    (n offset : ℕ)
    → (if not (n == 0) then n else offset / 1024) ≡ (if n == 0 then offset / 1024 else n)
guess n offset = elim (Bool-cases (n == 0)) [ inl t ↦ rw t refl | inr f ↦ rw f refl ]

module _ (input : List ℕ) (offset : ℕ) (bytes : List ℕ) (hb : All IsByte bytes)
    (restores : restore_usa input ≡ got (true, bytes)) where
  build_record-IsParsed :
      (number : ℕ) (names : List MftFileName)
      → field 4 bytes 0x2C ≡ some number
      → All IsName names
      → OnSome (IsParsed input offset) (build_record number offset names)
  unfolding build_record
  build_record-IsParsed number [] h hn = tt
  build_record-IsParsed number (n ∷ ns) h hn = record {
    same_offset = refl;
    some_names = λ q. cc;
    names = hn;
    restored = bytes;
    restores = restores;
    number = number;
    number_field = h;
    number_fits = (field-lt 4 bytes 0x2C number hb h).0;
    id_guess = guess number offset;
  }

  parse_fields-IsParsed :
      (sequence flags first number : Option ℕ)
      → field 4 bytes 0x2C ≡ number
      → Returns
          (OnSome (IsParsed input offset))
          (parse_fields bytes offset sequence flags first number)
  unfolding parse_fields
  parse_fields-IsParsed (some s) (some f) (some a) (some n) hn =
      Returns-bind (names_loop-IsName bytes hb (length bytes + 1) _ a [] tt (omega arith))
        (λ names h. returned (build_record-IsParsed n names hn h))
  parse_fields-IsParsed _ _ _ _ hn = returned tt

  parse_restored-IsParsed : Returns (OnSome (IsParsed input offset)) (parse_restored bytes offset)
  unfolding parse_restored
  parse_restored-IsParsed =
      rw
        (
          read_le-eq-field 2 bytes 0x10 hb (omega arith),
          read_le-eq-field 2 bytes 0x16 hb (omega arith),
          read_le-eq-field 2 bytes 0x14 hb (omega arith),
          read_le-eq-field 4 bytes 0x2C hb (omega arith),
        )
        (parse_fields-IsParsed _ _ _ _ refl)

Returns-eq :
    {A : Type 0} {Q : A → Type 0} {m : Access A} → Returns Q m → Returns (λ a. Q a × (m ≡ got a)) m
Returns-eq (returned h) = returned (h, refl)

-- On every buffer of bytes, of any length and content, `parse` ends without an access out of
-- bounds; a record that it returns has its offset and at least one name, every name is in range, not
-- empty, and UTF-8 without U+0000, and the guess of its number is the 32-bit number at 0x2C in the header
-- of the restored record, or the offset in records where that number is 0.
pub parse-IsParsed :
    (input : List ℕ) (offset : ℕ)
    → All IsByte input
    → Returns (OnSome (IsParsed input offset)) (parse input offset)
unfolding parse
parse-IsParsed input offset hb = elim (Bool-cases (length input == record_size)) [
  | inr f ↦ rw f (returned tt)
  | inl t ↦ rw t (
      Returns-bind
        (has_signature-Returns input (omega (arith, (==_iff (length input) record_size).0 t)))
        (elim [
          | false ↦ λ _. returned tt
          | true ↦ λ _.
              Returns-bind (Returns-eq (restore_usa-Framed input hb))
                (λ r f. finish r.0 r.1 (f.0).bytes f.1)
        ]))
]
  where
    finish :
        (restored : Bool) (bytes : List ℕ)
        → All IsByte bytes
        → restore_usa input ≡ got (restored, bytes)
        → Returns
            (OnSome (IsParsed input offset))
            (if not restored then got none else parse_restored bytes offset)
    finish true bytes h e = parse_restored-IsParsed input offset bytes h e
    finish false bytes h e = returned tt
