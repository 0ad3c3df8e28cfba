-- ===== src/Mft/Attributes/Bounds.antt =====
-- `data_attributes` ends on every input without a fault, and what it returns is well formed.
use just_give_my_disk.Common.{
  ℕ, zero, suc, ◌+◌, ◌-◌, ◌^◌, ◌<◌, ◌≤◌, ◌≡◌, refl, bit_and, true, false, Option, none, some, List,
  [], ◌++◌, length, All, All-drop, All-take, All-append, ltb, leb, ◌==◌, ◌||◌, ◌&&◌, inl, inr,
  Bool-cases, leb→le, le→leb, arith, OnSome, Returns, returned, Returns-bind,
}
use just_give_my_disk.Common.Bytes.{IsByte}
use just_give_my_disk.Mft.{DataAttribute, DataRun, record_size}
use just_give_my_disk.Mft.Read.Field.{read_le-eq-field, field-fits, length-slice}
use just_give_my_disk.Mft.Usa.Record.{IsRecord, restored_record-IsRecord}
use just_give_my_disk.Mft.Runs.Safety.{IsRun, parse_data_runs-IsRun}
use just_give_my_disk.Mft.Names.{push, attribute_end}
use just_give_my_disk.Mft.Attributes.{
  attribute_data, resident_attribute, runs_attribute, data_content, data_body, data_typed,
  attributes_loop, attributes_from, attributes_of, data_attributes,
}

-- A resident attribute holds as many bytes as its size says, and no runs; a non-resident one holds
-- runs in range, and no bytes.
pub record IsAttribute (a : DataAttribute) : Type 0 where
  pub real_size_fits : a.real_size < 2 ^ 64
  pub resident_bytes : a.resident ≡ true → length a.resident_data ≡ a.real_size
  pub resident_runs : a.resident ≡ true → a.runs ≡ []
  pub resident_small : a.resident ≡ true → a.real_size ≤ record_size
  pub outside_bytes : a.resident ≡ false → a.resident_data ≡ []
  pub data_bytes : All IsByte a.resident_data
  pub runs_in_range : All IsRun a.runs

module _ (bytes : List ℕ) (whole : IsRecord bytes) where
  resident_attribute-IsAttribute :
      (attr_offset attr_end : ℕ) (content_len content_offset : Option ℕ)
      → attr_end ≤ length bytes
      → Returns
          (OnSome IsAttribute)
          (resident_attribute bytes attr_offset attr_end content_len content_offset)
  unfolding resident_attribute
  resident_attribute-IsAttribute ao end (some len) (some offset) he =
      elim (Bool-cases (leb (ao + offset) end && leb len (end - (ao + offset)))) [
        | inr e ↦ rw e (returned tt)
        | inl e ↦
            let fits : ao + offset + len ≤ length bytes = ground arith in
            rw (e, le→leb _ _ fits)
              (returned (record {
                real_size_fits = omega (arith, whole.size);
                resident_bytes = λ _. length-slice bytes (ao + offset) len fits;
                resident_runs = λ _. refl;
                resident_small = λ _. omega (arith, whole.size);
                outside_bytes = λ q. cc;
                data_bytes =
                    All-take IsByte len _ (All-drop IsByte (ao + offset) bytes whole.all_bytes);
                runs_in_range = tt;
              }))
      ]
  resident_attribute-IsAttribute ao end _ _ he = returned tt

  abbrev pushed_runs : ℕ → Option (List DataRun) → Option DataAttribute
  pushed_runs real none = none
  pushed_runs real (some rs) =
      some (record { resident = false; resident_data = []; runs = rs; real_size = real })

  runs_attribute-IsAttribute :
      (attr_offset attr_end : ℕ) (run_offset real_size : Option ℕ)
      → attr_end ≤ length bytes
      → OnSome (λ v. v < 2 ^ 64) real_size
      → Returns
          (OnSome IsAttribute)
          (runs_attribute bytes attr_offset attr_end run_offset real_size)
  unfolding runs_attribute
  runs_attribute-IsAttribute ao end (some offset) (some real) he hr =
      elim (Bool-cases (ltb (ao + offset) end)) [
        | inr e ↦ rw e (returned tt)
        | inl e ↦ rw e (
            Returns-bind (parse_data_runs-IsRun bytes end whole.all_bytes he (ao + offset)) (elim [
              | none ↦ λ _. returned tt
              | some rs ↦ λ h. returned (record {
                real_size_fits = hr;
                resident_bytes = λ q. cc;
                resident_runs = λ q. cc;
                resident_small = λ q. cc;
                outside_bytes = λ _. refl;
                data_bytes = tt;
                runs_in_range = h;
              })
            ]))
      ]
  runs_attribute-IsAttribute ao end _ _ he hr = returned tt

  data_content-IsAttribute :
      (attr_offset attr_end non_resident : ℕ)
      → attr_end ≤ length bytes
      → Returns (OnSome IsAttribute) (data_content bytes attr_offset attr_end non_resident)
  unfolding data_content
  data_content-IsAttribute ao end nr he =
      let hb = whole.all_bytes in
      elim (Bool-cases (nr == 0)) [
        | inl e ↦
            rw
              (
                e,
                read_le-eq-field 4 bytes (ao + 16) hb (omega arith),
                read_le-eq-field 2 bytes (ao + 20) hb (omega arith),
              )
              (resident_attribute-IsAttribute ao end _ _ he)
        | inr e ↦ elim (Bool-cases (nr == 1)) [
          | inr f ↦ rw (e, f) (returned tt)
          | inl f ↦
              rw
                (
                  e,
                  f,
                  read_le-eq-field 2 bytes (ao + 32) hb (omega arith),
                  read_le-eq-field 8 bytes (ao + 48) hb (omega arith),
                )
                (runs_attribute-IsAttribute ao end _ _ he (field-fits 8 bytes (ao + 48) hb))
        ]
      ]

  abbrev StepFits : ℕ × List DataAttribute → Type 0
  StepFits r = (16 ≤ r.0) × All IsAttribute r.1

  push-IsAttribute : (o : Option DataAttribute) → OnSome IsAttribute o → All IsAttribute (push o)
  push-IsAttribute none h = tt
  push-IsAttribute (some n) h = (h, tt)

  data_body-fits :
      (attr_offset attr_type : ℕ) (attr_len non_resident name_len attr_flags : Option ℕ)
      → Returns
          (OnSome StepFits)
          (data_body bytes attr_offset attr_type attr_len non_resident name_len attr_flags)
  unfolding data_body
  data_body-fits ao ty (some len) (some nr) (some nl) (some fl) =
      elim (Bool-cases (ltb len 16 || ltb (length bytes) (ao + len))) [
        | inl e ↦ rw e (returned tt)
        | inr e ↦
            let long : (16 ≤ len) × (ao + len ≤ length bytes) = ground arith in
            elim (Bool-cases (ty == attribute_data && nl == 0 && bit_and fl 0x4001 == 0)) [
              | inr f ↦ rw (e, f) (returned (long.0, tt))
              | inl f ↦
                  rw (e, f)
                    (Returns-bind (data_content-IsAttribute ao (ao + len) nr long.1)
                      (λ o h. returned (long.0, push-IsAttribute o h)))
            ]
      ]
  data_body-fits ao ty _ _ _ _ = returned tt

  data_typed-fits :
      (attr_offset : ℕ) (attr_type : Option ℕ)
      → Returns (OnSome StepFits) (data_typed bytes attr_offset attr_type)
  unfolding data_typed
  data_typed-fits ao none = returned tt
  data_typed-fits ao (some ty) =
      let hb = whole.all_bytes in
      elim (Bool-cases (ty == attribute_end)) [
        | inl e ↦ rw e (returned tt)
        | inr e ↦
            rw
              (
                e,
                read_le-eq-field 4 bytes (ao + 4) hb (omega arith),
                read_le-eq-field 1 bytes (ao + 8) hb (omega arith),
                read_le-eq-field 1 bytes (ao + 9) hb (omega arith),
                read_le-eq-field 2 bytes (ao + 12) hb (omega arith),
              )
              (data_body-fits ao ty _ _ _ _)
      ]

  attributes_loop-IsAttribute :
      (fuel attr_offset : ℕ) (attributes : List DataAttribute)
      → All IsAttribute attributes
      → length bytes - attr_offset < fuel
      → Returns (All IsAttribute) (attributes_loop fuel bytes attr_offset attributes)
  unfolding attributes_loop
  attributes_loop-IsAttribute zero ao as_ ha hf = elim hf [ ]
  attributes_loop-IsAttribute (suc fuel) ao as_ ha hf =
      elim (Bool-cases (leb (ao + 16) (length bytes))) [
        | inr e ↦ rw e (returned ha)
        | inl e ↦
            rw (e, read_le-eq-field 4 bytes ao whole.all_bytes (omega arith))
              (Returns-bind (data_typed-fits ao _) (elim [
                | none ↦ λ _. returned ha
                | some (len, pushed) ↦ λ h.
                    attributes_loop-IsAttribute fuel (ao + len) (as_ ++ pushed)
                      (All-append IsAttribute as_ pushed ha h.1) (omega (arith, h.0, leb→le _ _ e))
              ]))
      ]

attributes_from-IsAttribute :
    (bytes : List ℕ) (first : Option ℕ)
    → IsRecord bytes
    → Returns (All IsAttribute) (attributes_from bytes first)
unfolding attributes_from
attributes_from-IsAttribute bytes none w = returned tt
attributes_from-IsAttribute bytes (some first) w =
    attributes_loop-IsAttribute bytes w (length bytes + 1) first [] tt (omega arith)

attributes_of-IsAttribute :
    (o : Option (List ℕ)) → OnSome IsRecord o → Returns (All IsAttribute) (attributes_of o)
unfolding attributes_of
attributes_of-IsAttribute none h = returned tt
attributes_of-IsAttribute (some bytes) w =
    rw (read_le-eq-field 2 bytes 0x14 w.all_bytes (omega arith))
      (attributes_from-IsAttribute bytes _ w)

-- On every buffer of bytes `data_attributes` ends without an access out of bounds. A resident
-- attribute that it returns holds exactly as many bytes as its size says, at most 1024, and no
-- runs; a non-resident one holds no bytes; every run is in range.
pub data_attributes-IsAttribute :
    (input : List ℕ) → All IsByte input → Returns (All IsAttribute) (data_attributes input)
unfolding data_attributes
data_attributes-IsAttribute input hb =
    Returns-bind (restored_record-IsRecord input hb) attributes_of-IsAttribute
