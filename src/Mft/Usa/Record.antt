-- ===== src/Mft/Usa/Record.antt =====
-- `restored_record` ends without a fault on every input.
use just_give_my_disk.Common.{
  ℕ, ◌≤◌, ◌≡◌, Bool, List, [], ◌∷◌, some, none, length, All, ◌==◌, arith, ==_iff, Bool-cases, inl,
  inr, OnSome, Returns, returned, Returns-bind, if◌then◌else◌, true, false,
}
use just_give_my_disk.Common.Bytes.{IsByte}
use just_give_my_disk.Mft.{record_size}
use just_give_my_disk.Mft.Read.{has_signature}
use just_give_my_disk.Mft.Usa.{restored_record}
use just_give_my_disk.Mft.Usa.Frame.{Framed, restore_usa-Framed}

-- A restored record: bytes, as many as a record has.
pub record IsRecord (bytes : List ℕ) : Type 0 where
  pub all_bytes : All IsByte bytes
  pub size : length bytes ≡ record_size

pub has_signature-Returns :
    (input : List ℕ) → 4 ≤ length input → Returns (λ b. Unit {0}) (has_signature input)
unfolding has_signature
has_signature-Returns (a ∷ b ∷ c ∷ d ∷ rest) h = returned tt
has_signature-Returns [] h = absurd (omega arith)
has_signature-Returns (a ∷ []) h = absurd (omega arith)
has_signature-Returns (a ∷ b ∷ []) h = absurd (omega arith)
has_signature-Returns (a ∷ b ∷ c ∷ []) h = absurd (omega arith)

pub Framed-IsRecord :
    (input bytes : List ℕ) → length input ≡ record_size → Framed 0 input bytes → IsRecord bytes
Framed-IsRecord input bytes h f = record {
  all_bytes = f.bytes;
  size = omega (arith, f.same_length);
}

pub restored_record-IsRecord :
    (input : List ℕ) → All IsByte input → Returns (OnSome IsRecord) (restored_record input)
unfolding restored_record
restored_record-IsRecord input hb = elim (Bool-cases (length input == record_size)) [
  | inr f ↦ rw f (returned tt)
  | inl t ↦
      let size = (==_iff (length input) record_size).0 t in
      rw t (
        Returns-bind (has_signature-Returns input (omega arith)) (elim [
          | true ↦ λ _.
              Returns-bind (restore_usa-Framed input hb)
                (λ r f. returned (kept r.0 r.1 (Framed-IsRecord input r.1 size f)))
          | false ↦ λ _. returned tt
        ]))
]
  where
    kept :
        (b : Bool) (bytes : List ℕ)
        → IsRecord bytes
        → OnSome IsRecord (if b then some bytes else none)
    kept true bytes h = h
    kept false bytes h = tt
