-- ===== src/Recover/Locating.antt =====
-- src/Recover.cpp: `locate_records`, which looks on the source for the records of the wanted files.
pub mod Found
mod Tests
use just_give_my_disk.Common.{
  ℕ, zero, suc, ◌+◌, ◌/◌, ◌%◌, ◌^◌, Bool, true, false, not, ◌&&◌, Option, none, some, List, [], ◌∷◌,
  length, ltb, ◌==◌, if◌then◌else◌,
}
use just_give_my_disk.Mft.{record_size}
use just_give_my_disk.Mft.Read.{has_signature}
use just_give_my_disk.Mft.Names.{record_number}
use just_give_my_disk.Output.Posix.{Posix}
use just_give_my_disk.Output.Result.{Result, ok, stuck, of_access, and_then, bind}
use just_give_my_disk.Recover.Reading.{read_exact_at}
use just_give_my_disk.Recover.Tree.{contains_id}

-- The map `found`, as the list of its entries.
abbrev pub Located : Type 0
Located = List (ℕ × List ℕ)

abbrev pub has_number : Located → ℕ → Bool
has_number [] number = false
has_number (entry ∷ found) number =
    let rest = has_number found number in if entry.0 == number then true else rest

-- `number && wanted.contains(*number) && !found.contains(*number)`
abbrev pub keep_record : List ℕ → Located → List ℕ → Option ℕ → Located
keep_record wanted found buffer none = found
keep_record wanted found buffer (some number) =
    if contains_id wanted number && not (has_number found number)
    then (number, buffer) ∷ found
    else found

-- The handling of a record's bytes.
unfoldable pub locate_record : List ℕ → Located → List ℕ → Result Located
locate_record wanted found buffer = bind (of_access (has_signature buffer)) (λ signature.
    elim signature [
      | true ↦
          bind (of_access (record_number buffer))
            (λ number. ok (keep_record wanted found buffer number))
      | false ↦ ok found
    ])

module _ (P : Posix) where
  open P use {World, image}

  abbrev pub located_more :
      (Located → World → Result Located × World)
      → List ℕ
      → Located
      → Option (List ℕ)
      → World
      → Result Located × World
  located_more again wanted found none w = (ok found, w)
  located_more again wanted found (some buffer) w =
      and_then (locate_record wanted found buffer, w) again

  -- The loop, on fuel.
  unfoldable pub locate_loop : ℕ → ℕ → List ℕ → ℕ → Located → World → Result Located × World
  locate_loop zero fd wanted offset found w = (stuck, w)
  locate_loop (suc fuel) fd wanted offset found w = elim (ltb (length found) (length wanted)) [
    | false ↦ (ok found, w)
    | true ↦
        and_then (read_exact_at P fd record_size offset w)
          (located_more (locate_loop fuel fd wanted ((offset + record_size) % 2 ^ 64)) wanted found)
  ]

  -- `locate_records`: each round takes a record's bytes of the source. `wanted` has no number twice.
  unfoldable pub locate_records : ℕ → List ℕ → World → Result Located × World
  locate_records fd [] w = (ok [], w)
  locate_records fd (number ∷ wanted) w =
      locate_loop (length (image fd) / record_size + 1) fd (number ∷ wanted) 0 [] w
