-- ===== src/Mft/Usa/Restored.antt =====
-- What `restore_usa` has checked and written when it returns true.
use native.Mathlib.Decide.{dec_lt}
use just_give_my_disk.Common.{
  ℕ, zero, suc, ◌+◌, ◌*◌, ◌/◌, ◌^◌, ◌<◌, ◌≤◌, ◌≡◌, ◌≢◌, ◌⊎◌, refl, sym, ap, ◌∙◌, true, false,
  Option, none, some, List, length, length-set, All, get_elem?, get_elem?-set_ne,
  get_elem?-set_self, set, ◌==◌, ==_iff, got, ◌>>=◌, Returns-at, arith, Bool-cases, Option-cases,
  inl, inr,
}
use just_give_my_disk.Common.Bytes.{IsByte, le_value, slice}
use just_give_my_disk.Common.Bits.{bit_and_mask}
use just_give_my_disk.Mft.Read.{read_le}
use just_give_my_disk.Mft.Read.Field.{
  field, read_le-eq-field, field-lt, field_two, field_two_congr, field_in_bounds,
}
use just_give_my_disk.Mft.Usa.{
  trailer, restore_sector, restore_loop, restore_sectors, restore_header, restore_usa,
}
use just_give_my_disk.Mft.Usa.Frame.{
  Framed, patched, patched-Framed, restore_sector_lem, restore_loop-Framed, FramedResult,
}

get_elem?-patched_ne :
    (bytes : List ℕ) (t r j : ℕ)
    → j ≢ t
    → j ≢ t + 1
    → get_elem? (patched bytes t r) j ≡ get_elem? bytes j
get_elem?-patched_ne bytes t r j h k =
    get_elem?-set_ne (set bytes t _) (t + 1) j _ (λ e. k (sym e))
    ∙ get_elem?-set_ne bytes t j _ (λ e. h (sym e))

-- The trailer reads back what was stored.
field-patched :
    (bytes : List ℕ) (t r : ℕ)
    → t + 2 ≤ length bytes
    → r < 65536
    → field 2 (patched bytes t r) t ≡ some r
field-patched bytes t r h hr =
    field_two (patched bytes t r) t (rw (length-set, length-set) h)
      (get_elem?-set_ne (set bytes t _) (t + 1) t _ (omega arith)
        ∙ get_elem?-set_self bytes t _ (omega arith))
      (get_elem?-set_self (set bytes t _) (t + 1) _ (rw length-set (omega arith)))
    ∙ ap some (rw (bit_and_mask 8 r, bit_and_mask 8 (r / 2 ^ 8)) (omega arith))

field-patched_far :
    (bytes : List ℕ) (t r i : ℕ)
    → i + 2 ≤ length bytes
    → (i + 1 < t) ⊎ (t + 1 < i)
    → field 2 (patched bytes t r) i ≡ field 2 bytes i
field-patched_far bytes t r i h far =
    field_two_congr (patched bytes t r) bytes i i (rw (length-set, length-set) h) h
      (get_elem?-patched_ne bytes t r i (omega arith) (omega arith))
      (get_elem?-patched_ne bytes t r (i + 1) (omega arith) (omega arith))

-- What one sector's trailer held, and holds afterwards.
pub record RestoredSector (before after : List ℕ) (usa_offset update_sequence s : ℕ) : Type 0 where
  pub checked : field 2 before (trailer s) ≡ some update_sequence
  pub restored :
      usa_offset + (s + 2) * 2 ≤ 510
      → field 2 after (trailer s) ≡ field 2 before (usa_offset + (s + 1) * 2)

restore_sector-none :
    (bytes : List ℕ) (t us c : ℕ) → restore_sector bytes t us (some c) none ≡ got none
unfolding restore_sector
restore_sector-none bytes t us c = refl

-- A round that goes on: its test has passed and its stores are done.
restore_loop_step :
    (rounds : ℕ) (bytes : List ℕ) (sector uo us : ℕ) (after : List ℕ)
    → All IsByte bytes
    → trailer sector + 2 ≤ length bytes
    → restore_loop (suc rounds) bytes sector uo us ≡ got (true, after)
    → (r : ℕ) × (field 2 bytes (trailer sector) ≡ some us)
      × (field 2 bytes (uo + (sector + 1) * 2) ≡ some r)
      × (restore_loop rounds (patched bytes (trailer sector) r) (sector + 1) uo us
          ≡ got (true, after))
unfolding restore_loop
restore_loop_step rounds bytes sector uo us after hb ht e =
    let e' =
      rw
        (
          read_le-eq-field 2 bytes (trailer sector) hb (omega arith),
          read_le-eq-field 2 bytes (uo + (sector + 1) * 2) hb (omega arith),
          field_in_bounds 2 bytes (trailer sector) ht,
        )
        at e in
    let c = le_value (slice bytes (trailer sector) 2) in
    elim (Option-cases (field 2 bytes (uo + (sector + 1) * 2))) [
      | inr n ↦ cc (rw (n, restore_sector-none bytes (trailer sector) us c) at e')
      | inl (r, er) ↦
          let e'' = rw (er, restore_sector_lem bytes (trailer sector) us c r (omega arith)) at e' in
          elim (Bool-cases (c == us)) [
            | inr f ↦ cc (rw f at e'')
            | inl t ↦ (
              r,
              field_in_bounds 2 bytes (trailer sector) ht ∙ ap some ((==_iff c us).0 t),
              er,
              rw t at e'',
            )
          ]
    ]

-- The later rounds leave the trailer as it is.
kept_trailer :
    (rounds : ℕ) (bytes : List ℕ) (sector uo us r : ℕ) (after : List ℕ)
    → Framed sector bytes (patched bytes (trailer sector) r)
    → (sector + suc rounds) * 512 ≤ length bytes
    → restore_loop rounds (patched bytes (trailer sector) r) (sector + 1) uo us ≡ got (true, after)
    → field 2 after (trailer sector) ≡ field 2 (patched bytes (trailer sector) r) (trailer sector)
kept_trailer rounds bytes sector uo us r after frame h rest =
    let size = frame.same_length in
    let later : Framed (sector + 1) (patched bytes (trailer sector) r) after =
      Returns-at {P = FramedResult (sector + 1) (patched bytes (trailer sector) r)}
        (restore_loop-Framed rounds (patched bytes (trailer sector) r) (sector + 1) uo us
          frame.bytes (omega arith))
        rest in
    let size' = later.same_length in
    field_two_congr after (patched bytes (trailer sector) r) (trailer sector) (trailer sector)
      (omega arith) (omega arith)
      (later.same_outside (trailer sector) (λ s' k. (omega arith, omega arith)))
      (later.same_outside (trailer sector + 1) (λ s' k. (omega arith, omega arith)))

restore_loop-Restored :
    (rounds : ℕ) (bytes : List ℕ) (sector uo us : ℕ) (after : List ℕ)
    → All IsByte bytes
    → (sector + rounds) * 512 ≤ length bytes
    → restore_loop rounds bytes sector uo us ≡ got (true, after)
    → (s : ℕ) → sector ≤ s
    → s < sector + rounds
    → RestoredSector bytes after uo us s
restore_loop-Restored zero bytes sector uo us after hb hs e s lo hi = absurd (omega arith)
restore_loop-Restored (suc rounds) bytes sector uo us after hb hs e s lo hi =
    let (r, checked, replacement, rest) =
      restore_loop_step rounds bytes sector uo us after hb (omega arith) e in
    let first = patched bytes (trailer sector) r in
    let frame : Framed sector bytes first = patched-Framed bytes sector r hb in
    let size : length first ≡ length bytes = frame.same_length in
    elim (dec_lt sector s) [
      | yes lt ↦
          let ih : RestoredSector first after uo us s =
            restore_loop-Restored rounds first (sector + 1) uo us after frame.bytes (omega arith)
              rest s (omega arith) (omega arith) in
          record {
            checked =
                sym (
                  field-patched_far bytes (trailer sector) r (trailer s) (omega arith)
                    (inr (omega arith)))
                ∙ ih.checked;
            restored = λ h.
                ih.restored h
                ∙ field-patched_far bytes (trailer sector) r (uo + (s + 1) * 2) (omega arith)
                    (inl (omega arith));
          }
      | no n ↦
          let same : s ≡ sector = omega arith in
          rw same (record {
            checked = checked;
            restored = λ h.
                kept_trailer rounds bytes sector uo us r after frame (omega arith) rest
                ∙ field-patched bytes (trailer sector) r (omega arith)
                    (field-lt 2 bytes _ r hb replacement).0
                ∙ sym replacement;
          })
    ]

-- What a record has shown when `restore_usa` returns true.
pub record Restored (before after : List ℕ) : Type 0 where
  pub usa_offset : ℕ
  pub update_sequence : ℕ
  pub offset_field : field 2 before 4 ≡ some usa_offset
  pub count_field : field 2 before 6 ≡ some (length before / 512 + 1)
  pub array_fits : usa_offset + (length before / 512 + 1) * 2 ≤ length before
  pub sequence_field : field 2 before usa_offset ≡ some update_sequence
  pub sectors :
      (s : ℕ) → s < length before / 512 → RestoredSector before after usa_offset update_sequence s

-- The header's tests have passed.
header_checks :
    (bytes after : List ℕ) (o c : ℕ)
    → restore_header bytes (some o) (some c) ≡ got (true, after)
    → (c ≡ length bytes / 512 + 1)
      × (o + c * 2 ≤ length bytes)
      × ((read_le 2 bytes o >>= λ us. restore_sectors bytes o us) ≡ got (true, after))
unfolding restore_header
header_checks bytes after o c e = ground arith

restore_header-Restored :
    (bytes after : List ℕ) (usa_offset usa_count : Option ℕ)
    → All IsByte bytes
    → field 2 bytes 4 ≡ usa_offset
    → field 2 bytes 6 ≡ usa_count
    → restore_header bytes usa_offset usa_count ≡ got (true, after)
    → Restored bytes after
restore_header-Restored bytes after none c hb ho hc e = cc (header_none bytes c, e)
  where
    header_none : (bytes : List ℕ) (c : Option ℕ) → restore_header bytes none c ≡ got (false, bytes)
    header_none bytes c = unfold restore_header in refl
restore_header-Restored bytes after (some o) none hb ho hc e = cc (header_none bytes o, e)
  where
    header_none : (bytes : List ℕ) (o : ℕ) → restore_header bytes (some o) none ≡ got (false, bytes)
    header_none bytes o = unfold restore_header in refl
restore_header-Restored bytes after (some o) (some c) hb ho hc e =
    let (count, fits, rest) = header_checks bytes after o c e in
    let sequence = field_in_bounds 2 bytes o (omega arith) in
    let us = le_value (slice bytes o 2) in
    let loop : restore_loop (length bytes / 512) bytes 0 o us ≡ got (true, after) =
      unfold restore_sectors in
      (rw (read_le-eq-field 2 bytes o hb (omega arith), sequence) at rest) in
    record {
      usa_offset = o;
      update_sequence = us;
      offset_field = ho;
      count_field = hc ∙ ap some count;
      array_fits = omega arith;
      sequence_field = sequence;
      sectors = λ s h.
          restore_loop-Restored (length bytes / 512) bytes 0 o us after hb (omega arith) loop s
            (omega arith) (omega arith);
    }

-- When `restore_usa` returns true, the header names an array of the right count inside the
-- record, every sector's trailer held the update sequence number, and each holds its entry of the
-- array now, where that entry lies before the first trailer.
pub restore_usa-Restored :
    (bytes after : List ℕ)
    → All IsByte bytes
    → restore_usa bytes ≡ got (true, after)
    → Restored bytes after
unfolding restore_usa
restore_usa-Restored bytes after hb e =
    restore_header-Restored bytes after (field 2 bytes 4) (field 2 bytes 6) hb refl refl (
      rw (read_le-eq-field 2 bytes 4 hb (omega arith), read_le-eq-field 2 bytes 6 hb (omega arith))
        at e)
