-- ===== src/Mft/Usa/Frame.antt =====
-- `restore_usa` ends without a fault, and leaves the size of the record and all but the sectors'
-- trailers as they were.
use just_give_my_disk.Common.{
  ℕ, zero, suc, ◌+◌, ◌*◌, ◌/◌, ◌%◌, ◌^◌, ◌<◌, ◌≤◌, ◌≡◌, ◌≢◌, refl, sym, ◌∙◌, bit_and, Bool, not,
  Option, none, some, List, length, length-set, All, All-set, get_elem?, get_elem?-set_ne, set,
  ◌==◌, if◌then◌else◌, got, store_in_bounds, OnSome, Returns, returned, Returns-bind, Returns-if,
  Returns-weaken, arith,
}
use just_give_my_disk.Common.Bytes.{IsByte}
use just_give_my_disk.Mft.Read.Field.{field, read_le-eq-field}
use just_give_my_disk.Mft.Usa.{
  trailer, restore_sector, restore_loop, restore_sectors, restore_header, restore_usa,
}

-- A position in no trailer of the sectors from `sector` on.
abbrev pub Outside : ℕ → ℕ → Type 0
Outside sector j = (s : ℕ) → sector ≤ s → (j ≢ trailer s) × (j ≢ trailer s + 1)

-- What a call may have done to the buffer.
pub record Framed (sector : ℕ) (before after : List ℕ) : Type 0 where
  pub same_length : length after ≡ length before
  pub bytes : All IsByte after
  pub same_outside : (j : ℕ) → Outside sector j → get_elem? after j ≡ get_elem? before j

Framed-refl : (sector : ℕ) (xs : List ℕ) → All IsByte xs → Framed sector xs xs
Framed-refl sector xs hb = record { same_length = refl; bytes = hb; same_outside = λ j o. refl }

-- The two stores of a sector.
abbrev pub patched : List ℕ → ℕ → ℕ → List ℕ
patched bytes t replacement =
    set (set bytes t (bit_and replacement 0xFF % 256)) (t + 1)
      (bit_and (replacement / 2 ^ 8) 0xFF % 256)

pub patched-Framed :
    (bytes : List ℕ) (sector replacement : ℕ)
    → All IsByte bytes
    → Framed sector bytes (patched bytes (trailer sector) replacement)
patched-Framed bytes sector replacement hb = record {
  same_length = length-set _ _ _ ∙ length-set _ _ _;
  bytes = All-set IsByte _ _ _ (omega arith) (All-set IsByte _ _ _ (omega arith) hb);
  same_outside = λ j o.
      get_elem?-set_ne (set bytes (trailer sector) _) (trailer sector + 1) j _
        (λ e. (o sector (omega arith)).1 (sym e))
      ∙ get_elem?-set_ne bytes (trailer sector) j _ (λ e. (o sector (omega arith)).0 (sym e));
}

-- A sector in bounds: the outcome of the test and of the two stores.
pub restore_sector_lem :
    (bytes : List ℕ) (t us current replacement : ℕ)
    → t + 1 < length bytes
    → restore_sector bytes t us (some current) (some replacement)
      ≡ (if not (current == us) then got none else got (some (patched bytes t replacement)))
unfolding restore_sector
restore_sector_lem bytes t us current replacement h = rw (
  store_in_bounds bytes t (bit_and replacement 0xFF % 256) (omega arith),
  store_in_bounds (set bytes t (bit_and replacement 0xFF % 256)) (t + 1)
      (bit_and (replacement / 2 ^ 8) 0xFF % 256) (rw length-set h),
)

Framed-trans :
    {sector : ℕ} {xs ys zs : List ℕ}
    → Framed sector xs ys
    → Framed (sector + 1) ys zs
    → Framed sector xs zs
Framed-trans f g = record {
  same_length = g.same_length ∙ f.same_length;
  bytes = g.bytes;
  same_outside = λ j o. g.same_outside j (λ s h. o s (omega arith)) ∙ f.same_outside j o;
}

restore_sector-Framed :
    (bytes : List ℕ) (sector us : ℕ) (current replacement : Option ℕ)
    → All IsByte bytes
    → trailer sector + 1 < length bytes
    → Returns
        (OnSome (Framed sector bytes))
        (restore_sector bytes (trailer sector) us current replacement)
restore_sector-Framed bytes sector us none r hb h = unfold restore_sector in returned tt
restore_sector-Framed bytes sector us (some c) none hb h = unfold restore_sector in returned tt
restore_sector-Framed bytes sector us (some c) (some r) hb h =
    rw (restore_sector_lem bytes (trailer sector) us c r h)
      (Returns-if (λ _. returned tt) (λ _. returned (patched-Framed bytes sector r hb)))

-- What a call returns beside the flag.
abbrev pub FramedResult : ℕ → List ℕ → Bool × List ℕ → Type 0
FramedResult sector bytes r = Framed sector bytes r.1

pub restore_loop-Framed :
    (rounds : ℕ) (bytes : List ℕ) (sector usa_offset us : ℕ)
    → All IsByte bytes
    → (sector + rounds) * 512 ≤ length bytes
    → Returns (FramedResult sector bytes) (restore_loop rounds bytes sector usa_offset us)
unfolding restore_loop
restore_loop-Framed zero bytes sector uo us hb hs = returned (Framed-refl sector bytes hb)
restore_loop-Framed (suc rounds) bytes sector uo us hb hs =
    rw
      (
        read_le-eq-field 2 bytes (trailer sector) hb (omega arith),
        read_le-eq-field 2 bytes (uo + (sector + 1) * 2) hb (omega arith),
      )
      (Returns-bind (restore_sector-Framed bytes sector us _ _ hb (omega arith)) (elim [
        | none ↦ λ f. returned (Framed-refl sector bytes hb)
        | some ys ↦ λ f.
            Returns-weaken
              (restore_loop-Framed rounds ys (sector + 1) uo us f.bytes
                (omega (arith, f.same_length)))
              (λ r g. Framed-trans f g)
      ]))

restore_sectors-Framed :
    (bytes : List ℕ) (usa_offset : ℕ) (us : Option ℕ)
    → All IsByte bytes
    → Returns (FramedResult 0 bytes) (restore_sectors bytes usa_offset us)
unfolding restore_sectors
restore_sectors-Framed bytes uo none hb = returned (Framed-refl 0 bytes hb)
restore_sectors-Framed bytes uo (some us) hb =
    restore_loop-Framed (length bytes / 512) bytes 0 uo us hb (omega arith)

restore_header-Framed :
    (bytes : List ℕ) (usa_offset usa_count : Option ℕ)
    → All IsByte bytes
    → Returns (FramedResult 0 bytes) (restore_header bytes usa_offset usa_count)
unfolding restore_header
restore_header-Framed bytes none c hb = returned (Framed-refl 0 bytes hb)
restore_header-Framed bytes (some o) none hb = returned (Framed-refl 0 bytes hb)
restore_header-Framed bytes (some o) (some c) hb =
    rw (read_le-eq-field 2 bytes o hb (omega arith))
      (search (Returns-if, returned, Framed-refl 0 bytes hb, restore_sectors-Framed) depth 8)

-- On every buffer of bytes `restore_usa` returns; the buffer keeps its length and holds bytes,
-- and no byte outside the sectors' last two has changed.
pub restore_usa-Framed :
    (bytes : List ℕ) → All IsByte bytes → Returns (FramedResult 0 bytes) (restore_usa bytes)
unfolding restore_usa
restore_usa-Framed bytes hb =
    rw (read_le-eq-field 2 bytes 4 hb (omega arith), read_le-eq-field 2 bytes 6 hb (omega arith))
      (restore_header-Framed bytes (field 2 bytes 4) (field 2 bytes 6) hb)
