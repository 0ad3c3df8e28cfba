-- ===== src/Mft/Runs/Entries.antt =====
-- The entries of a run list as they lie on the disk, and the parser on one of them.
use mathlib.Core.Option
use native.Mathlib.Nat.{pow-suc, pow-le-pow_right}
use native.Mathlib.Decide.{dec_lt}
use just_give_my_disk.Common.{
  ℕ, suc, ◌+◌, ◌-◌, ◌*◌, ◌/◌, ◌^◌, ◌<◌, ◌≤◌, ◌≡◌, sym, ap, ◌∙◌, bit_and, true, false, Option, none,
  some, List, [], ◌∷◌, ◌++◌, take-append, drop-append, drop-drop, length, drop, All, ltb, ◌==◌,
  ◌||◌, inl, inr, Bool-cases, if◌then◌else◌, subst, arith, lt→ltb, ltb→lt, got,
}
use just_give_my_disk.Common.Bits.{bit_and_mask}
use just_give_my_disk.Common.Bytes.{IsByte, le_value, slice}
use just_give_my_disk.Common.Int.{ℤ, pos, negsuc, ltb_ℤ, ◌+ℤ◌, IsInt64}
use just_give_my_disk.Mft.{DataRun}
use just_give_my_disk.Mft.Read.Field.{le_loop-eq, le_value-lt_pow}
use just_give_my_disk.Mft.Runs.{to_uint64, with_offset, next_run, read_run, checked_add}
use just_give_my_disk.Mft.Runs.Signed.{signed, sign_extend_lem, checked_add_lem}
use just_give_my_disk.Mft.Runs.Safety.{IsLcn}

-- A run as it lies on the disk: the bytes of its length, and those of its signed cluster delta
-- (none for a sparse run).
pub record Entry : Type 0 where
  pub count_bytes : List ℕ
  pub delta_bytes : List ℕ

pub record IsEntry (e : Entry) : Type 0 where
  pub count_bytes : All IsByte e.count_bytes
  pub delta_bytes : All IsByte e.delta_bytes
  pub count_some : 1 ≤ length e.count_bytes
  pub count_eight : length e.count_bytes ≤ 8
  pub delta_eight : length e.delta_bytes ≤ 8

unfoldable pub encode : List Entry → List ℕ
encode [] = 0 ∷ []
encode (e ∷ es) =
    (length e.count_bytes + 16 * length e.delta_bytes)
    ∷ (e.count_bytes ++ (e.delta_bytes ++ encode es))

-- The run of an entry behind the cluster number `lcn`, and the cluster number behind it.
-- A cluster number that is negative or past the range of int64 is refused.
abbrev pub placed : ℕ → ℤ → Option (DataRun × ℤ)
placed count (pos k) =
    if ltb k (2 ^ 63)
    then some (record { lcn = k; cluster_count = count; sparse = false }, pos k)
    else none
placed count (negsuc k) = none

unfoldable pub run_of : ℤ → Entry → Option (DataRun × ℤ)
run_of lcn e =
    let n = length e.delta_bytes in
    if n == 0
    then some (record { lcn = 0; cluster_count = le_value e.count_bytes; sparse = true }, lcn)
    else placed (le_value e.count_bytes) (lcn +ℤ signed n (le_value e.delta_bytes))

unfoldable pub runs_of : ℤ → List Entry → Option (List DataRun)
runs_of lcn [] = some []
runs_of lcn (e ∷ es) = elim (run_of lcn e) [
  | none ↦ none
  | some (run, next) ↦ Option.map (λ runs. run ∷ runs) (runs_of next es)
]

-- A part of a buffer, by what stands there.
pub slice-eq :
    (bytes xs ys : List ℕ) (offset : ℕ)
    → drop offset bytes ≡ xs ++ ys
    → (slice bytes offset (length xs) ≡ xs) × (drop (offset + length xs) bytes ≡ ys)
slice-eq bytes xs ys offset e =
    (rw e (take-append xs ys), sym (drop-drop offset (length xs) bytes) ∙ rw e (drop-append xs ys))

IsInt64-signed : (n v : ℕ) → 1 ≤ n → n ≤ 8 → v < 2 ^ (8 * n) → IsInt64 (signed n v)
IsInt64-signed n v h k hv =
    let half : 2 ^ (8 * n) ≡ 2 ^ (8 * n - 1) * 2 =
      ap (λ (t : ℕ). 2 ^ t) (up n h) ∙ pow-suc 2 (8 * n - 1) in
    let bound : 2 ^ (8 * n - 1) ≤ 2 ^ 63 =
      pow-le-pow_right {n = 2} (omega arith) {i = 8 * n - 1} {j = 63} (omega arith) in
    in_half (2 ^ (8 * n - 1)) (2 ^ (8 * n)) v half bound hv
  where
    up : (n : ℕ) → 1 ≤ n → 8 * n ≡ suc (8 * n - 1)
    up n h = omega arith

    in_half :
        (p q v : ℕ)
        → q ≡ p * 2
        → p ≤ 2 ^ 63
        → v < q
        → IsInt64 (if ltb v p then pos v else negsuc (q - v - 1))
    in_half p q v e b h = ground arith

IsInt64-lcn : (z : ℤ) → IsLcn z → IsInt64 z
IsInt64-lcn (pos n) h = h
IsInt64-lcn (negsuc n) h = elim h [ ]

-- The test behind `checked_add`, at the exact sum.
place_at :
    (count : ℕ) (sum : Option ℤ) (z : ℤ)
    → (IsInt64 z → sum ≡ some z) × (¬ IsInt64 z → sum ≡ none)
    → (elim sum [
      | none ↦ none
      | some next ↦
          if ltb_ℤ next (pos 0)
          then none
          else some (record { lcn = to_uint64 next; cluster_count = count; sparse = false }, next)
    ])
      ≡ placed count z
place_at count sum (pos k) h = elim (dec_lt k (2 ^ 63)) [
  | yes lt ↦ rw (h.0 lt, lt→ltb k (2 ^ 63) lt) (ground arith)
  | no n ↦ rw (h.1 n) (ground arith)
]
place_at count sum (negsuc k) h = elim (dec_lt k (2 ^ 63)) [
  | yes lt ↦ rw (h.0 lt) (ground arith)
  | no n ↦ rw (h.1 n)
]

next_run-eq-run_of :
    (lcn : ℤ) (e : Entry)
    → IsEntry e
    → IsLcn lcn
    → next_run (le_value e.count_bytes) (le_value e.delta_bytes) (length e.delta_bytes) lcn
      ≡ run_of lcn e
unfolding next_run run_of
next_run-eq-run_of lcn e he hl = elim (Bool-cases (length e.delta_bytes == 0)) [
  | inl z ↦ rw z
  | inr nz ↦
      let n = length e.delta_bytes in
      let v = le_value e.delta_bytes in
      let some_delta : 1 ≤ n = ground arith in
      let small : v < 2 ^ (8 * n) = le_value-lt_pow e.delta_bytes he.delta_bytes in
      rw (nz, sign_extend_lem v n some_delta he.delta_eight small)
        (place_at (le_value e.count_bytes) (checked_add lcn (signed n v)) (lcn +ℤ signed n v) (
          checked_add_lem lcn (signed n v) (IsInt64-lcn lcn hl)
            (IsInt64-signed n v some_delta he.delta_eight small)))
]

placed-IsLcn :
    (count : ℕ) (z : ℤ) {run : DataRun} {next : ℤ} → placed count z ≡ some (run, next) → IsLcn next
placed-IsLcn count (pos k) {run} {next} h = elim (Bool-cases (ltb k (2 ^ 63))) [
  | inl t ↦ subst IsLcn {x = pos k} (cc (rw t at h)) (ltb→lt k (2 ^ 63) t)
  | inr f ↦ cc (rw f at h)
]
placed-IsLcn count (negsuc k) h = cc

pub run_of-IsLcn :
    (lcn : ℤ) (e : Entry) {run : DataRun} {next : ℤ}
    → IsLcn lcn
    → run_of lcn e ≡ some (run, next)
    → IsLcn next
unfolding run_of
run_of-IsLcn lcn e {run} {next} hl h = elim (Bool-cases (length e.delta_bytes == 0)) [
  | inl z ↦ subst IsLcn {x = lcn} (cc (rw z at h)) hl
  | inr nz ↦
      placed-IsLcn (le_value e.count_bytes)
        (lcn +ℤ signed (length e.delta_bytes) (le_value e.delta_bytes)) (rw nz at h)
]

-- One entry is read as its run.
pub read_run-entry :
    (bytes : List ℕ) (offset end : ℕ) (lcn : ℤ) (e : Entry) (rest : List ℕ)
    → All IsByte bytes
    → IsEntry e
    → IsLcn lcn
    → drop offset bytes ≡ e.count_bytes ++ (e.delta_bytes ++ rest)
    → offset + length e.count_bytes + length e.delta_bytes ≤ end
    → end ≤ length bytes
    → read_run bytes offset end lcn (length e.count_bytes + 16 * length e.delta_bytes)
      ≡ got (with_offset (offset + length e.count_bytes + length e.delta_bytes) (run_of lcn e))
unfolding read_run
read_run-entry bytes offset end lcn e rest hb he hl ed hend hlen =
    let lc = length e.count_bytes in
    let ld = length e.delta_bytes in
    let (count, after) = slice-eq bytes e.count_bytes (e.delta_bytes ++ rest) offset ed in
    let (delta, _) = slice-eq bytes e.delta_bytes rest (offset + lc) after in
    let (c, _) = le_loop-eq lc bytes offset hb (omega arith) he.count_eight in
    let (d, _) = le_loop-eq ld bytes (offset + lc) hb (omega arith) he.delta_eight in
    rw (
      low_nibble lc ld he.count_eight,
      high_nibble lc ld he.count_eight he.delta_eight,
      passes lc ld offset end he.count_some he.count_eight he.delta_eight hend,
      c,
      d,
      count,
      delta,
      next_run-eq-run_of lcn e he hl,
    )
  where
    low_nibble : (a b : ℕ) → a ≤ 8 → bit_and (a + 16 * b) 0x0F ≡ a
    low_nibble a b h = bit_and_mask 4 (a + 16 * b) ∙ omega arith

    high_nibble : (a b : ℕ) → a ≤ 8 → b ≤ 8 → bit_and ((a + 16 * b) / 2 ^ 4) 0x0F ≡ b
    high_nibble a b h k = bit_and_mask 4 ((a + 16 * b) / 2 ^ 4) ∙ omega arith

    passes :
        (a b o end : ℕ)
        → 1 ≤ a
        → a ≤ 8
        → b ≤ 8
        → o + a + b ≤ end
        → (a == 0 || ltb 8 a || ltb 8 b || ltb end (o + a + b)) ≡ false
    passes a b o end h k l m = ground arith
