-- ===== src/Mft/Runs/Encoding.antt =====
-- The run list's encoding, and the parser as its inverse.
use mathlib.Core.Option
use just_give_my_disk.Common.{
  ℕ, zero, suc, ◌+◌, ◌*◌, ◌<◌, ◌≤◌, ◌≡◌, refl, sym, ap, ◌∙◌, false, Option, Option-cases, none,
  some, List, [], ◌∷◌, ◌++◌, append_assoc, append-nil, length, length-append, drop, All, ◌==◌, inl,
  inr, arith, lt→ltb, got,
}
use just_give_my_disk.Common.Bytes.{IsByte, drop-eq-cons}
use just_give_my_disk.Common.Int.{ℤ, pos}
use just_give_my_disk.Mft.{DataRun}
use just_give_my_disk.Mft.Runs.{runs_loop, parse_data_runs}
use just_give_my_disk.Mft.Runs.Safety.{IsLcn}
use just_give_my_disk.Mft.Runs.Entries.{
  Entry, IsEntry, encode, run_of, runs_of, slice-eq, run_of-IsLcn, read_run-entry,
}

header_pos : (e : Entry) → IsEntry e → 0 < length e.count_bytes + 16 * length e.delta_bytes
header_pos e he = omega (arith, he.count_some)

plus_one : (n : ℕ) → n + 1 ≡ suc n
plus_one n = omega arith

regroup : (a b c d : List ℕ) → (a ++ (b ++ c)) ++ d ≡ a ++ (b ++ (c ++ d))
regroup a b c d = simp append_assoc

entry_end :
    (bytes xs ys zs : List ℕ) (offset : ℕ)
    → drop offset bytes ≡ xs ++ (ys ++ zs)
    → drop (offset + length xs + length ys) bytes ≡ zs
entry_end bytes xs ys zs offset e =
    (slice-eq bytes ys zs (offset + length xs) (slice-eq bytes xs (ys ++ zs) offset e).1).1

not_zero : (n : ℕ) → 0 < n → (n == 0) ≡ false
not_zero n h = ground arith

runs_of-some :
    (lcn : ℤ) (e : Entry) (es : List Entry) {run : DataRun} {next : ℤ}
    → run_of lcn e ≡ some (run, next)
    → runs_of lcn (e ∷ es) ≡ Option.map (λ runs. run ∷ runs) (runs_of next es)
unfolding runs_of
runs_of-some lcn e es r = rw (r, runs_of)

runs_of-none :
    (lcn : ℤ) (e : Entry) (es : List Entry) → run_of lcn e ≡ none → runs_of lcn (e ∷ es) ≡ none
unfolding runs_of
runs_of-none lcn e es r = rw (r, runs_of)

map_snoc :
    (runs : List DataRun) (run : DataRun) (o : Option (List DataRun))
    → Option.map (λ rs. (runs ++ (run ∷ [])) ++ rs) o
      ≡ Option.map (λ rs. runs ++ rs) (Option.map (λ rs. run ∷ rs) o)
map_snoc runs run none = refl
map_snoc runs run (some rs) = ap some (append_assoc runs (run ∷ []) rs)

length-encode :
    (e : Entry) (es : List Entry)
    → length (encode (e ∷ es))
      ≡ suc (length e.count_bytes + (length e.delta_bytes + length (encode es)))
unfolding encode
length-encode e es = ap suc (
    length-append e.count_bytes _
    ∙ ap (λ (t : ℕ). length e.count_bytes + t) (length-append e.delta_bytes _))

length-encode-le : (es : List Entry) → All IsEntry es → length es ≤ length (encode es)
length-encode-le [] h = omega arith
length-encode-le (e ∷ es) h = omega (arith, length-encode e es, length-encode-le es h.1)

-- The loop on the encoding of entries.
runs_loop-encode :
    (es : List Entry) (fuel : ℕ) (bytes : List ℕ) (offset end : ℕ) (lcn : ℤ) (runs : List DataRun)
    (rest : List ℕ)
    → All IsByte bytes
    → All IsEntry es
    → IsLcn lcn
    → drop offset bytes ≡ encode es ++ rest
    → offset + length (encode es) ≤ end
    → end ≤ length bytes
    → length es < fuel
    → runs_loop fuel bytes offset end lcn runs
      ≡ got (Option.map (λ rs. runs ++ rs) (runs_of lcn es))
unfolding runs_loop encode
runs_loop-encode es zero bytes offset end lcn runs rest hb he hl ed hend hlen hf = elim hf [ ]
runs_loop-encode [] (suc fuel) bytes offset end lcn runs rest hb he hl ed hend hlen hf =
    let (first, _) = drop-eq-cons bytes offset ed in
    rw (lt→ltb offset end (omega arith), first)
      (unfold runs_of in ap got (ap some (sym (append-nil runs))))
runs_loop-encode (e ∷ es) (suc fuel) bytes offset end lcn runs rest hb he hl ed hend hlen hf =
    let head = length e.count_bytes + 16 * length e.delta_bytes in
    let next_offset = offset + 1 + length e.count_bytes + length e.delta_bytes in
    let tail = e.count_bytes ++ (e.delta_bytes ++ encode es) in
    let ed' : drop offset bytes ≡ head ∷ (tail ++ rest) = ed ∙ ap (λ (t : List ℕ). head ∷ t) refl in
    let (first, after) = drop-eq-cons bytes offset ed' in
    let after' : drop (offset + 1) bytes ≡ e.count_bytes ++ (e.delta_bytes ++ (encode es ++ rest)) =
      ap (λ (t : ℕ). drop t bytes) (plus_one offset)
      ∙ after
      ∙ regroup e.count_bytes e.delta_bytes (encode es) rest in
    let size : length (encode (e ∷ es))
        ≡ suc (length e.count_bytes + (length e.delta_bytes + length (encode es))) =
      length-encode e es in
    elim (Option-cases (run_of lcn e)) [
      | inl ((run, next), r) ↦
          rw
            (
              lt→ltb offset end (omega arith),
              first,
              not_zero head (header_pos e he.0),
              read_run-entry bytes (offset + 1) end lcn e (encode es ++ rest) hb he.0 hl after'
                  (omega arith) hlen,
              r,
            )
            (runs_loop-encode es fuel bytes next_offset end next (runs ++ (run ∷ [])) rest hb he.1
                (run_of-IsLcn lcn e hl r)
                (entry_end bytes e.count_bytes e.delta_bytes (encode es ++ rest) (offset + 1)
                  after')
                (omega arith) hlen (omega arith)
              ∙ ap got (
                  map_snoc runs run (runs_of next es)
                  ∙ ap (Option.map (λ rs. runs ++ rs)) (sym (runs_of-some lcn e es r))))
      | inr r ↦
          rw
            (
              lt→ltb offset end (omega arith),
              first,
              not_zero head (header_pos e he.0),
              read_run-entry bytes (offset + 1) end lcn e (encode es ++ rest) hb he.0 hl after'
                  (omega arith) hlen,
              r,
            )
            (ap got (ap (Option.map (λ rs. runs ++ rs)) (sym (runs_of-none lcn e es r))))
    ]

-- On the encoding of any entries, the parser returns their runs, each behind the cluster number
-- of the one before; it refuses the list where a cluster number leaves the range [0, 2 ^ 63).
pub parse_data_runs-encode :
    (es : List Entry) (bytes : List ℕ) (offset end : ℕ) (rest : List ℕ)
    → All IsByte bytes
    → All IsEntry es
    → drop offset bytes ≡ encode es ++ rest
    → offset + length (encode es) ≤ end
    → end ≤ length bytes
    → parse_data_runs bytes offset end ≡ got (runs_of (pos 0) es)
unfolding parse_data_runs
parse_data_runs-encode es bytes offset end rest hb he ed hend hlen =
    runs_loop-encode es (end + 1) bytes offset end (pos 0) [] rest hb he (omega arith) ed hend hlen
      (omega (arith, length-encode-le es he))
    ∙ ap got (map_nil (runs_of (pos 0) es))
  where
    map_nil : (o : Option (List DataRun)) → Option.map (λ rs. [] ++ rs) o ≡ o
    map_nil none = refl
    map_nil (some rs) = refl
