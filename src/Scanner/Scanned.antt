-- ===== src/Scanner/Scanned.antt =====
-- What `Scanner::run` has stored and counted when it ends.
use just_give_my_disk.Common.{
  ℕ, zero, suc, ◌+◌, ◌*◌, ◌/◌, ◌%◌, ◌^◌, ◌<◌, ◌≡◌, refl, sym, ap, ◌∙◌, ◌⊎◌, inl, inr, true, false,
  Option, List, [], ◌∷◌, ◌++◌, All, length, length-append, append_assoc, append-nil, ltb, lt→ltb,
  arith, Bool-cases,
}
use just_give_my_disk.Mft.{record_size}
use just_give_my_disk.Output.Result.{
  Result, ok, and_then, or_throw, Ends, ends_ok, Ends-weaken, Ends-and_then, Ends-or_throw,
}
use just_give_my_disk.Scanner.{Device, IsDevice, Kept, Entry, ScanStats, no_stats, scan_loop, run}
use just_give_my_disk.Scanner.Reference.{
  flatten, length-flatten, IsBlock, block_record, record_entries, entries, Tally, block_tally,
  tally, tally-length, IsStats, IsTallied, IsTallied-zero, IsTallied-trans, IsTallied-IsStats,
}
use just_give_my_disk.Scanner.Fill.{IsFilled, IsFlushed, fill-IsFilled, lt_true, lt_false}
use just_give_my_disk.Scanner.Names.{IsInserted, scan_buffer-Inserts}

-- Texts that are equal are equal part by part, where the first parts are of one length.
append_injective : (a b c d : List ℕ) → length a ≡ length b → a ++ c ≡ b ++ d → (a ≡ b) × (c ≡ d)
append_injective [] [] c d l e = (refl, e)
append_injective [] (y ∷ b) c d l e = absurd (omega (arith, l))
append_injective (x ∷ a) [] c d l e = absurd (omega (arith, l))
append_injective (x ∷ a) (y ∷ b) c d l e =
    let r = append_injective a b c d (omega (arith, l)) (cc e) in
    let h : x ≡ y = cc e in (rw (h, r.0) refl, r.1)

module _ (D : Device) (law : IsDevice D) (target : Option (List ℕ)) where
  open D use {World, rest, rows, committed, begin, commit}

  -- What is in the database for good after an exception: what was there, and with it, if the commit of
  -- an interrupted scan went through, the entries of the blocks before the one that was not read.
  pub record IsPartial (w : World) (offset : ℕ) (blocks : List (List ℕ)) (v : World) : Type 0 where
    pub done : List (List ℕ)
    pub others : List (List ℕ)
    pub split : blocks ≡ done ++ others
    pub stored : (committed v ≡ committed w) ⊎ (committed v ≡ rows w ++ entries offset done)

  -- All blocks are handled.
  pub record IsComplete (w : World) (offset : ℕ) (blocks : List (List ℕ)) (stats : ScanStats)
      (stats' : ScanStats) (v : World) : Type 0 where
    pub inserted : rows v ≡ rows w ++ entries offset blocks
    pub not_committed : committed v ≡ committed w
    pub scanned : stats'.bytes_scanned ≡ offset + record_size * length blocks
    pub tallied : IsTallied stats (tally target offset blocks) stats'

  abbrev Scans : World → ℕ → List (List ℕ) → ScanStats → Result ScanStats × World → Type 0
  Scans w offset blocks stats = Ends (IsComplete w offset blocks stats) (IsPartial w offset blocks)

  unchanged :
      (w : World) (offset : ℕ) (blocks : List (List ℕ)) (v : World)
      → committed v ≡ committed w
      → IsPartial w offset blocks v
  unchanged w offset blocks v e = record {
    done = [];
    others = blocks;
    split = refl;
    stored = inl e;
  }

  flushed :
      (w : World) (offset : ℕ) (blocks : List (List ℕ)) (v : World)
      → IsFlushed D law w v
      → IsPartial w offset blocks v
  unfolding entries
  flushed w offset blocks v (inl e) = unchanged w offset blocks v e
  flushed w offset blocks v (inr e) = record {
    done = [];
    others = blocks;
    split = refl;
    stored = inr (e ∙ sym (append-nil (rows w)));
  }

  same_counts :
      {b stats : ScanStats} {o : ℕ} {t : Tally}
      → IsTallied (record b { bytes_scanned = o }) t stats
      → IsTallied b t stats
  same_counts h = record {
    signatures = h.signatures;
    records = h.records;
    names = h.names;
    matches = h.matches;
  }

  -- The rounds behind a block.
  Scans-cons :
      (w v u : World) (offset o : ℕ) (block : List ℕ) (blocks : List (List ℕ)) (a b : ScanStats)
      (m : Result ScanStats × World)
      → Kept D w v
      → IsInserted D law v a
          (record_entries (block_record block offset))
          (block_tally target block offset)
          b
          u
      → Scans u (offset + record_size) blocks (record b { bytes_scanned = o }) m
      → Scans w offset (block ∷ blocks) a m
  unfolding entries tally
  Scans-cons w v u offset o block blocks a b m k i h =
      Ends-weaken h
        (λ stats x s. record {
          inserted = s.inserted ∙ added (entries (offset + record_size) blocks);
          not_committed = s.not_committed ∙ i.not_committed ∙ k.1;
          scanned = omega (arith, s.scanned);
          tallied =
              IsTallied-trans a b stats (block_tally target block offset)
                (tally target (offset + record_size) blocks) i.tallied (same_counts s.tallied);
        })
        (λ x p. record {
          done = block ∷ p.done;
          others = p.others;
          split = ap (λ bs. block ∷ bs) p.split;
          stored = elim p.stored [
            | inl e ↦ inl (e ∙ i.not_committed ∙ k.1)
            | inr e ↦ inr (e ∙ added (entries (offset + record_size) p.done))
          ];
        })
    where
      added :
          (more : List Entry)
          → rows u ++ more ≡ rows w ++ (record_entries (block_record block offset) ++ more)
      added more =
          ap (λ r. r ++ more)
            (i.inserted ∙ ap (λ r. r ++ record_entries (block_record block offset)) k.0)
          ∙ append_assoc (rows w) (record_entries (block_record block offset)) more

  -- What the buffer holds, where a block is left, and where none is.
  filled_block :
      (w v : World) (buffer block : List ℕ) (more : List ℕ)
      → IsFilled D law [] w buffer v
      → length block ≡ record_size
      → rest w ≡ block ++ more
      → (ltb (length buffer) record_size ≡ false) × (buffer ≡ block) × (rest v ≡ more)
  filled_block w v buffer block more f l r = elim (Bool-cases (ltb (length buffer) record_size)) [
    | inl t ↦
        let e = f.at_end (lt_true _ _ t) in
        absurd (
          omega (
            arith,
            lt_true _ _ t,
            length-append block more,
            l,
            ap length (sym (append-nil buffer) ∙ ap (λ t. buffer ++ t) (sym e) ∙ f.taken ∙ r),
          ))
    | inr g ↦
        let full : length buffer ≡ length block = omega (arith, lt_false _ _ g, f.fits, l) in
        let p = append_injective buffer block (rest v) more full (f.taken ∙ r) in (g, p.0, p.1)
  ]

  filled_tail :
      (w v : World) (buffer tail : List ℕ)
      → IsFilled D law [] w buffer v
      → length tail < record_size
      → rest w ≡ tail
      → ltb (length buffer) record_size ≡ true
  filled_tail w v buffer tail f l r =
      let e = ap length (f.taken ∙ r) in
      lt→ltb _ _ (omega (arith, l, e, length-append buffer (rest v)))

  IsComplete-nil :
      (w v : World) (offset : ℕ) (stats : ScanStats)
      → Kept D w v
      → IsStats stats
      → stats.bytes_scanned ≡ offset
      → IsComplete w offset [] stats stats v
  unfolding entries tally
  IsComplete-nil w v offset stats k hs hn = record {
    inserted = k.0 ∙ sym (append-nil (rows w));
    not_committed = k.1;
    scanned = omega (arith, hn);
    tallied = IsTallied-zero stats hs;
  }

  same-IsStats : {s : ScanStats} {o : ℕ} → IsStats s → IsStats (record s { bytes_scanned = o })
  same-IsStats h = record {
    signatures = h.signatures;
    records = h.records;
    names = h.names;
    matches = h.matches;
  }

  scan_loop_lem :
      (fuel : ℕ) (w : World) (offset : ℕ) (blocks : List (List ℕ)) (tail : List ℕ)
      (stats : ScanStats)
      → length blocks < fuel
      → All IsBlock blocks
      → length tail < record_size
      → rest w ≡ flatten blocks ++ tail
      → offset + record_size * length blocks < 2 ^ 64
      → IsStats stats
      → stats.bytes_scanned ≡ offset
      → Scans w offset blocks stats (scan_loop D fuel target offset stats w)
  unfolding scan_loop
  scan_loop_lem zero w offset blocks tail stats hf hb ht r ho hs hn = elim hf [ ]
  scan_loop_lem (suc fuel) w offset [] tail stats hf hb ht r ho hs hn =
      Ends-and_then
        (Ends-weaken (fill-IsFilled D law w) (λ b v f. f) (λ v e. flushed w offset [] v e))
        (λ buffer v f.
          rw (filled_tail w v buffer tail f ht r)
            (ends_ok (IsComplete-nil w v offset stats f.kept hs hn)))
  scan_loop_lem (suc fuel) w offset (block ∷ blocks) tail stats hf hb ht r ho hs hn =
      Ends-and_then
        (Ends-weaken (fill-IsFilled D law w) (λ b v f. f)
          (λ v e. flushed w offset (block ∷ blocks) v e))
        (λ buffer v f.
          let b =
            filled_block w v buffer block (flatten blocks ++ tail) f (hb.0).0
              (r ∙ append_assoc block (flatten blocks) tail) in
          let next : (offset + record_size) % 2 ^ 64 ≡ offset + record_size = omega (arith, ho) in
          rw (b.0, b.1)
            (Ends-and_then
              (Ends-weaken (scan_buffer-Inserts D law target block offset stats v hb.0 hs)
                (λ s u i. i) (λ u e. unchanged w offset (block ∷ blocks) u (e ∙ f.kept.1)))
              (λ s u i. rw next (
                Scans-cons w v u offset (offset + record_size) block blocks stats s _ f.kept i (
                  scan_loop_lem fuel u (offset + record_size) blocks tail
                    (record s { bytes_scanned = offset + record_size }) (omega (arith, hf)) hb.1 ht
                    (i.position ∙ b.2) (omega (arith, ho))
                    (same-IsStats (IsTallied-IsStats stats s _ i.tallied)) refl)))))

  -- What the scan of the blocks has stored and counted.
  pub record IsScanned (w : World) (blocks : List (List ℕ)) (stats : ScanStats) (v : World)
      : Type 0 where
    pub stored : committed v ≡ rows w ++ entries 0 blocks
    pub bytes_scanned : stats.bytes_scanned ≡ record_size * length blocks
    pub candidates : stats.candidate_file_signatures ≡ (tally target 0 blocks).signatures % 2 ^ 64
    pub valid : stats.valid_records ≡ (tally target 0 blocks).records % 2 ^ 64
    pub names : stats.inserted_names ≡ length (entries 0 blocks) % 2 ^ 64
    pub matches : stats.target_matches ≡ (tally target 0 blocks).matches % 2 ^ 64

  finish :
      (w v u : World) (blocks : List (List ℕ)) (stats : ScanStats)
      → Kept D w v
      → IsComplete v 0 blocks no_stats stats u
      → Ends
          (IsScanned w blocks)
          (IsPartial w 0 blocks)
          (and_then (or_throw (commit u)) (λ _ t. (ok stats, t)))
  finish w v u blocks stats k c =
      Ends-and_then
        (Ends-or_throw (commit u).0 (commit u).1 (λ a e. law.commit_done u e)
          (λ e h.
            unchanged w 0 blocks (commit u).1 (law.commit_failed u e h ∙ c.not_committed ∙ k.1)))
        (λ _ t h. ends_ok (record {
          stored = h ∙ c.inserted ∙ ap (λ r. r ++ entries 0 blocks) k.0;
          bytes_scanned = omega (arith, c.scanned);
          candidates = omega (arith, (c.tallied).signatures);
          valid = omega (arith, (c.tallied).records);
          names = omega (arith, (c.tallied).names, tally-length target 0 blocks);
          matches = omega (arith, (c.tallied).matches);
        }))

  IsPartial-trans :
      (w v : World) (blocks : List (List ℕ)) (u : World)
      → Kept D w v
      → IsPartial v 0 blocks u
      → IsPartial w 0 blocks u
  IsPartial-trans w v blocks u k p = record {
    done = p.done;
    others = p.others;
    split = p.split;
    stored = elim p.stored [
      | inl e ↦ inl (e ∙ k.1)
      | inr e ↦ inr (e ∙ ap (λ r. r ++ entries 0 p.done) k.0)
    ];
  }

  begin-Kept :
      (w : World) (blocks : List (List ℕ))
      → Ends (λ _ v. Kept D w v × (rest v ≡ rest w)) (IsPartial w 0 blocks) (or_throw (begin w))
  begin-Kept w blocks =
      Ends-or_throw (begin w).0 (begin w).1 (λ a e. law.begin_kept w)
        (λ e h. unchanged w 0 blocks (begin w).1 (law.begin_kept w).0.1)

  enough :
      (v : World) (blocks : List (List ℕ)) (tail : List ℕ)
      → All IsBlock blocks
      → rest v ≡ flatten blocks ++ tail
      → length blocks < length (rest v) / record_size + 1
  enough v blocks tail hb r =
      omega (arith, ap length r, length-append (flatten blocks) tail, length-flatten blocks hb)

  no_stats-IsStats : IsStats no_stats
  no_stats-IsStats = record {
    signatures = omega arith;
    records = omega arith;
    names = omega arith;
    matches = omega arith;
  }

  -- On a source of whole blocks, shorter than 2 ^ 64 bytes, and a rest that is no block, the scan ends.
  -- If it returns, then exactly the names of the blocks' valid records are in the database, in order,
  -- behind what it held; all blocks were scanned, and each counter is the number that it counts, modulo
  -- 2 ^ 64. If it throws, the database is as it was, or it has the names of the first blocks besides.
  pub run-IsScanned :
      (w : World) (blocks : List (List ℕ)) (tail : List ℕ)
      → All IsBlock blocks
      → length tail < record_size
      → rest w ≡ flatten blocks ++ tail
      → record_size * length blocks < 2 ^ 64
      → Ends (IsScanned w blocks) (IsPartial w 0 blocks) (run D target w)
  unfolding run
  run-IsScanned w blocks tail hb ht r ho = Ends-and_then (begin-Kept w blocks) (λ _ v k.
      let r' = k.1 ∙ r in
      Ends-and_then
        (Ends-weaken
          (scan_loop_lem (length (rest v) / record_size + 1) v 0 blocks tail no_stats
            (enough v blocks tail hb r') hb ht r' (omega (arith, ho)) no_stats-IsStats refl)
          (λ stats u c. c) (λ u p. IsPartial-trans w v blocks u k.0 p))
        (λ stats u c. finish w v u blocks stats k.0 c))
