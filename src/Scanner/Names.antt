-- ===== src/Scanner/Names.antt =====
-- The handling of a full buffer: its entries are inserted and counted.
use just_give_my_disk.Common.{
  ℕ, ◌≡◌, refl, sym, ap, ◌∙◌, Bool, true, false, Option, none, some, List, [], ◌∷◌, ◌++◌,
  append_assoc, append-nil, arith, Access, if◌then◌else◌, Returns, returned,
}
use just_give_my_disk.Mft.{MftRecord, MftFileName}
use just_give_my_disk.Mft.Read.{has_signature}
use just_give_my_disk.Mft.Usa.Record.{has_signature-Returns}
use just_give_my_disk.Mft.Names.{parse}
use just_give_my_disk.Mft.Names.Parsed.{parse-IsParsed}
use just_give_my_disk.Output.Result.{
  Result, ok, of_access, and_then, or_throw, Ends, ends_ok, Ends-weaken, Ends-and_then,
  Ends-or_throw,
}
use just_give_my_disk.Scanner.{
  Device, IsDevice, Entry, ScanStats, count_name, count_record, count_signature, insert_names,
  parsed, scan_buffer,
}
use just_give_my_disk.Scanner.Reference.{
  IsBlock, answer, value, block_record, name_entries, record_entries, Tally, zero_tally, plus,
  one_name, names_tally, record_tally, block_tally, IsStats, IsTallied, IsTallied-zero,
  IsTallied-trans, IsTallied-IsStats,
}

count_name-IsTallied :
    (target : Option (List ℕ)) (name : MftFileName) (stats : ScanStats)
    → IsStats stats
    → IsTallied stats (one_name target name) (count_name target name stats)
count_name-IsTallied target name stats h = record {
  signatures = omega (arith, h.signatures);
  records = omega (arith, h.records);
  names = refl;
  matches = ground (arith, h.matches);
}

count_record-IsTallied :
    (stats : ScanStats)
    → IsStats stats
    → IsTallied stats
        (record { signatures = 0; records = 1; names = 0; matches = 0 })
        (count_record stats)
count_record-IsTallied stats h = record {
  signatures = omega (arith, h.signatures);
  records = refl;
  names = omega (arith, h.names);
  matches = omega (arith, h.matches);
}

count_signature-IsTallied :
    (stats : ScanStats)
    → IsStats stats
    → IsTallied stats
        (record { signatures = 1; records = 0; names = 0; matches = 0 })
        (count_signature stats)
count_signature-IsTallied stats h = record {
  signatures = refl;
  records = omega (arith, h.records);
  names = omega (arith, h.names);
  matches = omega (arith, h.matches);
}

module _ (D : Device) (law : IsDevice D) where
  open D use {World, rest, rows, committed, insert_record}

  -- The entries are inserted, not committed yet, and counted.
  pub record IsInserted (w : World) (stats : ScanStats) (found : List Entry) (t : Tally)
      (stats' : ScanStats) (v : World) : Type 0 where
    pub inserted : rows v ≡ rows w ++ found
    pub not_committed : committed v ≡ committed w
    pub position : rest v ≡ rest w
    pub tallied : IsTallied stats t stats'
    pub scanned : stats'.bytes_scanned ≡ stats.bytes_scanned

  abbrev pub Inserts : World → ScanStats → List Entry → Tally → Result ScanStats × World → Type 0
  Inserts w stats found t = Ends (IsInserted w stats found t) (λ v. committed v ≡ committed w)

  Inserts-trans :
      (w v : World) (a b : ScanStats) (found more : List Entry) (t u : Tally)
      (m : Result ScanStats × World)
      → IsInserted w a found t b v
      → Inserts v b more u m
      → Inserts w a (found ++ more) (plus t u) m
  Inserts-trans w v a b found more t u m h k =
      Ends-weaken k
        (λ c x i. record {
          inserted = i.inserted ∙ ap (λ r. r ++ more) h.inserted ∙ append_assoc (rows w) found more;
          not_committed = i.not_committed ∙ h.not_committed;
          position = i.position ∙ h.position;
          tallied = IsTallied-trans a b c t u h.tallied i.tallied;
          scanned = i.scanned ∙ h.scanned;
        })
        (λ x e. e ∙ h.not_committed)

  insert_name-IsInserted :
      (target : Option (List ℕ)) (record_ : MftRecord) (name : MftFileName) (stats : ScanStats)
      (w : World)
      → IsStats stats
      → Ends
          (λ _.
            IsInserted w stats
              ((record_, name) ∷ [])
              (one_name target name)
              (count_name target name stats))
          (λ v. committed v ≡ committed w)
          (or_throw (insert_record record_ name w))
  insert_name-IsInserted target record_ name stats w h =
      Ends-or_throw (insert_record record_ name w).0 (insert_record record_ name w).1
        (λ a e. record {
          inserted = (law.insert_done record_ name w e).0;
          not_committed = law.insert_committed record_ name w;
          position = (law.insert_done record_ name w e).1;
          tallied = count_name-IsTallied target name stats h;
          scanned = refl;
        })
        (λ e _. law.insert_committed record_ name w)

  nothing-IsInserted :
      (w : World) (stats : ScanStats) → IsStats stats → IsInserted w stats [] zero_tally stats w
  nothing-IsInserted w stats h = record {
    inserted = sym (append-nil (rows w));
    not_committed = refl;
    position = refl;
    tallied = IsTallied-zero stats h;
    scanned = refl;
  }

  insert_names-Inserts :
      (target : Option (List ℕ)) (record_ : MftRecord) (names : List MftFileName)
      (stats : ScanStats) (w : World)
      → IsStats stats
      → Inserts w stats
          (name_entries record_ names)
          (names_tally target names)
          (insert_names D target record_ names stats w)
  unfolding insert_names
  insert_names-Inserts target record_ [] stats w h = ends_ok (nothing-IsInserted w stats h)
  insert_names-Inserts target record_ (name ∷ names) stats w h =
      Ends-and_then (insert_name-IsInserted target record_ name stats w h) (λ _ v i.
        Inserts-trans w v stats (count_name target name stats) ((record_, name) ∷ [])
          (name_entries record_ names) _ (names_tally target names) _ i
          (insert_names-Inserts target record_ names (count_name target name stats) v
            (IsTallied-IsStats stats _ _ i.tallied)))

  -- The counters alone.
  counted :
      (w : World) (a b : ScanStats) (t : Tally)
      → IsTallied a t b
      → b.bytes_scanned ≡ a.bytes_scanned
      → IsInserted w a [] t b w
  counted w a b t h e = record {
    inserted = sym (append-nil (rows w));
    not_committed = refl;
    position = refl;
    tallied = h;
    scanned = e;
  }

  parsed-Inserts :
      (target : Option (List ℕ)) (found : Option MftRecord) (stats : ScanStats) (w : World)
      → IsStats stats
      → Inserts w stats
          (record_entries found)
          (record_tally target found)
          (parsed D target stats found w)
  parsed-Inserts target none stats w h = ends_ok (nothing-IsInserted w stats h)
  parsed-Inserts target (some record_) stats w h =
      let i = count_record-IsTallied stats h in
      Inserts-trans w w stats (count_record stats) [] (name_entries record_ record_.names) _
        (names_tally target record_.names) _ (counted w stats (count_record stats) _ i refl)
        (insert_names-Inserts target record_ record_.names (count_record stats) w
          (IsTallied-IsStats stats _ _ i))

  signature-Inserts :
      (target : Option (List ℕ)) (signature : Bool) (found : Option MftRecord) (stats : ScanStats)
      (w : World)
      → IsStats stats
      → Inserts w stats
          (record_entries (if signature then found else none))
          (if signature
            then plus
                (record { signatures = 1; records = 0; names = 0; matches = 0 })
                (record_tally target found)
            else zero_tally)
          (elim signature [
            | true ↦ parsed D target (count_signature stats) found w
            | false ↦ (ok stats, w)
          ])
  signature-Inserts target false found stats w h = ends_ok (nothing-IsInserted w stats h)
  signature-Inserts target true found stats w h =
      let i = count_signature-IsTallied stats h in
      Inserts-trans w w stats (count_signature stats) [] (record_entries found) _
        (record_tally target found) _ (counted w stats (count_signature stats) _ i refl)
        (parsed-Inserts target found (count_signature stats) w (IsTallied-IsStats stats _ _ i))

  found-Inserts :
      {P : Bool → Type 0} {Q : Option MftRecord → Type 0} (target : Option (List ℕ))
      (signature : Access Bool) (found : Access (Option MftRecord)) (stats : ScanStats) (w : World)
      → Returns P signature
      → Returns Q found
      → IsStats stats
      → Inserts w stats
          (record_entries (if answer signature then value found else none))
          (if answer signature
            then plus
                (record { signatures = 1; records = 0; names = 0; matches = 0 })
                (record_tally target (value found))
            else zero_tally)
          (and_then
            (of_access signature, w)
            (λ b v. elim b [
              | true ↦ and_then (of_access found, v) (parsed D target (count_signature stats))
              | false ↦ (ok stats, v)
            ]))
  found-Inserts target _ _ stats w (returned {a = signature} _) (returned {a = found} _) h =
      signature-Inserts target signature found stats w h

  -- A block whose record's names are inserted and counted.
  pub scan_buffer-Inserts :
      (target : Option (List ℕ)) (block : List ℕ) (offset : ℕ) (stats : ScanStats) (w : World)
      → IsBlock block
      → IsStats stats
      → Inserts w stats
          (record_entries (block_record block offset))
          (block_tally target block offset)
          (scan_buffer D target block offset stats w)
  unfolding scan_buffer
  scan_buffer-Inserts target block offset stats w b h =
      found-Inserts target (has_signature block) (parse block offset) stats w
        (has_signature-Returns block (omega (arith, b.0))) (parse-IsParsed block offset b.1) h
