-- ===== src/Scanner/Reference.antt =====
-- What a scan is to find: the source as its records' blocks, and the entries and counts of these.
use just_give_my_disk.Common.{
  ℕ, ◌+◌, ◌*◌, ◌%◌, ◌^◌, ◌<◌, ◌≡◌, refl, Bool, true, false, Option, none, some, List, [], ◌∷◌, ◌++◌,
  All, length, length-append, arith, if◌then◌else◌, Access, got, fault, stuck,
}
use just_give_my_disk.Common.Bytes.{IsByte}
use just_give_my_disk.Mft.{MftRecord, MftFileName, record_size}
use just_give_my_disk.Mft.Read.{has_signature}
use just_give_my_disk.Mft.Names.{parse}
use just_give_my_disk.Scanner.{Entry, ScanStats, is_target}

-- The bytes of the blocks, one behind the other.
abbrev pub flatten : List (List ℕ) → List ℕ
flatten [] = []
flatten (block ∷ blocks) = block ++ flatten blocks

abbrev pub IsBlock : List ℕ → Type 0
IsBlock block = (length block ≡ record_size) × All IsByte block

pub length-flatten :
    (blocks : List (List ℕ))
    → All IsBlock blocks
    → length (flatten blocks) ≡ record_size * length blocks
length-flatten [] h = refl
length-flatten (block ∷ blocks) h =
    omega (arith, length-append block (flatten blocks), (h.0).0, length-flatten blocks h.1)

abbrev pub answer : Access Bool → Bool
answer (got b) = b
answer fault = false
answer stuck = false

abbrev pub signed : List ℕ → Bool
signed block = answer (has_signature block)

abbrev pub value : Access (Option MftRecord) → Option MftRecord
value (got found) = found
value fault = none
value stuck = none

-- The record of a block: one with the signature that the parser accepts.
abbrev pub block_record : List ℕ → ℕ → Option MftRecord
block_record block offset = if signed block then value (parse block offset) else none

abbrev pub name_entries : MftRecord → List MftFileName → List Entry
name_entries record_ [] = []
name_entries record_ (name ∷ names) = (record_, name) ∷ name_entries record_ names

abbrev pub record_entries : Option MftRecord → List Entry
record_entries none = []
record_entries (some record_) = name_entries record_ record_.names

-- The entries of the blocks from an offset on: every name of every record, in order.
unfoldable pub entries : ℕ → List (List ℕ) → List Entry
entries offset [] = []
entries offset (block ∷ blocks) =
    record_entries (block_record block offset) ++ entries (offset + record_size) blocks

pub record Tally : Type 0 where
  pub signatures : ℕ
  pub records : ℕ
  pub names : ℕ
  pub matches : ℕ

abbrev pub zero_tally : Tally
zero_tally = record { signatures = 0; records = 0; names = 0; matches = 0 }

abbrev pub plus : Tally → Tally → Tally
plus a b = record {
  signatures = a.signatures + b.signatures;
  records = a.records + b.records;
  names = a.names + b.names;
  matches = a.matches + b.matches;
}

abbrev pub one_name : Option (List ℕ) → MftFileName → Tally
one_name target name = record {
  signatures = 0;
  records = 0;
  names = 1;
  matches = if is_target target name then 1 else 0;
}

abbrev pub names_tally : Option (List ℕ) → List MftFileName → Tally
names_tally target [] = zero_tally
names_tally target (name ∷ names) = plus (one_name target name) (names_tally target names)

abbrev pub record_tally : Option (List ℕ) → Option MftRecord → Tally
record_tally target none = zero_tally
record_tally target (some record_) =
    plus (record { signatures = 0; records = 1; names = 0; matches = 0 })
      (names_tally target record_.names)

-- What a block adds to the counts.
abbrev pub block_tally : Option (List ℕ) → List ℕ → ℕ → Tally
block_tally target block offset =
    if signed block
    then plus (record { signatures = 1; records = 0; names = 0; matches = 0 })
        (record_tally target (value (parse block offset)))
    else zero_tally

unfoldable pub tally : Option (List ℕ) → ℕ → List (List ℕ) → Tally
tally target offset [] = zero_tally
tally target offset (block ∷ blocks) =
    plus (block_tally target block offset) (tally target (offset + record_size) blocks)

-- The counters are `std::uint64_t`.
pub record IsStats (stats : ScanStats) : Type 0 where
  pub signatures : stats.candidate_file_signatures < 2 ^ 64
  pub records : stats.valid_records < 2 ^ 64
  pub names : stats.inserted_names < 2 ^ 64
  pub matches : stats.target_matches < 2 ^ 64

-- The counters have grown by the counts, and wrap at 2 ^ 64.
pub record IsTallied (stats : ScanStats) (t : Tally) (stats' : ScanStats) : Type 0 where
  pub signatures :
      stats'.candidate_file_signatures ≡ (stats.candidate_file_signatures + t.signatures) % 2 ^ 64
  pub records : stats'.valid_records ≡ (stats.valid_records + t.records) % 2 ^ 64
  pub names : stats'.inserted_names ≡ (stats.inserted_names + t.names) % 2 ^ 64
  pub matches : stats'.target_matches ≡ (stats.target_matches + t.matches) % 2 ^ 64

pub IsTallied-zero : (stats : ScanStats) → IsStats stats → IsTallied stats zero_tally stats
IsTallied-zero stats h = record {
  signatures = omega (arith, h.signatures);
  records = omega (arith, h.records);
  names = omega (arith, h.names);
  matches = omega (arith, h.matches);
}

counted : (a b c k l : ℕ) → b ≡ (a + k) % 2 ^ 64 → c ≡ (b + l) % 2 ^ 64 → c ≡ (a + (k + l)) % 2 ^ 64
counted a b c k l h i = omega arith

pub IsTallied-trans :
    (a b c : ScanStats) (t u : Tally) → IsTallied a t b → IsTallied b u c → IsTallied a (plus t u) c
IsTallied-trans a b c t u h k = record {
  signatures = counted _ _ _ t.signatures u.signatures h.signatures k.signatures;
  records = counted _ _ _ t.records u.records h.records k.records;
  names = counted _ _ _ t.names u.names h.names k.names;
  matches = counted _ _ _ t.matches u.matches h.matches k.matches;
}

pub IsTallied-IsStats : (a b : ScanStats) (t : Tally) → IsTallied a t b → IsStats b
IsTallied-IsStats a b t h = record {
  signatures = omega (arith, h.signatures);
  records = omega (arith, h.records);
  names = omega (arith, h.names);
  matches = omega (arith, h.matches);
}

names_tally-length :
    (target : Option (List ℕ)) (record_ : MftRecord) (names : List MftFileName)
    → (names_tally target names).names ≡ length (name_entries record_ names)
names_tally-length target record_ [] = refl
names_tally-length target record_ (name ∷ names) =
    omega (arith, names_tally-length target record_ names)

block_tally-length :
    (target : Option (List ℕ)) (signature : Bool) (found : Option MftRecord)
    → (if signature
        then plus
            (record { signatures = 1; records = 0; names = 0; matches = 0 })
            (record_tally target found)
        else zero_tally).names
      ≡ length (record_entries (if signature then found else none))
block_tally-length target false found = refl
block_tally-length target true none = refl
block_tally-length target true (some record_) =
    omega (arith, names_tally-length target record_ record_.names)

-- The names that are counted are the entries.
pub tally-length :
    (target : Option (List ℕ)) (offset : ℕ) (blocks : List (List ℕ))
    → (tally target offset blocks).names ≡ length (entries offset blocks)
unfolding tally entries
tally-length target offset [] = refl
tally-length target offset (block ∷ blocks) = omega (
  arith,
  length-append (record_entries (block_record block offset))
      (entries (offset + record_size) blocks),
  block_tally-length target (signed block) (value (parse block offset)),
  tally-length target (offset + record_size) blocks,
)
