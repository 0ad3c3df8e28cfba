-- ===== src/Mft/Samples.antt =====
-- A record on which the parser's and the recovery's theorems are applied.
use just_give_my_disk.Common.{ℕ, List, [], ◌∷◌, refl, replicate, All}
use just_give_my_disk.Common.Bytes.{IsByte, are_bytes-All, patch}

-- Record 5 with one FILE_NAME attribute, "A" below record 9, and a DATA attribute of two bytes.
abbrev pub file_record : List ℕ
file_record = patch (replicate 1024 0) (
    (0, 0x46)
    ∷ (1, 0x49)
    ∷ (2, 0x4C)
    ∷ (3, 0x45)
    ∷ (4, 0x30)
    ∷ (6, 3)
    ∷ (0x14, 0x38)
    ∷ (0x16, 1)
    ∷ (0x2C, 5)
    ∷ (0x30, 1)
    ∷ (0x32, 0xAB)
    ∷ (510, 1)
    ∷ (1022, 1)
    ∷ (0x38, 0x30)
    ∷ (0x3C, 112)
    ∷ (0x48, 68)
    ∷ (0x4C, 24)
    ∷ (80, 9)
    ∷ (144, 1)
    ∷ (145, 3)
    ∷ (146, 0x41)
    ∷ (168, 0x80)
    ∷ (172, 32)
    ∷ (184, 2)
    ∷ (188, 24)
    ∷ (192, 0x68)
    ∷ (193, 0x69)
    ∷ (200, 0xFF)
    ∷ (201, 0xFF)
    ∷ (202, 0xFF)
    ∷ (203, 0xFF)
    ∷ [])

pub file_record-IsByte : All IsByte file_record
file_record-IsByte = are_bytes-All file_record refl
