-- ===== src/Tui/Devices/Detected.antt =====
-- The devices that are offered: allowed paths only, and each of them once.
use mathlib.Core.List.{Memᴰ}
use just_give_my_disk.Common.{
  ℕ, ◌≡◌, ◌≢◌, refl, Bool, true, false, List, [], ◌∷◌, All, Permᴰ-All, Bool-cases, inl, inr,
}
use just_give_my_disk.Common.Sorting
use just_give_my_disk.Common.Strings.{str_eq, str_lt, str_lt-ne, str_lt_trans}
use just_give_my_disk.Tui.Json.{json_objects}
use just_give_my_disk.Tui.Devices.Named.{
  Names, HasPath, IsNamed, list_devices-All, Permᴰ-HasPath, unique-HasPath, list_devices-HasPath,
}
use just_give_my_disk.Tui.Devices.Blocks.{
  IsBlock, IsOffered, sys_devices-All, sys_devices-IsOffered,
}
use just_give_my_disk.Tui.Devices.{
  BlockDevice, allowed_block_path, dev_path, device_of, list_devices, unique_after, unique, or_sys,
  lsblk_devices, detect_devices,
}

abbrev IsAllowed : BlockDevice → Type 0
IsAllowed device = allowed_block_path device.path ≡ true

-- The comparison of `std::sort`.
abbrev pub path_before : BlockDevice → BlockDevice → Bool
path_before x y = str_lt x.path y.path

abbrev IsSorted : List BlockDevice → Type 0
IsSorted = Sorting.IsSorted path_before

-- Every device has a path before all later ones'.
abbrev pub IsAscending : List BlockDevice → Type 0
IsAscending [] = Unit {0}
IsAscending (x ∷ xs) = All (λ y. str_lt x.path y.path ≡ true) xs × IsAscending xs

abbrev pub IsSorting : (List BlockDevice → List BlockDevice) → Type 0
IsSorting = Sorting.IsSorting path_before

module _ (P : BlockDevice → Type 0) where
  unique_after-All :
      (last : BlockDevice) (xs : List BlockDevice) → All P xs → All P (unique_after last xs)
  unfolding unique_after
  unique_after-All last [] h = tt
  unique_after-All last (x ∷ xs) h = elim (Bool-cases (str_eq last.path x.path)) [
    | inl t ↦ rw t (unique_after-All last xs h.1)
    | inr f ↦ rw f (h.0, unique_after-All x xs h.1)
  ]

  unique-All : (xs : List BlockDevice) → All P xs → All P (unique xs)
  unique-All [] h = tt
  unique-All (x ∷ xs) h = (h.0, unique_after-All x xs h.1)

all_behind :
    (x y : BlockDevice) (zs : List BlockDevice)
    → str_lt x.path y.path ≡ true
    → All (λ z. str_lt y.path z.path ≡ true) zs
    → All (λ z. str_lt x.path z.path ≡ true) zs
all_behind x y [] h k = tt
all_behind x y (z ∷ zs) h k = (str_lt_trans x.path y.path z.path h k.0, all_behind x y zs h k.1)

unique_after-IsAscending :
    (last : BlockDevice) (xs : List BlockDevice)
    → All (λ y. str_lt y.path last.path ≡ false) xs
    → IsSorted xs
    → All (λ y. str_lt last.path y.path ≡ true) (unique_after last xs)
      × IsAscending (unique_after last xs)
unfolding unique_after
unique_after-IsAscending last [] h s = (tt, tt)
unique_after-IsAscending last (x ∷ xs) h s = elim (Bool-cases (str_eq last.path x.path)) [
  | inl t ↦ rw t (unique_after-IsAscending last xs h.1 s.1)
  | inr f ↦
      let less = str_lt-ne last.path x.path h.0 f in
      let rest = unique_after-IsAscending x xs s.0 s.1 in
      rw f ((less, all_behind last x _ less rest.0), rest)
]

unique-IsAscending : (xs : List BlockDevice) → IsSorted xs → IsAscending (unique xs)
unique-IsAscending [] s = tt
unique-IsAscending (x ∷ xs) s = unique_after-IsAscending x xs s.0 s.1

-- Where the devices come from: from `lsblk`, every path that it names once and in order; or, where
-- it names none, from /sys/block.
pub data IsFrom (human_size : List ℕ → List ℕ) (objects : List (List ℕ))
    (entries : List (List ℕ × List (List ℕ))) (devices : List BlockDevice) : Type 0 where
  from_lsblk :
      devices ≢ []
      → All (IsNamed human_size objects) devices
      → ((object path : List ℕ) → Names objects object path → HasPath path devices)
      → IsAscending devices
      → IsFrom human_size objects entries devices
  from_sys :
      ((object path : List ℕ) → ¬ (Names objects object path))
      → All (IsBlock entries) devices
      → ((name : List ℕ) (children : List (List ℕ))
          → Memᴰ (name, children) entries
          → allowed_block_path (dev_path name) ≡ true
          → IsOffered devices name children)
      → IsFrom human_size objects entries devices

pub record IsDetected (human_size : List ℕ → List ℕ) (json : List ℕ)
    (entries : List (List ℕ × List (List ℕ))) (devices : List BlockDevice) : Type 0 where
  pub allowed : All IsAllowed devices
  pub from : IsFrom human_size (json_objects json) entries devices

or_sys-IsDetected :
    (human_size : List ℕ → List ℕ) (json : List ℕ) (entries : List (List ℕ × List (List ℕ)))
    (listed_ : List BlockDevice)
    → All IsAllowed listed_
    → All (IsNamed human_size (json_objects json)) listed_
    → ((object path : List ℕ) → Names (json_objects json) object path → HasPath path listed_)
    → IsAscending listed_
    → IsDetected human_size json entries (or_sys entries listed_)
or_sys-IsDetected human_size json entries [] a n p s = record {
  allowed = sys_devices-All IsAllowed entries (λ d b t. t);
  from =
      from_sys (λ object path k. p object path k)
        (sys_devices-All (IsBlock entries) entries (λ d b t. b)) (sys_devices-IsOffered entries);
}
or_sys-IsDetected human_size json entries (x ∷ xs) a n p s = record {
  allowed = a;
  from = from_lsblk (λ e. cc e) n p s;
}

module _ (human_size : List ℕ → List ℕ) (arrange : List BlockDevice → List BlockDevice)
    (law : IsSorting arrange) (objects : List (List ℕ)) where
  -- What holds of the device of every object that names one holds of what is kept of them.
  kept-All :
      (P : BlockDevice → Type 0)
      → ((object path : List ℕ) → Names objects object path → P (device_of human_size object path))
      → All P (unique (arrange (list_devices human_size objects)))
  kept-All P h =
      unique-All P _ (Permᴰ-All P (law.permutes _) (list_devices-All human_size P objects h))

  kept-HasPath :
      (object path : List ℕ)
      → Names objects object path
      → HasPath path (unique (arrange (list_devices human_size objects)))
  kept-HasPath object path n =
      unique-HasPath path _ (
        Permᴰ-HasPath path (law.permutes _) (list_devices-HasPath human_size objects object path n))

device_of-IsAllowed :
    (human_size : List ℕ → List ℕ) (object path : List ℕ)
    → allowed_block_path path ≡ true
    → IsAllowed (device_of human_size object path)
unfolding device_of
device_of-IsAllowed human_size object path t = t

-- Whatever `lsblk` prints and /sys/block holds, every device that is offered has a path below
-- /dev/nvme or /dev/sd. Where an object of the output of `lsblk` names such a path, every device
-- is made of such an object and its path, every path that such an object names is offered, and the
-- devices are in the order of their paths, each path once. Where none does, every device is an
-- entry of /sys/block, or a name in an entry's directory that begins with the entry's; every entry
-- with an allowed path is offered, and so is every such name of it with an allowed path.
pub detect_devices-IsDetected :
    (human_size : List ℕ → List ℕ) (arrange : List BlockDevice → List BlockDevice) (json : List ℕ)
    (entries : List (List ℕ × List (List ℕ)))
    → IsSorting arrange
    → IsDetected human_size json entries (detect_devices human_size arrange json entries)
unfolding detect_devices lsblk_devices
detect_devices-IsDetected human_size arrange json entries law =
    let objects = json_objects json in
    or_sys-IsDetected human_size json entries _
      (kept-All human_size arrange law objects IsAllowed
        (λ object path n. device_of-IsAllowed human_size object path n.2))
      (kept-All human_size arrange law objects (IsNamed human_size objects)
        (λ o p n. record { object = o; path = p; names = n; is_device = refl }))
      (kept-HasPath human_size arrange law objects) (unique-IsAscending _ (law.sorts _))
