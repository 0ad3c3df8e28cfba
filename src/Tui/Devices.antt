-- ===== src/Tui/Devices.antt =====
-- src/Tui.cpp: `detect_devices`. The output of `lsblk`, the names in /sys/block, the order that
-- `std::sort` gives and the text of a size, which is computed in floating point, are parameters.
pub mod Named
pub mod Blocks
pub mod Detected
use just_give_my_disk.Common.{
  ℕ, Bool, true, false, ◌&&◌, ◌||◌, Option, none, some, List, [], ◌∷◌, ◌++◌, if◌then◌else◌,
}
use just_give_my_disk.Common.Strings.{codes, str_eq}
use just_give_my_disk.Tui.Json.{strip_prefix, json_string_field, json_number_field, json_objects}

pub record BlockDevice : Type 0 where
  pub path : List ℕ
  pub type : List ℕ
  pub size : List ℕ
  pub fstype : List ℕ
  pub label : List ℕ
  pub model : List ℕ
  pub mountpoint : List ℕ

abbrev pub is_some : Option (List ℕ) → Bool
is_some none = false
is_some (some rest) = true

-- `text.rfind(prefix, 0) == 0`
abbrev pub starts_with : List ℕ → List ℕ → Bool
starts_with prefix text = is_some (strip_prefix prefix text)

unfoldable pub allowed_block_path : List ℕ → Bool
allowed_block_path path = starts_with (codes "/dev/nvme") path || starts_with (codes "/dev/sd") path

abbrev pub value_or : Option (List ℕ) → List ℕ → List ℕ
value_or none text = text
value_or (some value) text = value

abbrev pub text_field : List ℕ → List ℕ → List ℕ
text_field object key = value_or (json_string_field object key) []

module _ (human_size : List ℕ → List ℕ) where
  unfoldable pub device_of : List ℕ → List ℕ → BlockDevice
  device_of object path_ = record {
    path = path_;
    type = text_field object (codes "type");
    size = human_size (value_or (json_number_field object (codes "size")) []);
    fstype = text_field object (codes "fstype");
    label = text_field object (codes "label");
    model = text_field object (codes "model");
    mountpoint = text_field object (codes "mountpoint");
  }

  -- The path is there, not empty and allowed: an empty one is not allowed.
  abbrev pub listed : List ℕ → Option (List ℕ) → List BlockDevice
  listed object none = []
  listed object (some path) = if allowed_block_path path then device_of object path ∷ [] else []

  -- The loop over the objects.
  unfoldable pub list_devices : List (List ℕ) → List BlockDevice
  list_devices [] = []
  list_devices (object ∷ objects) =
      listed object (json_string_field object (codes "path")) ++ list_devices objects

-- `std::unique` behind the device that was kept last.
unfoldable pub unique_after : BlockDevice → List BlockDevice → List BlockDevice
unique_after last [] = []
unique_after last (device ∷ devices) =
    let skipped = unique_after last devices in
    let kept = unique_after device devices in
    if str_eq last.path device.path then skipped else device ∷ kept

abbrev pub unique : List BlockDevice → List BlockDevice
unique [] = []
unique (device ∷ devices) = device ∷ unique_after device devices

-- `BlockDevice{path, type, "", "", "", "", ""}`
abbrev pub plain_device : List ℕ → List ℕ → BlockDevice
plain_device path_ type_ = record {
  path = path_;
  type = type_;
  size = [];
  fstype = [];
  label = [];
  model = [];
  mountpoint = [];
}

abbrev pub dev_path : List ℕ → List ℕ
dev_path name = codes "/dev/" ++ name

-- The entries of a disk's directory in /sys/block.
unfoldable pub sys_parts : List ℕ → List (List ℕ) → List BlockDevice
sys_parts name [] = []
sys_parts name (child ∷ children) =
    (if starts_with name child && allowed_block_path (dev_path child)
      then plain_device (dev_path child) (codes "part") ∷ []
      else [])
    ++ sys_parts name children

-- The entries of /sys/block, each with the names in its directory.
unfoldable pub sys_devices : List (List ℕ × List (List ℕ)) → List BlockDevice
sys_devices [] = []
sys_devices ((name, children) ∷ entries) =
    (if allowed_block_path (dev_path name)
      then plain_device (dev_path name) (codes "disk") ∷ sys_parts name children
      else [])
    ++ sys_devices entries

abbrev pub or_sys : List (List ℕ × List (List ℕ)) → List BlockDevice → List BlockDevice
or_sys entries [] = sys_devices entries
or_sys entries (device ∷ devices) = device ∷ devices

module _ (human_size : List ℕ → List ℕ) (arrange : List BlockDevice → List BlockDevice) where
  unfoldable pub lsblk_devices : List ℕ → List BlockDevice
  lsblk_devices json = unique (arrange (list_devices human_size (json_objects json)))

  unfoldable pub detect_devices : List ℕ → List (List ℕ × List (List ℕ)) → List BlockDevice
  detect_devices json entries = or_sys entries (lsblk_devices json)
