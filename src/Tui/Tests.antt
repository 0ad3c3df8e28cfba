-- ===== src/Tui/Tests.antt =====
-- The output of `lsblk`, and the views of an index in which a folder is below itself.
use just_give_my_disk.Common.{
  ℕ, ◌≡◌, refl, Bool, true, false, Option, none, some, List, [], ◌∷◌, map, OnSome, arith,
  if◌then◌else◌, ◌==◌,
}
use just_give_my_disk.Common.Int.{pos}
use just_give_my_disk.Common.Strings.{codes, str_lt_asym, str_lt_not_trans}
use just_give_my_disk.Common.Sorting.{insertion_sort, insert_sorted, insertion_sort-IsSorting}
use just_give_my_disk.Database.{StoredRecord}
use just_give_my_disk.Output.Result.{Result, ok, Settles, settled}
use just_give_my_disk.Tui.Json.{
  strip_prefix, find_after, json_string_field, json_number_field, json_objects, objects_loop,
  skip_spaces, string_loop, digits,
}
use just_give_my_disk.Tui.Json.Field.{escape, json_string_field-escape}
use just_give_my_disk.Tui.Devices.{
  BlockDevice, detect_devices, lsblk_devices, list_devices, unique_after, device_of,
  allowed_block_path,
}
use just_give_my_disk.Tui.Devices.Detected.{
  IsDetected, IsSorting, path_before, detect_devices-IsDetected,
}
use just_give_my_disk.Tui.Views.{parent_chain, tree_preview, preview_tree, preview_children}
use just_give_my_disk.Tui.Views.Chain.{HasId64, IsChain, parent_chain-IsChain}
use just_give_my_disk.Tui.Views.Preview.{IsPreview, tree_preview-IsPreview}

abbrev label : List ℕ
label = codes "my \"disk\""

abbrev lsblk_object : List ℕ
lsblk_object = codes "{\"label\":  \"my \\\"disk\\\"\",\"size\":12}"

json_string_field-escape_example : json_string_field lsblk_object (codes "label") ≡ some label
unfolding find_after strip_prefix escape
json_string_field-escape_example =
    json_string_field-escape lsblk_object (codes "label") label (codes ",\"size\":12}") 2 refl

sort_devices-IsSorting : IsSorting (insertion_sort path_before)
sort_devices-IsSorting =
    insertion_sort-IsSorting path_before (λ x y. str_lt_asym x.path y.path)
      (λ z y x. str_lt_not_trans z.path y.path x.path)

abbrev lsblk_output : List ℕ
lsblk_output =
    codes
      "{\"blockdevices\": [{\"path\":\"/dev/sdb\"},{\"path\":\"/dev/sda\"},{\"path\":\"/dev/sda\"},{\"path\":\"/dev/loop0\"}]}"

abbrev offered : List BlockDevice
offered = detect_devices (λ size. size) (insertion_sort path_before) lsblk_output []

offers_two : map (λ d. d.path) offered ≡ codes "/dev/sda" ∷ codes "/dev/sdb" ∷ []
unfolding detect_devices lsblk_devices list_devices unique_after json_objects objects_loop
    json_string_field find_after strip_prefix skip_spaces string_loop insertion_sort insert_sorted
    device_of allowed_block_path json_number_field digits
offers_two = refl

detect_devices-IsDetected_example : IsDetected (λ size. size) lsblk_output [] offered
detect_devices-IsDetected_example =
    detect_devices-IsDetected (λ size. size) (insertion_sort path_before) lsblk_output []
      sort_devices-IsSorting

-- A folder that is its own parent.
abbrev looped : StoredRecord
looped = record {
  id = pos 1;
  record_id_guess = 70;
  offset = 0;
  parent_ref = 70;
  name = codes "a";
  name_namespace = pos 1;
  flags = 3;
  allocated_size = 0;
  real_size = 0;
  is_directory = true;
}

abbrev by_id : ℕ → Result (Option StoredRecord)
by_id id = ok (if id == 70 then some looped else none)

abbrev children : ℕ → Result (List StoredRecord)
children id = ok (looped ∷ [])

by_id-HasId64 : (id : ℕ) → Settles (OnSome HasId64) (by_id id)
by_id-HasId64 id = settled (found (id == 70))
  where
    found : (b : Bool) → OnSome HasId64 (if b then some looped else none)
    found true = omega arith
    found false = tt

parent_chain-IsChain_example : Settles (IsChain by_id [] looped) (parent_chain by_id looped)
parent_chain-IsChain_example = parent_chain-IsChain by_id looped by_id-HasId64 (omega arith)

tree_preview-IsPreview_example :
    Settles (IsPreview children (λ id. settled tt) 70) (tree_preview children 70)
tree_preview-IsPreview_example = tree_preview-IsPreview children (λ id. settled tt) 70

shows_one_level :
    tree_preview children 70 ≡ ok ((record { depth = 0; child = looped }) ∷ [], 70 ∷ [])
unfolding tree_preview preview_tree preview_children
shows_one_level = refl
