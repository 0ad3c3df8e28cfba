-- ===== src/Tui/Devices/Blocks.antt =====
-- The devices that /sys/block names.
use mathlib.Core.List.{Memᴰ}
use just_give_my_disk.Common.{
  ℕ, ◌≡◌, refl, ◌∙◌, sym, subst, Bool, true, false, ◌&&◌, List, [], ◌∷◌, ◌++◌, All, All-append, inl,
  inr, if◌then◌else◌, ap,
}
use just_give_my_disk.Common.Strings.{codes}
use just_give_my_disk.Tui.Devices.Named.{HasPath, HasPath-left, HasPath-right, if-All}
use just_give_my_disk.Tui.Devices.{
  BlockDevice, allowed_block_path, starts_with, dev_path, plain_device, sys_parts, sys_devices,
}

-- The device of an entry of /sys/block, or of a name in an entry's directory that begins with it.
pub data IsBlock (entries : List (List ℕ × List (List ℕ))) (device : BlockDevice) : Type 0 where
  disk :
      {name : List ℕ} {children : List (List ℕ)}
      → Memᴰ (name, children) entries
      → device ≡ plain_device (dev_path name) (codes "disk")
      → IsBlock entries device
  part :
      {name child : List ℕ} {children : List (List ℕ)}
      → Memᴰ (name, children) entries
      → Memᴰ child children
      → starts_with name child ≡ true
      → device ≡ plain_device (dev_path child) (codes "part")
      → IsBlock entries device

abbrev IsAllowed : BlockDevice → Type 0
IsAllowed device = allowed_block_path device.path ≡ true

sys_parts-All :
    (P : BlockDevice → Type 0) (name : List ℕ) (children : List (List ℕ))
    → ((child : List ℕ)
        → Memᴰ child children
        → starts_with name child ≡ true
        → allowed_block_path (dev_path child) ≡ true
        → P (plain_device (dev_path child) (codes "part")))
    → All P (sys_parts name children)
unfolding sys_parts
sys_parts-All P name [] h = tt
sys_parts-All P name (child ∷ children) h =
    All-append P _ _
      (if-All P (starts_with name child && allowed_block_path (dev_path child)) _
        (λ t. let (s, a) = both _ _ t in (h child (Memᴰ.head refl) s a, tt)))
      (sys_parts-All P name children (λ c m. h c (Memᴰ.tail m)))
  where
    both : (a b : Bool) → (a && b) ≡ true → (a ≡ true) × (b ≡ true)
    both true b h = (refl, h)
    both false b h = cc h

pub sys_devices-All :
    (P : BlockDevice → Type 0) (entries : List (List ℕ × List (List ℕ)))
    → ((device : BlockDevice) → IsBlock entries device → IsAllowed device → P device)
    → All P (sys_devices entries)
unfolding sys_devices
sys_devices-All P [] h = tt
sys_devices-All P ((name, children) ∷ entries) h =
    All-append P _ _
      (if-All P (allowed_block_path (dev_path name)) _ (λ t. (
        h _ (disk (Memᴰ.head refl) refl) t,
        sys_parts-All P name children (λ c m s a. h _ (part (Memᴰ.head refl) m s refl) a),
      )))
      (sys_devices-All P entries (λ d b. h d (later b)))
  where
    later : {d : BlockDevice} → IsBlock entries d → IsBlock ((name, children) ∷ entries) d
    later (disk m e) = disk (Memᴰ.tail m) e
    later (part m c s e) = part (Memᴰ.tail m) c s e

-- Every allowed entry has a device, and so has every allowed name in its directory that begins with it.
pub record IsOffered (devices : List BlockDevice) (name : List ℕ) (children : List (List ℕ))
    : Type 0 where
  pub disk_offered : HasPath (dev_path name) devices
  pub parts_offered :
      (child : List ℕ)
      → Memᴰ child children
      → starts_with name child ≡ true
      → allowed_block_path (dev_path child) ≡ true
      → HasPath (dev_path child) devices

sys_parts-HasPath :
    (name : List ℕ) (children : List (List ℕ)) (child : List ℕ)
    → Memᴰ child children
    → starts_with name child ≡ true
    → allowed_block_path (dev_path child) ≡ true
    → HasPath (dev_path child) (sys_parts name children)
unfolding sys_parts
sys_parts-HasPath name [] child m s t = elim m [ ]
sys_parts-HasPath name (c ∷ children) child (Memᴰ.head e) s t =
    HasPath-left (dev_path child)
      (if starts_with name c && allowed_block_path (dev_path c)
        then plain_device (dev_path c) (codes "part") ∷ []
        else [])
      (sys_parts name children)
      (subst
        (λ x. HasPath (dev_path child) (
          if starts_with name x && allowed_block_path (dev_path x)
          then plain_device (dev_path x) (codes "part") ∷ []
          else []))
        e (rw (s, t) (inl refl)))
sys_parts-HasPath name (c ∷ children) child (Memᴰ.tail m) s t =
    HasPath-right (dev_path child)
      (if starts_with name c && allowed_block_path (dev_path c)
        then plain_device (dev_path c) (codes "part") ∷ []
        else [])
      (sys_parts name children) (sys_parts-HasPath name children child m s t)

disk_devices-IsOffered :
    (name : List ℕ) (children : List (List ℕ)) (later : List BlockDevice)
    → IsOffered
        ((plain_device (dev_path name) (codes "disk") ∷ sys_parts name children) ++ later)
        name
        children
disk_devices-IsOffered name children later = record {
  disk_offered = inl refl;
  parts_offered = λ child m s t.
      inr (HasPath-left (dev_path child) _ later (sys_parts-HasPath name children child m s t));
}

IsOffered-right :
    (xs ys : List BlockDevice) (name : List ℕ) (children : List (List ℕ))
    → IsOffered ys name children
    → IsOffered (xs ++ ys) name children
IsOffered-right xs ys name children o = record {
  disk_offered = HasPath-right (dev_path name) xs ys o.disk_offered;
  parts_offered = λ child m s t. HasPath-right (dev_path child) xs ys (o.parts_offered child m s t);
}

pub sys_devices-IsOffered :
    (entries : List (List ℕ × List (List ℕ))) (name : List ℕ) (children : List (List ℕ))
    → Memᴰ (name, children) entries
    → allowed_block_path (dev_path name) ≡ true
    → IsOffered (sys_devices entries) name children
unfolding sys_devices
sys_devices-IsOffered [] name children m t = elim m [ ]
sys_devices-IsOffered ((n, cs) ∷ entries) name children (Memᴰ.tail m) t =
    IsOffered-right
      (if allowed_block_path (dev_path n)
        then plain_device (dev_path n) (codes "disk") ∷ sys_parts n cs
        else [])
      (sys_devices entries) name children (sys_devices-IsOffered entries name children m t)
sys_devices-IsOffered ((n, cs) ∷ entries) name children (Memᴰ.head e) t =
    let same : allowed_block_path (dev_path n) ≡ true =
      ap (λ (c : List ℕ × List (List ℕ)). allowed_block_path (dev_path c.0)) (sym e) ∙ t in
    rw same (
      subst
        (λ (c : List ℕ × List (List ℕ)).
          IsOffered
            ((plain_device (dev_path n) (codes "disk") ∷ sys_parts n cs) ++ sys_devices entries) c.0
            c.1)
        (sym e) (disk_devices-IsOffered n cs (sys_devices entries)))
