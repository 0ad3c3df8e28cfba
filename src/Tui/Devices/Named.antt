-- ===== src/Tui/Devices/Named.antt =====
-- Which devices `lsblk` names, and that `std::unique` loses no path.
use mathlib.Core.List.{Permᴰ, Memᴰ}
use just_give_my_disk.Common.{
  ℕ, ◌≡◌, refl, ◌∙◌, sym, subst, Bool, true, false, ◌⊎◌, Option, none, some, List, [], ◌∷◌, ◌++◌,
  All, All-append, Bool-cases, inl, inr, if◌then◌else◌, ap,
}
use just_give_my_disk.Common.Strings.{codes, str_eq, str_eq-eq}
use just_give_my_disk.Tui.Json.{json_string_field}
use just_give_my_disk.Tui.Devices.{
  BlockDevice, allowed_block_path, device_of, listed, list_devices, unique_after, unique,
}

-- One of the objects has a path, which is allowed.
abbrev pub Names : List (List ℕ) → List ℕ → List ℕ → Type 0
Names objects object path =
    Memᴰ object objects
    × (json_string_field object (codes "path") ≡ some path)
    × (allowed_block_path path ≡ true)

-- A device has the path.
abbrev pub HasPath : List ℕ → List BlockDevice → Type 0
HasPath path [] = ⊥
HasPath path (device ∷ devices) = (device.path ≡ path) ⊎ HasPath path devices

pub HasPath-left :
    (path : List ℕ) (xs ys : List BlockDevice) → HasPath path xs → HasPath path (xs ++ ys)
HasPath-left path [] ys h = elim h [ ]
HasPath-left path (x ∷ xs) ys (inl e) = inl e
HasPath-left path (x ∷ xs) ys (inr h) = inr (HasPath-left path xs ys h)

pub HasPath-right :
    (path : List ℕ) (xs ys : List BlockDevice) → HasPath path ys → HasPath path (xs ++ ys)
HasPath-right path [] ys h = h
HasPath-right path (x ∷ xs) ys h = inr (HasPath-right path xs ys h)

pub Permᴰ-HasPath :
    (path : List ℕ) {xs ys : List BlockDevice} → Permᴰ xs ys → HasPath path ys → HasPath path xs
Permᴰ-HasPath path Permᴰ.nil h = h
Permᴰ-HasPath path (Permᴰ.cons e p) (inl h) = inl (ap (λ (d : BlockDevice). d.path) e ∙ h)
Permᴰ-HasPath path (Permᴰ.cons e p) (inr h) = inr (Permᴰ-HasPath path p h)
Permᴰ-HasPath path (Permᴰ.swap e f) (inl h) = inr (inl (ap (λ (d : BlockDevice). d.path) f ∙ h))
Permᴰ-HasPath path (Permᴰ.swap e f) (inr (inl h)) = inl (ap (λ (d : BlockDevice). d.path) e ∙ h)
Permᴰ-HasPath path (Permᴰ.swap e f) (inr (inr h)) = inr (inr h)
Permᴰ-HasPath path (Permᴰ.trans p q) h = Permᴰ-HasPath path p (Permᴰ-HasPath path q h)

-- The first device of a path is kept.
unique_after-HasPath :
    (path : List ℕ) (last : BlockDevice) (xs : List BlockDevice)
    → HasPath path (last ∷ xs)
    → HasPath path (last ∷ unique_after last xs)
unfolding unique_after
unique_after-HasPath path last [] h = h
unique_after-HasPath path last (x ∷ xs) h = elim (Bool-cases (str_eq last.path x.path)) [
  | inl t ↦ rw t (unique_after-HasPath path last xs (dropped t h))
  | inr f ↦ rw f (kept (unique_after-HasPath path x xs) h)
]
  where
    dropped :
        str_eq last.path x.path ≡ true → HasPath path (last ∷ x ∷ xs) → HasPath path (last ∷ xs)
    dropped t (inl e) = inl e
    dropped t (inr (inl e)) = inl (str_eq-eq last.path x.path t ∙ e)
    dropped t (inr (inr k)) = inr k

    kept :
        (HasPath path (x ∷ xs) → HasPath path (x ∷ unique_after x xs))
        → HasPath path (last ∷ x ∷ xs)
        → HasPath path (last ∷ x ∷ unique_after x xs)
    kept again (inl e) = inl e
    kept again (inr k) = inr (again k)

pub unique-HasPath :
    (path : List ℕ) (xs : List BlockDevice) → HasPath path xs → HasPath path (unique xs)
unique-HasPath path [] h = h
unique-HasPath path (x ∷ xs) h = unique_after-HasPath path x xs h

pub if-All :
    (P : BlockDevice → Type 0) (b : Bool) (xs : List BlockDevice)
    → (b ≡ true → All P xs)
    → All P (if b then xs else [])
if-All P true xs h = h refl
if-All P false xs h = tt

module _ (human_size : List ℕ → List ℕ) where
  -- The device of an object that names it.
  pub record IsNamed (objects : List (List ℕ)) (device : BlockDevice) : Type 0 where
    pub object : List ℕ
    pub path : List ℕ
    pub names : Names objects object path
    pub is_device : device ≡ device_of human_size object path

  pub list_devices-All :
      (P : BlockDevice → Type 0) (objects : List (List ℕ))
      → ((object path : List ℕ) → Names objects object path → P (device_of human_size object path))
      → All P (list_devices human_size objects)
  unfolding list_devices
  list_devices-All P [] h = tt
  list_devices-All P (object ∷ objects) h =
      All-append P _ _ (by_path (json_string_field object (codes "path")) refl)
        (list_devices-All P objects (λ o p n. h o p (Memᴰ.tail n.0, n.1, n.2)))
    where
      by_path :
          (path : Option (List ℕ))
          → json_string_field object (codes "path") ≡ path
          → All P (listed human_size object path)
      by_path none e = tt
      by_path (some path) e =
          if-All P (allowed_block_path path) _ (λ t. (h object path (Memᴰ.head refl, e, t), tt))

  listed-HasPath :
      (object path : List ℕ)
      → allowed_block_path path ≡ true
      → HasPath path (listed human_size object (some path))
  unfolding device_of
  listed-HasPath object path t = rw t (inl refl)

  pub list_devices-HasPath :
      (objects : List (List ℕ)) (object path : List ℕ)
      → Names objects object path
      → HasPath path (list_devices human_size objects)
  unfolding list_devices
  list_devices-HasPath [] object path n = elim n.0 [ ]
  list_devices-HasPath (o ∷ objects) object path (m, e, t) = elim m [
    | Memᴰ.head h ↦ HasPath-left path _ _ (
        subst (λ x. HasPath path (listed human_size o x))
          (sym e ∙ ap (λ x. json_string_field x (codes "path")) h) (listed-HasPath o path t))
    | Memᴰ.tail m' ↦
        HasPath-right path (listed human_size o (json_string_field o (codes "path"))) _
          (list_devices-HasPath objects object path (m', e, t))
  ]
