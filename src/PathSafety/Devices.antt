-- ===== src/PathSafety/Devices.antt =====
-- The devices that a device is related to: the recursion ends, and what it finds.
use mathlib.Core.Bool.{false≢true}
use just_give_my_disk.Common.{
  sym, ◌∙◌, ℕ, zero, suc, ◌+◌, ◌^◌, ◌≡◌, ◌<◌, refl, true, false, Option, none, some, List, [], ◌∷◌,
  All, OnSome, arith, Bool-cases, inl, inr,
}
use just_give_my_disk.Output.Result.{
  Result, Settles, settled, Settles-bind, Settles-weaken, Settles-elim,
}
use just_give_my_disk.Recover.Tree.{contains_id}
use just_give_my_disk.Recover.Tree.Visits.{
  Within, Within-cons, contains_id-head, unvisited, unvisited-cons, unvisited-Within, unvisited-lt,
}
use just_give_my_disk.PathSafety.{
  Host, Components, insert_device, insert_number, add_parents, add_slave, add_slaves, add_directory,
  relations_loop, add_device_relations,
}

abbrev pub Finds : List ℕ → Option ℕ → Type 0
Finds devices number = OnSome (λ device. contains_id devices device ≡ true) number

insert_device-Within :
    (device : ℕ) (devices : List ℕ) → Within devices (insert_device device devices)
insert_device-Within device devices id h = elim (Bool-cases (contains_id devices device)) [
  | inl t ↦ rw t h
  | inr f ↦ rw f (Within-cons device devices id h)
]

insert_device-found :
    (device : ℕ) (devices : List ℕ) → contains_id (insert_device device devices) device ≡ true
insert_device-found device devices = elim (Bool-cases (contains_id devices device)) [
  | inl t ↦ rw t t
  | inr f ↦ rw f (contains_id-head device devices)
]

insert_number-Within :
    (number : Option ℕ) (devices : List ℕ) → Within devices (insert_number number devices)
insert_number-Within none devices id h = h
insert_number-Within (some device) devices id h = insert_device-Within device devices id h

insert_number-Finds :
    (number : Option ℕ) (devices : List ℕ) → Finds (insert_number number devices) number
insert_number-Finds none devices = tt
insert_number-Finds (some device) devices = insert_device-found device devices

Finds-Within :
    (number : Option ℕ) (devices more : List ℕ)
    → Within devices more
    → Finds devices number
    → Finds more number
Finds-Within none devices more w h = tt
Finds-Within (some device) devices more w h = w device h

module _ (H : Host) where
  open H use {device_number, device_directory, slaves}

  -- The numbers of a directory and of those above it are found.
  pub FindsParents : List ℕ → Components → Type 0
  FindsParents devices [] = Finds devices (device_number [])
  FindsParents devices (name ∷ parent) =
      Finds devices (device_number (name ∷ parent)) × FindsParents devices parent

  abbrev pub FindsSlaves : List ℕ → List Components → Type 0
  FindsSlaves devices slaves_ = All (λ slave. Finds devices (device_number slave)) slaves_

  -- What is found of a device that was not there: itself, its directory's parents and its slaves.
  pub record IsRelated (device : ℕ) (devices : List ℕ) : Type 0 where
    pub itself : contains_id devices device ≡ true
    pub parents : OnSome (FindsParents devices) (device_directory device)
    pub its_slaves :
        OnSome (λ sys_path. FindsSlaves devices (slaves sys_path)) (device_directory device)

  add_parents-Within :
      (path : Components) (devices : List ℕ) → Within devices (add_parents H path devices)
  unfolding add_parents
  add_parents-Within [] devices id h = insert_number-Within (device_number []) devices id h
  add_parents-Within (name ∷ parent) devices id h =
      add_parents-Within parent _ id
        (insert_number-Within (device_number (name ∷ parent)) devices id h)

  add_parents-Finds :
      (path : Components) (devices : List ℕ) → FindsParents (add_parents H path devices) path
  unfolding add_parents FindsParents
  add_parents-Finds [] devices = insert_number-Finds (device_number []) devices
  add_parents-Finds (name ∷ parent) devices =
      let number = device_number (name ∷ parent) in
      (
        Finds-Within number _ _ (add_parents-Within parent (insert_number number devices))
            (insert_number-Finds number devices),
        add_parents-Finds parent (insert_number number devices),
      )

  FindsParents-Within :
      (path : Components) (devices more : List ℕ)
      → Within devices more
      → FindsParents devices path
      → FindsParents more path
  unfolding FindsParents
  FindsParents-Within [] devices more w h = Finds-Within (device_number []) devices more w h
  FindsParents-Within (name ∷ parent) devices more w h = (
    Finds-Within (device_number (name ∷ parent)) devices more w h.0,
    FindsParents-Within parent devices more w h.1,
  )

  module _ (bound : ℕ)
      (numbers : (path : Components) → OnSome (λ device. device < bound) (device_number path)) where
    abbrev Adds : (ℕ → List ℕ → Result (List ℕ)) → ℕ → Type 0
    Adds again limit =
        (device : ℕ) (devices : List ℕ)
        → device < bound
        → unvisited bound devices < limit
        → Settles (λ more. Within devices more × (contains_id more device ≡ true))
            (again device devices)

    add_slave-Settles :
        (again : ℕ → List ℕ → Result (List ℕ)) (limit : ℕ) (number : Option ℕ) (devices : List ℕ)
        → Adds again limit
        → OnSome (λ device. device < bound) number
        → unvisited bound devices < limit
        → Settles
            (λ more. Within devices more × Finds more number)
            (add_slave H again number devices)
    add_slave-Settles again limit none devices a b l = settled (λ id h. h, tt)
    add_slave-Settles again limit (some device) devices a b l = a device devices b l

    add_slaves-Settles :
        (again : ℕ → List ℕ → Result (List ℕ)) (limit : ℕ) (paths : List Components)
        (devices : List ℕ)
        → Adds again limit
        → unvisited bound devices < limit
        → Settles
            (λ more. Within devices more × FindsSlaves more paths)
            (add_slaves H again paths devices)
    unfolding add_slaves
    add_slaves-Settles again limit [] devices a l = settled (λ id h. h, tt)
    add_slaves-Settles again limit (slave ∷ paths) devices a l =
        Settles-bind
          (add_slave-Settles again limit (device_number slave) devices a (numbers slave) l)
          (λ some_ _ h.
            let less = unvisited-Within bound devices some_ h.0 in
            Settles-weaken (add_slaves-Settles again limit paths some_ a (omega (arith, less, l)))
              (λ more k. (
                λ id i. k.0 id (h.0 id i),
                (Finds-Within (device_number slave) some_ more k.0 h.1, k.1),
              )))

    abbrev Relates : ℕ → Option Components → List ℕ → Type 0
    Relates device path devices =
        (contains_id devices device ≡ true)
        × OnSome (FindsParents devices) path
        × OnSome (λ sys_path. FindsSlaves devices (slaves sys_path)) path

    add_directory-Settles :
        (again : ℕ → List ℕ → Result (List ℕ)) (limit device : ℕ) (path : Option Components)
        (devices : List ℕ)
        → Adds again limit
        → contains_id devices device ≡ true
        → unvisited bound devices < limit
        → Settles
            (λ more. Within devices more × Relates device path more)
            (add_directory H again path devices)
    add_directory-Settles again limit device none devices a c l = settled (λ id h. h, (c, tt, tt))
    add_directory-Settles again limit device (some sys_path) devices a c l =
        let w = add_parents-Within sys_path devices in
        let less = unvisited-Within bound devices _ w in
        Settles-weaken
          (add_slaves-Settles again limit (slaves sys_path) (add_parents H sys_path devices) a
            (omega (arith, less, l)))
          (λ more k. (
            λ id h. k.0 id (w id h),
            (
              k.0 device (w device c),
              FindsParents-Within sys_path _ more k.0 (add_parents-Finds sys_path devices),
              k.1,
            ),
          ))

    relations_loop-Relates :
        (fuel device : ℕ) (devices : List ℕ)
        → device < bound
        → unvisited bound devices < fuel
        → Settles
            (λ more.
              Within devices more
              × (contains_id more device ≡ true)
              × (contains_id devices device ≡ false
                  → Relates device (device_directory device) more))
            (relations_loop H fuel device devices)
    unfolding relations_loop
    relations_loop-Relates zero device devices b l = elim l [ ]
    relations_loop-Relates (suc fuel) device devices b l =
        Settles-elim (contains_id devices device)
          (λ t. settled (λ id h. h, t, λ f. absurd (false≢true (sym f ∙ t))))
          (λ f.
            let less = unvisited-cons bound device devices b f in
            Settles-weaken
              (add_directory-Settles (relations_loop H fuel) fuel device (device_directory device)
                (device ∷ devices)
                (λ d ds i u.
                  Settles-weaken (relations_loop-Relates fuel d ds i u) (λ more k. (k.0, k.1)))
                (contains_id-head device devices) (omega (arith, less, l)))
              (λ more k. (λ id h. k.0 id (Within-cons device devices id h), (k.1).0, λ _. k.1)))

  pub add_device_relations-IsRelated :
      (device : ℕ)
      → ((path : Components) → OnSome (λ d. d < 2 ^ 64) (device_number path))
      → device < 2 ^ 64
      → Settles (IsRelated device) (add_device_relations H device [])
  unfolding add_device_relations
  add_device_relations-IsRelated device numbers b =
      Settles-weaken
        (relations_loop-Relates (2 ^ 64) numbers (2 ^ 64 + 1) device [] b
          (unvisited-lt (2 ^ 64) []))
        (λ more k. let r = k.2 refl in record { itself = r.0; parents = r.1; its_slaves = r.2 })
