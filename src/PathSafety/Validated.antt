-- ===== src/PathSafety/Validated.antt =====
-- What a path that was validated is known to be.
use just_give_my_disk.Common.{
  ℕ, ◌^◌, ◌<◌, ◌≡◌, refl, subst, ◌⊎◌, inl, inr, Bool, true, false, Option, none, some, List, [],
  ◌∷◌, OnSome, ◌==◌, Bool-cases,
}
use just_give_my_disk.Output.Posix.{
  enoent, enotdir, eintr, enosys, einval, errno, Call, success, failure,
}
use just_give_my_disk.Output.Result.{
  Result, ok, Settles, settled, thrown, Settles-bind, Settles-weaken, Settles-elim,
}
use just_give_my_disk.PathSafety.{
  Host, Source, Stat, FileType, Components, is_regular, is_directory, same_opened_object,
  devices_are_related, canonicalize, inspected, existing_ancestor, reject_related,
  reject_source_storage, compared, candidate_checked, reject_source_alias, is_usable, usable,
  validate, validate_database_path, validate_destination_path,
}
use just_give_my_disk.PathSafety.Devices.{add_device_relations-IsRelated}

module _ (H : Host) where
  open H use {canonical, stat, fstat, device_number}

  -- Device numbers have 64 bits.
  pub record IsHost : Type 0 where
    pub numbers : (path : Components) → OnSome (λ device. device < 2 ^ 64) (device_number path)
    pub st_devs :
        (path : Components) (info : Stat) → stat path ≡ success info → info.st_dev < 2 ^ 64

  -- The nearest of the path and those above it that exists.
  pub data IsNearest : Components → Components → Stat → Type 0 where
    here : {path : Components} {info : Stat} → stat path ≡ success info → IsNearest path path info
    above :
        {name : List ℕ} {parent at_ : Components} {info : Stat}
        → (stat (name ∷ parent) ≡ failure enoent) ⊎ (stat (name ∷ parent) ≡ failure enotdir)
        → IsNearest parent at_ info
        → IsNearest (name ∷ parent) at_ info

  pub record IsValidated (wanted : FileType → Bool) (source : Source) (path : List ℕ)
      (c : Components) : Type 0 where
    pub resolved : canonical path ≡ some c
    -- it does not name the object that is open as the source
    pub not_source :
        (candidate opened : Stat)
        → stat c ≡ success candidate
        → fstat source.fd ≡ success opened
        → same_opened_object opened candidate ≡ false
    -- where it is stored, or would be: a file of the type, or a directory above
    pub at_ : Components
    pub info : Stat
    pub nearest : IsNearest c at_ info
    pub is_usable_ : is_usable wanted c (at_, info) ≡ true
    -- that is not a device that the source's is related to
    pub unrelated :
        source.is_block_device ≡ true
        → devices_are_related H source.block_device info.st_dev ≡ ok false

  canonicalize-Settles :
      (path : List ℕ) → Settles (λ c. canonical path ≡ some c) (canonicalize H path)
  canonicalize-Settles [] = thrown
  canonicalize-Settles (b ∷ path) = go (canonical (b ∷ path)) refl
    where
      go :
          (found : Option Components)
          → canonical (b ∷ path) ≡ found
          → Settles
              (λ c. canonical (b ∷ path) ≡ some c)
              (elim found [ none ↦ Result.throw | some p ↦ ok p ])
      go none e = thrown
      go (some p) e = settled e

  Located : Components → Components × Stat → Type 0
  Located c storage = IsNearest c storage.0 storage.1

  -- The path does not exist, so that its parent is looked at.
  abbrev IsAbsent : Components → Type 0
  IsAbsent c = (stat c ≡ failure enoent) ⊎ (stat c ≡ failure enotdir)

  inspected-Settles :
      (c : Components) (m : Result (Components × Stat)) (s : Call Stat)
      → stat c ≡ s
      → (IsAbsent c → Settles (Located c) m)
      → Settles (Located c) (inspected H c m s)
  unfolding Located
  inspected-Settles c m (success info) e k = settled (here e)
  inspected-Settles c m (failure enoent) e k = k (inl e)
  inspected-Settles c m (failure enotdir) e k = k (inr e)
  inspected-Settles c m (failure eintr) e k = thrown
  inspected-Settles c m (failure enosys) e k = thrown
  inspected-Settles c m (failure einval) e k = thrown
  inspected-Settles c m (failure (errno n)) e k = thrown

  existing_ancestor-Settles : (c : Components) → Settles (Located c) (existing_ancestor H c)
  unfolding existing_ancestor Located
  existing_ancestor-Settles [] = inspected-Settles [] _ (stat []) refl (λ _. thrown)
  existing_ancestor-Settles (name ∷ parent) =
      inspected-Settles (name ∷ parent) _ (stat (name ∷ parent)) refl
        (λ e. Settles-weaken (existing_ancestor-Settles parent) (λ s h. above e h))

  abbrev IsDistinct : Source → Call Stat → Type 0
  IsDistinct source s =
      (candidate opened : Stat)
      → s ≡ success candidate
      → fstat source.fd ≡ success opened
      → same_opened_object opened candidate ≡ false

  compared-Settles :
      (source : Source) (candidate : Stat)
      → Settles
          (λ _. IsDistinct source (success candidate))
          (compared H candidate (fstat source.fd))
  compared-Settles source candidate = go (fstat source.fd) refl
    where
      same_pair :
          {opened : Stat} (c o : Stat)
          → candidate ≡ c
          → opened ≡ o
          → same_opened_object opened candidate ≡ false
          → same_opened_object o c ≡ false
      same_pair c o d e f =
          subst (λ x. same_opened_object o x ≡ false) d
            (subst (λ x. same_opened_object x candidate ≡ false) e f)

      go :
          (s : Call Stat)
          → fstat source.fd ≡ s
          → Settles (λ _. IsDistinct source (success candidate)) (compared H candidate s)
      go (failure e) h = thrown
      go (success opened) h = elim (Bool-cases (same_opened_object opened candidate)) [
        | inl t ↦ rw t thrown
        | inr f ↦ rw f (settled (λ c o d e. same_pair c o (cc d) (cc (h, e)) f))
      ]

  candidate-Settles :
      (source : Source) (s : Call Stat)
      → Settles (λ _. IsDistinct source s) (candidate_checked H source s)
  candidate-Settles source (success candidate) = compared-Settles source candidate
  candidate-Settles source (failure enoent) = settled (λ c o d e. absurd (cc d))
  candidate-Settles source (failure enotdir) = settled (λ c o d e. absurd (cc d))
  candidate-Settles source (failure eintr) = thrown
  candidate-Settles source (failure enosys) = thrown
  candidate-Settles source (failure einval) = thrown
  candidate-Settles source (failure (errno n)) = thrown

  devices_are_related-Settles :
      (law : IsHost) (source storage : ℕ)
      → source < 2 ^ 64
      → storage < 2 ^ 64
      → Settles (λ _. Unit {0}) (devices_are_related H source storage)
  unfolding devices_are_related
  devices_are_related-Settles law source storage h k =
      Settles-elim (source == storage) (λ _. settled tt)
        (λ _. Settles-bind (add_device_relations-IsRelated H source law.numbers h) (λ a _ _.
          Settles-bind (add_device_relations-IsRelated H storage law.numbers k)
            (λ b _ _. settled tt)))

  reject_related-Settles :
      (m : Result Bool)
      → Settles (λ _. Unit {0}) m
      → Settles (λ _. m ≡ ok false) (reject_related H m)
  reject_related-Settles _ (settled {a = true} _) = thrown
  reject_related-Settles _ (settled {a = false} _) = settled refl
  reject_related-Settles _ thrown = thrown

  module _ (law : IsHost) (wanted : FileType → Bool) (source : Source)
      (fits : source.block_device < 2 ^ 64) where
    storage-Settles :
        (info : Stat)
        → info.st_dev < 2 ^ 64
        → Settles
            (λ _.
              source.is_block_device ≡ true
              → devices_are_related H source.block_device info.st_dev ≡ ok false)
            (reject_source_storage H source info)
    unfolding reject_source_storage
    storage-Settles info h = go source.is_block_device refl
      where
        go :
            (b : Bool)
            → source.is_block_device ≡ b
            → Settles
                (λ _.
                  source.is_block_device ≡ true
                  → devices_are_related H source.block_device info.st_dev ≡ ok false)
                (elim b [
                  | false ↦ ok tt
                  | true ↦ reject_related H (devices_are_related H source.block_device info.st_dev)
                ])
        go false e = settled (λ t. absurd (cc (e, t)))
        go true e =
            Settles-weaken
              (reject_related-Settles _
                (devices_are_related-Settles law source.block_device info.st_dev fits h))
              (λ _ r _. r)

    nearest-lt : {c at_ : Components} {info : Stat} → IsNearest c at_ info → info.st_dev < 2 ^ 64
    nearest-lt (here e) = law.st_devs _ _ e
    nearest-lt (above _ n) = nearest-lt n

    usable-Settles :
        (path : List ℕ) (c : Components) (storage : Components × Stat)
        → canonical path ≡ some c
        → IsDistinct source (stat c)
        → IsNearest c storage.0 storage.1
        → Settles (IsValidated wanted source path) (usable H wanted source c storage)
    usable-Settles path c storage r d n = elim (Bool-cases (is_usable wanted c storage)) [
      | inr f ↦ rw f thrown
      | inl t ↦ rw t (
          Settles-bind (storage-Settles storage.1 (nearest-lt n)) (λ _ _ u. settled (record {
            resolved = r;
            not_source = d;
            at_ = storage.0;
            info = storage.1;
            nearest = n;
            is_usable_ = t;
            unrelated = u;
          })))
    ]

    validate-IsValidated :
        (path : List ℕ) → Settles (IsValidated wanted source path) (validate H wanted source path)
    unfolding validate reject_source_alias Located
    validate-IsValidated path = Settles-bind (canonicalize-Settles path) (λ c _ r.
        Settles-bind (candidate-Settles source (stat c)) (λ _ _ d.
          Settles-bind (existing_ancestor-Settles c)
            (λ storage _ n. usable-Settles path c storage r d n)))

  -- Where device numbers have 64 bits, both validations end. A path that they return is the canonical
  -- form of the path that was given; it does not name the open source; what is there, or else the
  -- nearest that exists above it, is a regular file or a directory, as is wanted, or a directory; and
  -- that is on no device that is related to a source that is a block device.
  pub validate_paths-IsValidated :
      (source : Source) (path : List ℕ)
      → IsHost
      → source.block_device < 2 ^ 64
      → Settles (IsValidated is_regular source path) (validate_database_path H source path)
        × Settles (IsValidated is_directory source path) (validate_destination_path H source path)
  validate_paths-IsValidated source path law fits = (
    validate-IsValidated law is_regular source fits path,
    validate-IsValidated law is_directory source fits path,
  )
