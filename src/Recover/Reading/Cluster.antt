-- ===== src/Recover/Reading/Cluster.antt =====
-- `read_cluster_size` reads the product of two fields of the boot sector.
use native.Mathlib.Nat.{mod-eq_of_lt}
use just_give_my_disk.Common.{
  ℕ, zero, suc, ◌+◌, ◌*◌, ◌/◌, ◌%◌, ◌^◌, ◌<◌, ◌≡◌, refl, sym, ap, ◌∙◌, ◌⊎◌, subst, bit_or, Bool,
  true, false, not, ◌&&◌, ◌||◌, List, [], ◌∷◌, length, take, All, ltb, ◌==◌, if◌then◌else◌, arith,
  Bool-cases, inl, inr, got, at, at_in_bounds,
}
use just_give_my_disk.Common.Bits.{bit_or_disjoint}
use just_give_my_disk.Common.Bytes.{IsByte}
use just_give_my_disk.Output.Posix.{Posix, IsPosix, Same, Call, success, failure}
use just_give_my_disk.Output.Result.{
  Result, ok, throw, Ends, ends_ok, ends_throw, Settles, settled, thrown,
}
use just_give_my_disk.Recover.Reading.{
  le16, uint64_max, checked_mul, cluster_size_of, boot_fields, geometry, booted, read_cluster_size,
}

at-take : (n i : ℕ) (xs : List ℕ) → i < n → at (take n xs) i ≡ at xs i
at-take zero i xs h = elim h [ ]
at-take (suc n) i [] h = refl
at-take (suc n) zero (x ∷ xs) h = refl
at-take (suc n) (suc i) (x ∷ xs) h = at-take n i xs (omega (arith, h))

at-IsByte : (xs : List ℕ) (i b : ℕ) → All IsByte xs → at xs i ≡ got b → IsByte b
at-IsByte [] i b h e = absurd (cc e)
at-IsByte (x ∷ xs) zero b h e = subst IsByte (cc e) h.0
at-IsByte (x ∷ xs) (suc i) b h e = at-IsByte xs i b h.1 e

-- The sector's size is the little-endian number at 11, a cluster's count of sectors the byte at 13.
pub record IsClusterSize (image : List ℕ) (size : ℕ) : Type 0 where
  pub low : ℕ
  pub high : ℕ
  pub sectors : ℕ
  pub low_at : at image 11 ≡ got low
  pub high_at : at image 12 ≡ got high
  pub sectors_at : at image 13 ≡ got sectors
  pub product : size ≡ (low + 256 * high) * sectors
  pub not_zero : 0 < size
  pub small : size < 2 ^ 24

le16-value :
    (low high : ℕ)
    → IsByte low
    → IsByte high
    → bit_or low (high * 2 ^ 8) % 2 ^ 16 ≡ low + 256 * high
le16-value low high l h =
    rw (bit_or_disjoint 8 low high l) (mod-eq_of_lt (omega (arith, l, h)) ∙ omega arith)

small_product : (a b : ℕ) → a < 2 ^ 16 → b < 2 ^ 8 → a * b < 2 ^ 24
small_product a b h k = grind arith

-- The factors are not zero, so the product is not.
product_pos : (a b : ℕ) → (a == 0 || b == 0) ≡ false → 0 < a * b
product_pos zero b h = ground arith
product_pos (suc a) zero h = ground arith
product_pos (suc a) (suc b) h = grind arith

checked_mul-Settles : {Q : ℕ → Type 0} (a b : ℕ) → Q (a * b % 2 ^ 64) → Settles Q (checked_mul a b)
unfolding checked_mul
checked_mul-Settles {Q = Q} a b h = by_test (not (b == 0) && ltb (uint64_max / b) a)
  where
    by_test : (t : Bool) → Settles Q (if t then throw else ok (a * b % 2 ^ 64))
    by_test true = thrown
    by_test false = settled h

module _ (image boot : List ℕ) (bytes : All IsByte image) (on_source : boot ≡ take 512 image)
    (whole : length boot ≡ 512) where
  booted_at : (i : ℕ) → i < 512 → (b : ℕ) × (at boot i ≡ got b) × (at image i ≡ got b) × IsByte b
  booted_at i h =
      let (b, e) = at_in_bounds boot i (rw whole h) in
      let e' : at image i ≡ got b =
        sym (at-take 512 i image h) ∙ sym (ap (λ xs. at xs i) on_source) ∙ e in
      (b, e, e', at-IsByte image i b bytes e')

  cluster_size_of-Settles :
      (low high sectors : ℕ)
      → at image 11 ≡ got low
      → at image 12 ≡ got high
      → at image 13 ≡ got sectors
      → IsByte low
      → IsByte high
      → IsByte sectors
      → Settles (IsClusterSize image) (cluster_size_of (bit_or low (high * 2 ^ 8) % 2 ^ 16) sectors)
  cluster_size_of-Settles low high sectors e e' e'' l h s =
      rw (le16-value low high l h) (by_zero (Bool-cases (low + 256 * high == 0 || sectors == 0)))
    where
      n : ℕ
      n = low + 256 * high

      sized :
          n * sectors < 2 ^ 24
          → (n == 0 || sectors == 0) ≡ false
          → IsClusterSize image (n * sectors % 2 ^ 64)
      sized small f =
          let whole_ : n * sectors % 2 ^ 64 ≡ n * sectors = mod-eq_of_lt (omega (arith, small)) in
          record {
            low = low;
            high = high;
            sectors = sectors;
            low_at = e;
            high_at = e';
            sectors_at = e'';
            product = whole_;
            not_zero = rw whole_ (product_pos n sectors f);
            small = rw whole_ small;
          }

      by_zero :
          ((n == 0 || sectors == 0) ≡ true) ⊎ ((n == 0 || sectors == 0) ≡ false)
          → Settles (IsClusterSize image) (cluster_size_of n sectors)
      by_zero (inl t) = rw t thrown
      by_zero (inr f) = rw f (
          checked_mul-Settles n sectors (sized (small_product n sectors (omega (arith, l, h)) s) f))

  geometry-Settles : Settles (IsClusterSize image) (geometry (boot_fields boot))
  unfolding le16
  geometry-Settles =
      let (low, e, i, l) = booted_at 11 (omega arith) in
      let (high, e', i', h) = booted_at 12 (omega arith) in
      let (sectors, e'', i'', s) = booted_at 13 (omega arith) in
      rw (e, e', e'') (cluster_size_of-Settles low high sectors i i' i'' l h s)

module _ (P : Posix) (law : IsPosix P) (fd : ℕ) (bytes : All IsByte (P.image fd)) where
  open P use {World, image}

  -- On a source of bytes, `read_cluster_size` ends and changes no file. The size that it returns is the
  -- product of the little-endian number at offset 11 of the source and the byte at offset 13, exactly and
  -- not zero.
  pub read_cluster_size-IsClusterSize :
      (w : World)
      → Ends
          (λ size v. Same P w v × IsClusterSize (image fd) size)
          (Same P w)
          (read_cluster_size P fd w)
  unfolding read_cluster_size
  read_cluster_size-IsClusterSize w = by_call (P.pread fd 512 0 w) refl
    where
      by_call :
          (c : Call (List ℕ) × World)
          → P.pread fd 512 0 w ≡ c
          → Ends (λ size v. Same P w v × IsClusterSize (image fd) size) (Same P w) (booted c)
      by_call (failure e, v) r =
          ends_throw (subst (λ c. Same P w c.1) r (law.pread_same fd 512 0 w))
      by_call (success boot, v) r = by_length (Bool-cases (length boot == 512))
        where
          same : Same P w v
          same = subst (λ c. Same P w c.1) r (law.pread_same fd 512 0 w)

          kept :
              {m : Result ℕ}
              → Settles (IsClusterSize (image fd)) m
              → Ends (λ size v'. Same P w v' × IsClusterSize (image fd) size) (Same P w) (m, v)
          kept (settled s) = ends_ok (same, s)
          kept thrown = ends_throw same

          by_length :
              ((length boot == 512) ≡ true) ⊎ ((length boot == 512) ≡ false)
              → Ends
                  (λ size v. Same P w v × IsClusterSize (image fd) size)
                  (Same P w)
                  (booted (success boot, v))
          by_length (inr f) = rw f (ends_throw same)
          by_length (inl t) =
              let whole : length boot ≡ 512 = ground arith in
              let read = (law.pread_done fd 512 0 w boot (ap (λ c. c.0) r)).2 in
              let on_source : boot ≡ take 512 (image fd) =
                read ∙ ap (λ (n : ℕ). take n (image fd)) whole in
              rw t (kept (geometry-Settles (image fd) boot bytes on_source whole))
