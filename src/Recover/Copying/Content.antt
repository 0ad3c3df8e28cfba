-- ===== src/Recover/Copying/Content.antt =====
-- What a file's data is, by its data attribute and the bytes of the source: an independent description.
use just_give_my_disk.Common.{
  ℕ, zero, suc, ◌+◌, ◌-◌, ◌*◌, ◌≡◌, refl, ap, sym, ◌∙◌, min, List, [], ◌∷◌, ◌++◌, length, take,
  drop, drop-drop, take-append-take, replicate, if◌then◌else◌, Bool, true, false, arith,
}
use just_give_my_disk.Common.Bytes.{slice}
use just_give_my_disk.Mft.{DataRun, DataAttribute}

-- The first `n` bytes of a run: zeros for a hole, else the source's bytes from its first cluster on.
abbrev pub run_content : List ℕ → ℕ → DataRun → ℕ → List ℕ
run_content image cluster_size run n =
    if run.sparse then replicate n 0 else slice image (run.lcn * cluster_size) n

-- The first `n` bytes of the runs.
unfoldable pub contents : List ℕ → ℕ → List DataRun → ℕ → List ℕ
contents image cluster_size [] n = []
contents image cluster_size (run ∷ runs) n =
    run_content image cluster_size run (min n (run.cluster_count * cluster_size))
    ++ contents image cluster_size runs (n - min n (run.cluster_count * cluster_size))

unfoldable pub file_content : List ℕ → ℕ → DataAttribute → List ℕ
file_content image cluster_size data_ =
    if data_.resident
    then take data_.real_size data_.resident_data
    else contents image cluster_size data_.runs data_.real_size

pub length-replicate {ℓ} : {A : Type ℓ} (n : ℕ) (a : A) → length (replicate n a) ≡ n
length-replicate zero a = refl
length-replicate (suc n) a = ap suc (length-replicate n a)

pub replicate-append {ℓ} :
    {A : Type ℓ} (n m k : ℕ) (a : A) → n + m ≡ k → replicate n a ++ replicate m a ≡ replicate k a
replicate-append zero m k a h = ap (λ (t : ℕ). replicate t a) (omega arith)
replicate-append (suc n) m zero a h = absurd (omega arith)
replicate-append (suc n) m (suc k) a h = ap (λ t. a ∷ t) (replicate-append n m k a (omega arith))

pub slice-append :
    (image : List ℕ) (offset n m k : ℕ)
    → n + m ≡ k
    → slice image offset n ++ slice image (offset + n) m ≡ slice image offset k
slice-append image offset n m k h =
    ap (λ t. take n (drop offset image) ++ take m t) (sym (drop-drop offset n image))
    ∙ take-append-take n m (drop offset image)
    ∙ ap (λ (t : ℕ). take t (drop offset image)) h

no_content :
    (image : List ℕ) (cluster_size : ℕ) (run : DataRun) (n : ℕ)
    → n ≡ 0
    → run_content image cluster_size run n ≡ []
no_content image cluster_size run n e = rw e (both run.sparse)
  where
    both : (b : Bool) → (if b then replicate 0 0 else slice image (run.lcn * cluster_size) 0) ≡ []
    both true = refl
    both false = refl

-- No bytes of any runs.
pub contents-zero :
    (image : List ℕ) (cluster_size : ℕ) (runs : List DataRun) (n : ℕ)
    → n ≡ 0
    → contents image cluster_size runs n ≡ []
unfolding contents
contents-zero image cluster_size [] n e = refl
contents-zero image cluster_size (run ∷ runs) n e =
    ap (λ t. t ++ contents image cluster_size runs (n - min n (run.cluster_count * cluster_size)))
      (no_content image cluster_size run (min n (run.cluster_count * cluster_size)) (omega arith))
    ∙ contents-zero image cluster_size runs (n - min n (run.cluster_count * cluster_size))
        (omega arith)
