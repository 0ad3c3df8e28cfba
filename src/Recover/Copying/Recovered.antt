-- ===== src/Recover/Copying/Recovered.antt =====
-- `recover_file`: what is under the file's name when it returns, and when it throws.
use just_give_my_disk.Common.{
  ℕ, ◌≡◌, ◌≤◌, ◌⊎◌, refl, sym, ap, ◌∙◌, min, Bool, true, false, not, ◌&&◌, none, some, List, [],
  ◌∷◌, All, length, length-take, take, ltb, ◌==◌, ==_iff, if◌then◌else◌, arith, Bool-cases, inl,
  inr, got, Returns-value,
}
use just_give_my_disk.Common.Bytes.{IsByte}
use just_give_my_disk.Output.Posix.{Posix, IsPosix, regular}
use just_give_my_disk.Output.Result.{
  Result, ok, and_then, Ends, ends_ok, Ends-weaken, Ends-and_then,
}
use just_give_my_disk.Output.AtomicFile.{AtomicFile, partial_of, is_replaceable, write_output}
use just_give_my_disk.Output.AtomicFile.Writing.{write_output-Grown}
use just_give_my_disk.Output.AtomicFile.Publishing.{Others, Saved, Writes, with_output-Saved}
use just_give_my_disk.Mft.{DataAttribute}
use just_give_my_disk.Mft.Attributes.{data_attributes}
use just_give_my_disk.Mft.Attributes.Bounds.{data_attributes-IsAttribute}
use just_give_my_disk.Recover.Copying.{
  copy_nonresident, copy_data, recover_attributes, recover_file,
}
use just_give_my_disk.Recover.Copying.Content.{contents, file_content}
use just_give_my_disk.Recover.Copying.Runs.{copy_runs-RunsCopied}

size_cases :
    (size real : ℕ) → (not (size == 0) && ltb size real) ≡ false → (size ≡ 0) ⊎ (real ≤ size)
size_cases size real e = ground arith

false≢true : false ≡ true → ⊥
false≢true e = cc

module _ (P : Posix) (law : IsPosix P) (fd cluster_size : ℕ) where
  open P use {World, node, image}

  abbrev content_of : Bool → DataAttribute → List ℕ
  content_of resident data_ =
      if resident
      then take data_.real_size data_.resident_data
      else contents (image fd) cluster_size data_.runs data_.real_size

  abbrev copy_by : Bool → DataAttribute → AtomicFile → World → Result Bool × World
  copy_by resident data_ out w =
      if resident
      then and_then
          (write_output P out
            (take (min data_.real_size (length data_.resident_data)) data_.resident_data) w)
          (λ _ v. (ok (min data_.real_size (length data_.resident_data) == data_.real_size), v))
      else copy_nonresident P fd data_ cluster_size data_.real_size out w

  copy_by-Writes :
      (resident : Bool) (data_ : DataAttribute) (partial : List ℕ)
      → Writes P law partial
          (content_of resident data_)
          (length (content_of resident data_) ≡ data_.real_size)
          (copy_by resident data_)
  unfolding copy_nonresident
  copy_by-Writes true data_ partial out target v has named fresh =
      Ends-and_then
        (write_output-Grown P law partial target out
          (take (min data_.real_size (length data_.resident_data)) data_.resident_data) [] v has
          named fresh)
        (λ _ u g. ends_ok (
          g.same,
          λ e.
              let whole : min data_.real_size (length data_.resident_data) ≡ data_.real_size =
                (==_iff _ _).0 e in
              (
                g.holds ∙ ap (λ (n : ℕ). some (regular (take n data_.resident_data))) whole,
                length-take data_.real_size data_.resident_data ∙ whole,
              ),
        ))
  copy_by-Writes false data_ partial out target v has named fresh =
      Ends-weaken
        (copy_runs-RunsCopied P law fd cluster_size out partial target has data_.runs
          data_.real_size [] v (named, fresh))
        (λ done u k. (k.0, λ e. ((k.1 e).0.holds, (k.1 e).1))) (λ u s. s)

  -- The code between the opening of the output and its commit writes the described content.
  pub copy_data-Writes :
      (data_ : DataAttribute) (partial : List ℕ)
      → Writes P law partial
          (file_content (image fd) cluster_size data_)
          (length (file_content (image fd) cluster_size data_) ≡ data_.real_size)
          (copy_data P fd data_ cluster_size)
  unfolding file_content copy_data
  copy_data-Writes data_ partial = copy_by-Writes data_.resident data_ partial

  -- The path has the content of the record's first data attribute, all of its size.
  pub record IsRestored (mft_bytes : List ℕ) (record_size : ℕ) (path : List ℕ) (u : World)
      : Type 0 where
    pub data_ : DataAttribute
    pub more : List DataAttribute
    pub parsed : data_attributes mft_bytes ≡ got (data_ ∷ more)
    pub not_larger : (record_size ≡ 0) ⊎ (data_.real_size ≤ record_size)
    pub content : node u path ≡ some (regular (file_content (image fd) cluster_size data_))
    pub whole : length (file_content (image fd) cluster_size data_) ≡ data_.real_size

  module _ (mft_bytes : List ℕ) (record_size : ℕ) (path : List ℕ) (overwrite : Bool)
      (w : World) where
    pub record Returned (done : Bool) (u : World) : Type 0 where
      pub restored :
          done ≡ true
          → IsRestored mft_bytes record_size path u
            × (node u (partial_of path) ≡ none)
            × (is_replaceable overwrite (node w path) ≡ true)
      pub skipped : done ≡ false → node u path ≡ node w path
      pub elsewhere : Others P law path (partial_of path) w u

    pub record Thrown (u : World) : Type 0 where
      pub kept_or_whole : (node u path ≡ node w path) ⊎ IsRestored mft_bytes record_size path u
      pub refused : is_replaceable overwrite (node w path) ≡ false → node u path ≡ node w path
      pub elsewhere : Others P law path (partial_of path) w u

    nothing_done : Returned false w
    nothing_done = record {
      restored = λ e. absurd (false≢true e);
      skipped = λ _. refl;
      elsewhere = λ q _ _. refl;
    }

    saved_lem :
        (data_ : DataAttribute) (more : List DataAttribute) (done : Bool) (u : World)
        → data_attributes mft_bytes ≡ got (data_ ∷ more)
        → (record_size ≡ 0) ⊎ (data_.real_size ≤ record_size)
        → Saved P law path
            (partial_of path)
            (file_content (image fd) cluster_size data_)
            (length (file_content (image fd) cluster_size data_) ≡ data_.real_size)
            w
            done
            u
        → is_replaceable overwrite (node w path) ≡ true
        → Returned done u
    saved_lem data_ more true u e small s free = record {
      restored = λ _. (
        record {
          data_ = data_;
          more = more;
          parsed = e;
          not_larger = small;
          content = s.result;
          whole = s.checked refl;
        },
        s.gone refl,
        free,
      );
      skipped = λ f. absurd (false≢true (sym f));
      elsewhere = s.elsewhere;
    }
    saved_lem data_ more false u e small s free = record {
      restored = λ f. absurd (false≢true f);
      skipped = λ _. s.result;
      elsewhere = s.elsewhere;
    }

    recover_attributes_lem :
        (attributes : List DataAttribute)
        → data_attributes mft_bytes ≡ got attributes
        → Ends Returned Thrown
            (recover_attributes P fd record_size attributes cluster_size path overwrite w)
    unfolding recover_attributes
    recover_attributes_lem [] e = ends_ok nothing_done
    recover_attributes_lem (data_ ∷ more) e =
        elim (Bool-cases (not (record_size == 0) && ltb record_size data_.real_size)) [
          | inl t ↦ rw t (ends_ok nothing_done)
          | inr f ↦
              let small : (record_size ≡ 0) ⊎ (data_.real_size ≤ record_size) =
                size_cases record_size data_.real_size f in
              rw f (
                Ends-weaken
                  (with_output-Saved P law path overwrite
                    (file_content (image fd) cluster_size data_)
                    (length (file_content (image fd) cluster_size data_) ≡ data_.real_size)
                    (copy_data P fd data_ cluster_size) w
                    (copy_data-Writes data_ (partial_of path)))
                  (λ done u s. saved_lem data_ more done u e small s.0 s.1)
                  (λ u t. record {
                    kept_or_whole = elim t.0.result [
                      | inl h ↦ inl h
                      | inr (h, whole) ↦ inr (record {
                        data_ = data_;
                        more = more;
                        parsed = e;
                        not_larger = small;
                        content = h;
                        whole = whole;
                      })
                    ];
                    refused = t.1;
                    elsewhere = t.0.elsewhere;
                  }))
        ]

    -- On a record of bytes `recover_file` ends, and changes nothing but the file's path and its
    -- partial path. If it returns true, the path was free or held a regular file that may be
    -- replaced; it now holds exactly the content of the record's first data attribute, of that
    -- attribute's size, no larger than a size that the index knows; and nothing is under the
    -- partial path. If it returns false, the path is as it was. If it throws, the path is as it
    -- was, or it was free or replaceable and holds that content.
    pub recover_file-Returned :
        All IsByte mft_bytes
        → Ends Returned Thrown
            (recover_file P fd record_size mft_bytes cluster_size path overwrite w)
    unfolding recover_file
    recover_file-Returned hb =
        let (attributes, e, _) = Returns-value (data_attributes-IsAttribute mft_bytes hb) in
        rw e (recover_attributes_lem attributes e)
