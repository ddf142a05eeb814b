-- ===== src/Partitions/Identity/Unfinished.antt =====
-- What `Open` and `Init` say of a partition after `Init`.
use mathlib.Core.Path.{subst}
use das_boot.Prelude.{
  Bool-cases, List, Option, Option-cases, String, [], arith, inl, inr, none, ok, refl, some, str_eq,
  sym, then_write, then_write-none, then_write-some, then_write-state, true, ◌∙◌, ◌∷◌, ◌≡◌, ◌≢◌,
  ◌⊎◌,
}
use das_boot.Partitions.Device.{Device, is_hedgehog_identity_partition}
use das_boot.Partitions.Identity.Files.{Files, FilesLaws, FsError, no_such_file, other_fs_error}
use das_boot.Partitions.Identity.Opening.{
  FsOp, OpenError, VersionCodec, already_initialized, check_version, clean, init, init_empty,
  make_directories, op_mkdir, op_read_dir, op_write, open_identity_partition, path_error, path_step,
  version1, version_file_path, write_version,
}

module _ {S : Type 0} (fs : Files S) (codec : VersionCodec) (fsl : FilesLaws fs) where
  HasVersion : S → Type 0
  HasVersion s = fs.read_file s version_file_path ≡ ok (codec.encode_version version1)

  -- Errors that come before the directories are made.
  IsEarly : OpenError → Type 0
  IsEarly e = (f : FsError) → e ≢ path_error op_mkdir f

  -- A step that fails at another operation.
  path_step-IsEarly :
      (op : FsOp) (m : Option FsError × S) (s' : S) (e : OpenError)
      → op ≢ op_mkdir
      → path_step op m ≡ (some e, s')
      → IsEarly e
  unfolding IsEarly
  path_step-IsEarly op (none, s) s' e other h f same = ground arith
  path_step-IsEarly op (some g, s) s' e other h f same = other (ground arith)

  path_step-none :
      (op : FsOp) (m : Option FsError × S) (s' : S) → path_step op m ≡ (none, s') → m ≡ (none, s')
  path_step-none op (none, s) s' h = ground arith
  path_step-none op (some e, s) s' h = ground arith

  path_step-state : (op : FsOp) (m : Option FsError × S) → (path_step op m).1 ≡ m.1
  path_step-state op (none, s) = refl
  path_step-state op (some e, s) = refl

  clean-IsEarly :
      (names : List String) (s s' : S) (e : OpenError) → clean fs names s ≡ (some e, s') → IsEarly e
  unfolding clean IsEarly
  clean-IsEarly [] s s' e h = λ f same. ground arith
  clean-IsEarly (name ∷ names) s s' e h =
      let o = (fs.remove_all s name).0 in
      let s₁ = (fs.remove_all s name).1 in
      elim (Bool-cases (str_eq name "lost+found")) [
        | inl skip ↦ clean-IsEarly names s s' e (ground arith)
        | inr real ↦ elim (Option-cases o) [
          | inl fine ↦ clean-IsEarly names s₁ s' e (ground arith)
          | inr (g, bad) ↦ λ f same. ground arith
        ]
      ]

  write_version-HasVersion : (s s' : S) → write_version fs codec s ≡ (none, s') → HasVersion s'
  unfolding write_version HasVersion
  write_version-HasVersion s s' h =
      fsl.read-write_file s s' version_file_path (codec.encode_version version1)
        (path_step-none op_write _ s' h)

  write_version-IsEarly :
      (s s' : S) (e : OpenError) → write_version fs codec s ≡ (some e, s') → IsEarly e
  unfolding write_version
  write_version-IsEarly s s' e h = path_step-IsEarly op_write _ s' e (λ same. ground arith) h

  mkdir-HasVersion :
      (s : S) (p : String) → HasVersion s → HasVersion (path_step op_mkdir (fs.mkdir s p)).1
  unfolding HasVersion
  mkdir-HasVersion s p before =
      rw (path_step-state op_mkdir (fs.mkdir s p))
        (fsl.read-mkdir s (fs.mkdir s p).1 p version_file_path (fs.mkdir s p).0 refl ∙ before)

  make_directories-HasVersion : (s : S) → HasVersion s → HasVersion (make_directories fs s).1
  unfolding make_directories
  make_directories-HasVersion s before =
      then_write-state HasVersion _ _ (mkdir-HasVersion s "/identity" before)
        (λ s'. mkdir-HasVersion s' "/location")

  prepared-IsEarly :
      (entries : List String) (s s' : S) (e : OpenError)
      → then_write (clean fs entries s) (write_version fs codec) ≡ (some e, s')
      → IsEarly e
  prepared-IsEarly entries s s' e h =
      elim (then_write-some (clean fs entries s) (write_version fs codec) e s' h) [
        | inl cleaning ↦ clean-IsEarly entries s s' e cleaning
        | inr (s₁, cleaned, writing) ↦ write_version-IsEarly s₁ s' e writing
      ]

  -- Success, or a directory that could not be made.
  abbrev pub IsLate : Option OpenError → Type 0
  IsLate r = (r ≡ none) ⊎ ((f : FsError) × (r ≡ some (path_error op_mkdir f)))

  not_late {ℓ} :
      {A : Type ℓ} (e : OpenError) (f : FsError) → IsEarly e → e ≡ path_error op_mkdir f → A
  unfolding IsEarly
  not_late e f early same = elim (early f same) [ ]

  prepared-HasVersion :
      (entries : List String) (s : S) (m : Option OpenError × S)
      → then_write (clean fs entries s) (write_version fs codec) ≡ m
      → IsLate (then_write m (make_directories fs)).0
      → HasVersion (then_write m (make_directories fs)).1
  prepared-HasVersion entries s (none, s₁) same late =
      let (s₀, cleaned, wrote) =
        then_write-none (clean fs entries s) (write_version fs codec) s₁ same in
      make_directories-HasVersion s₁ (write_version-HasVersion s₀ s₁ wrote)
  prepared-HasVersion entries s (some e, s₁) same (inl fine) = ground arith
  prepared-HasVersion entries s (some e, s₁) same (inr (f, late)) =
      let early = prepared-IsEarly entries s s₁ e same in
      let mkdir_failed : e ≡ path_error op_mkdir f = ground arith in not_late e f early mkdir_failed

  init_empty-unlisted :
      (s : S)
      → fs.read_dir s ≡ none
      → init_empty fs codec s ≡ (some (path_error op_read_dir other_fs_error), s)
  unfolding init_empty
  init_empty-unlisted s h = ground arith

  init_empty-listed :
      (s : S) (entries : List String)
      → fs.read_dir s ≡ some entries
      → init_empty fs codec s
        ≡ then_write
            (then_write (clean fs entries s) (write_version fs codec))
            (make_directories fs)
  unfolding init_empty
  init_empty-listed s entries h = ground arith

  init_empty-HasVersion :
      (s : S) (m : Option OpenError × S) → init_empty fs codec s ≡ m → IsLate m.0 → HasVersion m.1
  init_empty-HasVersion s m same late = elim (Option-cases (fs.read_dir s)) [
    | inl bad ↦ let what = sym same ∙ init_empty-unlisted s bad in ground arith
    | inr (entries, listed) ↦
        let what = sym (init_empty-listed s entries listed) ∙ same in
        let kept =
          prepared-HasVersion entries s (then_write (clean fs entries s) (write_version fs codec))
            refl in
        subst (λ m. IsLate m.0 → HasVersion m.1) what kept late
  ]

  HasVersion-open_identity_partition :
      (d : Device) (s : S)
      → codec.decode_version (codec.encode_version version1) ≡ some version1
      → is_hedgehog_identity_partition d ≡ true
      → HasVersion s
      → (open_identity_partition fs codec d s ≡ ok tt)
        × (init fs codec d s ≡ (some already_initialized, s))
  unfolding HasVersion open_identity_partition check_version init
  HasVersion-open_identity_partition d s reads fine has_version =
      let found = fsl.stat-read s version_file_path (codec.encode_version version1) has_version in
      (ground arith, ground arith)

  -- After `Init` succeeds, and also after it fails at making a directory, `Open` succeeds and `Init`
  -- says that the partition is initialized already: a failed directory is never made again.
  pub init-open_identity_partition :
      (d : Device) (s s' : S) (r : Option OpenError)
      → codec.decode_version (codec.encode_version version1) ≡ some version1
      → init fs codec d s ≡ (r, s')
      → IsLate r
      → (open_identity_partition fs codec d s' ≡ ok tt)
        × (init fs codec d s' ≡ (some already_initialized, s'))
  unfolding init
  init-open_identity_partition d s s' r reads ran late =
      elim (Bool-cases (is_hedgehog_identity_partition d)) [
        | inr wrong ↦ ground arith
        | inl fine ↦ elim (Option-cases (fs.stat s version_file_path)) [
          | inl found ↦ ground arith
          | inr (other_fs_error, bad) ↦ ground arith
          | inr (no_such_file, new) ↦
              HasVersion-open_identity_partition d s' reads fine
                (init_empty-HasVersion s (r, s') (ground arith) late)
        ]
      ]
