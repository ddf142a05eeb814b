-- ===== src/Staging/Exported.antt =====
-- What the environment and the files hold after `Export`.
use das_boot.Prelude.{
  Bool, Bool-cases, Bytes, List, Option, Option-cases, String, [], ap, arith, bytes_equal, eq_iff,
  false, if◌then◌else◌, inl, inr, none, not, refl, some, str_eq, then_write-none, true, ◌&&◌, ◌||◌,
  ◌∙◌, ◌∷◌, ◌≡◌,
}
use das_boot.Staging.Info.{
  StagingError, chdir_failed, enter_dir, export_env, export_envs, export_file, export_files,
  failing, set_env_failed, write_failed,
}
use das_boot.Staging.Os.{Os, OsLaws}

-- What the variable holds after the assignments.
abbrev pub assigned : List (String × Bool × Bytes) → String → Option Bytes → Option Bytes
assigned [] name before = before
assigned ((n, skipped, b) ∷ vs) name before =
    assigned vs name (if skipped then before else if str_eq n name then some b else before)

-- No file of that name is written.
abbrev pub untouched : List (String × Bool × Bytes) → String → Bool
untouched [] name = true
untouched ((n, skipped, b) ∷ vs) name = (skipped || not (str_eq n name)) && untouched vs name

pub assigned-untouched :
    (vs : List (String × Bool × Bytes)) (name : String) (before : Option Bytes)
    → untouched vs name ≡ true
    → assigned vs name before ≡ before
assigned-untouched [] name before u = refl
assigned-untouched ((n, true, b) ∷ vs) name before u = assigned-untouched vs name before u
assigned-untouched ((n, false, b) ∷ vs) name before u = elim (Bool-cases (str_eq n name)) [
  | inl same ↦ ground arith
  | inr other ↦ rw other (assigned-untouched vs name before (ground arith))
]

module _ {S : Type 0} (os : Os S) (laws : OsLaws os) where
  failing-none :
      (e : StagingError) (m : Bool × S) (s' : S) → failing e m ≡ (none, s') → m ≡ (false, s')
  failing-none e (true, s) s' h = ground arith
  failing-none e (false, s) s' h = ground arith

  export_env-assigned :
      (name other : String) (skipped : Bool) (b : Bytes) (s s' : S)
      → export_env os name skipped b s ≡ (none, s')
      → os.lookup_env s' other ≡ (
          if skipped
          then os.lookup_env s other
          else if str_eq name other
          then some b
          else os.lookup_env s other)
  unfolding export_env
  export_env-assigned name other true b s s' h = ground arith
  export_env-assigned name other false b s s' h =
      let done = failing-none (set_env_failed name) (os.set_env s name b) s' h in
      elim (Bool-cases (str_eq name other)) [
        | inl same ↦ ground (arith, eq_iff name other, laws.lookup-set_env s s' name b done)
        | inr differs ↦ rw differs (laws.lookup-set_env_other s s' name other b differs done)
      ]

  pub export_envs-assigned :
      (vs : List (String × Bool × Bytes)) (name : String) (s s' : S)
      → export_envs os vs s ≡ (none, s')
      → os.lookup_env s' name ≡ assigned vs name (os.lookup_env s name)
  unfolding export_envs
  export_envs-assigned [] name s s' h = ground arith
  export_envs-assigned ((n, skipped, b) ∷ vs) name s s' h =
      let (s₁, one, more) =
        then_write-none (export_env os n skipped b s) (export_envs os vs) s' h in
      export_envs-assigned vs name s₁ s' more
      ∙ ap (assigned vs name) (export_env-assigned n name skipped b s s₁ one)

  pub export_envs-read :
      (vs : List (String × Bool × Bytes)) (dir : Bytes) (file : String) (s s' : S)
      → export_envs os vs s ≡ (none, s')
      → os.read_file s' dir file ≡ os.read_file s dir file
  unfolding export_envs export_env
  export_envs-read [] dir file s s' h = ground arith
  export_envs-read ((n, true, b) ∷ vs) dir file s s' h = export_envs-read vs dir file s s' h
  export_envs-read ((n, false, b) ∷ vs) dir file s s' h =
      let (s₁, one, more) =
        then_write-none (failing (set_env_failed n) (os.set_env s n b)) (export_envs os vs) s' h in
      export_envs-read vs dir file s₁ s' more
      ∙ laws.read-set_env s s₁ n b dir file
          (failing-none (set_env_failed n) (os.set_env s n b) s₁ one)

  pub export_files-untouched :
      (dir dir' : Bytes) (vs : List (String × Bool × Bytes)) (name : String) (s s' : S)
      → untouched vs name ≡ true
      → export_files os dir vs s ≡ (none, s')
      → os.read_file s' dir' name ≡ os.read_file s dir' name
  unfolding export_files export_file
  export_files-untouched dir dir' [] name s s' u h = ground arith
  export_files-untouched dir dir' ((n, true, b) ∷ vs) name s s' u h =
      export_files-untouched dir dir' vs name s s' u h
  export_files-untouched dir dir' ((n, false, b) ∷ vs) name s s' u h =
      let wrote = os.write_file s dir n b in
      let (s₁, one, more) =
        then_write-none (failing (write_failed n) wrote) (export_files os dir vs) s' h in
      export_files-untouched dir dir' vs name s₁ s' (ground arith) more
      ∙ laws.read-write_file_other s s₁ dir dir' n name b (ground arith)
          (failing-none (write_failed n) wrote s₁ one)

  pub export_files-lookup :
      (dir : Bytes) (vs : List (String × Bool × Bytes)) (name : String) (s s' : S)
      → export_files os dir vs s ≡ (none, s')
      → os.lookup_env s' name ≡ os.lookup_env s name
  unfolding export_files export_file
  export_files-lookup dir [] name s s' h = ground arith
  export_files-lookup dir ((n, true, b) ∷ vs) name s s' h = export_files-lookup dir vs name s s' h
  export_files-lookup dir ((n, false, b) ∷ vs) name s s' h =
      let wrote = os.write_file s dir n b in
      let (s₁, one, more) =
        then_write-none (failing (write_failed n) wrote) (export_files os dir vs) s' h in
      export_files-lookup dir vs name s₁ s' more
      ∙ laws.lookup-write_file s s₁ dir n b name (failing-none (write_failed n) wrote s₁ one)

  pub enter_dir-kept :
      (dir : Bytes) (s s' : S)
      → enter_dir os dir s ≡ (none, s')
      → ((name : String) → os.lookup_env s' name ≡ os.lookup_env s name)
        × ((dir' : Bytes) (file : String) → os.read_file s' dir' file ≡ os.read_file s dir' file)
  unfolding enter_dir
  enter_dir-kept dir s s' h = elim (Option-cases (os.getwd s)) [
    | inl bad ↦ ground arith
    | inr (pwd, there) ↦ elim (Bool-cases (bytes_equal pwd dir)) [
      | inl same ↦ (λ name. ground arith, λ dir' file. ground arith)
      | inr differs ↦
          let moved = failing-none chdir_failed (os.chdir s dir) s' (ground arith) in
          (
            λ name. laws.lookup-chdir s s' dir name moved,
            λ dir' file. laws.read-chdir s s' dir dir' file moved,
          )
    ]
  ]
