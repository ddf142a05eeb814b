-- ===== src/Staging/Written.antt =====
-- An export that succeeds, phase by phase.
use das_boot.Prelude.{
  Bool-cases, Bytes, Option-cases, String, ap, arith, inl, inr, is_empty, none, some, sym,
  then_write-none, true, ◌∙◌, ◌≡◌,
}
use das_boot.Staging.Exported.{
  enter_dir-kept, export_files-lookup, export_files-untouched, untouched,
}
use das_boot.Staging.Info.{
  StagingInfo, enter_dir, export, export_files, export_steps, file_values, marshal_optional,
  persist,
}
use das_boot.Staging.Os.{Codec, Os, OsLaws}

module _ {S L H I : Type 0} (os : Os S) (codec : Codec L H I) (laws : OsLaws os) where
  -- The JSON texts of an export that succeeds.
  abbrev pub Texts : StagingInfo L H I → Bytes → Bytes → Bytes → Type 0
  Texts si log headers loc =
      (codec.marshal_log_settings si.log_settings ≡ some log)
      × (marshal_optional codec.marshal_onie_headers si.onie_headers ≡ some headers)
      × (marshal_optional codec.marshal_location si.location_info ≡ some loc)

  pub export-Texts :
      (si : StagingInfo L H I) (s s' : S)
      → export os codec si s ≡ (none, s')
      → (log : Bytes) × (headers : Bytes) × (loc : Bytes) × Texts si log headers loc
        × (export_steps os codec si log headers loc s ≡ (none, s'))
  unfolding export
  export-Texts si s s' h = elim (Option-cases (codec.marshal_log_settings si.log_settings)) [
    | inl bad ↦ ground arith
    | inr (log, one) ↦
        elim (Option-cases (marshal_optional codec.marshal_onie_headers si.onie_headers)) [
          | inl bad ↦ ground arith
          | inr (headers, two) ↦
              elim (Option-cases (marshal_optional codec.marshal_location si.location_info)) [
                | inl bad ↦ ground arith
                | inr (loc, three) ↦ (log, headers, loc, (one, two, three), ground arith)
              ]
        ]
  ]

  pub persist-untouched :
      (si : StagingInfo L H I) (log headers loc dir : Bytes) (name : String) (s s' : S)
      → untouched (file_values os codec si log headers loc) name ≡ true
      → persist os codec si log headers loc s ≡ (none, s')
      → os.read_file s' dir name ≡ os.read_file s dir name
  unfolding persist
  persist-untouched si log headers loc dir name s s' u h =
      elim (Bool-cases (is_empty si.staging_dir)) [
        | inl unset ↦
            let stays : s ≡ s' = ground arith in ap (λ t. os.read_file t dir name) (sym stays)
        | inr set ↦
            let vs = file_values os codec si log headers loc in
            let entered = enter_dir os si.staging_dir s in
            let (s₁, one, two) =
              then_write-none entered (export_files os si.staging_dir vs) s' (ground arith) in
            export_files-untouched os laws si.staging_dir dir vs name s₁ s' u two
            ∙ (enter_dir-kept os laws si.staging_dir s s₁ one).1 dir name
      ]

  pub persist-lookup :
      (si : StagingInfo L H I) (log headers loc : Bytes) (name : String) (s s' : S)
      → persist os codec si log headers loc s ≡ (none, s')
      → os.lookup_env s' name ≡ os.lookup_env s name
  unfolding persist
  persist-lookup si log headers loc name s s' h = elim (Bool-cases (is_empty si.staging_dir)) [
    | inl unset ↦ let stays : s ≡ s' = ground arith in ap (λ t. os.lookup_env t name) (sym stays)
    | inr set ↦
        let vs = file_values os codec si log headers loc in
        let entered = enter_dir os si.staging_dir s in
        let (s₁, one, two) =
          then_write-none entered (export_files os si.staging_dir vs) s' (ground arith) in
        export_files-lookup os laws si.staging_dir vs name s₁ s' two
        ∙ (enter_dir-kept os laws si.staging_dir s s₁ one).0 name
  ]
