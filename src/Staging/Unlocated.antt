-- ===== src/Staging/Unlocated.antt =====
-- A staging information without a location.
use das_boot.Prelude.{
  Bytes, [], ap, arith, bind_err, bind_fails, err, is_empty, none, ok, some, sym, then_write-none,
  true, ◌∙◌, ◌≡◌, ◌≢◌,
}
use das_boot.Staging.Exported.{
  assigned-untouched, export_envs-assigned, export_envs-read, untouched,
}
use das_boot.Staging.Info.{
  StagingInfo, env_name_config_signature_ca, env_name_location_info, env_name_log_settings,
  env_name_onie_headers, env_name_server_ca, env_values, export, export_envs, export_steps,
  file_values, marshal_optional, path_config_signature_ca, path_location_info, path_log_settings,
  path_onie_headers, path_server_ca, persist, read_failed, read_staging_dir, read_staging_info,
  read_value,
}
use das_boot.Staging.Os.{Codec, Os, OsLaws}
use das_boot.Staging.Written.{export-Texts, persist-lookup, persist-untouched}

module _ {S L H I : Type 0} (os : Os S) (codec : Codec L H I) (laws : OsLaws os) where
  unlocated :
      (si : StagingInfo L H I) (log headers loc : Bytes)
      → si.location_info ≡ none
      → marshal_optional codec.marshal_location si.location_info ≡ some loc
      → is_empty loc ≡ true
  unlocated si log headers loc absent marshalled =
      let empty : some [] ≡ some loc =
        ap (marshal_optional codec.marshal_location) (sym absent) ∙ marshalled in
      ground arith

  file_values-untouched :
      (si : StagingInfo L H I) (log headers loc : Bytes)
      → is_empty loc ≡ true
      → untouched (file_values os codec si log headers loc) path_location_info ≡ true
  file_values-untouched si log headers loc empty = ground arith

  env_values-untouched :
      (si : StagingInfo L H I) (log headers loc : Bytes)
      → is_empty loc ≡ true
      → untouched (env_values os codec si log headers loc) env_name_location_info ≡ true
  env_values-untouched si log headers loc empty = ground arith

  read_value-failed :
      (dir : Bytes) (s : S)
      → os.lookup_env s env_name_location_info ≡ none
      → os.read_file s dir path_location_info ≡ none
      → read_value os codec env_name_location_info path_location_info codec.unmarshal_location
          codec.unmarshal_location dir s
        ≡ err (read_failed env_name_location_info)
  unfolding read_value
  read_value-failed dir s unset no_file = ground arith

  read_staging_info-unlocated :
      (s : S) (si : StagingInfo L H I)
      → os.lookup_env s env_name_location_info ≡ none
      → ((dir : Bytes) → os.read_file s dir path_location_info ≡ none)
      → read_staging_info os codec s ≢ ok si
  unfolding read_staging_info
  read_staging_info-unlocated s si unset no_file =
      bind_fails (read_staging_dir os codec s) _
        (λ dir.
          bind_fails
            (read_value os codec env_name_server_ca path_server_ca codec.base64_decode (λ b. some b)
              dir s)
            _
            (λ ca.
              bind_fails
                (read_value os codec env_name_config_signature_ca path_config_signature_ca
                  codec.base64_decode (λ b. some b) dir s)
                _
                (λ sig.
                  bind_fails
                    (read_value os codec env_name_log_settings path_log_settings
                      codec.unmarshal_log_settings codec.unmarshal_log_settings dir s)
                    _
                    (λ log.
                      bind_fails
                        (read_value os codec env_name_onie_headers path_onie_headers
                          codec.unmarshal_onie_headers codec.unmarshal_onie_headers dir s)
                        _
                        (λ headers si.
                          bind_err
                            (read_value os codec env_name_location_info path_location_info
                              codec.unmarshal_location codec.unmarshal_location dir s)
                            _ (read_failed env_name_location_info) si
                            (read_value-failed dir s unset (no_file dir)))))))
        si

  -- Stage 0 goes on without a location, but no later stage can: after an `Export` that succeeds without a
  -- location, `ReadStagingInfo` fails, if no location was left by an earlier export in the variable or in a
  -- file.
  pub export-unlocated :
      (si si' : StagingInfo L H I) (s s' : S)
      → si.location_info ≡ none
      → os.lookup_env s env_name_location_info ≡ none
      → ((dir : Bytes) → os.read_file s dir path_location_info ≡ none)
      → export os codec si s ≡ (none, s')
      → read_staging_info os codec s' ≢ ok si'
  unfolding export_steps
  export-unlocated si si' s s' absent unset no_file ran =
      let (log, headers, loc, (one, two, three), done) = export-Texts os codec laws si s s' ran in
      let vs = env_values os codec si log headers loc in
      let (s₁, persisted, exported) =
        then_write-none (persist os codec si log headers loc s) (export_envs os vs) s' done in
      let empty = unlocated si log headers loc absent three in
      let name = env_name_location_info in
      read_staging_info-unlocated s' si'
        (export_envs-assigned os laws vs name s₁ s' exported
          ∙ assigned-untouched vs name (os.lookup_env s₁ name)
              (env_values-untouched si log headers loc empty)
          ∙ persist-lookup os codec laws si log headers loc name s s₁ persisted
          ∙ unset)
        (λ dir.
          export_envs-read os laws vs dir path_location_info s₁ s' exported
          ∙ persist-untouched os codec laws si log headers loc dir path_location_info s s₁
              (file_values-untouched si log headers loc empty) persisted
          ∙ no_file dir)
