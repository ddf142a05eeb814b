-- ===== src/Staging/RoundTrip.antt =====
-- What `ReadStagingInfo` makes of what `Export` left.
use das_boot.Prelude.{
  Bool, Bool-cases, Bytes, List, Option, String, [], ap, arith, bytes_equal, bytes_equal_iff, false,
  inl, inr, is_empty, none, ok, refl, some, sym, then_write-none, ◌∙◌, ◌∷◌, ◌≡◌, ◌≢◌,
}
use das_boot.Prelude.Text.{codes}
use das_boot.Staging.Exported.{assigned, export_envs-assigned}
use das_boot.Staging.Info.{
  StagingInfo, env_name_config_signature_ca, env_name_device_id, env_name_location_info,
  env_name_log_settings, env_name_onie_headers, env_name_server_ca, env_name_staging_dir,
  env_values, export, export_envs, export_steps, marshal_optional, path_config_signature_ca,
  path_location_info, path_log_settings, path_onie_headers, path_server_ca, persist, read_device_id,
  read_staging_dir, read_staging_info, read_value,
}
use das_boot.Staging.Os.{Codec, CodecLaws, Os, OsLaws}
use das_boot.Staging.Written.{export-Texts}

module _ {S L H I : Type 0} (os : Os S) (codec : Codec L H I) (laws : OsLaws os)
    (claws : CodecLaws codec) where
  -- Every variable has the value of its field.
  record IsHeld (si : StagingInfo L H I) (log headers loc : Bytes) (env : String → Option Bytes)
      : Type 0 where
    dir : env env_name_staging_dir ≡ some si.staging_dir
    ca : env env_name_server_ca ≡ some (codec.base64_encode si.server_ca)
    sig : env env_name_config_signature_ca ≡ some (codec.base64_encode si.config_signature_ca)
    log_ : env env_name_log_settings ≡ some log
    headers_ : env env_name_onie_headers ≡ some headers
    loc_ : env env_name_location_info ≡ some loc
    id : env env_name_device_id ≡ some si.device_id

  -- The assignments when nothing is left out.
  abbrev set_values : StagingInfo L H I → Bytes → Bytes → Bytes → List (String × Bool × Bytes)
  set_values si log headers loc =
      (env_name_staging_dir, false, si.staging_dir)
      ∷ (env_name_server_ca, false, codec.base64_encode si.server_ca)
      ∷ (env_name_config_signature_ca, false, codec.base64_encode si.config_signature_ca)
      ∷ (env_name_log_settings, false, log)
      ∷ (env_name_onie_headers, false, headers)
      ∷ (env_name_location_info, false, loc)
      ∷ (env_name_device_id, false, si.device_id)
      ∷ []

  assigned-IsHeld :
      (si : StagingInfo L H I) (log headers loc : Bytes) (env env' : String → Option Bytes)
      → is_empty si.staging_dir ≡ false
      → is_empty si.server_ca ≡ false
      → is_empty si.config_signature_ca ≡ false
      → is_empty si.device_id ≡ false
      → bytes_equal log (codes "{}") ≡ false
      → is_empty headers ≡ false
      → is_empty loc ≡ false
      → ((name : String)
          → env' name ≡ assigned (env_values os codec si log headers loc) name (env name))
      → IsHeld si log headers loc env'
  assigned-IsHeld si log headers loc env env' d c g i l h o held =
      let all_set : env_values os codec si log headers loc ≡ set_values si log headers loc =
        rw (d, c, g, i, l, h, o) refl in
      let now : (name : String)
          → env' name ≡ assigned (set_values si log headers loc) name (env name) =
        λ name. held name ∙ ap (λ vs. assigned vs name (env name)) all_set in
      record {
        dir = now env_name_staging_dir;
        ca = now env_name_server_ca;
        sig = now env_name_config_signature_ca;
        log_ = now env_name_log_settings;
        headers_ = now env_name_onie_headers;
        loc_ = now env_name_location_info;
        id = now env_name_device_id;
      }

  read_value-held :
      {A : Type 0} (name path : String) (from_env from_file : Bytes → Option A) (dir b : Bytes)
      (a : A) (s : S)
      → os.lookup_env s name ≡ some b
      → from_env b ≡ some a
      → read_value os codec name path from_env from_file dir s ≡ ok a
  unfolding read_value
  read_value-held name path from_env from_file dir b a s held reads = ground arith

  read_staging_dir-held :
      (dir : Bytes) (s : S)
      → os.lookup_env s env_name_staging_dir ≡ some dir
      → read_staging_dir os codec s ≡ ok dir
  unfolding read_staging_dir
  read_staging_dir-held dir s held = ground arith

  read_device_id-held :
      (id : Bytes) (s : S)
      → is_empty id ≡ false
      → os.lookup_env s env_name_device_id ≡ some id
      → read_device_id os codec s ≡ ok id
  unfolding read_device_id
  read_device_id-held id s set held = ground arith

  IsHeld-read_staging_info :
      (si : StagingInfo L H I) (h : H) (i : I) (log headers loc : Bytes) (s : S)
      → is_empty si.device_id ≡ false
      → codec.unmarshal_log_settings log ≡ some si.log_settings
      → codec.unmarshal_onie_headers headers ≡ some h
      → codec.unmarshal_location loc ≡ some i
      → IsHeld si log headers loc (os.lookup_env s)
      → read_staging_info os codec s
        ≡ ok (record si { onie_headers = some h; location_info = some i })
  unfolding read_staging_info
  IsHeld-read_staging_info si h i log headers loc s has_id l hd lc held =
      let dir = si.staging_dir in
      rw
        (
          read_staging_dir-held dir s held.dir,
          read_value-held env_name_server_ca path_server_ca codec.base64_decode (λ b. some b) dir _
              si.server_ca s held.ca (claws.base64_decode-base64_encode si.server_ca),
          read_value-held env_name_config_signature_ca path_config_signature_ca codec.base64_decode
              (λ b. some b) dir _ si.config_signature_ca s held.sig
              (claws.base64_decode-base64_encode si.config_signature_ca),
          read_value-held env_name_log_settings path_log_settings codec.unmarshal_log_settings
              codec.unmarshal_log_settings dir log si.log_settings s held.log_ l,
          read_value-held env_name_onie_headers path_onie_headers codec.unmarshal_onie_headers
              codec.unmarshal_onie_headers dir headers h s held.headers_ hd,
          read_value-held env_name_location_info path_location_info codec.unmarshal_location
              codec.unmarshal_location dir loc i s held.loc_ lc,
          read_device_id-held si.device_id s has_id held.id,
        )
        refl

  -- Log settings whose JSON text is not `{}`.
  log_set :
      (l : L) (log : Bytes)
      → codec.marshal_log_settings l ≢ some (codes "{}")
      → codec.marshal_log_settings l ≡ some log
      → bytes_equal log (codes "{}") ≡ false
  log_set l log other marshalled = elim (Bool-cases (bytes_equal log (codes "{}"))) [
    | inl same ↦ elim (other (marshalled ∙ ap some ((bytes_equal_iff log (codes "{}")).0 same))) [ ]
    | inr differs ↦ differs
  ]

  -- What is exported is read back: a staging information whose fields are all set, and whose log settings
  -- are not all default ones, is the result of `ReadStagingInfo` after an `Export` that succeeds, whatever
  -- the environment was before.
  pub export-read_staging_info :
      (si : StagingInfo L H I) (h : H) (i : I) (s s' : S)
      → is_empty si.staging_dir ≡ false
      → is_empty si.server_ca ≡ false
      → is_empty si.config_signature_ca ≡ false
      → is_empty si.device_id ≡ false
      → si.onie_headers ≡ some h
      → si.location_info ≡ some i
      → codec.marshal_log_settings si.log_settings ≢ some (codes "{}")
      → export os codec si s ≡ (none, s')
      → read_staging_info os codec s' ≡ ok si
  unfolding export_steps
  export-read_staging_info si h i s s' has_dir has_ca has_sig has_id has_headers has_location
        has_log ran =
      let (log, headers, loc, (one, two, three), done) = export-Texts os codec laws si s s' ran in
      let vs = env_values os codec si log headers loc in
      let (s₁, persisted, exported) =
        then_write-none (persist os codec si log headers loc s) (export_envs os vs) s' done in
      let (headers_back, headers_set) =
        claws.read_onie_headers h headers
          (ap (marshal_optional codec.marshal_onie_headers) (sym has_headers) ∙ two) in
      let (loc_back, loc_set) =
        claws.read_location i loc
          (ap (marshal_optional codec.marshal_location) (sym has_location) ∙ three) in
      let held =
        assigned-IsHeld si log headers loc (os.lookup_env s₁) (os.lookup_env s') has_dir has_ca
          has_sig has_id (log_set si.log_settings log has_log one) headers_set loc_set
          (λ name. export_envs-assigned os laws vs name s₁ s' exported) in
      IsHeld-read_staging_info si h i log headers loc s' has_id
        (claws.read_log_settings si.log_settings log one) headers_back loc_back held
      ∙ ap (λ a. ok (record si { onie_headers = a; location_info = some i })) (sym has_headers)
      ∙ ap (λ b. ok (record si { location_info = b })) (sym has_location)
