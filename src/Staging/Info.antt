-- ===== src/Staging/Info.antt =====
-- `StagingInfo` with `Export` and `ReadStagingInfo`.
use das_boot.Prelude.{
  Bool, Bytes, List, Option, Result, String, [], bytes_equal, err, false, if◌then◌else◌, is_empty,
  none, ok, or_error, some, then_write, true, ◌>>=◌, ◌∷◌,
}
use das_boot.Prelude.Text.{codes}
use das_boot.Staging.Os.{Codec, Os}

pub record StagingInfo (L H I : Type 0) : Type 0 where
  pub staging_dir : Bytes
  pub server_ca : Bytes
  pub config_signature_ca : Bytes
  pub log_settings : L
  pub onie_headers : Option H
  pub location_info : Option I
  pub device_id : Bytes

pub data StagingError : Type 0 where
  encoding_failed no_working_directory chdir_failed no_device_id : StagingError
  write_failed set_env_failed read_failed decoding_failed : String → StagingError

abbrev pub env_name_staging_dir : String
env_name_staging_dir = "dasboot_staging_dir"

abbrev pub env_name_server_ca : String
env_name_server_ca = "dasboot_server_ca"

abbrev pub env_name_config_signature_ca : String
env_name_config_signature_ca = "dasboot_config_signature_ca"

abbrev pub env_name_log_settings : String
env_name_log_settings = "dasboot_log_settings"

abbrev pub env_name_onie_headers : String
env_name_onie_headers = "dasboot_onie_headers"

abbrev pub env_name_location_info : String
env_name_location_info = "dasboot_location_info"

abbrev pub env_name_device_id : String
env_name_device_id = "dasboot_hhdevid"

abbrev pub path_server_ca : String
path_server_ca = "server-ca.der"

abbrev pub path_config_signature_ca : String
path_config_signature_ca = "config-signature-ca.der"

abbrev pub path_log_settings : String
path_log_settings = "log-settings.json"

abbrev pub path_onie_headers : String
path_onie_headers = "onie-headers.json"

abbrev pub path_location_info : String
path_location_info = "location-info.json"

-- No bytes for a value that is not there.
abbrev pub marshal_optional : {A : Type 0} → (A → Option Bytes) → Option A → Option Bytes
marshal_optional marshal none = some []
marshal_optional marshal (some a) = marshal a

abbrev pub failing : {S : Type 0} → StagingError → Bool × S → Option StagingError × S
failing e (true, s) = (some e, s)
failing e (false, s) = (none, s)

module _ {S : Type 0} (os : Os S) where
  unfoldable pub export_env : String → Bool → Bytes → S → Option StagingError × S
  export_env name skipped b s =
      if skipped then (none, s) else failing (set_env_failed name) (os.set_env s name b)

  unfoldable pub export_file : Bytes → String → Bool → Bytes → S → Option StagingError × S
  export_file dir name skipped b s =
      if skipped then (none, s) else failing (write_failed name) (os.write_file s dir name b)

  unfoldable pub export_envs : List (String × Bool × Bytes) → S → Option StagingError × S
  export_envs [] s = (none, s)
  export_envs ((name, skipped, b) ∷ vs) s =
      then_write (export_env name skipped b s) (export_envs vs)

  unfoldable pub export_files : Bytes → List (String × Bool × Bytes) → S → Option StagingError × S
  export_files dir [] s = (none, s)
  export_files dir ((name, skipped, b) ∷ vs) s =
      then_write (export_file dir name skipped b s) (export_files dir vs)

  unfoldable pub enter_dir : Bytes → S → Option StagingError × S
  enter_dir dir s = elim (os.getwd s) [
    | none ↦ (some no_working_directory, s)
    | some pwd ↦ if bytes_equal pwd dir then (none, s) else failing chdir_failed (os.chdir s dir)
  ]

module _ {S L H I : Type 0} (os : Os S) (codec : Codec L H I) where
  abbrev pub Step : Type 0
  Step = S → Option StagingError × S

  -- What goes into files and into variables: a name, whether it is left out, and the bytes. The
  -- arguments are the JSON texts.
  abbrev pub file_values : StagingInfo L H I → Bytes → Bytes → Bytes → List (String × Bool × Bytes)
  file_values si log headers loc =
      (path_server_ca, is_empty si.server_ca, si.server_ca)
      ∷ (path_config_signature_ca, is_empty si.config_signature_ca, si.config_signature_ca)
      ∷ (path_log_settings, false, log)
      ∷ (path_onie_headers, is_empty headers, headers)
      ∷ (path_location_info, is_empty loc, loc)
      ∷ []

  abbrev pub env_values : StagingInfo L H I → Bytes → Bytes → Bytes → List (String × Bool × Bytes)
  env_values si log headers loc =
      (env_name_staging_dir, is_empty si.staging_dir, si.staging_dir)
      ∷ (env_name_server_ca, is_empty si.server_ca, codec.base64_encode si.server_ca)
      ∷ (
        env_name_config_signature_ca,
        is_empty si.config_signature_ca,
        codec.base64_encode si.config_signature_ca,
      )
      ∷ (env_name_log_settings, bytes_equal log (codes "{}"), log)
      ∷ (env_name_onie_headers, is_empty headers, headers)
      ∷ (env_name_location_info, is_empty loc, loc)
      ∷ (env_name_device_id, is_empty si.device_id, si.device_id)
      ∷ []

  unfoldable pub persist : StagingInfo L H I → Bytes → Bytes → Bytes → Step
  persist si log headers loc s =
      if is_empty si.staging_dir
      then (none, s)
      else then_write (enter_dir os si.staging_dir s)
          (export_files os si.staging_dir (file_values si log headers loc))

  -- Files only if the staging directory is set.
  unfoldable pub export_steps : StagingInfo L H I → Bytes → Bytes → Bytes → Step
  export_steps si log headers loc s =
      then_write (persist si log headers loc s) (export_envs os (env_values si log headers loc))

  unfoldable pub export : StagingInfo L H I → Step
  export si s = elim (codec.marshal_log_settings si.log_settings) [
    | none ↦ (some encoding_failed, s)
    | some log ↦ elim (marshal_optional codec.marshal_onie_headers si.onie_headers) [
      | none ↦ (some encoding_failed, s)
      | some headers ↦ elim (marshal_optional codec.marshal_location si.location_info) [
        | none ↦ (some encoding_failed, s)
        | some loc ↦ export_steps si log headers loc s
      ]
    ]
  ]

  -- A value from the environment, or from the file if the variable is not set.
  unfoldable pub read_value :
      {A : Type 0}
      → String
      → String
      → (Bytes → Option A)
      → (Bytes → Option A)
      → Bytes
      → S
      → Result StagingError A
  read_value env_name path from_env from_file dir s = elim (os.lookup_env s env_name) [
    | some b ↦ or_error (from_env b) (decoding_failed env_name)
    | none ↦ elim (os.read_file s dir path) [
      | none ↦ err (read_failed env_name)
      | some b ↦ or_error (from_file b) (decoding_failed env_name)
    ]
  ]

  unfoldable pub read_staging_dir : S → Result StagingError Bytes
  read_staging_dir s = elim (os.lookup_env s env_name_staging_dir) [
    | some dir ↦ ok dir
    | none ↦ or_error (os.getwd s) no_working_directory
  ]

  abbrev pub determined_id : Bytes → Result StagingError Bytes
  determined_id b = if is_empty b then err no_device_id else ok b

  -- An empty variable counts as unset.
  unfoldable pub read_device_id : S → Result StagingError Bytes
  read_device_id s = elim (os.lookup_env s env_name_device_id) [
    | none ↦ determined_id (os.device_id s)
    | some b ↦ if is_empty b then determined_id (os.device_id s) else ok b
  ]

  unfoldable pub read_staging_info : S → Result StagingError (StagingInfo L H I)
  read_staging_info s = do
    dir ← read_staging_dir s
    ca ← read_value env_name_server_ca path_server_ca codec.base64_decode (λ b. some b) dir s
    sig ←
        read_value env_name_config_signature_ca path_config_signature_ca codec.base64_decode
          (λ b. some b) dir s
    log ←
        read_value env_name_log_settings path_log_settings codec.unmarshal_log_settings
          codec.unmarshal_log_settings dir s
    headers ←
        read_value env_name_onie_headers path_onie_headers codec.unmarshal_onie_headers
          codec.unmarshal_onie_headers dir s
    loc ←
        read_value env_name_location_info path_location_info codec.unmarshal_location
          codec.unmarshal_location dir s
    id ← read_device_id s
    ok (record {
      staging_dir = dir;
      server_ca = ca;
      config_signature_ca = sig;
      log_settings = log;
      onie_headers = some headers;
      location_info = some loc;
      device_id = id;
    })
