-- ===== src/Staging/Tests.antt =====
-- An operating system whose environment and files are maps.
use das_boot.Prelude.GoMap
use das_boot.Prelude.{
  Bytes, Option, [], arith, bytes_equal, false, none, ok, refl, some, ℕ, ◌∷◌, ◌≡◌, ◌≢◌,
}
use das_boot.Staging.Info.{
  StagingInfo, enter_dir, export, export_env, export_envs, export_file, export_files, export_steps,
  persist, read_staging_info,
}
use das_boot.Staging.Os.{Codec, CodecLaws, Os, OsLaws}
use das_boot.Staging.RoundTrip.{export-read_staging_info}
use das_boot.Staging.Unlocated.{export-unlocated}

record World : Type 0 where
  env : GoMap.Map Bytes
  files : GoMap.Map Bytes

abbrev toy_os : Os World
toy_os = record {
  getwd = λ w. some [];
  chdir = λ w dir. (false, w);
  lookup_env = λ w name. GoMap.get w.env name;
  set_env = λ w name b. (false, record { env = GoMap.put w.env name b; files = w.files });
  read_file = λ w dir file. GoMap.get w.files file;
  write_file = λ w dir file b. (false, record { env = w.env; files = GoMap.put w.files file b });
  device_id = λ w. 1 ∷ [];
}

toy-OsLaws : OsLaws toy_os
toy-OsLaws = record {
  lookup-set_env = λ w w' name b h. ground (arith, GoMap.get-put_self w.env name b);
  lookup-set_env_other = λ w w' name other b n h. ground (arith, GoMap.get-put w.env name other b);
  read-set_env = λ w w' name b dir file h. ground arith;
  lookup-write_file = λ w w' dir file b name h. ground arith;
  lookup-chdir = λ w w' dir name h. ground arith;
  read-chdir = λ w w' dir dir' file h. ground arith;
  read-write_file_other =
      λ w w' dir dir' file other b n h. ground (arith, GoMap.get-put w.files file other b);
}

abbrev toy_parse : Bytes → Option ℕ
toy_parse (n ∷ []) = some n
toy_parse _ = none

abbrev toy_codec : Codec ℕ ℕ ℕ
toy_codec = record {
  base64_encode = λ b. b;
  base64_decode = λ b. some b;
  marshal_log_settings = λ n. some (n ∷ []);
  unmarshal_log_settings = toy_parse;
  marshal_onie_headers = λ n. some (n ∷ []);
  unmarshal_onie_headers = toy_parse;
  marshal_location = λ n. some (n ∷ []);
  unmarshal_location = toy_parse;
}

toy-CodecLaws : CodecLaws toy_codec
toy-CodecLaws = record {
  base64_decode-base64_encode = λ b. refl;
  read_log_settings = λ l b h. ground arith;
  read_onie_headers = λ l b h. (ground arith, ground arith);
  read_location = λ l b h. (ground arith, ground arith);
}

abbrev toy_info : StagingInfo ℕ ℕ ℕ
toy_info = record {
  staging_dir = 47 ∷ [];
  server_ca = 1 ∷ [];
  config_signature_ca = 2 ∷ [];
  log_settings = 3;
  onie_headers = some 4;
  location_info = some 5;
  device_id = 6 ∷ [];
}

abbrev no_world : World
no_world = record { env = []; files = [] }

abbrev exported : World
exported = (export toy_os toy_codec toy_info no_world).1

export-read_staging_info_example : read_staging_info toy_os toy_codec exported ≡ ok toy_info
unfolding export export_steps persist enter_dir export_files export_file export_envs export_env
    bytes_equal GoMap.get GoMap.put GoMap.delete
export-read_staging_info_example =
    export-read_staging_info toy_os toy_codec toy-OsLaws toy-CodecLaws toy_info 4 5 no_world
      exported refl refl refl refl refl refl (λ h. ground arith) refl

abbrev unlocated_info : StagingInfo ℕ ℕ ℕ
unlocated_info = record toy_info { location_info = none }

abbrev exported_unlocated : World
exported_unlocated = (export toy_os toy_codec unlocated_info no_world).1

export-unlocated_example : read_staging_info toy_os toy_codec exported_unlocated ≢ ok unlocated_info
unfolding export export_steps persist enter_dir export_files export_file export_envs export_env
    bytes_equal GoMap.get GoMap.put GoMap.delete
export-unlocated_example =
    export-unlocated toy_os toy_codec toy-OsLaws unlocated_info unlocated_info no_world
      exported_unlocated refl refl (λ dir. refl) refl
