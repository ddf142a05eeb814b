-- ===== src/Staging/Os.antt =====
-- What package os is called for, over a state `S`, and packages json and base64. Texts are UTF-8 bytes.
use das_boot.Prelude.{Bool, Bytes, Option, String, false, is_empty, some, str_eq, ◌≡◌}

-- A call that changes the state says whether it fails. A file is given by a directory
-- and a name without a slash, which `filepath.Join` makes a path of. `device_id` is what `devid.ID` would
-- give.
pub record Os (S : Type 0) : Type 0 where
  pub getwd : S → Option Bytes
  pub chdir : S → Bytes → Bool × S
  pub lookup_env : S → String → Option Bytes
  pub set_env : S → String → Bytes → Bool × S
  pub read_file : S → Bytes → String → Option Bytes
  pub write_file : S → Bytes → String → Bytes → Bool × S
  pub device_id : S → Bytes

-- What is used of package os.
pub record OsLaws {S : Type 0} (os : Os S) : Type 0 where
  pub lookup-set_env :
      (s s' : S) (name : String) (b : Bytes)
      → os.set_env s name b ≡ (false, s')
      → os.lookup_env s' name ≡ some b
  pub lookup-set_env_other :
      (s s' : S) (name other : String) (b : Bytes)
      → str_eq name other ≡ false
      → os.set_env s name b ≡ (false, s')
      → os.lookup_env s' other ≡ os.lookup_env s other
  pub read-set_env :
      (s s' : S) (name : String) (b dir : Bytes) (file : String)
      → os.set_env s name b ≡ (false, s')
      → os.read_file s' dir file ≡ os.read_file s dir file
  pub lookup-write_file :
      (s s' : S) (dir : Bytes) (file : String) (b : Bytes) (name : String)
      → os.write_file s dir file b ≡ (false, s')
      → os.lookup_env s' name ≡ os.lookup_env s name
  pub lookup-chdir :
      (s s' : S) (p : Bytes) (name : String)
      → os.chdir s p ≡ (false, s')
      → os.lookup_env s' name ≡ os.lookup_env s name
  -- directories are absolute paths
  pub read-chdir :
      (s s' : S) (dir dir' : Bytes) (file : String)
      → os.chdir s dir ≡ (false, s')
      → os.read_file s' dir' file ≡ os.read_file s dir' file
  pub read-write_file_other :
      (s s' : S) (dir dir' : Bytes) (file other : String) (b : Bytes)
      → str_eq file other ≡ false
      → os.write_file s dir file b ≡ (false, s')
      → os.read_file s' dir' other ≡ os.read_file s dir' other

-- `L`, `H` and `I` are log settings, ONIE headers and a location's information.
pub record Codec (L H I : Type 0) : Type 0 where
  pub base64_encode : Bytes → Bytes
  pub base64_decode : Bytes → Option Bytes
  pub marshal_log_settings : L → Option Bytes
  pub unmarshal_log_settings : Bytes → Option L
  pub marshal_onie_headers : H → Option Bytes
  pub unmarshal_onie_headers : Bytes → Option H
  pub marshal_location : I → Option Bytes
  pub unmarshal_location : Bytes → Option I

pub record CodecLaws {L H I : Type 0} (codec : Codec L H I) : Type 0 where
  pub base64_decode-base64_encode :
      (b : Bytes) → codec.base64_decode (codec.base64_encode b) ≡ some b
  pub read_log_settings :
      (l : L) (b : Bytes)
      → codec.marshal_log_settings l ≡ some b
      → codec.unmarshal_log_settings b ≡ some l
  pub read_onie_headers :
      (h : H) (b : Bytes)
      → codec.marshal_onie_headers h ≡ some b
      → (codec.unmarshal_onie_headers b ≡ some h) × (is_empty b ≡ false)
  pub read_location :
      (i : I) (b : Bytes)
      → codec.marshal_location i ≡ some b
      → (codec.unmarshal_location b ≡ some i) × (is_empty b ≡ false)
