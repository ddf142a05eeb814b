-- ===== src/Embedded/Codec.antt =====
-- The constants, errors and interfaces of pkg/config/embedded.go.
use das_boot.Prelude.{
  Bool, Bytes, List, Option, [], if◌then◌else◌, is_empty, length, ℕ, ◌&&◌, ◌+◌, ◌-◌, ◌==◌, ◌^◌, ◌∷◌,
}

-- "hedgehog"
abbrev pub magic : Bytes
magic = b'h' ∷ b'e' ∷ b'd' ∷ b'g' ∷ b'e' ∷ b'h' ∷ b'o' ∷ b'g' ∷ []

abbrev pub header_version1 : ℕ
header_version1 = 1

abbrev pub header_magic_size : ℕ
header_magic_size = length magic

abbrev pub header_version_size : ℕ
header_version_size = 1

abbrev pub header_signature_size : ℕ
header_signature_size = 73

abbrev pub header_content_size : ℕ
header_content_size = 4

abbrev pub header_size : ℕ
header_size = header_magic_size + header_version_size + header_signature_size + header_content_size

abbrev pub max_uint32 : ℕ
max_uint32 = 2 ^ 32 - 1

-- The error values, and what `fmt.Errorf` and the error types wrap.
pub data Error (V : Type 0) : Type 0 where
  exe_too_small config_too_large invalid_key signature_size config_not_present : Error V
  invalid_config_version unsupported_header_version unsupported_signature_key_type : Error V
  signature_verification_failure : Error V
  json_encoding ecdsa_signature json_decoding parsing_certificate : Error V
  certificate_verification : Error V
  validation : V → Error V
  unsupported_config_version : ℕ → Error V

-- The interface `EmbeddedConfig` of the structs `C`, with encoding/json at that type.
-- `unmarshal b c` is `c` after `json.Unmarshal(b, c)`, and whether that returned no error.
pub record Config (V C : Type 0) : Type 0 where
  pub config_version : C → ℕ
  pub is_supported_config_version : C → ℕ → Bool
  pub validate : C → Option V
  pub cert : C → Bytes
  pub marshal : C → Option Bytes
  pub unmarshal : Bytes → C → C × Bool

-- What is called in crypto. `sign` takes the reader's randomness. `verify` is `Certificate.Verify`
-- with a pool, key usages and a time in seconds: `none` is success, and `some true` is a
-- `CertificateInvalidError` with the reason `Expired`.
pub record Crypto (Key Rand Cert Pool PubKey : Type 0) : Type 0 where
  pub is_p256 : Key → Bool
  pub sha256 : Bytes → Bytes
  pub sign : Rand → Key → Bytes → Option Bytes
  pub parse_certificate : Bytes → Option Cert
  pub verify : Cert → Pool → List ℕ → ℕ → Option Bool
  pub not_before : Cert → ℕ
  pub ecdsa_public_key : Cert → Option PubKey
  pub verify_asn1 : PubKey → Bytes → Bytes → Bool

-- `bytes.TrimRight(b, "\x00")`
unfoldable pub trim_right : Bytes → Bytes
trim_right [] = []
trim_right (x ∷ xs) = let rest = trim_right xs in if x == 0 && is_empty rest then [] else x ∷ rest
