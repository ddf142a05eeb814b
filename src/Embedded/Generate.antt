-- ===== src/Embedded/Generate.antt =====
-- `GenerateExecutableWithEmbeddedConfig`
use das_boot.Prelude.{
  Bytes, Option, Result, check, fail_if, if◌then◌else◌, leb, length, ltb, none, not, ok, or_error,
  replicate, some, ◌++◌, ◌-◌, ◌>>=◌, ◌>>◌, ◌∷◌,
}
use das_boot.Embedded.Codec.{
  Config, Crypto, Error, config_too_large, ecdsa_signature, header_signature_size, header_version1,
  invalid_config_version, invalid_key, json_encoding, magic, max_uint32, signature_size, validation,
}
use das_boot.Embedded.Words.{append_be_uint32}

-- The loop that appends zeroes to a signature shorter than its field.
abbrev pub pad_signature : Bytes → Bytes
pad_signature signature =
    let sig_len = length signature in
    if ltb sig_len header_signature_size
    then signature ++ replicate (header_signature_size - sig_len) 0
    else signature

abbrev wrap_validation : {V : Type 0} → Option V → Option (Error V)
wrap_validation none = none
wrap_validation (some e) = some (validation e)

module _ {V C Key Rand Cert Pool PubKey : Type 0} (cfg : Config V C)
    (crypto : Crypto Key Rand Cert Pool PubKey) where
  unfoldable pub generate_executable_with_embedded_config :
      Bytes → C → Key → Rand → Result (Error V) Bytes
  generate_executable_with_embedded_config exe c key rand = do
    fail_if (not (crypto.is_p256 key)) invalid_key
    fail_if (leb (cfg.config_version c) 0) invalid_config_version
    check (wrap_validation (cfg.validate c))
    content ← or_error (cfg.marshal c) json_encoding
    fail_if (ltb max_uint32 (length content)) config_too_large
    let blob = exe ++ (content ++ append_be_uint32 (length content))
    signature ← or_error (crypto.sign rand key (crypto.sha256 blob)) ecdsa_signature
    fail_if (ltb header_signature_size (length signature)) signature_size
    ok (blob ++ (pad_signature signature ++ (header_version1 ∷ magic)))
