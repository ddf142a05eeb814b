-- ===== src/Embedded/Read.antt =====
-- `ReadEmbeddedConfig`. The result is the error, if any, and the value that `config` points to
-- afterwards: it has been written by `json.Unmarshal` on the later error paths too.
use das_boot.Prelude.{
  Bool, Bytes, List, Option, Result, [], bytes_equal, check, drop, err, fail_if, false, get_elem?,
  if◌then◌else◌, leb, length, ltb, none, not, ok, or_error, some, take, true, ℕ, ◌&&◌, ◌+◌, ◌-◌,
  ◌==◌, ◌>>=◌, ◌>>◌, ◌∷◌,
}
use das_boot.Embedded.Codec.{
  Config, Crypto, Error, certificate_verification, config_not_present, exe_too_small,
  header_content_size, header_magic_size, header_signature_size, header_size, header_version1,
  header_version_size, invalid_config_version, json_decoding, magic, parsing_certificate,
  signature_verification_failure, trim_right, unsupported_config_version,
  unsupported_header_version, unsupported_signature_key_type, validation,
}
use das_boot.Embedded.Words.{be_uint32}

-- `ReadOption`
pub data ReadOption : Type 0 where
  undefined ignore_expiry_time ignore_signature : ReadOption

pub record Options : Type 0 where
  pub no_expiry_time : Bool
  pub no_signature : Bool

-- The loop over `opts`.
unfoldable pub parse_options : List ReadOption → Options → Options
parse_options [] o = o
parse_options (undefined ∷ opts) o = parse_options opts o
parse_options (ignore_expiry_time ∷ opts) o =
    parse_options opts (record o { no_expiry_time = true })
parse_options (ignore_signature ∷ opts) o = parse_options opts (record o { no_signature = true })

abbrev pub default_options : Options
default_options = record { no_expiry_time = false; no_signature = false }

-- `exe[from:to]`, in range
abbrev pub slice : Bytes → ℕ → ℕ → Bytes
slice exe from to = take (to - from) (drop from exe)

-- x509.ExtKeyUsageAny, the value of `keyUsages` too
abbrev pub ext_key_usage_any : List ℕ
ext_key_usage_any = 0 ∷ []

-- The header's checks, up to where the content starts; the result is
-- `headerStart`, `contentStart` and `contentBytesSize`. The version byte is there, by the first check.
unfoldable pub locate_content : {V : Type 0} → Bytes → Result (Error V) (ℕ × ℕ × ℕ)
locate_content exe = do
  let exe_size = length exe
  fail_if (ltb exe_size header_size) exe_too_small
  fail_if (not (bytes_equal (drop (exe_size - header_magic_size) exe) magic)) config_not_present
  version ←
      or_error (get_elem? exe (exe_size - header_magic_size - header_version_size)) exe_too_small
  fail_if (not (version == header_version1)) unsupported_header_version
  let header_start = exe_size - header_size
  let content_size = be_uint32 (slice exe header_start (header_start + header_content_size))
  fail_if (leb header_start content_size) exe_too_small
  ok (header_start, header_start - content_size, content_size)

module _ {V C Key Rand Cert Pool PubKey : Type 0} (cfg : Config V C)
    (crypto : Crypto Key Rand Cert Pool PubKey) (now : ℕ) where
  -- The answer of the first `cert.Verify`, and the second call where the first found it expired.
  unfoldable pub verify_certificate : Options → Cert → Pool → Option Bool → Option (Error V)
  verify_certificate o cert ca none = none
  verify_certificate o cert ca (some expired) =
      if expired && o.no_expiry_time
      then (elim (crypto.verify cert ca ext_key_usage_any (crypto.not_before cert + 1)) [
        | none ↦ none
        | some _ ↦ some certificate_verification
      ])
      else some certificate_verification

  -- `if !ignoreSignature { … }`
  unfoldable pub verify_signature : Options → Bytes → ℕ → C → Pool → Result (Error V) (Unit {0})
  unfolding verify_certificate
  verify_signature o exe header_start config ca = if o.no_signature then ok tt else do
    cert ← or_error (crypto.parse_certificate (cfg.cert config)) parsing_certificate
    check (verify_certificate o cert ca (crypto.verify cert ca ext_key_usage_any now))
    pub_key ← or_error (crypto.ecdsa_public_key cert) unsupported_signature_key_type
    let signed = header_start + header_content_size
    let cks = crypto.sha256 (take signed exe)
    let sig = trim_right (slice exe signed (signed + header_signature_size))
    fail_if (not (crypto.verify_asn1 pub_key cks sig)) signature_verification_failure

  -- From the check of the decoded version to the end.
  unfoldable pub validate_config : Options → Bytes → ℕ → C → Pool → Result (Error V) (Unit {0})
  validate_config o exe header_start config ca = do
    let version = cfg.config_version config
    fail_if (leb version 0) invalid_config_version
    verify_signature o exe header_start config ca
    fail_if (not (cfg.is_supported_config_version config version))
        (unsupported_config_version version)
    elim (cfg.validate config) [ none ↦ ok tt | some e ↦ err (validation e) ]

  -- `json.Unmarshal` into `config`, and what follows it.
  unfoldable pub decode_config :
      Options → Bytes → ℕ → C × Bool → Pool → Result (Error V) (Unit {0}) × C
  unfolding validate_config
  decode_config o exe header_start (config, decoded) ca =
      (if decoded then validate_config o exe header_start config ca else err json_decoding, config)

  unfoldable pub read_located :
      Options → Bytes → C → Pool → Result (Error V) (ℕ × ℕ × ℕ) → Result (Error V) (Unit {0}) × C
  unfolding decode_config
  read_located o exe config ca (err e) = (err e, config)
  read_located o exe config ca (ok (header_start, content_start, content_size)) =
      decode_config o exe header_start
        (cfg.unmarshal (slice exe content_start (content_start + content_size)) config) ca

  unfoldable pub read_embedded_config :
      Bytes → C → Pool → List ReadOption → Result (Error V) (Unit {0}) × C
  unfolding read_located
  read_embedded_config exe config ca opts =
      read_located (parse_options opts default_options) exe config ca (locate_content exe)
