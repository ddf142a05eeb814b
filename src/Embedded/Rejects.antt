-- ===== src/Embedded/Rejects.antt =====
-- What `ReadEmbeddedConfig` checks before it accepts a file.
use mathlib.Core.Path.{subst}
use das_boot.Prelude.{
  Bool, Bool-cases, Bytes, List, Option-cases, Result, ap, arith, bytes_equal_iff, drop, err, false,
  get_elem?, inl, inr, length, none, ok, refl, some, take, true, ℕ, ◌+◌, ◌-◌, ◌<◌, ◌≡◌, ◌⊎◌,
}
use das_boot.Embedded.Codec.{
  Config, Crypto, Error, header_content_size, header_magic_size, header_signature_size, header_size,
  header_version_size, magic, trim_right,
}
use das_boot.Embedded.Read.{
  Options, ReadOption, decode_config, default_options, ext_key_usage_any, locate_content,
  parse_options, read_embedded_config, read_located, slice, validate_config, verify_signature,
}
use das_boot.Embedded.Words.{be_uint32}

-- The offsets that the header gives: no slice of the reader is out of range.
pub record IsLocated (exe : Bytes) (header_start content_start content_size : ℕ) : Type 0 where
  pub ends : header_start + header_size ≡ length exe
  pub adjacent : content_start + content_size ≡ header_start
  pub inside : 0 < content_start
  pub marked : drop (length exe - header_magic_size) exe ≡ magic
  pub sized : be_uint32 (slice exe header_start (header_start + header_content_size)) ≡ content_size

pub locate_content-IsLocated :
    {V : Type 0} (exe : Bytes) (header_start content_start content_size : ℕ)
    → locate_content {V = V} exe ≡ ok (header_start, content_start, content_size)
    → IsLocated exe header_start content_start content_size
unfolding locate_content
locate_content-IsLocated exe h s n e =
    elim (Option-cases (get_elem? exe (length exe - header_magic_size - header_version_size))) [
      | inl missing ↦ ground arith
      | inr (version, found) ↦ record {
        ends = ground arith;
        adjacent = ground arith;
        inside = ground arith;
        marked = (bytes_equal_iff _ _).0 (ground arith);
        sized = ground arith;
      }
    ]

module _ {V C Key Rand Cert Pool PubKey : Type 0} (cfg : Config V C)
    (crypto : Crypto Key Rand Cert Pool PubKey) (now : ℕ) where
  -- The certificate verifies now, or it has expired, that is to be ignored, and it verifies one
  -- second after the start of its validity.
  abbrev pub IsAcceptable : Options → Cert → Pool → Type 0
  IsAcceptable o cert ca =
      (crypto.verify cert ca ext_key_usage_any now ≡ none)
      ⊎ ((crypto.verify cert ca ext_key_usage_any now ≡ some true)
          × (o.no_expiry_time ≡ true)
          × (crypto.verify cert ca ext_key_usage_any (crypto.not_before cert + 1) ≡ none))

  pub record IsSigned (o : Options) (exe : Bytes) (header_start : ℕ) (c : C) (ca : Pool)
      : Type 0 where
    pub certificate : Cert
    pub key : PubKey
    pub parses : crypto.parse_certificate (cfg.cert c) ≡ some certificate
    pub acceptable : IsAcceptable o certificate ca
    pub holds_key : crypto.ecdsa_public_key certificate ≡ some key
    pub signature :
        crypto.verify_asn1 key (crypto.sha256 (take (header_start + header_content_size) exe)) (
          trim_right (
            slice exe
              (header_start + header_content_size)
              (header_start + header_content_size + header_signature_size)))
        ≡ true

  verify_signature-IsSigned :
      (o : Options) (exe : Bytes) (header_start : ℕ) (c : C) (ca : Pool)
      → verify_signature cfg crypto now o exe header_start c ca ≡ ok tt
      → (o.no_signature ≡ true) ⊎ IsSigned o exe header_start c ca
  unfolding verify_signature
  verify_signature-IsSigned o exe header_start c ca e = elim (Bool-cases o.no_signature) [
    | inl ignored ↦ inl ignored
    | inr checked ↦ elim (Option-cases (crypto.parse_certificate (cfg.cert c))) [
      | inl bad ↦ ground arith
      | inr (cert, parsed) ↦ elim (Option-cases (crypto.ecdsa_public_key cert)) [
        | inl other ↦ ground arith
        | inr (key, held) ↦ inr (record {
          certificate = cert;
          key = key;
          parses = parsed;
          acceptable = ground arith;
          holds_key = held;
          signature = ground arith;
        })
      ]
    ]
  ]

  -- What a file and the decoded configuration are known to be when the reader accepts them.
  pub record IsAccepted (exe : Bytes) (c' c : C) (ca : Pool) (o : Options) : Type 0 where
    pub header_start : ℕ
    pub content_start : ℕ
    pub content_size : ℕ
    pub located : IsLocated exe header_start content_start content_size
    pub decodes :
        cfg.unmarshal (slice exe content_start (content_start + content_size)) c' ≡ (c, true)
    pub versioned : 0 < cfg.config_version c
    pub supported : cfg.is_supported_config_version c (cfg.config_version c) ≡ true
    pub valid : cfg.validate c ≡ none
    pub signed : (o.no_signature ≡ true) ⊎ IsSigned o exe header_start c ca

  validate_config-signature :
      (o : Options) (exe : Bytes) (header_start : ℕ) (c : C) (ca : Pool)
      → validate_config cfg crypto now o exe header_start c ca ≡ ok tt
      → (verify_signature cfg crypto now o exe header_start c ca ≡ ok tt)
        × (0 < cfg.config_version c)
        × (cfg.is_supported_config_version c (cfg.config_version c) ≡ true)
        × (cfg.validate c ≡ none)
  unfolding validate_config
  validate_config-signature o exe header_start c ca e = ground arith

  decode_config-parts :
      (o : Options) (exe : Bytes) (header_start : ℕ) (d : C × Bool) (c : C) (ca : Pool)
      → decode_config cfg crypto now o exe header_start d ca ≡ (ok tt, c)
      → (d ≡ (c, true)) × (validate_config cfg crypto now o exe header_start c ca ≡ ok tt)
  unfolding decode_config
  decode_config-parts o exe h (c', true) c ca e =
      let same : c' ≡ c = ap (λ (x : Result (Error V) (Unit {0}) × C). x.1) e in
      let passed : validate_config cfg crypto now o exe h c' ca ≡ ok tt =
        ap (λ (x : Result (Error V) (Unit {0}) × C). x.0) e in
      (
        ap (λ (x : C). (x, true)) same,
        subst (λ (x : C). validate_config cfg crypto now o exe h x ca ≡ ok tt) same passed,
      )
  decode_config-parts o exe h (c', false) c ca e = ground arith

  read_located-parts :
      (o : Options) (exe : Bytes) (c' c : C) (ca : Pool) (r : Result (Error V) (ℕ × ℕ × ℕ))
      → read_located cfg crypto now o exe c' ca r ≡ (ok tt, c)
      → (header_start : ℕ) × (content_start : ℕ) × (content_size : ℕ) × (r
          ≡ ok (header_start, content_start, content_size))
        × (decode_config cfg crypto now o exe header_start
              (cfg.unmarshal (slice exe content_start (content_start + content_size)) c')
              ca
            ≡ (ok tt, c))
  unfolding read_located
  read_located-parts o exe c' c ca (ok (h, s, n)) e = (h, s, n, refl, e)
  read_located-parts o exe c' c ca (err x) e = ground arith

  -- Whatever the reader accepts with `nil`, under options that are as given by the list: the offsets are in the file, the
  -- content decoded to the configuration that is stored, the version is positive and supported, the
  -- configuration validates, and, unless signatures are ignored, the certificate is acceptable
  -- and its key accepts the signature over all bytes up to the content's size.
  pub read_embedded_config-IsAccepted :
      (exe : Bytes) (c' c : C) (ca : Pool) (opts : List ReadOption)
      → read_embedded_config cfg crypto now exe c' ca opts ≡ (ok tt, c)
      → IsAccepted exe c' c ca (parse_options opts default_options)
  unfolding read_embedded_config
  read_embedded_config-IsAccepted exe c' c ca opts e =
      let o = parse_options opts default_options in
      let (h, s, n, located, decoded) = read_located-parts o exe c' c ca (locate_content exe) e in
      let (same, passed) = decode_config-parts o exe h _ c ca decoded in
      let (signed, versioned, supported, valid) = validate_config-signature o exe h c ca passed in
      record {
        header_start = h;
        content_start = s;
        content_size = n;
        located = locate_content-IsLocated exe h s n located;
        decodes = same;
        versioned = versioned;
        supported = supported;
        valid = valid;
        signed = verify_signature-IsSigned o exe h c ca signed;
      }
