-- ===== src/Embedded/RoundTrip.antt =====
-- `ReadEmbeddedConfig` after `GenerateExecutableWithEmbeddedConfig`.
use mathlib.Core.Path.{subst}
use das_boot.Prelude.{
  Bool, Bool-cases, Bytes, List, Option, Option-cases, Result, ap, append-nil, arith, err, false,
  if◌then◌else◌, inl, inr, length, length-append, length-replicate, ltb, none, ok, refl, replicate,
  some, sym, true, ℕ, ◌++◌, ◌+◌, ◌-◌, ◌<◌, ◌||◌, ◌∙◌, ◌≡◌, ◌≤◌,
}
use das_boot.Embedded.Codec.{
  Config, Crypto, Error, header_content_size, header_signature_size, max_uint32,
  signature_verification_failure, trim_right,
}
use das_boot.Embedded.Generate.{generate_executable_with_embedded_config, pad_signature}
use das_boot.Embedded.Layout.{
  content_slice, image, locate_content-image, signature_slice, take-image,
}
use das_boot.Embedded.Padding.{
  EndsInZero, not-EndsInZero-trim_right, trim_right-append_zeroes, trim_right-pad,
  trim_right-prefix,
}
use das_boot.Embedded.Read.{
  ReadOption, decode_config, default_options, ext_key_usage_any, parse_options,
  read_embedded_config, verify_signature,
}
use das_boot.Embedded.Words.{append_be_uint32}

pub length-pad_signature :
    (s : Bytes)
    → length s ≤ header_signature_size
    → length (pad_signature s) ≡ header_signature_size
length-pad_signature s h = ground (
  arith,
  length-append s (replicate (header_signature_size - length s) 0),
  length-replicate {A = ℕ} (header_signature_size - length s) 0,
)

pub trim_right-pad_signature : (s : Bytes) → ¬ EndsInZero s → trim_right (pad_signature s) ≡ s
trim_right-pad_signature s h = elim (Bool-cases (ltb (length s) header_signature_size)) [
  | inl shorter ↦ rw shorter (trim_right-pad s (header_signature_size - length s) h)
  | inr full ↦ rw full (ap trim_right (sym (append-nil s)) ∙ trim_right-pad s 0 h)
]

trim_right-pad_signature_self : (s : Bytes) → trim_right (pad_signature s) ≡ trim_right s
trim_right-pad_signature_self s = elim (Bool-cases (ltb (length s) header_signature_size)) [
  | inl shorter ↦ rw shorter (trim_right-append_zeroes s (header_signature_size - length s))
  | inr full ↦ rw full
]

-- A key that refuses every proper prefix of a signature refuses what is left of one that ends in zero.
stripped_refused :
    (verify : Bytes → Bool) (s : Bytes)
    → EndsInZero s × ((t u : Bytes) → t ++ u ≡ s → verify t ≡ true → t ≡ s)
    → verify (trim_right (pad_signature s)) ≡ false
stripped_refused verify s (ends, strict) =
    rw (trim_right-pad_signature_self s) (elim (Bool-cases (verify (trim_right s))) [
      | inl yes_ ↦
          let (u, prefix) = trim_right-prefix s in
          absurd (
            not-EndsInZero-trim_right s
              (subst EndsInZero (sym (strict (trim_right s) u prefix yes_)) ends))
      | inr no_ ↦ no_
    ])

module _ {V C Key Rand Cert Pool PubKey : Type 0} (cfg : Config V C)
    (crypto : Crypto Key Rand Cert Pool PubKey) where
  abbrev generate : Bytes → C → Key → Rand → Result (Error V) Bytes
  generate = generate_executable_with_embedded_config cfg crypto

  -- What a generated file consists of.
  pub record Generated (exe : Bytes) (c : C) (key : Key) (rand : Rand) (blob : Bytes) : Type 0 where
    pub content : Bytes
    pub signature : Bytes
    pub marshalled : cfg.marshal c ≡ some content
    pub fits : length content ≤ max_uint32
    pub signed :
        crypto.sign rand key (crypto.sha256 (exe ++ (content ++ append_be_uint32 (length content))))
        ≡ some signature
    pub short : length signature ≤ header_signature_size
    pub valid : cfg.validate c ≡ none
    pub versioned : 0 < cfg.config_version c
    pub key_is_p256 : crypto.is_p256 key ≡ true
    pub layout : blob ≡ image exe content (pad_signature signature)

  -- What the generator produced: the JSON of a valid configuration that fits 32 bits, the signature of the
  -- executable, the content and its size, and the file made of these in the fixed layout.
  pub generate-Generated :
      (exe : Bytes) (c : C) (key : Key) (rand : Rand) (blob : Bytes)
      → generate exe c key rand ≡ ok blob
      → Generated exe c key rand blob
  unfolding generate_executable_with_embedded_config
  generate-Generated exe c key rand blob h = elim (Option-cases (cfg.marshal c)) [
    | inl m ↦ ground arith
    | inr (content, m) ↦
        elim (Option-cases (
          crypto.sign rand key
            (crypto.sha256 (exe ++ (content ++ append_be_uint32 (length content)))))) [
              | inl s ↦ ground arith
              | inr (signature, s) ↦ record {
                content = content;
                signature = signature;
                marshalled = m;
                fits = ground arith;
                signed = s;
                short = ground arith;
                valid = ground arith;
                versioned = ground arith;
                key_is_p256 = ground arith;
                layout = ground arith;
              }
            ]
  ]

  -- The certificate of `c` verifies in the pool at the current time and holds the public key.
  pub record IsTrusted (c : C) (ca : Pool) (now : ℕ) (key : PubKey) : Type 0 where
    pub certificate : Cert
    pub parses : crypto.parse_certificate (cfg.cert c) ≡ some certificate
    pub verifies : crypto.verify certificate ca ext_key_usage_any now ≡ none
    pub holds_key : crypto.ecdsa_public_key certificate ≡ some key

  -- On a generated file the reader decodes the content that was marshalled.
  read-Generated :
      (exe : Bytes) (c c' : C) (key : Key) (rand : Rand) (ca : Pool) (now : ℕ)
      (opts : List ReadOption) (blob : Bytes) (g : Generated exe c key rand blob)
      → 0 < length exe
      → read_embedded_config cfg crypto now blob c' ca opts
        ≡ decode_config cfg crypto now
            (parse_options opts default_options)
            (image exe g.content (pad_signature g.signature))
            (length exe + length g.content)
            (cfg.unmarshal g.content c')
            ca
  unfolding read_embedded_config
  read-Generated exe c c' key rand ca now opts blob g h =
      let sized = length-pad_signature g.signature g.short in
      rw
        (
          g.layout,
          locate_content-image exe g.content (pad_signature g.signature) sized h
              (omega (arith, g.fits)),
        )
        (rw (content_slice exe g.content (pad_signature g.signature) sized))

  module _ (exe : Bytes) (c c' : C) (key : Key) (rand : Rand) (ca : Pool) (now : ℕ)
      (opts : List ReadOption) (blob : Bytes) (pub_key : PubKey) where
    abbrev ignored : Bool
    ignored = (parse_options opts default_options).no_signature

    -- The hash that the generator signs for the content `b`, and its signature.
    abbrev signed_hash : Bytes → Bytes
    signed_hash b = crypto.sha256 (exe ++ (b ++ append_be_uint32 (length b)))

    abbrev signature_of : Bytes → Option Bytes
    signature_of b = crypto.sign rand key (signed_hash b)

    -- All that is open after the other checks: does the key accept the signature, less its zeroes?
    read_verdict :
        (g : Generated exe c key rand blob)
        → 0 < length exe
        → ((b : Bytes) → cfg.marshal c ≡ some b → cfg.unmarshal b c' ≡ (c, true))
        → cfg.is_supported_config_version c (cfg.config_version c) ≡ true
        → IsTrusted c ca now pub_key
        → {accepted : Bool}
        → crypto.verify_asn1 pub_key
            (crypto.sha256 (exe ++ (g.content ++ append_be_uint32 (length g.content))))
            (trim_right (pad_signature g.signature))
          ≡ accepted
        → read_embedded_config cfg crypto now blob c' ca opts
          ≡ (if ignored || accepted then ok tt else err signature_verification_failure, c)
    read_verdict g nonempty json supported trusted answer =
        let sized = length-pad_signature g.signature g.short in
        let signed = length exe + length g.content + header_content_size in
        read-Generated exe c c' key rand ca now opts blob g nonempty
        ∙ rw (json g.content g.marshalled) (
            unfold decode_config verify_signature in
            rw
              (
                signature_slice exe g.content (pad_signature g.signature) sized signed refl,
                take-image exe g.content (pad_signature g.signature) sized signed refl,
              )
              (ground (arith, answer, g.versioned, g.valid)))

    -- What was generated is read back: for a non-empty executable, a configuration that JSON
    -- decodes to itself and whose version is supported, and a trusted certificate whose key accepts the
    -- signature that was made of this file, where that signature does not end in a zero byte, reading
    -- succeeds under every list of options and stores the generator's configuration.
    pub read-generate :
        generate exe c key rand ≡ ok blob
        → 0 < length exe
        → ((b : Bytes) → cfg.marshal c ≡ some b → cfg.unmarshal b c' ≡ (c, true))
        → cfg.is_supported_config_version c (cfg.config_version c) ≡ true
        → IsTrusted c ca now pub_key
        → ((b s : Bytes)
            → cfg.marshal c ≡ some b
            → signature_of b ≡ some s
            → (crypto.verify_asn1 pub_key (signed_hash b) s ≡ true) × (¬ EndsInZero s))
        → read_embedded_config cfg crypto now blob c' ca opts ≡ (ok tt, c)
    read-generate gen nonempty json supported trusted signs =
        let g = generate-Generated exe c key rand blob gen in
        read_verdict g nonempty json supported trusted {accepted = true} (
          rw (trim_right-pad_signature g.signature (signs _ _ g.marshalled g.signed).1)
            (signs _ _ g.marshalled g.signed).0)
        ∙ ground arith

    -- A generated file is refused with the verdict on its signature where the signature that was made of
    -- this file ends in a zero byte: for a non-empty executable, a configuration that JSON decodes to
    -- itself and whose version is supported, a trusted certificate whose key accepts that signature but
    -- no proper prefix of it, and options that do not ignore signatures. The reader strips the
    -- signature's last zeroes together with the padding.
    pub read-generate-EndsInZero :
        generate exe c key rand ≡ ok blob
        → 0 < length exe
        → ((b : Bytes) → cfg.marshal c ≡ some b → cfg.unmarshal b c' ≡ (c, true))
        → cfg.is_supported_config_version c (cfg.config_version c) ≡ true
        → IsTrusted c ca now pub_key
        → ((b s : Bytes)
            → cfg.marshal c ≡ some b
            → signature_of b ≡ some s
            → EndsInZero s
              × (crypto.verify_asn1 pub_key (signed_hash b) s ≡ true)
              × ((t u : Bytes)
                  → t ++ u ≡ s
                  → crypto.verify_asn1 pub_key (signed_hash b) t ≡ true
                  → t ≡ s))
        → ignored ≡ false
        → read_embedded_config cfg crypto now blob c' ca opts
          ≡ (err signature_verification_failure, c)
    read-generate-EndsInZero gen nonempty json supported trusted strict checked =
        let g = generate-Generated exe c key rand blob gen in
        read_verdict g nonempty json supported trusted {accepted = false} (
          let (ends, _, proper) = strict _ _ g.marshalled g.signed in
          stripped_refused (crypto.verify_asn1 pub_key (signed_hash g.content)) g.signature
            (ends, proper))
        ∙ ground (arith, checked)
