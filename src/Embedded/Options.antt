-- ===== src/Embedded/Options.antt =====
-- What the options of `ReadEmbeddedConfig` switch off, and the file with no executable in it.
use das_boot.Prelude.{
  Bool, Bytes, List, [], arith, err, false, ok, refl, true, ℕ, ◌||◌, ◌∙◌, ◌∷◌, ◌≡◌,
}
use das_boot.Embedded.Codec.{Config, Crypto, exe_too_small}
use das_boot.Embedded.Generate.{generate_executable_with_embedded_config, pad_signature}
use das_boot.Embedded.Layout.{locate_content-no_executable}
use das_boot.Embedded.Read.{
  Options, ReadOption, default_options, ignore_expiry_time, ignore_signature, locate_content,
  parse_options, read_embedded_config, read_located, undefined, validate_config, verify_signature,
}
use das_boot.Embedded.RoundTrip.{generate-Generated, length-pad_signature}

-- Some option asks to ignore the signature.
abbrev pub asks_to_ignore_signature : List ReadOption → Bool
asks_to_ignore_signature [] = false
asks_to_ignore_signature (ignore_signature ∷ opts) = true
asks_to_ignore_signature (undefined ∷ opts) = asks_to_ignore_signature opts
asks_to_ignore_signature (ignore_expiry_time ∷ opts) = asks_to_ignore_signature opts

no_signature-parse_options :
    (opts : List ReadOption) (o : Options)
    → (parse_options opts o).no_signature ≡ (o.no_signature || asks_to_ignore_signature opts)
unfolding parse_options
no_signature-parse_options [] o = ground arith
no_signature-parse_options (undefined ∷ opts) o = no_signature-parse_options opts o
no_signature-parse_options (ignore_expiry_time ∷ opts) o =
    no_signature-parse_options opts (record o { no_expiry_time = true })
no_signature-parse_options (ignore_signature ∷ opts) o =
    ground (arith, no_signature-parse_options opts (record o { no_signature = true }))

pub no_signature-default :
    (opts : List ReadOption)
    → (parse_options opts default_options).no_signature ≡ asks_to_ignore_signature opts
no_signature-default opts = no_signature-parse_options opts default_options

module _ {V C Key Rand Cert Pool PubKey : Type 0} (cfg : Config V C)
    (crypto crypto' : Crypto Key Rand Cert Pool PubKey) where
  validate_config-ignored :
      (o : Options) (now now' : ℕ) (exe : Bytes) (header_start : ℕ) (c : C) (ca ca' : Pool)
      → o.no_signature ≡ true
      → validate_config cfg crypto now o exe header_start c ca
        ≡ validate_config cfg crypto' now' o exe header_start c ca'
  unfolding validate_config verify_signature
  validate_config-ignored o now now' exe h c ca ca' ignored = rw ignored

  -- With an option that ignores signatures, the answer and the stored configuration depend neither on
  -- the time, nor on the pool of certificates, nor on what the cryptography answers.
  pub read-ignore_signature :
      (now now' : ℕ) (exe : Bytes) (c : C) (ca ca' : Pool) (opts : List ReadOption)
      → asks_to_ignore_signature opts ≡ true
      → read_embedded_config cfg crypto now exe c ca opts
        ≡ read_embedded_config cfg crypto' now' exe c ca' opts
  unfolding read_embedded_config
  read-ignore_signature now now' exe c ca ca' opts asked =
      elim (locate_content {V = V} exe)
        as (λ r.
          read_located cfg crypto now (parse_options opts default_options) exe c ca r
          ≡ read_located cfg crypto' now' (parse_options opts default_options) exe c ca' r) [
            | err e ↦ refl
            | ok (h, s, n) ↦ rw (
                validate_config-ignored (parse_options opts default_options) now now' exe h _ ca ca'
                  (no_signature-default opts ∙ asked))
          ]

module _ {V C Key Rand Cert Pool PubKey : Type 0} (cfg : Config V C)
    (crypto : Crypto Key Rand Cert Pool PubKey) where
  -- A configuration that is embedded in no executable at all is generated, and is never read: the
  -- content would start at offset 0.
  pub read-generate_no_executable :
      (c c' : C) (key : Key) (rand : Rand) (ca : Pool) (now : ℕ) (opts : List ReadOption)
      (blob : Bytes)
      → generate_executable_with_embedded_config cfg crypto [] c key rand ≡ ok blob
      → read_embedded_config cfg crypto now blob c' ca opts ≡ (err exe_too_small, c')
  unfolding read_embedded_config
  read-generate_no_executable c c' key rand ca now opts blob gen =
      let g = generate-Generated cfg crypto [] c key rand blob gen in
      let sized = length-pad_signature g.signature g.short in
      rw (
        g.layout,
        locate_content-no_executable g.content (pad_signature g.signature) sized
            (omega (arith, g.fits)),
      )
