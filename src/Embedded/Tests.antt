-- ===== src/Embedded/Tests.antt =====
-- The embedded configuration over a toy key, whose signature is the key and a byte of randomness.
use mathlib.Core.Path.{subst}
use mathlib.Core.Option.{some-injective}
use das_boot.Prelude.{
  Bool, Bytes, List, Result, [], arith, bytes_equal, err, false, if◌then◌else◌, length, ltb, none,
  ok, refl, some, true, ℕ, ◌++◌, ◌==◌, ◌∷◌, ◌≡◌,
}
use das_boot.Embedded.Codec.{
  Config, Crypto, Error, certificate_verification, exe_too_small, signature_verification_failure,
  trim_right,
}
use das_boot.Embedded.Generate.{generate_executable_with_embedded_config, pad_signature}
use das_boot.Embedded.Layout.{image}
use das_boot.Embedded.Options.{no_signature-default, read-generate_no_executable}
use das_boot.Embedded.Padding.{EndsInZero}
use das_boot.Embedded.Read.{
  ReadOption, default_options, ignore_expiry_time, ignore_signature, locate_content, parse_options,
  read_embedded_config, validate_config, verify_signature,
}
use das_boot.Embedded.Rejects.{IsAccepted, read_embedded_config-IsAccepted}
use das_boot.Embedded.RoundTrip.{IsTrusted, read-generate, read-generate-EndsInZero}

-- A configuration is its bytes; the first is its version.
abbrev first_or_zero : Bytes → ℕ
first_or_zero [] = 0
first_or_zero (x ∷ xs) = x

abbrev toy_config : Config (Unit {0}) Bytes
toy_config = record {
  config_version = first_or_zero;
  is_supported_config_version = λ c v. v == 1;
  validate = λ c. if ltb 10 (length c) then some tt else none;
  cert = λ c. c;
  marshal = λ c. some c;
  unmarshal = λ b c. (b, true);
}

abbrev signs_for : ℕ → Bytes → Bool
signs_for key (k ∷ r ∷ []) = k == key
signs_for key _ = false

-- A certificate is a configuration, valid from its length on, and expired from time 100 on.
abbrev toy_crypto : Crypto ℕ ℕ Bytes (Unit {0}) ℕ
toy_crypto = record {
  is_p256 = λ k. true;
  sha256 = λ b. b;
  sign = λ r k m. some (k ∷ r ∷ []);
  parse_certificate = λ b. some b;
  verify = λ c p usages now. if ltb now 100 then none else some true;
  not_before = λ c. length c;
  ecdsa_public_key = λ c. some 5;
  verify_asn1 = λ k m s. signs_for k s;
}

abbrev executable : Bytes
executable = 127 ∷ 69 ∷ 76 ∷ 70 ∷ []

abbrev stored : Bytes
stored = 1 ∷ 2 ∷ 3 ∷ []

abbrev file : ℕ → Bytes
file r = image executable stored (pad_signature (5 ∷ r ∷ []))

generated :
    (r : ℕ)
    → generate_executable_with_embedded_config toy_config toy_crypto executable stored 5 r
      ≡ ok (file r)
unfolding generate_executable_with_embedded_config
generated r = refl

abbrev reads : ℕ → ℕ → List ReadOption → Result (Error (Unit {0})) (Unit {0}) × Bytes
reads r now opts = read_embedded_config toy_config toy_crypto now (file r) [] tt opts

reads_run :
    (reads 7 50 [] ≡ (ok tt, stored))
    × (reads 0 50 [] ≡ (err signature_verification_failure, stored))
    × (reads 7 200 [] ≡ (err certificate_verification, stored))
    × (reads 7 200 (ignore_expiry_time ∷ []) ≡ (ok tt, stored))
    × (reads 0 200 (ignore_signature ∷ []) ≡ (ok tt, stored))
unfolding read_embedded_config locate_content bytes_equal parse_options validate_config
    verify_signature trim_right
reads_run = (refl, refl, refl, refl, refl)

trusted : IsTrusted toy_config toy_crypto stored tt 50 5
trusted = record { certificate = stored; parses = refl; verifies = refl; holds_key = refl }

read-generate_example : reads 7 50 [] ≡ (ok tt, stored)
read-generate_example =
    read-generate toy_config toy_crypto executable stored [] 5 7 tt 50 [] (file 7) 5 (generated 7)
      (omega arith) (λ b e. ground arith) refl trusted
      (λ b s e e'. (ground arith, λ z. ground arith))

strict_zero :
    (s t u : Bytes) → some (5 ∷ 0 ∷ []) ≡ some s → t ++ u ≡ s → signs_for 5 t ≡ true → t ≡ s
strict_zero s (x ∷ y ∷ []) [] e p v = ground arith
strict_zero s (x ∷ y ∷ []) (z ∷ zs) e p v = ground arith
strict_zero s [] u e p v = ground arith
strict_zero s (x ∷ []) u e p v = ground arith
strict_zero s (x ∷ y ∷ z ∷ t) u e p v = ground arith

read-generate-EndsInZero_example : reads 0 50 [] ≡ (err signature_verification_failure, stored)
read-generate-EndsInZero_example =
    read-generate-EndsInZero toy_config toy_crypto executable stored [] 5 0 tt 50 [] (file 0) 5
      (generated 0) (omega arith) (λ b e. ground arith) refl trusted
      (λ b s e' e. (
        subst EndsInZero (some-injective (5 ∷ 0 ∷ []) s e) refl,
        ground arith,
        λ t u p v. strict_zero s t u e p v,
      ))
      (no_signature-default [])

read-generate_no_executable_example :
    read_embedded_config toy_config toy_crypto 50
      (image [] stored (pad_signature (5 ∷ 7 ∷ [])))
      []
      tt
      []
    ≡ (err exe_too_small, [])
unfolding generate_executable_with_embedded_config
read-generate_no_executable_example =
    read-generate_no_executable toy_config toy_crypto stored [] 5 7 tt 50 []
      (image [] stored (pad_signature (5 ∷ 7 ∷ []))) refl

read_embedded_config-IsAccepted_example :
    IsAccepted toy_config toy_crypto 50 (file 7) [] stored tt (parse_options [] default_options)
read_embedded_config-IsAccepted_example =
    read_embedded_config-IsAccepted toy_config toy_crypto 50 (file 7) [] stored tt [] reads_run.0
