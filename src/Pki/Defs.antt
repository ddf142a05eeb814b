-- ===== src/Pki/Defs.antt =====
-- Certificates, signing requests and the template of a client certificate.
use das_boot.Prelude.{
  Bool, Bytes, List, Option, String, [], false, none, some, ℕ, ◌*◌, ◌+◌, ◌-◌, ◌∷◌,
}

-- The dynamic type of `PublicKey`: the code tells ECDSA and RSA keys from all others.
pub data PublicKey (Ec Rsa : Type 0) : Type 0 where
  ecdsa : Ec → PublicKey Ec Rsa
  rsa : Rsa → PublicKey Ec Rsa
  other_key : PublicKey Ec Rsa

pub record Csr (Ec Rsa : Type 0) : Type 0 where
  pub common_name : String
  pub public_key : PublicKey Ec Rsa

-- The fields of `x509.Certificate` that the code sets; of the subject the common name.
-- Times are in seconds. Key usages are the bits of `x509.KeyUsage`.
pub record Template : Type 0 where
  pub serial_number : ℕ
  pub common_name : String
  pub subject_key_id : Bytes
  pub not_before : ℕ
  pub not_after : ℕ
  pub key_usage : ℕ
  pub ext_key_usage : List ℕ

-- `create_certificate` signs with the key and the certificate of the authority; its first
-- argument is the randomness. `certificate_key` is `ParseCertificate` and the public key of the result.
pub record X509 (Ec Rsa : Type 0) : Type 0 where
  pub parse_certificate_request : Bytes → Option (Csr Ec Rsa)
  pub certificate_key : Bytes → Option (PublicKey Ec Rsa)
  pub ec_equal : Ec → Ec → Bool
  pub rsa_equal : Rsa → Rsa → Bool
  pub ecdh_bytes : Ec → Option Bytes
  pub sha1 : Bytes → Bytes
  pub create_certificate : ℕ → Template → PublicKey Ec Rsa → Option Bytes

-- time.Hour * 24 * 360
abbrev pub certificate_validity : ℕ
certificate_validity = 3600 * 24 * 360

-- The template for a client certificate at time `now`. Digital signature and key encipherment are
-- the bits 1 and 4 of the key usage, client authentication is 2 among the extended ones.
abbrev pub client_template : ℕ → ℕ → String → Bytes → Template
client_template serial now name key_id = record {
  serial_number = serial;
  common_name = name;
  subject_key_id = key_id;
  not_before = now - 5 * 60;
  not_after = now + certificate_validity;
  key_usage = 1 + 4;
  ext_key_usage = 2 ∷ [];
}

module _ {Ec Rsa : Type 0} (x509 : X509 Ec Rsa) where
  -- The type switch of `matchesPublicKeys`.
  unfoldable pub equal_keys : PublicKey Ec Rsa → PublicKey Ec Rsa → Bool
  equal_keys (ecdsa k) (ecdsa k') = x509.ec_equal k k'
  equal_keys (rsa k) (rsa k') = x509.rsa_equal k k'
  equal_keys _ _ = false

  unfoldable pub matches_public_keys : Bytes → Bytes → Bool
  unfolding equal_keys
  matches_public_keys csr cert = elim (x509.parse_certificate_request csr) [
    | none ↦ false
    | some request ↦ elim (x509.certificate_key cert) [
      | none ↦ false
      | some key ↦ equal_keys request.public_key key
    ]
  ]
