-- ===== src/Pki.antt =====
-- What pkg/seeder/registration and pkg/k8s/controllers use of crypto/ecdsa, crypto/rsa, crypto/sha1
-- and crypto/x509, and `matchesPublicKeys` of pkg/seeder/registration/util.go.
mod Defs
pub mod Laws
pub use Defs.{
  PublicKey, ecdsa, rsa, other_key, Csr, Template, X509, client_template, certificate_validity,
}
unfoldable pub use Defs.{matches_public_keys, equal_keys}
