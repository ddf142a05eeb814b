-- ===== src/Partitions/Identity/Keys.antt =====
-- api_impl.go: key, CSR and certificate of the identity partition. There is no TPM: `HasTPM` is false.
-- A private key's public half is of the type `Ec`.
use das_boot.Prelude.{
  Bool, Bytes, Option, Result, String, arith, bytes_equal, err, fail_if, false, if◌then◌else◌,
  is_some, ltb, none, not, ok, or_error, some, str_eq, then_write, ℕ, ◌&&◌, ◌>>=◌, ◌>>◌, ◌≡◌,
}
use das_boot.Partitions.Identity.Files.{Files, FsError, no_such_file, other_fs_error}
use das_boot.Pki.{PublicKey, X509, ecdsa}

-- What is called in crypto/ecdsa, crypto/x509, crypto/tls and encoding/pem. A PEM block has a type
-- and its bytes; `validity` are the first and the last second of a certificate.
pub record KeyLibrary (Key : Type 0) : Type 0 where
  pub marshal_key : Key → Option Bytes
  pub parse_key : Bytes → Option Key
  pub create_csr : Key → String → Option Bytes
  pub pem_encode : String → Bytes → Bytes
  pub pem_decode : Bytes → Option (String × Bytes)
  pub validity : Bytes → ℕ × ℕ
  pub is_key_pair : Bytes → Bytes → Bool

pub data IdentityError : Type 0 where
  fs_failed : FsError → IdentityError
  no_pem_data no_device_id key_unusable csr_failed bad_csr : IdentityError
  bad_certificate not_ecdsa_certificate not_ecdsa_csr keys_differ bad_uuid bad_metadata :
      IdentityError

abbrev pub client_key_path : String
client_key_path = "/identity/client.key"

abbrev pub client_csr_path : String
client_csr_path = "/identity/client.csr"

abbrev pub client_cert_path : String
client_cert_path = "/identity/client.crt"

abbrev pub from_fs {ℓ} : {A : Type ℓ} → Result FsError A → Result IdentityError A
from_fs (ok a) = ok a
from_fs (err e) = err (fs_failed e)

-- `Remove`, where a missing file is no error.
unfoldable pub remove_if_there : {S : Type 0} → Files S → S → String → Option IdentityError × S
remove_if_there fs s p =
    let (e, s') = fs.remove s p in
    (
      elim e [
        | none ↦ none
        | some f ↦ elim f [ no_such_file ↦ none | other_fs_error ↦ some (fs_failed other_fs_error) ]
      ],
      s',
    )

abbrev pub written : {S : Type 0} → Option FsError × S → Option IdentityError × S
written (none, s) = (none, s)
written (some e, s) = (some (fs_failed e), s)

pub written-none :
    {S : Type 0} (m : Option FsError × S) (s' : S) → written m ≡ (none, s') → m ≡ (none, s')
written-none (none, s₁) s' h = ground arith
written-none (some e, s₁) s' h = ground arith

module _ {S Key Ec Rsa : Type 0} (fs : Files S) (lib : KeyLibrary Key) (x509 : X509 Ec Rsa) where
  -- A file's PEM block.
  unfoldable pub read_pem : S → String → Result IdentityError (String × Bytes)
  read_pem s p = do b ← from_fs (fs.read_file s p); or_error (lib.pem_decode b) no_pem_data

  unfoldable pub read_key : S → Result IdentityError Key
  read_key s = do (type, b) ← read_pem s client_key_path; or_error (lib.parse_key b) key_unusable

  -- The key that `GenerateKey` gave, if it did.
  unfoldable pub generate_client_key_pair : Option Key → S → Option IdentityError × S
  generate_client_key_pair none s = (some key_unusable, s)
  generate_client_key_pair (some key) s = elim (lib.marshal_key key) [
    | none ↦ (some key_unusable, s)
    | some b ↦
        then_write
          (then_write
            (written (fs.write_file s client_key_path (lib.pem_encode "EC PRIVATE KEY" b)))
            (λ s₁. remove_if_there fs s₁ client_csr_path))
          (λ s₂. remove_if_there fs s₂ client_cert_path)
  ]

  -- The key on disk and the CSR made with it.
  unfoldable pub new_csr : String → S → Result IdentityError Bytes
  new_csr device_id s = do
    key ← read_key s
    fail_if (str_eq device_id "") no_device_id
    or_error (lib.create_csr key device_id) csr_failed

  -- The argument is the device's ID; the bytes that are returned besides are those of `new_csr`.
  unfoldable pub generate_client_csr : String → S → Option IdentityError × S
  generate_client_csr device_id s = elim (new_csr device_id s) [
    | err e ↦ (some e, s)
    | ok der ↦
        then_write
          (written (fs.write_file s client_csr_path (lib.pem_encode "CERTIFICATE REQUEST" der)))
          (λ s₁. remove_if_there fs s₁ client_cert_path)
  ]

  unfoldable pub read_client_csr : S → Result IdentityError Bytes
  read_client_csr s = do
    (type, b) ← read_pem s client_csr_path
    fail_if (not (is_some (x509.parse_certificate_request b))) bad_csr
    ok b

  abbrev pub as_ecdsa : IdentityError → PublicKey Ec Rsa → Result IdentityError Ec
  as_ecdsa e (ecdsa k) = ok k
  as_ecdsa e _ = err e

  -- The checks of `StoreClientCert`.
  unfoldable pub check_client_cert : Bytes → S → Result IdentityError (Unit {0})
  check_client_cert cert s = do
    cert_key ← or_error (x509.certificate_key cert) bad_certificate
    cert_pub ← as_ecdsa not_ecdsa_certificate cert_key
    b ← read_client_csr s
    csr ← or_error (x509.parse_certificate_request b) bad_csr
    csr_pub ← as_ecdsa not_ecdsa_csr csr.public_key
    fail_if (not (x509.ec_equal csr_pub cert_pub)) keys_differ

  unfoldable pub store_client_cert : Bytes → S → Option IdentityError × S
  store_client_cert cert s = elim (check_client_cert cert s) [
    | err e ↦ (some e, s)
    | ok _ ↦ written (fs.write_file s client_cert_path (lib.pem_encode "CERTIFICATE" cert))
  ]

  -- A file's PEM block of the type.
  unfoldable pub read_typed : S → String → String → Option Bytes
  read_typed s p type = elim (read_pem s p) [
    | err e ↦ none
    | ok (t, b) ↦ if str_eq t type then some b else none
  ]

  unfoldable pub has_client_key : S → Bool
  has_client_key s = elim (read_typed s client_key_path "EC PRIVATE KEY") [
    | none ↦ false
    | some b ↦ is_some (lib.parse_key b)
  ]

  unfoldable pub has_client_csr : S → Bool
  has_client_csr s = elim (read_typed s client_csr_path "CERTIFICATE REQUEST") [
    | none ↦ false
    | some b ↦ is_some (x509.parse_certificate_request b)
  ]

  -- The certificate on disk, if it parses.
  unfoldable pub client_cert : S → Option Bytes
  client_cert s = elim (read_typed s client_cert_path "CERTIFICATE") [
    | none ↦ none
    | some b ↦ if is_some (x509.certificate_key b) then some b else none
  ]

  unfoldable pub has_client_cert : S → Bool
  has_client_cert s = is_some (client_cert s)

  unfoldable pub load_x509_key_pair : S → Bool
  load_x509_key_pair s = elim (fs.read_file s client_cert_path) [
    | err e ↦ false
    | ok c ↦ elim (fs.read_file s client_key_path) [ err e ↦ false | ok k ↦ lib.is_key_pair c k ]
  ]

  -- The argument is the time.
  unfoldable pub has_valid_client_cert : ℕ → S → Bool
  has_valid_client_cert now s = elim (client_cert s) [
    | none ↦ false
    | some b ↦ ltb (lib.validity b).0 now && ltb now (lib.validity b).1 && load_x509_key_pair s
  ]

  -- `Certificate.Equal` compares the bytes.
  unfoldable pub matches_client_certificate : Bytes → S → Bool
  matches_client_certificate cert s = elim (client_cert s) [
    | none ↦ false
    | some b ↦ bytes_equal b cert
  ]
