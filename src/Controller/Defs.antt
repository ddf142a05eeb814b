-- ===== src/Controller/Defs.antt =====
-- `Reconcile` and `needToGenerateCertificate`. The result of the former is its error, if any, and
-- the state of the API server afterwards; `ctrl.Result{}` is empty in all cases.
use das_boot.Prelude.{
  Bool, Bytes, Result, String, err, fail_if, if◌then◌else◌, is_empty, none, not, ok, or_error, some,
  str_eq, true, ◌>>=◌, ◌>>◌,
}
use das_boot.Kube.{Api, ApiError, DeviceRegistration, other_failure, unregistered}
use das_boot.Pki.{X509, client_template, ecdsa}
use das_boot.Registration.Local.{Authority}

pub data Failure : Type 0 where
  api_failure csr_unparsable csr_without_name device_mismatch not_ecdsa not_convertible : Failure
  signing_failed : Failure

-- `client.IgnoreNotFound`
abbrev pub ignore_not_found : ApiError → Result Failure (Unit {0})
ignore_not_found unregistered = ok tt
ignore_not_found other_failure = err api_failure

module _ {Ec Rsa : Type 0} (x509 : X509 Ec Rsa) where
  -- An existing certificate that does not parse, or whose key is no ECDSA key, is replaced too.
  unfoldable pub need_to_generate_certificate : DeviceRegistration → Ec → Bool
  need_to_generate_certificate dr csr_pub =
      if is_empty dr.certificate then true else (elim (x509.certificate_key dr.certificate) [
        | none ↦ true
        | some key ↦ elim key [ ecdsa cert_pub ↦ not (x509.ec_equal csr_pub cert_pub) | _ ↦ true ]
      ])

  -- From `ParseCertificateRequest` to the bytes of the key.
  unfoldable pub csr_key : String → DeviceRegistration → Result Failure (Ec × Bytes)
  csr_key name dr = do
    csr ← or_error (x509.parse_certificate_request dr.csr) csr_unparsable
    fail_if (str_eq csr.common_name "") csr_without_name
    fail_if (not (str_eq csr.common_name name)) device_mismatch
    elim csr.public_key [
      | ecdsa key ↦ do bytes ← or_error (x509.ecdh_bytes key) not_convertible; ok (key, bytes)
      | _ ↦ err not_ecdsa
    ]

  -- The subject of the template is that of the CSR: its common name has been compared to the name.
  unfoldable pub sign : Authority → String → Ec → Bytes → Result Failure Bytes
  sign a name key bytes =
      or_error
        (x509.create_certificate a.randomness
          (client_template a.serial a.now name (x509.sha1 bytes)) (ecdsa key))
        signing_failed

  module _ {S : Type 0} (api : Api S) where
    -- `r.Status().Update`
    update : S → DeviceRegistration → Result Failure (Unit {0}) × S
    update s dr = elim (api.update_status s dr) [
      | ok s' ↦ (ok tt, s')
      | err e ↦ (err api_failure, s)
    ]

    store : S → DeviceRegistration → Result Failure Bytes → Result Failure (Unit {0}) × S
    store s dr (ok cert) = update s (record dr { certificate = cert })
    store s dr (err e) = (err e, s)

    generate_if_needed :
        Authority
        → S
        → String
        → DeviceRegistration
        → Result Failure (Ec × Bytes)
        → Result Failure (Unit {0}) × S
    generate_if_needed a s name dr (err e) = (err e, s)
    generate_if_needed a s name dr (ok (key, bytes)) =
        if need_to_generate_certificate dr key
        then store s dr (sign a name key bytes)
        else (ok tt, s)

    unfoldable pub reconcile : Authority → S → String → String → Result Failure (Unit {0}) × S
    unfolding generate_if_needed store update
    reconcile a s namespace name = elim (api.get s namespace name) [
      | err e ↦ (ignore_not_found e, s)
      | ok dr ↦ generate_if_needed a s name dr (csr_key name dr)
    ]
