-- ===== src/Registration/Local/Defs.antt =====
-- The cache and the four functions of processor_local.go.
use das_boot.Prelude.GoMap
use das_boot.Prelude.{Bytes, Option, false, if◌then◌else◌, none, not, some, str_eq, ℕ}
use das_boot.Pki.{X509, client_template, ecdsa}
use das_boot.Registration.Defs.{Backend, Entry, Request, csr_bytes, fresh_entry}

-- `certsCache`
abbrev pub Cache : Type 0
Cache = GoMap.Map Entry

-- What a job reads besides its request: the time, the serial number and the signer's randomness.
pub record Authority : Type 0 where
  pub now : ℕ
  pub serial : ℕ
  pub randomness : ℕ

-- The entry is copied, so that the caller cannot write into the cache: values have no identity here.
unfoldable pub local_backend : Backend Cache
local_backend = record {
  get_request = λ cache req. GoMap.get cache req.device_id;
  add_request = λ cache req. some (GoMap.put cache req.device_id fresh_entry);
  delete_request = λ cache req. GoMap.delete cache req.device_id;
}

-- The entry for a signed certificate.
abbrev pub issued_as : Bytes → Entry
issued_as der = record {
  der = der;
  is_rejected = false;
  reason = "device approved and is allowed onto the network";
  failure = none;
}

-- The end of `processRequestLocally`: what was refused on the way leaves the cache as it is.
store_issued : Cache → Request → Option Bytes → Cache
store_issued cache req none = cache
store_issued cache req (some der) = GoMap.put cache req.device_id (issued_as der)

module _ {Ec Rsa : Type 0} (x509 : X509 Ec Rsa) where
  -- The checks of `processRequestLocally` and the certificate that it creates.
  unfoldable pub issue : Authority → Request → Option Bytes
  issue a req = elim (x509.parse_certificate_request (csr_bytes req.csr)) [
    | none ↦ none
    | some csr ↦
        if str_eq csr.common_name ""
        then none
        else if not (str_eq csr.common_name req.device_id)
        then none
        else (elim csr.public_key [
          | ecdsa key ↦ elim (x509.ecdh_bytes key) [
            | none ↦ none
            | some bytes ↦
                x509.create_certificate a.randomness
                  (client_template a.serial a.now csr.common_name (x509.sha1 bytes)) csr.public_key
          ]
          | _ ↦ none
        ])
  ]

  unfoldable pub process_request_locally : Authority → Cache → Request → Cache
  unfolding store_issued
  process_request_locally a cache req = store_issued cache req (issue a req)
