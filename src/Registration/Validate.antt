-- ===== src/Registration/Validate.antt =====
-- `Request.Validate`, with `uuid.Parse` of github.com/google/uuid as a parameter.
use das_boot.Prelude.{Bool, Option, String, if◌then◌else◌, is_empty, is_some, none, not, some, ◌&&◌}
use das_boot.Pki.{X509}
use das_boot.Registration.Defs.{Request, csr_bytes}

pub data Invalid : Type 0 where
  invalid_uuid invalid_csr : Invalid

module _ {Ec Rsa : Type 0} (x509 : X509 Ec Rsa) (is_uuid : String → Bool) where
  unfoldable pub validate : Request → Option Invalid
  validate r =
      if not (is_uuid r.device_id)
      then some invalid_uuid
      else if not (is_empty (csr_bytes r.csr))
          && not (is_some (x509.parse_certificate_request (csr_bytes r.csr)))
      then some invalid_csr
      else none
