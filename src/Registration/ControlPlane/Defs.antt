-- ===== src/Registration/ControlPlane/Defs.antt =====
-- The four functions of processor_controlplane.go over the API.
use das_boot.Prelude.{
  Option, Result, String, [], bytes_equal, err, false, if◌then◌else◌, is_empty, none, not, ok, some,
  true, ◌&&◌,
}
use das_boot.Kube.{Api, ApiError, DeviceRegistration, other_failure, unregistered}
use das_boot.Pki.{X509, matches_public_keys}
use das_boot.Registration.Defs.{Backend, Entry, Request, csr_bytes, fresh_entry}

mismatch_reason : String
mismatch_reason =
    "CSR of registration request does not match CSR of existing registration request. If this is expected because for example the device was expected to generate a new identity, then you need to delete the previous device registration."

-- The object that `addRequestWithControlPlane` creates. The metadata's name is the device ID.
unfoldable pub new_registration : String → Request → String → DeviceRegistration
new_registration namespace req location = record {
  namespace = namespace;
  name = req.device_id;
  location_uuid = location;
  csr = csr_bytes req.csr;
  certificate = [];
}

-- An error of the call is logged, and the state stays as it is.
abbrev kept : {S : Type 0} → S → Result ApiError S → S
kept s (ok s') = s'
kept s (err e) = s

module _ {Ec Rsa S : Type 0} (x509 : X509 Ec Rsa) (api : Api S) (namespace : String) where
  -- The entry for a registration that was found.
  unfoldable pub registered_entry : Request → DeviceRegistration → Entry
  unfolding mismatch_reason
  registered_entry req reg =
      if not (is_empty (csr_bytes req.csr)) && not (bytes_equal (csr_bytes req.csr) reg.csr)
      then record { der = []; is_rejected = true; reason = mismatch_reason; failure = none }
      else if is_empty reg.certificate
      then fresh_entry
      else if not (matches_public_keys x509 reg.csr reg.certificate)
      then fresh_entry
      else record {
        der = reg.certificate;
        is_rejected = false;
        reason = "issued by registration-controller";
        failure = none;
      }

  get_request_with_control_plane : S → Request → Option Entry
  get_request_with_control_plane s req = elim (api.get s namespace req.device_id) [
    | ok reg ↦ some (registered_entry req reg)
    | err e ↦ elim e [ unregistered ↦ none | other_failure ↦ some fresh_entry ]
  ]

  -- `req.LocationInfo.UUID` panics where no location came with the request.
  add_request_with_control_plane : S → Request → Option S
  add_request_with_control_plane s req = elim req.location_uuid [
    | none ↦ none
    | some location ↦ some (kept s (api.create s (new_registration namespace req location)))
  ]

  -- Processing and deleting do nothing here.
  unfoldable pub control_plane_backend : Backend S
  unfolding get_request_with_control_plane add_request_with_control_plane
  control_plane_backend = record {
    get_request = get_request_with_control_plane;
    add_request = add_request_with_control_plane;
    delete_request = λ s req. s;
  }
