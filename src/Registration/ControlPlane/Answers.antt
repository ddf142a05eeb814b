-- ===== src/Registration/ControlPlane/Answers.antt =====
-- The answers of the processor over the control plane to a new submission and to an approved one.
use das_boot.Prelude.{
  Option, String, [], arith, bytes_equal_iff, eq_iff, err, is_some, none, ok, some, true, ◌≡◌, ◌≢◌,
}
use das_boot.Kube.{Api, DeviceRegistration, unregistered}
use das_boot.Pki.{X509, matches_public_keys}
use das_boot.Registration.ControlPlane.Defs.{
  control_plane_backend, new_registration, registered_entry,
}
use das_boot.Registration.Defs.{
  Outcome, Request, approved, csr_bytes, device_approved, pending, process_request, submitted,
}

module _ {Ec Rsa S : Type 0} (x509 : X509 Ec Rsa) (api : Api S) (namespace : String) where
  abbrev process : S → Request → Option (Outcome S)
  process = process_request (control_plane_backend x509 api namespace)

  pub registration_lem :
      (s s' : S) (req : Request) (location : String)
      → api.get s namespace req.device_id ≡ err unregistered
      → req.device_id ≢ ""
      → is_some req.csr ≡ true
      → req.location_uuid ≡ some location
      → api.create s (new_registration namespace req location) ≡ ok s'
      → process s req
        ≡ some (record {
          state = s';
          response = record {
            status = pending;
            description = submitted req.device_id;
            client_certificate = [];
          };
          submitted_job = some req;
        })
  unfolding process_request control_plane_backend
  registration_lem s s' req location gone named has at created =
      ground (arith, eq_iff req.device_id "")

  pub approval_lem :
      (s : S) (req : Request) (reg : DeviceRegistration)
      → api.get s namespace req.device_id ≡ ok reg
      → csr_bytes req.csr ≡ reg.csr
      → reg.certificate ≢ []
      → matches_public_keys x509 reg.csr reg.certificate ≡ true
      → process s req
        ≡ some (record {
          state = s;
          response = record {
            status = approved;
            description = device_approved req.device_id;
            client_certificate = reg.certificate;
          };
          submitted_job = none;
        })
  unfolding process_request control_plane_backend registered_entry
  approval_lem s req reg found same some_bytes matches =
      ground (arith, bytes_equal_iff (csr_bytes req.csr) reg.csr)
