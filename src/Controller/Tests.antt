-- ===== src/Controller/Tests.antt =====
-- The controller over the toy authority and the toy API server.
use das_boot.Prelude.{Option, Result, [], arith, eq_iff, none, ok, refl, some, ◌∷◌, ◌≡◌, ◌⊎◌}
use das_boot.Controller.Defs.{Failure, csr_key, need_to_generate_certificate, reconcile, sign}
use das_boot.Controller.Settles.{reconcile_again, submission_approved}
use das_boot.Controller.Writes.{IsCertified, reconcile-IsCertified}
use das_boot.Kube.{DeviceRegistration}
use das_boot.Registration.{Outcome, Request, approved, pending, process_request}
use das_boot.Registration.ControlPlane.{control_plane_backend, new_registration}
use das_boot.Toys.{Slot, slot_api, slot_laws, toy_authority, toy_signing, toy_x509}

abbrev waiting_registration : DeviceRegistration
waiting_registration = record {
  namespace = "default";
  name = "dev";
  location_uuid = "loc";
  csr = 1 ∷ 7 ∷ [];
  certificate = [];
}

abbrev waiting_slot : Slot
waiting_slot = some waiting_registration

abbrev certified_slot : Slot
certified_slot = some (record waiting_registration { certificate = 9 ∷ 7 ∷ [] })

reconciled :
    reconcile toy_x509 slot_api toy_authority waiting_slot "default" "dev" ≡ (ok tt, certified_slot)
unfolding reconcile need_to_generate_certificate csr_key sign
reconciled = refl

abbrev waiting_outcome : Result Failure (Unit {0}) × Slot
waiting_outcome = reconcile toy_x509 slot_api toy_authority waiting_slot "default" "dev"

reconcile-IsCertified_example :
    (waiting_outcome.1 ≡ waiting_slot)
    ⊎ ((waiting_outcome.0 ≡ ok tt)
        × IsCertified toy_x509 slot_api toy_authority "default" "dev" waiting_slot
            waiting_outcome.1)
reconcile-IsCertified_example =
    reconcile-IsCertified toy_x509 slot_api toy_authority "default" "dev" waiting_slot

reconcile_again_example :
    reconcile toy_x509 slot_api (record toy_authority { now = 2000 }) certified_slot "default" "dev"
    ≡ (ok tt, certified_slot)
reconcile_again_example =
    reconcile_again toy_x509 slot_api toy_signing slot_laws "default" "dev" toy_authority
      (record toy_authority { now = 2000 }) waiting_slot certified_slot reconciled

abbrev first_request : Request
first_request = record { device_id = "dev"; csr = some (1 ∷ 7 ∷ []); location_uuid = some "loc" }

abbrev process_slot : Slot → Request → Option (Outcome Slot)
process_slot = process_request (control_plane_backend toy_x509 slot_api "default")

submission_approved_example :
    (first second : Outcome Slot) × (process_slot none first_request ≡ some first)
    × (first.response.status ≡ pending)
    × (first.state ≡ waiting_slot)
    × (reconcile toy_x509 slot_api toy_authority waiting_slot "default" "dev"
        ≡ (ok tt, certified_slot))
    × (process_slot certified_slot first_request ≡ some second)
    × (second.response.status ≡ approved)
    × (second.response.client_certificate ≡ 9 ∷ 7 ∷ [])
unfolding new_registration csr_key
submission_approved_example =
    submission_approved toy_x509 slot_api toy_signing slot_laws "default" toy_authority none
      waiting_slot certified_slot first_request "loc" 7 (7 ∷ []) (9 ∷ 7 ∷ []) refl
      (λ e. ground (arith, eq_iff "dev" "")) refl refl refl refl refl refl
