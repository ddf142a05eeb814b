-- ===== src/Registration/Tests.antt =====
-- Registrations over the toy authority and the toy API server.
use das_boot.Prelude.GoMap
use das_boot.Prelude.{
  Bytes, Option, String, [], arith, bytes_equal, err, false, is_some, none, ok, refl, some, str_eq,
  true, ◌↔◌, ◌∷◌, ◌≡◌, ◌≢◌, ◌⊎◌,
}
use das_boot.Kube.{DeviceRegistration, unregistered}
use das_boot.Pki.{matches_public_keys}
use das_boot.Registration.ControlPlane.{control_plane_backend, new_registration, registered_entry}
use das_boot.Registration.ControlPlane.Safety.{
  IsBacked, approved-IsBacked, changes_by_creation, panics_iff, rejected_iff,
}
use das_boot.Registration.Defs.{
  Description, Outcome, Request, Status, approved, csr_bytes, device_approved, error, no_attempt,
  not_found, pending, process_request, rejected,
}
use das_boot.Registration.Local.{issue, local_backend, process_request_locally}
use das_boot.Registration.Local.Issue.{IsIssued, issue-IsIssued}
use das_boot.Registration.Local.Steps.{
  IsHonest, Reach, Reach-IsHonest, System, handle, handled, here, next, run, start,
}
use das_boot.Registration.Local.Stuck.{
  approved_outcome, polls, polls-refused, submission_lem, submitted_outcome,
}
use das_boot.Toys.{Slot, slot_api, slot_get, toy_authority, toy_x509}

abbrev submission : Request
submission = record { device_id = "dev"; csr = some (1 ∷ 7 ∷ []); location_uuid = some "loc" }

-- The same with a CSR that does not parse, and with one for another device.
abbrev garbled : Request
garbled = record submission { csr = some (0 ∷ []) }

abbrev other_device : Request
other_device = record submission { device_id = "dev2" }

abbrev poll_request : Request
poll_request = record { device_id = "dev"; csr = none; location_uuid = none }

abbrev nowhere : Request
nowhere = record submission { location_uuid = none }

answered :
    (req : Request)
    → str_eq req.device_id "" ≡ false
    → is_some req.csr ≡ true
    → process_request local_backend [] req ≡ some (submitted_outcome [] req)
answered req named has =
    submission_lem [] req (unfold GoMap.get in refl) (ground (arith, named, has))

issue_runs :
    (issue toy_x509 toy_authority submission ≡ some (9 ∷ 7 ∷ []))
    × (issue toy_x509 toy_authority garbled ≡ none)
    × (issue toy_x509 toy_authority other_device ≡ none)
unfolding issue
issue_runs = (refl, refl, refl)

issue-IsIssued_example : IsIssued toy_x509 toy_authority submission (9 ∷ 7 ∷ [])
issue-IsIssued_example = issue-IsIssued toy_x509 toy_authority submission (9 ∷ 7 ∷ []) issue_runs.0

-- One submission arrived, and its job has run.
abbrev after_submission : System
after_submission = handled start (submitted_outcome [] submission)

abbrev after_job : System
after_job = record {
  cache = process_request_locally toy_x509 toy_authority after_submission.cache submission;
  jobs = [];
}

reached : Reach toy_x509 after_job
reached =
    next (next here (handle submission _ (answered submission refl refl)))
      (run toy_authority [] [] submission refl)

approved_now :
    process_request local_backend after_job.cache submission
    ≡ some (approved_outcome after_job.cache submission (9 ∷ 7 ∷ []))
unfolding process_request local_backend process_request_locally issue GoMap.get GoMap.put
approved_now = refl

Reach-IsHonest_example :
    IsHonest toy_x509 submission (approved_outcome after_job.cache submission (9 ∷ 7 ∷ [])).response
Reach-IsHonest_example = Reach-IsHonest toy_x509 submission _ reached approved_now

polls-refused_example :
    polls 3 poll_request
      (process_request_locally toy_x509 toy_authority (submitted_outcome [] garbled).state garbled)
    ≡ pending ∷ pending ∷ pending ∷ []
polls-refused_example =
    polls-refused toy_x509 toy_authority [] garbled poll_request (submitted_outcome [] garbled) 3
      (unfold GoMap.get in refl) refl (answered garbled refl refl) issue_runs.1 refl

-- A registered device, whose certificate is issued.
abbrev registered : Slot
registered = some (record {
  namespace = "default";
  name = "dev";
  location_uuid = "loc";
  csr = 1 ∷ 7 ∷ [];
  certificate = 9 ∷ 7 ∷ [];
})

abbrev process_slot : Slot → Request → Option (Outcome Slot)
process_slot = process_request (control_plane_backend toy_x509 slot_api "default")

abbrev plain_outcome : Slot → Status → Description → Bytes → Outcome Slot
plain_outcome s status description certificate = record {
  state = s;
  response = record {
    status = status;
    description = description;
    client_certificate = certificate;
  };
  submitted_job = none;
}

slot_runs :
    (process_slot registered submission
      ≡ some (plain_outcome registered approved (device_approved "dev") (9 ∷ 7 ∷ [])))
    × (process_slot none nowhere ≡ none)
    × (process_slot none poll_request ≡ some (plain_outcome none not_found (no_attempt "dev") []))
unfolding process_request control_plane_backend registered_entry matches_public_keys bytes_equal
slot_runs = (refl, refl, refl)

approved-IsBacked_example :
    (registered ≡ registered)
    × IsBacked toy_x509 slot_api "default" registered submission (9 ∷ 7 ∷ [])
approved-IsBacked_example =
    approved-IsBacked toy_x509 slot_api "default" registered submission
      (plain_outcome registered approved (device_approved "dev") (9 ∷ 7 ∷ [])) slot_runs.0 refl

rejected_iff_example :
    ((approved ≡ rejected) ↔ (
      (reg : DeviceRegistration) × (slot_get registered "default" "dev" ≡ ok reg)
      × (csr_bytes submission.csr ≢ [])
      × (csr_bytes submission.csr ≢ reg.csr)))
    × (approved ≢ error)
rejected_iff_example =
    rejected_iff toy_x509 slot_api "default" registered submission
      (plain_outcome registered approved (device_approved "dev") (9 ∷ 7 ∷ [])) slot_runs.0

panics_iff_example : (process_slot none nowhere ≡ none) ↔ (
    (slot_get none "default" "dev" ≡ err unregistered)
    × (nowhere.device_id ≢ "")
    × (nowhere.csr ≢ none)
    × (nowhere.location_uuid ≡ none))
panics_iff_example = panics_iff toy_x509 slot_api "default" none nowhere

changes_by_creation_example :
    (registered ≡ registered)
    ⊎ ((location : String) × (slot_get registered "default" "dev" ≡ err unregistered)
        × (submission.location_uuid ≡ some location)
        × (slot_api.create registered (new_registration "default" submission location)
            ≡ ok registered)
        × (approved ≡ pending))
changes_by_creation_example =
    changes_by_creation toy_x509 slot_api "default" registered submission
      (plain_outcome registered approved (device_approved "dev") (9 ∷ 7 ∷ [])) slot_runs.0
