-- ===== src/Registration/ControlPlane/Safety.antt =====
-- What a response of the processor over the control plane says of the registration.
use das_boot.Prelude.{
  Bool-cases, Bytes, Option, Option-cases, Result-cases, String, [], arith, bytes_equal_iff, eq_iff,
  err, inl, inr, is_empty_iff, is_some, none, not, ok, some, str_eq, ◌&&◌, ◌↔◌, ◌≡◌, ◌≢◌, ◌⊎◌,
}
use das_boot.Kube.{Api, DeviceRegistration, other_failure, unregistered}
use das_boot.Pki.{X509}
use das_boot.Pki.Laws.{SameKey, matches_public_keys-SameKey}
use das_boot.Registration.ControlPlane.Defs.{
  control_plane_backend, new_registration, registered_entry,
}
use das_boot.Registration.Defs.{
  Outcome, Request, approved, csr_bytes, error, pending, process_request, rejected,
}

module _ {Ec Rsa S : Type 0} (x509 : X509 Ec Rsa) (api : Api S) (namespace : String) where
  abbrev process : S → Request → Option (Outcome S)
  process = process_request (control_plane_backend x509 api namespace)

  -- The registration that was found stands behind the response `r` to `req`.
  pub record IsBacked (s : S) (req : Request) (certificate : Bytes) : Type 0 where
    pub registration : DeviceRegistration
    pub found : api.get s namespace req.device_id ≡ ok registration
    pub handed_out : certificate ≡ registration.certificate
    pub same_key : SameKey x509 registration.csr registration.certificate
    pub same_csr : (csr_bytes req.csr ≡ []) ⊎ (csr_bytes req.csr ≡ registration.csr)

  -- An approval changes nothing, and hands out the certificate of the registration of this device, whose public
  -- key is that of the registered CSR; and a CSR in the request is the registered one.
  pub approved-IsBacked :
      (s : S) (req : Request) (o : Outcome S)
      → process s req ≡ some o
      → o.response.status ≡ approved
      → (o.state ≡ s) × IsBacked s req o.response.client_certificate
  unfolding process_request control_plane_backend registered_entry
  approved-IsBacked s req o h yes_ = elim (Result-cases (api.get s namespace req.device_id)) [
    | inl (unregistered, e) ↦ ground arith
    | inl (other_failure, e) ↦ ground arith
    | inr (reg, found) ↦ (
      ground arith,
      record {
        registration = reg;
        found = found;
        handed_out = ground arith;
        same_key = matches_public_keys-SameKey x509 reg.csr reg.certificate (ground arith);
        same_csr =
            ground (
              arith,
              is_empty_iff (csr_bytes req.csr),
              bytes_equal_iff (csr_bytes req.csr) reg.csr,
            );
      },
    )
  ]

  -- The processor rejects exactly if the device is registered and the request brings another,
  -- non-empty, CSR; and it never answers with an error.
  pub rejected_iff :
      (s : S) (req : Request) (o : Outcome S)
      → process s req ≡ some o
      → ((o.response.status ≡ rejected) ↔ (
          (reg : DeviceRegistration) × (api.get s namespace req.device_id ≡ ok reg)
          × (csr_bytes req.csr ≢ [])
          × (csr_bytes req.csr ≢ reg.csr)))
        × (o.response.status ≢ error)
  unfolding process_request control_plane_backend registered_entry
  rejected_iff s req o h = elim (Result-cases (api.get s namespace req.device_id)) [
    | inl (unregistered, e) ↦ (
      (λ rej. ground arith, λ w. let (reg, found, _, _) = w in ground arith),
      λ bad. ground arith,
    )
    | inl (other_failure, e) ↦ (
      (λ rej. ground arith, λ w. let (reg, found, _, _) = w in ground arith),
      λ bad. ground arith,
    )
    | inr (reg, found) ↦ (
      (
        λ rej. (
          reg,
          found,
          ground (arith, is_empty_iff (csr_bytes req.csr)),
          ground (arith, bytes_equal_iff (csr_bytes req.csr) reg.csr),
        ),
        λ w.
            let (reg', found', some_csr, other_csr) = w in
            ground (
              arith,
              is_empty_iff (csr_bytes req.csr),
              bytes_equal_iff (csr_bytes req.csr) reg.csr,
            ),
      ),
      λ bad. ground arith,
    )
  ]

  -- It panics exactly if the device is not registered, and the request names a device and brings
  -- a CSR, but no location.
  pub panics_iff :
      (s : S) (req : Request)
      → (process s req ≡ none) ↔ (
          (api.get s namespace req.device_id ≡ err unregistered)
          × (req.device_id ≢ "")
          × (req.csr ≢ none)
          × (req.location_uuid ≡ none))
  unfolding process_request control_plane_backend
  panics_iff s req =
      (λ h. ground (arith, eq_iff req.device_id ""), λ h. ground (arith, eq_iff req.device_id ""))

  -- A request changes the state only by creating the registration of a device that had none, and
  -- is then answered as pending.
  pub changes_by_creation :
      (s : S) (req : Request) (o : Outcome S)
      → process s req ≡ some o
      → (o.state ≡ s)
        ⊎ ((location : String) × (api.get s namespace req.device_id ≡ err unregistered)
            × (req.location_uuid ≡ some location)
            × (api.create s (new_registration namespace req location) ≡ ok o.state)
            × (o.response.status ≡ pending))
  unfolding process_request control_plane_backend
  changes_by_creation s req o h = elim (Result-cases (api.get s namespace req.device_id)) [
    | inl (unregistered, e) ↦ elim (Option-cases req.location_uuid) [
      | inl no_location ↦ ground arith
      | inr (location, has) ↦
          elim (Result-cases (api.create s (new_registration namespace req location))) [
            | inl (f, failed) ↦ ground arith
            | inr (s', done) ↦
                elim (Bool-cases (not (str_eq req.device_id "") && is_some req.csr)) [
                  | inl new ↦ inr (location, e, has, ground arith, ground arith)
                  | inr old ↦ inl (ground arith)
                ]
          ]
    ]
    | inl (other_failure, e) ↦ ground arith
    | inr (reg, found) ↦ ground arith
  ]
