-- ===== src/Controller/Settles.antt =====
-- Reconciling again, and the registration of a device from its request to its certificate.
use mathlib.Core.Path.{subst, subst₂}
use das_boot.Prelude.{
  Bool-cases, Bytes, Option, Option-cases, Result, Result-cases, String, [], ap, arith, err, false,
  inl, inr, is_some, ok, refl, some, sym, true, ℕ, ◌∙◌, ◌≡◌, ◌≢◌,
}
use das_boot.Controller.Defs.{Failure, csr_key, need_to_generate_certificate, reconcile}
use das_boot.Controller.Writes.{
  csr_key-IsVetted, reconcile_settled, reconcile_unfound, reconcile_unsigned, reconcile_unvetted,
  reconcile_unwritten, reconcile_written, signed,
}
use das_boot.Kube.{Api, ApiLaws, DeviceRegistration, other_failure, unregistered}
use das_boot.Pki.{PublicKey, Template, X509, ecdsa}
use das_boot.Pki.Laws.{matches_public_keys-ecdsa}
use das_boot.Registration.{Outcome, Request, approved, pending, process_request}
use das_boot.Registration.ControlPlane.{control_plane_backend, new_registration}
use das_boot.Registration.ControlPlane.Answers.{approval_lem, registration_lem}
use das_boot.Registration.Local.{Authority}

-- What is used of crypto/x509 and crypto/ecdsa: a created certificate is not empty and holds the
-- key that it was created over, and a key equals itself.
pub record SigningLaws {Ec Rsa : Type 0} (x509 : X509 Ec Rsa) : Type 0 where
  pub created_ne_nil :
      (r : ℕ) (t : Template) (k : PublicKey Ec Rsa) (der : Bytes)
      → x509.create_certificate r t k ≡ some der
      → der ≢ []
  pub created_key :
      (r : ℕ) (t : Template) (k : PublicKey Ec Rsa) (der : Bytes)
      → x509.create_certificate r t k ≡ some der
      → x509.certificate_key der ≡ some k
  pub ec_equal_refl : (k : Ec) → x509.ec_equal k k ≡ true

module _ {Ec Rsa S : Type 0} (x509 : X509 Ec Rsa) (api : Api S) (signing : SigningLaws x509)
    (laws : ApiLaws api) (namespace name : String) where
  abbrev outcome_at : Authority → S → Result Failure (Unit {0}) × S
  outcome_at a s = reconcile x509 api a s namespace name

  -- A certificate that was created over the key of the CSR needs no replacement.
  created_settles :
      (dr : DeviceRegistration) (key : Ec) (r : ℕ) (t : Template) (cert : Bytes)
      → x509.create_certificate r t (ecdsa key) ≡ some cert
      → need_to_generate_certificate x509 (record dr { certificate = cert }) key ≡ false
  unfolding need_to_generate_certificate
  created_settles dr key r t cert made = ground (
    arith,
    signing.created_ne_nil r t (ecdsa key) cert made,
    signing.created_key r t (ecdsa key) cert made,
    signing.ec_equal_refl key,
  )

  csr_key-certificate :
      (dr : DeviceRegistration) (cert : Bytes)
      → csr_key x509 name (record dr { certificate = cert }) ≡ csr_key x509 name dr
  unfolding csr_key
  csr_key-certificate dr cert = refl

  -- There is nothing to do at `s`.
  data IsSettled (s : S) : Type 0 where
    absent : api.get s namespace name ≡ err unregistered → IsSettled s
    certified :
        (dr : DeviceRegistration) (key : Ec) (bytes : Bytes)
        → api.get s namespace name ≡ ok dr
        → csr_key x509 name dr ≡ ok (key, bytes)
        → need_to_generate_certificate x509 dr key ≡ false
        → IsSettled s

  settled_outcome : (a : Authority) (s : S) → IsSettled s → outcome_at a s ≡ (ok tt, s)
  settled_outcome a s (absent h) = reconcile_unfound x509 api a namespace name s unregistered h
  settled_outcome a s (certified dr key bytes found vetted need) =
      reconcile_settled x509 api a namespace name s dr found key bytes vetted need

  -- What the update of the status wrote is found under the same name.
  get-update :
      (s s' : S) (dr : DeviceRegistration) (cert : Bytes)
      → api.get s namespace name ≡ ok dr
      → api.update_status s (record dr { certificate = cert }) ≡ ok s'
      → api.get s' namespace name ≡ ok (record dr { certificate = cert })
  get-update s s' dr cert found done =
      let (in_namespace, called) = laws.named s namespace name dr found in
      subst₂ (λ (n m : String). api.get s' n m ≡ ok (record dr { certificate = cert })) in_namespace
        called
        (laws.get-update_status s s' dr (record dr { certificate = cert })
          (subst₂ (λ (n m : String). api.get s n m ≡ ok dr) (sym in_namespace) (sym called) found)
          done)

  written-IsSettled :
      (s s' : S) (dr : DeviceRegistration) (key : Ec) (bytes : Bytes) (r : ℕ) (t : Template)
      (cert : Bytes)
      → api.get s namespace name ≡ ok dr
      → csr_key x509 name dr ≡ ok (key, bytes)
      → x509.create_certificate r t (ecdsa key) ≡ some cert
      → api.update_status s (record dr { certificate = cert }) ≡ ok s'
      → IsSettled s'
  written-IsSettled s s' dr key bytes r t cert found vetted made done =
      certified (record dr { certificate = cert }) key bytes (get-update s s' dr cert found done)
        (csr_key-certificate dr cert ∙ vetted) (created_settles dr key r t cert made)

  unneeded :
      {r : Result Failure (Unit {0}) × S} {s' t : S} → r ≡ (ok tt, t) → r ≡ (ok tt, s') → t ≡ s'
  unneeded h k = ap (λ (r : Result Failure (Unit {0}) × S). r.1) (sym h ∙ k)

  impossible :
      {r : Result Failure (Unit {0}) × S} {s' t : S} {e : Failure} {A : Type 0}
      → r ≡ (err e, t)
      → r ≡ (ok tt, s')
      → A
  impossible h k = absurd (cc (ap (λ (r : Result Failure (Unit {0}) × S). r.0) (sym h ∙ k)))

  vetted-IsSettled :
      (a : Authority) (s s' : S) (dr : DeviceRegistration) (key : Ec) (bytes : Bytes)
      → api.get s namespace name ≡ ok dr
      → csr_key x509 name dr ≡ ok (key, bytes)
      → outcome_at a s ≡ (ok tt, s')
      → IsSettled s'
  vetted-IsSettled a s s' dr key bytes found vetted h =
      elim (Bool-cases (need_to_generate_certificate x509 dr key)) [
        | inr need ↦
            subst IsSettled
              (unneeded
                (reconcile_settled x509 api a namespace name s dr found key bytes vetted need) h)
              (certified dr key bytes found vetted need)
        | inl needed ↦ elim (Option-cases (signed x509 api a namespace name key bytes)) [
          | inl unsigned ↦
              impossible
                (reconcile_unsigned x509 api a namespace name s dr found key bytes vetted needed
                  unsigned)
                h
          | inr (cert, made) ↦
              elim (Result-cases (api.update_status s (record dr { certificate = cert }))) [
                | inl (e, failed) ↦
                    impossible
                      (reconcile_unwritten x509 api a namespace name s dr found key bytes vetted
                        needed cert e made failed)
                      h
                | inr (t, done) ↦
                    subst IsSettled
                      (unneeded
                        (reconcile_written x509 api a namespace name s dr found key bytes vetted
                          needed cert t made done)
                        h)
                      (written-IsSettled s t dr key bytes _ _ cert found vetted made done)
              ]
        ]
      ]

  success-IsSettled : (a : Authority) (s s' : S) → outcome_at a s ≡ (ok tt, s') → IsSettled s'
  success-IsSettled a s s' h = elim (Result-cases (api.get s namespace name)) [
    | inl (unregistered, failed) ↦
        subst IsSettled
          (unneeded (reconcile_unfound x509 api a namespace name s unregistered failed) h)
          (absent failed)
    | inl (other_failure, failed) ↦
        impossible (reconcile_unfound x509 api a namespace name s other_failure failed) h
    | inr (dr, found) ↦ elim (Result-cases (csr_key x509 name dr)) [
      | inl (e, bad) ↦ impossible (reconcile_unvetted x509 api a namespace name s dr found e bad) h
      | inr ((key, bytes), vetted) ↦ vetted-IsSettled a s s' dr key bytes found vetted h
    ]
  ]

  -- A reconciliation that succeeded has settled the registration: another one, at any time,
  -- succeeds and changes nothing.
  pub reconcile_again :
      (a a' : Authority) (s s' : S) → outcome_at a s ≡ (ok tt, s') → outcome_at a' s' ≡ (ok tt, s')
  reconcile_again a a' s s' h = settled_outcome a' s' (success-IsSettled a s s' h)

module _ {Ec Rsa S : Type 0} (x509 : X509 Ec Rsa) (api : Api S) (signing : SigningLaws x509)
    (laws : ApiLaws api) (namespace : String) where
  abbrev process : S → Request → Option (Outcome S)
  process = process_request (control_plane_backend x509 api namespace)

  -- A device that is not registered submits a CSR with its location, and the API server creates
  -- the registration. If the controller's checks pass on the CSR, and the signing and the update of
  -- the status succeed, then the submission is answered as pending, the reconciliation succeeds,
  -- and the same request is approved after it, with the new certificate.
  pub submission_approved :
      (a : Authority) (s s' s'' : S) (req : Request) (location : String) (key : Ec)
      (bytes cert : Bytes)
      → api.get s namespace req.device_id ≡ err unregistered
      → req.device_id ≢ ""
      → is_some req.csr ≡ true
      → req.location_uuid ≡ some location
      → api.create s (new_registration namespace req location) ≡ ok s'
      → csr_key x509 req.device_id (new_registration namespace req location) ≡ ok (key, bytes)
      → signed x509 api a namespace req.device_id key bytes ≡ some cert
      → api.update_status s'
          (record (new_registration namespace req location) { certificate = cert })
        ≡ ok s''
      → (first second : Outcome S) × (process s req ≡ some first)
        × (first.response.status ≡ pending)
        × (first.state ≡ s')
        × (reconcile x509 api a s' namespace req.device_id ≡ (ok tt, s''))
        × (process s'' req ≡ some second)
        × (second.response.status ≡ approved)
        × (second.response.client_certificate ≡ cert)
  unfolding new_registration
  submission_approved a s s' s'' req location key bytes cert gone named has at created vetted made
        done =
      let dr = new_registration namespace req location in
      let found = laws.get-create s s' dr created in
      let updated =
        get-update x509 api signing laws namespace req.device_id s' s'' dr cert found done in
      let ok_csr = csr_key-IsVetted x509 api a namespace req.device_id dr key bytes vetted in
      let holds = signing.created_key _ _ _ cert made in
      let some_bytes = signing.created_ne_nil _ _ _ cert made in
      (
        _,
        _,
        registration_lem x509 api namespace s s' req location gone named has at created,
        refl,
        refl,
        reconcile_written x509 api a namespace req.device_id s' dr found key bytes vetted
            (unfold need_to_generate_certificate in refl) cert s'' made done,
        approval_lem x509 api namespace s'' req (record dr { certificate = cert }) updated refl
            some_bytes
            (matches_public_keys-ecdsa x509 dr.csr cert req.device_id key ok_csr.parses holds
              (signing.ec_equal_refl key)),
        refl,
        refl,
      )
