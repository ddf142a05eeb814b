-- ===== src/Controller/Writes.antt =====
-- When the controller writes a certificate, and which.
use das_boot.Prelude.{
  Bool-cases, Bytes, Option, Option-cases, Result, Result-cases, String, ap, arith, eq_iff, err,
  false, inl, inr, none, ok, refl, some, true, ◌≡◌, ◌≢◌, ◌⊎◌,
}
use das_boot.Controller.Defs.{
  Failure, api_failure, csr_key, ignore_not_found, need_to_generate_certificate, reconcile, sign,
  signing_failed,
}
use das_boot.Kube.{Api, ApiError, DeviceRegistration}
use das_boot.Pki.{PublicKey, X509, client_template, ecdsa}
use das_boot.Registration.Local.{Authority}

module _ {Ec Rsa S : Type 0} (x509 : X509 Ec Rsa) (api : Api S) (a : Authority)
    (namespace name : String) where
  -- The CSR of `dr` is for the device `name` and over the ECDSA key `key`.
  pub record IsVetted (dr : DeviceRegistration) (key : Ec) (bytes : Bytes) : Type 0 where
    pub named : name ≢ ""
    pub parses :
        x509.parse_certificate_request dr.csr
        ≡ some (record { common_name = name; public_key = ecdsa key })
    pub converts : x509.ecdh_bytes key ≡ some bytes

  csr_key_of :
      (dr : DeviceRegistration) (key : Ec) (bytes : Bytes) (cn : String) (k : PublicKey Ec Rsa)
      → x509.parse_certificate_request dr.csr ≡ some (record { common_name = cn; public_key = k })
      → csr_key x509 name dr ≡ ok (key, bytes)
      → IsVetted dr key bytes
  unfolding csr_key
  csr_key_of dr key bytes cn (ecdsa k) p e =
      let same : cn ≡ name = ground (arith, eq_iff cn name) in
      record {
        named = ground (arith, eq_iff cn "", eq_iff cn name);
        parses = rw (← same) (ground arith);
        converts = ground arith;
      }
  csr_key_of dr key bytes cn _ p e = ground arith

  pub csr_key-IsVetted :
      (dr : DeviceRegistration) (key : Ec) (bytes : Bytes)
      → csr_key x509 name dr ≡ ok (key, bytes)
      → IsVetted dr key bytes
  csr_key-IsVetted dr key bytes e = elim (Option-cases (x509.parse_certificate_request dr.csr)) [
    | inl bad ↦ unfold csr_key in ground arith
    | inr (csr, p) ↦ csr_key_of dr key bytes csr.common_name csr.public_key p e
  ]

  -- The registration, its vetted key and the new certificate behind a write.
  pub record IsCertified (s s' : S) : Type 0 where
    pub registration : DeviceRegistration
    pub key : Ec
    pub bytes : Bytes
    pub certificate : Bytes
    pub found : api.get s namespace name ≡ ok registration
    pub vetted : IsVetted registration key bytes
    pub needed : need_to_generate_certificate x509 registration key ≡ true
    pub created :
        x509.create_certificate a.randomness
          (client_template a.serial a.now name (x509.sha1 bytes))
          (ecdsa key)
        ≡ some certificate
    pub written : api.update_status s (record registration { certificate = certificate }) ≡ ok s'

  abbrev pub outcome : S → Result Failure (Unit {0}) × S
  outcome s = reconcile x509 api a s namespace name

  abbrev pub signed : Ec → Bytes → Option Bytes
  signed key bytes =
      x509.create_certificate a.randomness (client_template a.serial a.now name (x509.sha1 bytes))
        (ecdsa key)

  module _ (s : S) where
    pub reconcile_unfound :
        (e : ApiError) → api.get s namespace name ≡ err e → outcome s ≡ (ignore_not_found e, s)
    unfolding reconcile
    reconcile_unfound e h = ground arith

    module _ (dr : DeviceRegistration) (found : api.get s namespace name ≡ ok dr) where
      pub reconcile_unvetted : (e : Failure) → csr_key x509 name dr ≡ err e → outcome s ≡ (err e, s)
      unfolding reconcile
      reconcile_unvetted e h = ground arith

      module _ (key : Ec) (bytes : Bytes) (vetted : csr_key x509 name dr ≡ ok (key, bytes)) where
        pub reconcile_settled :
            need_to_generate_certificate x509 dr key ≡ false → outcome s ≡ (ok tt, s)
        unfolding reconcile
        reconcile_settled h = ground arith

        module _ (needed : need_to_generate_certificate x509 dr key ≡ true) where
          pub reconcile_unsigned : signed key bytes ≡ none → outcome s ≡ (err signing_failed, s)
          unfolding reconcile sign
          reconcile_unsigned h = ground arith

          pub reconcile_unwritten :
              (cert : Bytes) (e : ApiError)
              → signed key bytes ≡ some cert
              → api.update_status s (record dr { certificate = cert }) ≡ err e
              → outcome s ≡ (err api_failure, s)
          unfolding reconcile sign
          reconcile_unwritten cert e h k = ground arith

          pub reconcile_written :
              (cert : Bytes) (s' : S)
              → signed key bytes ≡ some cert
              → api.update_status s (record dr { certificate = cert }) ≡ ok s'
              → outcome s ≡ (ok tt, s')
          unfolding reconcile sign
          reconcile_written cert s' h k = ground arith

  unchanged : {s : S} {r : Result Failure (Unit {0})} → outcome s ≡ (r, s) → (outcome s).1 ≡ s
  unchanged h = ap (λ (r : Result Failure (Unit {0}) × S). r.1) h

  vetted_case :
      (s : S) (dr : DeviceRegistration)
      → api.get s namespace name ≡ ok dr
      → (key : Ec) (bytes : Bytes) → csr_key x509 name dr ≡ ok (key, bytes)
      → ((outcome s).1 ≡ s) ⊎ (((outcome s).0 ≡ ok tt) × IsCertified s (outcome s).1)
  vetted_case s dr found key bytes vetted =
      elim (Bool-cases (need_to_generate_certificate x509 dr key)) [
        | inr settled ↦ inl (unchanged (reconcile_settled s dr found key bytes vetted settled))
        | inl needed ↦ elim (Option-cases (signed key bytes)) [
          | inl unsigned ↦
              inl (unchanged (reconcile_unsigned s dr found key bytes vetted needed unsigned))
          | inr (cert, made) ↦
              elim (Result-cases (api.update_status s (record dr { certificate = cert }))) [
                | inl (e, failed) ↦ inl (
                    unchanged
                      (reconcile_unwritten s dr found key bytes vetted needed cert e made failed))
                | inr (s', done) ↦
                    rw (reconcile_written s dr found key bytes vetted needed cert s' made done) (
                      inr (
                        refl,
                        record {
                          registration = dr;
                          key = key;
                          bytes = bytes;
                          certificate = cert;
                          found = found;
                          vetted = csr_key-IsVetted dr key bytes vetted;
                          needed = needed;
                          created = made;
                          written = done;
                        },
                      ))
              ]
        ]
      ]

  -- A reconciliation leaves the state as it is, or it succeeds and has written a certificate that was
  -- created, because one was needed, from the client template over the vetted key of the registration's CSR.
  pub reconcile-IsCertified :
      (s : S)
      → ((reconcile x509 api a s namespace name).1 ≡ s)
        ⊎ (((reconcile x509 api a s namespace name).0 ≡ ok tt)
            × IsCertified s (reconcile x509 api a s namespace name).1)
  reconcile-IsCertified s = elim (Result-cases (api.get s namespace name)) [
    | inl (e, failed) ↦ inl (unchanged (reconcile_unfound s e failed))
    | inr (dr, found) ↦ elim (Result-cases (csr_key x509 name dr)) [
      | inl (e, bad) ↦ inl (unchanged (reconcile_unvetted s dr found e bad))
      | inr ((key, bytes), vetted) ↦ vetted_case s dr found key bytes vetted
    ]
  ]
