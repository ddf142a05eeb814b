-- ===== src/Stage1/Certified.antt =====
-- What is on the identity partition when stage 1 goes on to download stage 2.
use das_boot.Registration.{Request}
use mathlib.Core.Path.{subst}
use das_boot.Prelude.{
  Bool, Bool-cases, Bytes, Option, Result, Result-cases, ap, arith, err, false, if◌then◌else◌, inl,
  inr, is_some, none, ok, some, then_write, then_write-none, true, ℕ, ◌≡◌,
}
use das_boot.Partitions.Identity.Files.{Files, FilesLaws}
use das_boot.Partitions.Identity.Keys.{
  IdentityError, KeyLibrary, client_cert, client_cert_path, generate_client_csr,
  generate_client_key_pair, has_client_csr, has_valid_client_cert, matches_client_certificate,
  read_client_csr, read_pem, read_typed, store_client_cert,
}
use das_boot.Partitions.Identity.Location.{Info, InfoReader, get_location, store_location}
use das_boot.Partitions.Identity.Matching.{
  HasCsr, HasKeyOf, Holds, KeyLaws, generate_client_csr-Holds, generate_client_key_pair-Holds,
  no_csr, only_csr, store_client_cert-Holds, store_client_cert-file, with_cert,
}
use das_boot.Pki.{X509}
use das_boot.Seeder.Handler.Register.{
  http_error, invalid_request, no_answer, processing_error, request_not_found, undecodable,
}
use das_boot.Stage1.Defs.{
  Answer, Inputs, Stage1Error, await, check_valid_registration, csr_failed_, csr_of,
  ensure_certificate, ensure_key, ensure_registered, failed_as, info_equal, is_moved, keep_location,
  key_failed, location_failed, prepare_identity, register_device, rekey, store_failed, submit_csr,
}
use das_boot.Stage1.Kept.{store_location-Holds}

module _ {S Key Ec Rsa : Type 0} (fs : Files S) (lib : KeyLibrary Key) (x509 : X509 Ec Rsa)
    (reader : InfoReader) (fsl : FilesLaws fs) (kl : KeyLaws lib x509) where
  -- There is a certificate, with the key of the CSR that was made with the key that is there.
  abbrev pub IsCertified : S → Type 0
  IsCertified s =
      (key : Key) × (der : Bytes) × (cert : Bytes) × HasCsr fs lib x509 s key der
      × (fs.read_file s client_cert_path ≡ ok (lib.pem_encode "CERTIFICATE" cert))
      × HasKeyOf fs lib x509 cert der

  Holds-IsCertified :
      (s : S) (b : Bytes)
      → Holds fs lib x509 s
      → fs.read_file s client_cert_path ≡ ok b
      → IsCertified s
  Holds-IsCertified s b (no_csr _ missing_) h = ground arith
  Holds-IsCertified s b (only_csr key der _ missing_) h = ground arith
  Holds-IsCertified s b (with_cert key der cert has_csr has_cert keys) h =
      (key, der, cert, has_csr, has_cert, keys)

  failed_as-none :
      (f : IdentityError → Stage1Error) (m : Option IdentityError × S) (s' : S)
      → failed_as f m ≡ (none, s')
      → m ≡ (none, s')
  failed_as-none f (none, s) s' h = ground arith
  failed_as-none f (some e, s) s' h = ground arith

  -- Each step that succeeds keeps what the partition holds.
  rekey-Holds :
      (key : Option Key) (s s' : S)
      → rekey fs lib x509 reader key s ≡ (none, s')
      → Holds fs lib x509 s'
  unfolding rekey generate_client_key_pair
  rekey-Holds none s s' h = ground arith
  rekey-Holds (some key) s s' h =
      generate_client_key_pair-Holds fs lib x509 fsl kl s s' key
        (failed_as-none key_failed (generate_client_key_pair fs lib x509 (some key) s) s' h)

  -- A step that does nothing, under a test.
  rekey_unless :
      (b : Bool) (key : Option Key) (s s' : S)
      → Holds fs lib x509 s
      → (if b then rekey fs lib x509 reader key s else (none, s)) ≡ (none, s')
      → Holds fs lib x509 s'
  rekey_unless true key s s' before h = rekey-Holds key s s' h
  rekey_unless false key s s' before h = subst (Holds fs lib x509) (ap (λ m. m.1) h) before

  keep_location-Holds :
      (loc : Option Info) (s s' : S)
      → Holds fs lib x509 s
      → keep_location fs lib x509 reader loc s ≡ (none, s')
      → Holds fs lib x509 s'
  unfolding keep_location
  keep_location-Holds none s s' before h = subst (Holds fs lib x509) (ap (λ m. m.1) h) before
  keep_location-Holds (some info) s s' before h =
      let stored_ =
        λ (h : failed_as location_failed (store_location fs reader info s) ≡ (none, s')).
          store_location-Holds fs lib x509 reader fsl kl info s s' before
            (failed_as-none location_failed (store_location fs reader info s) s' h) in
      elim (Result-cases (get_location fs reader s)) [
        | inl (e, bad) ↦ stored_ (ground arith)
        | inr (stored, found) ↦ elim (Bool-cases (info_equal info stored)) [
          | inl same ↦ let stays : s ≡ s' = ground arith in subst (Holds fs lib x509) stays before
          | inr differs ↦ stored_ (ground arith)
        ]
      ]

  unchanged : (s s' : S) → Holds fs lib x509 s → s ≡ s' → Holds fs lib x509 s'
  unchanged s s' before same = subst (Holds fs lib x509) same before

  check_valid_registration-Holds :
      (key : Option Key) (answer : Answer) (s s' : S)
      → Holds fs lib x509 s
      → check_valid_registration fs lib x509 reader key answer s ≡ (none, s')
      → Holds fs lib x509 s'
  unfolding check_valid_registration
  check_valid_registration-Holds key (err (request_not_found resp)) s s' before h =
      rekey-Holds key s s' h
  check_valid_registration-Holds key (err (invalid_request e)) s s' before h = ground arith
  check_valid_registration-Holds key (err undecodable) s s' before h = ground arith
  check_valid_registration-Holds key (err (processing_error resp)) s s' before h = ground arith
  check_valid_registration-Holds key (err (http_error n)) s s' before h = ground arith
  check_valid_registration-Holds key (err no_answer) s s' before h = ground arith
  check_valid_registration-Holds key (ok resp) s s' before h =
      elim (Bool-cases (is_some (x509.certificate_key resp.client_certificate))) [
        | inr bad ↦ ground arith
        | inl reads ↦
            elim (Bool-cases (matches_client_certificate fs lib x509 resp.client_certificate s)) [
              | inl same ↦ unchanged s s' before (ground arith)
              | inr other ↦ rekey-Holds key s s' (ground arith)
            ]
      ]

  ensure_registered-Holds :
      (i : Inputs Key) (s s' : S)
      → Holds fs lib x509 s
      → ensure_registered fs lib x509 reader i s ≡ (none, s')
      → Holds fs lib x509 s'
  unfolding ensure_registered
  ensure_registered-Holds i s s' before h =
      elim (Bool-cases (has_valid_client_cert fs lib x509 i.second_time s)) [
        | inl valid ↦
            check_valid_registration-Holds i.second_key i.check_poll s s' before (ground arith)
        | inr invalid ↦ unchanged s s' before (ground arith)
      ]

  ensure_key-Holds :
      (i : Inputs Key) (b : Bool) (s s' : S)
      → Holds fs lib x509 s
      → ensure_key fs lib x509 reader i b s ≡ (none, s')
      → Holds fs lib x509 s'
  unfolding ensure_key
  ensure_key-Holds i b s s' before h = rekey_unless _ i.first_key s s' before h

  submit_csr-IsCertified :
      (i : Inputs Key) (csr : Result IdentityError Bytes) (s s' : S)
      → Holds fs lib x509 s
      → submit_csr fs lib x509 reader i csr s ≡ (none, s')
      → IsCertified s'
  unfolding submit_csr
  submit_csr-IsCertified i (err e) s s' before h = ground arith
  submit_csr-IsCertified i (ok der) s s' before h =
      let req : Request = record {
        device_id = i.device_id;
        csr = some der;
        location_uuid = i.location_uuid;
      } in
      elim (Result-cases (await (i.submit req) i.polls)) [
        | inl (e, bad) ↦ ground arith
        | inr (resp, answered) ↦
            let cert = resp.client_certificate in
            let stored =
              failed_as-none store_failed (store_client_cert fs lib x509 cert s) s'
                (ground arith) in
            let after_ = store_client_cert-Holds fs lib x509 fsl kl s s' cert before stored in
            Holds-IsCertified s' (lib.pem_encode "CERTIFICATE" cert) after_
              (store_client_cert-file fs lib x509 fsl kl s s' cert stored)
      ]

  register_device-IsCertified :
      (i : Inputs Key) (s s' : S)
      → Holds fs lib x509 s
      → register_device fs lib x509 reader i s ≡ (none, s')
      → IsCertified s'
  unfolding register_device
  register_device-IsCertified i s s' before h = elim (Bool-cases (has_client_csr fs lib x509 s)) [
    | inl has ↦ submit_csr-IsCertified i (read_client_csr fs lib x509 s) s s' before (ground arith)
    | inr missing_ ↦
        let made = failed_as csr_failed_ (generate_client_csr fs lib x509 i.csr_device_id s) in
        let onward : S → Option Stage1Error × S = λ s₁.
          submit_csr fs lib x509 reader i (csr_of fs lib x509 reader i.csr_device_id s s₁) s₁ in
        let (s₁, one, two) = then_write-none made onward s' (ground arith) in
        let held =
          generate_client_csr-Holds fs lib x509 fsl kl s s₁ i.csr_device_id (
            failed_as-none csr_failed_ (generate_client_csr fs lib x509 i.csr_device_id s) s₁
              one) in
        submit_csr-IsCertified i (csr_of fs lib x509 reader i.csr_device_id s s₁) s₁ s' held two
  ]

  -- A valid certificate is a file.
  has_valid_client_cert-file :
      (now : ℕ) (s : S)
      → has_valid_client_cert fs lib x509 now s ≡ true
      → (b : Bytes) × (fs.read_file s client_cert_path ≡ ok b)
  unfolding has_valid_client_cert client_cert read_typed read_pem
  has_valid_client_cert-file now s h = elim (Result-cases (fs.read_file s client_cert_path)) [
    | inl (e, bad) ↦ ground arith
    | inr (b, there) ↦ (b, there)
  ]

  ensure_certificate-IsCertified :
      (i : Inputs Key) (s s' : S)
      → Holds fs lib x509 s
      → ensure_certificate fs lib x509 reader i s ≡ (none, s')
      → IsCertified s'
  unfolding ensure_certificate
  ensure_certificate-IsCertified i s s' before h =
      elim (Bool-cases (has_valid_client_cert fs lib x509 i.third_time s)) [
        | inl valid ↦
            let (b, there) = has_valid_client_cert-file i.third_time s valid in
            let stays : s ≡ s' = ground arith in
            subst IsCertified stays (Holds-IsCertified s b before there)
        | inr invalid ↦ register_device-IsCertified i s s' before (ground arith)
      ]

  -- On a partition that is without a CSR and a certificate, or whose CSR was made with its key and has
  -- the ECDSA key of its certificate, if any: when the part of `Run` from the location to the
  -- registration succeeds, there is afterwards a CSR that was made with the key on disk, and a
  -- certificate with an ECDSA key equal to that of the CSR. This is for every answer of the seeder,
  -- every list of polls, every location and all times.
  pub prepare_identity-IsCertified :
      (i : Inputs Key) (s s' : S)
      → Holds fs lib x509 s
      → prepare_identity fs lib x509 reader i s ≡ (none, s')
      → IsCertified s'
  unfolding prepare_identity
  prepare_identity-IsCertified i s s' before h =
      let located = keep_location fs lib x509 reader i.location s in
      let keyed = ensure_key fs lib x509 reader i (is_moved fs lib x509 reader i.location s) in
      let two_steps = then_write located keyed in
      let (s₃, upto_three, four) =
        then_write-none (then_write two_steps (ensure_registered fs lib x509 reader i))
          (ensure_certificate fs lib x509 reader i) s' h in
      let (s₂, upto_two, three) =
        then_write-none two_steps (ensure_registered fs lib x509 reader i) s₃ upto_three in
      let (s₁, one, two) = then_write-none located keyed s₂ upto_two in
      let held₁ = keep_location-Holds i.location s s₁ before one in
      let held₂ = ensure_key-Holds i (is_moved fs lib x509 reader i.location s) s₁ s₂ held₁ two in
      let held₃ = ensure_registered-Holds i s₂ s₃ held₂ three in
      ensure_certificate-IsCertified i s₃ s' held₃ four
