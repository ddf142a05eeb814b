-- ===== src/Partitions/Identity/Matching.antt =====
-- What key, CSR and certificate on an identity partition have to do with one another.
use das_boot.Prelude.{
  Bool-cases, Bytes, Option, Option-cases, Result-cases, String, arith, err, false, inl, inr,
  is_some, none, ok, refl, some, str_eq, sym, then_write, then_write-none, true, ◌∙◌, ◌≡◌, ◌⊎◌,
}
use das_boot.Partitions.Identity.Files.{Files, FilesLaws, FsError, no_such_file, other_fs_error}
use das_boot.Partitions.Identity.Keys.{
  IdentityError, KeyLibrary, as_ecdsa, check_client_cert, client_cert_path, client_csr_path,
  client_key_path, generate_client_csr, generate_client_key_pair, new_csr, not_ecdsa_certificate,
  not_ecdsa_csr, read_client_csr, read_key, read_pem, remove_if_there, store_client_cert, written,
  written-none,
}
use das_boot.Pki.{Csr, PublicKey, X509, ecdsa, other_key, rsa}

-- What is used of package pem, and that package x509 reads the requests that it makes.
pub record KeyLaws {Key Ec Rsa : Type 0} (lib : KeyLibrary Key) (x509 : X509 Ec Rsa) : Type 0 where
  pub pem_decode-csr :
      (der : Bytes)
      → lib.pem_decode (lib.pem_encode "CERTIFICATE REQUEST" der)
        ≡ some ("CERTIFICATE REQUEST", der)
  pub parse-create_csr :
      (key : Key) (id : String) (der : Bytes)
      → lib.create_csr key id ≡ some der
      → is_some (x509.parse_certificate_request der) ≡ true

module _ {S Key Ec Rsa : Type 0} (fs : Files S) (lib : KeyLibrary Key) (x509 : X509 Ec Rsa) where
  -- The CSR on disk was made with the key on disk.
  abbrev pub HasCsr : S → Key → Bytes → Type 0
  HasCsr s key der =
      (read_key fs lib x509 s ≡ ok key)
      × (read_client_csr fs lib x509 s ≡ ok der)
      × ((id : String) × (lib.create_csr key id ≡ some der))

  -- Two certificates' keys are one ECDSA key.
  abbrev pub HasKeyOf : Bytes → Bytes → Type 0
  HasKeyOf cert der =
      (k : Ec) × (csr : Csr Ec Rsa) × (k' : Ec) × (x509.certificate_key cert ≡ some (ecdsa k))
      × (x509.parse_certificate_request der ≡ some csr)
      × (csr.public_key ≡ ecdsa k')
      × (x509.ec_equal k' k ≡ true)

  abbrev pub IsMissing : S → String → Type 0
  IsMissing s p = fs.read_file s p ≡ err no_such_file

  -- The states that the partition goes through.
  pub data Holds (s : S) : Type 0 where
    no_csr : IsMissing s client_csr_path → IsMissing s client_cert_path → Holds s
    only_csr : (key : Key) (der : Bytes) → HasCsr s key der → IsMissing s client_cert_path → Holds s
    with_cert :
        (key : Key) (der cert : Bytes)
        → HasCsr s key der
        → fs.read_file s client_cert_path ≡ ok (lib.pem_encode "CERTIFICATE" cert)
        → HasKeyOf cert der
        → Holds s

  -- A call that succeeds. Storing a location concerns other files.
  pub data Step (s s' : S) : Type 0 where
    key_generated :
        (key : Key) → generate_client_key_pair fs lib x509 (some key) s ≡ (none, s') → Step s s'
    csr_generated : (id : String) → generate_client_csr fs lib x509 id s ≡ (none, s') → Step s s'
    cert_stored : (cert : Bytes) → store_client_cert fs lib x509 cert s ≡ (none, s') → Step s s'

  -- What can be reached from a partition without a CSR and a certificate.
  pub data Reach : S → Type 0 where
    from_new : {s : S} → IsMissing s client_csr_path → IsMissing s client_cert_path → Reach s
    and_then : {s s' : S} → Reach s → Step s s' → Reach s'

  module _ (fsl : FilesLaws fs) (kl : KeyLaws lib x509) where
    removed_cases :
        (o : Option FsError) → (o ≡ none) ⊎ (o ≡ some no_such_file) ⊎ (o ≡ some other_fs_error)
    removed_cases none = inl refl
    removed_cases (some no_such_file) = inr (inl refl)
    removed_cases (some other_fs_error) = inr (inr refl)

    -- A removal that succeeds leaves the file missing, and other files as they were.
    remove_if_there-IsMissing :
        (s s' : S) (p : String) → remove_if_there fs s p ≡ (none, s') → IsMissing s' p
    unfolding remove_if_there
    remove_if_there-IsMissing s s' p h = elim (removed_cases (fs.remove s p).0) [
      | inl done ↦ fsl.read-remove s s' p (ground arith)
      | inr (inl absent) ↦
          let (same, missing_) = fsl.remove-missing s s' p (ground arith) in rw same missing_
      | inr (inr failed) ↦ ground arith
    ]

    remove_if_there-other :
        (s s' : S) (p q : String) (e : Option IdentityError)
        → str_eq p q ≡ false
        → remove_if_there fs s p ≡ (e, s')
        → fs.read_file s' q ≡ fs.read_file s q
    unfolding remove_if_there
    remove_if_there-other s s' p q e n h =
        fsl.read-remove_other s s' p q (fs.remove s p).0 n (ground arith)

    pub read_key-same :
        (s s' : S)
        → fs.read_file s' client_key_path ≡ fs.read_file s client_key_path
        → read_key fs lib x509 s' ≡ read_key fs lib x509 s
    unfolding read_key read_pem
    read_key-same s s' h = rw h refl

    pub read_client_csr-same :
        (s s' : S)
        → fs.read_file s' client_csr_path ≡ fs.read_file s client_csr_path
        → read_client_csr fs lib x509 s' ≡ read_client_csr fs lib x509 s
    unfolding read_client_csr read_pem
    read_client_csr-same s s' h = rw h refl

    read_client_csr-written :
        (s : S) (key : Key) (id : String) (der : Bytes)
        → lib.create_csr key id ≡ some der
        → fs.read_file s client_csr_path ≡ ok (lib.pem_encode "CERTIFICATE REQUEST" der)
        → read_client_csr fs lib x509 s ≡ ok der
    unfolding read_client_csr read_pem
    read_client_csr-written s key id der made h =
        rw (h, kl.pem_decode-csr der, kl.parse-create_csr key id der made) refl

    new_csr-made :
        (s : S) (id : String) (der : Bytes)
        → new_csr fs lib x509 id s ≡ ok der
        → (key : Key) × (read_key fs lib x509 s ≡ ok key) × (lib.create_csr key id ≡ some der)
    unfolding new_csr
    new_csr-made s id der h = elim (Result-cases (read_key fs lib x509 s)) [
      | inl (e, failed) ↦ ground arith
      | inr (key, has_key) ↦ (key, has_key, ground arith)
    ]

    -- Each call that succeeds ends in one of the states.
    pub generate_client_key_pair-Holds :
        (s s' : S) (key : Key)
        → generate_client_key_pair fs lib x509 (some key) s ≡ (none, s')
        → Holds s'
    unfolding generate_client_key_pair
    generate_client_key_pair-Holds s s' key h = elim (Option-cases (lib.marshal_key key)) [
      | inl bad ↦ ground arith
      | inr (b, fine) ↦
          let wrote =
            written (fs.write_file s client_key_path (lib.pem_encode "EC PRIVATE KEY" b)) in
          let remove_csr : S → Option IdentityError × S =
            λ s₁. remove_if_there fs s₁ client_csr_path in
          let remove_cert : S → Option IdentityError × S =
            λ s₂. remove_if_there fs s₂ client_cert_path in
          let (s₂, two, three) =
            then_write-none (then_write wrote remove_csr) remove_cert s' (ground arith) in
          let (s₁, one, two') = then_write-none wrote remove_csr s₂ two in
          no_csr
            (remove_if_there-other s₂ s' client_cert_path client_csr_path none refl three
              ∙ remove_if_there-IsMissing s₁ s₂ client_csr_path two')
            (remove_if_there-IsMissing s₂ s' client_cert_path three)
    ]

    pub generate_client_csr-Holds :
        (s s' : S) (id : String) → generate_client_csr fs lib x509 id s ≡ (none, s') → Holds s'
    unfolding generate_client_csr
    generate_client_csr-Holds s s' id h = elim (Result-cases (new_csr fs lib x509 id s)) [
      | inl (e, failed) ↦ ground arith
      | inr (der, made) ↦
          let (key, has_key, created) = new_csr-made s id der made in
          let pem = lib.pem_encode "CERTIFICATE REQUEST" der in
          let wrote = written (fs.write_file s client_csr_path pem) in
          let remove_cert : S → Option IdentityError × S =
            λ s₁. remove_if_there fs s₁ client_cert_path in
          let (s₁, one, two) = then_write-none wrote remove_cert s' (ground arith) in
          let one' = written-none (fs.write_file s client_csr_path pem) s₁ one in
          let csr_file =
            remove_if_there-other s₁ s' client_cert_path client_csr_path none refl two
            ∙ fsl.read-write_file s s₁ client_csr_path pem one' in
          let key_file =
            remove_if_there-other s₁ s' client_cert_path client_key_path none refl two
            ∙ fsl.read-write_file_other s s₁ client_csr_path client_key_path pem none refl one' in
          only_csr key der
            (
              read_key-same s s' key_file ∙ has_key,
              read_client_csr-written s' key id der created csr_file,
              (id, created),
            )
            (remove_if_there-IsMissing s₁ s' client_cert_path two)
    ]

    as_ecdsa-cases :
        (e : IdentityError) (k : PublicKey Ec Rsa)
        → ((c : Ec) × (k ≡ ecdsa c) × (as_ecdsa fs lib x509 e k ≡ ok c))
          ⊎ (as_ecdsa fs lib x509 e k ≡ err e)
    as_ecdsa-cases e (ecdsa k) = inl (k, refl, refl)
    as_ecdsa-cases e (rsa k) = inr refl
    as_ecdsa-cases e other_key = inr refl

    pub check_client_cert-HasKeyOf :
        (s : S) (cert : Bytes) (u : Unit {0})
        → check_client_cert fs lib x509 cert s ≡ ok u
        → (der : Bytes) × (read_client_csr fs lib x509 s ≡ ok der) × HasKeyOf cert der
    unfolding check_client_cert
    check_client_cert-HasKeyOf s cert u h = elim (Option-cases (x509.certificate_key cert)) [
      | inl bad ↦ ground arith
      | inr (k, cert_key) ↦ elim (as_ecdsa-cases not_ecdsa_certificate k) [
        | inr bad ↦ ground arith
        | inl (c, k_is, fine) ↦ elim (Result-cases (read_client_csr fs lib x509 s)) [
          | inl (e, bad) ↦ ground arith
          | inr (der, has_csr) ↦ elim (Option-cases (x509.parse_certificate_request der)) [
            | inl bad ↦ ground arith
            | inr (csr, parsed) ↦ elim (as_ecdsa-cases not_ecdsa_csr csr.public_key) [
              | inr bad ↦ ground arith
              | inl (c', csr_is, fine') ↦ elim (Bool-cases (x509.ec_equal c' c)) [
                | inl same ↦ (der, has_csr, (c, csr, c', ground arith, parsed, csr_is, same))
                | inr differ ↦ ground arith
              ]
            ]
          ]
        ]
      ]
    ]

    -- A CSR that is there was made with the key on disk.
    Holds-key :
        (s : S) (der : Bytes)
        → Holds s
        → read_client_csr fs lib x509 s ≡ ok der
        → (key : Key) × (read_key fs lib x509 s ≡ ok key)
          × ((id : String) × (lib.create_csr key id ≡ some der))
    unfolding read_client_csr read_pem
    Holds-key s der (no_csr missing_ _) h = ground arith
    Holds-key s der (only_csr key der' (has_key, has_csr, (id, made)) _) h =
        let same = sym has_csr ∙ h in (key, has_key, (id, ground arith))
    Holds-key s der (with_cert key der' cert (has_key, has_csr, (id, made)) _ _) h =
        let same = sym has_csr ∙ h in (key, has_key, (id, ground arith))

    pub store_client_cert-Holds :
        (s s' : S) (cert : Bytes)
        → Holds s
        → store_client_cert fs lib x509 cert s ≡ (none, s')
        → Holds s'
    unfolding store_client_cert
    store_client_cert-Holds s s' cert before h =
        elim (Result-cases (check_client_cert fs lib x509 cert s)) [
          | inl (e, bad) ↦ ground arith
          | inr (u, fine) ↦
              let (der, has_csr, keys) = check_client_cert-HasKeyOf s cert u fine in
              let pem = lib.pem_encode "CERTIFICATE" cert in
              let wrote = written-none (fs.write_file s client_cert_path pem) s' (ground arith) in
              let csr_file =
                fsl.read-write_file_other s s' client_cert_path client_csr_path pem none refl
                  wrote in
              let key_file =
                fsl.read-write_file_other s s' client_cert_path client_key_path pem none refl
                  wrote in
              let same_csr = read_client_csr-same s s' csr_file in
              let same_key = read_key-same s s' key_file in
              let (key, has_key, made) = Holds-key s der before has_csr in
              with_cert key der cert (same_key ∙ has_key, same_csr ∙ has_csr, made)
                (fsl.read-write_file s s' client_cert_path pem wrote) keys
        ]

    pub store_client_cert-file :
        (s s' : S) (cert : Bytes)
        → store_client_cert fs lib x509 cert s ≡ (none, s')
        → fs.read_file s' client_cert_path ≡ ok (lib.pem_encode "CERTIFICATE" cert)
    unfolding store_client_cert
    store_client_cert-file s s' cert h =
        elim (Result-cases (check_client_cert fs lib x509 cert s)) [
          | inl (e, bad) ↦ ground arith
          | inr (u, fine) ↦
              let pem = lib.pem_encode "CERTIFICATE" cert in
              fsl.read-write_file s s' client_cert_path pem
                (written-none (fs.write_file s client_cert_path pem) s' (ground arith))
        ]

    Step-Holds : (s s' : S) → Holds s → Step s s' → Holds s'
    Step-Holds s s' before (key_generated key h) = generate_client_key_pair-Holds s s' key h
    Step-Holds s s' before (csr_generated id h) = generate_client_csr-Holds s s' id h
    Step-Holds s s' before (cert_stored cert h) = store_client_cert-Holds s s' cert before h

    -- On an identity partition that was made by generating keys, generating CSRs and storing certificates,
    -- a CSR was made with the key that is there, and a certificate has an ECDSA key equal to that of the
    -- CSR that is there. This is about calls that succeed.
    pub Reach-Holds : (s : S) → Reach s → Holds s
    Reach-Holds s (from_new csr cert) = no_csr csr cert
    Reach-Holds s (and_then before step) = Step-Holds _ s (Reach-Holds _ before) step
