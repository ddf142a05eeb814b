-- ===== src/Stage1/Kept.antt =====
-- Storing a location leaves key, CSR and certificate as they are.
use das_boot.Prelude.{
  Bytes, Option, String, false, none, refl, str_eq, then_write, then_write-none, ◌∙◌, ◌≡◌,
}
use das_boot.Partitions.Identity.Files.{Files, FilesLaws}
use das_boot.Partitions.Identity.Keys.{
  IdentityError, KeyLibrary, client_cert_path, client_csr_path, client_key_path, written,
  written-none,
}
use das_boot.Partitions.Identity.Location.{
  Info, InfoReader, location_metadata_path, location_metadata_sig_path, location_uuid_path,
  location_uuid_sig_path, store_location,
}
use das_boot.Partitions.Identity.Matching.{
  Holds, KeyLaws, no_csr, only_csr, read_client_csr-same, read_key-same, with_cert,
}
use das_boot.Pki.{X509}

module _ {S Key Ec Rsa : Type 0} (fs : Files S) (lib : KeyLibrary Key) (x509 : X509 Ec Rsa)
    (reader : InfoReader) (fsl : FilesLaws fs) (kl : KeyLaws lib x509) where
  Holds-same :
      (s s' : S)
      → fs.read_file s' client_key_path ≡ fs.read_file s client_key_path
      → fs.read_file s' client_csr_path ≡ fs.read_file s client_csr_path
      → fs.read_file s' client_cert_path ≡ fs.read_file s client_cert_path
      → Holds fs lib x509 s
      → Holds fs lib x509 s'
  Holds-same s s' key_file csr_file cert_file (no_csr no_csr_ no_cert) =
      no_csr (csr_file ∙ no_csr_) (cert_file ∙ no_cert)
  Holds-same s s' key_file csr_file cert_file (only_csr key der (has_key, has_csr, made) no_cert) =
      only_csr key der
        (
          read_key-same fs lib x509 fsl kl s s' key_file ∙ has_key,
          read_client_csr-same fs lib x509 fsl kl s s' csr_file ∙ has_csr,
          made,
        )
        (cert_file ∙ no_cert)
  Holds-same s s' key_file csr_file cert_file
        (with_cert key der cert (has_key, has_csr, made) has_cert keys) =
      with_cert key der cert
        (
          read_key-same fs lib x509 fsl kl s s' key_file ∙ has_key,
          read_client_csr-same fs lib x509 fsl kl s s' csr_file ∙ has_csr,
          made,
        )
        (cert_file ∙ has_cert) keys

  -- A file that is none of the location's.
  store_location-other :
      (info : Info) (s s' : S) (p : String)
      → str_eq location_uuid_path p ≡ false
      → str_eq location_uuid_sig_path p ≡ false
      → str_eq location_metadata_path p ≡ false
      → str_eq location_metadata_sig_path p ≡ false
      → store_location fs reader info s ≡ (none, s')
      → fs.read_file s' p ≡ fs.read_file s p
  unfolding store_location
  store_location-other info s s' p a b c d h =
      let put_uuid_sig : S → Option IdentityError × S =
        λ s₁. written (fs.write_file s₁ location_uuid_sig_path info.uuid_sig) in
      let put_metadata : S → Option IdentityError × S =
        λ s₂. written (fs.write_file s₂ location_metadata_path info.metadata) in
      let put_metadata_sig : S → Option IdentityError × S =
        λ s₃. written (fs.write_file s₃ location_metadata_sig_path info.metadata_sig) in
      let put_uuid = written (fs.write_file s location_uuid_path info.uuid) in
      let put_two = then_write put_uuid put_uuid_sig in
      let (s₃, upto_three, four) =
        then_write-none (then_write put_two put_metadata) put_metadata_sig s' h in
      let (s₂, upto_two, three) = then_write-none put_two put_metadata s₃ upto_three in
      let (s₁, one, two) = then_write-none put_uuid put_uuid_sig s₂ upto_two in
      let keep =
        λ (s s' : S) (q : String) (b : Bytes) (n : str_eq q p ≡ false)
            (w : written (fs.write_file s q b) ≡ (none, s')).
          fsl.read-write_file_other s s' q p b none n (written-none _ s' w) in
      keep s₃ s' _ _ d four ∙ keep s₂ s₃ _ _ c three ∙ keep s₁ s₂ _ _ b two ∙ keep s s₁ _ _ a one

  pub store_location-Holds :
      (info : Info) (s s' : S)
      → Holds fs lib x509 s
      → store_location fs reader info s ≡ (none, s')
      → Holds fs lib x509 s'
  store_location-Holds info s s' before h =
      let kept = λ (p : String). store_location-other info s s' p in
      Holds-same s s' (kept client_key_path refl refl refl refl h)
        (kept client_csr_path refl refl refl refl h) (kept client_cert_path refl refl refl refl h)
        before
