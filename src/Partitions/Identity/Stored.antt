-- ===== src/Partitions/Identity/Stored.antt =====
-- A location that is stored, or copied from the location partition, is read back.
use das_boot.Prelude.{
  Bool-cases, Bytes, Option, Option-cases, Result-cases, String, arith, false, inl, inr, none, ok,
  refl, some, str_eq, sym, then_write, then_write-none, true, ◌∙◌, ◌≡◌,
}
use das_boot.Partitions.Identity.Files.{Files, FilesLaws}
use das_boot.Partitions.Identity.Keys.{IdentityError, written, written-none}
use das_boot.Partitions.Identity.Location.{
  Info, InfoReader, copy_location, get_location, get_partition_location, location_metadata_path,
  location_metadata_sig_path, location_uuid_path, location_uuid_sig_path, store_location,
}

-- A UUID's text is read as that UUID.
abbrev pub UuidLaw : InfoReader → Type 0
UuidLaw reader = (b u : Bytes) → reader.parse_uuid b ≡ some u → reader.parse_uuid u ≡ some u

module _ {S : Type 0} (fs : Files S) (reader : InfoReader) where
  -- What is read is a UUID's text and metadata that package json reads.
  get_location-uuid :
      (s : S) (info : Info)
      → get_location fs reader s ≡ ok info
      → ((b : Bytes) × (reader.parse_uuid b ≡ some info.uuid))
        × (reader.is_metadata info.metadata ≡ true)
  unfolding get_location
  get_location-uuid s info h = elim (Result-cases (fs.read_file s location_uuid_path)) [
    | inl (e, bad) ↦ ground arith
    | inr (b, found) ↦ elim (Option-cases (reader.parse_uuid b)) [
      | inl bad ↦ ground arith
      | inr (u, parsed) ↦ elim (Result-cases (fs.read_file s location_uuid_sig_path)) [
        | inl (e, bad) ↦ ground arith
        | inr (u_sig, found_sig) ↦ elim (Result-cases (fs.read_file s location_metadata_path)) [
          | inl (e, bad) ↦ ground arith
          | inr (md, found_md) ↦ elim (Bool-cases (reader.is_metadata md)) [
            | inr bad ↦ ground arith
            | inl fine ↦ elim (Result-cases (fs.read_file s location_metadata_sig_path)) [
              | inl (e, bad) ↦ ground arith
              | inr (md_sig, found_md_sig) ↦ ((b, ground arith), ground arith)
            ]
          ]
        ]
      ]
    ]
  ]

module _ {S : Type 0} (fs : Files S) (reader : InfoReader) (fsl : FilesLaws fs) where
  IsStored : S → Info → Type 0
  IsStored s info =
      (fs.read_file s location_uuid_path ≡ ok info.uuid)
      × (fs.read_file s location_uuid_sig_path ≡ ok info.uuid_sig)
      × (fs.read_file s location_metadata_path ≡ ok info.metadata)
      × (fs.read_file s location_metadata_sig_path ≡ ok info.metadata_sig)

  store_location-IsStored :
      (info : Info) (s s' : S) → store_location fs reader info s ≡ (none, s') → IsStored s' info
  unfolding store_location IsStored
  store_location-IsStored info s s' h =
      let put_uuid_sig : S → Option IdentityError × S =
        λ s₁. written (fs.write_file s₁ location_uuid_sig_path info.uuid_sig) in
      let put_metadata : S → Option IdentityError × S =
        λ s₂. written (fs.write_file s₂ location_metadata_path info.metadata) in
      let put_metadata_sig : S → Option IdentityError × S =
        λ s₃. written (fs.write_file s₃ location_metadata_sig_path info.metadata_sig) in
      let put_uuid = written (fs.write_file s location_uuid_path info.uuid) in
      let put_two = then_write put_uuid put_uuid_sig in
      let (s₃, upto_three, four) =
        then_write-none (then_write put_two put_metadata) put_metadata_sig s' h in
      let (s₂, upto_two, three) = then_write-none put_two put_metadata s₃ upto_three in
      let (s₁, one, two) = then_write-none put_uuid put_uuid_sig s₂ upto_two in
      let keep =
        λ (s s' : S) (p q : String) (b : Bytes) (n : str_eq p q ≡ false)
            (w : written (fs.write_file s p b) ≡ (none, s')).
          fsl.read-write_file_other s s' p q b none n (written-none _ s' w) in
      let done =
        λ (s s' : S) (p : String) (b : Bytes) (w : written (fs.write_file s p b) ≡ (none, s')).
          fsl.read-write_file s s' p b (written-none _ s' w) in
      (
        keep s₃ s' _ _ _ refl four
            ∙ keep s₂ s₃ _ _ _ refl three
            ∙ keep s₁ s₂ _ _ _ refl two
            ∙ done s s₁ _ _ one,
        keep s₃ s' _ _ _ refl four ∙ keep s₂ s₃ _ _ _ refl three ∙ done s₁ s₂ _ _ two,
        keep s₃ s' _ _ _ refl four ∙ done s₂ s₃ _ _ three,
        done s₃ s' _ _ four,
      )

  get_location-IsStored :
      (info : Info) (u : Bytes) (s : S)
      → IsStored s info
      → reader.parse_uuid info.uuid ≡ some u
      → reader.is_metadata info.metadata ≡ true
      → get_location fs reader s
        ≡ ok (record {
          uuid = u;
          uuid_sig = info.uuid_sig;
          metadata = info.metadata;
          metadata_sig = info.metadata_sig;
        })
  unfolding IsStored get_location
  get_location-IsStored info u s (one, two, three, four) parsed fine =
      rw (one, two, three, four, parsed, fine) refl

-- After a location was copied from the location partition, the identity partition has it, and reads it
-- without an error.
pub copy_location-get_location :
    {S P : Type 0} (fs : Files S) (pfs : Files P) (reader : InfoReader)
    → FilesLaws fs
    → UuidLaw reader
    → (p : P) (s s' : S) → copy_location fs pfs reader p s ≡ (none, s')
    → (get_location fs reader s' ≡ get_partition_location pfs reader p)
      × ((info : Info) × (get_location fs reader s' ≡ ok info))
unfolding copy_location get_partition_location
copy_location-get_location fs pfs reader fsl uuid_law p s s' h =
    elim (Result-cases (get_location pfs reader p)) [
      | inl (e, bad) ↦ ground arith
      | inr (info, found) ↦
          let ((b, parsed), fine) = get_location-uuid pfs reader p info found in
          let stored = store_location-IsStored fs reader fsl info s s' (ground arith) in
          let back =
            get_location-IsStored fs reader fsl info info.uuid s' stored
              (uuid_law b info.uuid parsed) fine in
          (back ∙ sym found, (info, back))
    ]
