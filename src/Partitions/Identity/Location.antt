-- ===== src/Partitions/Identity/Location.antt =====
-- The location that identity/api_impl.go and location/api_impl.go keep in files.
use das_boot.Prelude.{
  Bool, Bytes, Option, Result, String, err, fail_if, not, ok, or_error, some, then_write, ◌>>=◌,
  ◌>>◌,
}
use das_boot.Partitions.Identity.Files.{Files}
use das_boot.Partitions.Identity.Keys.{IdentityError, bad_metadata, bad_uuid, from_fs, written}

-- location's `Info`. A text is its bytes.
pub record Info : Type 0 where
  pub uuid : Bytes
  pub uuid_sig : Bytes
  pub metadata : Bytes
  pub metadata_sig : Bytes

-- `uuid.ParseBytes` with the UUID's `String`, and whether package json reads a `Metadata`.
pub record InfoReader : Type 0 where
  pub parse_uuid : Bytes → Option Bytes
  pub is_metadata : Bytes → Bool

abbrev pub location_uuid_path : String
location_uuid_path = "/location/uuid"

abbrev pub location_uuid_sig_path : String
location_uuid_sig_path = "/location/uuid.sig"

abbrev pub location_metadata_path : String
location_metadata_path = "/location/metadata"

abbrev pub location_metadata_sig_path : String
location_metadata_sig_path = "/location/metadata.sig"

module _ {S : Type 0} (fs : Files S) (reader : InfoReader) where
  unfoldable pub get_location : S → Result IdentityError Info
  get_location s = do
    b ← from_fs (fs.read_file s location_uuid_path)
    u ← or_error (reader.parse_uuid b) bad_uuid
    u_sig ← from_fs (fs.read_file s location_uuid_sig_path)
    md ← from_fs (fs.read_file s location_metadata_path)
    fail_if (not (reader.is_metadata md)) bad_metadata
    md_sig ← from_fs (fs.read_file s location_metadata_sig_path)
    ok (record { uuid = u; uuid_sig = u_sig; metadata = md; metadata_sig = md_sig })

  unfoldable pub store_location : Info → S → Option IdentityError × S
  store_location info s =
      then_write
        (then_write
          (then_write (written (fs.write_file s location_uuid_path info.uuid))
            (λ s₁. written (fs.write_file s₁ location_uuid_sig_path info.uuid_sig)))
          (λ s₂. written (fs.write_file s₂ location_metadata_path info.metadata)))
        (λ s₃. written (fs.write_file s₃ location_metadata_sig_path info.metadata_sig))

-- The location partition's `GetLocation`: the same code, on the other partition.
unfoldable pub get_partition_location :
    {P : Type 0} → Files P → InfoReader → P → Result IdentityError Info
get_partition_location fs reader p = get_location fs reader p

unfoldable pub copy_location :
    {S P : Type 0} → Files S → Files P → InfoReader → P → S → Option IdentityError × S
copy_location fs pfs reader p s = elim (get_partition_location pfs reader p) [
  | err e ↦ (some e, s)
  | ok info ↦ store_location fs reader info s
]
