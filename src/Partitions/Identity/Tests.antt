-- ===== src/Partitions/Identity/Tests.antt =====
-- A file system that is a map, key pairs that are numbers, and runs of the operations.
use das_boot.Prelude.GoMap
use das_boot.Prelude.{Bytes, Option, [], inr, none, ok, refl, some, ℕ, ◌∷◌, ◌≡◌}
use das_boot.Partitions.Device.{Device, is_hedgehog_identity_partition, type_hedgehog_identity}
use das_boot.Partitions.Identity.Files.{other_fs_error}
use das_boot.Partitions.Identity.Keys.{
  check_client_cert, generate_client_csr, generate_client_key_pair, new_csr, read_client_csr,
  read_key, read_pem, remove_if_there, store_client_cert,
}
use das_boot.Partitions.Identity.Location.{
  Info, copy_location, get_location, get_partition_location, location_metadata_path,
  location_metadata_sig_path, location_uuid_path, location_uuid_sig_path, store_location,
}
use das_boot.Partitions.Identity.Matching.{
  Holds, Reach-Holds, and_then, cert_stored, csr_generated, from_new, key_generated,
}
use das_boot.Partitions.Identity.Opening.{
  VersionCodec, already_initialized, clean, init, init_empty, make_directories, op_mkdir,
  open_identity_partition, path_error, write_version,
}
use das_boot.Partitions.Identity.Stored.{copy_location-get_location}
use das_boot.Partitions.Identity.ToyDisk.{
  toy-FilesLaws, toy-KeyLaws, toy_files, toy_keys, toy_reader,
}
use das_boot.Partitions.Identity.Unfinished.{init-open_identity_partition}
use das_boot.Partitions.Uevent.{is_partition}
use das_boot.Toys.{toy_x509}

abbrev with_key : GoMap.Map Bytes
with_key = (generate_client_key_pair (toy_files none) toy_keys toy_x509 (some 5) []).1

abbrev with_csr : GoMap.Map Bytes
with_csr = (generate_client_csr (toy_files none) toy_keys toy_x509 "dev" with_key).1

abbrev with_client_cert : GoMap.Map Bytes
with_client_cert = (store_client_cert (toy_files none) toy_keys toy_x509 (9 ∷ 5 ∷ []) with_csr).1

Reach-Holds_example : Holds (toy_files none) toy_keys toy_x509 with_client_cert
unfolding generate_client_key_pair generate_client_csr store_client_cert remove_if_there new_csr
    read_key read_pem check_client_cert read_client_csr GoMap.get GoMap.put GoMap.delete
Reach-Holds_example =
    Reach-Holds (toy_files none) toy_keys toy_x509 (toy-FilesLaws none) toy-KeyLaws with_client_cert
      (and_then
        (and_then (and_then (from_new {s = []} refl refl) (key_generated 5 refl))
          (csr_generated "dev" refl))
        (cert_stored (9 ∷ 5 ∷ []) refl))

abbrev toy_version : Bytes → Option ℕ
toy_version (v ∷ []) = some v
toy_version _ = none

abbrev toy_codec : VersionCodec
toy_codec = record { decode_version = toy_version; encode_version = λ v. v ∷ [] }

abbrev toy_device : Device
toy_device = record {
  uevent = ("DEVTYPE", "partition") ∷ [];
  sysfs_path = "";
  path = "";
  mount_path = "";
  filesystem = "";
  gpt_part_type = type_hedgehog_identity;
  fs_label = "";
  disk = none;
  partitions = [];
}

abbrev unfinished : GoMap.Map Bytes
unfinished = (init (toy_files (some other_fs_error)) toy_codec toy_device []).1

init-open_identity_partition_example :
    (open_identity_partition (toy_files (some other_fs_error)) toy_codec toy_device unfinished
      ≡ ok tt)
    × (init (toy_files (some other_fs_error)) toy_codec toy_device unfinished
        ≡ (some already_initialized, unfinished))
unfolding init init_empty clean make_directories write_version is_hedgehog_identity_partition
    is_partition GoMap.get GoMap.put
init-open_identity_partition_example =
    init-open_identity_partition (toy_files (some other_fs_error)) toy_codec
      (toy-FilesLaws (some other_fs_error)) toy_device [] unfinished
      (some (path_error op_mkdir other_fs_error)) refl refl (inr (other_fs_error, refl))

abbrev toy_location : GoMap.Map Bytes
toy_location =
    (location_uuid_path, 1 ∷ [])
    ∷ (location_uuid_sig_path, 2 ∷ [])
    ∷ (location_metadata_path, 3 ∷ [])
    ∷ (location_metadata_sig_path, 4 ∷ [])
    ∷ []

abbrev with_location : GoMap.Map Bytes
with_location = (copy_location (toy_files none) (toy_files none) toy_reader toy_location []).1

copy_location-get_location_example :
    (get_location (toy_files none) toy_reader with_location
      ≡ get_partition_location (toy_files none) toy_reader toy_location)
    × ((info : Info) × (get_location (toy_files none) toy_reader with_location ≡ ok info))
unfolding copy_location get_partition_location get_location store_location GoMap.get GoMap.put
    GoMap.delete
copy_location-get_location_example =
    copy_location-get_location (toy_files none) (toy_files none) toy_reader (toy-FilesLaws none)
      (λ b u h. refl) toy_location [] with_location refl
