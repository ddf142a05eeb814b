-- ===== src/Partitions/Device.antt =====
-- device.go: a device, and what kind of partition it is.
use das_boot.Prelude.{
  Bool, List, Option, String, [], if◌then◌else◌, none, some, str_eq, ℕ, ◌&&◌, ◌||◌, ◌∷◌,
}
use das_boot.Partitions.Uevent.{Uevent, is_partition, partition_name}
use das_boot.Prelude.Text.{has_suffix}

-- `disk` and `partitions` are places in the list of devices. An empty `path` is a missing device
-- node. The file system access `FS` keeps nothing but the mount path.
pub record Device : Type 0 where
  pub uevent : Uevent
  pub sysfs_path : String
  pub path : String
  pub mount_path : String
  pub filesystem : String
  pub gpt_part_type : String
  pub fs_label : String
  pub disk : Option ℕ
  pub partitions : List ℕ

abbrev pub type_onie : String
type_onie = "7412f7d5-a156-4b13-81dc-867174929325"

abbrev pub type_efi : String
type_efi = "c12a7328-f81f-11d2-ba4b-00a0c93ec93b"

abbrev pub type_hedgehog_identity : String
type_hedgehog_identity = "e982e2bd-867c-4d7a-89a2-9c5a9bc5dfdd"

abbrev pub type_hedgehog_location : String
type_hedgehog_location = "e23c5ebc-5f53-488c-959d-a4ab90befefe"

unfoldable pub is_efi_partition : Device → Bool
is_efi_partition d = is_partition d.uevent && str_eq d.gpt_part_type type_efi

unfoldable pub is_onie_partition : Device → Bool
is_onie_partition d =
    is_partition d.uevent
    && (str_eq d.gpt_part_type type_onie
        || str_eq (partition_name d.uevent) "ONIE-BOOT"
        || str_eq d.fs_label "ONIE-BOOT")

unfoldable pub is_sonic_partition : Device → Bool
is_sonic_partition d =
    is_partition d.uevent
    && (str_eq d.fs_label "SONiC-OS" || str_eq (partition_name d.uevent) "SONiC-OS")

unfoldable pub is_diag_partition : Device → Bool
is_diag_partition d =
    is_partition d.uevent
    && (has_suffix (partition_name d.uevent) "-DIAG"
        || has_suffix (partition_name d.uevent) "-diag"
        || has_suffix d.fs_label "-DIAG"
        || has_suffix d.fs_label "-diag")

unfoldable pub is_hedgehog_identity_partition : Device → Bool
is_hedgehog_identity_partition d =
    is_partition d.uevent
    && (str_eq d.gpt_part_type type_hedgehog_identity
        || str_eq (partition_name d.uevent) "HEDGEHOG_IDENTITY"
        || str_eq d.fs_label "HH_IDENTITY")

unfoldable pub is_hedgehog_location_partition : Device → Bool
is_hedgehog_location_partition d =
    is_partition d.uevent
    && (str_eq d.gpt_part_type type_hedgehog_location
        || str_eq (partition_name d.uevent) "HEDGEHOG_LOCATION"
        || str_eq d.fs_label "HH_LOCATION")

-- The loops of `GetONIEPartition` and its siblings in devices.go.
unfoldable pub first_device : (Device → Bool) → List Device → Option Device
first_device p [] = none
first_device p (d ∷ ds) = if p d then some d else first_device p ds
