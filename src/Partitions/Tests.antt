-- ===== src/Partitions/Tests.antt =====
-- A disk with an EFI, an ONIE and two SONiC partitions.
use mathlib.Core.Option.{some-injective}
use mathlib.Core.Path.{subst}
use das_boot.Prelude.GoMap
use das_boot.Prelude.{
  All, All-get_elem?, Bool, List, Occurs, get_elem?, length, sym, suc, zero, inl, inr, String, [],
  arith, bytes_equal, false, if◌then◌else◌, none, ok, refl, some, str_eq, true, ℕ, ◌++◌, ◌==◌, ◌||◌,
  ◌∷◌, ◌≡◌, ◌⊎◌,
}
use das_boot.Partitions.Commands.{
  Command, Shell, Trace, mkfs, partprobe, sgdisk_create, sgdisk_delete,
}
use das_boot.Partitions.Create.{
  create-IsCreated, create_command, create_hedgehog_identity_partition, create_target,
  default_part_size_hedgehog_identity_in_mb, type_hedgehog_identity_upper,
}
use das_boot.Partitions.Delete.{
  deletable, delete_all, delete_device, delete_partitions, delete_target, is_kept, onie_disk,
  reread_partition_table, reset_boot_order, resolve, sort_descending,
}
use das_boot.Partitions.Delete.Deleted.{Deleted}
use das_boot.Partitions.Delete.OnieDisk.{IsOnieDisk, LinkedDevices}
use das_boot.Partitions.Delete.Safety.{Permitted, delete_partitions-IsPermitted}
use das_boot.Partitions.Device.{
  Device, first_device, is_diag_partition, is_efi_partition, is_hedgehog_identity_partition,
  is_onie_partition, type_efi, type_hedgehog_identity, type_onie,
}
use das_boot.Partitions.Filesystem.{make_filesystem_for_hedgehog_identity_partition}
use das_boot.Partitions.MountPath.{escape, unescape_mount_path, unescape_mount_path-escape}
use das_boot.Partitions.Uevent.{
  ParseUint, is_disk, is_partition, number, partition_name, partition_number,
}
use das_boot.Prelude.Text.{has_suffix}
use das_boot.Uefi.{
  contains_text, delete_entries, find_onie_boot_entry, make_onie_default_boot_entry_and_cleanup,
  plan_of,
}
use das_boot.Uefi.Tests.{onie_first, sonic_first, toy_efi}

abbrev toy_parse : ParseUint
toy_parse s bits =
    if str_eq s "1"
    then some 1
    else if str_eq s "2"
    then some 2
    else if str_eq s "3"
    then some 3
    else if str_eq s "5"
    then some 5
    else none

abbrev bare : Device
bare = record {
  uevent = [];
  sysfs_path = "";
  path = "";
  mount_path = "";
  filesystem = "";
  gpt_part_type = "";
  fs_label = "";
  disk = none;
  partitions = [];
}

abbrev toy_disk : Device
toy_disk = record bare {
  uevent = ("DEVTYPE", "disk") ∷ [];
  path = "/dev/sda";
  partitions = 1 ∷ 2 ∷ 3 ∷ 4 ∷ [];
}

abbrev toy_partition : String → Device
toy_partition num = record bare {
  uevent = ("DEVTYPE", "partition") ∷ ("PARTN", num) ∷ [];
  disk = some 0;
}

abbrev toy_efi_partition : Device
toy_efi_partition = record (toy_partition "1") { gpt_part_type = type_efi }

abbrev toy_onie_partition : Device
toy_onie_partition = record (toy_partition "2") { gpt_part_type = type_onie }

abbrev toy_devices : List Device
toy_devices =
    toy_disk ∷ toy_efi_partition ∷ toy_onie_partition ∷ toy_partition "3" ∷ toy_partition "5" ∷ []

abbrev all_fine : Shell
all_fine t c = true

abbrev deletions : Trace
deletions = sgdisk_delete 5 "/dev/sda" ∷ sgdisk_delete 3 "/dev/sda" ∷ partprobe "/dev/sda" ∷ []

-- The order of the deletions, on that disk.
deleted_toy :
    delete_partitions toy_parse all_fine toy_efi (some true) toy_devices [] sonic_first
    ≡ (ok tt, deletions, onie_first)
unfolding delete_partitions onie_disk first_device is_onie_partition is_efi_partition
    is_diag_partition is_hedgehog_identity_partition is_partition partition_name partition_number
    GoMap.get resolve deletable is_kept sort_descending delete_all delete_device delete_target
    reread_partition_table is_disk reset_boot_order make_onie_default_boot_entry_and_cleanup
    find_onie_boot_entry contains_text plan_of delete_entries has_suffix bytes_equal
deleted_toy = refl

-- Devices of which only the first one has partitions, and these lead back to it.
linked_of :
    (disk : Device) (ps : List Device)
    → All (λ (p : Device). p.partitions ≡ []) ps
    → ((j : ℕ)
        → Occurs j disk.partitions
        → (p : Device) × (get_elem? (disk ∷ ps) j ≡ some p) × (p.disk ≡ some 0))
    → (i j : ℕ) (d : Device) → get_elem? (disk ∷ ps) i ≡ some d
    → Occurs j d.partitions
    → (p : Device) × (get_elem? (disk ∷ ps) j ≡ some p) × (p.disk ≡ some i)
linked_of disk ps bare_ f zero j d there o =
    f j (subst (λ (x : Device). Occurs j x.partitions) (sym (some-injective disk d there)) o)
linked_of disk ps bare_ f (suc i) j d there o =
    let without_parts = All-get_elem? (λ (p : Device). p.partitions ≡ []) ps i d bare_ there in
    absurd (subst (Occurs j) without_parts o)

linked_toy : LinkedDevices toy_devices
linked_toy = record {
  partition_of =
      linked_of toy_disk
        (toy_efi_partition ∷ toy_onie_partition ∷ toy_partition "3" ∷ toy_partition "5" ∷ [])
        (refl, (refl, (refl, (refl, tt))))
        (λ j o. elim o [
          | inl e ↦ (toy_efi_partition, rw e refl, refl)
          | inr (inl e) ↦ (toy_onie_partition, rw e refl, refl)
          | inr (inr (inl e)) ↦ (toy_partition "3", rw e refl, refl)
          | inr (inr (inr (inl e))) ↦ (toy_partition "5", rw e refl, refl)
          | inr (inr (inr (inr bad))) ↦ absurd bad
        ]);
}

delete_partitions-IsPermitted_example :
    (new : Trace) × (deletions ≡ [] ++ new)
    × All (Permitted toy_parse all_fine toy_efi (some true) toy_devices) new
delete_partitions-IsPermitted_example =
    delete_partitions-IsPermitted toy_parse all_fine toy_efi (some true) toy_devices [] deletions
      sonic_first onie_first (ok tt) linked_toy deleted_toy

-- Two partitions are left, the ones with the numbers 1 and 3.
abbrev sparse_disk : Device
sparse_disk = record toy_disk { partitions = 1 ∷ 2 ∷ [] }

abbrev sparse_devices : List Device
sparse_devices =
    sparse_disk ∷ toy_efi_partition ∷ record (toy_partition "3") { gpt_part_type = type_onie } ∷ []

abbrev sparse_parts : List Device
sparse_parts = toy_efi_partition ∷ record (toy_partition "3") { gpt_part_type = type_onie } ∷ []

found_sparse : onie_disk sparse_devices ≡ ok (sparse_disk, sparse_parts)
unfolding onie_disk first_device is_onie_partition is_partition partition_name GoMap.get resolve
found_sparse = refl

created_sparse :
    create_target sparse_devices ≡ ok (sparse_disk, create_command sparse_parts "/dev/sda")
unfolding create_target first_device is_onie_partition is_partition partition_name GoMap.get resolve
    is_hedgehog_identity_partition
created_sparse = refl

-- The number 3 of the new partition is the one of the ONIE partition.
taken_number :
    (partition_number toy_parse (toy_partition "3").uevent ≡ number 3)
    × (create_command sparse_parts "/dev/sda"
        ≡ sgdisk_create 3 default_part_size_hedgehog_identity_in_mb "HEDGEHOG_IDENTITY"
            type_hedgehog_identity_upper "/dev/sda")
unfolding partition_number GoMap.get
taken_number = (refl, refl)

created_toy :
    create_hedgehog_identity_partition all_fine sparse_devices []
    ≡ (ok tt, create_command sparse_parts "/dev/sda" ∷ partprobe "/dev/sda" ∷ [])
unfolding create_hedgehog_identity_partition create_target first_device is_onie_partition
    is_partition partition_name GoMap.get resolve is_hedgehog_identity_partition
    reread_partition_table is_disk
created_toy = refl

linked_sparse : LinkedDevices sparse_devices
linked_sparse = record {
  partition_of =
      linked_of sparse_disk sparse_parts (refl, (refl, tt))
        (λ j o. elim o [
          | inl e ↦ (toy_efi_partition, rw e refl, refl)
          | inr (inl e) ↦
              (record (toy_partition "3") { gpt_part_type = type_onie }, rw e refl, refl)
          | inr (inr bad) ↦ absurd bad
        ]);
}

create-IsCreated_example :
    (i : ℕ) × (disk : Device) × (c : Command) × IsOnieDisk sparse_devices i disk
    × All (λ (d : Device). is_hedgehog_identity_partition d ≡ false) sparse_devices
    × (c
        ≡ sgdisk_create
            (suc (length disk.partitions))
            100
            "HEDGEHOG_IDENTITY"
            "E982E2BD-867C-4D7A-89A2-9C5A9BC5DFDD"
            disk.path)
    × (all_fine [] c ≡ true)
    × ((create_command sparse_parts "/dev/sda" ∷ partprobe "/dev/sda" ∷ [] ≡ [] ++ c ∷ [])
        ⊎ (create_command sparse_parts "/dev/sda" ∷ partprobe "/dev/sda" ∷ []
            ≡ ([] ++ c ∷ []) ++ partprobe disk.path ∷ []))
create-IsCreated_example =
    create-IsCreated all_fine sparse_devices []
      (create_command sparse_parts "/dev/sda" ∷ partprobe "/dev/sda" ∷ []) linked_sparse created_toy

abbrev new_identity : Device
new_identity = record (toy_partition "3") {
  gpt_part_type = type_hedgehog_identity;
  path = "/dev/sda3";
}

abbrev formatted_identity : Device
formatted_identity = record new_identity { filesystem = "ext4"; fs_label = "HH_IDENTITY" }

abbrev mkfs_run : Trace
mkfs_run = mkfs "ext4" "HH_IDENTITY" true "/dev/sda3" ∷ []

formatted_toy :
    make_filesystem_for_hedgehog_identity_partition all_fine false new_identity []
    ≡ (ok tt, formatted_identity, mkfs_run)
unfolding make_filesystem_for_hedgehog_identity_partition is_hedgehog_identity_partition
    is_partition GoMap.get partition_name
formatted_toy = refl

-- A space and a backslash, as in "a b\".
abbrev kernel_special : ℕ → Bool
kernel_special c = c == 32 || c == 9 || c == 10 || c == 92

unescape_mount_path-escape_example :
    unescape_mount_path (escape kernel_special (97 ∷ 32 ∷ 98 ∷ 92 ∷ [])) ≡ 97 ∷ 32 ∷ 98 ∷ 92 ∷ []
unescape_mount_path-escape_example =
    unescape_mount_path-escape kernel_special (97 ∷ 32 ∷ 98 ∷ 92 ∷ []) refl (ground arith)
