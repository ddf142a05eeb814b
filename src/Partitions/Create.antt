-- ===== src/Partitions/Create.antt =====
-- `CreateHedgehogIdentityPartition` of devices.go.
use das_boot.Prelude.{
  All, Bool, Bool-cases, List, Result, Result-cases, String, [], arith, err, fail_if, false,
  get_elem?, inl, inr, is_empty, is_some, length, ok, or_error, str_eq, suc, true, ℕ, ◌++◌, ◌+◌,
  ◌>>=◌, ◌>>◌, ◌∙◌, ◌∷◌, ◌≡◌, ◌⊎◌,
}
use das_boot.Partitions.Commands.{
  Command, Failure, Shell, Trace, broken_discovery, no_device_node, onie_partition_not_found,
  partition_exists, partprobe, run, sgdisk_create,
}
use das_boot.Partitions.Delete.{onie_disk, reread_partition_table, resolve}
use das_boot.Partitions.Delete.OnieDisk.{
  IsOnieDisk, LinkedDevices, length-AreAt, onie_disk-IsOnieDisk,
}
use das_boot.Partitions.Device.{
  Device, first_device, is_hedgehog_identity_partition, is_onie_partition,
}

abbrev pub default_part_size_hedgehog_identity_in_mb : ℕ
default_part_size_hedgehog_identity_in_mb = 100

-- `--typecode` is given in upper case.
abbrev pub type_hedgehog_identity_upper : String
type_hedgehog_identity_upper = "E982E2BD-867C-4D7A-89A2-9C5A9BC5DFDD"

abbrev pub create_command : List Device → String → Command
create_command parts path =
    sgdisk_create (length parts + 1) default_part_size_hedgehog_identity_in_mb "HEDGEHOG_IDENTITY"
      type_hedgehog_identity_upper path

-- What is run, and on which disk.
unfoldable pub create_target : List Device → Result Failure (Device × Command)
create_target devices = do
  fail_if (is_some (first_device is_hedgehog_identity_partition devices)) partition_exists
  onie ← or_error (first_device is_onie_partition devices) onie_partition_not_found
  i ← or_error onie.disk broken_discovery
  disk ← or_error (get_elem? devices i) broken_discovery
  fail_if (str_eq disk.path "") no_device_node
  let parts = resolve devices disk.partitions
  fail_if (is_empty parts) broken_discovery
  ok (disk, create_command parts disk.path)

-- That rereading the partition table failed is only logged.
unfoldable pub create_hedgehog_identity_partition :
    Shell → List Device → Trace → Result Failure (Unit {0}) × Trace
create_hedgehog_identity_partition shell devices t = elim (create_target devices) [
  | err e ↦ (err e, t)
  | ok (disk, c) ↦
      let (r, t') = run shell c t in
      elim r [ err e ↦ (err e, t') | ok _ ↦ (ok tt, (reread_partition_table shell disk t').1) ]
]

first_device-none :
    (q : Device → Bool) (l : List Device)
    → is_some (first_device q l) ≡ false
    → All (λ (d : Device). q d ≡ false) l
unfolding first_device
first_device-none q [] h = tt
first_device-none q (d ∷ l) h = elim (Bool-cases (q d)) [
  | inl found ↦ ground arith
  | inr other ↦ (other, first_device-none q l (ground arith))
]

pub create_target-ok :
    (devices parts : List Device) (disk d : Device) (c : Command)
    → onie_disk devices ≡ ok (disk, parts)
    → create_target devices ≡ ok (d, c)
    → (is_some (first_device is_hedgehog_identity_partition devices) ≡ false)
      × (d ≡ disk)
      × (c ≡ create_command parts disk.path)
unfolding create_target onie_disk
create_target-ok devices parts disk d c h k = ground arith

onie_disk_of-create_target :
    (devices : List Device) (d : Device) (c : Command)
    → create_target devices ≡ ok (d, c)
    → (parts : List Device) × (onie_disk devices ≡ ok (d, parts))
onie_disk_of-create_target devices d c k = elim (Result-cases (onie_disk devices)) [
  | inl (e, lost) ↦ unfold create_target onie_disk in ground arith
  | inr ((disk, parts), found) ↦
      let (_, same, _) = create_target-ok devices parts disk d c found k in (parts, ground arith)
]

created_by :
    (shell : Shell) (devices : List Device) (d : Device) (c : Command) (t t' : Trace)
    → create_target devices ≡ ok (d, c)
    → create_hedgehog_identity_partition shell devices t ≡ (ok tt, t')
    → (shell t c ≡ true) × ((t' ≡ t ++ c ∷ []) ⊎ (t' ≡ (t ++ c ∷ []) ++ partprobe d.path ∷ []))
unfolding create_hedgehog_identity_partition reread_partition_table
created_by shell devices d c t t' h k = ground arith

numbered :
    (parts : List Device) (disk : Device)
    → length parts ≡ length disk.partitions
    → create_command parts disk.path
      ≡ sgdisk_create
          (suc (length disk.partitions))
          100
          "HEDGEHOG_IDENTITY"
          "E982E2BD-867C-4D7A-89A2-9C5A9BC5DFDD"
          disk.path
numbered parts disk h = ground (arith, h)

-- Where the partitions of every disk lead back to it, success means that no device was an identity
-- partition, and that the creation of a partition of 100 MB on a disk with an ONIE partition succeeded,
-- with a number one above the count of that disk's partitions and the label and type of an identity
-- partition. Nothing else was run, but that the disk was perhaps reread.
pub create-IsCreated :
    (shell : Shell) (devices : List Device) (t t' : Trace)
    → LinkedDevices devices
    → create_hedgehog_identity_partition shell devices t ≡ (ok tt, t')
    → (i : ℕ) × (disk : Device) × (c : Command) × IsOnieDisk devices i disk
      × All (λ (d : Device). is_hedgehog_identity_partition d ≡ false) devices
      × (c
          ≡ sgdisk_create
              (suc (length disk.partitions))
              100
              "HEDGEHOG_IDENTITY"
              "E982E2BD-867C-4D7A-89A2-9C5A9BC5DFDD"
              disk.path)
      × (shell t c ≡ true)
      × ((t' ≡ t ++ c ∷ []) ⊎ (t' ≡ (t ++ c ∷ []) ++ partprobe disk.path ∷ []))
create-IsCreated shell devices t t' linked h = elim (Result-cases (create_target devices)) [
  | inl (e, failed) ↦ unfold create_hedgehog_identity_partition in ground arith
  | inr ((d, c), built) ↦
      let (parts, found) = onie_disk_of-create_target devices d c built in
      let (no_identity, same, is_command) = create_target-ok devices parts d d c found built in
      let (ran, ended) = created_by shell devices d c t t' built h in
      let (i, is, at, backs) = onie_disk-IsOnieDisk devices parts d linked found in
      (
        i,
        d,
        c,
        is,
        first_device-none is_hedgehog_identity_partition devices no_identity,
        is_command ∙ numbered parts d (length-AreAt devices d.partitions parts at),
        ran,
        ended,
      )
]
