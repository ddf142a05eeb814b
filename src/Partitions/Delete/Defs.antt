-- ===== src/Partitions/Delete/Defs.antt =====
-- The code, over the list of devices, the shell and the firmware.
use das_boot.Prelude.{
  Bool, List, Option, Result, [], err, fail_if, get_elem?, if◌then◌else◌, is_empty, leb, none, not,
  ok, or_error, some, str_eq, suc, ℕ, ◌==◌, ◌>>=◌, ◌>>◌, ◌||◌, ◌∷◌,
}
use das_boot.Partitions.Commands.{
  Command, Failure, Shell, Trace, boot_order_failed, broken_discovery, invalid_uevent,
  no_device_node, not_a_disk, not_a_partition, onie_partition_not_found, partprobe, run,
  sgdisk_delete,
}
use das_boot.Partitions.Device.{
  Device, first_device, is_diag_partition, is_efi_partition, is_hedgehog_identity_partition,
  is_onie_partition,
}
use das_boot.Partitions.Uevent.{
  Number, ParseUint, is_disk, is_partition, minus_one, number, partition_number,
}
use das_boot.Uefi.{Efi, make_onie_default_boot_entry_and_cleanup}

-- The condition under which the loop of `deletePartitionsByONIELocation` skips a partition.
unfoldable pub is_kept : Device → Bool
unfolding is_efi_partition is_onie_partition is_diag_partition is_hedgehog_identity_partition
is_kept p =
    is_efi_partition p
    || is_onie_partition p
    || is_diag_partition p
    || is_hedgehog_identity_partition p

-- Pointers to devices always lead to a device.
unfoldable pub resolve : List Device → List ℕ → List Device
resolve devices [] = []
resolve devices (i ∷ is) = elim (get_elem? devices i) [
  | none ↦ resolve devices is
  | some d ↦ d ∷ resolve devices is
]

unfoldable pub deletable : List Device → List Device
deletable [] = []
deletable (p ∷ ps) = let rest = deletable ps in if is_kept p then rest else p ∷ rest

-- The order of `ByPartNumber`, on -1 and the numbers from 0 on.
abbrev pub rank : Number → ℕ
rank minus_one = 0
rank (number n) = suc n

module _ (parse : ParseUint) where
  abbrev pub rank_of : Device → ℕ
  rank_of p = rank (partition_number parse p.uevent)

  unfoldable pub insert_descending : Device → List Device → List Device
  insert_descending p [] = p ∷ []
  insert_descending p (q ∷ qs) =
      let later = insert_descending p qs in
      if leb (rank_of q) (rank_of p) then p ∷ (q ∷ qs) else q ∷ later

  -- `sort.Sort(sort.Reverse(ByPartNumber(…)))`. Go does not say how equal numbers are ordered.
  unfoldable pub sort_descending : List Device → List Device
  unfolding insert_descending
  sort_descending [] = []
  sort_descending (p ∷ ps) = insert_descending p (sort_descending ps)

  -- The checks of `Device.Delete`, and the command that it builds.
  unfoldable pub delete_target : List Device → Device → Result Failure Command
  delete_target devices d =
      if not (is_partition d.uevent)
      then err not_a_partition
      else (elim (partition_number parse d.uevent) [
        | minus_one ↦ err invalid_uevent
        | number n ↦ do
          fail_if (n == 0) invalid_uevent
          i ← or_error d.disk broken_discovery
          disk ← or_error (get_elem? devices i) broken_discovery
          fail_if (str_eq disk.path "") no_device_node
          ok (sgdisk_delete n disk.path)
      ])

  unfoldable pub delete_device :
      Shell → List Device → Device → Trace → Result Failure (Unit {0}) × Trace
  delete_device shell devices d t = elim (delete_target devices d) [
    | err e ↦ (err e, t)
    | ok c ↦ run shell c t
  ]

  -- The loop that deletes, up to the first error.
  unfoldable pub delete_all :
      Shell → List Device → List Device → Trace → Result Failure (Unit {0}) × Trace
  delete_all shell devices [] t = (ok tt, t)
  delete_all shell devices (p ∷ ps) t =
      let (r, t') = delete_device shell devices p t in
      elim r [ err e ↦ (err e, t') | ok _ ↦ delete_all shell devices ps t' ]

unfoldable pub reread_partition_table : Shell → Device → Trace → Result Failure (Unit {0}) × Trace
reread_partition_table shell d t =
    if not (is_disk d.uevent)
    then (err not_a_disk, t)
    else if str_eq d.path ""
    then (err no_device_node, t)
    else run shell (partprobe d.path) t

-- The partitions of the disk that holds ONIE.
unfoldable pub onie_disk : List Device → Result Failure (Device × List Device)
onie_disk devices = do
  onie ← or_error (first_device is_onie_partition devices) onie_partition_not_found
  i ← or_error onie.disk broken_discovery
  disk ← or_error (get_elem? devices i) broken_discovery
  let parts = resolve devices disk.partitions
  fail_if (is_empty parts) broken_discovery
  ok (disk, parts)

module _ {S : Type 0} (parse : ParseUint) (shell : Shell) (efi : Efi S) (booted : Option Bool) where
  -- `MakeONIEDefaultBootEntryAndCleanup`, its errors seen from here.
  unfoldable pub reset_boot_order : S → Result Failure (Unit {0}) × S
  reset_boot_order s =
      let (r, s') = make_onie_default_boot_entry_and_cleanup efi booted s in
      (elim r [ ok _ ↦ ok tt | err _ ↦ err boot_order_failed ], s')

  -- What follows the deletions. That rereading the table failed is only logged.
  after_deletions :
      Device → S → Result Failure (Unit {0}) × Trace → Result Failure (Unit {0}) × Trace × S
  after_deletions disk s (err e, t) = (err e, t, s)
  after_deletions disk s (ok _, t) =
      let (_, t') = reread_partition_table shell disk t in
      let (r, s') = reset_boot_order s in (r, t', s')

  delete_parts :
      List Device → Device → List Device → Trace → S → Result Failure (Unit {0}) × Trace × S
  delete_parts devices disk [] t s = (ok tt, t, s)
  delete_parts devices disk (p ∷ ps) t s =
      after_deletions disk s (delete_all parse shell devices (p ∷ ps) t)

  -- `DeletePartitions` does this for every platform.
  unfoldable pub delete_partitions : List Device → Trace → S → Result Failure (Unit {0}) × Trace × S
  unfolding delete_parts after_deletions reset_boot_order
  delete_partitions devices t s = elim (onie_disk devices) [
    | err e ↦ (err e, t, s)
    | ok (disk, parts) ↦ delete_parts devices disk (sort_descending parse (deletable parts)) t s
  ]
