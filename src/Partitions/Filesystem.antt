-- ===== src/Partitions/Filesystem.antt =====
-- `MakeFilesystemForHedgehogIdentityPartition` of device.go.
use das_boot.Prelude.{
  Bool, Result, String, [], arith, err, false, if◌then◌else◌, not, ok, refl, str_eq, true, ◌&&◌,
  ◌++◌, ◌∷◌, ◌≡◌, ◌≢◌, ◌⊎◌,
}
use das_boot.Partitions.Commands.{
  Failure, Shell, Trace, command_failed, filesystem_already_created, mkfs, no_device_node, run,
  unsupported_mkfs,
}
use das_boot.Partitions.Device.{Device, is_hedgehog_identity_partition}

-- The device is changed on success only.
unfoldable pub make_filesystem :
    Shell → String → String → Bool → Device → Trace → Result Failure (Unit {0}) × Device × Trace
make_filesystem shell fs_type fs_label force d t =
    if str_eq d.path ""
    then (err no_device_node, d, t)
    else if not (str_eq d.filesystem "") && str_eq d.fs_label "HH_IDENTITY" && not force
    then (err filesystem_already_created, d, t)
    else (let (r, t') = run shell (mkfs fs_type fs_label (str_eq fs_type "ext4") d.path) t in
        elim r [
          | err e ↦ (err e, d, t')
          | ok _ ↦ (ok tt, record d { filesystem = fs_type; fs_label = fs_label }, t')
        ])

unfoldable pub make_filesystem_for_hedgehog_identity_partition :
    Shell → Bool → Device → Trace → Result Failure (Unit {0}) × Device × Trace
unfolding make_filesystem
make_filesystem_for_hedgehog_identity_partition shell force d t =
    if not (is_hedgehog_identity_partition d)
    then (err unsupported_mkfs, d, t)
    else make_filesystem shell "ext4" "HH_IDENTITY" force d t

abbrev formatted : Device → Device
formatted d = record d { filesystem = "ext4"; fs_label = "HH_IDENTITY" }

formatted_lem :
    (shell : Shell) (force : Bool) (d d' : Device) (t t' : Trace)
    → make_filesystem_for_hedgehog_identity_partition shell force d t ≡ (ok tt, d', t')
    → (d' ≡ formatted d) × (is_hedgehog_identity_partition d ≡ true) × (str_eq d.path "" ≡ false)
unfolding make_filesystem_for_hedgehog_identity_partition
formatted_lem shell force d d' t t' h = ground arith

formatted-identity :
    (d : Device)
    → is_hedgehog_identity_partition d ≡ true
    → is_hedgehog_identity_partition (formatted d) ≡ true
unfolding is_hedgehog_identity_partition
formatted-identity d h = ground arith

format_again :
    (shell : Shell) (d : Device) (t : Trace)
    → is_hedgehog_identity_partition (formatted d) ≡ true
    → str_eq d.path "" ≡ false
    → make_filesystem_for_hedgehog_identity_partition shell false (formatted d) t
      ≡ (err filesystem_already_created, formatted d, t)
unfolding make_filesystem_for_hedgehog_identity_partition
format_again shell d t h k = rw (h, k) refl

-- After a success, the device is still an identity partition, and formatting it again without force is
-- refused and runs nothing.
pub make_filesystem_again :
    (shell : Shell) (force : Bool) (d d' : Device) (t t' : Trace)
    → make_filesystem_for_hedgehog_identity_partition shell force d t ≡ (ok tt, d', t')
    → (is_hedgehog_identity_partition d' ≡ true)
      × (make_filesystem_for_hedgehog_identity_partition shell false d' t'
          ≡ (err filesystem_already_created, d', t'))
make_filesystem_again shell force d d' t t' h =
    let (same, identity, has_node) = formatted_lem shell force d d' t t' h in
    let still = formatted-identity d identity in
    rw same (still, format_again shell d t' still has_node)

-- Only an identity partition is ever formatted: any command is an mkfs.ext4 of a device that passes
-- `IsHedgehogIdentityPartition`, and without force one that has no identity filesystem yet; unless it
-- succeeds, the device is unchanged.
pub make_filesystem-IsGuarded :
    (shell : Shell) (force : Bool) (d d' : Device) (t t' : Trace) (r : Result Failure (Unit {0}))
    → make_filesystem_for_hedgehog_identity_partition shell force d t ≡ (r, d', t')
    → ((t' ≡ t) × (d' ≡ d) × (r ≢ ok tt))
      ⊎ ((is_hedgehog_identity_partition d ≡ true)
          × ((force ≡ true)
              ⊎ (str_eq d.filesystem "" ≡ true)
              ⊎ (str_eq d.fs_label "HH_IDENTITY" ≡ false))
          × (t' ≡ t ++ mkfs "ext4" "HH_IDENTITY" true d.path ∷ [])
          × ((r ≡ ok tt) ⊎ ((r ≡ err command_failed) × (d' ≡ d))))
unfolding make_filesystem_for_hedgehog_identity_partition
make_filesystem-IsGuarded shell force d d' t t' r h = ground arith
