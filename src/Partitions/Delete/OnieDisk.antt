-- ===== src/Partitions/Delete/OnieDisk.antt =====
-- The disk of ONIE and what stands on it, said without the code.
use mathlib.Core.Path.{subst}
use das_boot.Prelude.{
  All, Bool, Bool-cases, List, Occurs, Option-cases, [], ap, arith, eq_iff, false, get_elem?, inl,
  inr, length, ok, refl, some, String, suc, sym, true, ℕ, ◌∙◌, ◌∷◌, ◌≡◌, ◌⊎◌,
}
use das_boot.Partitions.Commands.{Command, sgdisk_delete}
use das_boot.Partitions.Delete.Defs.{delete_target, is_kept, onie_disk, resolve}
use das_boot.Partitions.Device.{
  Device, first_device, is_diag_partition, is_efi_partition, is_hedgehog_identity_partition,
  is_onie_partition, type_efi, type_hedgehog_identity, type_onie,
}
use das_boot.Partitions.Uevent.{
  Number, ParseUint, is_partition, minus_one, number, partition_name, partition_number,
}
use das_boot.Prelude.Text.{has_suffix}

-- A partition of a disk is there and leads back to the disk, as the discovery of the devices makes them.
pub record LinkedDevices (devices : List Device) : Type 0 where
  pub partition_of :
      (i j : ℕ) (disk : Device)
      → get_elem? devices i ≡ some disk
      → Occurs j disk.partitions
      → (p : Device) × (get_elem? devices j ≡ some p) × (p.disk ≡ some i)

-- Some ONIE partition stands on the disk, which is the device at the place `i`.
abbrev pub IsOnieDisk : List Device → ℕ → Device → Type 0
IsOnieDisk devices i disk =
    (onie : Device) × Occurs onie devices
    × (is_onie_partition onie ≡ true)
    × (onie.disk ≡ some i)
    × (get_elem? devices i ≡ some disk)

-- The devices at the places, one by one.
abbrev pub AreAt : List Device → List ℕ → List Device → Type 0
AreAt devices [] [] = Unit
AreAt devices [] (p ∷ ps) = ⊥
AreAt devices (j ∷ js) [] = ⊥
AreAt devices (j ∷ js) (p ∷ ps) = (get_elem? devices j ≡ some p) × AreAt devices js ps

-- A label or a partition name of a diagnosis partition.
abbrev EndsInDiag : String → Type 0
EndsInDiag s = (has_suffix s "-DIAG" ≡ true) ⊎ (has_suffix s "-diag" ≡ true)

-- An EFI, ONIE, Diag or Hedgehog identity partition, by its type, its name or its label.
abbrev pub IsProtected : Device → Type 0
IsProtected p =
    (is_partition p.uevent ≡ true)
    × ((p.gpt_part_type ≡ type_efi)
        ⊎ (p.gpt_part_type ≡ type_onie)
        ⊎ (partition_name p.uevent ≡ "ONIE-BOOT")
        ⊎ (p.fs_label ≡ "ONIE-BOOT")
        ⊎ EndsInDiag (partition_name p.uevent)
        ⊎ EndsInDiag p.fs_label
        ⊎ (p.gpt_part_type ≡ type_hedgehog_identity)
        ⊎ (partition_name p.uevent ≡ "HEDGEHOG_IDENTITY")
        ⊎ (p.fs_label ≡ "HH_IDENTITY"))

-- The command deletes the partition from the disk by its own number.
abbrev pub IsDeletion : ParseUint → Device → Device → Command → Type 0
IsDeletion parse disk p c =
    (n : ℕ) × (partition_number parse p.uevent ≡ number n)
    × (¬ (n ≡ 0))
    × (c ≡ sgdisk_delete n disk.path)

pub is_kept-IsProtected : (p : Device) → is_kept p ≡ true → IsProtected p
unfolding is_kept is_efi_partition is_onie_partition is_diag_partition
    is_hedgehog_identity_partition
is_kept-IsProtected p h = ground (
  arith,
  eq_iff p.gpt_part_type type_efi,
  eq_iff p.gpt_part_type type_onie,
  eq_iff (partition_name p.uevent) "ONIE-BOOT",
  eq_iff p.fs_label "ONIE-BOOT",
  eq_iff p.gpt_part_type type_hedgehog_identity,
  eq_iff (partition_name p.uevent) "HEDGEHOG_IDENTITY",
  eq_iff p.fs_label "HH_IDENTITY",
)

pub not_kept-IsProtected : (p : Device) → is_kept p ≡ false → ¬ IsProtected p
unfolding is_kept is_efi_partition is_onie_partition is_diag_partition
    is_hedgehog_identity_partition
not_kept-IsProtected p h x = ground (
  arith,
  eq_iff p.gpt_part_type type_efi,
  eq_iff p.gpt_part_type type_onie,
  eq_iff (partition_name p.uevent) "ONIE-BOOT",
  eq_iff p.fs_label "ONIE-BOOT",
  eq_iff p.gpt_part_type type_hedgehog_identity,
  eq_iff (partition_name p.uevent) "HEDGEHOG_IDENTITY",
  eq_iff p.fs_label "HH_IDENTITY",
)

first_device-some :
    (q : Device → Bool) (l : List Device) (d : Device)
    → first_device q l ≡ some d
    → Occurs d l × (q d ≡ true)
unfolding first_device
first_device-some q [] d h = ground arith
first_device-some q (x ∷ l) d h = elim (Bool-cases (q x)) [
  | inl found ↦ (inl (ground arith), ground arith)
  | inr other ↦ let (o, is) = first_device-some q l d (ground arith) in (inr o, is)
]

resolve-cons :
    (devices : List Device) (j : ℕ) (js : List ℕ) (p : Device)
    → get_elem? devices j ≡ some p
    → resolve devices (j ∷ js) ≡ p ∷ resolve devices js
unfolding resolve
resolve-cons devices j js p there = ground arith

resolve-AreAt :
    (devices : List Device) (i : ℕ) (js : List ℕ)
    → ((j : ℕ) → Occurs j js → (p : Device) × (get_elem? devices j ≡ some p) × (p.disk ≡ some i))
    → AreAt devices js (resolve devices js)
      × All (λ (p : Device). p.disk ≡ some i) (resolve devices js)
resolve-AreAt devices i [] f = unfold resolve in (tt, tt)
resolve-AreAt devices i (j ∷ js) f =
    let (p, there, back) = f j (inl refl) in
    let (at, backs) = resolve-AreAt devices i js (λ k o. f k (inr o)) in
    subst (λ ps. AreAt devices (j ∷ js) ps × All (λ (p : Device). p.disk ≡ some i) ps)
      (sym (resolve-cons devices j js p there)) ((there, at), (back, backs))

pub length-AreAt :
    (devices : List Device) (js : List ℕ) (ps : List Device)
    → AreAt devices js ps
    → length ps ≡ length js
length-AreAt devices [] [] h = refl
length-AreAt devices [] (p ∷ ps) h = elim h [ ]
length-AreAt devices (j ∷ js) [] h = elim h [ ]
length-AreAt devices (j ∷ js) (p ∷ ps) (there, h) = ap suc (length-AreAt devices js ps h)

-- What `onie_disk` finds.
pub onie_disk-IsOnieDisk :
    (devices parts : List Device) (disk : Device)
    → LinkedDevices devices
    → onie_disk devices ≡ ok (disk, parts)
    → (i : ℕ) × IsOnieDisk devices i disk
      × AreAt devices disk.partitions parts
      × All (λ (p : Device). p.disk ≡ some i) parts
unfolding onie_disk
onie_disk-IsOnieDisk devices parts disk linked h =
    elim (Option-cases (first_device is_onie_partition devices)) [
      | inl lost ↦ ground arith
      | inr (onie, first) ↦ elim (Option-cases onie.disk) [
        | inl lost ↦ ground arith
        | inr (i, on_disk) ↦ elim (Option-cases (get_elem? devices i)) [
          | inl lost ↦ ground arith
          | inr (d, there) ↦
              let (o, is) = first_device-some is_onie_partition devices onie first in
              let same : d ≡ disk = ground arith in
              let parts_are : resolve devices disk.partitions ≡ parts = ground arith in
              let there' : get_elem? devices i ≡ some disk = there ∙ ap some same in
              let (at, backs) =
                resolve-AreAt devices i disk.partitions
                  (λ j. linked.partition_of i j disk there') in
              (
                i,
                (onie, o, is, on_disk, there'),
                subst (AreAt devices disk.partitions) parts_are at,
                subst (All (λ (p : Device). p.disk ≡ some i)) parts_are backs,
              )
        ]
      ]
    ]

number-cases : (k : Number) → (k ≡ minus_one) ⊎ ((n : ℕ) × (k ≡ number n))
number-cases minus_one = inl refl
number-cases (number n) = inr (n, refl)

-- The command that the code builds for a partition of the disk.
pub delete_target-IsDeletion :
    (parse : ParseUint) (devices : List Device) (i : ℕ) (disk p : Device) (c : Command)
    → get_elem? devices i ≡ some disk
    → p.disk ≡ some i
    → delete_target parse devices p ≡ ok c
    → IsDeletion parse disk p c
unfolding delete_target
delete_target-IsDeletion parse devices i disk p c there back h =
    elim (number-cases (partition_number parse p.uevent)) [
      | inl none_ ↦ ground arith
      | inr (n, has_number) ↦ (n, has_number, λ e. ground arith, ground arith)
    ]
