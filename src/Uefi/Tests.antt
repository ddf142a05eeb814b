-- ===== src/Uefi/Tests.antt =====
-- Runs on a small firmware: the boot order, and the entries that still have a variable.
use das_boot.Prelude.{List, [], arith, if◌then◌else◌, none, ok, refl, some, true, ℕ, ◌==◌, ◌∷◌, ◌≡◌}
use das_boot.Uefi.BootOrder.{EfiLaws}
use das_boot.Uefi.Defs.{
  BootEntry, Efi, contains_text, delete_entries, find_onie_boot_entry,
  make_onie_default_boot_entry_and_cleanup, plan_of,
}

abbrev pub ToyFirmware : Type 0
ToyFirmware = List ℕ × List BootEntry

abbrev drop_entry : ℕ → List BootEntry → List BootEntry
drop_entry num [] = []
drop_entry num (e ∷ es) = if e.index == num then drop_entry num es else e ∷ drop_entry num es

abbrev pub toy_efi : Efi ToyFirmware
toy_efi = record {
  boot_iterator = λ s. some (s.1, true);
  get_boot_order = λ s. some s.0;
  set_boot_order = λ s order. some (order, s.1);
  delete_entry = λ s num. (s.0, drop_entry num s.1);
}

pub toy_laws : EfiLaws toy_efi
toy_laws = record { get-set = λ s s' order h. ground arith; get-delete = λ s num. refl }

abbrev pub sonic_first : ToyFirmware
sonic_first = (
  3 ∷ 7 ∷ 1 ∷ [],
  record { index = 3; description = some (b'S' ∷ []) }
      ∷ record { index = 7; description = some (b' ' ∷ b'O' ∷ b'N' ∷ b'I' ∷ b'E' ∷ []) }
      ∷ record { index = 1; description = none }
      ∷ [],
)

abbrev pub onie_first : ToyFirmware
onie_first = (
  7 ∷ 1 ∷ [],
  record { index = 7; description = some (b' ' ∷ b'O' ∷ b'N' ∷ b'I' ∷ b'E' ∷ []) }
      ∷ record { index = 1; description = none }
      ∷ [],
)

pub reordered :
    make_onie_default_boot_entry_and_cleanup toy_efi (some true) sonic_first ≡ (ok tt, onie_first)
unfolding make_onie_default_boot_entry_and_cleanup find_onie_boot_entry plan_of delete_entries
    contains_text
reordered = refl
