-- ===== src/Uefi/BootOrder.antt =====
-- The boot order after `MakeONIEDefaultBootEntryAndCleanup`.
use das_boot.Prelude.{Bool, List, Option, arith, err, false, some, ℕ, ◌++◌, ◌∷◌, ◌≡◌}
use das_boot.Uefi.Defs.{Efi, Failure, make_onie_default_boot_entry_and_cleanup}
use das_boot.Uefi.Loop.{occurs, without}

-- What is used of the firmware: a variable that was set is read back, and deleting a boot entry's
-- variable does not change the variable BootOrder.
pub record EfiLaws {S : Type 0} (efi : Efi S) : Type 0 where
  pub get-set :
      (s s' : S) (order : List ℕ)
      → efi.set_boot_order s order ≡ some s'
      → efi.get_boot_order s' ≡ some order
  pub get-delete :
      (s : S) (num : ℕ) → efi.get_boot_order (efi.delete_entry s num) ≡ efi.get_boot_order s

-- The boot order that the plan for `order` makes.
pub data IsReordered (onie : ℕ) (order new : List ℕ) : Type 0 where
  first_already : (rest : List ℕ) → order ≡ onie ∷ rest → new ≡ order → IsReordered onie order new
  moved :
      (before after : List ℕ)
      → order ≡ before ++ onie ∷ after
      → occurs onie before ≡ false
      → new ≡ onie ∷ without onie after
      → IsReordered onie order new
  prefixed : occurs onie order ≡ false → new ≡ onie ∷ order → IsReordered onie order new

module _ {S : Type 0} (efi : Efi S) where
  -- An error leaves the firmware's state as it was, and nothing at all is done where the system
  -- does not run ONIE.
  make_onie_default_atomic :
      (booted : Option Bool) (s s' : S) (e : Failure)
      → make_onie_default_boot_entry_and_cleanup efi booted s ≡ (err e, s')
      → s' ≡ s
  unfolding make_onie_default_boot_entry_and_cleanup
  make_onie_default_atomic booted s s' e h = ground arith
