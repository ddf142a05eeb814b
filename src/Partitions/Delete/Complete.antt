-- ===== src/Partitions/Delete/Complete.antt =====
-- What the success of `DeletePartitions` means.
use das_boot.Prelude.{Bool, List, Option, [], ok, ◌++◌, ◌∷◌, ◌≡◌, ◌⊎◌}
use das_boot.Partitions.Commands.{Command, Shell, Trace, partprobe}
use das_boot.Partitions.Delete.Deleted.{Deleted}
use das_boot.Partitions.Device.{Device}
use das_boot.Partitions.Uevent.{ParseUint}
use das_boot.Uefi.{Efi, make_onie_default_boot_entry_and_cleanup}

module _ {S : Type 0} (parse : ParseUint) (shell : Shell) (efi : Efi S) (booted : Option Bool) where
  -- The end of a successful run after the deletions `cs` of `ps`.
  abbrev pub Finished : Device → List Device → List Command → Trace → Trace → S → S → Type 0
  Finished disk ps cs t t' s s' =
      ((ps ≡ []) × (t' ≡ t) × (s' ≡ s))
      ⊎ (((t' ≡ t ++ cs) ⊎ (t' ≡ (t ++ cs) ++ partprobe disk.path ∷ []))
          × (make_onie_default_boot_entry_and_cleanup efi booted s ≡ (ok tt, s')))

  -- All of `ps` was deleted, by commands that succeeded, and the boot order was reset.
  Complete : Device → List Device → Trace → Trace → S → S → Type 0
  Complete disk ps t t' s s' =
      (cs : List Command) × Deleted parse shell disk ps t cs × Finished disk ps cs t t' s s'
