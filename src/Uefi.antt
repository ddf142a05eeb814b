-- ===== src/Uefi.antt =====
-- pkg/partitions/uefi.go: the boot order that lets the system start ONIE first.
mod Defs
pub mod Loop
pub mod BootOrder
pub mod Tests
unfoldable pub use Defs.{
  make_onie_default_boot_entry_and_cleanup, plan_of, contains_text, delete_entries,
  find_onie_boot_entry,
}
pub use Defs.{Plan, Efi, BootEntry, Failure}
