-- ===== src/Partitions/Delete.antt =====
-- `Device.Delete`, `ReReadPartitionTable` and `Devices.DeletePartitions`.
mod Defs
pub mod OnieDisk
pub mod Sort
pub mod Runs
pub mod Deleted
pub mod Safety
pub mod Complete
unfoldable pub use Defs.{
  is_kept, deletable, sort_descending, delete_target, delete_device, delete_all,
  reread_partition_table, resolve, onie_disk, delete_partitions, reset_boot_order,
}
