-- ===== src/Partitions.antt =====
-- pkg/partitions: block devices as sysfs shows them, which of them the installer deletes, creates,
-- formats and mounts, and with which commands. Devices point to one another (a partition to its disk, a
-- disk to its partitions): they stand in one list here, and a pointer is a place in it.
mod Uevent
mod Device
mod Commands
pub mod Delete
pub mod Create
pub mod MountPath
pub mod Filesystem
pub mod Identity
mod Tests
