-- ===== src/Partitions/Identity.antt =====
-- pkg/partitions/identity and pkg/partitions/location: the files of the two Hedgehog partitions.
pub mod Files
pub mod Keys
pub mod Opening
pub mod Location
pub mod Matching
pub mod Stored
pub mod Unfinished
pub mod ToyDisk
mod Tests
