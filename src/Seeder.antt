-- ===== src/Seeder.antt =====
-- pkg/seeder: the control plane client and the answers to IPAM requests.
mod Wiring
pub mod Client
pub mod Addresses
pub mod Ipam
mod Tests
pub mod Handler
