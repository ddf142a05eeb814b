-- ===== src/Seeder/Handler.antt =====
-- pkg/seeder's HTTP handlers: what they check, call and write.
mod Writer
pub mod Ipam
mod Access
mod Artifacts
pub mod Register
mod Routes
pub mod Authorized
pub mod Exchange
mod Tests
