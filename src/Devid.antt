-- ===== src/Devid.antt =====
-- pkg/devid/device_id.go: the device's ID.
mod Id
mod Order
pub mod Macs
mod Tests
