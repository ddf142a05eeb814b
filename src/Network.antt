-- ===== src/Network.antt =====
-- pkg/net/interface.go: network interfaces, over the netlink package.
pub mod Netlink
pub mod Interfaces
pub mod Configure
pub mod Plans
pub mod Undone
pub mod Configured
mod Tests
