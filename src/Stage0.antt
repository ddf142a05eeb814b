-- ===== src/Stage0.antt =====
-- pkg/stage0/stage0.go: how stage 0 gets a network and downloads stage 1.
mod Defs
pub mod Selection
pub mod Reset
mod Tests
