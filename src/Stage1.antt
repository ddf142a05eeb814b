-- ===== src/Stage1.antt =====
-- pkg/stage1/stage1.go: how stage 1 gets a client certificate.
mod Defs
mod Kept
pub mod Certified
mod Tests
