-- ===== src/Staging.antt =====
-- pkg/stage/env.go: what a stage hands to the next one, and the environment of ONIE.
mod Os
mod Info
mod Exported
mod Written
pub mod RoundTrip
pub mod Unlocated
pub mod OnieEnv
mod Tests
