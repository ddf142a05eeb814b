-- ===== src/Controller.antt =====
-- pkg/k8s/controllers/deviceregistration_controller.go: the controller that signs the CSRs of
-- device registrations.
mod Defs
pub mod Writes
pub mod Settles
mod Tests
unfoldable pub use Defs.{reconcile, need_to_generate_certificate}
pub use Defs.{Failure}
