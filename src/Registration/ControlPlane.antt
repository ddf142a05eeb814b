-- ===== src/Registration/ControlPlane.antt =====
-- processor_controlplane.go: registrations that are Kubernetes objects, which the registration
-- controller signs.
mod Defs
pub mod Answers
pub mod Safety
unfoldable pub use Defs.{control_plane_backend, registered_entry, new_registration}
