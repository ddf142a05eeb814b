-- ===== src/Registration.antt =====
-- pkg/seeder/registration: requests and responses, and `ProcessRequest` of the processor over the
-- four functions that the constructor `NewProcessor` chooses, which are a `Backend` here.
mod Defs
pub mod Validate
pub mod Local
pub mod ControlPlane
mod Tests
unfoldable pub use Defs.{process_request}
pub use Defs.{
  Request, csr_bytes, Status, not_found, pending, approved, rejected, error, unknown, Description,
  device_approved, Response, Entry, fresh_entry, Backend, Outcome,
}
