-- ===== src/Registration/Local.antt =====
-- processor_local.go: registrations that the seeder signs itself. The cache is a Go map under a
-- lock; requests are handled one at a time here, and a goroutine's work is one step of its own,
-- in any order (the lock makes each access to the cache atomic, and a job accesses it once).
mod Defs
pub mod Steps
pub mod Issue
pub mod Stuck
unfoldable pub use Defs.{local_backend, process_request_locally, issue}
pub use Defs.{Cache, Authority}
