-- ===== src/Seeder/Ipam.antt =====
-- pkg/seeder/ipam: requests, and the addresses and routes of the answers.
mod Defs
mod Serving
pub mod Answers
pub mod Requests
pub use Defs.{Settings, Request, IpamError, Route, IpAddress, Response}
unfoldable pub use Defs.{
  process_request, validate, is_supported_arch, address_loop, address_of, connections_for,
  is_requested, is_served,
}
