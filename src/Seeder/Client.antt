-- ===== src/Seeder/Client.antt =====
-- controlplane/client.go: what the seeder reads from Kubernetes.
mod Defs
mod Find
pub mod Agent
pub mod Neighbours
mod Ends
pub mod Lookup
pub use Defs.{
  ClientError, api_failed, absent_item, Client, DeviceType, server_type, NeighbourMaps, call,
}
unfoldable pub use Defs.{
  get_neighbour_switch_by_addr, get_interfaces_for_neighbours, new_client, add_addresses, nic_of,
  get_interfaces_for_server_neighbours, neighbours_loop, own_connections,
}
unfoldable pub use Find.{
  get_switch_connections, get_switch_by_location_uuid, get_switch_by_addr, only_management,
  matched_device, get_switch_by_device_id,
}
