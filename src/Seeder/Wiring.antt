-- ===== src/Seeder/Wiring.antt =====
-- What is used of go.githedgehog.com/fabric's wiring API, of the API server, of package net and of
-- pkg/seeder/net.
use das_boot.Prelude.{Bool, List, Option, Result, String}
use das_boot.Kube.{ApiError}

pub record Switch : Type 0 where
  pub namespace : String
  pub name : String

-- A management connection's link between a server and a switch.
pub record Management : Type 0 where
  pub server_port : String
  pub server_mac : String
  pub server_ip : String
  pub switch_port : String
  pub switch_ip : String
  pub onie_port_name : String

pub record FabricLink : Type 0 where
  pub leaf_port : String
  pub leaf_ip : String
  pub spine_port : String
  pub spine_ip : String

pub record Connection : Type 0 where
  pub name : String
  pub management : Option Management
  pub fabric : Option (List FabricLink)

-- `DeviceName` and `LocalPortName` of a port.
pub record PortNames : Type 0 where
  pub device_name : String → String
  pub local_port_name : String → String

-- What the API server answers at the time of a call. A `List` may have a label selector: a server,
-- a switch, or the location of a switch.
pub record Cluster : Type 0 where
  pub get_server : String → String → Result ApiError (Unit {0})
  pub get_switch : String → String → Result ApiError Switch
  pub list_connections : Result ApiError (List Connection)
  pub list_server_connections : String → Result ApiError (List Connection)
  pub list_switch_connections : String → Result ApiError (List Connection)
  pub list_switches : String → Option String → Result ApiError (List Switch)

-- A `netip.Addr`, as it is looked at and printed.
pub record Addr : Type 0 where
  pub is6 : Bool
  pub is_link_local_unicast : Bool
  pub string : String

-- `GetInterface` and `GetInterfaceAddresses` of pkg/seeder/net.
pub record Interfaces : Type 0 where
  pub get_interface : String → String → Option String
  pub get_interface_addresses : String → Option (List Addr)

-- `ParseCIDR` (without the network), `ParseIP`, whether `To4` is not nil, and `String`.
pub record Net (IP : Type 0) : Type 0 where
  pub parse_cidr : String → Option IP
  pub parse_ip : String → Option IP
  pub is_ip4 : IP → Bool
  pub ip_string : IP → String
