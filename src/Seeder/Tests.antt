-- ===== src/Seeder/Tests.antt =====
-- One switch with one management connection, and a package net that reads two texts.
use das_boot.Prelude.GoMap
use das_boot.Prelude.{
  List, String, [], arith, bytes_equal, eq_iff, err, false, if◌then◌else◌, inr, is_some, none, ok,
  refl, some, str_eq, true, ◌∷◌, ◌≡◌, ◌⊎◌,
}
use das_boot.Kube.{ApiError}
use das_boot.Prelude.Text.{has_suffix}
use das_boot.Seeder.Addresses.{
  IsSingle, NetLaws, ensure_ip_has_cidr, ensure_ip_has_cidr-IsSame, ensure_ip_has_no_cidr,
}
use das_boot.Seeder.Client.{
  Client, NeighbourMaps, absent_item, add_addresses, api_failed, get_interfaces_for_neighbours,
  get_interfaces_for_server_neighbours, get_neighbour_switch_by_addr, get_switch_by_addr,
  get_switch_by_location_uuid, get_switch_connections, neighbours_loop, nic_of, only_management,
  own_connections, server_type,
}
use das_boot.Seeder.Client.Lookup.{IsFirst, Unmatched, get_switch_by_addr-IsFirst, switch_of}
use das_boot.Seeder.Client.Neighbours.{IsEnd, get_neighbour_switch_by_addr-IsEnd}
use das_boot.Seeder.Handler.Ipam.{Handled, process_ipam_request-Handled}
use das_boot.Seeder.Ipam.{
  IpAddress, Request, Response, Settings, address_loop, address_of, connections_for, is_requested,
  is_served, is_supported_arch, process_request,
}
use das_boot.Seeder.Ipam.Answers.{Entry, process_request-Entry, process_request-total}
use das_boot.Seeder.Wiring.{Cluster, Connection, Interfaces, Management, Net, PortNames, Switch}

abbrev toy_switch : Switch
toy_switch = record { namespace = "default"; name = "leaf" }

abbrev toy_link : Management
toy_link = record {
  server_port = "eth1";
  server_mac = "";
  server_ip = "10.0.0.1";
  switch_port = "leaf";
  switch_ip = "10.0.0.2";
  onie_port_name = "eth0";
}

abbrev toy_connection : Connection
toy_connection = record { name = "conn"; management = some toy_link; fabric = none }

abbrev toy_ports : PortNames
toy_ports = record { device_name = λ s. s; local_port_name = λ s. s }

abbrev toy_cluster : Cluster
toy_cluster = record {
  get_server = λ ns name. ok tt;
  get_switch = λ ns name. ok toy_switch;
  list_connections = ok (toy_connection ∷ []);
  list_server_connections = λ name. ok (toy_connection ∷ []);
  list_switch_connections = λ name. ok (toy_connection ∷ []);
  list_switches = λ uuid rack. ok (toy_switch ∷ []);
}

abbrev toy_interfaces : Interfaces
toy_interfaces = record {
  get_interface = λ name mac. some name;
  get_interface_addresses =
      λ nic. some (record { is6 = true; is_link_local_unicast = true; string = "fe80::1" } ∷ []);
}

abbrev toy_client : Client
toy_client = record {
  device_type = server_type;
  device_hostname = "control";
  device_namespace = "default";
}

-- The only address, an IPv4 one.
abbrev toy_net : Net (Unit {0})
toy_net = record {
  parse_cidr = λ s. if str_eq s "10.0.0.1/32" then some tt else none;
  parse_ip = λ s. if str_eq s "10.0.0.1" then some tt else none;
  is_ip4 = λ _. true;
  ip_string = λ _. "10.0.0.1";
}

toy_net_laws : NetLaws toy_net
toy_net_laws = record {
  parse_ip-ip_string = λ ip. refl;
  parse_cidr-32 =
      λ s ip h v4. let is : s ≡ "10.0.0.1" = ground (arith, eq_iff s "10.0.0.1") in rw is refl;
  parse_cidr-128 = λ s ip h v6. ground arith;
}

given_length : ensure_ip_has_cidr toy_net "10.0.0.1" ≡ some "10.0.0.1/32"
unfolding ensure_ip_has_cidr
given_length = refl

ensure_ip_has_cidr-IsSame_example :
    (ip : Unit {0}) × IsSingle toy_net ip "10.0.0.1/32"
    × (toy_net.parse_cidr "10.0.0.1/32" ≡ some ip)
    × (ensure_ip_has_no_cidr toy_net "10.0.0.1" ≡ some (toy_net.ip_string ip))
    × (ensure_ip_has_no_cidr toy_net "10.0.0.1/32" ≡ some (toy_net.ip_string ip))
ensure_ip_has_cidr-IsSame_example =
    ensure_ip_has_cidr-IsSame toy_net "10.0.0.1" "10.0.0.1/32" toy_net_laws given_length

abbrev toy_maps : NeighbourMaps
toy_maps = (("eth1", "fe80::1") ∷ [], ("fe80::1", "eth1") ∷ [])

toy_listening :
    get_interfaces_for_neighbours toy_ports toy_interfaces toy_cluster toy_client ≡ ok toy_maps
unfolding get_interfaces_for_neighbours get_interfaces_for_server_neighbours own_connections
    neighbours_loop nic_of add_addresses GoMap.put GoMap.delete
toy_listening = refl

get_neighbour_switch_by_addr-IsEnd_example :
    (conns : List Connection) × (own_connections toy_ports toy_interfaces toy_cluster toy_client
      ≡ ok conns)
    × (((is_some (GoMap.get toy_maps.1 "fe80::1") ≡ false)
          × (get_neighbour_switch_by_addr toy_ports toy_interfaces toy_cluster toy_client "fe80::1"
              ≡ err absent_item))
        ⊎ ((is_some (GoMap.get toy_maps.1 "fe80::1") ≡ true)
            × IsEnd toy_ports toy_interfaces toy_cluster toy_client conns (
                get_neighbour_switch_by_addr toy_ports toy_interfaces toy_cluster toy_client
                  "fe80::1")))
get_neighbour_switch_by_addr-IsEnd_example =
    get_neighbour_switch_by_addr-IsEnd toy_ports toy_interfaces toy_cluster toy_client toy_maps
      "fe80::1" refl toy_listening

abbrev toy_settings : Settings
toy_settings = record {
  control_vip = "10.0.0.1";
  syslog_servers = [];
  ntp_servers = [];
  stage1_url = "https://das-boot/stage1/arm64";
}

abbrev toy_request : Request
toy_request = record {
  arch = "arm64";
  dev_id = "dev";
  location_uuid = "loc";
  location_uuid_signature = 1 ∷ [];
  interfaces = "eth0" ∷ [];
}

abbrev toy_address : IpAddress
toy_address = record {
  ip_addresses = "10.0.0.2" ∷ [];
  vlan = 0;
  routes = record { destinations = "10.0.0.1/32" ∷ []; gateway = "10.0.0.1"; flags = 0 } ∷ [];
  preferred = true;
}

abbrev toy_response : Response
toy_response = record {
  ip_addresses = ("eth0", toy_address) ∷ [];
  ntp_servers = [];
  syslog_servers = [];
  stage1_url = "https://das-boot/stage1/arm64";
}

toy_answer :
    process_request toy_net toy_cluster toy_settings toy_request none (some toy_connection)
    ≡ ok toy_response
unfolding process_request is_supported_arch has_suffix bytes_equal connections_for
    get_switch_connections get_switch_by_location_uuid only_management address_loop is_served
    is_requested address_of ensure_ip_has_cidr ensure_ip_has_no_cidr GoMap.put GoMap.delete
toy_answer = refl

process_request-Entry_example :
    (is_supported_arch "arm64" ≡ true)
    × (has_suffix "https://das-boot/stage1/arm64" "arm64" ≡ true)
    × (toy_response.stage1_url ≡ "https://das-boot/stage1/arm64")
    × (conns : List Connection) × (connections_for toy_cluster toy_request none ≡ ok conns)
    × Entry toy_net toy_settings
        ("eth0" ∷ [])
        (some toy_connection)
        "eth0"
        conns
        (GoMap.get toy_response.ip_addresses "eth0")
process_request-Entry_example =
    process_request-Entry toy_net toy_cluster toy_settings toy_request none (some toy_connection)
      toy_response "eth0" toy_answer

process_request-total_example :
    (resp : Response) × (process_request toy_net toy_cluster toy_settings toy_request none
        (some toy_connection)
      ≡ ok resp)
unfolding is_supported_arch has_suffix bytes_equal connections_for get_switch_connections
    get_switch_by_location_uuid only_management is_served is_requested ensure_ip_has_cidr
    ensure_ip_has_no_cidr
process_request-total_example =
    process_request-total toy_net toy_settings ("eth0" ∷ []) toy_cluster toy_request none
      (some toy_connection) (toy_connection ∷ []) refl refl refl refl refl
      (inr (toy_link, refl, inr refl), tt)

get_switch_by_addr-IsFirst_example :
    ((e : ApiError) × (toy_cluster.list_connections ≡ err e)
      × (get_switch_by_addr toy_net toy_ports toy_cluster toy_client "10.0.0.2"
          ≡ err (api_failed e)))
    ⊎ ((conns : List Connection) × (toy_cluster.list_connections ≡ ok conns)
        × ((Unmatched toy_net toy_ports toy_cluster toy_client "10.0.0.2" conns
              × (get_switch_by_addr toy_net toy_ports toy_cluster toy_client "10.0.0.2"
                  ≡ err absent_item))
            ⊎ ((conn : Connection) × (device : String) × IsFirst toy_net toy_ports toy_cluster
                  toy_client conns "10.0.0.2" conn device
                × (get_switch_by_addr toy_net toy_ports toy_cluster toy_client "10.0.0.2"
                    ≡ switch_of toy_net toy_ports toy_cluster toy_client device conn))))
get_switch_by_addr-IsFirst_example =
    get_switch_by_addr-IsFirst toy_net toy_ports toy_cluster toy_client "10.0.0.2"

process_ipam_request-Handled_example :
    Handled toy_net toy_ports toy_interfaces toy_cluster toy_client
      (λ _. true)
      (λ _. toy_settings)
      true
      (some toy_request)
      "fe80::1"
process_ipam_request-Handled_example =
    process_ipam_request-Handled toy_net toy_ports toy_interfaces toy_cluster toy_client (λ _. true)
      (λ _. toy_settings) true (some toy_request) "fe80::1"
