-- ===== src/Seeder/Client/Defs.antt =====
-- The methods of `KubernetesControlPlaneClient` that read the wiring.
use das_boot.Prelude.GoMap
use das_boot.Prelude.{
  Bool, List, Option, Result, String, [], err, fail_if, false, if◌then◌else◌, is_empty, none, ok,
  or_error, some, str_eq, true, ◌&&◌, ◌>>=◌, ◌>>◌, ◌||◌, ◌∷◌,
}
use das_boot.Kube.{ApiError}
use das_boot.Seeder.Wiring.{Addr, Cluster, Connection, Interfaces, PortNames, Switch}

-- `unknown_type` is any other number.
pub data DeviceType : Type 0 where
  auto_type server_type switch_type unknown_type : DeviceType

pub data ClientError : Type 0 where
  api_failed : ApiError → ClientError
  unsupported_device_type no_connections reading_addresses : ClientError
  absent_item not_unique unfinished_code undetected_type no_hostname unencodable : ClientError

-- The field `deviceRack` is never set.
pub record Client : Type 0 where
  pub device_type : DeviceType
  pub device_hostname : String
  pub device_namespace : String

-- The two maps, from interfaces to addresses and back.
abbrev pub NeighbourMaps : Type 0
NeighbourMaps = GoMap.Map String × GoMap.Map String

-- A call of the API server; its error is passed on.
abbrev pub call {ℓ} : {A : Type ℓ} → Result ApiError A → Result ClientError A
call (ok a) = ok a
call (err e) = err (api_failed e)

abbrev pub is_usable : Addr → Bool
is_usable a = a.is6 && a.is_link_local_unicast

unfoldable pub add_addresses : String → List Addr → NeighbourMaps → NeighbourMaps
add_addresses nic [] m = m
add_addresses nic (a ∷ rest) m =
    add_addresses nic rest
      (if is_usable a then (GoMap.put m.0 nic a.string, GoMap.put m.1 a.string nic) else m)

unfoldable pub has_address : String → List Addr → Bool
has_address addr [] = false
has_address addr (a ∷ rest) = (is_usable a && str_eq a.string addr) || has_address addr rest

-- The interface of a management connection's port on the server, where there is one.
unfoldable pub nic_of : PortNames → Interfaces → Connection → Option String
nic_of ports ifs conn = elim conn.management [
  | none ↦ none
  | some m ↦ ifs.get_interface (ports.local_port_name m.server_port) m.server_mac
]

module _ (ports : PortNames) (ifs : Interfaces) where
  -- The loop over the connections.
  unfoldable pub neighbours_loop :
      List Connection → NeighbourMaps → Result ClientError NeighbourMaps
  neighbours_loop [] m = ok m
  neighbours_loop (conn ∷ conns) m = elim (nic_of ports ifs conn) [
    | none ↦ neighbours_loop conns m
    | some nic ↦ elim (ifs.get_interface_addresses nic) [
      | none ↦ err reading_addresses
      | some addrs ↦ neighbours_loop conns (add_addresses nic addrs m)
    ]
  ]

  module _ (cluster : Cluster) (c : Client) where
    -- The connections of the server that this is, of which there must be one.
    unfoldable pub own_connections : Result ClientError (List Connection)
    own_connections = do
      _ ← call (cluster.get_server c.device_namespace c.device_hostname)
      conns ← call (cluster.list_server_connections c.device_hostname)
      fail_if (is_empty conns) no_connections
      ok conns

    unfoldable pub get_interfaces_for_server_neighbours : Result ClientError NeighbourMaps
    get_interfaces_for_server_neighbours = do
      conns ← own_connections
      neighbours_loop conns ([], [])

    unfoldable pub get_interfaces_for_switch_neighbours : Result ClientError NeighbourMaps
    get_interfaces_for_switch_neighbours = do
      _ ← call (cluster.get_switch c.device_namespace c.device_hostname)
      conns ← call (cluster.list_switch_connections c.device_hostname)
      fail_if (is_empty conns) no_connections
      neighbours_loop conns ([], [])

    for_type : DeviceType → Result ClientError NeighbourMaps
    for_type server_type = get_interfaces_for_server_neighbours
    for_type switch_type = get_interfaces_for_switch_neighbours
    for_type _ = err unsupported_device_type

    unfoldable pub get_interfaces_for_neighbours : Result ClientError NeighbourMaps
    unfolding for_type
    get_interfaces_for_neighbours = for_type c.device_type

    get_switch_of : Connection → String → Result ClientError (Switch × Connection)
    get_switch_of conn name = do
      sw ← call (cluster.get_switch c.device_namespace name)
      ok (sw, conn)

    -- The switch of the first connection whose interface has the address.
    unfoldable pub neighbour_loop :
        List Connection → String → Result ClientError (Switch × Connection)
    unfolding get_switch_of
    neighbour_loop [] addr = err absent_item
    neighbour_loop (conn ∷ conns) addr = elim conn.management [
      | none ↦ neighbour_loop conns addr
      | some m ↦ elim (ifs.get_interface (ports.local_port_name m.server_port) m.server_mac) [
        | none ↦ neighbour_loop conns addr
        | some nic ↦ elim (ifs.get_interface_addresses nic) [
          | none ↦ err reading_addresses
          | some addrs ↦ elim (has_address addr addrs) [
            | true ↦ get_switch_of conn (ports.device_name m.switch_port)
            | false ↦ neighbour_loop conns addr
          ]
        ]
      ]
    ]

    unfoldable pub get_neighbour_switch_by_addr_for_server :
        String → Result ClientError (Switch × Connection)
    get_neighbour_switch_by_addr_for_server addr = do
      conns ← own_connections
      neighbour_loop conns addr

    neighbour_for_type : DeviceType → String → Result ClientError (Switch × Connection)
    neighbour_for_type server_type addr = get_neighbour_switch_by_addr_for_server addr
    neighbour_for_type switch_type addr = err unfinished_code
    neighbour_for_type _ addr = err unsupported_device_type

    unfoldable pub get_neighbour_switch_by_addr : String → Result ClientError (Switch × Connection)
    unfolding neighbour_for_type
    get_neighbour_switch_by_addr addr = neighbour_for_type c.device_type addr

  module _ (cluster : Cluster) where
    abbrev client_of : String → DeviceType → Client
    client_of hostname type = record {
      device_type = type;
      device_hostname = hostname;
      device_namespace = "default";
    }

    detect : String → Result ClientError Client
    detect hostname =
        elim (get_interfaces_for_server_neighbours cluster (client_of hostname server_type)) [
          | ok _ ↦ ok (client_of hostname server_type)
          | err _ ↦
              elim (get_interfaces_for_switch_neighbours cluster (client_of hostname switch_type)) [
                | ok _ ↦ ok (client_of hostname switch_type)
                | err _ ↦ err undetected_type
              ]
        ]

    typed : String → DeviceType → Result ClientError Client
    typed hostname auto_type = detect hostname
    typed hostname server_type = ok (client_of hostname server_type)
    typed hostname switch_type = ok (client_of hostname switch_type)
    typed hostname unknown_type = err unsupported_device_type

    -- `NewKubernetesControlPlaneClient`; the first argument is the answer of `os.Hostname`.
    unfoldable pub new_client : Option String → String → DeviceType → Result ClientError Client
    unfolding typed detect
    new_client os_hostname self_hostname type = do
      hostname ←
          if str_eq self_hostname "" then or_error os_hostname no_hostname else ok self_hostname
      typed hostname type
