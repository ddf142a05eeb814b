-- ===== src/Seeder/Client/Find.antt =====
-- Finding switches by an address, and the connections of a switch.
use das_boot.Prelude.{
  Bool, List, Result, String, [], err, false, if◌then◌else◌, is_some, none, ok, some, str_eq, true,
  ◌>>=◌, ◌||◌, ◌∷◌,
}
use das_boot.Kube.{Api, DeviceRegistration, other_failure, unregistered}
use das_boot.Seeder.Client.Defs.{Client, ClientError, absent_item, api_failed, call, not_unique}
use das_boot.Seeder.Wiring.{Cluster, Connection, FabricLink, Net, PortNames, Switch}

unfoldable pub only_management : List Connection → List Connection
only_management [] = []
only_management (conn ∷ conns) =
    let rest = only_management conns in if is_some conn.management then conn ∷ rest else rest

unfoldable pub get_switch_connections : Cluster → String → Result ClientError (List Connection)
get_switch_connections cluster name = do
  conns ← call (cluster.list_switch_connections name)
  ok (only_management conns)

abbrev pub the_only : List Switch → Result ClientError Switch
the_only [] = err absent_item
the_only (sw ∷ []) = ok sw
the_only (sw ∷ sw' ∷ rest) = err not_unique

unfoldable pub get_switch_by_location_uuid : Cluster → String → Result ClientError Switch
get_switch_by_location_uuid cluster uuid = do
  switches ← call (cluster.list_switches uuid none)
  the_only switches

module _ {A : Type 0} (api : Api A) (cluster : Cluster) (c : Client) where
  -- `GetDeviceRegistration`, over the state of the API server.
  unfoldable pub get_device_registration : A → String → Result ClientError DeviceRegistration
  get_device_registration s device_id = elim (api.get s c.device_namespace device_id) [
    | ok r ↦ ok r
    | err e ↦ elim e [
      | unregistered ↦ err absent_item
      | other_failure ↦ err (api_failed other_failure)
    ]
  ]

  unfoldable pub get_switch_by_device_id : A → String → Result ClientError Switch
  get_switch_by_device_id s device_id = do
    registration ← get_device_registration s device_id
    get_switch_by_location_uuid cluster registration.location_uuid

module _ {IP : Type 0} (net : Net IP) (ports : PortNames) where
  -- Whether a configured address, with or without a prefix length, is `addr`.
  abbrev pub is_address : String → String → Bool
  is_address configured addr = str_eq configured addr || (elim (net.parse_cidr configured) [
    | none ↦ false
    | some ip ↦ str_eq (net.ip_string ip) addr
  ])

  -- The loop over the links of a fabric connection: the last match decides.
  unfoldable pub fabric_device : List FabricLink → String → String → String
  fabric_device [] addr found = found
  fabric_device (l ∷ ls) addr found =
      let found₁ = if is_address l.leaf_ip addr then ports.device_name l.leaf_port else found in
      fabric_device ls addr
        (if is_address l.spine_ip addr then ports.device_name l.spine_port else found₁)

  -- `deviceName` at the end of the body of the loop.
  unfoldable pub matched_device : String → Connection → String
  matched_device addr conn = elim conn.management [
    | some m ↦ if is_address m.switch_ip addr then ports.device_name m.switch_port else ""
    | none ↦ elim conn.fabric [ none ↦ "" | some links ↦ fabric_device links addr "" ]
  ]

  module _ (cluster : Cluster) (c : Client) where
    unfoldable pub by_addr_loop :
        List Connection → String → Result ClientError (Switch × Connection)
    by_addr_loop [] addr = err absent_item
    by_addr_loop (conn ∷ conns) addr = elim (str_eq (matched_device addr conn) "") [
      | true ↦ by_addr_loop conns addr
      | false ↦ do
        sw ← call (cluster.get_switch c.device_namespace (matched_device addr conn))
        ok (sw, conn)
    ]

    unfoldable pub get_switch_by_addr : String → Result ClientError (Switch × Connection)
    get_switch_by_addr addr = do conns ← call cluster.list_connections; by_addr_loop conns addr
