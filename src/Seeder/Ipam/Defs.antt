-- ===== src/Seeder/Ipam/Defs.antt =====
-- request.go, response.go and `ProcessRequest` of processor.go.
use das_boot.Prelude.GoMap
use das_boot.Prelude.{
  Bool, Bytes, List, Option, Result, String, [], err, fail_if, false, is_empty, none, not, ok,
  or_error, some, str_eq, true, ℕ, ◌&&◌, ◌>>=◌, ◌>>◌, ◌||◌, ◌∷◌,
}
use das_boot.Prelude.Text.{has_suffix}
use das_boot.Seeder.Addresses.{ensure_ip_has_cidr, ensure_ip_has_no_cidr}
use das_boot.Seeder.Client.{ClientError, get_switch_by_location_uuid, get_switch_connections}
use das_boot.Seeder.Wiring.{Cluster, Connection, Management, Net, Switch}

pub record Settings : Type 0 where
  pub control_vip : String
  pub syslog_servers : List String
  pub ntp_servers : List String
  pub stage1_url : String

pub record Request : Type 0 where
  pub arch : String
  pub dev_id : String
  pub location_uuid : String
  pub location_uuid_signature : Bytes
  pub interfaces : List String

pub data IpamError : Type 0 where
  unsupported_arch invalid_dev_id invalid_location_uuid : IpamError
  empty_signature empty_interfaces : IpamError
  invalid_stage1_url bad_server_ip bad_control_vip : IpamError
  finding_switch finding_ports : ClientError → IpamError

pub record Route : Type 0 where
  pub destinations : List String
  pub gateway : String
  pub flags : ℕ

pub record IpAddress : Type 0 where
  pub ip_addresses : List String
  pub vlan : ℕ
  pub routes : List Route
  pub preferred : Bool

pub record Response : Type 0 where
  pub ip_addresses : GoMap.Map IpAddress
  pub ntp_servers : List String
  pub syslog_servers : List String
  pub stage1_url : String

unfoldable pub is_supported_arch : String → Bool
is_supported_arch arch = str_eq arch "x86_64" || str_eq arch "arm64" || str_eq arch "arm"

-- The argument tells whether `uuid.Parse` reads a text.
unfoldable pub validate : (String → Bool) → Request → Result IpamError (Unit {0})
validate is_uuid r = do
  fail_if (not (is_supported_arch r.arch)) unsupported_arch
  fail_if (not (is_uuid r.dev_id)) invalid_dev_id
  fail_if (not (str_eq r.location_uuid "") && not (is_uuid r.location_uuid)) invalid_location_uuid
  fail_if (not (str_eq r.location_uuid "") && is_empty r.location_uuid_signature) empty_signature
  fail_if (is_empty r.interfaces) empty_interfaces
  ok tt

-- The map `reqIfs`.
unfoldable pub is_requested : List String → String → Bool
is_requested [] name = false
is_requested (i ∷ is) name = str_eq i name || is_requested is name

-- A connection whose port was requested and that has ONIE configuration.
unfoldable pub is_served : List String → Management → Bool
is_served interfaces m =
    is_requested interfaces m.onie_port_name
    && not (str_eq m.onie_port_name "" || str_eq m.switch_ip "")

abbrev pub is_adjacent : Option Connection → Connection → Bool
is_adjacent none conn = false
is_adjacent (some a) conn = str_eq conn.name a.name

module _ {IP : Type 0} (net : Net IP) (settings : Settings) (interfaces : List String)
    (adjacent : Option Connection) where
  unfoldable pub address_of : Connection → Management → Result IpamError IpAddress
  address_of conn m = do
    server_ip ← or_error (ensure_ip_has_no_cidr net m.server_ip) bad_server_ip
    control_vip ← or_error (ensure_ip_has_cidr net settings.control_vip) bad_control_vip
    ok (record {
      ip_addresses = m.switch_ip ∷ [];
      vlan = 0;
      routes = record { destinations = control_vip ∷ []; gateway = server_ip; flags = 0 } ∷ [];
      preferred = is_adjacent adjacent conn;
    })

  -- The loop over the connections.
  unfoldable pub address_loop :
      List Connection → GoMap.Map IpAddress → Result IpamError (GoMap.Map IpAddress)
  address_loop [] ips = ok ips
  address_loop (conn ∷ conns) ips = elim conn.management [
    | none ↦ address_loop conns ips
    | some m ↦ elim (is_served interfaces m) [
      | false ↦ address_loop conns ips
      | true ↦ elim (address_of conn m) [
        | err e ↦ err e
        | ok a ↦ address_loop conns (GoMap.put ips m.onie_port_name a)
      ]
    ]
  ]

-- A call of the control plane client, its error wrapped.
abbrev pub wrapped {ℓ} :
    {A : Type ℓ} → (ClientError → IpamError) → Result ClientError A → Result IpamError A
wrapped f (ok a) = ok a
wrapped f (err e) = err (f e)

unfoldable pub connections_for :
    Cluster → Request → Option Switch → Result IpamError (List Connection)
connections_for cluster r (some sw) = wrapped finding_ports (get_switch_connections cluster sw.name)
connections_for cluster r none = do
  sw ← wrapped finding_switch (get_switch_by_location_uuid cluster r.location_uuid)
  wrapped finding_ports (get_switch_connections cluster sw.name)

unfoldable pub process_request :
    {IP : Type 0}
    → Net IP
    → Cluster
    → Settings
    → Request
    → Option Switch
    → Option Connection
    → Result IpamError Response
process_request net cluster settings r adjacent_switch adjacent = do
  fail_if (not (is_supported_arch r.arch)) unsupported_arch
  fail_if (not (has_suffix settings.stage1_url r.arch)) invalid_stage1_url
  conns ← connections_for cluster r adjacent_switch
  ips ← address_loop net settings r.interfaces adjacent conns []
  ok (record {
    ip_addresses = ips;
    ntp_servers = settings.ntp_servers;
    syslog_servers = settings.syslog_servers;
    stage1_url = settings.stage1_url;
  })
