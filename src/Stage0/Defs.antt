-- ===== src/Stage0/Defs.antt =====
-- `runWith`, and the choice of an interface in `Run`.
use das_boot.Prelude.{
  Bool, List, Option, Result, String, [], err, false, if◌then◌else◌, ltb, none, not, ok, or_error,
  some, true, ℕ, ◌>>=◌, ◌∷◌,
}
use das_boot.Network.Configure.{
  Route, add_vlan_device_with_ip, configure_device_with_ip, delete_vlan_device,
  unconfigure_device_with_ip,
}
use das_boot.Network.Interfaces.{strings_to_ip_nets}
use das_boot.Network.Netlink.{Ip, IpNet, NetError, Netlink, Trace}
use das_boot.Seeder.Ipam.{IpAddress, Route as IpamRoute, Response}

-- Package net's `ParseCIDR` and `ParseIP`.
pub record Addresses : Type 0 where
  pub parse_cidr : String → Option IpNet
  pub parse_ip : String → Option Ip

pub data ClockResult : Type 0 where
  synced hardware_clock_failed ntp_failed : ClockResult

-- `ntp.SyncClock`, and whether `stage.DownloadExecutable` succeeds: both depend on the network.
pub record Services : Type 0 where
  pub sync_clock : Trace → List String → ClockResult
  pub download : Trace → String → Bool

pub data Stage0Error : Type 0 where
  conversion_failed clock_failed download_failed : Stage0Error
  network_failed : NetError → Stage0Error

abbrev pub vlan_name : String
vlan_name = "control"

abbrev pub to_stage0 {ℓ} : {A : Type ℓ} → Result NetError A → Result Stage0Error A
to_stage0 (ok a) = ok a
to_stage0 (err e) = err conversion_failed

module _ (conv : Addresses) where
  unfoldable pub convert_routes : List IpamRoute → Result Stage0Error (List Route)
  convert_routes [] = ok []
  convert_routes (r ∷ rs) = do
    dests ← to_stage0 (strings_to_ip_nets conv.parse_cidr r.destinations)
    gw ← or_error (conv.parse_ip r.gateway) conversion_failed
    rest ← convert_routes rs
    ok (record { dests = dests; gw = gw; flags = r.flags } ∷ rest)

  -- The addresses and the routes.
  unfoldable pub converted : IpAddress → Result Stage0Error (List IpNet × List Route)
  converted ipa = do
    nets ← to_stage0 (strings_to_ip_nets conv.parse_cidr ipa.ip_addresses)
    routes ← convert_routes ipa.routes
    ok (nets, routes)

module _ (nl : Netlink) where
  -- A VLAN if its number is not 0.
  unfoldable pub reset_network :
      String → ℕ → List IpNet → List Route → Trace → List NetError × Trace
  reset_network netdev vlan nets routes t =
      if ltb 0 vlan
      then delete_vlan_device nl vlan_name nets routes t
      else unconfigure_device_with_ip nl netdev nets routes t

  unfoldable pub configure_network :
      String → ℕ → List IpNet → List Route → Trace → Option NetError × Trace
  configure_network netdev vlan nets routes t =
      if ltb 0 vlan
      then add_vlan_device_with_ip nl netdev vlan vlan_name nets routes t
      else configure_device_with_ip nl netdev nets routes t

  module _ (svc : Services) (conv : Addresses) (resp : Response) where
    clock_is_fine : ClockResult → Bool
    clock_is_fine ntp_failed = false
    clock_is_fine _ = true

    -- What is done over the network.
    unfoldable pub fetch : Trace → Option Stage0Error
    unfolding clock_is_fine
    fetch t =
        if not (clock_is_fine (svc.sync_clock t resp.ntp_servers))
        then some clock_failed
        else if not (svc.download t resp.stage1_url)
        then some download_failed
        else none

    -- An error, after which the network is reset.
    failed_with : (Trace → List NetError × Trace) → Stage0Error → Trace → Option Stage0Error × Trace
    failed_with reset e t = (some e, (reset t).1)

    unfoldable pub run_configured :
        (Trace → List NetError × Trace) → Option NetError × Trace → Option Stage0Error × Trace
    unfolding failed_with
    run_configured reset (some e, t) = failed_with reset (network_failed e) t
    run_configured reset (none, t) = elim (fetch t) [
      | some e ↦ failed_with reset e t
      | none ↦ (none, t)
    ]

    -- Without an error, stage 1 was downloaded.
    unfoldable pub run_with : String → IpAddress → Trace → Option Stage0Error × Trace
    run_with netdev ipa t = elim (converted conv ipa) [
      | err e ↦ (some e, t)
      | ok (nets, routes) ↦
          run_configured (reset_network netdev ipa.vlan nets routes)
            (configure_network netdev ipa.vlan nets routes t)
    ]

    abbrev same_flag : Bool → Bool → Bool
    same_flag true b = b
    same_flag false b = not b

    -- The entries with the flag, in the order in which the map is ranged over, up to one that works.
    unfoldable pub try_entries : Bool → List (String × IpAddress) → Trace → Option String × Trace
    try_entries preferred [] t = (none, t)
    try_entries preferred ((netdev, ipa) ∷ entries) t =
        let (e, t') = run_with netdev ipa t in
        let skipped = try_entries preferred entries t in
        let onward = try_entries preferred entries t' in
        if not (same_flag preferred ipa.preferred)
        then skipped
        else elim e [ none ↦ (some netdev, t') | some f ↦ onward ]

    -- The preferred entries first; the two loops may range in different orders.
    unfoldable pub select_interface :
        List (String × IpAddress) → List (String × IpAddress) → Trace → Option String × Trace
    select_interface entries entries' t =
        let (chosen, t') = try_entries true entries t in
        let second = try_entries false entries' t' in
        elim chosen [ none ↦ second | some netdev ↦ (some netdev, t') ]
