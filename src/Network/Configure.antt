-- ===== src/Network/Configure.antt =====
-- The functions of interface.go that configure an interface. Errors that are collected are a list, in
-- the order in which they are joined.
use das_boot.Prelude.{
  List, Option, String, [], if◌then◌else◌, none, not, some, str_eq, then_write, ℕ, ◌++◌, ◌∷◌,
}
use das_boot.Network.Netlink.{
  Ip, IpNet, NetError, Netlink, RouteEntry, Trace, addr_add, addr_del, call, link_add_vlan,
  link_del, link_not_found, link_set_up, not_a_vlan_device, route_add, route_del,
}

pub record Route : Type 0 where
  pub dests : List IpNet
  pub gw : Ip
  pub flags : ℕ

abbrev pub entry : ℕ → Route → IpNet → RouteEntry
entry index route dest = record {
  dst = dest;
  gw = route.gw;
  link_index = index;
  flags = route.flags;
}

-- The next step of a loop that collects errors.
abbrev pub collected :
    Option NetError × Trace → (Trace → List NetError × Trace) → List NetError × Trace
collected (none, t) k = k t
collected (some e, t) k = let (es, t') = k t in (e ∷ es, t')

abbrev pub after : List NetError × Trace → (Trace → List NetError × Trace) → List NetError × Trace
after (es, t) k = let (fs, t') = k t in (es ++ fs, t')

module _ (nl : Netlink) (index : ℕ) where
  unfoldable pub add_ip_nets : List IpNet → Trace → Option NetError × Trace
  add_ip_nets [] t = (none, t)
  add_ip_nets (net ∷ nets) t = then_write (call nl (addr_add index net) t) (add_ip_nets nets)

  unfoldable pub add_dests : Route → List IpNet → Trace → Option NetError × Trace
  add_dests route [] t = (none, t)
  add_dests route (dest ∷ dests) t =
      then_write (call nl (route_add (entry index route dest)) t) (add_dests route dests)

  unfoldable pub add_routes : List Route → Trace → Option NetError × Trace
  add_routes [] t = (none, t)
  add_routes (route ∷ routes) t = then_write (add_dests route route.dests t) (add_routes routes)

  -- What the two functions that configure share: addresses, up, routes.
  unfoldable pub set_up : List IpNet → List Route → Trace → Option NetError × Trace
  set_up nets routes t =
      then_write (then_write (add_ip_nets nets t) (call nl (link_set_up index))) (add_routes routes)

  unfoldable pub delete_dests : Route → List IpNet → Trace → List NetError × Trace
  delete_dests route [] t = ([], t)
  delete_dests route (dest ∷ dests) t =
      collected (call nl (route_del (entry index route dest)) t) (delete_dests route dests)

  unfoldable pub delete_routes : List Route → Trace → List NetError × Trace
  delete_routes [] t = ([], t)
  delete_routes (route ∷ routes) t = after (delete_dests route route.dests t) (delete_routes routes)

  unfoldable pub delete_addresses : List IpNet → Trace → List NetError × Trace
  delete_addresses [] t = ([], t)
  delete_addresses (net ∷ nets) t =
      collected (call nl (addr_del index net) t) (delete_addresses nets)

  -- What the two functions that undo share: routes, addresses.
  unfoldable pub take_down : List IpNet → List Route → Trace → List NetError × Trace
  take_down nets routes t = after (delete_routes routes t) (delete_addresses nets)

  unfoldable pub delete_link : Trace → List NetError × Trace
  delete_link t = collected (call nl (link_del index) t) (λ t'. ([], t'))

module _ (nl : Netlink) where
  unfoldable pub unconfigure_device_with_ip :
      String → List IpNet → List Route → Trace → List NetError × Trace
  unconfigure_device_with_ip device nets routes t = elim (nl.link_by_name t device) [
    | none ↦ (link_not_found ∷ [], t)
    | some link ↦ take_down nl link.index nets routes t
  ]

  unfoldable pub delete_vlan_device :
      String → List IpNet → List Route → Trace → List NetError × Trace
  delete_vlan_device device nets routes t = elim (nl.link_by_name t device) [
    | none ↦ (link_not_found ∷ [], t)
    | some link ↦
        if not (str_eq link.kind "vlan")
        then (not_a_vlan_device ∷ [], t)
        else after (take_down nl link.index nets routes t) (delete_link nl link.index)
  ]

  unfoldable pub configure_device_with_ip :
      String → List IpNet → List Route → Trace → Option NetError × Trace
  configure_device_with_ip device nets routes t =
      let (ignored, t') = unconfigure_device_with_ip device nets routes t in
      elim (nl.link_by_name t' device) [
        | none ↦ (some link_not_found, t')
        | some link ↦ set_up nl link.index nets routes t'
      ]

  -- The link's index is found after it was added.
  unfoldable pub set_up_added : String → List IpNet → List Route → Trace → Option NetError × Trace
  set_up_added vlan_name nets routes t = set_up nl (nl.added_index t vlan_name) nets routes t

  unfoldable pub add_vlan_device_with_ip :
      String → ℕ → String → List IpNet → List Route → Trace → Option NetError × Trace
  add_vlan_device_with_ip device vid vlan_name nets routes t =
      let (ignored, t') = delete_vlan_device device nets routes t in
      elim (nl.link_by_name t' device) [
        | none ↦ (some link_not_found, t')
        | some parent ↦
            then_write (call nl (link_add_vlan vlan_name parent.index vid) t')
              (set_up_added vlan_name nets routes)
      ]
