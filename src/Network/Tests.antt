-- ===== src/Network/Tests.antt =====
-- An interface that is always there, one address and one route, and calls of which those that delete
-- fail.
use das_boot.Prelude.{
  Bool, List, [], bytes_equal, err, false, if◌then◌else◌, none, ok, refl, some, str_eq, true, ◌++◌,
  ◌∷◌, ◌≡◌,
}
use das_boot.Network.Configure.{Route, add_vlan_device_with_ip, configure_device_with_ip}
use das_boot.Network.Configured.{
  add_vlan_device_with_ip-IsPerformed, configure_device_with_ip-IsPerformed, vlan_plan,
}
use das_boot.Network.Interfaces.{
  get_interface, get_interface_loop, get_interfaces, is_wanted, parsed_mac,
}
use das_boot.Network.Netlink.{
  IpNet, Link, NetCall, Netlink, addr_del, interface_not_found, link_del, route_del,
}
use das_boot.Network.Plans.{IsPerformed, plan, undo}

abbrev toy_link : Link
toy_link = record {
  name = "eth0";
  index = 2;
  kind = "device";
  encap_type = "ether";
  hardware_addr = 7 ∷ [];
}

abbrev toy_vlan_link : Link
toy_vlan_link = record toy_link { name = "eth0.5"; kind = "vlan"; index = 3 }

abbrev deletes : NetCall → Bool
deletes (link_del i) = true
deletes (addr_del i n) = true
deletes (route_del r) = true
deletes _ = false

abbrev toy_netlink : Netlink
toy_netlink = record {
  link_by_name = λ t name.
      if str_eq name "eth0"
      then some toy_link
      else if str_eq name "eth0.5"
      then some toy_vlan_link
      else none;
  link_list = λ t. some (toy_link ∷ []);
  addr_list = λ t i. some [];
  fails = λ t c. deletes c;
  added_index = λ t name. 3;
}

abbrev toy_nets : List IpNet
toy_nets = (10 ∷ 1 ∷ []) ∷ []

abbrev toy_routes : List Route
toy_routes = record { dests = (10 ∷ 2 ∷ []) ∷ (10 ∷ 3 ∷ []) ∷ []; gw = 10 ∷ []; flags = 0 } ∷ []

configure_device_with_ip-IsPerformed_example :
    IsPerformed toy_netlink
      (plan 2 toy_nets toy_routes)
      ([] ++ undo 2 toy_nets toy_routes)
      (configure_device_with_ip toy_netlink "eth0" toy_nets toy_routes []).0
      (configure_device_with_ip toy_netlink "eth0" toy_nets toy_routes []).1
configure_device_with_ip-IsPerformed_example =
    configure_device_with_ip-IsPerformed toy_netlink "eth0" toy_nets toy_routes [] toy_link toy_link
      refl refl

add_vlan_device_with_ip-IsPerformed_example :
    IsPerformed toy_netlink
      (vlan_plan toy_netlink "eth0.5" 5 toy_link toy_nets toy_routes [])
      []
      (add_vlan_device_with_ip toy_netlink "eth0" 5 "eth0.5" toy_nets toy_routes []).0
      (add_vlan_device_with_ip toy_netlink "eth0" 5 "eth0.5" toy_nets toy_routes []).1
add_vlan_device_with_ip-IsPerformed_example =
    add_vlan_device_with_ip-IsPerformed toy_netlink "eth0" 5 "eth0.5" toy_nets toy_routes []
      toy_link refl refl

-- What is looked up, and where the two functions that read texts stop.
interface_runs :
    (get_interface (λ s. none) toy_netlink "eth0" "" [] ≡ ok "eth0")
    × (get_interface (λ s. some (7 ∷ [])) toy_netlink "lan" "07" [] ≡ ok "eth0")
    × (get_interface (λ s. none) toy_netlink "lan" "" [] ≡ err interface_not_found)
    × (get_interfaces toy_netlink [] ≡ ok ("eth0" ∷ []))
unfolding get_interface parsed_mac get_interface_loop is_wanted get_interfaces bytes_equal
interface_runs = (refl, refl, refl, refl)
