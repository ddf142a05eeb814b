-- ===== src/Stage0/Tests.antt =====
-- A host with one interface, whose calls all succeed.
use das_boot.Prelude.{
  Bool, List, Option, String, [], false, if◌then◌else◌, inl, refl, some, str_eq, true, ◌++◌, ◌∷◌,
  ◌≡◌,
}
use das_boot.Network.Configure.{
  add_ip_nets, add_routes, add_vlan_device_with_ip, configure_device_with_ip, delete_addresses,
  delete_link, delete_routes, delete_vlan_device, set_up, set_up_added, take_down,
  unconfigure_device_with_ip,
}
use das_boot.Network.Interfaces.{strings_to_ip_nets}
use das_boot.Network.Netlink.{IpNet, Link, Netlink, Trace}
use das_boot.Seeder.Ipam.{IpAddress, Response}
use das_boot.Stage0.Defs.{
  Addresses, Services, Stage0Error, configure_network, convert_routes, converted, download_failed,
  fetch, reset_network, run_configured, run_with, select_interface, synced,
}
use das_boot.Stage0.Reset.{reset_calls, run_with-IsReset}
use das_boot.Stage0.Selection.{IsSelected, select_interface-IsSelected}

abbrev eth0 : Link
eth0 = record {
  name = "eth0";
  index = 2;
  kind = "device";
  encap_type = "ether";
  hardware_addr = [];
}

abbrev control : Link
control = record eth0 { name = "control"; index = 3; kind = "vlan" }

abbrev host : Netlink
host = record {
  link_by_name = λ t name. if str_eq name "control" then some control else some eth0;
  link_list = λ t. some (eth0 ∷ []);
  addr_list = λ t i. some [];
  fails = λ t c. false;
  added_index = λ t name. 3;
}

abbrev readers : Addresses
readers = record { parse_cidr = λ s. some (10 ∷ []); parse_ip = λ s. some (11 ∷ []) }

-- The argument tells whether stage 1 can be downloaded.
abbrev services : Bool → Services
services reachable = record { sync_clock = λ t servers. synced; download = λ t url. reachable }

abbrev plain_entry : IpAddress
plain_entry = record { ip_addresses = "10.0.0.1/24" ∷ []; vlan = 0; routes = []; preferred = false }

abbrev vlan_entry : IpAddress
vlan_entry = record plain_entry { vlan = 5 }

abbrev entries : List (String × IpAddress)
entries = ("eth0", plain_entry) ∷ []

abbrev answer : Response
answer = record {
  ip_addresses = entries;
  ntp_servers = [];
  syslog_servers = [];
  stage1_url = "https://seeder/stage1";
}

select_interface-IsSelected_example :
    IsSelected host
      (services true)
      readers
      answer
      entries
      entries
      (select_interface host (services true) readers answer entries entries [])
unfolding run_with converted convert_routes strings_to_ip_nets configure_network reset_network
    run_configured fetch configure_device_with_ip unconfigure_device_with_ip take_down delete_routes
    delete_addresses set_up add_ip_nets add_routes
select_interface-IsSelected_example =
    select_interface-IsSelected host (services true) readers answer entries entries "eth0"
      plain_entry [] (inl refl) (inl refl) (λ t. refl)

abbrev failed_run : Option Stage0Error × Trace
failed_run = run_with host (services false) readers answer "eth0" vlan_entry []

abbrev entry_nets : List IpNet
entry_nets = (10 ∷ []) ∷ []

run_with-IsReset_example :
    failed_run.1
    ≡ (configure_network host "eth0" 5 entry_nets [] []).1
      ++ reset_calls (some control) 5 entry_nets []
unfolding run_with converted convert_routes strings_to_ip_nets configure_network reset_network
    run_configured fetch add_vlan_device_with_ip delete_vlan_device take_down delete_routes
    delete_addresses set_up set_up_added add_ip_nets add_routes delete_link
run_with-IsReset_example =
    run_with-IsReset host (services false) readers answer "eth0" vlan_entry entry_nets [] []
      failed_run.1 download_failed refl refl
