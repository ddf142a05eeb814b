-- ===== src/Network/Interfaces.antt =====
-- The functions of interface.go that only look.
use das_boot.Prelude.{
  Bool, Bytes, List, Option, Result, String, [], bytes_equal, err, if◌then◌else◌, none, not, ok,
  or_error, some, str_eq, ◌&&◌, ◌>>=◌, ◌||◌, ◌∷◌,
}
use das_boot.Network.Netlink.{
  Ip, Link, NetError, Netlink, Trace, addr_list_failed, bad_cidr, bad_mac, interface_not_found,
  link_list_failed, link_not_found,
}

module _ {ℓ} {A : Type ℓ} (parse_cidr : String → Option A) where
  -- `net.ParseCIDR` gives the address and its mask.
  unfoldable pub strings_to_ip_nets : List String → Result NetError (List A)
  strings_to_ip_nets [] = ok []
  strings_to_ip_nets (s ∷ ss) = do
    net ← or_error (parse_cidr s) bad_cidr
    nets ← strings_to_ip_nets ss
    ok (net ∷ nets)

abbrev pub is_real_device : Link → Bool
is_real_device l = str_eq l.kind "device" && str_eq l.encap_type "ether"

names_loop : List Link → List String
names_loop [] = []
names_loop (l ∷ ls) = let rest = names_loop ls in if is_real_device l then l.name ∷ rest else rest

unfoldable pub get_interfaces : Netlink → Trace → Result NetError (List String)
unfolding names_loop
get_interfaces nl t = do ls ← or_error (nl.link_list t) link_list_failed; ok (names_loop ls)

addresses_loop : {A : Type 0} → (Ip → Option A) → List Ip → List A
addresses_loop addr_from_slice [] = []
addresses_loop addr_from_slice (ip ∷ ips) =
    let rest = addresses_loop addr_from_slice ips in
    elim (addr_from_slice ip) [ none ↦ rest | some a ↦ a ∷ rest ]

-- `netip.AddrFromSlice` is the first argument.
unfoldable pub get_interface_addresses :
    {A : Type 0} → (Ip → Option A) → Netlink → String → Trace → Result NetError (List A)
unfolding addresses_loop
get_interface_addresses addr_from_slice nl device t = do
  link ← or_error (nl.link_by_name t device) link_not_found
  addrs ← or_error (nl.addr_list t link.index) addr_list_failed
  ok (addresses_loop addr_from_slice addrs)

-- The MAC address is `none` if it is not given.
unfoldable pub is_wanted : String → Option Bytes → Link → Bool
is_wanted name none l = str_eq l.name name
is_wanted name (some mac) l = str_eq l.name name || bytes_equal l.hardware_addr mac

unfoldable pub get_interface_loop : String → Option Bytes → List Link → Result NetError String
get_interface_loop name mac [] = err interface_not_found
get_interface_loop name mac (l ∷ ls) =
    let rest = get_interface_loop name mac ls in
    if not (is_real_device l) then rest else if is_wanted name mac l then ok l.name else rest

-- `net.ParseMAC`, and what it is called for.
unfoldable pub parsed_mac : (String → Option Bytes) → String → Result NetError (Option Bytes)
parsed_mac parse_mac mac_str =
    if str_eq mac_str ""
    then ok none
    else elim (parse_mac mac_str) [ none ↦ err bad_mac | some mac ↦ ok (some mac) ]

unfoldable pub get_interface :
    (String → Option Bytes) → Netlink → String → String → Trace → Result NetError String
get_interface parse_mac nl name mac_str t = do
  mac ← parsed_mac parse_mac mac_str
  ls ← or_error (nl.link_list t) link_list_failed
  get_interface_loop name mac ls
