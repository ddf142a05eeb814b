-- ===== src/Network/Netlink.antt =====
-- The calls of github.com/vishvananda/netlink that configure an interface, and their runs: what a call
-- answers may depend on all that was called before.
use das_boot.Prelude.{
  Bool, Bytes, List, Option, String, [], if◌then◌else◌, none, some, ℕ, ◌++◌, ◌∷◌,
}

-- An address with its mask, and an address.
abbrev pub IpNet : Type 0
IpNet = Bytes

abbrev pub Ip : Type 0
Ip = Bytes

pub record Link : Type 0 where
  pub name : String
  pub index : ℕ
  pub kind : String
  pub encap_type : String
  pub hardware_addr : Bytes

pub record RouteEntry : Type 0 where
  pub dst : IpNet
  pub gw : Ip
  pub link_index : ℕ
  pub flags : ℕ

-- `link_add_vlan` has the name, the index of the parent and the VLAN's number.
pub data NetCall : Type 0 where
  link_add_vlan : String → ℕ → ℕ → NetCall
  link_set_up link_del : ℕ → NetCall
  addr_add addr_del : ℕ → IpNet → NetCall
  route_add route_del : RouteEntry → NetCall

abbrev pub Trace : Type 0
Trace = List NetCall

-- `fails` tells whether a call fails after those of the trace; `added_index` is the index that the
-- package finds for a link that it has added.
pub record Netlink : Type 0 where
  pub link_by_name : Trace → String → Option Link
  pub link_list : Trace → Option (List Link)
  pub addr_list : Trace → ℕ → Option (List Ip)
  pub fails : Trace → NetCall → Bool
  pub added_index : Trace → String → ℕ

pub data NetError : Type 0 where
  link_not_found link_list_failed addr_list_failed not_a_vlan_device : NetError
  call_failed : NetCall → NetError
  bad_cidr bad_mac interface_not_found : NetError

-- One call.
abbrev pub call : Netlink → NetCall → Trace → Option NetError × Trace
call nl c t = (if nl.fails t c then some (call_failed c) else none, t ++ c ∷ [])
