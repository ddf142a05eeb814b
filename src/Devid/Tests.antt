-- ===== src/Devid/Tests.antt =====
-- A host with two interfaces, and UUIDs that spell out their names.
use mathlib.Core.List.Perm
use das_boot.Prelude.{
  Bytes, List, Option, [], bytes_equal, if◌then◌else◌, is_empty, none, refl, some, ◌++◌, ◌∷◌, ◌≡◌,
}
use das_boot.Devid.Id.{
  Host, UuidLibrary, bytes_leb, cpu_info_loop, id, id_from_cpu_info, id_from_mac_addresses,
  id_from_vendor_id_and_serial, id_of_macs, insert, only_zero, read_macs, sort_strings,
}
use das_boot.Devid.Macs.{id_from_mac_addresses-perm}
use das_boot.Prelude.Text.{trim_left_space, trim_space}
use das_boot.Staging.OnieEnv.{split2}

abbrev flat : List Bytes → Bytes
flat [] = []
flat (b ∷ bs) = b ++ flat bs

abbrev toy_uuid : UuidLibrary
toy_uuid = record {
  parse_bytes = λ b. some b;
  new_sha1 = λ org units cn. if is_empty units then org ++ cn else org ++ flat units;
}

abbrev toy_address : Bytes → Option Bytes
toy_address dev =
    if bytes_equal dev (49 ∷ [])
    then some (57 ∷ 10 ∷ [])
    else if bytes_equal dev (50 ∷ [])
    then some (56 ∷ 10 ∷ [])
    else none

id_from_mac_addresses-perm_example :
    id_from_mac_addresses toy_uuid toy_address ((49 ∷ []) ∷ (50 ∷ []) ∷ [])
    ≡ id_from_mac_addresses toy_uuid toy_address ((50 ∷ []) ∷ (49 ∷ []) ∷ [])
id_from_mac_addresses-perm_example =
    id_from_mac_addresses-perm toy_uuid toy_address (Perm.swap (50 ∷ []) (49 ∷ []) [])

-- An ARM host whose serial is all zeros, and one without any of the sources.
abbrev toy_host : Host
toy_host = record {
  arch = "arm64";
  onie_sysinfo = some (1 ∷ []);
  onie_syseeprom = none;
  product_uuid = some (5 ∷ []);
  cpu_info =
      some ((97 ∷ []) ∷ (83 ∷ 101 ∷ 114 ∷ 105 ∷ 97 ∷ 108 ∷ 32 ∷ 58 ∷ 32 ∷ 48 ∷ 48 ∷ []) ∷ []);
  net_devices = (49 ∷ []) ∷ (50 ∷ []) ∷ [];
  address = toy_address;
}

id_runs :
    (id_from_cpu_info toy_uuid toy_host ≡ none)
    × (id toy_uuid toy_host (7 ∷ []) ≡ 77 ∷ 65 ∷ 67 ∷ 56 ∷ 57 ∷ [])
    × (id toy_uuid (record toy_host { net_devices = [] }) (7 ∷ []) ≡ 7 ∷ [])
    × (id toy_uuid (record toy_host { arch = "mips"; net_devices = [] }) (7 ∷ []) ≡ [])
unfolding id id_from_cpu_info cpu_info_loop split2 bytes_equal only_zero id_from_mac_addresses
    read_macs id_of_macs sort_strings insert bytes_leb trim_space trim_left_space
    id_from_vendor_id_and_serial
id_runs = (refl, refl, refl, refl)
