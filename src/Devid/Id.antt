-- ===== src/Devid/Id.antt =====
-- `ID` and the four ways to determine it. Texts are UTF-8 bytes; errors are only logged.
use das_boot.Prelude.{
  Bool, Bytes, List, Option, String, [], bytes_equal, false, if◌then◌else◌, is_empty, ltb, none,
  not, some, str_eq, true, ◌&&◌, ◌==◌, ◌||◌, ◌∷◌,
}
use das_boot.Prelude.Text.{codes, trim_space}
use das_boot.Staging.OnieEnv.{split2}

-- The host: the outputs of the two ONIE commands, /sys/class/dmi/id/product_uuid, the lines of
-- /proc/cpuinfo, the names of the folders in /sys/class/net with an entry "device" as they are found,
-- and their files "address".
pub record Host : Type 0 where
  pub arch : String
  pub onie_sysinfo : Option Bytes
  pub onie_syseeprom : Option Bytes
  pub product_uuid : Option Bytes
  pub cpu_info : Option (List Bytes)
  pub net_devices : List Bytes
  pub address : Bytes → Option Bytes

-- Package uuid: a UUID's text for what `ParseBytes` reads, and that of `NewSHA1` for the name that has
-- the organization, its units and the common name.
pub record UuidLibrary : Type 0 where
  pub parse_bytes : Bytes → Option Bytes
  pub new_sha1 : Bytes → List Bytes → Bytes → Bytes

-- `sort.Strings`, on bytes.
unfoldable pub bytes_leb : Bytes → Bytes → Bool
bytes_leb [] b = true
bytes_leb (x ∷ a) [] = false
bytes_leb (x ∷ a) (y ∷ b) =
    let rest = bytes_leb a b in if ltb x y then true else if ltb y x then false else rest

unfoldable pub insert : Bytes → List Bytes → List Bytes
insert a [] = a ∷ []
insert a (b ∷ l) = let rest = insert a l in if bytes_leb a b then a ∷ b ∷ l else b ∷ rest

unfoldable pub sort_strings : List Bytes → List Bytes
sort_strings [] = []
sort_strings (a ∷ l) = insert a (sort_strings l)

unfoldable pub only_zero : Bytes → Bool
only_zero [] = true
only_zero (c ∷ s) = c == 48 && only_zero s

module _ (lib : UuidLibrary) where
  -- The files that are read, up to one that fails; empty addresses are left out.
  unfoldable pub read_macs : (Bytes → Option Bytes) → List Bytes → Option (List Bytes)
  read_macs address [] = some []
  read_macs address (dev ∷ devs) =
      let rest = read_macs address devs in
      elim (address dev) [
        | none ↦ none
        | some b ↦ elim rest [
          | none ↦ none
          | some macs ↦ if is_empty (trim_space b) then some macs else some (trim_space b ∷ macs)
        ]
      ]

  unfoldable pub id_of_macs : Option (List Bytes) → Option Bytes
  id_of_macs none = none
  id_of_macs (some macs) =
      if is_empty macs then none else some (lib.new_sha1 (codes "MAC") (sort_strings macs) [])

  unfoldable pub id_from_mac_addresses : (Bytes → Option Bytes) → List Bytes → Option Bytes
  unfolding id_of_macs
  id_from_mac_addresses address devs =
      if is_empty devs then none else id_of_macs (read_macs address devs)

  unfoldable pub id_from_vendor_id_and_serial : Host → Option Bytes
  id_from_vendor_id_and_serial h = elim h.onie_sysinfo [
    | none ↦ none
    | some vendor ↦ elim h.onie_syseeprom [
      | none ↦ none
      | some serial ↦ some (lib.new_sha1 vendor [] serial)
    ]
  ]

  unfoldable pub id_from_system_uuid : Host → Option Bytes
  id_from_system_uuid h = elim h.product_uuid [
    | none ↦ none
    | some b ↦ lib.parse_bytes (trim_space b)
  ]

  -- The first line with the key "Serial" decides.
  unfoldable pub cpu_info_loop : Bytes → List Bytes → Option Bytes
  cpu_info_loop arch [] = none
  cpu_info_loop arch (line ∷ lines) =
      let rest = cpu_info_loop arch lines in
      elim (split2 58 line) [
        | none ↦ rest
        | some (key, val) ↦
            if not (bytes_equal (trim_space key) (codes "Serial"))
            then rest
            else if only_zero (trim_space val)
            then none
            else some (lib.new_sha1 arch [] (trim_space val))
      ]

  unfoldable pub id_from_cpu_info : Host → Option Bytes
  id_from_cpu_info h = elim h.cpu_info [
    | none ↦ none
    | some lines ↦ cpu_info_loop (codes h.arch) lines
  ]

  abbrev pub is_x86 : String → Bool
  is_x86 arch = str_eq arch "amd64" || str_eq arch "386"

  abbrev pub is_arm : String → Bool
  is_arm arch = str_eq arch "arm64" || str_eq arch "arm"

  abbrev pub or_else : Option Bytes → Bytes → Bytes
  or_else none b = b
  or_else (some a) b = a

  -- The last argument is the text of `uuid.NewString`.
  unfoldable pub id : Host → Bytes → Bytes
  id h new_string = or_else (id_from_vendor_id_and_serial h) (
      or_else (if is_x86 h.arch then id_from_system_uuid h else none) (
        or_else (if is_arm h.arch then id_from_cpu_info h else none) (
          or_else (id_from_mac_addresses h.address h.net_devices)
            (if is_x86 h.arch || is_arm h.arch then new_string else []))))
