-- ===== src/Seeder/Client/Ends.antt =====
-- The ends of a connection, and the device at the last end that has an address.
use mathlib.Core.Path.{subst}
use das_boot.Prelude.{
  All, Bool-cases, List, Option, Option-cases, String, [], ap, arith, eq_iff, false, if◌then◌else◌,
  inl, inr, none, refl, some, str_eq, sym, true, ◌++◌, ◌∙◌, ◌∷◌, ◌≡◌, ◌⊎◌,
}
use das_boot.Seeder.Client.Find.{fabric_device, is_address, matched_device}
use das_boot.Seeder.Wiring.{Connection, FabricLink, Management, Net, PortNames}

-- A port and its configured address.
abbrev pub link_ends : List FabricLink → List (String × String)
link_ends [] = []
link_ends (l ∷ ls) = (l.leaf_port, l.leaf_ip) ∷ ((l.spine_port, l.spine_ip) ∷ link_ends ls)

-- The switch's end of a management connection, and both ends of the links of a fabric connection.
abbrev pub ends : Connection → List (String × String)
ends conn = elim conn.management [
  | some m ↦ (m.switch_port, m.switch_ip) ∷ []
  | none ↦ elim conn.fabric [ none ↦ [] | some links ↦ link_ends links ]
]

module _ {IP : Type 0} (net : Net IP) (ports : PortNames) (addr : String) where
  -- The configured text is the address, or the address with a prefix length.
  abbrev pub IsAddress : String → Type 0
  IsAddress configured =
      (configured ≡ addr)
      ⊎ ((ip : IP) × (net.parse_cidr configured ≡ some ip) × (net.ip_string ip ≡ addr))

  abbrev pub NoneIs : List (String × String) → Type 0
  NoneIs = All (λ (e : String × String). ¬ IsAddress e.1)

  -- The device of the last end that has the address.
  abbrev pub IsDeviceOf : List (String × String) → String → Type 0
  IsDeviceOf es device =
      (before : List (String × String)) × (port : String) × (ip : String) × (after : List
        (String × String))
      × (es ≡ before ++ (port, ip) ∷ after)
      × IsAddress ip
      × NoneIs after
      × (device ≡ ports.device_name port)

  -- The connection has the address at an end, and the last such end has the device, whose name is not empty.
  abbrev pub HasAt : Connection → String → Type 0
  HasAt conn device = IsDeviceOf (ends conn) device × (¬ (device ≡ ""))

  is_address-IsAddress : (c : String) → is_address net ports c addr ≡ true → IsAddress c
  is_address-IsAddress c h = elim (Bool-cases (str_eq c addr)) [
    | inl same ↦ inl ((eq_iff c addr).0 same)
    | inr other ↦ elim (Option-cases (net.parse_cidr c)) [
      | inl unread ↦ ground arith
      | inr (ip, parsed) ↦ inr (ip, parsed, (eq_iff (net.ip_string ip) addr).0 (ground arith))
    ]
  ]

  IsAddress-is_address : (c : String) → IsAddress c → is_address net ports c addr ≡ true
  IsAddress-is_address c (inl same) = let e = (eq_iff c addr).1 same in ground arith
  IsAddress-is_address c (inr (ip, parsed, same)) =
      let e = (eq_iff (net.ip_string ip) addr).1 same in ground arith

  -- The loop over the ends.
  last_device : List (String × String) → String → String
  last_device [] found = found
  last_device ((port, ip) ∷ es) found =
      last_device es (if is_address net ports ip addr then ports.device_name port else found)

  fabric_device-last_device :
      (links : List FabricLink) (found : String)
      → fabric_device net ports links addr found ≡ last_device (link_ends links) found
  unfolding fabric_device last_device
  fabric_device-last_device [] found = refl
  fabric_device-last_device (l ∷ links) found = fabric_device-last_device links _

  last_device_of :
      (name : String) (m : Option Management) (f : Option (List FabricLink))
      → matched_device net ports addr (record { name = name; management = m; fabric = f })
        ≡ last_device (ends (record { name = name; management = m; fabric = f })) ""
  unfolding matched_device last_device
  last_device_of name (some m) f = refl
  last_device_of name none none = refl
  last_device_of name none (some links) = fabric_device-last_device links ""

  matched_device-last_device :
      (conn : Connection) → matched_device net ports addr conn ≡ last_device (ends conn) ""
  matched_device-last_device conn = last_device_of conn.name conn.management conn.fabric

  last_device-none :
      (es : List (String × String)) (found : String) → NoneIs es → last_device es found ≡ found
  unfolding last_device
  last_device-none [] found h = refl
  last_device-none ((port, ip) ∷ es) found (other, h) =
      elim (Bool-cases (is_address net ports ip addr)) [
        | inl is ↦ absurd (other (is_address-IsAddress ip is))
        | inr n ↦ rw n (last_device-none es found h)
      ]

  last_device-at :
      (before : List (String × String)) (port ip : String) (after : List (String × String))
      (found : String)
      → IsAddress ip
      → NoneIs after
      → last_device (before ++ (port, ip) ∷ after) found ≡ ports.device_name port
  unfolding last_device
  last_device-at [] port ip after found is rest =
      ap (λ b. last_device after (if b then ports.device_name port else found))
        (IsAddress-is_address ip is)
      ∙ last_device-none after _ rest
  last_device-at (b ∷ before) port ip after found is rest =
      last_device-at before port ip after _ is rest

  -- Either no end has the address, or there is a last one.
  last_device-cases :
      (es : List (String × String)) → NoneIs es ⊎ ((device : String) × IsDeviceOf es device)
  last_device-cases [] = inl tt
  last_device-cases ((port, ip) ∷ es) = elim (last_device-cases es) [
    | inr (device, (before, p, i, after, e, is, rest, d)) ↦
        inr (device, ((port, ip) ∷ before, p, i, after, ap (◌∷◌ (port, ip)) e, is, rest, d))
    | inl rest ↦ elim (Bool-cases (is_address net ports ip addr)) [
      | inl is ↦
          inr (
            ports.device_name port,
            ([], port, ip, es, refl, is_address-IsAddress ip is, rest, refl),
          )
      | inr n ↦ inl (λ is. let e = IsAddress-is_address ip is in ground arith, rest)
    ]
  ]

  matched_device-of :
      (conn : Connection) (device : String)
      → IsDeviceOf (ends conn) device
      → matched_device net ports addr conn ≡ device
  matched_device-of conn device (before, port, ip, after, e, is, rest, d) =
      matched_device-last_device conn
      ∙ ap (λ es. last_device es "") e
      ∙ last_device-at before port ip after "" is rest
      ∙ sym d

  pub unmatched-HasAt :
      (conn : Connection)
      → str_eq (matched_device net ports addr conn) "" ≡ true
      → ¬ ((device : String) × HasAt conn device)
  unmatched-HasAt conn h (device, (at, named)) = named (
      sym (matched_device-of conn device at) ∙ (eq_iff (matched_device net ports addr conn) "").0 h)

  pub matched-HasAt :
      (conn : Connection)
      → str_eq (matched_device net ports addr conn) "" ≡ false
      → HasAt conn (matched_device net ports addr conn)
  matched-HasAt conn h =
      let named : ¬ (matched_device net ports addr conn ≡ "") =
        λ e. let f = (eq_iff (matched_device net ports addr conn) "").1 e in ground arith in
      elim (last_device-cases (ends conn)) [
        | inl none_ ↦
            absurd (named (matched_device-last_device conn ∙ last_device-none (ends conn) "" none_))
        | inr (device, at) ↦
            (subst (IsDeviceOf (ends conn)) (sym (matched_device-of conn device at)) at, named)
      ]
