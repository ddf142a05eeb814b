-- ===== src/Seeder/Client/Neighbours.antt =====
-- The addresses at which the seeder listens, against the neighbours that it finds by address.
use das_boot.Prelude.GoMap
use das_boot.Prelude.{
  Bool, Bool-cases, List, Occurs, Option-cases, Result, Result-cases, String, [], arith, err, false,
  inl, inr, is_some, none, ok, refl, some, str_eq, true, ◌>>=◌, ◌||◌, ◌∙◌, ◌∷◌, ◌≡◌, ◌⊎◌,
}
use das_boot.Seeder.Client.Defs.{
  Client, ClientError, NeighbourMaps, absent_item, add_addresses, call,
  get_interfaces_for_neighbours, get_interfaces_for_server_neighbours, get_neighbour_switch_by_addr,
  get_neighbour_switch_by_addr_for_server, has_address, is_usable, neighbour_loop, neighbours_loop,
  nic_of, own_connections, server_type,
}
use das_boot.Seeder.Wiring.{Addr, Cluster, Connection, Interfaces, Management, PortNames, Switch}

has_address-put :
    (nic addr : String) (a : Addr) (m : GoMap.Map String)
    → is_some (GoMap.get (GoMap.put m a.string nic) addr)
      ≡ (str_eq a.string addr || is_some (GoMap.get m addr))
has_address-put nic addr a m = ground (arith, GoMap.get-put m a.string addr nic)

get-add_addresses :
    (nic addr : String) (addrs : List Addr) (m : NeighbourMaps)
    → is_some (GoMap.get (add_addresses nic addrs m).1 addr)
      ≡ (has_address addr addrs || is_some (GoMap.get m.1 addr))
unfolding add_addresses has_address
get-add_addresses nic addr [] m = refl
get-add_addresses nic addr (a ∷ rest) m = elim (Bool-cases (is_usable a)) [
  | inl usable ↦
      let m' : NeighbourMaps = (GoMap.put m.0 nic a.string, GoMap.put m.1 a.string nic) in
      ground (arith, get-add_addresses nic addr rest m', has_address-put nic addr a m.1)
  | inr other ↦ ground (arith, get-add_addresses nic addr rest m)
]

module _ (ports : PortNames) (ifs : Interfaces) where
  -- Whether some connection's interface has the address.
  abbrev pub some_has : String → List Connection → Bool
  some_has addr [] = false
  some_has addr (conn ∷ conns) =
      (elim (nic_of ports ifs conn) [
        | none ↦ false
        | some nic ↦ elim (ifs.get_interface_addresses nic) [
          | none ↦ false
          | some addrs ↦ has_address addr addrs
        ]
      ])
      || some_has addr conns

  get-neighbours_loop :
      (addr : String) (conns : List Connection) (m m' : NeighbourMaps)
      → neighbours_loop ports ifs conns m ≡ ok m'
      → is_some (GoMap.get m'.1 addr) ≡ (some_has addr conns || is_some (GoMap.get m.1 addr))
  unfolding neighbours_loop
  get-neighbours_loop addr [] m m' h = ground arith
  get-neighbours_loop addr (conn ∷ conns) m m' h = elim (Option-cases (nic_of ports ifs conn)) [
    | inl no_nic ↦ ground (arith, get-neighbours_loop addr conns m m' (ground arith))
    | inr (nic, found) ↦ elim (Option-cases (ifs.get_interface_addresses nic)) [
      | inl unread ↦ ground arith
      | inr (addrs, read) ↦
          let next = get-neighbours_loop addr conns (add_addresses nic addrs m) m' (ground arith) in
          ground (arith, next, get-add_addresses nic addr addrs m)
    ]
  ]

  module _ (cluster : Cluster) (c : Client) where
    -- The switch at the other end of one of the connections is what is found, or the error of reading it.
    abbrev pub IsEnd : List Connection → Result ClientError (Switch × Connection) → Type 0
    IsEnd conns r =
        (conn : Connection) × (m : Management) × Occurs conn conns
        × (conn.management ≡ some m)
        × (r ≡ (
            call (cluster.get_switch c.device_namespace (ports.device_name m.switch_port)) >>= λ sw.
            ok (sw, conn)))

    abbrev End : String → List Connection → Type 0
    End addr conns =
        ((some_has addr conns ≡ false)
          × (neighbour_loop ports ifs cluster c conns addr ≡ err absent_item))
        ⊎ ((some_has addr conns ≡ true)
            × IsEnd conns (neighbour_loop ports ifs cluster c conns addr))

    skip-End :
        (addr : String) (conn : Connection) (conns : List Connection)
        → neighbour_loop ports ifs cluster c (conn ∷ conns) addr
          ≡ neighbour_loop ports ifs cluster c conns addr
        → some_has addr (conn ∷ conns) ≡ some_has addr conns
        → End addr conns
        → End addr (conn ∷ conns)
    skip-End addr conn conns same same' (inl (no_, absent)) = inl (same' ∙ no_, same ∙ absent)
    skip-End addr conn conns same same' (inr (yes_, (k, m, o, managed, r))) =
        inr (same' ∙ yes_, (k, m, inr o, managed, same ∙ r))

    neighbour_loop-End :
        (addr : String) (conns : List Connection) (m m' : NeighbourMaps)
        → neighbours_loop ports ifs conns m ≡ ok m'
        → End addr conns
    unfolding neighbours_loop neighbour_loop nic_of
    neighbour_loop-End addr [] m m' h = inl (refl, refl)
    neighbour_loop-End addr (conn ∷ conns) m m' h = elim (Option-cases conn.management) [
      | inl none_ ↦
          skip-End addr conn conns (ground arith) (ground arith)
            (neighbour_loop-End addr conns m m' (ground arith))
      | inr (l, managed) ↦
          elim (Option-cases
            (ifs.get_interface (ports.local_port_name l.server_port) l.server_mac)) [
              | inl no_nic ↦
                  skip-End addr conn conns (ground arith) (ground arith)
                    (neighbour_loop-End addr conns m m' (ground arith))
              | inr (nic, found) ↦ elim (Option-cases (ifs.get_interface_addresses nic)) [
                | inl unread ↦ ground arith
                | inr (addrs, read) ↦ elim (Bool-cases (has_address addr addrs)) [
                  | inl has_ ↦ inr (ground arith, (conn, l, inl refl, managed, ground arith))
                  | inr other ↦
                      skip-End addr conn conns (ground arith) (ground arith) (
                        neighbour_loop-End addr conns (add_addresses nic addrs m) m' (ground arith))
                ]
              ]
            ]
    ]

    server_neighbours_lem :
        (m : NeighbourMaps)
        → c.device_type ≡ server_type
        → get_interfaces_for_neighbours ports ifs cluster c ≡ ok m
        → (conns : List Connection) × (own_connections ports ifs cluster c ≡ ok conns)
          × (neighbours_loop ports ifs conns ([], []) ≡ ok m)
    unfolding get_interfaces_for_neighbours get_interfaces_for_server_neighbours
    server_neighbours_lem m is_server h =
        elim (Result-cases (own_connections ports ifs cluster c)) [
          | inl (e, failed) ↦ ground arith
          | inr (conns, listed) ↦ (conns, listed, ground arith)
        ]

    server_neighbour_lem :
        (conns : List Connection) (addr : String)
        → c.device_type ≡ server_type
        → own_connections ports ifs cluster c ≡ ok conns
        → get_neighbour_switch_by_addr ports ifs cluster c addr
          ≡ neighbour_loop ports ifs cluster c conns addr
    unfolding get_neighbour_switch_by_addr get_neighbour_switch_by_addr_for_server
    server_neighbour_lem conns addr is_server h = ground arith

    -- On a server that knows the interfaces to listen on: the switch behind an address is looked up on a
    -- connection of the server exactly if the address is one of those to listen on; for any other address
    -- there is no neighbour.
    pub get_neighbour_switch_by_addr-IsEnd :
        (m : NeighbourMaps) (addr : String)
        → c.device_type ≡ server_type
        → get_interfaces_for_neighbours ports ifs cluster c ≡ ok m
        → (conns : List Connection) × (own_connections ports ifs cluster c ≡ ok conns)
          × (((is_some (GoMap.get m.1 addr) ≡ false)
                × (get_neighbour_switch_by_addr ports ifs cluster c addr ≡ err absent_item))
              ⊎ ((is_some (GoMap.get m.1 addr) ≡ true)
                  × IsEnd conns (get_neighbour_switch_by_addr ports ifs cluster c addr)))
    get_neighbour_switch_by_addr-IsEnd m addr is_server h =
        let (conns, listed, looped) = server_neighbours_lem m is_server h in
        let same = server_neighbour_lem conns addr is_server listed in
        let known = get-neighbours_loop addr conns ([], []) m looped in
        (
          conns,
          listed,
          elim (neighbour_loop-End addr conns ([], []) m looped) [
            | inl (no_, absent) ↦ inl (unfold GoMap.get in ground arith, same ∙ absent)
            | inr (yes_, (conn, l, o, managed, r)) ↦
                inr (unfold GoMap.get in ground arith, (conn, l, o, managed, same ∙ r))
          ],
        )
