-- ===== src/Seeder/Client/Lookup.antt =====
-- Switches found by a configured address, and by the UUID of a location.
use das_boot.Prelude.{
  All, Bool-cases, List, Result, Result-cases, String, [], ap, arith, err, false, inl, inr, none,
  ok, refl, str_eq, true, ◌++◌, ◌>>=◌, ◌↔◌, ◌∙◌, ◌∷◌, ◌≡◌, ◌⊎◌,
}
use das_boot.Kube.{ApiError}
use das_boot.Seeder.Client.Defs.{Client, ClientError, absent_item, api_failed, call}
use das_boot.Seeder.Client.Ends.{HasAt, matched-HasAt, unmatched-HasAt}
use das_boot.Seeder.Client.Find.{
  by_addr_loop, get_switch_by_addr, get_switch_by_location_uuid, matched_device, the_only,
}
use das_boot.Seeder.Wiring.{Cluster, Connection, Net, PortNames, Switch}

module _ {IP : Type 0} (net : Net IP) (ports : PortNames) (cluster : Cluster) (c : Client) where
  -- No connection has the address at an end whose device has a name, the last end with the address being
  -- the one that counts.
  abbrev pub Unmatched : String → List Connection → Type 0
  Unmatched addr =
      All (λ (conn : Connection). ¬ ((device : String) × HasAt net ports addr conn device))

  -- The first connection that has the address, at an end of the device.
  abbrev pub IsFirst : List Connection → String → Connection → String → Type 0
  IsFirst conns addr conn device =
      (before : List Connection) × (after : List Connection) × (conns ≡ before ++ conn ∷ after)
      × Unmatched addr before
      × HasAt net ports addr conn device

  -- The switch of the device, with the connection.
  abbrev pub switch_of : String → Connection → Result ClientError (Switch × Connection)
  switch_of device conn =
      call (cluster.get_switch c.device_namespace device) >>= λ sw. ok (sw, conn)

  IsFirst-cons :
      (conn first : Connection) (conns : List Connection) (addr device : String)
      → (¬ ((d : String) × HasAt net ports addr conn d))
      → IsFirst conns addr first device
      → IsFirst (conn ∷ conns) addr first device
  IsFirst-cons conn first conns addr device h (before, after, e, unmatched, matched) =
      (conn ∷ before, after, ap (◌∷◌ conn) e, (h, unmatched), matched)

  Ends : List Connection → String → Result ClientError (Switch × Connection) → Type 0
  Ends conns addr r =
      (Unmatched addr conns × (r ≡ err absent_item))
      ⊎ ((conn : Connection) × (device : String) × IsFirst conns addr conn device
          × (r ≡ switch_of device conn))

  loop_past :
      (conn : Connection) (conns : List Connection) (addr : String)
      → str_eq (matched_device net ports addr conn) "" ≡ true
      → by_addr_loop net ports cluster c (conn ∷ conns) addr
        ≡ by_addr_loop net ports cluster c conns addr
  unfolding by_addr_loop
  loop_past conn conns addr h = ground arith

  loop_at :
      (conn : Connection) (conns : List Connection) (addr : String)
      → str_eq (matched_device net ports addr conn) "" ≡ false
      → by_addr_loop net ports cluster c (conn ∷ conns) addr
        ≡ switch_of (matched_device net ports addr conn) conn
  unfolding by_addr_loop
  loop_at conn conns addr h = ground arith

  by_addr_loop-Ends :
      (conns : List Connection) (addr : String)
      → Ends conns addr (by_addr_loop net ports cluster c conns addr)
  unfolding Ends
  by_addr_loop-Ends [] addr = inl (tt, unfold by_addr_loop in refl)
  by_addr_loop-Ends (conn ∷ conns) addr =
      elim (Bool-cases (str_eq (matched_device net ports addr conn) "")) [
        | inl unmatched ↦
            let past = loop_past conn conns addr unmatched in
            let none_here = unmatched-HasAt net ports addr conn unmatched in
            elim (by_addr_loop-Ends conns addr) [
              | inl (none_, absent) ↦ inl ((none_here, none_), past ∙ absent)
              | inr (k, device, first, r) ↦
                  inr (k, device, IsFirst-cons conn k conns addr device none_here first, past ∙ r)
            ]
        | inr matched ↦ inr (
          conn,
          matched_device net ports addr conn,
          ([], conns, refl, tt, matched-HasAt net ports addr conn matched),
          loop_at conn conns addr matched,
        )
      ]

  -- `GetSwitchByAddr` looks up the switch of the first connection, in the order of the list, that has
  -- the address at an end, with or without a prefix length: the switch's end of a management connection, the
  -- leaf's or the spine's of a link of a fabric connection. The last such end of the connection gives the
  -- device, and a connection for which its name is empty is passed over. Without such a connection, it is the
  -- error "not found", and the error of listing the connections is passed on.
  pub get_switch_by_addr-IsFirst :
      (addr : String)
      → ((e : ApiError) × (cluster.list_connections ≡ err e)
          × (get_switch_by_addr net ports cluster c addr ≡ err (api_failed e)))
        ⊎ ((conns : List Connection) × (cluster.list_connections ≡ ok conns)
            × ((Unmatched addr conns
                  × (get_switch_by_addr net ports cluster c addr ≡ err absent_item))
                ⊎ ((conn : Connection) × (device : String) × IsFirst conns addr conn device
                    × (get_switch_by_addr net ports cluster c addr ≡ switch_of device conn))))
  unfolding get_switch_by_addr Ends
  get_switch_by_addr-IsFirst addr = elim (Result-cases cluster.list_connections) [
    | inl (e, failed) ↦ inl (e, failed, ground arith)
    | inr (conns, listed) ↦
        let same : get_switch_by_addr net ports cluster c addr
            ≡ by_addr_loop net ports cluster c conns addr =
          ground arith in
        inr (
          conns,
          listed,
          elim (by_addr_loop-Ends conns addr) [
            | inl (none_, absent) ↦ inl (none_, same ∙ absent)
            | inr (conn, device, first, r) ↦ inr (conn, device, first, same ∙ r)
          ],
        )
  ]

the_only_iff :
    (r : Result ApiError (List Switch)) (sw : Switch)
    → ((call r >>= the_only) ≡ ok sw) ↔ (r ≡ ok (sw ∷ []))
the_only_iff (err e) sw = ground arith
the_only_iff (ok []) sw = ground arith
the_only_iff (ok (x ∷ [])) sw = ground arith
the_only_iff (ok (x ∷ y ∷ l)) sw = ground arith

-- `GetSwitchByLocationUUID` succeeds exactly if there is one switch with the label, and then with it.
pub get_switch_by_location_uuid_iff :
    (cluster : Cluster) (uuid : String) (sw : Switch)
    → (get_switch_by_location_uuid cluster uuid ≡ ok sw)
      ↔ (cluster.list_switches uuid none ≡ ok (sw ∷ []))
unfolding get_switch_by_location_uuid
get_switch_by_location_uuid_iff cluster uuid sw = the_only_iff (cluster.list_switches uuid none) sw
