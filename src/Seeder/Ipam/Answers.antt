-- ===== src/Seeder/Ipam/Answers.antt =====
-- Which interfaces an answer of `ProcessRequest` configures, and how.
use das_boot.Prelude.GoMap
use das_boot.Prelude.{
  All, Bool-cases, List, Option, Option-cases, Result-cases, String, [], ap, arith, false,
  if◌then◌else◌, inl, inr, is_some, none, ok, refl, some, str_eq, true, ◌∙◌, ◌∷◌, ◌≡◌, ◌⊎◌,
}
use das_boot.Prelude.Text.{has_suffix}
use das_boot.Seeder.Addresses.{ensure_ip_has_cidr, ensure_ip_has_no_cidr}
use das_boot.Seeder.Ipam.Defs.{
  IpAddress, Request, Response, Settings, address_loop, address_of, connections_for, is_served,
  is_adjacent, is_supported_arch, process_request,
}
use das_boot.Seeder.Ipam.Serving.{Found, IsLast, NoneServes, last_serving, last_serving-Found}
use mathlib.Core.Path.{subst}
use das_boot.Seeder.Wiring.{Cluster, Connection, Management, Net, Switch}

module _ {IP : Type 0} (net : Net IP) (settings : Settings) (interfaces : List String)
    (adjacent : Option Connection) where
  -- The entry of an interface, after the loop over the connections.
  abbrev Made : String → List Connection → Option IpAddress → Option IpAddress → Type 0
  Made name conns old new =
      ((last_serving interfaces name conns ≡ none) × (new ≡ old))
      ⊎ ((conn : Connection) × (m : Management) × (a : IpAddress) × (last_serving interfaces name
              conns
            ≡ some (conn, m))
          × (address_of net settings interfaces adjacent conn m ≡ ok a)
          × (new ≡ some a))

  past_entry :
      (name : String) (conn : Connection) (conns : List Connection) (old new : Option IpAddress)
      → last_serving interfaces name (conn ∷ conns) ≡ last_serving interfaces name conns
      → Made name conns old new
      → Made name (conn ∷ conns) old new
  past_entry name conn conns old new same (inl (none_, kept)) = inl (same ∙ none_, kept)
  past_entry name conn conns old new same (inr (k, m, a, last, made, is)) =
      inr (k, m, a, same ∙ last, made, is)

  at_entry :
      (name : String) (conn : Connection) (m : Management) (a : IpAddress) (conns : List Connection)
      (old mid new : Option IpAddress)
      → conn.management ≡ some m
      → is_served interfaces m ≡ true
      → address_of net settings interfaces adjacent conn m ≡ ok a
      → mid ≡ (if str_eq m.onie_port_name name then some a else old)
      → Made name conns mid new
      → Made name (conn ∷ conns) old new
  at_entry name conn m a conns old mid new managed served made is_mid (inl (none_, kept)) =
      elim (Bool-cases (str_eq m.onie_port_name name)) [
        | inl same ↦ inr (conn, m, a, ground arith, made, ground arith)
        | inr other ↦ inl (ground arith, ground arith)
      ]
  at_entry name conn m a conns old mid new managed served made is_mid
        (inr (k, l, b, last, made', is)) =
      inr (k, l, b, ground arith, made', is)

  address_loop-Made :
      (name : String) (conns : List Connection) (ips ips' : GoMap.Map IpAddress)
      → address_loop net settings interfaces adjacent conns ips ≡ ok ips'
      → Made name conns (GoMap.get ips name) (GoMap.get ips' name)
  unfolding address_loop
  address_loop-Made name [] ips ips' h = inl (refl, ground arith)
  address_loop-Made name (conn ∷ conns) ips ips' h = elim (Option-cases conn.management) [
    | inl none_ ↦
        past_entry name conn conns _ _ (ground arith)
          (address_loop-Made name conns ips ips' (ground arith))
    | inr (m, managed) ↦ elim (Bool-cases (is_served interfaces m)) [
      | inr unserved ↦
          past_entry name conn conns _ _ (ground arith)
            (address_loop-Made name conns ips ips' (ground arith))
      | inl served ↦ elim (Result-cases (address_of net settings interfaces adjacent conn m)) [
        | inl (e, failed) ↦ ground arith
        | inr (a, made) ↦
            at_entry name conn m a conns _ _ _ managed served made
              (GoMap.get-put ips m.onie_port_name name a)
              (address_loop-Made name conns (GoMap.put ips m.onie_port_name a) ips' (ground arith))
      ]
    ]
  ]

  -- The entry of an interface: the last connection that serves it gives its switch's address, and a route to
  -- the control VIP over its server.
  abbrev pub Entry : String → List Connection → Option IpAddress → Type 0
  Entry name conns new =
      (NoneServes interfaces name conns × (new ≡ none))
      ⊎ ((conn : Connection) × (m : Management) × (server : String) × (vip : String) × IsLast
            interfaces name conns conn m
          × (ensure_ip_has_no_cidr net m.server_ip ≡ some server)
          × (ensure_ip_has_cidr net settings.control_vip ≡ some vip)
          × (new
              ≡ some (record {
                ip_addresses = m.switch_ip ∷ [];
                vlan = 0;
                routes = record { destinations = vip ∷ []; gateway = server; flags = 0 } ∷ [];
                preferred = is_adjacent adjacent conn;
              })))

  address_of-ok :
      (conn : Connection) (m : Management) (a : IpAddress)
      → address_of net settings interfaces adjacent conn m ≡ ok a
      → (server : String) × (vip : String) × (ensure_ip_has_no_cidr net m.server_ip ≡ some server)
        × (ensure_ip_has_cidr net settings.control_vip ≡ some vip)
        × (a ≡ record {
          ip_addresses = m.switch_ip ∷ [];
          vlan = 0;
          routes = record { destinations = vip ∷ []; gateway = server; flags = 0 } ∷ [];
          preferred = is_adjacent adjacent conn;
        })
  unfolding address_of
  address_of-ok conn m a h = elim (Option-cases (ensure_ip_has_no_cidr net m.server_ip)) [
    | inl bad ↦ ground arith
    | inr (server, has_server) ↦ elim (Option-cases (ensure_ip_has_cidr net settings.control_vip)) [
      | inl bad ↦ ground arith
      | inr (vip, has_vip) ↦ (server, vip, has_server, has_vip, ground arith)
    ]
  ]

  Made-Entry :
      (name : String) (conns : List Connection) (new : Option IpAddress)
      → Made name conns none new
      → Entry name conns new
  Made-Entry name conns new (inl (none_, kept)) =
      inl
        (subst (Found interfaces name conns) none_ (last_serving-Found interfaces name conns), kept)
  Made-Entry name conns new (inr (conn, m, a, last, made, is)) =
      let (server, vip, has_server, has_vip, a_is) = address_of-ok conn m a made in
      inr (
        conn,
        m,
        server,
        vip,
        subst (Found interfaces name conns) last (last_serving-Found interfaces name conns),
        has_server,
        has_vip,
        is ∙ ap some a_is,
      )

module _ {IP : Type 0} (net : Net IP) (cluster : Cluster) (settings : Settings) (r : Request)
    (adjacent_switch : Option Switch) (adjacent : Option Connection) where
  loop_of :
      (resp : Response)
      → process_request net cluster settings r adjacent_switch adjacent ≡ ok resp
      → (is_supported_arch r.arch ≡ true)
        × (has_suffix settings.stage1_url r.arch ≡ true)
        × (resp.stage1_url ≡ settings.stage1_url)
        × (conns : List Connection) × (connections_for cluster r adjacent_switch ≡ ok conns)
        × (address_loop net settings r.interfaces adjacent conns [] ≡ ok resp.ip_addresses)
  unfolding process_request
  loop_of resp h = elim (Result-cases (connections_for cluster r adjacent_switch)) [
    | inl (e, failed) ↦ ground arith
    | inr (conns, listed) ↦
        elim (Result-cases (address_loop net settings r.interfaces adjacent conns [])) [
          | inl (e, failed) ↦ ground arith
          | inr (ips, made) ↦
              (ground arith, ground arith, ground arith, conns, listed, ground arith)
        ]
  ]

  -- An answer is only given for a supported architecture and a stage 1 URL that ends in it. It has an
  -- entry for an interface exactly if a management connection of the switch has it as its ONIE port, the
  -- port was requested, its name is not empty and the switch's address is configured. The last such
  -- connection makes the entry: its address, and a route to the control VIP over its server's address.
  pub process_request-Entry :
      (resp : Response) (name : String)
      → process_request net cluster settings r adjacent_switch adjacent ≡ ok resp
      → (is_supported_arch r.arch ≡ true)
        × (has_suffix settings.stage1_url r.arch ≡ true)
        × (resp.stage1_url ≡ settings.stage1_url)
        × (conns : List Connection) × (connections_for cluster r adjacent_switch ≡ ok conns)
        × Entry net settings r.interfaces adjacent name conns (GoMap.get resp.ip_addresses name)
  process_request-Entry resp name h =
      let (supported, suffix, url, conns, listed, made) = loop_of resp h in
      (
        supported,
        suffix,
        url,
        conns,
        listed,
        Made-Entry net settings r.interfaces adjacent name conns _ (
            unfold GoMap.get in
            address_loop-Made net settings r.interfaces adjacent name conns [] resp.ip_addresses
              made),
      )

module _ {IP : Type 0} (net : Net IP) (settings : Settings) (interfaces : List String) where
  -- The connection is none that is served, or its server has an address.
  abbrev pub HasServer : Connection → Type 0
  HasServer conn =
      (conn.management ≡ none)
      ⊎ ((m : Management) × (conn.management ≡ some m)
          × ((is_served interfaces m ≡ false)
              ⊎ (is_some (ensure_ip_has_no_cidr net m.server_ip) ≡ true)))

  address_of-total :
      (adjacent : Option Connection) (conn : Connection) (m : Management)
      → is_some (ensure_ip_has_cidr net settings.control_vip) ≡ true
      → is_some (ensure_ip_has_no_cidr net m.server_ip) ≡ true
      → (a : IpAddress) × (address_of net settings interfaces adjacent conn m ≡ ok a)
  unfolding address_of
  address_of-total adjacent conn m vip server =
      elim (Option-cases (ensure_ip_has_cidr net settings.control_vip)) [
        | inl no_vip ↦ ground arith
        | inr (v, has_vip) ↦ elim (Option-cases (ensure_ip_has_no_cidr net m.server_ip)) [
          | inl no_server ↦ ground arith
          | inr (s, has_server) ↦ rw (has_vip, has_server) (_, refl)
        ]
      ]

  address_loop-total :
      (adjacent : Option Connection) (conns : List Connection) (ips : GoMap.Map IpAddress)
      → is_some (ensure_ip_has_cidr net settings.control_vip) ≡ true
      → All HasServer conns
      → (ips' : GoMap.Map IpAddress) × (address_loop net settings interfaces adjacent conns ips
          ≡ ok ips')
  unfolding address_loop
  address_loop-total adjacent [] ips vip servers = (ips, refl)
  address_loop-total adjacent (conn ∷ conns) ips vip (inl none_, servers) =
      let (ips', rest) = address_loop-total adjacent conns ips vip servers in (ips', ground arith)
  address_loop-total adjacent (conn ∷ conns) ips vip (inr (m, managed, inl unserved), servers) =
      let (ips', rest) = address_loop-total adjacent conns ips vip servers in (ips', ground arith)
  address_loop-total adjacent (conn ∷ conns) ips vip (inr (m, managed, inr server), servers) =
      let (a, made) = address_of-total adjacent conn m vip server in
      let (ips₁, rest₁) = address_loop-total adjacent conns ips vip servers in
      let (ips₂, rest₂) =
        address_loop-total adjacent conns (GoMap.put ips m.onie_port_name a) vip servers in
      elim (Bool-cases (is_served interfaces m)) [
        | inl served ↦ (ips₂, ground arith)
        | inr unserved ↦ (ips₁, ground arith)
      ]

  -- `ProcessRequest` gives an answer whenever the architecture is supported and ends the stage 1 URL, the
  -- connections are found, the control VIP is an address and every connection that is to be served has
  -- an address of its server.
  pub process_request-total :
      (cluster : Cluster) (r : Request) (adjacent_switch : Option Switch)
      (adjacent : Option Connection) (conns : List Connection)
      → r.interfaces ≡ interfaces
      → is_supported_arch r.arch ≡ true
      → has_suffix settings.stage1_url r.arch ≡ true
      → connections_for cluster r adjacent_switch ≡ ok conns
      → is_some (ensure_ip_has_cidr net settings.control_vip) ≡ true
      → All HasServer conns
      → (resp : Response) × (process_request net cluster settings r adjacent_switch adjacent
          ≡ ok resp)
  unfolding process_request
  process_request-total cluster r adjacent_switch adjacent conns of_r arch suffix listed vip
        servers =
      let (ips, made) = address_loop-total adjacent conns [] vip servers in
      rw (arch, suffix, listed, of_r, made) (_, refl)
