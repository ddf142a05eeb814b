-- ===== src/Stage0/Reset.antt =====
-- What a run that fails leaves of the network.
use mathlib.Core.Path.{subst}
use das_boot.Prelude.{
  Bool-cases, List, Option, Option-cases, String, [], ap, append-nil, arith, false, if◌then◌else◌,
  inl, inr, ltb, none, ok, some, str_eq, sym, true, ℕ, ◌++◌, ◌∙◌, ◌∷◌, ◌≡◌,
}
use das_boot.Network.Configure.{Route}
use das_boot.Network.Netlink.{IpNet, Link, NetCall, NetError, Netlink, Trace, link_del}
use das_boot.Network.Plans.{undo}
use das_boot.Network.Undone.{delete_vlan_device-run_all, unconfigure_device_with_ip-run_all}
use das_boot.Network.Configure.{delete_vlan_device, unconfigure_device_with_ip}
use das_boot.Seeder.Ipam.{IpAddress, Response}
use das_boot.Stage0.Defs.{
  Addresses, Services, Stage0Error, configure_network, converted, fetch, reset_network,
  run_configured, run_with, vlan_name,
}

-- The interface that is reset, and what the deletion of a VLAN adds.
abbrev pub reset_name : String → ℕ → String
reset_name netdev vlan = if ltb 0 vlan then vlan_name else netdev

-- The calls that undo a configuration of the interface that is there, if any. The deletion of a VLAN does
-- nothing to an interface of another kind.
abbrev pub reset_calls : Option Link → ℕ → List IpNet → List Route → List NetCall
reset_calls none vlan nets routes = []
reset_calls (some link) vlan nets routes =
    if ltb 0 vlan
    then if str_eq link.kind "vlan"
      then undo link.index nets routes ++ link_del link.index ∷ []
      else []
    else undo link.index nets routes

module _ (nl : Netlink) (svc : Services) (conv : Addresses) (resp : Response) where
  run_configured-reset :
      (reset : Trace → List NetError × Trace) (m : Option NetError × Trace) (e : Stage0Error)
      (t' : Trace)
      → run_configured nl svc conv resp reset m ≡ (some e, t')
      → t' ≡ (reset m.1).1
  unfolding run_configured
  run_configured-reset reset (some f, t) e t' h = ground arith
  run_configured-reset reset (none, t) e t' h = elim (Option-cases (fetch nl svc conv resp t)) [
    | inl fine ↦ ground arith
    | inr (f, failed) ↦ ground arith
  ]

  run_with-reset :
      (netdev : String) (ipa : IpAddress) (nets : List IpNet) (routes : List Route) (t t' : Trace)
      (e : Stage0Error)
      → converted conv ipa ≡ ok (nets, routes)
      → run_with nl svc conv resp netdev ipa t ≡ (some e, t')
      → t'
        ≡ (reset_network nl netdev ipa.vlan nets routes
            (configure_network nl netdev ipa.vlan nets routes t).1).1
  unfolding run_with
  run_with-reset netdev ipa nets routes t t' e conversion ran =
      run_configured-reset (reset_network nl netdev ipa.vlan nets routes)
        (configure_network nl netdev ipa.vlan nets routes t) e t' (ground arith)

  delete_vlan_device-other :
      (device : String) (nets : List IpNet) (routes : List Route) (t : Trace) (link : Link)
      → nl.link_by_name t device ≡ some link
      → str_eq link.kind "vlan" ≡ false
      → (delete_vlan_device nl device nets routes t).1 ≡ t
  unfolding delete_vlan_device
  delete_vlan_device-other device nets routes t link found other = ground arith

  delete_vlan_device-missing :
      (device : String) (nets : List IpNet) (routes : List Route) (t : Trace)
      → nl.link_by_name t device ≡ none
      → (delete_vlan_device nl device nets routes t).1 ≡ t
  unfolding delete_vlan_device
  delete_vlan_device-missing device nets routes t h = ground arith

  unconfigure_device_with_ip-missing :
      (device : String) (nets : List IpNet) (routes : List Route) (t : Trace)
      → nl.link_by_name t device ≡ none
      → (unconfigure_device_with_ip nl device nets routes t).1 ≡ t
  unfolding unconfigure_device_with_ip
  unconfigure_device_with_ip-missing device nets routes t h = ground arith

  delete_vlan_device-calls :
      (device : String) (nets : List IpNet) (routes : List Route) (vlan : ℕ) (t : Trace)
      → ltb 0 vlan ≡ true
      → (delete_vlan_device nl device nets routes t).1
        ≡ t ++ reset_calls (nl.link_by_name t device) vlan nets routes
  delete_vlan_device-calls device nets routes vlan t tagged =
      elim (Option-cases (nl.link_by_name t device)) [
        | inl missing_ ↦
            rw missing_
              (delete_vlan_device-missing device nets routes t missing_ ∙ sym (append-nil t))
        | inr (link, found) ↦ elim (Bool-cases (str_eq link.kind "vlan")) [
          | inl is_vlan ↦
              rw (found, tagged, is_vlan)
                (ap (λ m. m.1)
                  (delete_vlan_device-run_all nl device nets routes t link found is_vlan))
          | inr other ↦
              rw (found, tagged, other)
                (delete_vlan_device-other device nets routes t link found other
                  ∙ sym (append-nil t))
        ]
      ]

  unconfigure_device_with_ip-calls :
      (device : String) (nets : List IpNet) (routes : List Route) (vlan : ℕ) (t : Trace)
      → ltb 0 vlan ≡ false
      → (unconfigure_device_with_ip nl device nets routes t).1
        ≡ t ++ reset_calls (nl.link_by_name t device) vlan nets routes
  unconfigure_device_with_ip-calls device nets routes vlan t plain =
      elim (Option-cases (nl.link_by_name t device)) [
        | inl missing_ ↦
            rw missing_ (
              unconfigure_device_with_ip-missing device nets routes t missing_ ∙ sym (append-nil t))
        | inr (link, found) ↦
            rw (found, plain)
              (ap (λ m. m.1)
                (unconfigure_device_with_ip-run_all nl device nets routes t link found))
      ]

  reset_network-calls :
      (netdev : String) (vlan : ℕ) (nets : List IpNet) (routes : List Route) (t : Trace)
      → (reset_network nl netdev vlan nets routes t).1
        ≡ t ++ reset_calls (nl.link_by_name t (reset_name netdev vlan)) vlan nets routes
  unfolding reset_network
  reset_network-calls netdev vlan nets routes t = elim (Bool-cases (ltb 0 vlan)) [
    | inl tagged ↦
        subst
          (λ b.
            (if b
              then delete_vlan_device nl vlan_name nets routes t
              else unconfigure_device_with_ip nl netdev nets routes t).1
            ≡ t
              ++ reset_calls (nl.link_by_name t (if b then vlan_name else netdev)) vlan nets routes)
          (sym tagged) (delete_vlan_device-calls vlan_name nets routes vlan t tagged)
    | inr plain ↦
        subst
          (λ b.
            (if b
              then delete_vlan_device nl vlan_name nets routes t
              else unconfigure_device_with_ip nl netdev nets routes t).1
            ≡ t
              ++ reset_calls (nl.link_by_name t (if b then vlan_name else netdev)) vlan nets routes)
          (sym plain) (unconfigure_device_with_ip-calls netdev nets routes vlan t plain)
  ]

  -- A run that fails after the addresses were read, at the configuration, the clock or the download, ends
  -- with the calls that undo the whole configuration of the interface that is there then, the device
  -- "control" where there is a VLAN. For a VLAN that device is deleted as well, and nothing is undone if it
  -- is no VLAN device. Nothing is undone if the interface is not there.
  pub run_with-IsReset :
      (netdev : String) (ipa : IpAddress) (nets : List IpNet) (routes : List Route) (t t' : Trace)
      (e : Stage0Error)
      → converted conv ipa ≡ ok (nets, routes)
      → run_with nl svc conv resp netdev ipa t ≡ (some e, t')
      → t'
        ≡ (configure_network nl netdev ipa.vlan nets routes t).1
          ++ reset_calls
              (nl.link_by_name
                (configure_network nl netdev ipa.vlan nets routes t).1
                (reset_name netdev ipa.vlan))
              ipa.vlan
              nets
              routes
  run_with-IsReset netdev ipa nets routes t t' e conversion ran =
      run_with-reset netdev ipa nets routes t t' e conversion ran
      ∙ reset_network-calls netdev ipa.vlan nets routes
          (configure_network nl netdev ipa.vlan nets routes t).1
