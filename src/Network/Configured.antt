-- ===== src/Network/Configured.antt =====
-- What configuring an interface calls, in which order.
use mathlib.Core.Path.{ap, subst}
use das_boot.Prelude.{
  Bool-cases, List, Option, String, [], arith, false, inl, inr, refl, some, str_eq, sym, then_write,
  ℕ, ◌++◌, ◌∙◌, ◌∷◌, ◌≡◌,
}
use das_boot.Network.Configure.{
  Route, add_vlan_device_with_ip, configure_device_with_ip, delete_vlan_device, set_up,
  set_up_added, unconfigure_device_with_ip,
}
use das_boot.Network.Netlink.{IpNet, Link, NetCall, NetError, Netlink, Trace, call, link_add_vlan}
use das_boot.Network.Plans.{
  IsPerformed, plan, run_until, run_until-IsPerformed, set_up-run_until, undo,
}
use das_boot.Network.Undone.{unconfigure_device_with_ip-run_all}

module _ (nl : Netlink) where
  set_up-IsPerformed :
      (index : ℕ) (nets : List IpNet) (routes : List Route) (t : Trace)
      (m : Option NetError × Trace)
      → m ≡ set_up nl index nets routes t
      → IsPerformed nl (plan index nets routes) t m.0 m.1
  set_up-IsPerformed index nets routes t m same =
      subst (λ m. IsPerformed nl (plan index nets routes) t m.0 m.1)
        (sym (same ∙ set_up-run_until nl index nets routes t))
        (run_until-IsPerformed nl (plan index nets routes) t)

  configure_device_with_ip-found :
      (device : String) (nets : List IpNet) (routes : List Route) (t t' : Trace) (link : Link)
      → (unconfigure_device_with_ip nl device nets routes t).1 ≡ t'
      → nl.link_by_name t' device ≡ some link
      → configure_device_with_ip nl device nets routes t ≡ set_up nl link.index nets routes t'
  unfolding configure_device_with_ip
  configure_device_with_ip-found device nets routes t t' link undone found = ground arith

  -- Configuring an interface that is there: whatever was left of a configuration is undone, every route
  -- and then every address, no matter which of these calls fail; then, if the interface is still there,
  -- the addresses, the link and the routes are set up in this order, up to the first call that fails.
  pub configure_device_with_ip-IsPerformed :
      (device : String) (nets : List IpNet) (routes : List Route) (t : Trace) (link link' : Link)
      → nl.link_by_name t device ≡ some link
      → nl.link_by_name (t ++ undo link.index nets routes) device ≡ some link'
      → IsPerformed nl
          (plan link'.index nets routes)
          (t ++ undo link.index nets routes)
          (configure_device_with_ip nl device nets routes t).0
          (configure_device_with_ip nl device nets routes t).1
  configure_device_with_ip-IsPerformed device nets routes t link link' found again =
      set_up-IsPerformed link'.index nets routes (t ++ undo link.index nets routes) _ (
        configure_device_with_ip-found device nets routes t _ link'
          (ap (λ m. m.1) (unconfigure_device_with_ip-run_all nl device nets routes t link found))
          again)

  add_vlan_device_with_ip-not_vlan :
      (device : String) (vid : ℕ) (vlan_name : String) (nets : List IpNet) (routes : List Route)
      (t : Trace) (parent : Link)
      → nl.link_by_name t device ≡ some parent
      → str_eq parent.kind "vlan" ≡ false
      → add_vlan_device_with_ip nl device vid vlan_name nets routes t
        ≡ then_write
            (call nl (link_add_vlan vlan_name parent.index vid) t)
            (set_up_added nl vlan_name nets routes)
  unfolding add_vlan_device_with_ip delete_vlan_device
  add_vlan_device_with_ip-not_vlan device vid vlan_name nets routes t parent found other =
      ground arith

  -- The list of calls that follows the addition of a VLAN device.
  abbrev pub vlan_plan : String → ℕ → Link → List IpNet → List Route → Trace → List NetCall
  vlan_plan vlan_name vid parent nets routes t =
      let add = link_add_vlan vlan_name parent.index vid in
      add ∷ plan (nl.added_index (t ++ add ∷ []) vlan_name) nets routes

  add_vlan_device_with_ip-run_until :
      (device : String) (vid : ℕ) (vlan_name : String) (nets : List IpNet) (routes : List Route)
      (t : Trace) (parent : Link)
      → nl.link_by_name t device ≡ some parent
      → str_eq parent.kind "vlan" ≡ false
      → add_vlan_device_with_ip nl device vid vlan_name nets routes t
        ≡ run_until nl (vlan_plan vlan_name vid parent nets routes t) t
  unfolding set_up_added
  add_vlan_device_with_ip-run_until device vid vlan_name nets routes t parent found other =
      let add = link_add_vlan vlan_name parent.index vid in
      let added =
        set_up-run_until nl (nl.added_index (t ++ add ∷ []) vlan_name) nets routes
          (t ++ add ∷ []) in
      add_vlan_device_with_ip-not_vlan device vid vlan_name nets routes t parent found other
      ∙ elim (Bool-cases (nl.fails t add)) [ inl bad ↦ rw bad refl | inr fine ↦ rw fine added ]

  -- On a parent that is no VLAN device itself, a VLAN device is added and set up, up to the first call
  -- that fails. Nothing is deleted before: a VLAN device of that name that is left of an earlier run
  -- stays, so that its addition fails as any other call.
  pub add_vlan_device_with_ip-IsPerformed :
      (device : String) (vid : ℕ) (vlan_name : String) (nets : List IpNet) (routes : List Route)
      (t : Trace) (parent : Link)
      → nl.link_by_name t device ≡ some parent
      → str_eq parent.kind "vlan" ≡ false
      → IsPerformed nl
          (vlan_plan vlan_name vid parent nets routes t)
          t
          (add_vlan_device_with_ip nl device vid vlan_name nets routes t).0
          (add_vlan_device_with_ip nl device vid vlan_name nets routes t).1
  add_vlan_device_with_ip-IsPerformed device vid vlan_name nets routes t parent found other =
      let planned = vlan_plan vlan_name vid parent nets routes t in
      subst (λ m. IsPerformed nl planned t m.0 m.1)
        (sym
          (add_vlan_device_with_ip-run_until device vid vlan_name nets routes t parent found other))
        (run_until-IsPerformed nl planned t)
