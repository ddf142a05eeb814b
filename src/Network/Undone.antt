-- ===== src/Network/Undone.antt =====
-- Undoing a configuration makes every call, whatever fails.
use das_boot.Prelude.{
  Bool-cases, List, String, [], append-nil, append_assoc, arith, if◌then◌else◌, inl, inr, map, refl,
  some, str_eq, true, ℕ, ◌++◌, ◌∙◌, ◌∷◌, ◌≡◌,
}
use das_boot.Network.Configure.{
  Route, after, collected, delete_addresses, delete_dests, delete_link, delete_routes,
  delete_vlan_device, entry, take_down, unconfigure_device_with_ip,
}
use das_boot.Network.Netlink.{
  IpNet, Link, NetCall, NetError, Netlink, Trace, addr_del, call, call_failed, link_del, route_del,
}
use das_boot.Network.Plans.{route_calls, undo}

module _ (nl : Netlink) where
  -- The errors of calls that are all made.
  abbrev pub failures : List NetCall → Trace → List NetError
  failures [] t = []
  failures (c ∷ cs) t =
      let rest = failures cs (t ++ c ∷ []) in if nl.fails t c then call_failed c ∷ rest else rest

  abbrev pub run_all : List NetCall → Trace → List NetError × Trace
  run_all cs t = (failures cs t, t ++ cs)

  failures-append :
      (cs ds : List NetCall) (t : Trace)
      → failures (cs ++ ds) t ≡ failures cs t ++ failures ds (t ++ cs)
  failures-append [] ds t = rw (append-nil t) refl
  failures-append (c ∷ cs) ds t =
      let rest = failures-append cs ds (t ++ c ∷ []) in
      let there = append_assoc t (c ∷ []) cs in
      elim (Bool-cases (nl.fails t c)) [
        | inl bad ↦ rw (bad, rest, there) refl
        | inr fine ↦ rw (fine, rest, there) refl
      ]

  collected-run_all :
      (c : NetCall) (cs : List NetCall) (t : Trace) (k : Trace → List NetError × Trace)
      → ((t : Trace) → k t ≡ run_all cs t)
      → collected (call nl c t) k ≡ run_all (c ∷ cs) t
  collected-run_all c cs t k h =
      let next = h (t ++ c ∷ []) in
      let there = append_assoc t (c ∷ []) cs in
      elim (Bool-cases (nl.fails t c)) [
        | inl bad ↦ rw (bad, next, there) refl
        | inr fine ↦ rw (fine, next, there) refl
      ]

  after-run_all :
      (cs ds : List NetCall) (t : Trace) (k : Trace → List NetError × Trace)
      → ((t : Trace) → k t ≡ run_all ds t)
      → after (run_all cs t) k ≡ run_all (cs ++ ds) t
  after-run_all cs ds t k h = rw (h (t ++ cs), failures-append cs ds t, append_assoc t cs ds) refl

  delete_addresses-run_all :
      (index : ℕ) (nets : List IpNet) (t : Trace)
      → delete_addresses nl index nets t ≡ run_all (map (addr_del index) nets) t
  unfolding delete_addresses
  delete_addresses-run_all index [] t = rw (append-nil t) refl
  delete_addresses-run_all index (net ∷ nets) t =
      collected-run_all (addr_del index net) (map (addr_del index) nets) t _
        (delete_addresses-run_all index nets)

  delete_dests-run_all :
      (index : ℕ) (route : Route) (dests : List IpNet) (t : Trace)
      → delete_dests nl index route dests t
        ≡ run_all (map (λ dest. route_del (entry index route dest)) dests) t
  unfolding delete_dests
  delete_dests-run_all index route [] t = rw (append-nil t) refl
  delete_dests-run_all index route (dest ∷ dests) t =
      collected-run_all (route_del (entry index route dest))
        (map (λ dest. route_del (entry index route dest)) dests) t _
        (delete_dests-run_all index route dests)

  delete_routes-run_all :
      (index : ℕ) (routes : List Route) (t : Trace)
      → delete_routes nl index routes t ≡ run_all (route_calls route_del index routes) t
  unfolding delete_routes
  delete_routes-run_all index [] t = rw (append-nil t) refl
  delete_routes-run_all index (route ∷ routes) t =
      rw (delete_dests-run_all index route route.dests t) (
        after-run_all (map (λ dest. route_del (entry index route dest)) route.dests)
          (route_calls route_del index routes) t _ (delete_routes-run_all index routes))

  take_down-run_all :
      (index : ℕ) (nets : List IpNet) (routes : List Route) (t : Trace)
      → take_down nl index nets routes t ≡ run_all (undo index nets routes) t
  unfolding take_down
  take_down-run_all index nets routes t = rw (delete_routes-run_all index routes t) (
      after-run_all (route_calls route_del index routes) (map (addr_del index) nets) t _
        (delete_addresses-run_all index nets))

  delete_link-run_all :
      (index : ℕ) (t : Trace) → delete_link nl index t ≡ run_all (link_del index ∷ []) t
  unfolding delete_link
  delete_link-run_all index t =
      collected-run_all (link_del index) [] t _ (λ t. rw (append-nil t) refl)

  delete_vlan_device-found :
      (device : String) (nets : List IpNet) (routes : List Route) (t : Trace) (link : Link)
      → nl.link_by_name t device ≡ some link
      → str_eq link.kind "vlan" ≡ true
      → delete_vlan_device nl device nets routes t
        ≡ after (take_down nl link.index nets routes t) (delete_link nl link.index)
  unfolding delete_vlan_device
  delete_vlan_device-found device nets routes t link found is_vlan = ground arith

  -- Deleting a VLAN device deletes every destination of every route, then every address, then the device:
  -- no error stops it, and the errors are those of the calls that failed, in order.
  pub delete_vlan_device-run_all :
      (device : String) (nets : List IpNet) (routes : List Route) (t : Trace) (link : Link)
      → nl.link_by_name t device ≡ some link
      → str_eq link.kind "vlan" ≡ true
      → delete_vlan_device nl device nets routes t
        ≡ run_all (undo link.index nets routes ++ link_del link.index ∷ []) t
  delete_vlan_device-run_all device nets routes t link found is_vlan =
      delete_vlan_device-found device nets routes t link found is_vlan
      ∙ rw (take_down-run_all link.index nets routes t) (
          after-run_all (undo link.index nets routes) (link_del link.index ∷ []) t _
            (delete_link-run_all link.index))

  pub unconfigure_device_with_ip-found :
      (device : String) (nets : List IpNet) (routes : List Route) (t : Trace) (link : Link)
      → nl.link_by_name t device ≡ some link
      → unconfigure_device_with_ip nl device nets routes t ≡ take_down nl link.index nets routes t
  unfolding unconfigure_device_with_ip
  unconfigure_device_with_ip-found device nets routes t link found = ground arith

  pub unconfigure_device_with_ip-run_all :
      (device : String) (nets : List IpNet) (routes : List Route) (t : Trace) (link : Link)
      → nl.link_by_name t device ≡ some link
      → unconfigure_device_with_ip nl device nets routes t ≡ run_all (undo link.index nets routes) t
  unconfigure_device_with_ip-run_all device nets routes t link found =
      unconfigure_device_with_ip-found device nets routes t link found
      ∙ take_down-run_all link.index nets routes t
