-- ===== src/Network/Plans.antt =====
-- The calls that configuring and undoing make, as lists.
use mathlib.Core.Path.{ap, subst}
use das_boot.Prelude.{
  Bool-cases, List, Option, [], append-nil, append_assoc, false, inl, inr, map, none, refl, some,
  sym, then_write, then_write-cong, then_write_assoc, true, ℕ, ◌++◌, ◌∙◌, ◌∷◌, ◌≡◌,
}
use das_boot.Network.Configure.{Route, add_ip_nets, add_dests, add_routes, entry, set_up}
use das_boot.Network.Netlink.{
  IpNet, NetCall, NetError, Netlink, RouteEntry, Trace, addr_add, addr_del, call, call_failed,
  link_set_up, route_add, route_del,
}

abbrev pub route_calls : (RouteEntry → NetCall) → ℕ → List Route → List NetCall
route_calls f index [] = []
route_calls f index (route ∷ routes) =
    map (λ dest. f (entry index route dest)) route.dests ++ route_calls f index routes

-- Every address, then the link up, then every destination of every route.
abbrev pub plan : ℕ → List IpNet → List Route → List NetCall
plan index nets routes =
    (map (addr_add index) nets ++ link_set_up index ∷ []) ++ route_calls route_add index routes

-- Every destination of every route, then every address.
abbrev pub undo : ℕ → List IpNet → List Route → List NetCall
undo index nets routes = route_calls route_del index routes ++ map (addr_del index) nets

-- The calls are made in order, up to the first that fails. It is the last one of the trace, and the error.
pub data IsPerformed (nl : Netlink) (cs : List NetCall) (t : Trace) (r : Option NetError)
    (t' : Trace) : Type 0 where
  all_made : r ≡ none → t' ≡ t ++ cs → IsPerformed nl cs t r t'
  failed_at :
      (before : List NetCall) (c : NetCall) (rest : List NetCall)
      → cs ≡ before ++ c ∷ rest
      → nl.fails (t ++ before) c ≡ true
      → r ≡ some (call_failed c)
      → t' ≡ t ++ (before ++ c ∷ [])
      → IsPerformed nl cs t r t'

module _ (nl : Netlink) where
  -- Calls in order, up to the first that fails.
  abbrev pub run_until : List NetCall → Trace → Option NetError × Trace
  run_until [] t = (none, t)
  run_until (c ∷ cs) t = then_write (call nl c t) (run_until cs)

  run_until-append :
      (cs ds : List NetCall) (t : Trace)
      → run_until (cs ++ ds) t ≡ then_write (run_until cs t) (run_until ds)
  run_until-append [] ds t = refl
  run_until-append (c ∷ cs) ds t =
      then_write-cong (call nl c t) (run_until (cs ++ ds))
        (λ t'. then_write (run_until cs t') (run_until ds)) (run_until-append cs ds)
      ∙ sym (then_write_assoc (call nl c t) (run_until cs) (run_until ds))

  add_ip_nets-run_until :
      (index : ℕ) (nets : List IpNet) (t : Trace)
      → add_ip_nets nl index nets t ≡ run_until (map (addr_add index) nets) t
  unfolding add_ip_nets
  add_ip_nets-run_until index [] t = refl
  add_ip_nets-run_until index (net ∷ nets) t =
      then_write-cong (call nl (addr_add index net) t) _ _ (add_ip_nets-run_until index nets)

  add_dests-run_until :
      (index : ℕ) (route : Route) (dests : List IpNet) (t : Trace)
      → add_dests nl index route dests t
        ≡ run_until (map (λ dest. route_add (entry index route dest)) dests) t
  unfolding add_dests
  add_dests-run_until index route [] t = refl
  add_dests-run_until index route (dest ∷ dests) t =
      then_write-cong (call nl (route_add (entry index route dest)) t) _ _
        (add_dests-run_until index route dests)

  add_routes-run_until :
      (index : ℕ) (routes : List Route) (t : Trace)
      → add_routes nl index routes t ≡ run_until (route_calls route_add index routes) t
  unfolding add_routes
  add_routes-run_until index [] t = refl
  add_routes-run_until index (route ∷ routes) t =
      rw (add_dests-run_until index route route.dests t) (
        then_write-cong (run_until (map (λ dest. route_add (entry index route dest)) route.dests) t)
          _ _ (add_routes-run_until index routes)
        ∙ sym (
            run_until-append (map (λ dest. route_add (entry index route dest)) route.dests)
              (route_calls route_add index routes) t))

  call-run_until : (c : NetCall) (t : Trace) → call nl c t ≡ run_until (c ∷ []) t
  call-run_until c t = elim (Bool-cases (nl.fails t c)) [
    | inl bad ↦ rw bad refl
    | inr fine ↦ rw fine refl
  ]

  pub set_up-run_until :
      (index : ℕ) (nets : List IpNet) (routes : List Route) (t : Trace)
      → set_up nl index nets routes t ≡ run_until (plan index nets routes) t
  unfolding set_up
  set_up-run_until index nets routes t =
      let addresses = map (addr_add index) nets in
      let up = link_set_up index in
      let first : then_write (add_ip_nets nl index nets t) (call nl up)
          ≡ run_until (addresses ++ up ∷ []) t =
        rw (add_ip_nets-run_until index nets t) (
          then_write-cong (run_until addresses t) _ _ (call-run_until up)
          ∙ sym (run_until-append addresses (up ∷ []) t)) in
      rw first (
        then_write-cong (run_until (addresses ++ up ∷ []) t) _ _ (add_routes-run_until index routes)
        ∙ sym (run_until-append (addresses ++ up ∷ []) (route_calls route_add index routes) t))

  -- A call that was made before the others.
  pub IsPerformed-cons :
      (c : NetCall) (cs : List NetCall) (t : Trace) (r : Option NetError) (t' : Trace)
      → IsPerformed nl cs (t ++ c ∷ []) r t'
      → IsPerformed nl (c ∷ cs) t r t'
  IsPerformed-cons c cs t r t' (all_made fine same) =
      all_made fine (same ∙ append_assoc t (c ∷ []) cs)
  IsPerformed-cons c cs t r t' (failed_at before d rest split bad failed same) =
      failed_at (c ∷ before) d rest (ap (◌∷◌ c) split)
        (subst (λ u. nl.fails u d ≡ true) (append_assoc t (c ∷ []) before) bad) failed
        (same ∙ append_assoc t (c ∷ []) (before ++ d ∷ []))

  pub run_until-step :
      (c : NetCall) (cs : List NetCall) (t : Trace)
      → nl.fails t c ≡ false
      → run_until (c ∷ cs) t ≡ run_until cs (t ++ c ∷ [])
  run_until-step c cs t h = rw h refl

  pub run_until-failed :
      (c : NetCall) (cs : List NetCall) (t : Trace)
      → nl.fails t c ≡ true
      → run_until (c ∷ cs) t ≡ (some (call_failed c), t ++ c ∷ [])
  run_until-failed c cs t h = rw h refl

  pub run_until-IsPerformed :
      (cs : List NetCall) (t : Trace) → IsPerformed nl cs t (run_until cs t).0 (run_until cs t).1
  run_until-IsPerformed [] t = all_made refl (sym (append-nil t))
  run_until-IsPerformed (c ∷ cs) t = elim (Bool-cases (nl.fails t c)) [
    | inl bad ↦
        let stop = run_until-failed c cs t bad in
        failed_at [] c cs refl (rw (append-nil t) bad) (ap (λ m. m.0) stop) (ap (λ m. m.1) stop)
    | inr fine ↦ IsPerformed-cons c cs t _ _ (
        subst (λ m. IsPerformed nl cs (t ++ c ∷ []) m.0 m.1) (sym (run_until-step c cs t fine))
          (run_until-IsPerformed cs (t ++ c ∷ [])))
  ]
