-- ===== src/Stage0/Selection.antt =====
-- Which interface is chosen.
use mathlib.Core.Path.{subst}
use das_boot.Prelude.{
  Bool, List, Occurs, Option, Option-cases, String, [], ap, arith, false, inl, inr, is_some, none,
  refl, some, sym, true, ◌∙◌, ◌∷◌, ◌≡◌, ◌≢◌, ◌⊎◌,
}
use das_boot.Network.Netlink.{Netlink, Trace}
use das_boot.Seeder.Ipam.{IpAddress, Response}
use das_boot.Stage0.Defs.{Addresses, Services, Stage0Error, run_with, select_interface, try_entries}
use das_boot.Uefi.Loop.{occurs}

module _ (nl : Netlink) (svc : Services) (conv : Addresses) (resp : Response) where
  -- Stage 1 can be downloaded over the entry, whatever was configured before.
  abbrev pub IsWorking : String × IpAddress → Type 0
  IsWorking (netdev, ipa) = (t : Trace) → (run_with nl svc conv resp netdev ipa t).0 ≡ none

  -- The entry, and the run that succeeded.
  abbrev pub IsChosen : List (String × IpAddress) → Bool → Option String × Trace → Type 0
  IsChosen entries preferred (none, t') = Unit
  IsChosen entries preferred (some netdev, t') =
      (ipa : IpAddress) × (t : Trace) × Occurs (netdev, ipa) entries
      × (ipa.preferred ≡ preferred)
      × (run_with nl svc conv resp netdev ipa t ≡ (none, t'))

  abbrev try : Bool → List (String × IpAddress) → Trace → Option String × Trace
  try = try_entries nl svc conv resp

  abbrev run : String → IpAddress → Trace → Option Stage0Error × Trace
  run = run_with nl svc conv resp

  -- The three ways to go on.
  try_skipped :
      (preferred : Bool) (n : String) (i : IpAddress) (es : List (String × IpAddress)) (t : Trace)
      → i.preferred ≢ preferred
      → try preferred ((n, i) ∷ es) t ≡ try preferred es t
  unfolding try_entries
  try_skipped true n i es t other = ground arith
  try_skipped false n i es t other = ground arith

  try_taken :
      (preferred : Bool) (n : String) (i : IpAddress) (es : List (String × IpAddress)) (t : Trace)
      → i.preferred ≡ preferred
      → (run n i t).0 ≡ none
      → try preferred ((n, i) ∷ es) t ≡ (some n, (run n i t).1)
  unfolding try_entries
  try_taken true n i es t same fine = ground arith
  try_taken false n i es t same fine = ground arith

  try_next :
      (preferred : Bool) (n : String) (i : IpAddress) (es : List (String × IpAddress)) (t : Trace)
      (e : Stage0Error)
      → i.preferred ≡ preferred
      → (run n i t).0 ≡ some e
      → try preferred ((n, i) ∷ es) t ≡ try preferred es (run n i t).1
  unfolding try_entries
  try_next true n i es t e same failed = ground arith
  try_next false n i es t e same failed = ground arith

  same_or_other : (a b : Bool) → (a ≡ b) ⊎ (a ≢ b)
  same_or_other true true = inl refl
  same_or_other false false = inl refl
  same_or_other true false = inr (λ h. ground arith)
  same_or_other false true = inr (λ h. ground arith)

  try_entries-working :
      (preferred : Bool) (entries : List (String × IpAddress)) (netdev : String) (ipa : IpAddress)
      (t : Trace)
      → Occurs (netdev, ipa) entries
      → ipa.preferred ≡ preferred
      → IsWorking (netdev, ipa)
      → is_some (try preferred entries t).0 ≡ true
  try_entries-working preferred [] netdev ipa t occurs flag works = elim occurs [ ]
  try_entries-working preferred ((n, i) ∷ es) netdev ipa t (inl at) flag works =
      let taken =
        try_taken preferred n i es t (ap (λ e. e.1.preferred) (sym at) ∙ flag)
          (subst (λ e. (run e.0 e.1 t).0 ≡ none) at (works t)) in
      ap (λ m. is_some m.0) taken
  try_entries-working preferred ((n, i) ∷ es) netdev ipa t (inr later) flag works =
      elim (same_or_other i.preferred preferred) [
        | inr other ↦
            ap (λ m. is_some m.0) (try_skipped preferred n i es t other)
            ∙ try_entries-working preferred es netdev ipa t later flag works
        | inl same ↦ elim (Option-cases (run n i t).0) [
          | inl fine ↦ ap (λ m. is_some m.0) (try_taken preferred n i es t same fine)
          | inr (e, failed) ↦
              ap (λ m. is_some m.0) (try_next preferred n i es t e same failed)
              ∙ try_entries-working preferred es netdev ipa (run n i t).1 later flag works
        ]
      ]

  IsChosen-later :
      (preferred : Bool) (e : String × IpAddress) (es : List (String × IpAddress))
      (m : Option String × Trace)
      → IsChosen es preferred m
      → IsChosen (e ∷ es) preferred m
  IsChosen-later preferred e es (none, t) h = tt
  IsChosen-later preferred e es (some n, t) (ipa, t₀, occurs, flag, ran) =
      (ipa, t₀, inr occurs, flag, ran)

  try_entries-IsChosen :
      (preferred : Bool) (entries : List (String × IpAddress)) (t : Trace)
      → IsChosen entries preferred (try preferred entries t)
  unfolding try_entries
  try_entries-IsChosen preferred [] t = tt
  try_entries-IsChosen preferred ((n, i) ∷ es) t = elim (same_or_other i.preferred preferred) [
    | inr other ↦
        subst (IsChosen ((n, i) ∷ es) preferred) (sym (try_skipped preferred n i es t other)) (
          IsChosen-later preferred (n, i) es (try preferred es t)
            (try_entries-IsChosen preferred es t))
    | inl same ↦ elim (Option-cases (run n i t).0) [
      | inl fine ↦
          subst (IsChosen ((n, i) ∷ es) preferred) (sym (try_taken preferred n i es t same fine))
            (i, t, inl refl, same, ap (λ e. (e, (run n i t).1)) fine)
      | inr (e, failed) ↦
          subst (IsChosen ((n, i) ∷ es) preferred) (sym (try_next preferred n i es t e same failed))
            (IsChosen-later preferred (n, i) es (try preferred es (run n i t).1)
              (try_entries-IsChosen preferred es (run n i t).1))
    ]
  ]

  -- A result of a selection: the interface, and the run over one of its entries that succeeded.
  abbrev pub IsSelected :
      List (String × IpAddress) → List (String × IpAddress) → Option String × Trace → Type 0
  IsSelected entries entries' m =
      (n : String) × (ipa : IpAddress) × (t₀ : Trace) × (t' : Trace) × (m ≡ (some n, t'))
      × (Occurs (n, ipa) entries ⊎ Occurs (n, ipa) entries')
      × (run_with nl svc conv resp n ipa t₀ ≡ (none, t'))

  select_first :
      (entries entries' : List (String × IpAddress)) (t t₁ : Trace) (n : String)
      → try true entries t ≡ (some n, t₁)
      → select_interface nl svc conv resp entries entries' t ≡ (some n, t₁)
  unfolding select_interface
  select_first entries entries' t t₁ n h = ground arith

  select_second :
      (entries entries' : List (String × IpAddress)) (t t₁ : Trace)
      → try true entries t ≡ (none, t₁)
      → select_interface nl svc conv resp entries entries' t ≡ try false entries' t₁
  unfolding select_interface
  select_second entries entries' t t₁ h = ground arith

  first-IsSelected :
      (entries entries' : List (String × IpAddress)) (t : Trace) (m : Option String × Trace)
      → try true entries t ≡ m
      → is_some m.0 ≡ true
      → IsChosen entries true m
      → IsSelected entries entries' (select_interface nl svc conv resp entries entries' t)
  first-IsSelected entries entries' t (none, t') same found chosen = ground arith
  first-IsSelected entries entries' t (some n, t') same found (ipa, t₀, occurs, flag, ran) =
      (n, ipa, t₀, t', select_first entries entries' t t' n same, inl occurs, ran)

  second-IsSelected :
      (entries entries' : List (String × IpAddress)) (m m' : Option String × Trace)
      → m' ≡ m
      → is_some m.0 ≡ true
      → IsChosen entries' false m
      → IsSelected entries entries' m'
  second-IsSelected entries entries' (none, t') m' same found chosen = ground arith
  second-IsSelected entries entries' (some n, t') m' same found (ipa, t₀, occurs, flag, ran) =
      (n, ipa, t₀, t', same, inr occurs, ran)

  -- If stage 1 can be downloaded over one of the entries of the IPAM answer, whatever was configured
  -- before, then stage 0 gets it: however the two loops range over the map, an interface is selected, and
  -- the run over an entry of it is the last one and succeeded.
  pub select_interface-IsSelected :
      (entries entries' : List (String × IpAddress)) (netdev : String) (ipa : IpAddress) (t : Trace)
      → Occurs (netdev, ipa) entries
      → Occurs (netdev, ipa) entries'
      → IsWorking (netdev, ipa)
      → IsSelected entries entries' (select_interface nl svc conv resp entries entries' t)
  select_interface-IsSelected entries entries' netdev ipa t occurs occurs' works =
      let first = try true entries t in
      elim (Option-cases first.0) [
        | inr (n, found) ↦
            first-IsSelected entries entries' t first refl (ap is_some found)
              (try_entries-IsChosen true entries t)
        | inl none_ ↦ elim (same_or_other ipa.preferred true) [
          | inl yes_ ↦
              let some_ = try_entries-working true entries netdev ipa t occurs yes_ works in
              first-IsSelected entries entries' t first refl some_
                (try_entries-IsChosen true entries t)
          | inr no_ ↦
              let second = try false entries' first.1 in
              second-IsSelected entries entries' second
                (select_interface nl svc conv resp entries entries' t)
                (select_second entries entries' t first.1 (ap (λ c. (c, first.1)) none_))
                (try_entries-working false entries' netdev ipa first.1 occurs' (ground arith) works)
                (try_entries-IsChosen false entries' first.1)
        ]
      ]
