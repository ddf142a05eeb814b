-- ===== src/Seeder/Addresses.antt =====
-- `ensureIPHasCIDR` and `ensureIPHasNoCIDR` of ipam/processor.go.
use Prim.Native.String.{◌++◌ as str_append}
use mathlib.Core.Path.{subst}
use das_boot.Prelude.{
  Bool-cases, Option, Option-cases, String, arith, false, if◌then◌else◌, inl, inr, none, not, refl,
  some, true, ◌≡◌, ◌⊎◌,
}
use das_boot.Seeder.Wiring.{Net}

module _ {IP : Type 0} (net : Net IP) where
  abbrev pub host_bits : IP → String
  host_bits ip = if not (net.is_ip4 ip) then "128" else "32"

  -- `fmt.Sprintf("%s/%s", ip, cidr)`
  abbrev pub with_cidr : String → String → String
  with_cidr ip cidr = str_append ip (str_append "/" cidr)

  -- `none` is an error.
  unfoldable pub ensure_ip_has_cidr : String → Option String
  ensure_ip_has_cidr ip = elim (net.parse_cidr ip) [
    | some parsed ↦ some (with_cidr (net.ip_string parsed) (host_bits parsed))
    | none ↦ elim (net.parse_ip ip) [
      | none ↦ none
      | some parsed ↦ some (with_cidr ip (host_bits parsed))
    ]
  ]

  unfoldable pub ensure_ip_has_no_cidr : String → Option String
  ensure_ip_has_no_cidr ip = elim (net.parse_cidr ip) [
    | some parsed ↦ some (net.ip_string parsed)
    | none ↦ elim (net.parse_ip ip) [ none ↦ none | some parsed ↦ some (net.ip_string parsed) ]
  ]

  -- What is used of package net: an address prints as a text that reads as that address, and so does a text
  -- that reads as an address when the prefix length of a single address of its family is put behind it.
  pub record NetLaws : Type 0 where
    pub parse_ip-ip_string : (ip : IP) → net.parse_ip (net.ip_string ip) ≡ some ip
    pub parse_cidr-32 :
        (s : String) (ip : IP)
        → net.parse_ip s ≡ some ip
        → net.is_ip4 ip ≡ true
        → net.parse_cidr (str_append s "/32") ≡ some ip
    pub parse_cidr-128 :
        (s : String) (ip : IP)
        → net.parse_ip s ≡ some ip
        → net.is_ip4 ip ≡ false
        → net.parse_cidr (str_append s "/128") ≡ some ip

  -- The text is one of the address, with the prefix length of a single address of its family.
  abbrev pub IsSingle : IP → String → Type 0
  IsSingle ip c =
      (bare : String) × (net.parse_ip bare ≡ some ip)
      × (((net.is_ip4 ip ≡ true) × (c ≡ str_append bare "/32"))
          ⊎ ((net.is_ip4 ip ≡ false) × (c ≡ str_append bare "/128")))

  with_cidr-IsSingle :
      (bare : String) (ip : IP)
      → net.parse_ip bare ≡ some ip
      → IsSingle ip (with_cidr bare (host_bits ip))
  with_cidr-IsSingle bare ip reads = elim (Bool-cases (net.is_ip4 ip)) [
    | inl v4 ↦ (bare, reads, inl (v4, rw v4 refl))
    | inr v6 ↦ (bare, reads, inr (v6, rw v6 refl))
  ]

  parse_cidr-IsSingle :
      (c : String) (ip : IP) → NetLaws → IsSingle ip c → net.parse_cidr c ≡ some ip
  parse_cidr-IsSingle c ip laws (bare, reads, inl (v4, e)) =
      rw e (laws.parse_cidr-32 bare ip reads v4)
  parse_cidr-IsSingle c ip laws (bare, reads, inr (v6, e)) =
      rw e (laws.parse_cidr-128 bare ip reads v6)

  -- Of an address, with or without a prefix length, `ensureIPHasCIDR` makes a text of the same address with
  -- the length 32 for IPv4 and 128 for IPv6, and `ensureIPHasNoCIDR` gives one text for both.
  pub ensure_ip_has_cidr-IsSame :
      (s c : String)
      → NetLaws
      → ensure_ip_has_cidr s ≡ some c
      → (ip : IP) × IsSingle ip c
        × (net.parse_cidr c ≡ some ip)
        × (ensure_ip_has_no_cidr s ≡ some (net.ip_string ip))
        × (ensure_ip_has_no_cidr c ≡ some (net.ip_string ip))
  unfolding ensure_ip_has_cidr ensure_ip_has_no_cidr
  ensure_ip_has_cidr-IsSame s c laws h = elim (Option-cases (net.parse_cidr s)) [
    | inr (ip, with_length) ↦
        let printed = laws.parse_ip-ip_string ip in
        let is_c : with_cidr (net.ip_string ip) (host_bits ip) ≡ c = ground arith in
        let single = subst (IsSingle ip) is_c (with_cidr-IsSingle (net.ip_string ip) ip printed) in
        let reads = parse_cidr-IsSingle c ip laws single in
        (ip, single, reads, ground arith, ground arith)
    | inl bare ↦ elim (Option-cases (net.parse_ip s)) [
      | inl neither ↦ ground arith
      | inr (ip, parsed) ↦
          let is_c : with_cidr s (host_bits ip) ≡ c = ground arith in
          let single = subst (IsSingle ip) is_c (with_cidr-IsSingle s ip parsed) in
          let reads = parse_cidr-IsSingle c ip laws single in
          (ip, single, reads, ground arith, ground arith)
    ]
  ]
