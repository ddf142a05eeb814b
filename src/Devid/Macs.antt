-- ===== src/Devid/Macs.antt =====
-- The ID from MAC addresses, and the order in which interfaces are found.
use mathlib.Core.List.Perm
use mathlib.Core.List.{Perm, foldr}
use das_boot.Prelude.{
  Bytes, List, Option, Option-cases, [], ap, arith, false, if◌then◌else◌, inl, inr, is_empty, none,
  refl, some, sym, ◌∙◌, ◌∷◌, ◌≡◌,
}
use das_boot.Devid.Id.{
  UuidLibrary, id_from_mac_addresses, id_of_macs, insert, read_macs, sort_strings,
}
use das_boot.Devid.Order.{insert-insert}
use das_boot.Prelude.Text.{codes, trim_space}

module _ (lib : UuidLibrary) (address : Bytes → Option Bytes) where
  -- The sorted addresses, with one more interface.
  add_mac : Option Bytes → Option (List Bytes) → Option (List Bytes)
  add_mac none macs = none
  add_mac (some b) none = none
  add_mac (some b) (some macs) =
      if is_empty (trim_space b) then some macs else some (insert (trim_space b) macs)

  add_mac_comm :
      (a b : Option Bytes) (macs : Option (List Bytes))
      → add_mac a (add_mac b macs) ≡ add_mac b (add_mac a macs)
  unfolding add_mac
  add_mac_comm none none macs = refl
  add_mac_comm none (some b) none = refl
  add_mac_comm none (some b) (some macs) = ground arith
  add_mac_comm (some a) none none = refl
  add_mac_comm (some a) none (some macs) = ground arith
  add_mac_comm (some a) (some b) none = refl
  add_mac_comm (some a) (some b) (some macs) =
      ground (arith, insert-insert (trim_space a) (trim_space b) macs)

  abbrev sorted : Option (List Bytes) → Option (List Bytes)
  sorted none = none
  sorted (some macs) = some (sort_strings macs)

  sorted_step :
      (dev : Bytes) (devs : List Bytes)
      → sorted (read_macs lib address (dev ∷ devs))
        ≡ add_mac (address dev) (sorted (read_macs lib address devs))
  unfolding read_macs add_mac sort_strings
  sorted_step dev devs = elim (Option-cases (address dev)) [
    | inl failed ↦ ground arith
    | inr (b, found) ↦ elim (Option-cases (read_macs lib address devs)) [
      | inl failed ↦ ground arith
      | inr (macs, read_) ↦ ground arith
    ]
  ]

  sorted-read_macs :
      (devs : List Bytes)
      → sorted (read_macs lib address devs) ≡ foldr (λ dev. add_mac (address dev)) (some []) devs
  unfolding read_macs sort_strings
  sorted-read_macs [] = refl
  sorted-read_macs (dev ∷ devs) =
      sorted_step dev devs ∙ ap (add_mac (address dev)) (sorted-read_macs devs)

  macs_set : IsSet (Option (List Bytes))
  macs_set = hlevel

  sorted-perm :
      {devs devs' : List Bytes}
      → Perm devs devs'
      → sorted (read_macs lib address devs) ≡ sorted (read_macs lib address devs')
  sorted-perm {devs} {devs'} same =
      sorted-read_macs devs
      ∙ Perm.foldr-eq macs_set (λ dev. add_mac (address dev))
          (λ a b. add_mac_comm (address a) (address b)) same (some [])
      ∙ sym (sorted-read_macs devs')

  -- An ID is made of the sorted addresses.
  id_of_sorted : Option (List Bytes) → Option Bytes
  id_of_sorted none = none
  id_of_sorted (some macs) =
      if is_empty macs then none else some (lib.new_sha1 (codes "MAC") macs [])

  insert-is_empty : (a : Bytes) (l : List Bytes) → is_empty (insert a l) ≡ false
  unfolding insert
  insert-is_empty a [] = refl
  insert-is_empty a (b ∷ l) = ground arith

  id_of_macs-sorted :
      (macs : Option (List Bytes)) → id_of_macs lib macs ≡ id_of_sorted (sorted macs)
  unfolding id_of_sorted sort_strings id_of_macs
  id_of_macs-sorted none = refl
  id_of_macs-sorted (some []) = refl
  id_of_macs-sorted (some (a ∷ macs)) = rw (insert-is_empty a (sort_strings macs)) refl

  id_from_mac_addresses-sorted :
      (devs : List Bytes)
      → id_from_mac_addresses lib address devs ≡ id_of_sorted (sorted (read_macs lib address devs))
  unfolding id_from_mac_addresses read_macs id_of_sorted sort_strings
  id_from_mac_addresses-sorted [] = refl
  id_from_mac_addresses-sorted (dev ∷ devs) = id_of_macs-sorted (read_macs lib address (dev ∷ devs))

  -- The interfaces may be found in any order: the ID from their addresses is the same, and so is a
  -- failure to make one.
  pub id_from_mac_addresses-perm :
      {devs devs' : List Bytes}
      → Perm devs devs'
      → id_from_mac_addresses lib address devs ≡ id_from_mac_addresses lib address devs'
  id_from_mac_addresses-perm {devs} {devs'} same =
      id_from_mac_addresses-sorted devs
      ∙ ap id_of_sorted (sorted-perm same)
      ∙ sym (id_from_mac_addresses-sorted devs')
