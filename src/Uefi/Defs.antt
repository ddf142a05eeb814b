-- ===== src/Uefi/Defs.antt =====
-- `MakeONIEDefaultBootEntryAndCleanup` and `FindONIEBootEntry`.
use das_boot.Prelude.{
  Bool, Bytes, List, Option, Result, [], err, false, if◌then◌else◌, none, not, ok, some, true, ℕ,
  ◌&&◌, ◌++◌, ◌==◌, ◌||◌, ◌∷◌,
}

-- An entry that the boot iterator visits: its index, and the description if the variable can be read.
pub record BootEntry : Type 0 where
  pub index : ℕ
  pub description : Option Bytes

-- github.com/0x5a17ed/uefi, over the firmware's state: the iterator's entries in order and whether it
-- can be made and ends without an error, the variable BootOrder, and the deletion of a BootXXXX variable.
pub record Efi (S : Type 0) : Type 0 where
  pub boot_iterator : S → Option (List BootEntry × Bool)
  pub get_boot_order : S → Option (List ℕ)
  pub set_boot_order : S → List ℕ → Option S
  pub delete_entry : S → ℕ → S

pub data Failure : Type 0 where
  not_booted_into_onie onie_entry_not_found empty_boot_order : Failure
  reading_boot_order setting_boot_order : Failure

-- `strings.Contains`
has_prefix : Bytes → Bytes → Bool
has_prefix [] s = true
has_prefix (x ∷ xs) [] = false
has_prefix (x ∷ xs) (y ∷ ys) = x == y && has_prefix xs ys

unfoldable pub contains_text : Bytes → Bytes → Bool
unfolding has_prefix
contains_text [] t = has_prefix t []
contains_text (x ∷ s) t = has_prefix t (x ∷ s) || contains_text s t

-- "ONIE"
abbrev onie_mark : Bytes
onie_mark = b'O' ∷ b'N' ∷ b'I' ∷ b'E' ∷ []

abbrev describes_onie : Option Bytes → Bool
describes_onie none = false
describes_onie (some d) = contains_text d onie_mark

-- The loop over the iterator.
unfoldable pub find_onie : List BootEntry → Option ℕ
find_onie [] = none
find_onie (e ∷ es) = if describes_onie e.description then some e.index else find_onie es

-- An iterator that aborts gives an error as well, as does a list without ONIE.
unfoldable pub find_onie_boot_entry : {S : Type 0} → Efi S → S → Option ℕ
unfolding find_onie
find_onie_boot_entry efi s = elim (efi.boot_iterator s) [
  | none ↦ none
  | some (es, ended) ↦ find_onie es
]

-- The variables of the loop over the boot order.
pub record Plan : Type 0 where
  pub found_onie : Bool
  pub new_boot_order : List ℕ
  pub boot_entries_to_delete : List ℕ

unfoldable pub plan_loop : ℕ → List ℕ → Plan → Plan
plan_loop onie [] p = p
plan_loop onie (num ∷ rest) p = plan_loop onie rest (
    if num == onie
    then record p { found_onie = true }
    else if not p.found_onie
    then record p { boot_entries_to_delete = p.boot_entries_to_delete ++ num ∷ [] }
    else record p { new_boot_order = p.new_boot_order ++ num ∷ [] })

-- With what follows the loop: without ONIE in the order, nothing is deleted.
finish_plan : List ℕ → Plan → Plan
finish_plan boot_order p =
    if p.found_onie
    then p
    else record p { boot_entries_to_delete = []; new_boot_order = p.new_boot_order ++ boot_order }

unfoldable pub plan_of : ℕ → List ℕ → Plan
unfolding plan_loop finish_plan
plan_of onie boot_order = finish_plan boot_order (
    plan_loop onie boot_order
      (record { found_onie = false; new_boot_order = onie ∷ []; boot_entries_to_delete = [] }))

-- A deletion that fails is only logged.
unfoldable pub delete_entries : {S : Type 0} → Efi S → S → List ℕ → S
delete_entries efi s [] = s
delete_entries efi s (num ∷ rest) = delete_entries efi (efi.delete_entry s num) rest

module _ {S : Type 0} (efi : Efi S) where
  -- The boot order that was read does not start with ONIE.
  apply_plan : S → Plan → Result Failure (Unit {0}) × S
  apply_plan s p = elim (efi.set_boot_order s p.new_boot_order) [
    | none ↦ (err setting_boot_order, s)
    | some s' ↦ (ok tt, delete_entries efi s' p.boot_entries_to_delete)
  ]

  reorder : S → ℕ → List ℕ → Result Failure (Unit {0}) × S
  reorder s onie [] = (err empty_boot_order, s)
  reorder s onie (first ∷ rest) =
      if first == onie then (ok tt, s) else apply_plan s (plan_of onie (first ∷ rest))

  -- The argument is the answer of `IsBootedIntoONIE`; `none` is its error.
  unfoldable pub make_onie_default_boot_entry_and_cleanup :
      Option Bool → S → Result Failure (Unit {0}) × S
  unfolding reorder apply_plan
  make_onie_default_boot_entry_and_cleanup none s = (err not_booted_into_onie, s)
  make_onie_default_boot_entry_and_cleanup (some false) s = (err not_booted_into_onie, s)
  make_onie_default_boot_entry_and_cleanup (some true) s = elim (find_onie_boot_entry efi s) [
    | none ↦ (err onie_entry_not_found, s)
    | some onie ↦ elim (efi.get_boot_order s) [
      | none ↦ (err reading_boot_order, s)
      | some boot_order ↦ reorder s onie boot_order
    ]
  ]
