-- ===== src/Uefi/Loop.antt =====
-- The loop over the boot order, against what it computes.
use das_boot.Prelude.{
  Bool, Bool-cases, List, [], append-nil, append_assoc, arith, false, if◌then◌else◌, inl, inr, true,
  ℕ, ◌++◌, ◌==◌, ◌||◌, ◌∙◌, ◌∷◌, ◌≡◌,
}
use das_boot.Uefi.Defs.{plan_loop, plan_of}

-- The order without any entry `onie`.
abbrev pub without : ℕ → List ℕ → List ℕ
without onie [] = []
without onie (num ∷ rest) = if num == onie then without onie rest else num ∷ without onie rest

abbrev pub occurs : ℕ → List ℕ → Bool
occurs onie [] = false
occurs onie (num ∷ rest) = num == onie || occurs onie rest

plan_loop_found :
    (onie : ℕ) (l new del : List ℕ)
    → plan_loop onie l
        (record { found_onie = true; new_boot_order = new; boot_entries_to_delete = del })
      ≡ record {
        found_onie = true;
        new_boot_order = new ++ without onie l;
        boot_entries_to_delete = del;
      }
unfolding plan_loop
plan_loop_found onie [] new del = rw append-nil
plan_loop_found onie (num ∷ rest) new del = elim (Bool-cases (num == onie)) [
  | inl is ↦ rw is (plan_loop_found onie rest new del)
  | inr other ↦ rw other (plan_loop_found onie rest (new ++ num ∷ []) del ∙ rw append_assoc)
]

plan_loop_split :
    (onie : ℕ) (before after new del : List ℕ)
    → occurs onie before ≡ false
    → plan_loop onie
        (before ++ onie ∷ after)
        (record { found_onie = false; new_boot_order = new; boot_entries_to_delete = del })
      ≡ record {
        found_onie = true;
        new_boot_order = new ++ without onie after;
        boot_entries_to_delete = del ++ before;
      }
unfolding plan_loop
plan_loop_split onie [] after new del h =
    ground (arith, plan_loop_found onie after new del, append-nil del)
plan_loop_split onie (num ∷ rest) after new del h = ground (
  arith,
  plan_loop_split onie rest after new (del ++ num ∷ []) (ground arith),
  append_assoc del (num ∷ []) rest,
)

plan_loop_absent :
    (onie : ℕ) (l new del : List ℕ)
    → occurs onie l ≡ false
    → plan_loop onie l
        (record { found_onie = false; new_boot_order = new; boot_entries_to_delete = del })
      ≡ record { found_onie = false; new_boot_order = new; boot_entries_to_delete = del ++ l }
unfolding plan_loop
plan_loop_absent onie [] new del h = rw append-nil
plan_loop_absent onie (num ∷ rest) new del h =
    let other : (num == onie) ≡ false = ground arith in
    rw other (plan_loop_absent onie rest new (del ++ num ∷ []) (ground arith) ∙ rw append_assoc)

-- An order with ONIE in it becomes ONIE and what stood behind its first place, less any further ONIE;
-- exactly what stood before that place is to be deleted.
pub plan_of-present :
    (onie : ℕ) (before after : List ℕ)
    → occurs onie before ≡ false
    → plan_of onie (before ++ onie ∷ after) ≡ record {
      found_onie = true;
      new_boot_order = onie ∷ without onie after;
      boot_entries_to_delete = before;
    }
unfolding plan_of
plan_of-present onie before after h = rw (plan_loop_split onie before after (onie ∷ []) [] h)

-- An order without ONIE gets ONIE in front, and nothing is deleted.
pub plan_of-absent :
    (onie : ℕ) (l : List ℕ)
    → occurs onie l ≡ false
    → plan_of onie l
      ≡ record { found_onie = false; new_boot_order = onie ∷ l; boot_entries_to_delete = [] }
unfolding plan_of
plan_of-absent onie l h = rw (plan_loop_absent onie l (onie ∷ []) [] h)
