-- ===== src/Partitions/Delete/Deleted.antt =====
-- What the loop of deletions did when it ends without an error, and what the selection leaves.
use mathlib.Core.List.Perm
use mathlib.Core.List.{Perm}
use das_boot.Prelude.{
  All, Bool-cases, List, Result-cases, [], append-nil, append_assoc, arith, get_elem?, inl, inr, ok,
  some, sym, true, ℕ, ◌++◌, ◌∙◌, ◌∷◌, ◌≡◌, if◌then◌else◌,
}
use das_boot.Partitions.Commands.{Command, Shell, Trace}
use das_boot.Partitions.Delete.Defs.{deletable, delete_all, delete_target, is_kept, sort_descending}
use das_boot.Partitions.Delete.OnieDisk.{
  IsDeletion, IsProtected, delete_target-IsDeletion, is_kept-IsProtected, not_kept-IsProtected,
}
use das_boot.Partitions.Delete.Runs.{delete_all-done, delete_all-failed, delete_all-refused}
use das_boot.Partitions.Delete.Sort.{sort_descending-perm}
use das_boot.Partitions.Device.{Device}
use das_boot.Partitions.Uevent.{ParseUint}

module _ (parse : ParseUint) (shell : Shell) (disk : Device) where
  -- Each partition was deleted from the disk by a command that succeeded, one after the other.
  abbrev pub Deleted : List Device → Trace → List Command → Type 0
  Deleted [] t [] = Unit
  Deleted [] t (c ∷ cs) = ⊥
  Deleted (p ∷ ps) t [] = ⊥
  Deleted (p ∷ ps) t (c ∷ cs) =
      IsDeletion parse disk p c × (shell t c ≡ true) × Deleted ps (t ++ c ∷ []) cs

  pub delete_all-Deleted :
      (devices : List Device) (i : ℕ)
      → get_elem? devices i ≡ some disk
      → (ps : List Device) → All (λ (p : Device). p.disk ≡ some i) ps
      → (t t' : Trace) → delete_all parse shell devices ps t ≡ (ok tt, t')
      → (cs : List Command) × Deleted ps t cs × (t' ≡ t ++ cs)
  delete_all-Deleted devices i there [] backs t t' h =
      ([], tt, unfold delete_all in ground (arith, append-nil t))
  delete_all-Deleted devices i there (p ∷ ps) (back, backs) t t' h =
      elim (Result-cases (delete_target parse devices p)) [
        | inl (e, bad) ↦
            let at_once = delete_all-refused parse devices shell p ps t e bad in ground arith
        | inr (c, built) ↦ elim (Bool-cases (shell t c)) [
          | inr failed ↦
              let at_c = delete_all-failed parse devices shell p c ps t built failed in ground arith
          | inl fine ↦
              let (cs, deleted, e) =
                delete_all-Deleted devices i there ps backs (t ++ c ∷ []) t'
                  (sym (delete_all-done parse devices shell p c ps t built fine) ∙ h) in
              let is = delete_target-IsDeletion parse devices i disk p c there back built in
              (c ∷ cs, (is, fine, deleted), e ∙ append_assoc t (c ∷ []) cs)
        ]
      ]

-- The partitions that the selection leaves out.
abbrev kept_of : List Device → List Device
kept_of [] = []
kept_of (p ∷ ps) = if is_kept p then p ∷ kept_of ps else kept_of ps

perm_middle : (p : Device) (l m : List Device) → Perm (l ++ p ∷ m) (p ∷ l ++ m)
perm_middle p [] m = Perm.refl (p ∷ m)
perm_middle p (x ∷ l) m = Perm.trans (Perm.cons x (perm_middle p l m)) (Perm.swap p x (l ++ m))

deletable-kept_of-perm : (ps : List Device) → Perm (deletable ps ++ kept_of ps) ps
unfolding deletable
deletable-kept_of-perm [] = Perm.refl []
deletable-kept_of-perm (p ∷ ps) = elim (Bool-cases (is_kept p)) [
  | inl kept ↦ rw kept (
      Perm.trans (perm_middle p (deletable ps) (kept_of ps))
        (Perm.cons p (deletable-kept_of-perm ps)))
  | inr goes ↦ rw goes (Perm.cons p (deletable-kept_of-perm ps))
]

kept_of-IsProtected : (ps : List Device) → All IsProtected (kept_of ps)
kept_of-IsProtected [] = tt
kept_of-IsProtected (p ∷ ps) = elim (Bool-cases (is_kept p)) [
  | inl kept ↦ rw kept (is_kept-IsProtected p kept, kept_of-IsProtected ps)
  | inr goes ↦ rw goes (kept_of-IsProtected ps)
]

pub deletable-All-of : (P : Device → Type 0) (ps : List Device) → All P ps → All P (deletable ps)
unfolding deletable
deletable-All-of P [] h = tt
deletable-All-of P (p ∷ ps) (h, hs) = elim (Bool-cases (is_kept p)) [
  | inl kept ↦ rw kept (deletable-All-of P ps hs)
  | inr goes ↦ rw goes (h, deletable-All-of P ps hs)
]

pub deletable-IsProtected :
    (ps : List Device) → All (λ (p : Device). ¬ IsProtected p) (deletable ps)
unfolding deletable
deletable-IsProtected [] = tt
deletable-IsProtected (p ∷ ps) = elim (Bool-cases (is_kept p)) [
  | inl kept ↦ rw kept (deletable-IsProtected ps)
  | inr goes ↦ rw goes (not_kept-IsProtected p goes, deletable-IsProtected ps)
]

-- The partitions are those to delete and protected ones.
pub sorted-kept :
    (parse : ParseUint) (parts : List Device)
    → (kept : List Device) × Perm (sort_descending parse (deletable parts) ++ kept) parts
      × All IsProtected kept
sorted-kept parse parts = (
  kept_of parts,
  Perm.trans (Perm.append_right (kept_of parts) (sort_descending-perm parse (deletable parts)))
      (deletable-kept_of-perm parts),
  kept_of-IsProtected parts,
)
