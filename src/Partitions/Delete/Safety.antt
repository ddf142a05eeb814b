-- ===== src/Partitions/Delete/Safety.antt =====
-- What `DeletePartitions` may run, and what its success means.
use mathlib.Core.Path.{subst}
use das_boot.Prelude.{
  All, All-Occurs, All-append, All-map, Bool, Bool-cases, List, List-cases, Occurs, Option, Result,
  Result-cases, [], ap, append-nil, append_assoc, arith, err, false, inl, inr, ok, refl, some, sym,
  ℕ, ◌++◌, ◌∙◌, ◌∷◌, ◌≡◌, ◌⊎◌,
}
use das_boot.Partitions.Commands.{Command, Failure, Shell, Trace, partprobe}
use das_boot.Partitions.Delete.Defs.{
  deletable, delete_all, delete_partitions, delete_target, is_kept, onie_disk,
  reread_partition_table, reset_boot_order, sort_descending,
}
use das_boot.Partitions.Delete.OnieDisk.{
  AreAt, IsDeletion, IsOnieDisk, IsProtected, LinkedDevices, delete_target-IsDeletion,
  not_kept-IsProtected, onie_disk-IsOnieDisk,
}
use das_boot.Partitions.Delete.Runs.{Ran, Runs, delete_all-Ran, no_run, run_of}
use das_boot.Partitions.Delete.Sort.{sort_descending-All}
use das_boot.Partitions.Device.{Device}
use das_boot.Partitions.Uevent.{ParseUint}
use das_boot.Uefi.{Efi}

module _ {S : Type 0} (parse : ParseUint) (shell : Shell) (efi : Efi S) (booted : Option Bool) where
  -- A command that the code chooses.
  abbrev Chosen : List Device → Command → Type 0
  Chosen devices c =
      (disk : Device) × (parts : List Device) × (onie_disk devices ≡ ok (disk, parts))
      × ((c ≡ partprobe disk.path)
          ⊎ ((p : Device) × Occurs p parts
              × (is_kept p ≡ false)
              × (delete_target parse devices p ≡ ok c)))

  pub deletable-All :
      (l whole : List Device)
      → ((p : Device) → Occurs p l → Occurs p whole)
      → All (λ (p : Device). Occurs p whole × (is_kept p ≡ false)) (deletable l)
  unfolding deletable
  deletable-All [] whole f = tt
  deletable-All (p ∷ l) whole f =
      let rest = deletable-All l whole (λ q o. f q (inr o)) in
      elim (Bool-cases (is_kept p)) [
        | inl kept ↦ rw kept rest
        | inr goes ↦ rw goes ((f p (inl refl), goes), rest)
      ]

  Runs-All :
      (Q : Device → Type 0) (devices ps : List Device) (cs : List Command)
      → Runs parse devices ps cs
      → (rest : List Device) → All Q (ps ++ rest)
      → All (λ (c : Command). (p : Device) × Q p × (delete_target parse devices p ≡ ok c)) cs
  Runs-All Q devices [] [] no_run rest h = tt
  Runs-All Q devices (p ∷ ps) (c ∷ cs) (run_of _ _ _ _ built runs) rest h =
      ((p, h.0, built), Runs-All Q devices ps cs runs rest h.1)
  Runs-All Q devices [] (c ∷ cs) runs rest h = elim runs [ ]
  Runs-All Q devices (p ∷ ps) [] runs rest h = elim runs [ ]

  pub reread-cases :
      (disk : Device) (t : Trace)
      → ((reread_partition_table shell disk t).1 ≡ t)
        ⊎ ((reread_partition_table shell disk t).1 ≡ t ++ partprobe disk.path ∷ [])
  unfolding reread_partition_table
  reread-cases disk t = ground arith

  -- The ways the function ends once the disk of ONIE is known.
  pub ended_at_once :
      (devices parts : List Device) (disk : Device) (t : Trace) (s : S)
      → onie_disk devices ≡ ok (disk, parts)
      → sort_descending parse (deletable parts) ≡ []
      → delete_partitions parse shell efi booted devices t s ≡ (ok tt, t, s)
  unfolding delete_partitions
  ended_at_once devices parts disk t s h k = ground arith

  pub ended_by_error :
      (devices parts : List Device) (disk : Device) (t t₁ : Trace) (s : S) (e : Failure)
      → onie_disk devices ≡ ok (disk, parts)
      → delete_all parse shell devices (sort_descending parse (deletable parts)) t ≡ (err e, t₁)
      → delete_partitions parse shell efi booted devices t s ≡ (err e, t₁, s)
  unfolding delete_partitions delete_all
  ended_by_error devices parts disk t t₁ s e h k = ground arith

  pub ended_by_reset :
      (devices parts : List Device) (disk p : Device) (ps : List Device) (t t₁ : Trace) (s : S)
      → onie_disk devices ≡ ok (disk, parts)
      → sort_descending parse (deletable parts) ≡ p ∷ ps
      → delete_all parse shell devices (p ∷ ps) t ≡ (ok tt, t₁)
      → delete_partitions parse shell efi booted devices t s ≡ (
        (reset_boot_order parse shell efi booted s).0,
        (reread_partition_table shell disk t₁).1,
        (reset_boot_order parse shell efi booted s).1,
      )
  unfolding delete_partitions
  ended_by_reset devices parts disk p ps t t₁ s h k l = ground arith

  -- What was run, in the end.
  abbrev RanThen : List Device → Device → List Device → Trace → Trace → Type 0
  RanThen devices disk ps t t' =
      (t₁ : Trace) × (r₁ : Result Failure (Unit {0})) × Ran parse devices ps t r₁ t₁
      × ((t' ≡ t₁) ⊎ (t' ≡ t₁ ++ partprobe disk.path ∷ []))

  delete_partitions-RanThen :
      (devices parts : List Device) (disk : Device) (t t' : Trace) (s s' : S)
      (r : Result Failure (Unit {0}))
      → onie_disk devices ≡ ok (disk, parts)
      → delete_partitions parse shell efi booted devices t s ≡ (r, t', s')
      → RanThen devices disk (sort_descending parse (deletable parts)) t t'
  delete_partitions-RanThen devices parts disk t t' s s' r h k =
      let d = delete_all parse shell devices (sort_descending parse (deletable parts)) t in
      let ran =
        delete_all-Ran parse devices shell (sort_descending parse (deletable parts)) t d.1 d.0
          refl in
      elim (Result-cases d.0) [
        | inl (e, failed) ↦
            let ended = ended_by_error devices parts disk t d.1 s e h (ap (λ x. (x, d.1)) failed) in
            (d.1, d.0, ran, inl (ground arith))
        | inr (u, done) ↦ elim (List-cases (sort_descending parse (deletable parts))) [
          | inl none_left ↦
              let ended = ended_at_once devices parts disk t s h none_left in
              (
                t,
                ok tt,
                rw none_left ([], [], [], refl, no_run, sym (append-nil t), λ _. refl),
                inl (ground arith),
              )
          | inr (p, ps, some_left) ↦
              let ended = ended_by_reset devices parts disk p ps t d.1 s h some_left (
                sym (ap (λ x. delete_all parse shell devices x t) some_left)
                ∙ ap (λ x. (x, d.1)) done) in
              (
                d.1,
                d.0,
                ran,
                elim (reread-cases disk d.1) [
                  | inl a ↦ inl (ground arith)
                  | inr b ↦ inr (ground arith)
                ],
              )
        ]
      ]

  Ran-Chosen :
      (devices parts : List Device) (disk : Device) (t t' : Trace)
      → onie_disk devices ≡ ok (disk, parts)
      → RanThen devices disk (sort_descending parse (deletable parts)) t t'
      → (new : Trace) × (t' ≡ t ++ new) × All (Chosen devices) new
  Ran-Chosen devices parts disk t t' h (t₁, r₁, (deleted, rest, cs, e, runs, e₁, last), more) =
      let Q : Device → Type 0 = λ p. Occurs p parts × (is_kept p ≡ false) in
      let all : All Q (sort_descending parse (deletable parts)) =
        sort_descending-All parse Q (deletable parts) (deletable-All parts parts (λ p o. o)) in
      let deletions =
        All-map _ (Chosen devices) (λ c (p, (o, k), built). (disk, parts, h, inr (p, o, k, built)))
          cs (Runs-All Q devices deleted cs runs rest (subst (All Q) e all)) in
      elim more [
        | inl same ↦ (cs, same ∙ e₁, deletions)
        | inr reread ↦ (
          cs ++ partprobe disk.path ∷ [],
          reread ∙ ap (λ x. x ++ partprobe disk.path ∷ []) e₁ ∙ append_assoc t cs _,
          All-append (Chosen devices) cs (partprobe disk.path ∷ []) deletions
              ((disk, parts, h, inl refl), tt),
        )
      ]

  delete_partitions-Chosen :
      (devices : List Device) (t t' : Trace) (s s' : S) (r : Result Failure (Unit {0}))
      → delete_partitions parse shell efi booted devices t s ≡ (r, t', s')
      → (new : Trace) × (t' ≡ t ++ new) × All (Chosen devices) new
  delete_partitions-Chosen devices t t' s s' r k = elim (Result-cases (onie_disk devices)) [
    | inl (e, lost) ↦ unfold delete_partitions in ([], ground (arith, append-nil t), tt)
    | inr ((disk, parts), found) ↦
        Ran-Chosen devices parts disk t t' found
          (delete_partitions-RanThen devices parts disk t t' s s' r found k)
  ]

  -- A command that rereads the disk of ONIE, or deletes from it one of its partitions that is not protected.
  abbrev pub Permitted : List Device → Command → Type 0
  Permitted devices c =
      (i : ℕ) × (disk : Device) × IsOnieDisk devices i disk
      × ((c ≡ partprobe disk.path)
          ⊎ ((p : Device) × (parts : List Device) × AreAt devices disk.partitions parts
              × Occurs p parts
              × (p.disk ≡ some i)
              × (¬ IsProtected p)
              × IsDeletion parse disk p c))

  Chosen-Permitted :
      (devices : List Device)
      → LinkedDevices devices
      → (c : Command) → Chosen devices c
      → Permitted devices c
  Chosen-Permitted devices linked c (disk, parts, found, inl reread) =
      let (i, is, _, _) = onie_disk-IsOnieDisk devices parts disk linked found in
      (i, disk, is, inl reread)
  Chosen-Permitted devices linked c (disk, parts, found, inr (p, o, goes, built)) =
      let (i, is, at, backs) = onie_disk-IsOnieDisk devices parts disk linked found in
      let (_, _, _, _, there) = is in
      let back = All-Occurs (λ (q : Device). q.disk ≡ some i) p parts backs o in
      (
        i,
        disk,
        is,
        inr (
          p,
          parts,
          at,
          o,
          back,
          not_kept-IsProtected p goes,
          delete_target-IsDeletion parse devices i disk p c there back built,
        ),
      )

  -- Where the partitions of every disk lead back to it, whatever the results of the commands and the
  -- firmware are, and however it ends, `DeletePartitions` only runs commands that reread a disk with an ONIE
  -- partition, or delete from such a disk, by its own number, one of its partitions that is no EFI, ONIE,
  -- Diag or Hedgehog identity partition.
  pub delete_partitions-IsPermitted :
      (devices : List Device) (t t' : Trace) (s s' : S) (r : Result Failure (Unit {0}))
      → LinkedDevices devices
      → delete_partitions parse shell efi booted devices t s ≡ (r, t', s')
      → (new : Trace) × (t' ≡ t ++ new) × All (Permitted devices) new
  delete_partitions-IsPermitted devices t t' s s' r linked k =
      let (new, e, chosen) = delete_partitions-Chosen devices t t' s s' r k in
      (
        new,
        e,
        All-map (Chosen devices) (Permitted devices) (Chosen-Permitted devices linked) new chosen,
      )
