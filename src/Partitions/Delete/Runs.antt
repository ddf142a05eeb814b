-- ===== src/Partitions/Delete/Runs.antt =====
-- What the loop of deletions ran: the commands for a first part of the list.
use das_boot.Prelude.{
  Bool-cases, List, Result, Result-cases, [], ap, append-nil, append_assoc, arith, err, false, inl,
  inr, ok, refl, sym, true, ◌++◌, ◌∙◌, ◌∷◌, ◌≡◌,
}
use das_boot.Partitions.Commands.{Command, Failure, Shell, Trace, command_failed}
use das_boot.Partitions.Delete.Defs.{delete_all, delete_device, delete_target}
use das_boot.Partitions.Device.{Device}
use das_boot.Partitions.Uevent.{ParseUint}

module _ (parse : ParseUint) (devices : List Device) where
  -- The commands of the deletions of a list of partitions.
  pub data Runs : List Device → List Command → Type 0 where
    no_run : Runs [] []
    run_of :
        (p : Device) (c : Command) (ps : List Device) (cs : List Command)
        → delete_target parse devices p ≡ ok c
        → Runs ps cs
        → Runs (p ∷ ps) (c ∷ cs)

  -- What is known when the loop over `ps` ended with the result `r` and the trace `t'`.
  abbrev pub Ran : List Device → Trace → Result Failure (Unit {0}) → Trace → Type 0
  Ran ps t r t' =
      (deleted : List Device) × (rest : List Device) × (cs : List Command) × (ps ≡ deleted ++ rest)
      × Runs deleted cs
      × (t' ≡ t ++ cs)
      × (r ≡ ok tt → rest ≡ [])

  Ran-cons :
      (p : Device) (c : Command) (ps : List Device) (t t' : Trace) (r : Result Failure (Unit {0}))
      → delete_target parse devices p ≡ ok c
      → Ran ps (t ++ c ∷ []) r t'
      → Ran (p ∷ ps) t r t'
  Ran-cons p c ps t t' r h (deleted, rest, cs, e, runs, et, last) = (
    p ∷ deleted,
    rest,
    c ∷ cs,
    ap (◌∷◌ p) e,
    run_of p c deleted cs h runs,
    et ∙ append_assoc t (c ∷ []) cs,
    last,
  )

  -- One step of the loop.
  pub delete_all-refused :
      (shell : Shell) (p : Device) (ps : List Device) (t : Trace) (e : Failure)
      → delete_target parse devices p ≡ err e
      → delete_all parse shell devices (p ∷ ps) t ≡ (err e, t)
  unfolding delete_all delete_device
  delete_all-refused shell p ps t e h = ground arith

  pub delete_all-failed :
      (shell : Shell) (p : Device) (c : Command) (ps : List Device) (t : Trace)
      → delete_target parse devices p ≡ ok c
      → shell t c ≡ false
      → delete_all parse shell devices (p ∷ ps) t ≡ (err command_failed, t ++ c ∷ [])
  unfolding delete_all delete_device
  delete_all-failed shell p c ps t h k = ground arith

  pub delete_all-done :
      (shell : Shell) (p : Device) (c : Command) (ps : List Device) (t : Trace)
      → delete_target parse devices p ≡ ok c
      → shell t c ≡ true
      → delete_all parse shell devices (p ∷ ps) t ≡ delete_all parse shell devices ps (t ++ c ∷ [])
  unfolding delete_all delete_device
  delete_all-done shell p c ps t h k = ground arith

  pub delete_all-Ran :
      (shell : Shell) (ps : List Device) (t t' : Trace) (r : Result Failure (Unit {0}))
      → delete_all parse shell devices ps t ≡ (r, t')
      → Ran ps t r t'
  delete_all-Ran shell [] t t' r h =
      unfold delete_all in ([], [], [], refl, no_run, ground (arith, append-nil t), λ _. refl)
  delete_all-Ran shell (p ∷ ps) t t' r h = elim (Result-cases (delete_target parse devices p)) [
    | inl (e, bad) ↦
        let at_once = delete_all-refused shell p ps t e bad in
        ([], p ∷ ps, [], refl, no_run, ground (arith, append-nil t), ground arith)
    | inr (c, built) ↦ elim (Bool-cases (shell t c)) [
      | inl fine ↦ Ran-cons p c ps t t' r built (
          delete_all-Ran shell ps (t ++ c ∷ []) t' r
            (sym (delete_all-done shell p c ps t built fine) ∙ h))
      | inr failed ↦
          let at_c = delete_all-failed shell p c ps t built failed in
          (p ∷ [], ps, c ∷ [], refl, run_of p c [] [] built no_run, ground arith, ground arith)
    ]
  ]
