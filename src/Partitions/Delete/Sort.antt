-- ===== src/Partitions/Delete/Sort.antt =====
-- The sorted list of partitions: the same ones, from the highest number down.
use mathlib.Core.List.Perm
use mathlib.Core.List.{Perm}
use das_boot.Prelude.{All, Bool-cases, List, [], arith, inl, inr, leb, ◌∷◌, ◌≤◌}
use das_boot.Partitions.Delete.Defs.{insert_descending, rank_of, sort_descending}
use das_boot.Partitions.Device.{Device}
use das_boot.Partitions.Uevent.{ParseUint}

module _ (parse : ParseUint) where
  abbrev pub IsDescending : List Device → Type 0
  IsDescending [] = Unit
  IsDescending (p ∷ []) = Unit
  IsDescending (p ∷ q ∷ ps) = (rank_of parse q ≤ rank_of parse p) × IsDescending (q ∷ ps)

  insert_descending-perm :
      (p : Device) (l : List Device) → Perm (insert_descending parse p l) (p ∷ l)
  unfolding insert_descending
  insert_descending-perm p [] = Perm.refl (p ∷ [])
  insert_descending-perm p (q ∷ l) = elim (Bool-cases (leb (rank_of parse q) (rank_of parse p))) [
    | inl fits ↦ rw fits (Perm.refl (p ∷ (q ∷ l)))
    | inr later ↦ rw later (Perm.trans (Perm.cons q (insert_descending-perm p l)) (Perm.swap p q l))
  ]

  pub sort_descending-perm : (l : List Device) → Perm (sort_descending parse l) l
  unfolding sort_descending
  sort_descending-perm [] = Perm.refl []
  sort_descending-perm (p ∷ l) =
      Perm.trans (insert_descending-perm p (sort_descending parse l))
        (Perm.cons p (sort_descending-perm l))

  insert_descending-IsDescending :
      (p : Device) (l : List Device) → IsDescending l → IsDescending (insert_descending parse p l)
  unfolding insert_descending
  insert_descending-IsDescending p [] h = tt
  insert_descending-IsDescending p (q ∷ []) h = ground arith
  insert_descending-IsDescending p (q ∷ r ∷ l) h =
      ground (arith, insert_descending-IsDescending p (r ∷ l) h.1)

  pub sort_descending-IsDescending : (l : List Device) → IsDescending (sort_descending parse l)
  unfolding sort_descending
  sort_descending-IsDescending [] = tt
  sort_descending-IsDescending (p ∷ l) =
      insert_descending-IsDescending p (sort_descending parse l) (sort_descending-IsDescending l)

  insert_descending-All :
      (P : Device → Type 0) (p : Device) (l : List Device)
      → P p
      → All P l
      → All P (insert_descending parse p l)
  unfolding insert_descending
  insert_descending-All P p [] h k = (h, tt)
  insert_descending-All P p (q ∷ l) h k =
      elim (Bool-cases (leb (rank_of parse q) (rank_of parse p))) [
        | inl fits ↦ rw fits (h, k)
        | inr later ↦ rw later (k.0, insert_descending-All P p l h k.1)
      ]

  pub sort_descending-All :
      (P : Device → Type 0) (l : List Device) → All P l → All P (sort_descending parse l)
  unfolding sort_descending
  sort_descending-All P [] h = tt
  sort_descending-All P (p ∷ l) h =
      insert_descending-All P p (sort_descending parse l) h.0 (sort_descending-All P l h.1)
