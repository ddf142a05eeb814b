-- ===== src/Embedded/Padding.antt =====
-- The zero padding of a signature, and its removal.
use das_boot.Prelude.{
  Bool-cases, Bytes, [], ap, arith, if◌then◌else◌, inl, inr, is_empty, refl, replicate, suc, zero,
  ℕ, ◌&&◌, ◌++◌, ◌==◌, ◌∷◌, ◌≡◌,
}
use das_boot.Embedded.Codec.{trim_right}

abbrev pub EndsInZero : Bytes → Type 0
EndsInZero [] = ⊥
EndsInZero (x ∷ []) = x ≡ 0
EndsInZero (x ∷ y ∷ ys) = EndsInZero (y ∷ ys)

trim_right-replicate : (n : ℕ) → trim_right (replicate n 0) ≡ []
unfolding trim_right
trim_right-replicate zero = refl
trim_right-replicate (suc n) = ground (arith, trim_right-replicate n)

-- Padding is removed again, if the signature does not end in a zero byte itself.
pub trim_right-pad : (s : Bytes) (n : ℕ) → ¬ EndsInZero s → trim_right (s ++ replicate n 0) ≡ s
unfolding trim_right
trim_right-pad [] n h = trim_right-replicate n
trim_right-pad (x ∷ []) n h = ground (arith, trim_right-replicate n)
trim_right-pad (x ∷ y ∷ ys) n h = ground (arith, trim_right-pad (y ∷ ys) n h)

last_kept :
    (x : ℕ) (rest : Bytes)
    → ¬ EndsInZero rest
    → ¬ EndsInZero (if x == 0 && is_empty rest then [] else x ∷ rest)
last_kept x [] n h = ground arith
last_kept x (y ∷ ys) n h = ground arith

-- What is left by the removal never ends in a zero byte.
pub not-EndsInZero-trim_right : (s : Bytes) → ¬ EndsInZero (trim_right s)
unfolding trim_right
not-EndsInZero-trim_right [] h = h
not-EndsInZero-trim_right (x ∷ xs) h =
    let rest = not-EndsInZero-trim_right xs in last_kept x (trim_right xs) rest h

-- Padding makes no difference to what is left.
pub trim_right-append_zeroes : (s : Bytes) (n : ℕ) → trim_right (s ++ replicate n 0) ≡ trim_right s
unfolding trim_right
trim_right-append_zeroes [] n = trim_right-replicate n
trim_right-append_zeroes (x ∷ xs) n = rw (trim_right-append_zeroes xs n)

-- Only a suffix is removed.
pub trim_right-prefix : (s : Bytes) → (u : Bytes) × (trim_right s ++ u ≡ s)
unfolding trim_right
trim_right-prefix [] = ([], refl)
trim_right-prefix (x ∷ xs) =
    let (u, e) = trim_right-prefix xs in
    elim (Bool-cases (x == 0 && is_empty (trim_right xs))) [
      | inl all ↦ (x ∷ xs, rw all)
      | inr some_left ↦ (u, rw some_left (ap (◌∷◌ x) e))
    ]
