-- ===== src/Prelude/Steps.antt =====
-- Steps that change a state and may fail.
use mathlib.Core.Path.{◌≡◌, refl}
use mathlib.Core.Logic.{◌⊎◌, inl, inr}
use mathlib.Core.Option.{Option, none, some}
use native.Mathlib.Omega.{arith}

-- A step after a step that writes: it is left out after an error.
abbrev pub then_write : {E S : Type 0} → Option E × S → (S → Option E × S) → Option E × S
then_write (none, s) k = k s
then_write (some e, s) k = (some e, s)

module _ {E S : Type 0} where
  pub then_write-none :
      (m : Option E × S) (k : S → Option E × S) (s' : S)
      → then_write m k ≡ (none, s')
      → (s₁ : S) × (m ≡ (none, s₁)) × (k s₁ ≡ (none, s'))
  then_write-none (none, s₁) k s' h = (s₁, refl, h)
  then_write-none (some e, s₁) k s' h = ground arith

  pub then_write-some :
      (m : Option E × S) (k : S → Option E × S) (e : E) (s' : S)
      → then_write m k ≡ (some e, s')
      → (m ≡ (some e, s')) ⊎ ((s₁ : S) × (m ≡ (none, s₁)) × (k s₁ ≡ (some e, s')))
  then_write-some (none, s₁) k e s' h = inr (s₁, refl, h)
  then_write-some (some f, s₁) k e s' h = inl h

  -- What the first step establishes and the second one keeps.
  pub then_write-state :
      (P : S → Type 0) (m : Option E × S) (k : S → Option E × S)
      → P m.1
      → ((s : S) → P s → P (k s).1)
      → P (then_write m k).1
  then_write-state P (none, s) k first keep = keep s first
  then_write-state P (some e, s) k first keep = first

  pub then_write-cong :
      (m : Option E × S) (k k' : S → Option E × S)
      → ((s : S) → k s ≡ k' s)
      → then_write m k ≡ then_write m k'
  then_write-cong (none, s) k k' h = h s
  then_write-cong (some e, s) k k' h = refl

  pub then_write_assoc :
      (m : Option E × S) (k k' : S → Option E × S)
      → then_write (then_write m k) k' ≡ then_write m (λ s. then_write (k s) k')
  then_write_assoc (none, s) k k' = refl
  then_write_assoc (some e, s) k k' = refl
