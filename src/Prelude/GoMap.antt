-- ===== src/Prelude/GoMap.antt =====
-- A Go `map[string]V`. The order of entries carries no meaning: Go ranges over a map in any order.
use text.Mathlib.TextEquality.{eq_iff}
use text.Mathlib.Text.{◌==◌}
use Prim.Native.String.{String}
use mathlib.Core.Path.{◌≡◌}
use mathlib.Core.Logic.{◌⊎◌}
use text.Mathlib.TextPositions.{eq_refl}
use mathlib.Core.Option.{Option, none, some}
use mathlib.Core.List.{List, [], ◌∷◌}
use native.Mathlib.Omega.{arith}
use das_boot.Prelude.Tests.{if◌then◌else◌}

abbrev pub Map {ℓ} : Type ℓ → Type ℓ
Map V = List (String × V)

module _ {ℓ} {V : Type ℓ} where
  -- `v, ok := m[k]`
  unfoldable pub get : Map V → String → Option V
  get [] k = none
  get ((j, v) ∷ m) k = if j == k then some v else get m k

  -- `delete(m, k)`
  unfoldable pub delete : Map V → String → Map V
  delete [] k = []
  delete ((j, v) ∷ m) k = let rest = delete m k in if j == k then rest else (j, v) ∷ rest

  -- `m[k] = v`
  unfoldable pub put : Map V → String → V → Map V
  put m k v = (k, v) ∷ delete m k

  pub get-delete :
      (m : Map V) (k j : String) → get (delete m k) j ≡ (if k == j then none else get m j)
  unfolding get delete
  get-delete [] k j = ground arith
  get-delete ((i, v) ∷ m) k j = ground (arith, get-delete m k j, eq_iff i k, eq_iff i j, eq_iff k j)

  pub get-put :
      (m : Map V) (k j : String) (v : V) → get (put m k v) j ≡ (if k == j then some v else get m j)
  unfolding put get
  get-put m k j v = ground (arith, get-delete m k j)

  -- Where an entry that is found after a write or a deletion comes from.
  pub get-put_cases :
      (m : Map V) (k j : String) (v : V) {e : V}
      → get (put m k v) j ≡ some e
      → ((k ≡ j) × (v ≡ e)) ⊎ (get m j ≡ some e)
  get-put_cases m k j v h = ground (arith, get-put m k j v, eq_iff k j)

  pub get-delete-some :
      (m : Map V) (k j : String) {e : V} → get (delete m k) j ≡ some e → get m j ≡ some e
  get-delete-some m k j h = ground (arith, get-delete m k j)

  pub get-delete_self : (m : Map V) (k : String) → get (delete m k) k ≡ none
  get-delete_self m k = simp (get-delete, eq_refl)

  pub get-put_self : (m : Map V) (k : String) (v : V) → get (put m k v) k ≡ some v
  get-put_self m k v = simp (get-put, eq_refl)
