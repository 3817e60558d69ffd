-- ===== src/Prelude/Maps.antt =====
-- Go's `map`: an association list behind `lookup`, `insert` and `delete`, for keys with an equality
-- test. The program never relies on the order in which it ranges over a map.
use mathlib.Core.Path.{◌≡◌}
use mathlib.Core.Bool.{Bool, true}
use mathlib.Core.Option.{Option, none, some}
use mathlib.Core.List.{List, [], ◌∷◌}
use native.Mathlib.Omega.{arith}
use wego.Prelude.Tests.{if◌then◌else◌}

-- A type that Go can use as a key: `==` on it decides equality.
pub record Key {ℓ} (K : Type ℓ) : Type ℓ where
  pub same : K → K → Bool
  pub same_refl : (k : K) → same k k ≡ true
  pub same_sound : (j k : K) → same j k ≡ true → j ≡ k

abbrev pub same_key {ℓ} : {K : Type ℓ} ⦃key : Key K⦄ → K → K → Bool
same_key ⦃key⦄ = key.same

abbrev pub GoMap {ℓ κ} : Type ℓ → Type κ → Type (ℓ ⊔ κ)
GoMap K V = List (K × V)

module _ {ℓ κ} {K : Type ℓ} {V : Type κ} ⦃key : Key K⦄ where
  -- value, ok := m[k]
  unfoldable pub lookup : K → GoMap K V → Option V
  lookup k [] = none
  lookup k (entry ∷ m) =
      let found = some entry.1 in if key.same entry.0 k then found else lookup k m

  -- delete(m, k)
  unfoldable pub delete : K → GoMap K V → GoMap K V
  delete k [] = []
  delete k (entry ∷ m) =
      let others = delete k m in if key.same entry.0 k then others else entry ∷ others

  -- m[k] = value
  unfoldable pub insert : K → V → GoMap K V → GoMap K V
  unfolding delete
  insert k value m = (k, value) ∷ delete k m

  pub lookup-delete :
      (k j : K) (m : GoMap K V)
      → lookup j (delete k m) ≡ (if key.same k j then none else lookup j m)
  unfolding lookup delete
  lookup-delete k j [] = ground arith
  lookup-delete k j (entry ∷ m) = ground (
    arith,
    key.same_sound entry.0 k,
    key.same_sound entry.0 j,
    key.same_sound k j,
    key.same_refl k,
    key.same_refl j,
    lookup-delete k j m,
  )

  pub lookup-insert :
      (k j : K) (value : V) (m : GoMap K V)
      → lookup j (insert k value m) ≡ (if key.same k j then some value else lookup j m)
  unfolding lookup insert
  lookup-insert k j value m = ground (arith, lookup-delete k j m)
