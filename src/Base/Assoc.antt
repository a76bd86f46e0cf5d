-- ===== src/Base/Assoc.antt =====
-- The standard HashMap with numbers as keys, as an association list.
use Prim.Native.Nat.{ℕ}
use mathlib.Core.Path.{◌≡◌, refl}
use mathlib.Core.List.{List, [], ◌∷◌}
use mathlib.Core.Option.{Option, none, some}
use native.Mathlib.Omega.{arith}
use thrussh_fork.Base.Tests.{◌==◌, if◌then◌else◌}

module _ {ℓ} {V : Type ℓ} where
  unfoldable pub lookup : ℕ → List (ℕ × V) → Option V
  lookup k [] = none
  lookup k ((j, v) ∷ m) = if j == k then some v else lookup k m

  unfoldable pub insert : ℕ → V → List (ℕ × V) → List (ℕ × V)
  insert k v [] = (k, v) ∷ []
  insert k v ((j, w) ∷ m) = if j == k then (k, v) ∷ m else (j, w) ∷ insert k v m

  -- The calls keep at most one entry for each key, so every entry of the key may go.
  unfoldable pub remove : ℕ → List (ℕ × V) → List (ℕ × V)
  remove k [] = []
  remove k ((j, w) ∷ m) = let rest = remove k m in if j == k then rest else (j, w) ∷ rest

  pub lookup-insert :
      (key other : ℕ) (value : V) (m : List (ℕ × V))
      → lookup other (insert key value m) ≡ (if key == other then some value else lookup other m)
  unfolding lookup insert
  lookup-insert key other value [] = refl
  lookup-insert key other value ((k, w) ∷ rest) = ground (arith, lookup-insert key other value rest)

  pub lookup-remove :
      (key other : ℕ) (m : List (ℕ × V))
      → lookup other (remove key m) ≡ (if key == other then none else lookup other m)
  unfolding lookup remove
  lookup-remove key other [] = ground arith
  lookup-remove key other ((k, w) ∷ rest) = ground (arith, lookup-remove key other rest)
