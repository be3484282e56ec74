-- ===== src/Common/Map.antt =====
-- Go's maps as association lists in the order in which a range visits them.
use mathlib.Core.Path.{◌≡◌, refl}
use mathlib.Core.Option.{Option, none, some}
use mathlib.Core.List.{List, [], ◌∷◌}
use native.Mathlib.Omega.{arith}
use network_enforcer.Common.Tests.{if◌then◌else◌}
use network_enforcer.Common.Equality.{Comparable, ◌==◌}

module _ {ℓ κ} {K : Type ℓ} {V : Type κ} ⦃e : Comparable K⦄ where
  unfoldable pub lookup : K → List (K × V) → Option V
  lookup key [] = none
  lookup key ((other, value) ∷ entries) = if other == key then some value else lookup key entries

  unfoldable pub insert : K → V → List (K × V) → List (K × V)
  insert key value [] = (key, value) ∷ []
  insert key value ((other, old) ∷ entries) =
      if other == key then (key, value) ∷ entries else (other, old) ∷ insert key value entries

  unfoldable pub remove : K → List (K × V) → List (K × V)
  remove key [] = []
  remove key ((other, old) ∷ entries) =
      let rest = remove key entries in if other == key then rest else (other, old) ∷ rest

  pub lookup-insert :
      (key other : K) (value : V) (entries : List (K × V))
      → lookup other (insert key value entries)
        ≡ (if key == other then some value else lookup other entries)
  unfolding lookup insert
  lookup-insert key other value [] = refl
  lookup-insert key other value ((here, old) ∷ entries) = ground (
    arith,
    e.equals_iff key other,
    e.equals_iff here key,
    e.equals_iff here other,
    lookup-insert key other value entries,
  )

  pub lookup-remove :
      (key other : K) (entries : List (K × V))
      → lookup other (remove key entries) ≡ (if key == other then none else lookup other entries)
  unfolding lookup remove
  lookup-remove key other [] = ground arith
  lookup-remove key other ((here, old) ∷ entries) = ground (
    arith,
    e.equals_iff key other,
    e.equals_iff here key,
    e.equals_iff here other,
    lookup-remove key other entries,
  )
