-- ===== src/Base/Maps.antt =====
-- `std::map<std::string, V>`: its entries in the order of the keys.
use mathlib.Core.Path.{◌≡◌, refl}
use mathlib.Core.Bool.{false, not}
use mathlib.Core.Option.{Option, none, some}
use mathlib.Core.List.{List, [], ◌∷◌}
use native.Mathlib.Omega.{arith}
use madre.Base.Tests.{if◌then◌else◌}
use madre.Base.Lists.{keep_if}
use madre.Base.Strings.{Text, text_eq, text_eq_iff}
use madre.Base.Split.{text_lt}

abbrev pub Map {ℓ} : Type ℓ → Type ℓ
Map V = List (Text × V)

module _ {ℓ} {V : Type ℓ} where
  -- `map.emplace(key, value)`: an entry that is there stays.
  unfoldable pub emplace : Text → V → Map V → Map V
  emplace key value [] = (key, value) ∷ []
  emplace key value ((k, v) ∷ rest) =
      if text_eq k key
      then (k, v) ∷ rest
      else if text_lt key k
      then (key, value) ∷ (k, v) ∷ rest
      else (k, v) ∷ emplace key value rest

  -- `map[key] = value`
  unfoldable pub assign : Text → V → Map V → Map V
  assign key value [] = (key, value) ∷ []
  assign key value ((k, v) ∷ rest) =
      if text_eq k key
      then (key, value) ∷ rest
      else if text_lt key k
      then (key, value) ∷ (k, v) ∷ rest
      else (k, v) ∷ assign key value rest

  -- `map.find(key)`
  unfoldable pub lookup : Text → Map V → Option V
  lookup key [] = none
  lookup key ((k, v) ∷ rest) = if text_eq k key then some v else lookup key rest

  -- `map.erase(key)`
  unfoldable pub erase : Text → Map V → Map V
  erase key m = keep_if (λ (k, v). not (text_eq k key)) m

  pub lookup-assign_same :
      (key : Text) (value : V) (m : Map V) → lookup key (assign key value m) ≡ some value
  unfolding lookup assign
  lookup-assign_same key value [] = ground (arith, text_eq_iff key key)
  lookup-assign_same key value ((k, v) ∷ m) =
      ground (arith, text_eq_iff key key, lookup-assign_same key value m)

  pub lookup-assign_other :
      (other key : Text) (value : V) (m : Map V)
      → text_eq key other ≡ false
      → lookup other (assign key value m) ≡ lookup other m
  unfolding lookup assign
  lookup-assign_other other key value [] h = ground arith
  lookup-assign_other other key value ((k, v) ∷ m) h =
      ground (arith, text_eq_iff k key, lookup-assign_other other key value m)

  pub lookup-erase_same : (key : Text) (m : Map V) → lookup key (erase key m) ≡ none
  unfolding lookup erase keep_if
  lookup-erase_same key [] = refl
  lookup-erase_same key ((k, v) ∷ m) = ground (arith, lookup-erase_same key m)

  pub lookup-erase_other :
      (other key : Text) (m : Map V)
      → text_eq key other ≡ false
      → lookup other (erase key m) ≡ lookup other m
  unfolding lookup erase keep_if
  lookup-erase_other other key [] h = refl
  lookup-erase_other other key ((k, v) ∷ m) h = ground (
    arith,
    text_eq_iff k key,
    text_eq_iff k other,
    text_eq_iff key other,
    lookup-erase_other other key m,
  )
